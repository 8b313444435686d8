-- ===== src/RepositoryService/Areas.antt =====
-- repository-service/src/repository_service/retrieval/areas.py. `file_counts` is the list of its
-- items, with the file names as distinct keys. Loops have fuel and give none when it is used up.
pub mod Paths
pub mod Counts
pub mod Grouping
pub mod Under
pub mod Picked
use Prim.Native.Char.{code}
use repo_viva.Base.{
  ℕ, zero, suc, ◌+◌, String, Bool, true, false, not, ◌&&◌, ◌||◌, Option, none, some, List, [], ◌∷◌,
  ◌++◌, ltb, leb, ◌==◌, if◌then◌else◌, length, take, str_eq, text_length, text_append, text_leb,
  drop_prefix, sort_by, select_where,
}

pub record Area : Type 0 where
  pub path : String
  pub chunk_count : ℕ

abbrev pub FileCounts : Type 0
FileCounts = List (String × ℕ)

-- `partition("/")`: the part before the first slash, and whether there is one.
abbrev pub head_part : String → String
head_part String.[] = String.[]
head_part (String.◌∷◌ c s) =
    let rest = head_part s in if code c == b'/' then String.[] else String.◌∷◌ c rest

abbrev pub has_slash : String → Bool
has_slash String.[] = false
has_slash (String.◌∷◌ c s) = code c == b'/' || has_slash s

-- `path.endswith("/")`.
abbrev pub ends_with_slash : String → Bool
ends_with_slash String.[] = false
ends_with_slash (String.◌∷◌ c String.[]) = code c == b'/'
ends_with_slash (String.◌∷◌ c (String.◌∷◌ d s)) = ends_with_slash (String.◌∷◌ d s)

-- `counter[path] += count`.
abbrev pub add_count : String → ℕ → List Area → List Area
add_count path count [] = record { path = path; chunk_count = count } ∷ []
add_count path count (a ∷ xs) =
    let rest = add_count path count xs in
    if str_eq a.path path
    then record { path = a.path; chunk_count = a.chunk_count + count } ∷ xs
    else a ∷ rest

-- The counters `dirs` and `files`.
pub record Groups : Type 0 where
  pub dirs : List Area
  pub files : List Area

-- f"{prefix}{head}/".
abbrev pub dir_path : String → String → String
dir_path prefix head = text_append prefix (text_append head "/")

abbrev pub group_file : String → String → ℕ → Option String → Groups → Groups
group_file prefix filename count none g = g
group_file prefix filename count (some rest) g =
    if has_slash rest
    then record g { dirs = add_count (dir_path prefix (head_part rest)) count g.dirs }
    else record g { files = add_count filename count g.files }

abbrev pub group_from : String → FileCounts → Groups → Groups
group_from prefix [] g = g
group_from prefix ((filename, count) ∷ fs) g =
    group_from prefix fs (group_file prefix filename count (drop_prefix prefix filename) g)

unfoldable pub group : String → FileCounts → Groups
group prefix fs = group_from prefix fs (record { dirs = []; files = [] })

-- `_largest_first`.
abbrev pub comes_first : Area → Area → Bool
comes_first a b =
    ltb b.chunk_count a.chunk_count || (a.chunk_count == b.chunk_count && text_leb a.path b.path)

abbrev pub largest_first : List Area → List Area
largest_first = sort_by comes_first

-- `_areas_under`: one directory is stepped into, more are the areas, and without one the files.
abbrev pub choose : List Area → (String → Option (List Area)) → List Area → Option (List Area)
choose files step_into [] = some (largest_first files)
choose files step_into (dir ∷ []) = step_into dir.path
choose files step_into (dir ∷ other ∷ more) = some (largest_first (dir ∷ other ∷ more))

unfoldable pub areas_under : ℕ → String → FileCounts → Option (List Area)
unfolding group
areas_under zero prefix fs = none
areas_under (suc fuel) prefix fs =
    choose (group prefix fs).files (λ path. areas_under fuel path fs) (group prefix fs).dirs

abbrev pub longest : FileCounts → ℕ
longest [] = 0
longest ((filename, count) ∷ fs) =
    let rest = longest fs in if ltb rest (text_length filename) then text_length filename else rest

-- Every round makes the prefix longer, and it never gets longer than a file name.
unfoldable pub list_areas_under : String → FileCounts → Option (List Area)
unfolding areas_under
list_areas_under prefix fs = areas_under (suc (longest fs)) prefix fs

-- The first area that splits, with its children; the outer none is the end of the fuel.
abbrev pub split_area :
    Area
    → Option (List Area)
    → Option (Option (Area × List Area))
    → Option (Option (Area × List Area))
split_area a none rest = none
split_area a (some children) rest =
    if leb 2 (length children) then some (some (a, children)) else rest

unfoldable pub find_split : FileCounts → List Area → Option (Option (Area × List Area))
unfolding list_areas_under
find_split fs [] = some none
find_split fs (a ∷ xs) =
    let rest = find_split fs xs in
    if ends_with_slash a.path then split_area a (list_areas_under a.path fs) rest else rest

abbrev pub same_area : Area → Area → Bool
same_area a b = str_eq a.path b.path && a.chunk_count == b.chunk_count

abbrev pub without : Area → List Area → List Area
without a xs = select_where (λ b. not (same_area b a)) xs

-- The loop of `pick_areas`.
abbrev pub split_step :
    List Area
    → (List Area → Option (List Area))
    → Option (Option (Area × List Area))
    → Option (List Area)
split_step areas again none = none
split_step areas again (some none) = some areas
split_step areas again (some (some (area, children))) =
    again (largest_first (without area areas ++ children))

unfoldable pub split_loop : ℕ → FileCounts → ℕ → List Area → Option (List Area)
unfolding find_split
split_loop zero fs limit areas = none
split_loop (suc fuel) fs limit areas = elim (ltb (length areas) limit) [
  | false ↦ some areas
  | true ↦ split_step areas (λ next. split_loop fuel fs limit next) (find_split fs areas)
]

abbrev pub first_areas : ℕ → Option (List Area) → Option (List Area)
first_areas limit none = none
first_areas limit (some areas) = some (take limit areas)

-- Every round but the last makes the list longer, so it takes at most `limit` of them.
abbrev pub split_root : FileCounts → ℕ → Option (List Area) → Option (List Area)
split_root fs limit none = none
split_root fs limit (some areas) = first_areas limit (split_loop (suc limit) fs limit areas)

unfoldable pub pick_areas : FileCounts → ℕ → Option (List Area)
unfolding split_loop list_areas_under
pick_areas fs limit = split_root fs limit (list_areas_under "" fs)
