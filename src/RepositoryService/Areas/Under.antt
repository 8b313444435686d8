-- ===== src/RepositoryService/Areas/Under.antt =====
-- The areas directly under a prefix: _areas_under of
-- repository-service/src/repository_service/retrieval/areas.py.
use mathlib.Core.Bool.{false≢true}
use mathlib.Core.Option.{some-injective}
use repo_viva.Base.{
  ℕ, zero, suc, ◌+◌, ◌≤◌, ◌<◌, ◌≡◌, refl, sym, ap, subst, ◌∙◌, String, true, false, Option, none,
  some, List, [], ◌∷◌, arith, All, All-mono, Distinct, Pairs, Sorted, sort_by-Sorted,
  text_leb_total, text_leb_trans, All-sort_by, Pairs-sort_by, str_eq, eq_iff, eq_refl, is_some,
  text_length, drop_prefix,
}
use repo_viva.RepositoryService.Areas.{
  Area, FileCounts, ends_with_slash, head_part, dir_path, group, choose, areas_under, comes_first,
  largest_first,
}
use repo_viva.RepositoryService.Areas.Paths.{
  head_unique, in_dir, not_in_dir, ends_with_slash-dir_path, dir_path-longer,
}
use repo_viva.RepositoryService.Areas.Counts.{
  covers, sum_covered, total_at, same_path, total_at-Distinct, Names,
}
use repo_viva.RepositoryService.Areas.Grouping.{
  IsDirUnder, IsFileUnder, group_from-dirs, group_from-files, group_from-Distinct,
  group_from-dir_total, group_from-file_total,
}

-- No file belongs to both areas.
abbrev pub Apart : Area → Area → Type 0
Apart a b = (f : String) → covers a.path f ≡ true → covers b.path f ≡ true → ⊥

-- An area counts the chunks of its files, has one, and its files start with the prefix.
abbrev pub IsAreaUnder : FileCounts → String → ℕ → Area → Type 0
IsAreaUnder fs p bound a =
    (a.chunk_count ≡ sum_covered a.path fs)
    × ((f : String) × (covers a.path f ≡ true))
    × (text_length a.path ≤ bound)
    × ((f : String) → covers a.path f ≡ true → is_some (drop_prefix p f) ≡ true)

abbrev pub AreAreas : FileCounts → String → ℕ → List Area → Type 0
AreAreas fs p bound xs = All (IsAreaUnder fs p bound) xs × Pairs Apart xs

-- The areas, largest first.
abbrev pub AreOrderedAreas : FileCounts → String → ℕ → List Area → Type 0
AreOrderedAreas fs p bound xs = AreAreas fs p bound xs × Sorted comes_first xs

comes_first_total : (a b : Area) → comes_first a b ≡ false → comes_first b a ≡ true
comes_first_total a b h = ground (arith, text_leb_total a.path b.path)

comes_first_trans :
    (a b c : Area) → comes_first a b ≡ true → comes_first b c ≡ true → comes_first a c ≡ true
comes_first_trans a b c g h = ground (arith, text_leb_trans a.path b.path c.path)

pub Apart-symmetric : (a b : Area) → Apart a b → Apart b a
Apart-symmetric a b h f ca cb = h f cb ca

pub sorted-AreOrderedAreas :
    (fs : FileCounts) (p : String) (bound : ℕ) (xs : List Area)
    → AreAreas fs p bound xs
    → AreOrderedAreas fs p bound (largest_first xs)
sorted-AreOrderedAreas fs p bound xs h = (
  (
    All-sort_by comes_first (IsAreaUnder fs p bound) xs h.0,
    Pairs-sort_by comes_first Apart Apart-symmetric xs h.1,
  ),
  sort_by-Sorted comes_first comes_first_total comes_first_trans xs,
)

-- Different paths of one kind are apart when any two of that kind are.
Pairs-Apart :
    (P : String → Type 0)
    → ((a b : Area) → P a.path → P b.path → str_eq a.path b.path ≡ false → Apart a b)
    → (xs : List Area) → All (λ a. P a.path) xs
    → Distinct same_path xs
    → Pairs Apart xs
Pairs-Apart P apart [] h d = tt
Pairs-Apart P apart (a ∷ xs) h d = (go xs h.1 d.0, Pairs-Apart P apart xs h.1 d.1)
  where
    go :
        (ys : List Area)
        → All (λ b. P b.path) ys
        → All (λ b. same_path a b ≡ false) ys
        → All (Apart a) ys
    go [] k n = tt
    go (b ∷ ys) k n = (apart a b h.0 k.0 n.0, go ys k.1 n.1)

module _ (p : String) (bound : ℕ) where
  -- A file in a directory under the prefix has the directory's part behind it.
  part_of :
      (q : String) (u : IsDirUnder p bound q) (f : String)
      → covers q f ≡ true
      → (rest : String) × (drop_prefix p f ≡ some rest) × (head_part rest ≡ u.0)
  part_of q (h, s, same, g, ig, b) f c = go (drop_prefix p f) refl
    where
      inside : is_some (drop_prefix (dir_path p h) f) ≡ true
      inside =
          let c' : covers (dir_path p h) f ≡ true = subst (λ t. covers t f ≡ true) same c in
          rw (ends_with_slash-dir_path p h) at c'

      go :
          (o : Option String)
          → drop_prefix p f ≡ o
          → (rest : String) × (drop_prefix p f ≡ some rest) × (head_part rest ≡ h)
      go none e = absurd (false≢true (sym (not_in_dir p h f e) ∙ inside))
      go (some rest) e = (rest, e, (head_unique h rest s (sym (in_dir p h f rest e) ∙ inside)).1)

  dirs-Apart :
      (a b : Area)
      → IsDirUnder p bound a.path
      → IsDirUnder p bound b.path
      → str_eq a.path b.path ≡ false
      → Apart a b
  dirs-Apart a b (h, s, same, g, ig, w) (k, t, like, g', ig', v) differ f ca cb =
      let (rest, e, first) = part_of a.path (h, s, same, g, ig, w) f ca in
      let (rest', e', second) = part_of b.path (k, t, like, g', ig', v) f cb in
      let rests : rest ≡ rest' = some-injective rest rest' (sym e ∙ e') in
      let parts : h ≡ k = sym first ∙ ap head_part rests ∙ second in
      false≢true (sym differ ∙ (eq_iff a.path b.path).1 (same ∙ ap (dir_path p) parts ∙ sym like))

  file_alone : (q : String) → IsFileUnder p bound q → (f : String) → covers q f ≡ true → q ≡ f
  file_alone q (r, e, s, file, w) f c =
      let c' : str_eq q f ≡ true = rw file at c in (eq_iff q f).0 c'

  files-Apart :
      (a b : Area)
      → IsFileUnder p bound a.path
      → IsFileUnder p bound b.path
      → str_eq a.path b.path ≡ false
      → Apart a b
  files-Apart a b u v differ f ca cb = false≢true (
      sym differ
      ∙ (eq_iff a.path b.path).1 (file_alone a.path u f ca ∙ sym (file_alone b.path v f cb)))

module _ (fs : FileCounts) (p : String) (bound : ℕ) (names : Names bound fs) where
  dirs-IsDirUnder : All (λ a. IsDirUnder p bound a.path) (group p fs).dirs
  unfolding group
  dirs-IsDirUnder = group_from-dirs p bound fs (record { dirs = []; files = [] }) names tt

  files-IsFileUnder : All (λ a. IsFileUnder p bound a.path) (group p fs).files
  unfolding group
  files-IsFileUnder = group_from-files p bound fs (record { dirs = []; files = [] }) names tt

  keys : Distinct same_path (group p fs).dirs × Distinct same_path (group p fs).files
  unfolding group
  keys = group_from-Distinct p bound fs (record { dirs = []; files = [] }) (tt, tt)

  dir-IsAreaUnder :
      (a : Area)
      → (total_at a.path (group p fs).dirs ≡ a.chunk_count) × IsDirUnder p bound a.path
      → IsAreaUnder fs p bound a
  unfolding group
  dir-IsAreaUnder a (total, (h, s, same, f, inside, b)) = (counted, (f, covered), b, under)
    where
      slash : ends_with_slash a.path ≡ true
      slash = ap ends_with_slash same ∙ ends_with_slash-dir_path p h

      at_dir : total_at (dir_path p h) (group p fs).dirs ≡ sum_covered (dir_path p h) fs
      at_dir = omega (arith, group_from-dir_total p bound fs (record { dirs = []; files = [] }) h s)

      counted : a.chunk_count ≡ sum_covered a.path fs
      counted =
          sym total
          ∙ ap (λ q. total_at q (group p fs).dirs) same
          ∙ at_dir
          ∙ ap (λ q. sum_covered q fs) (sym same)

      covered : covers a.path f ≡ true
      covered = rw slash inside

      under : (g : String) → covers a.path g ≡ true → is_some (drop_prefix p g) ≡ true
      under g c =
          let (rest, e, _) = part_of p bound a.path (h, s, same, f, inside, b) g c in ap is_some e

  file-IsAreaUnder :
      (a : Area)
      → (total_at a.path (group p fs).files ≡ a.chunk_count) × IsFileUnder p bound a.path
      → IsAreaUnder fs p bound a
  unfolding group
  file-IsAreaUnder a (total, (r, e, s, file, b)) = (counted, (a.path, covered), b, under)
    where
      counted : a.chunk_count ≡ sum_covered a.path fs
      counted = omega (
        arith,
        total,
        group_from-file_total p bound fs (record { dirs = []; files = [] }) a.path
            (r, e, s, file, b),
      )

      covered : covers a.path a.path ≡ true
      covered = rw file (eq_refl a.path)

      under : (g : String) → covers a.path g ≡ true → is_some (drop_prefix p g) ≡ true
      under g c =
          subst (λ q. is_some (drop_prefix p q) ≡ true)
            (file_alone p bound a.path (r, e, s, file, b) g c) (ap is_some e)

  both :
      (P Q : Area → Type 0)
      → ((a : Area) → P a × Q a → IsAreaUnder fs p bound a)
      → (xs : List Area) → All P xs
      → All Q xs
      → All (IsAreaUnder fs p bound) xs
  both P Q f [] h k = tt
  both P Q f (a ∷ xs) h k = (f a (h.0, k.0), both P Q f xs h.1 k.1)

  pub dirs-AreAreas : AreAreas fs p bound (group p fs).dirs
  dirs-AreAreas = (
    both (λ a. total_at a.path (group p fs).dirs ≡ a.chunk_count) (λ a. IsDirUnder p bound a.path)
        dir-IsAreaUnder (group p fs).dirs (total_at-Distinct (group p fs).dirs keys.0)
        dirs-IsDirUnder,
    Pairs-Apart (IsDirUnder p bound) (dirs-Apart p bound) (group p fs).dirs dirs-IsDirUnder keys.0,
  )

  pub files-AreAreas : AreAreas fs p bound (group p fs).files
  files-AreAreas = (
    both (λ a. total_at a.path (group p fs).files ≡ a.chunk_count) (λ a. IsFileUnder p bound a.path)
        file-IsAreaUnder (group p fs).files (total_at-Distinct (group p fs).files keys.1)
        files-IsFileUnder,
    Pairs-Apart (IsFileUnder p bound) (files-Apart p bound) (group p fs).files files-IsFileUnder
        keys.1,
  )

-- Areas under a directory that lies under a prefix lie under the prefix.
pub deeper-AreAreas :
    (fs : FileCounts) (p q : String) (bound : ℕ)
    → ((f : String) → is_some (drop_prefix q f) ≡ true → is_some (drop_prefix p f) ≡ true)
    → (xs : List Area) → AreAreas fs q bound xs
    → AreAreas fs p bound xs
deeper-AreAreas fs p q bound below xs h = (
  All-mono (IsAreaUnder fs q bound) (IsAreaUnder fs p bound)
      (λ a (counted, some_file, b, under). (counted, some_file, b, λ f c. below f (under f c))) xs
      h.0,
  h.1,
)

-- `_areas_under` ends within its fuel, with areas of the files under the prefix.
pub areas_under-AreOrderedAreas :
    (fs : FileCounts) (bound : ℕ)
    → Names bound fs
    → (fuel : ℕ) (p : String) → text_length p ≤ bound
    → bound < fuel + text_length p
    → (xs : List Area) × (areas_under fuel p fs ≡ some xs) × AreOrderedAreas fs p bound xs
unfolding areas_under
areas_under-AreOrderedAreas fs bound names zero p short enough = absurd (omega arith)
areas_under-AreOrderedAreas fs bound names (suc fuel) p short enough =
    go (λ q. areas_under-AreOrderedAreas fs bound names fuel q) (group p fs).dirs
      (dirs-AreAreas fs p bound names) (dirs-IsDirUnder fs p bound names)
  where
    go :
        ((q : String)
          → text_length q ≤ bound
          → bound < fuel + text_length q
          → (xs : List Area) × (areas_under fuel q fs ≡ some xs) × AreOrderedAreas fs q bound xs)
        → (ds : List Area) → AreAreas fs p bound ds
        → All (λ a. IsDirUnder p bound a.path) ds
        → (xs : List Area) × (choose (group p fs).files (λ path. areas_under fuel path fs) ds
            ≡ some xs)
          × AreOrderedAreas fs p bound xs
    go deeper [] h u = (
      largest_first (group p fs).files,
      refl,
      sorted-AreOrderedAreas fs p bound (group p fs).files (files-AreAreas fs p bound names),
    )
    go deeper (d ∷ e ∷ more) h u =
        (largest_first (d ∷ e ∷ more), refl, sorted-AreOrderedAreas fs p bound (d ∷ e ∷ more) h)
    go deeper (d ∷ []) h u =
        let (part, s, same, f, inside, b) = u.0 in
        let (xs, found, areas) =
          deeper d.path b (omega (arith, enough, dir_path-longer p part, ap text_length same)) in
        let (_, _, _, under) = h.0.0 in
        let slash : ends_with_slash d.path ≡ true =
          ap ends_with_slash same ∙ ends_with_slash-dir_path p part in
        (
          xs,
          found,
          (deeper-AreAreas fs p d.path bound (λ g c. under g (rw slash c)) xs areas.0, areas.1),
        )
