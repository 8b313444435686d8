-- ===== src/RepositoryService/Areas/Picked.antt =====
-- The splitting of areas: pick_areas of
-- repository-service/src/repository_service/retrieval/areas.py.
use mathlib.Core.Option.{some-injective}
use repo_viva.Base.{
  ℕ, zero, suc, ◌+◌, ◌≤◌, ◌≡◌, refl, sym, ap, subst, ◌⊎◌, String, true, false, not, ◌==◌, Option,
  none, some, List, [], ◌∷◌, ◌++◌, arith, inl, inr, Bool-cases, both_true, ltb, leb, ==_refl,
  length, take, length-append, length-take, length-sort_by, All, All-mono, All-append, All-take,
  All-selected, Pairs, Pairs-select_where, Pairs-append, Pairs-take, str_eq, eq_iff, eq_refl, ◌<◌,
  text_leb, Pairs-mono,
}
use repo_viva.RepositoryService.Areas.{
  Area, FileCounts, ends_with_slash, comes_first, largest_first, longest, list_areas_under,
  split_area, find_split, same_area, without, split_step, split_loop, pick_areas,
}
use repo_viva.RepositoryService.Areas.Counts.{covers, sum_covered, Names, longest-bounds}
use repo_viva.RepositoryService.Areas.Under.{
  Apart, Apart-symmetric, IsAreaUnder, AreAreas, AreOrderedAreas, sorted-AreOrderedAreas,
  deeper-AreAreas, areas_under-AreOrderedAreas,
}

abbrev HasFile : Area → Type 0
HasFile a = (f : String) × (covers a.path f ≡ true)

abbrev In : Area → List Area → Type 0
In a [] = ⊥
In a (x ∷ xs) = (a ≡ x) ⊎ In a xs

All-In : (P : Area → Type 0) (a : Area) (xs : List Area) → All P xs → In a xs → P a
All-In P a [] h m = absurd m
All-In P a (x ∷ xs) h (inl e) = subst P (sym e) h.0
All-In P a (x ∷ xs) h (inr m) = All-In P a xs h.1 m

-- Areas that are apart are different.
Apart-differ : (a b : Area) → HasFile a → Apart a b → same_area b a ≡ false
Apart-differ a b (f, c) apart = elim (Bool-cases (same_area b a)) [
  | inl e ↦
      let (paths, _) = both_true (str_eq b.path a.path) (b.chunk_count == a.chunk_count) e in
      absurd (apart f c (subst (λ q. covers q f ≡ true) (sym ((eq_iff b.path a.path).0 paths)) c))
  | inr e ↦ e
]

without_none : (a : Area) → HasFile a → (xs : List Area) → All (Apart a) xs → without a xs ≡ xs
without_none a file [] h = refl
without_none a file (b ∷ xs) h =
    rw (Apart-differ a b file h.0) (ap (λ (t : List Area). b ∷ t) (without_none a file xs h.1))

same_area_refl : (a : Area) → same_area a a ≡ true
same_area_refl a = rw (eq_refl a.path, ==_refl a.chunk_count) refl

-- An area is taken out once: what is left is apart from it, and one shorter at most.
without_lem :
    (a : Area)
    → HasFile a
    → (xs : List Area) → Pairs Apart xs
    → In a xs
    → All (Apart a) (without a xs) × (length xs ≤ suc (length (without a xs)))
without_lem a file [] h m = absurd m
without_lem a file (x ∷ xs) h (inl e) =
    let apart : All (Apart a) xs = subst (λ b. All (Apart b) xs) (sym e) h.0 in
    let self : same_area x a ≡ true = subst (λ b. same_area b a ≡ true) e (same_area_refl a) in
    let left : without a xs ≡ xs = without_none a file xs apart in
    rw (self, left) (apart, omega arith)
without_lem a file (x ∷ xs) h (inr m) =
    let apart : Apart a x = Apart-symmetric x a (All-In (Apart x) a xs h.0 m) in
    let (others, long) = without_lem a file xs h.1 m in
    rw (Apart-differ a x file apart) ((apart, others), omega (arith, long))

module _ (fs : FileCounts) (bound : ℕ) (within : bound ≡ longest fs) (names : Names bound fs) where
  -- A found split: an area of the list, and its children.
  abbrev IsSplit : List Area → Option (Area × List Area) → Type 0
  IsSplit xs none = Unit
  IsSplit xs (some (a, children)) =
      In a xs
      × (ends_with_slash a.path ≡ true)
      × (2 ≤ length children)
      × AreAreas fs a.path bound children

  found_later :
      (x : Area) (xs : List Area) (o : Option (Area × List Area))
      → IsSplit xs o
      → IsSplit (x ∷ xs) o
  found_later x xs none h = tt
  found_later x xs (some (a, children)) h = (inr h.0, h.1, h.2, h.3)

  abbrev Found : List Area → Option (Option (Area × List Area)) → Type 0
  Found xs o = (s : Option (Area × List Area)) × (o ≡ some s) × IsSplit xs s

  split_here :
      (a : Area) (xs children : List Area) (rest : Option (Option (Area × List Area)))
      → ends_with_slash a.path ≡ true
      → AreAreas fs a.path bound children
      → Found xs rest
      → Found (a ∷ xs) (split_area a (some children) rest)
  split_here a xs children rest slash areas (s, e, h) =
      elim (Bool-cases (leb 2 (length children))) [
        | inl two ↦ rw two (some (a, children), refl, (inl refl, slash, ground (arith, two), areas))
        | inr few ↦ rw few (s, e, found_later a xs s h)
      ]

  find_split-Found :
      (xs : List Area) → All (IsAreaUnder fs "" bound) xs → Found xs (find_split fs xs)
  unfolding find_split list_areas_under
  find_split-Found [] h = (none, refl, tt)
  find_split-Found (a ∷ xs) h = go (find_split-Found xs h.1)
    where
      go : Found xs (find_split fs xs) → Found (a ∷ xs) (find_split fs (a ∷ xs))
      go (s, e, later) = elim (Bool-cases (ends_with_slash a.path)) [
        | inr file ↦ rw file (s, e, found_later a xs s later)
        | inl slash ↦
            let (_, _, short, _) = h.0 in
            let (children, found, (areas, _)) =
              areas_under-AreOrderedAreas fs bound names (suc (longest fs)) a.path short
                (omega (arith, within)) in
            rw (slash, found)
              (split_here a xs children (find_split fs xs) slash areas (s, e, later))
      ]

  -- The list after a split: it is longer, and still one of areas.
  split-AreAreas :
      (xs : List Area) (a : Area) (children : List Area)
      → AreAreas fs "" bound xs
      → IsSplit xs (some (a, children))
      → AreAreas fs "" bound (without a xs ++ children)
        × (suc (length xs) ≤ length (without a xs ++ children))
  split-AreAreas xs a children h (m, slash, two, areas) = (
    (
      All-append (IsAreaUnder fs "" bound) (without a xs) children kept all_children.0,
      Pairs-append Apart (without a xs) children (Pairs-select_where Apart _ xs h.1) areas.1
          (All-mono (Apart a) (λ b. All (Apart b) children) across (without a xs) parted.0),
    ),
    omega (arith, length-append (without a xs) children, parted.1, two),
  )
    where
      file : HasFile a
      file = (All-In (IsAreaUnder fs "" bound) a xs h.0 m).1

      parted : All (Apart a) (without a xs) × (length xs ≤ suc (length (without a xs)))
      parted = without_lem a file xs h.1 m

      kept : All (IsAreaUnder fs "" bound) (without a xs)
      kept = All-selected (IsAreaUnder fs "" bound) (λ b. not (same_area b a)) xs h.0

      all_children : AreAreas fs "" bound children
      all_children = deeper-AreAreas fs "" a.path bound (λ f c. refl) children areas

      across : (b : Area) → Apart a b → All (Apart b) children
      across b apart =
          All-mono (IsAreaUnder fs a.path bound) (Apart b)
            (λ c (_, _, _, under) f in_b in_c. apart f (rw slash (under f in_c)) in_b) children
            areas.0

  abbrev Ends : Option (List Area) → Type 0
  Ends o = (ys : List Area) × (o ≡ some ys) × AreOrderedAreas fs "" bound ys

  split_step-Ends :
      (xs : List Area) (again : List Area → Option (List Area))
      (o : Option (Option (Area × List Area)))
      → AreOrderedAreas fs "" bound xs
      → Found xs o
      → ((ys : List Area)
          → suc (length xs) ≤ length ys
          → AreOrderedAreas fs "" bound ys
          → Ends (again ys))
      → Ends (split_step xs again o)
  split_step-Ends xs again none h (s, e, w) k = cc
  split_step-Ends xs again (some none) h w k = (xs, refl, h)
  split_step-Ends xs again (some (some (a, children))) h (s, e, w) k =
      let split : IsSplit xs (some (a, children)) =
        subst (IsSplit xs) (sym (some-injective (some (a, children)) s e)) w in
      let (areas, longer) = split-AreAreas xs a children h.0 split in
      k (largest_first (without a xs ++ children))
        (omega (arith, longer, length-sort_by comes_first (without a xs ++ children)))
        (sorted-AreOrderedAreas fs "" bound (without a xs ++ children) areas)

  split_loop-Ends :
      (limit fuel : ℕ) (xs : List Area)
      → limit ≤ fuel + length xs
      → AreOrderedAreas fs "" bound xs
      → Ends (split_loop (suc fuel) fs limit xs)
  unfolding split_loop
  split_loop-Ends limit zero xs enough h =
      let full : ltb (length xs) limit ≡ false = ground arith in (xs, rw (split_loop, full) refl, h)
  split_loop-Ends limit (suc fuel) xs enough h = elim (Bool-cases (ltb (length xs) limit)) [
    | inr full ↦ (xs, rw (split_loop, full) refl, h)
    | inl room ↦
        let (ys, e, areas) =
          split_step-Ends xs (λ next. split_loop (suc fuel) fs limit next) (find_split fs xs) h
            (find_split-Found xs h.0.0)
            (λ ys longer areas.
              split_loop-Ends limit fuel ys (omega (arith, enough, longer)) areas) in
        (ys, rw (split_loop, room) e, areas)
  ]

-- More chunks come first, and of as many the path that comes first in the order of texts.
abbrev pub LargerFirst : Area → Area → Type 0
LargerFirst a b =
    (b.chunk_count < a.chunk_count)
    ⊎ ((a.chunk_count ≡ b.chunk_count) × (text_leb a.path b.path ≡ true))

larger_first : (a b : Area) → comes_first a b ≡ true → LargerFirst a b
larger_first a b h = elim (Bool-cases (ltb b.chunk_count a.chunk_count)) [
  | inl e ↦ inl (ground (arith, e))
  | inr e ↦ inr (ground (arith, e, h))
]

-- What pick_areas promises of its result.
abbrev pub Picks : FileCounts → ℕ → Option (List Area) → Type 0
Picks fs limit none = ⊥
Picks fs limit (some xs) =
    (length xs ≤ limit)
    × All (λ a. (a.chunk_count ≡ sum_covered a.path fs) × ((f : String) × (covers a.path f ≡ true)))
        xs
    × Pairs (λ a b. (f : String) → covers a.path f ≡ true → covers b.path f ≡ true → ⊥) xs
    × Pairs LargerFirst xs

-- The areas of a repository are found within the fuel, where no file name ends with a slash: there
-- are at most `limit` of them, each counts exactly the chunks of the files in it, no file belongs
-- to two of them, and an area stands before all that have fewer chunks, or as many and a later
-- path.
pub pick_areas-Picks :
    (fs : FileCounts) (limit : ℕ)
    → All (λ f. ends_with_slash f.0 ≡ false) fs
    → Picks fs limit (pick_areas fs limit)
unfolding pick_areas list_areas_under
pick_areas-Picks fs limit files =
    let names = longest-bounds (longest fs) fs (omega arith) files in
    let (xs, e, h) =
      areas_under-AreOrderedAreas fs (longest fs) names (suc (longest fs)) "" (omega arith)
        (omega arith) in
    let (ys, e', k) = split_loop-Ends fs (longest fs) refl names limit limit xs (omega arith) h in
    rw (e, e')
      (
        length-take limit ys,
        All-mono (IsAreaUnder fs "" (longest fs))
            (λ a.
              (a.chunk_count ≡ sum_covered a.path fs) × ((f : String) × (covers a.path f ≡ true)))
            (λ a (counted, some_file, _, _). (counted, some_file)) (take limit ys)
            (All-take (IsAreaUnder fs "" (longest fs)) limit ys k.0.0),
        Pairs-take Apart limit ys k.0.1,
        Pairs-mono (λ a b. comes_first a b ≡ true) LargerFirst larger_first (take limit ys)
            (Pairs-take (λ a b. comes_first a b ≡ true) limit ys k.1),
      )
