-- ===== src/RepositoryService/Areas/Counts.antt =====
-- Counters of paths: the sums of repository-service/src/repository_service/retrieval/areas.py.
use repo_viva.Base.{
  ℕ, ◌+◌, ◌≤◌, ◌≡◌, refl, sym, String, Bool, false, List, [], ◌∷◌, arith, inl, inr, Bool-cases,
  if◌then◌else◌, All, Distinct, str_eq, eq_iff, eq_refl, is_some, text_length, drop_prefix,
}
use repo_viva.RepositoryService.Areas.{Area, FileCounts, ends_with_slash, add_count, longest}

-- The files of an area: those below a directory, or the file itself.
abbrev pub covers : String → String → Bool
covers path filename =
    if ends_with_slash path then is_some (drop_prefix path filename) else str_eq path filename

abbrev pub sum_covered : String → FileCounts → ℕ
sum_covered path [] = 0
sum_covered path ((filename, count) ∷ fs) =
    (if covers path filename then count else 0) + sum_covered path fs

-- What a counter holds for a path.
abbrev pub total_at : String → List Area → ℕ
total_at path [] = 0
total_at path (a ∷ xs) = (if str_eq a.path path then a.chunk_count else 0) + total_at path xs

abbrev pub same_path : Area → Area → Bool
same_path a b = str_eq a.path b.path

pub total_at-add_count :
    (path : String) (count : ℕ) (q : String) (xs : List Area)
    → total_at q (add_count path count xs) ≡ total_at q xs + (if str_eq path q then count else 0)
total_at-add_count path count q [] = omega arith
total_at-add_count path count q (a ∷ xs) = elim (Bool-cases (str_eq a.path path)) [
  | inl e ↦ let same : a.path ≡ path = (eq_iff a.path path).0 e in rw e (rw same (ground arith))
  | inr e ↦ rw e (omega (arith, total_at-add_count path count q xs))
]

pub All-add_count {κ} :
    (P : String → Type κ) (path : String) (count : ℕ) (xs : List Area)
    → P path
    → All (λ a. P a.path) xs
    → All (λ a. P a.path) (add_count path count xs)
All-add_count P path count [] h hs = (h, tt)
All-add_count P path count (a ∷ xs) h hs = elim (Bool-cases (str_eq a.path path)) [
  | inl e ↦ rw e (hs.0, hs.1)
  | inr e ↦ rw e (hs.0, All-add_count P path count xs h hs.1)
]

pub Distinct-add_count :
    (path : String) (count : ℕ) (xs : List Area)
    → Distinct same_path xs
    → Distinct same_path (add_count path count xs)
Distinct-add_count path count [] d = (tt, tt)
Distinct-add_count path count (a ∷ xs) d = elim (Bool-cases (str_eq a.path path)) [
  | inl e ↦ rw e (d.0, d.1)
  | inr e ↦ rw e (
    All-add_count (λ q. str_eq a.path q ≡ false) path count xs e d.0,
    Distinct-add_count path count xs d.1,
  )
]

total_at_missing :
    (q : String) (xs : List Area) → All (λ b. str_eq q b.path ≡ false) xs → total_at q xs ≡ 0
total_at_missing q [] h = refl
total_at_missing q (b ∷ xs) h = rw differs (omega (arith, total_at_missing q xs h.1))
  where
    differs : str_eq b.path q ≡ false
    differs = elim (Bool-cases (str_eq b.path q)) [
      | inl e ↦ absurd (cc ((eq_iff q b.path).1 (sym ((eq_iff b.path q).0 e)), h.0))
      | inr e ↦ e
    ]

-- With distinct paths each entry holds all that its path was given.
pub total_at-Distinct :
    (xs : List Area) → Distinct same_path xs → All (λ a. total_at a.path xs ≡ a.chunk_count) xs
total_at-Distinct [] d = tt
total_at-Distinct (a ∷ xs) d = (here, later xs d.0 (total_at-Distinct xs d.1))
  where
    here : total_at a.path (a ∷ xs) ≡ a.chunk_count
    here = rw (eq_refl a.path, total_at_missing a.path xs d.0) (omega arith)

    later :
        (ys : List Area)
        → All (λ b. str_eq a.path b.path ≡ false) ys
        → All (λ b. total_at b.path xs ≡ b.chunk_count) ys
        → All (λ b. total_at b.path (a ∷ xs) ≡ b.chunk_count) ys
    later [] n h = tt
    later (b ∷ ys) n h = (rw (n.0, h.0) (omega arith), later ys n.1 h.1)

-- All names of the files are at most so long, and none is the name of a directory.
abbrev pub Names : ℕ → FileCounts → Type 0
Names bound fs = All (λ f. (ends_with_slash f.0 ≡ false) × (text_length f.0 ≤ bound)) fs

pub longest-bounds :
    (bound : ℕ) (fs : FileCounts)
    → longest fs ≤ bound
    → All (λ f. ends_with_slash f.0 ≡ false) fs
    → Names bound fs
longest-bounds bound [] h files = tt
longest-bounds bound ((filename, count) ∷ fs) h files =
    ((files.0, ground arith), longest-bounds bound fs (ground arith) files.1)
