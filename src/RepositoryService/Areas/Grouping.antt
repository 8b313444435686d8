-- ===== src/RepositoryService/Areas/Grouping.antt =====
-- One pass over the files of a prefix: _areas_under of
-- repository-service/src/repository_service/retrieval/areas.py.
use mathlib.Core.Bool.{false≢true}
use mathlib.Core.Option.{some-injective}
use repo_viva.Base.{
  ℕ, ◌+◌, ◌≤◌, ◌≡◌, refl, sym, ap, subst, ◌∙◌, String, Bool, true, false, Option, none, some, [],
  ◌∷◌, arith, inl, inr, Bool-cases, if◌then◌else◌, All, Distinct, str_eq, eq_iff, eq_refl, is_some,
  text_length, drop_prefix,
}
use repo_viva.RepositoryService.Areas.{
  FileCounts, Groups, ends_with_slash, has_slash, head_part, dir_path, group_file, group_from,
}
use repo_viva.RepositoryService.Areas.Paths.{
  head_part-no_slash, starts_with_head, head_unique, in_dir, not_in_dir, ends_with_slash-dir_path,
  prefix-not_longer,
}
use repo_viva.RepositoryService.Areas.Counts.{
  covers, sum_covered, total_at, same_path, total_at-add_count, All-add_count, Distinct-add_count,
  Names,
}

Bool-ext : (a b : Bool) → (a ≡ true → b ≡ true) → (b ≡ true → a ≡ true) → a ≡ b
Bool-ext true b f g = sym (f refl)
Bool-ext false true f g = absurd (false≢true (g refl))
Bool-ext false false f g = refl

-- A directory directly under the prefix, with a file in it.
abbrev pub IsDirUnder : String → ℕ → String → Type 0
IsDirUnder p bound q =
    (h : String) × (has_slash h ≡ false)
    × (q ≡ dir_path p h)
    × (f : String) × (is_some (drop_prefix q f) ≡ true)
    × (text_length q ≤ bound)

-- A file directly under the prefix.
abbrev pub IsFileUnder : String → ℕ → String → Type 0
IsFileUnder p bound q =
    (r : String) × (drop_prefix p q ≡ some r)
    × (has_slash r ≡ false)
    × (ends_with_slash q ≡ false)
    × (text_length q ≤ bound)

module _ (p : String) (bound : ℕ) where
  file_dirs :
      (f : String) (n : ℕ) (o : Option String) (g : Groups)
      → drop_prefix p f ≡ o
      → text_length f ≤ bound
      → All (λ a. IsDirUnder p bound a.path) g.dirs
      → All (λ a. IsDirUnder p bound a.path) (group_file p f n o g).dirs
  file_dirs f n none g e b h = h
  file_dirs f n (some rest) g e b h = elim (Bool-cases (has_slash rest)) [
    | inl s ↦
        rw s (All-add_count (IsDirUnder p bound) (dir_path p (head_part rest)) n g.dirs (new s) h)
    | inr s ↦ rw s h
  ]
    where
      new : has_slash rest ≡ true → IsDirUnder p bound (dir_path p (head_part rest))
      new s =
          let inside : is_some (drop_prefix (dir_path p (head_part rest)) f) ≡ true =
            in_dir p (head_part rest) f rest e ∙ starts_with_head rest s in
          (
            head_part rest,
            head_part-no_slash rest,
            refl,
            f,
            inside,
            omega (arith, b, prefix-not_longer (dir_path p (head_part rest)) f inside),
          )

  file_files :
      (f : String) (n : ℕ) (o : Option String) (g : Groups)
      → drop_prefix p f ≡ o
      → (ends_with_slash f ≡ false) × (text_length f ≤ bound)
      → All (λ a. IsFileUnder p bound a.path) g.files
      → All (λ a. IsFileUnder p bound a.path) (group_file p f n o g).files
  file_files f n none g e b h = h
  file_files f n (some rest) g e b h = elim (Bool-cases (has_slash rest)) [
    | inl s ↦ rw s h
    | inr s ↦ rw s (All-add_count (IsFileUnder p bound) f n g.files (rest, e, s, b.0, b.1) h)
  ]

  file-Distinct :
      (f : String) (n : ℕ) (o : Option String) (g : Groups)
      → Distinct same_path g.dirs × Distinct same_path g.files
      → Distinct same_path (group_file p f n o g).dirs
        × Distinct same_path (group_file p f n o g).files
  file-Distinct f n none g d = d
  file-Distinct f n (some rest) g d = elim (Bool-cases (has_slash rest)) [
    | inl s ↦ rw s (Distinct-add_count (dir_path p (head_part rest)) n g.dirs d.0, d.1)
    | inr s ↦ rw s (d.0, Distinct-add_count f n g.files d.1)
  ]

  -- Whether the directory that a file is counted for is the one with this part.
  same_dir :
      (f rest h : String)
      → drop_prefix p f ≡ some rest
      → has_slash rest ≡ true
      → has_slash h ≡ false
      → str_eq (dir_path p (head_part rest)) (dir_path p h) ≡ is_some (drop_prefix (dir_path p h) f)
  same_dir f rest h e s n =
      Bool-ext (str_eq (dir_path p (head_part rest)) (dir_path p h))
        (is_some (drop_prefix (dir_path p h) f)) there back
    where
      there :
          str_eq (dir_path p (head_part rest)) (dir_path p h) ≡ true
          → is_some (drop_prefix (dir_path p h) f) ≡ true
      there same =
          subst (λ q. is_some (drop_prefix q f) ≡ true)
            ((eq_iff (dir_path p (head_part rest)) (dir_path p h)).0 same)
            (in_dir p (head_part rest) f rest e ∙ starts_with_head rest s)

      back :
          is_some (drop_prefix (dir_path p h) f) ≡ true
          → str_eq (dir_path p (head_part rest)) (dir_path p h) ≡ true
      back inside =
          let (_, same) = head_unique h rest n (sym (in_dir p h f rest e) ∙ inside) in
          rw same (eq_refl (dir_path p h))

  dir_total :
      (f : String) (n : ℕ) (o : Option String) (g : Groups) (h : String)
      → drop_prefix p f ≡ o
      → has_slash h ≡ false
      → total_at (dir_path p h) (group_file p f n o g).dirs
        ≡ total_at (dir_path p h) g.dirs + (if covers (dir_path p h) f then n else 0)
  dir_total f n none g h e s = rw (ends_with_slash-dir_path p h, not_in_dir p h f e) (omega arith)
  dir_total f n (some rest) g h e s = elim (Bool-cases (has_slash rest)) [
    | inl t ↦
        rw
          (
            ends_with_slash-dir_path p h,
            t,
            total_at-add_count (dir_path p (head_part rest)) n (dir_path p h) g.dirs,
            same_dir f rest h e t s,
          )
          refl
    | inr t ↦ rw (ends_with_slash-dir_path p h, t, outside t) (omega arith)
  ]
    where
      outside : has_slash rest ≡ false → is_some (drop_prefix (dir_path p h) f) ≡ false
      outside t = elim (Bool-cases (is_some (drop_prefix (dir_path p h) f))) [
        | inl inside ↦
            absurd (cc ((head_unique h rest s (sym (in_dir p h f rest e) ∙ inside)).0, t))
        | inr d ↦ d
      ]

  file_total :
      (f : String) (n : ℕ) (o : Option String) (g : Groups) (q : String)
      → drop_prefix p f ≡ o
      → IsFileUnder p bound q
      → total_at q (group_file p f n o g).files ≡ total_at q g.files + (if covers q f then n else 0)
  file_total f n none g q e (r, under, single, file, b) = rw (file, differs) (omega arith)
    where
      differs : str_eq q f ≡ false
      differs = elim (Bool-cases (str_eq q f)) [
        | inl same ↦ absurd (cc (ap (drop_prefix p) ((eq_iff q f).0 same), under, e))
        | inr d ↦ d
      ]
  file_total f n (some rest) g q e (r, under, single, file, b) =
      elim (Bool-cases (has_slash rest)) [
        | inl t ↦ rw (file, t, differs t) (omega arith)
        | inr t ↦
            rw
              (
                file,
                t,
                total_at-add_count f n q g.files,
                Bool-ext (str_eq f q) (str_eq q f) (flip f q) (flip q f),
              )
              refl
      ]
    where
      flip : (s t : String) → str_eq s t ≡ true → str_eq t s ≡ true
      flip s t h = (eq_iff t s).1 (sym ((eq_iff s t).0 h))

      differs : has_slash rest ≡ true → str_eq q f ≡ false
      differs t = elim (Bool-cases (str_eq q f)) [
        | inl same ↦
            let rests : r ≡ rest =
              some-injective r rest (sym under ∙ ap (drop_prefix p) ((eq_iff q f).0 same) ∙ e) in
            absurd (cc (ap has_slash rests, single, t))
        | inr d ↦ d
      ]

-- The counters after some files: paths, keys and totals.
module _ (p : String) (bound : ℕ) where
  pub group_from-dirs :
      (fs : FileCounts) (g : Groups)
      → Names bound fs
      → All (λ a. IsDirUnder p bound a.path) g.dirs
      → All (λ a. IsDirUnder p bound a.path) (group_from p fs g).dirs
  group_from-dirs [] g b h = h
  group_from-dirs ((f, n) ∷ fs) g b h =
      group_from-dirs fs (group_file p f n (drop_prefix p f) g) b.1
        (file_dirs p bound f n (drop_prefix p f) g refl b.0.1 h)

  pub group_from-files :
      (fs : FileCounts) (g : Groups)
      → Names bound fs
      → All (λ a. IsFileUnder p bound a.path) g.files
      → All (λ a. IsFileUnder p bound a.path) (group_from p fs g).files
  group_from-files [] g b h = h
  group_from-files ((f, n) ∷ fs) g b h =
      group_from-files fs (group_file p f n (drop_prefix p f) g) b.1
        (file_files p bound f n (drop_prefix p f) g refl b.0 h)

  pub group_from-Distinct :
      (fs : FileCounts) (g : Groups)
      → Distinct same_path g.dirs × Distinct same_path g.files
      → Distinct same_path (group_from p fs g).dirs × Distinct same_path (group_from p fs g).files
  group_from-Distinct [] g d = d
  group_from-Distinct ((f, n) ∷ fs) g d =
      group_from-Distinct fs (group_file p f n (drop_prefix p f) g)
        (file-Distinct p bound f n (drop_prefix p f) g d)

  pub group_from-dir_total :
      (fs : FileCounts) (g : Groups) (h : String)
      → has_slash h ≡ false
      → total_at (dir_path p h) (group_from p fs g).dirs
        ≡ total_at (dir_path p h) g.dirs + sum_covered (dir_path p h) fs
  group_from-dir_total [] g h s = omega arith
  group_from-dir_total ((f, n) ∷ fs) g h s = omega (
    arith,
    group_from-dir_total fs (group_file p f n (drop_prefix p f) g) h s,
    dir_total p bound f n (drop_prefix p f) g h refl s,
  )

  pub group_from-file_total :
      (fs : FileCounts) (g : Groups) (q : String)
      → IsFileUnder p bound q
      → total_at q (group_from p fs g).files ≡ total_at q g.files + sum_covered q fs
  group_from-file_total [] g q u = omega arith
  group_from-file_total ((f, n) ∷ fs) g q u = omega (
    arith,
    group_from-file_total fs (group_file p f n (drop_prefix p f) g) q u,
    file_total p bound f n (drop_prefix p f) g q refl u,
  )
