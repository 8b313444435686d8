-- ===== src/Base/Tables/Statements.antt =====
-- Tables as lists of rows, and what the SQL statements of the services do to them: a WHERE clause
-- is a test on a row, SELECT keeps the rows that pass, UPDATE rewrites them in place.
use Prim.Native.Nat.{ℕ, suc}
use mathlib.Core.Path.{◌≡◌, refl, ap}
use mathlib.Core.Logic.{inl, inr}
use mathlib.Core.Bool.{Bool, true, false, ◌&&◌}
use mathlib.Core.List.{List, [], ◌∷◌, ◌++◌, map}
use native.Mathlib.Omega.{arith}
use repo_viva.Base.Tests.{if◌then◌else◌, Bool-cases}
use repo_viva.Base.Lists.{length, All, All-mono}

module _ {ℓ} {A : Type ℓ} where
  abbrev pub select_where : (A → Bool) → List A → List A
  select_where p [] = []
  select_where p (r ∷ rs) = let rest = select_where p rs in if p r then r ∷ rest else rest

  abbrev pub update_where : (A → Bool) → (A → A) → List A → List A
  update_where p f [] = []
  update_where p f (r ∷ rs) = (if p r then f r else r) ∷ update_where p f rs

  -- SELECT count(*), and the row count of an UPDATE.
  abbrev pub count_where : (A → Bool) → List A → ℕ
  count_where p [] = 0
  count_where p (r ∷ rs) = let rest = count_where p rs in if p r then suc rest else rest

  pub length-update_where :
      (p : A → Bool) (f : A → A) (rs : List A) → length (update_where p f rs) ≡ length rs
  length-update_where p f [] = refl
  length-update_where p f (r ∷ rs) = ap suc (length-update_where p f rs)

  -- An UPDATE by the test that a SELECT uses rewrites what it selects.
  pub select_where-update_where :
      (q : A → Bool) (f : A → A)
      → ((r : A) → q (f r) ≡ q r)
      → (rs : List A) → select_where q (update_where q f rs) ≡ map f (select_where q rs)
  select_where-update_where q f keep [] = refl
  select_where-update_where q f keep (r ∷ rs) =
      ground (arith, keep r, select_where-update_where q f keep rs)

  -- A test that no row passes.
  pub update_where_none :
      (p : A → Bool) (f : A → A) (rs : List A)
      → All (λ r. p r ≡ false) rs
      → update_where p f rs ≡ rs
  update_where_none p f [] h = refl
  update_where_none p f (r ∷ rs) h = rw (h.0, update_where_none p f rs h.1)

  pub count_where_none :
      (p : A → Bool) (rs : List A) → All (λ r. p r ≡ false) rs → count_where p rs ≡ 0
  count_where_none p [] h = refl
  count_where_none p (r ∷ rs) h = rw h.0 (count_where_none p rs h.1)

  -- After an UPDATE whose new rows fail its test, no row passes it.
  pub update_where_once :
      (p : A → Bool) (f : A → A)
      → ((r : A) → p (f r) ≡ false)
      → (rs : List A) → All (λ r. p r ≡ false) (update_where p f rs)
  update_where_once p f out [] = tt
  update_where_once p f out (r ∷ rs) = elim (Bool-cases (p r)) [
    | inl e ↦ (rw e (out r), update_where_once p f out rs)
    | inr e ↦ (rw e e, update_where_once p f out rs)
  ]

  pub select_where_empty :
      (q : A → Bool) (rs : List A) → select_where q rs ≡ [] → All (λ r. q r ≡ false) rs
  select_where_empty q [] h = tt
  select_where_empty q (r ∷ rs) h = elim (Bool-cases (q r)) [
    | inl e ↦ absurd (cc (rw e at h))
    | inr e ↦ (e, select_where_empty q rs (rw e at h))
  ]

  -- Where a SELECT returned one row, no other row passes its test.
  pub select_where_single :
      (q : A → Bool) (rs : List A) (x : A)
      → select_where q rs ≡ x ∷ []
      → All (λ r. q r ≡ true → r ≡ x) rs
  select_where_single q [] x h = tt
  select_where_single q (r ∷ rs) x h = elim (Bool-cases (q r)) [
    | inl e ↦
        let heads : r ∷ select_where q rs ≡ x ∷ [] = rw e at h in
        (
          (λ _. ground (arith, heads)),
          All-mono (λ s. q s ≡ false) (λ s. q s ≡ true → s ≡ x)
              (λ s miss hit. absurd (cc (miss, hit))) rs
              (select_where_empty q rs (ground (arith, heads))),
        )
    | inr e ↦ ((λ hit. absurd (cc (e, hit))), select_where_single q rs x (rw e at h))
  ]

  -- An UPDATE that leaves the key of a SELECT alone.
  pub select_where-update_other :
      (q p : A → Bool) (f : A → A)
      → ((r : A) → q (f r) ≡ q r)
      → (rs : List A) → select_where q (update_where p f rs) ≡ update_where p f (select_where q rs)
  select_where-update_other q p f keep [] = refl
  select_where-update_other q p f keep (r ∷ rs) =
      ground (arith, keep r, select_where-update_other q p f keep rs)

  pub select_where_and :
      (q p : A → Bool) (rs : List A)
      → select_where (λ r. q r && p r) rs ≡ select_where p (select_where q rs)
  select_where_and q p [] = refl
  select_where_and q p (r ∷ rs) = ground (arith, select_where_and q p rs)

  pub count_where-length :
      (p : A → Bool) (rs : List A) → count_where p rs ≡ length (select_where p rs)
  count_where-length p [] = refl
  count_where-length p (r ∷ rs) = ground (arith, count_where-length p rs)

  pub select_where-append :
      (q : A → Bool) (rs ss : List A)
      → select_where q (rs ++ ss) ≡ select_where q rs ++ select_where q ss
  select_where-append q [] ss = refl
  select_where-append q (r ∷ rs) ss = ground (arith, select_where-append q rs ss)

module _ {ℓ κ} {A : Type ℓ} where
  -- An UPDATE keeps what every row satisfies, if it keeps it of each row that it rewrites.
  pub All-update_where :
      (P : A → Type κ) (p : A → Bool) (f : A → A)
      → ((r : A) → p r ≡ true → P r → P (f r))
      → (rs : List A) → All P rs
      → All P (update_where p f rs)
  All-update_where P p f keep [] h = tt
  All-update_where P p f keep (r ∷ rs) h = elim (Bool-cases (p r)) [
    | inl e ↦ (rw e (keep r e h.0), All-update_where P p f keep rs h.1)
    | inr e ↦ (rw e h.0, All-update_where P p f keep rs h.1)
  ]

  -- A SELECT returns rows of the table that pass its test.
  pub All-select_where :
      (P : A → Type κ) (p : A → Bool) (rs : List A)
      → All P rs
      → All (λ r. P r × (p r ≡ true)) (select_where p rs)
  All-select_where P p [] h = tt
  All-select_where P p (r ∷ rs) h = elim (Bool-cases (p r)) [
    | inl e ↦ rw e ((h.0, e), All-select_where P p rs h.1)
    | inr e ↦ rw e (All-select_where P p rs h.1)
  ]
