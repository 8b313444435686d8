-- ===== src/Base/Tables/Keys.antt =====
-- Unique keys: a query by a unique key finds at most one row.
use mathlib.Core.Path.{◌≡◌, refl, ap, ◌∙◌}
use mathlib.Core.Logic.{inl, inr}
use mathlib.Core.Bool.{Bool, true, false}
use mathlib.Core.List.{List, [], ◌∷◌, ◌++◌}
use mathlib.Core.Option.{Option, none, some}
use native.Mathlib.Omega.{arith}
use repo_viva.Base.Tests.{if◌then◌else◌, Bool-cases}
use repo_viva.Base.Lists.{All}
use repo_viva.Base.Tables.Statements.{select_where, update_where}

module _ {ℓ} {A : Type ℓ} where
  -- The first row that passes a test.
  abbrev pub first_where : (A → Bool) → List A → Option A
  first_where q [] = none
  first_where q (r ∷ rs) = if q r then some r else first_where q rs

  -- No two rows have the same key.
  abbrev pub Distinct : (A → A → Bool) → List A → Type 0
  Distinct same [] = Unit
  Distinct same (r ∷ rs) = All (λ s. same r s ≡ false) rs × Distinct same rs

  pub first_where-holds :
      (q : A → Bool) (rs : List A) (r : A) → first_where q rs ≡ some r → q r ≡ true
  first_where-holds q [] r h = cc
  first_where-holds q (x ∷ rs) r h = elim (Bool-cases (q x)) [
    | inl e ↦ ground (arith, ap (λ (o : Option A). o) h)
    | inr e ↦ first_where-holds q rs r (rw e at h)
  ]

  pub select_where_none :
      (q : A → Bool) (rs : List A) → All (λ r. q r ≡ false) rs → select_where q rs ≡ []
  select_where_none q [] h = refl
  select_where_none q (r ∷ rs) h = rw h.0 (select_where_none q rs h.1)

  pub All-first_where {κ} :
      (P : A → Type κ) (q : A → Bool) (rs : List A) (r : A)
      → All P rs
      → first_where q rs ≡ some r
      → P r
  All-first_where P q [] r h e = absurd (cc e)
  All-first_where P q (x ∷ rs) r h e = elim (Bool-cases (q x)) [
    | inl hit ↦ let same : x ≡ r = ground (arith, e) in rw same at (h.0)
    | inr miss ↦ All-first_where P q rs r h.1 (rw miss at e)
  ]

  pub select_where_missing :
      (q : A → Bool) (rs : List A) → first_where q rs ≡ none → select_where q rs ≡ []
  select_where_missing q [] h = refl
  select_where_missing q (r ∷ rs) h = ground (arith, select_where_missing q rs)

  pub first_where-update_where :
      (q p : A → Bool) (f : A → A)
      → ((r : A) → q (f r) ≡ q r)
      → (rs : List A)
      → first_where q (update_where p f rs)
        ≡ elim (first_where q rs) [ none ↦ none | some r ↦ some (if p r then f r else r) ]
  first_where-update_where q p f keep [] = refl
  first_where-update_where q p f keep (r ∷ rs) =
      ground (arith, keep r, first_where-update_where q p f keep rs)

  pub first_where-append :
      (q : A → Bool) (rs : List A) (x : A)
      → first_where q (rs ++ x ∷ [])
        ≡ elim (first_where q rs) [ none ↦ if q x then some x else none | some r ↦ some r ]
  first_where-append q [] x = ground arith
  first_where-append q (r ∷ rs) x = ground (arith, first_where-append q rs x)

module _ {ℓ} {A : Type ℓ} (same : A → A → Bool) where
  pub Distinct-append :
      (rs : List A) (x : A)
      → All (λ r. same r x ≡ false) rs
      → Distinct same rs
      → Distinct same (rs ++ x ∷ [])
  Distinct-append [] x h d = (tt, tt)
  Distinct-append (r ∷ rs) x h d = (snoc rs d.0, Distinct-append rs x h.1 d.1)
    where
      snoc :
          (ss : List A)
          → All (λ s. same r s ≡ false) ss
          → All (λ s. same r s ≡ false) (ss ++ x ∷ [])
      snoc [] k = (h.0, tt)
      snoc (s ∷ ss) k = (k.0, snoc ss k.1)

  All-same-update_where :
      (p : A → Bool) (f : A → A) (r : A)
      → ((s : A) → same r (f s) ≡ same r s)
      → (rs : List A) → All (λ s. same r s ≡ false) rs
      → All (λ s. same r s ≡ false) (update_where p f rs)
  All-same-update_where p f r keep [] h = tt
  All-same-update_where p f r keep (s ∷ rs) h = elim (Bool-cases (p s)) [
    | inl e ↦ (rw e (keep s ∙ h.0), All-same-update_where p f r keep rs h.1)
    | inr e ↦ (rw e h.0, All-same-update_where p f r keep rs h.1)
  ]

  pub Distinct-update_where :
      (p : A → Bool) (f : A → A)
      → ((r s : A) → same (f r) s ≡ same r s)
      → ((r s : A) → same r (f s) ≡ same r s)
      → (rs : List A) → Distinct same rs
      → Distinct same (update_where p f rs)
  Distinct-update_where p f left right [] d = tt
  Distinct-update_where p f left right (r ∷ rs) d = elim (Bool-cases (p r)) [
    | inl e ↦ (
      rw e (moved rs (All-same-update_where p f r (right r) rs d.0)),
      Distinct-update_where p f left right rs d.1,
    )
    | inr e ↦ (
      rw e (All-same-update_where p f r (right r) rs d.0),
      Distinct-update_where p f left right rs d.1,
    )
  ]
    where
      moved_all :
          (ss : List A) → All (λ s. same r s ≡ false) ss → All (λ s. same (f r) s ≡ false) ss
      moved_all [] k = tt
      moved_all (s ∷ ss) k = (left r s ∙ k.0, moved_all ss k.1)

      moved :
          (ss : List A)
          → All (λ s. same r s ≡ false) (update_where p f ss)
          → All (λ s. same (f r) s ≡ false) (update_where p f ss)
      moved ss k = moved_all (update_where p f ss) k

  All-miss :
      (q : A → Bool) (r : A)
      → ((s : A) → q s ≡ true → same r s ≡ true)
      → (rs : List A) → All (λ s. same r s ≡ false) rs
      → All (λ s. q s ≡ false) rs
  All-miss q r key [] h = tt
  All-miss q r key (s ∷ rs) h = elim (Bool-cases (q s)) [
    | inl e ↦ absurd (cc (key s e, h.0))
    | inr e ↦ (e, All-miss q r key rs h.1)
  ]

  -- A query by a unique key selects the first match and nothing else.
  pub select_where_key :
      (q : A → Bool)
      → ((r s : A) → q r ≡ true → q s ≡ true → same r s ≡ true)
      → (rs : List A) → Distinct same rs
      → select_where q rs ≡ elim (first_where q rs) [ none ↦ [] | some r ↦ r ∷ [] ]
  select_where_key q key [] d = refl
  select_where_key q key (r ∷ rs) d = elim (Bool-cases (q r)) [
    | inl e ↦ rw e (
        ap (λ (t : List A). r ∷ t)
          (select_where_none q rs (All-miss q r (λ s qs. key r s e qs) rs d.0)))
    | inr e ↦ rw e (select_where_key q key rs d.1)
  ]
