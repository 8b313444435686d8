-- ===== src/Base/Tables/History.antt =====
-- How a table may change: each row in place by a relation, and new rows at the end.
use mathlib.Core.Path.{◌≡◌, ◌∙◌}
use mathlib.Core.Logic.{inl, inr}
use mathlib.Core.Bool.{Bool, true}
use mathlib.Core.List.{List, [], ◌∷◌, ◌++◌}
use mathlib.Core.Option.{some}
use native.Mathlib.Omega.{arith}
use repo_viva.Base.Tests.{Bool-cases}
use repo_viva.Base.Lists.{All}
use repo_viva.Base.Tables.Statements.{update_where}
use repo_viva.Base.Tables.Keys.{first_where}

module _ {ℓ} {A : Type ℓ} (R : A → A → Type 0) where
  abbrev pub Evolves : List A → List A → Type 0
  Evolves [] ys = Unit
  Evolves (x ∷ xs) [] = ⊥
  Evolves (x ∷ xs) (y ∷ ys) = R x y × Evolves xs ys

  pub Evolves-refl : ((x : A) → R x x) → (xs : List A) → Evolves xs xs
  Evolves-refl r [] = tt
  Evolves-refl r (x ∷ xs) = (r x, Evolves-refl r xs)

  pub Evolves-trans :
      ((x y z : A) → R x y → R y z → R x z)
      → (xs ys zs : List A) → Evolves xs ys
      → Evolves ys zs
      → Evolves xs zs
  Evolves-trans t [] ys zs h k = tt
  Evolves-trans t (x ∷ xs) [] zs h k = elim h [ ]
  Evolves-trans t (x ∷ xs) (y ∷ ys) [] h k = elim k [ ]
  Evolves-trans t (x ∷ xs) (y ∷ ys) (z ∷ zs) h k =
      (t x y z h.0 k.0, Evolves-trans t xs ys zs h.1 k.1)

  pub Evolves-append : ((x : A) → R x x) → (xs : List A) (y : A) → Evolves xs (xs ++ y ∷ [])
  Evolves-append r [] y = tt
  Evolves-append r (x ∷ xs) y = (r x, Evolves-append r xs y)

  pub Evolves-update_where :
      (p : A → Bool) (f : A → A)
      → ((x : A) → R x x)
      → (xs : List A) → All (λ x. p x ≡ true → R x (f x)) xs
      → Evolves xs (update_where p f xs)
  Evolves-update_where p f r [] s = tt
  Evolves-update_where p f r (x ∷ xs) s = elim (Bool-cases (p x)) [
    | inl e ↦ (rw e (s.0 e), Evolves-update_where p f r xs s.1)
    | inr e ↦ (rw e (r x), Evolves-update_where p f r xs s.1)
  ]

  -- A row found by a key that `R` keeps is found again, related to what it was.
  pub Evolves-first_where :
      (q : A → Bool)
      → ((x y : A) → R x y → q y ≡ q x)
      → (xs ys : List A) → Evolves xs ys
      → (x : A) → first_where q xs ≡ some x
      → (y : A) × (first_where q ys ≡ some y) × R x y
  Evolves-first_where q key [] ys h x e = absurd (cc e)
  Evolves-first_where q key (a ∷ xs) [] h x e = elim h [ ]
  Evolves-first_where q key (a ∷ xs) (b ∷ ys) h x e = elim (Bool-cases (q a)) [
    | inl hit ↦ let same : a ≡ x = ground (arith, e) in (b, rw (key a b h.0 ∙ hit), rw (← same) h.0)
    | inr miss ↦
        let rest = Evolves-first_where q key xs ys h.1 x (rw miss at e) in
        (rest.0, rw (key a b h.0 ∙ miss) rest.1, rest.2)
  ]
