-- ===== src/Base/Sorting.antt =====
-- `sorted` with a key, as insertion sort by a test of order: stable, and a reordering of its input.
use Prim.Native.Nat.{ℕ, zero, suc}
use mathlib.Core.Bool.{Bool, true, false}
use mathlib.Core.List.{List, [], ◌∷◌, ◌++◌, Perm, Permᴰ}
use mathlib.Core.List.Perm
use mathlib.Core.Path.{◌≡◌, refl, sym, ap, ap₂, subst, ◌∙◌}
use mathlib.Core.Logic.{inl, inr, ∥∥₁_elim}
use mathlib.Core.HLevel.{×_prop}
use repo_viva.Base.Tests.{if◌then◌else◌, Bool-cases}
use repo_viva.Base.Lists.{All, All-append, All-take, All-mono, length, take}
use repo_viva.Base.Tables.Statements.{select_where, All-select_where}

-- Any two elements at different places are related.
abbrev pub Pairs {ℓ κ} : {A : Type ℓ} → (A → A → Type κ) → List A → Type κ
Pairs R [] = Unit
Pairs R (x ∷ xs) = All (R x) xs × Pairs R xs

module _ {ℓ} {A : Type ℓ} (before : A → A → Bool) where
  abbrev pub insert_by : A → List A → List A
  insert_by x [] = x ∷ []
  insert_by x (y ∷ ys) = let rest = insert_by x ys in if before x y then x ∷ y ∷ ys else y ∷ rest

  abbrev pub sort_by : List A → List A
  sort_by [] = []
  sort_by (x ∷ xs) = insert_by x (sort_by xs)

  pub insert_by-perm : (x : A) (ys : List A) → Perm (insert_by x ys) (x ∷ ys)
  insert_by-perm x [] = Perm.refl (x ∷ [])
  insert_by-perm x (y ∷ ys) = elim (Bool-cases (before x y)) [
    | inl e ↦ rw e (Perm.refl (x ∷ y ∷ ys))
    | inr e ↦ rw e (Perm.trans (Perm.cons y (insert_by-perm x ys)) (Perm.swap x y ys))
  ]

  pub sort_by-perm : (xs : List A) → Perm (sort_by xs) xs
  sort_by-perm [] = Perm.nil
  sort_by-perm (x ∷ xs) = Perm.trans (insert_by-perm x (sort_by xs)) (Perm.cons x (sort_by-perm xs))

  -- Each element stands before all that follow it.
  abbrev pub Sorted : List A → Type 0
  Sorted xs = Pairs (λ x y. before x y ≡ true) xs

  module _ (total : (x y : A) → before x y ≡ false → before y x ≡ true)
      (trans : (x y z : A) → before x y ≡ true → before y z ≡ true → before x z ≡ true) where
    All-insert_by :
        (z x : A) (ys : List A)
        → before z x ≡ true
        → All (λ y. before z y ≡ true) ys
        → All (λ y. before z y ≡ true) (insert_by x ys)
    All-insert_by z x [] h hs = (h, tt)
    All-insert_by z x (y ∷ ys) h hs = elim (Bool-cases (before x y)) [
      | inl e ↦ rw e (h, hs)
      | inr e ↦ rw e (hs.0, All-insert_by z x ys h hs.1)
    ]

    All-before :
        (x y : A) (ys : List A)
        → before x y ≡ true
        → All (λ z. before y z ≡ true) ys
        → All (λ z. before x z ≡ true) ys
    All-before x y [] h hs = tt
    All-before x y (z ∷ ys) h hs = (trans x y z h hs.0, All-before x y ys h hs.1)

    pub insert_by-Sorted : (x : A) (ys : List A) → Sorted ys → Sorted (insert_by x ys)
    insert_by-Sorted x [] s = (tt, tt)
    insert_by-Sorted x (y ∷ ys) s = elim (Bool-cases (before x y)) [
      | inl e ↦ rw e ((e, All-before x y ys e s.0), s)
      | inr e ↦ rw e (All-insert_by y x ys (total x y e) s.0, insert_by-Sorted x ys s.1)
    ]

    pub sort_by-Sorted : (xs : List A) → Sorted (sort_by xs)
    sort_by-Sorted [] = tt
    sort_by-Sorted (x ∷ xs) = insert_by-Sorted x (sort_by xs) (sort_by-Sorted xs)

module _ {ℓ κ} {A : Type ℓ} (P : A → Type κ) (pP : (a : A) → IsProp (P a)) where
  All-prop : (xs : List A) → IsProp (All P xs)
  All-prop [] = hlevel
  All-prop (x ∷ xs) = ×_prop (pP x) (All-prop xs)

  All-permᴰ : {xs ys : List A} → Permᴰ xs ys → All P xs → All P ys
  All-permᴰ Permᴰ.nil h = h
  All-permᴰ (Permᴰ.cons e p) h = (subst P e h.0, All-permᴰ p h.1)
  All-permᴰ (Permᴰ.swap e f) h = (subst P f h.1.0, (subst P e h.0, h.1.1))
  All-permᴰ (Permᴰ.trans p q) h = All-permᴰ q (All-permᴰ p h)

  -- What holds of every element holds of every element in another order.
  pub All-perm : {xs ys : List A} → Perm xs ys → All P xs → All P ys
  All-perm {xs} {ys} p h = ∥∥₁_elim p (All-prop ys) (λ d. All-permᴰ d h)

module _ {ℓ} {A : Type ℓ} (before : A → A → Bool) (reflexive : (x : A) → before x x ≡ true)
    (same : (x y : A) → before x y ≡ true → before y x ≡ true → x ≡ y) where
  -- There is one way to put elements in order.
  pub Sorted-unique : (xs ys : List A) → Sorted before xs → Sorted before ys → Perm xs ys → xs ≡ ys
  Sorted-unique [] ys s t p = sym (Perm.eq-nil (Perm.symm p))
  Sorted-unique (x ∷ xs) [] s t p = Perm.eq-nil p
  Sorted-unique (x ∷ xs) (y ∷ ys) s t p =
      ap₂ (λ (z : A) (zs : List A). z ∷ zs) heads (Sorted-unique xs ys s.1 t.1 tails)
    where
      least :
          (z : A) {us vs : List A}
          → Perm us vs
          → All (λ u. before z u ≡ true) us
          → All (λ v. before z v ≡ true) vs
      least z q h = All-perm (λ u. before z u ≡ true) (λ u. hlevel) q h

      heads : x ≡ y
      heads = same x y (least x p (reflexive x, s.0)).0 (least y (Perm.symm p) (reflexive y, t.0)).0

      tails : Perm xs ys
      tails = Perm.cons_inv (subst (λ z. Perm (x ∷ xs) (z ∷ ys)) (sym heads) p)

module _ {ℓ κ} {A : Type ℓ} (before : A → A → Bool) (P : A → Type κ) where
  All-inserted : (x : A) (ys : List A) → P x → All P ys → All P (insert_by before x ys)
  All-inserted x [] h hs = (h, tt)
  All-inserted x (y ∷ ys) h hs = elim (Bool-cases (before x y)) [
    | inl e ↦ rw e (h, hs)
    | inr e ↦ rw e (hs.0, All-inserted x ys h hs.1)
  ]

  pub All-sort_by : (xs : List A) → All P xs → All P (sort_by before xs)
  All-sort_by [] h = tt
  All-sort_by (x ∷ xs) h = All-inserted x (sort_by before xs) h.0 (All-sort_by xs h.1)

module _ {ℓ κ} {A : Type ℓ} (before : A → A → Bool) (R : A → A → Type κ)
    (symmetric : (x y : A) → R x y → R y x) where
  Pairs-inserted :
      (x : A) (ys : List A) → All (R x) ys → Pairs R ys → Pairs R (insert_by before x ys)
  Pairs-inserted x [] h hs = (tt, tt)
  Pairs-inserted x (y ∷ ys) h hs = elim (Bool-cases (before x y)) [
    | inl e ↦ rw e (h, hs)
    | inr e ↦
        rw e (All-inserted before (R y) x ys (symmetric x y h.0) hs.0, Pairs-inserted x ys h.1 hs.1)
  ]

  pub Pairs-sort_by : (xs : List A) → Pairs R xs → Pairs R (sort_by before xs)
  Pairs-sort_by [] h = tt
  Pairs-sort_by (x ∷ xs) h =
      Pairs-inserted x (sort_by before xs) (All-sort_by before (R x) xs h.0) (Pairs-sort_by xs h.1)

pub All-selected {ℓ κ} :
    {A : Type ℓ} (P : A → Type κ) (q : A → Bool) (xs : List A)
    → All P xs
    → All P (select_where q xs)
All-selected P q xs h =
    All-mono (λ x. P x × (q x ≡ true)) P (λ x k. k.0) (select_where q xs)
      (All-select_where P q xs h)

module _ {ℓ κ} {A : Type ℓ} (R S : A → A → Type κ) (weaker : (x y : A) → R x y → S x y) where
  pub Pairs-mono : (xs : List A) → Pairs R xs → Pairs S xs
  Pairs-mono [] h = tt
  Pairs-mono (x ∷ xs) h = (All-mono (R x) (S x) (weaker x) xs h.0, Pairs-mono xs h.1)

-- Pairs in parts of a list, and in two lists put together.
module _ {ℓ κ} {A : Type ℓ} (R : A → A → Type κ) where
  pub Pairs-select_where : (q : A → Bool) (xs : List A) → Pairs R xs → Pairs R (select_where q xs)
  Pairs-select_where q [] h = tt
  Pairs-select_where q (x ∷ xs) h = elim (Bool-cases (q x)) [
    | inl e ↦ rw e (All-selected (R x) q xs h.0, Pairs-select_where q xs h.1)
    | inr e ↦ rw e (Pairs-select_where q xs h.1)
  ]

  pub Pairs-take : (n : ℕ) (xs : List A) → Pairs R xs → Pairs R (take n xs)
  Pairs-take zero xs h = tt
  Pairs-take (suc n) [] h = tt
  Pairs-take (suc n) (x ∷ xs) h = (All-take (R x) n xs h.0, Pairs-take n xs h.1)

  pub Pairs-append :
      (xs ys : List A) → Pairs R xs → Pairs R ys → All (λ x. All (R x) ys) xs → Pairs R (xs ++ ys)
  Pairs-append [] ys h k across = k
  Pairs-append (x ∷ xs) ys h k across =
      (All-append (R x) xs ys h.0 across.0, Pairs-append xs ys h.1 k across.1)

module _ {ℓ} {A : Type ℓ} (before : A → A → Bool) where
  length-inserted : (x : A) (ys : List A) → length (insert_by before x ys) ≡ suc (length ys)
  length-inserted x [] = refl
  length-inserted x (y ∷ ys) = elim (Bool-cases (before x y)) [
    | inl e ↦ rw e refl
    | inr e ↦ rw e (ap suc (length-inserted x ys))
  ]

  pub length-sort_by : (xs : List A) → length (sort_by before xs) ≡ length xs
  length-sort_by [] = refl
  length-sort_by (x ∷ xs) = length-inserted x (sort_by before xs) ∙ ap suc (length-sort_by xs)
