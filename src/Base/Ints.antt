-- ===== src/Base/Ints.antt =====
-- Python's integers over the native numbers, and what a list gives at an index of either sign.
use Prim.Native.Nat.{ℕ, zero, suc, ◌+◌, ◌-◌}
use mathlib.Core.Bool.{Bool, true, false}
use mathlib.Core.Option.{Option, none}
use mathlib.Core.List.{List}
use repo_viva.Base.Tests.{leb, if◌then◌else◌}
use repo_viva.Base.Lists.{length, get_elem?}

-- `negsuc n` is -(n + 1).
pub data ℤ : Type 0 where
  pos negsuc : ℕ → ℤ

abbrev pub int_leb : ℤ → ℤ → Bool
int_leb (pos m) (pos n) = leb m n
int_leb (pos m) (negsuc n) = false
int_leb (negsuc m) (pos n) = true
int_leb (negsuc m) (negsuc n) = leb n m

-- `abs(m - i)` for a natural number m.
abbrev pub distance : ℕ → ℤ → ℕ
distance m (pos n) = if leb n m then m - n else n - m
distance m (negsuc n) = suc (m + n)

module _ {ℓ} {A : Type ℓ} where
  -- `xs[-m]`, for a positive m.
  abbrev pub get_from_end : List A → ℕ → Option A
  get_from_end xs m = if leb m (length xs) then get_elem? xs (length xs - m) else none

  -- `xs[i - 1]`.
  abbrev pub get_before : List A → ℤ → Option A
  get_before xs (pos zero) = get_from_end xs 1
  get_before xs (pos (suc k)) = get_elem? xs k
  get_before xs (negsuc n) = get_from_end xs (suc (suc n))
