-- ===== src/Base/Texts.antt =====
-- Texts: whole texts are native strings, compared by `str_eq`; slices count code points.
use Prim.Native.Nat.{ℕ, zero, suc, ◌≤◌}
use Prim.Native.String.{String}
use Prim.Native.Char.{Char, code}
use text.Mathlib.TextEquality.{codes_equal}
use mathlib.Core.Bool.{Bool, true, false}
use mathlib.Core.Option.{Option, none, some, some-injective}
use mathlib.Core.List.{List, [], ◌∷◌}
use native.Mathlib.Omega.{arith}
use repo_viva.Base.Tests.{◌==◌, Bool-cases, ltb, if◌then◌else◌}
use mathlib.Core.Path.{◌≡◌, refl, sym, ap₂}
use mathlib.Core.Logic.{inl, inr}
pub use text.Mathlib.Text.{◌==◌ as str_eq}
pub use text.Mathlib.TextEquality.{eq_iff}
pub use text.Mathlib.TextPositions.{eq_refl}

-- `len(s)`.
abbrev pub text_length : String → ℕ
text_length String.[] = 0
text_length (String.◌∷◌ c s) = suc (text_length s)

-- `s[:n]`.
abbrev pub text_take : ℕ → String → String
text_take zero s = ""
text_take (suc n) String.[] = ""
text_take (suc n) (String.◌∷◌ c s) = String.◌∷◌ c (text_take n s)

pub text_length-take : (n : ℕ) (s : String) → text_length (text_take n s) ≤ n
text_length-take zero s = omega arith
text_length-take (suc n) String.[] = omega arith
text_length-take (suc n) (String.◌∷◌ c s) = omega (arith, text_length-take n s)

-- `s + t`.
abbrev pub text_append : String → String → String
text_append String.[] t = t
text_append (String.◌∷◌ c s) t = String.◌∷◌ c (text_append s t)

-- The truth value of a text, and of a text that may be None.
abbrev pub is_truthy : Option String → Bool
is_truthy none = false
is_truthy (some String.[]) = false
is_truthy (some (String.◌∷◌ c s)) = true

-- The code points of a text.
abbrev pub codes : String → List ℕ
codes String.[] = []
codes (String.◌∷◌ c s) = code c ∷ codes s

-- The text behind a prefix; none when it does not start with it.
abbrev pub drop_prefix : String → String → Option String
drop_prefix String.[] s = some s
drop_prefix (String.◌∷◌ c p) String.[] = none
drop_prefix (String.◌∷◌ c p) (String.◌∷◌ d s) =
    let rest = drop_prefix p s in if code c == code d then rest else none

-- `s <= t`, by code points.
abbrev pub text_leb : String → String → Bool
text_leb String.[] t = true
text_leb (String.◌∷◌ c s) String.[] = false
text_leb (String.◌∷◌ c s) (String.◌∷◌ d t) =
    let rest = text_leb s t in if code c == code d then rest else ltb (code c) (code d)

pub text_leb_total : (s t : String) → text_leb s t ≡ false → text_leb t s ≡ true
text_leb_total String.[] t h = cc
text_leb_total (String.◌∷◌ c s) String.[] h = refl
text_leb_total (String.◌∷◌ c s) (String.◌∷◌ d t) h = ground (arith, text_leb_total s t)

pub text_leb_trans :
    (s t u : String) → text_leb s t ≡ true → text_leb t u ≡ true → text_leb s u ≡ true
text_leb_trans String.[] t u g h = refl
text_leb_trans (String.◌∷◌ c s) String.[] u g h = cc
text_leb_trans (String.◌∷◌ c s) (String.◌∷◌ d t) String.[] g h = cc
text_leb_trans (String.◌∷◌ c s) (String.◌∷◌ d t) (String.◌∷◌ e u) g h =
    ground (arith, text_leb_trans s t u)

pub same_char : (c d : Char) → (code c == code d) ≡ true → c ≡ d
same_char c d h = codes_equal c d (ground arith)

pub drop_prefix_sound : (p s r : String) → drop_prefix p s ≡ some r → s ≡ text_append p r
drop_prefix_sound String.[] s r h = some-injective s r h
drop_prefix_sound (String.◌∷◌ c p) String.[] r h = cc
drop_prefix_sound (String.◌∷◌ c p) (String.◌∷◌ d s) r h = elim (Bool-cases (code c == code d)) [
  | inl e ↦
      ap₂ (λ (b : Char) (t : String). String.◌∷◌ b t) (sym (same_char c d e))
        (drop_prefix_sound p s r (rw e at h))
  | inr e ↦ let none_is : none ≡ some r = rw e at h in cc
]
