-- ===== src/Base/Strip.antt =====
-- `str.strip`: the whitespace that Python knows, taken off both ends of a text.
use Prim.Native.Nat.{ℕ}
use Prim.Native.String.{String}
use Prim.Native.Char.{Char, code}
use mathlib.Core.Path.{◌≡◌, refl, ap, ◌∙◌, sym}
use mathlib.Core.Logic.{inl, inr}
use mathlib.Core.Bool.{Bool, true, false, ◌&&◌, ◌||◌, false≢true}
use repo_viva.Base.Tests.{leb, ◌==◌, if◌then◌else◌, Bool-cases}

-- `str.isspace` of one character.
abbrev pub is_space : ℕ → Bool
is_space c =
    (leb 9 c && leb c 13)
    || (leb 28 c && leb c 32)
    || c == 133
    || c == 160
    || c == 5760
    || (leb 8192 c && leb c 8202)
    || c == 8232
    || c == 8233
    || c == 8239
    || c == 8287
    || c == 12288

abbrev pub is_empty : String → Bool
is_empty String.[] = true
is_empty (String.◌∷◌ c s) = false

abbrev pub lstrip : String → String
lstrip String.[] = String.[]
lstrip (String.◌∷◌ c s) = let rest = lstrip s in if is_space (code c) then rest else String.◌∷◌ c s

-- A character before a stripped text: gone when it is space and nothing follows.
abbrev pub keep_char : Char → String → String
keep_char c s = if is_space (code c) && is_empty s then String.[] else String.◌∷◌ c s

abbrev pub rstrip : String → String
rstrip String.[] = String.[]
rstrip (String.◌∷◌ c s) = keep_char c (rstrip s)

abbrev pub strip : String → String
strip s = lstrip (rstrip s)

keep_char_idem : (c : Char) (s : String) → rstrip s ≡ s → rstrip (keep_char c s) ≡ keep_char c s
keep_char_idem c s h = elim (Bool-cases (is_space (code c) && is_empty s)) [
  | inl e ↦ rw e refl
  | inr e ↦ rw (e, h, e) refl
]

pub rstrip_idem : (s : String) → rstrip (rstrip s) ≡ rstrip s
rstrip_idem String.[] = refl
rstrip_idem (String.◌∷◌ c s) = keep_char_idem c (rstrip s) (rstrip_idem s)

tail : String → String
tail String.[] = String.[]
tail (String.◌∷◌ c s) = s

pub rstrip-tail : (c : Char) (s : String) → rstrip (String.◌∷◌ c s) ≡ String.◌∷◌ c s → rstrip s ≡ s
unfolding tail
rstrip-tail c s h = elim (Bool-cases (is_space (code c) && is_empty (rstrip s))) [
  | inl e ↦
      let h' : String.[] ≡ String.◌∷◌ c s = rw e at h in absurd (false≢true (sym (ap is_empty h')))
  | inr e ↦ let h' : String.◌∷◌ c (rstrip s) ≡ String.◌∷◌ c s = rw e at h in ap tail h'
]

pub lstrip_keeps : (s : String) → rstrip s ≡ s → rstrip (lstrip s) ≡ lstrip s
lstrip_keeps String.[] h = refl
lstrip_keeps (String.◌∷◌ c s) h = elim (Bool-cases (is_space (code c))) [
  | inl e ↦ rw e (lstrip_keeps s (rstrip-tail c s h))
  | inr e ↦ rw e h
]

pub lstrip_idem : (s : String) → lstrip (lstrip s) ≡ lstrip s
lstrip_idem String.[] = refl
lstrip_idem (String.◌∷◌ c s) = elim (Bool-cases (is_space (code c))) [
  | inl e ↦ rw e (lstrip_idem s)
  | inr e ↦ rw (e, e) refl
]

-- A stripped text has nothing more to strip.
pub strip_idem : (s : String) → strip (strip s) ≡ strip s
strip_idem s = ap lstrip (lstrip_keeps (rstrip s) (rstrip_idem s)) ∙ lstrip_idem (rstrip s)
