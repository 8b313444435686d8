-- ===== src/RepositoryService/Areas/Paths.antt =====
-- Directories of file names, for repository-service/src/repository_service/retrieval/areas.py.
use Prim.Native.Char.{Char, code}
use mathlib.Core.Bool.{false≢true}
use mathlib.Core.Option.{some-injective}
use repo_viva.Base.{
  ◌+◌, ◌≤◌, ◌<◌, ◌≡◌, refl, sym, ap, ap₂, ◌∙◌, String, Bool, true, false, ◌||◌, none, some, ◌==◌,
  arith, inl, inr, Bool-cases, is_some, text_length, text_append, drop_prefix, same_char,
}
use repo_viva.RepositoryService.Areas.{head_part, has_slash, ends_with_slash, dir_path}

append_assoc : (s t u : String) → text_append (text_append s t) u ≡ text_append s (text_append t u)
append_assoc String.[] t u = refl
append_assoc (String.◌∷◌ c s) t u = ap (λ (x : String). String.◌∷◌ c x) (append_assoc s t u)

pub text_length-append :
    (s t : String) → text_length (text_append s t) ≡ text_length s + text_length t
text_length-append String.[] t = omega arith
text_length-append (String.◌∷◌ c s) t = omega (arith, text_length-append s t)

pub drop_prefix-append : (p s : String) → drop_prefix p (text_append p s) ≡ some s
drop_prefix-append String.[] s = refl
drop_prefix-append (String.◌∷◌ c p) s =
    let same : (code c == code c) ≡ true = ground arith in rw same (drop_prefix-append p s)

-- A prefix of two parts is taken off in two steps.
drop_prefix-parts :
    (p q s r : String)
    → drop_prefix p s ≡ some r
    → drop_prefix (text_append p q) s ≡ drop_prefix q r
drop_prefix-parts String.[] q s r h = ap (drop_prefix q) (some-injective s r h)
drop_prefix-parts (String.◌∷◌ c p) q String.[] r h = cc
drop_prefix-parts (String.◌∷◌ c p) q (String.◌∷◌ d s) r h = elim (Bool-cases (code c == code d)) [
  | inl e ↦ rw e (drop_prefix-parts p q s r (rw e at h))
  | inr e ↦ let none_is : none ≡ some r = rw e at h in cc
]

drop_prefix-missing :
    (p q s : String) → drop_prefix p s ≡ none → drop_prefix (text_append p q) s ≡ none
drop_prefix-missing String.[] q s h = cc
drop_prefix-missing (String.◌∷◌ c p) q String.[] h = refl
drop_prefix-missing (String.◌∷◌ c p) q (String.◌∷◌ d s) h = elim (Bool-cases (code c == code d)) [
  | inl e ↦ rw e (drop_prefix-missing p q s (rw e at h))
  | inr e ↦ rw e refl
]

pub head_part-no_slash : (s : String) → has_slash (head_part s) ≡ false
head_part-no_slash String.[] = refl
head_part-no_slash (String.◌∷◌ c s) = elim (Bool-cases (code c == b'/')) [
  | inl e ↦ rw e refl
  | inr e ↦ rw (e, e) (head_part-no_slash s)
]

-- A text with a slash starts with its first part and the slash.
pub starts_with_head :
    (s : String)
    → has_slash s ≡ true
    → is_some (drop_prefix (text_append (head_part s) "/") s) ≡ true
starts_with_head String.[] h = absurd (false≢true h)
starts_with_head (String.◌∷◌ c s) h = elim (Bool-cases (code c == b'/')) [
  | inl e ↦ let back : (b'/' == code c) ≡ true = ground (arith, e) in rw (e, back) refl
  | inr e ↦
      let self : (code c == code c) ≡ true = ground arith in
      rw (e, self) (starts_with_head s (rw e at h))
]

both_false : (a b : Bool) → (a || b) ≡ false → (a ≡ false) × (b ≡ false)
both_false true b h = cc
both_false false b h = (refl, h)

-- No other part without a slash does.
pub head_unique :
    (h s : String)
    → has_slash h ≡ false
    → is_some (drop_prefix (text_append h "/") s) ≡ true
    → (has_slash s ≡ true) × (head_part s ≡ h)
head_unique String.[] String.[] n p = absurd (false≢true p)
head_unique String.[] (String.◌∷◌ d s) n p = elim (Bool-cases (b'/' == code d)) [
  | inl e ↦
      let slash : (code d == b'/') ≡ true = ground (arith, e) in (rw slash refl, rw slash refl)
  | inr e ↦ absurd (false≢true (rw e at p))
]
head_unique (String.◌∷◌ c h) String.[] n p = absurd (false≢true p)
head_unique (String.◌∷◌ c h) (String.◌∷◌ d s) n p = elim (Bool-cases (code c == code d)) [
  | inl e ↦
      let (first, others) = both_false (code c == b'/') (has_slash h) n in
      let (slash, same) = head_unique h s others (rw e at p) in
      let other : (code d == b'/') ≡ false = ground (arith, first, e) in
      (
        rw other slash,
        rw other (ap₂ (λ (b : Char) (t : String). String.◌∷◌ b t) (sym (same_char c d e)) same),
      )
  | inr e ↦ absurd (false≢true (rw e at p))
]

-- The file names in the directory of a part under a prefix.
pub in_dir :
    (p h s r : String)
    → drop_prefix p s ≡ some r
    → is_some (drop_prefix (dir_path p h) s) ≡ is_some (drop_prefix (text_append h "/") r)
in_dir p h s r e = ap is_some (drop_prefix-parts p (text_append h "/") s r e)

pub not_in_dir :
    (p h s : String) → drop_prefix p s ≡ none → is_some (drop_prefix (dir_path p h) s) ≡ false
not_in_dir p h s e = ap is_some (drop_prefix-missing p (text_append h "/") s e)

ends_with_slash-append_char : (s : String) → ends_with_slash (text_append s "/") ≡ true
ends_with_slash-append_char String.[] = refl
ends_with_slash-append_char (String.◌∷◌ c String.[]) = refl
ends_with_slash-append_char (String.◌∷◌ c (String.◌∷◌ d s)) =
    ends_with_slash-append_char (String.◌∷◌ d s)

pub ends_with_slash-dir_path : (p h : String) → ends_with_slash (dir_path p h) ≡ true
ends_with_slash-dir_path p h =
    ap ends_with_slash (sym (append_assoc p h "/")) ∙ ends_with_slash-append_char (text_append p h)

-- A directory is longer than the prefix, and no longer than a name in it.
pub dir_path-longer : (p h : String) → text_length p < text_length (dir_path p h)
dir_path-longer p h =
    omega (arith, text_length-append p (text_append h "/"), text_length-append h "/")

pub prefix-not_longer :
    (p s : String) → is_some (drop_prefix p s) ≡ true → text_length p ≤ text_length s
prefix-not_longer String.[] s h = omega arith
prefix-not_longer (String.◌∷◌ c p) String.[] h = absurd (false≢true h)
prefix-not_longer (String.◌∷◌ c p) (String.◌∷◌ d s) h = elim (Bool-cases (code c == code d)) [
  | inl e ↦ omega (arith, prefix-not_longer p s (rw e at h))
  | inr e ↦ absurd (false≢true (rw e at h))
]
