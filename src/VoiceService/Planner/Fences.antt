-- ===== src/VoiceService/Planner/Fences.antt =====
-- Replies in a Markdown fence: _FENCE of voice-service/src/voice_service/planning/planner.py.
use Prim.Native.Char.{Char, code}
use repo_viva.Base.{
  ◌≤◌, ◌≡◌, refl, sym, ap, ◌∙◌, String, false, Option, some, arith, inl, inr, Bool-cases, List,
  str_eq, eq_iff, text_length, text_append, strip, lstrip, rstrip, rstrip_idem, rstrip-tail,
  lstrip_keeps, lstrip_idem, is_space, is_empty, keep_char,
}
use repo_viva.VoiceService.Planning.{AreaContext}
use repo_viva.VoiceService.Planner.{
  Question, check_plan, parse_plan, drop_fence, unfence, close_fence,
}

abbrev closing : String
closing = "\n```"

text_length-append_closing : (s : String) → 4 ≤ text_length (text_append s closing)
text_length-append_closing String.[] = omega arith
text_length-append_closing (String.◌∷◌ c s) = omega (arith, text_length-append_closing s)

rstrip-cons :
    (c : Char) (s : String)
    → 4 ≤ text_length s
    → rstrip s ≡ s
    → rstrip (String.◌∷◌ c s) ≡ String.◌∷◌ c s
rstrip-cons c String.[] h e = absurd (omega arith)
rstrip-cons c (String.◌∷◌ d s) h e = rw e (ground arith)

rstrip-closing : (s : String) → rstrip (text_append s closing) ≡ text_append s closing
rstrip-closing String.[] = refl
rstrip-closing (String.◌∷◌ c s) =
    rstrip-cons c (text_append s closing) (text_length-append_closing s) (rstrip-closing s)

not_fence : (c : Char) (s : String) → 4 ≤ text_length s → str_eq (String.◌∷◌ c s) "```" ≡ false
not_fence c s h = elim (Bool-cases (str_eq (String.◌∷◌ c s) "```")) [
  | inl e ↦ absurd (omega (arith, h, ap text_length ((eq_iff (String.◌∷◌ c s) "```").0 e)))
  | inr e ↦ e
]

drop_fence-closing : (s : String) → drop_fence (text_append s closing) ≡ some (text_append s "\n")
drop_fence-closing String.[] = refl
drop_fence-closing (String.◌∷◌ c s) =
    rw (not_fence c (text_append s closing) (text_length-append_closing s), drop_fence-closing s)
      refl

rstrip-newline : (s : String) → rstrip s ≡ s → rstrip (text_append s "\n") ≡ s
rstrip-newline String.[] h = refl
rstrip-newline (String.◌∷◌ c s) h =
    rw (rstrip-newline s (rstrip-tail c s h)) (ap (keep_char c) (sym (rstrip-tail c s h)) ∙ h)

text_length-lstrip : (s : String) → text_length (lstrip s) ≤ text_length s
text_length-lstrip String.[] = omega arith
text_length-lstrip (String.◌∷◌ c s) = ground (arith, text_length-lstrip s)

lstrip-append :
    (s t : String) → lstrip s ≡ s → is_empty s ≡ false → lstrip (text_append s t) ≡ text_append s t
lstrip-append String.[] t h n = cc
lstrip-append (String.◌∷◌ c s) t h n = elim (Bool-cases (is_space (code c))) [
  | inl e ↦
      let shorter : lstrip s ≡ String.◌∷◌ c s = rw e at h in
      absurd (omega (arith, text_length-lstrip s, ap text_length shorter))
  | inr e ↦ rw e refl
]

-- A reply in a fence that says `json` is read as what it encloses, where that is not empty and
-- has no space at its ends: the checks on the plan see the same questions.
pub parse_plan-fenced :
    (validate : String → Option (List Question)) (body : String) (areas : List AreaContext)
    → strip body ≡ body
    → is_empty body ≡ false
    → parse_plan validate (text_append "```json\n" (text_append body "\n```")) areas
      ≡ check_plan areas (validate body)
unfolding parse_plan unfence
parse_plan-fenced validate body areas stripped nonempty =
    ap (λ (t : String). check_plan areas (validate t))
      (ap close_fence (lstrip-append body closing left nonempty) ∙ closed)
  where
    right : rstrip body ≡ body
    right = ap rstrip (sym stripped) ∙ lstrip_keeps (rstrip body) (rstrip_idem body) ∙ stripped

    left : lstrip body ≡ body
    left = ap lstrip (sym stripped) ∙ lstrip_idem (rstrip body) ∙ stripped

    closed : close_fence (text_append body closing) ≡ body
    closed =
        rw (close_fence, rstrip-closing body, drop_fence-closing body) (rstrip-newline body right)
