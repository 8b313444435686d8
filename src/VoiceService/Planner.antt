-- ===== src/VoiceService/Planner.antt =====
-- voice-service/src/voice_service/planning/planner.py: the check of the model's reply. What
-- `model_validate_json` reads from a text is the argument `validate`, none for a ValidationError;
-- the call of the model is outside.
pub mod Covers
pub mod Fences
use repo_viva.Base.{
  ℕ, zero, suc, ◌+◌, String, Bool, true, false, ◌&&◌, ◌||◌, Option, none, some, List, [], ◌∷◌, map,
  Result, ok, err, ◌==◌, if◌then◌else◌, length, ℤ, pos, int_leb, get_before, sort_by, strip, lstrip,
  rstrip, str_eq, drop_prefix,
}
use Prim.Native.Char.{Char, code}
use repo_viva.VoiceService.Store.{PlannedQuestion}
use repo_viva.VoiceService.Planning.{AreaContext}

-- _Question.
pub record Question : Type 0 where
  pub area : ℤ
  pub topic : String
  pub text : String

-- UnusablePlanError; the other is the IndexError of a wrong index.
pub data PlanFailure : Type 0 where
  unusable_plan index_error : PlanFailure

abbrev pub int_eq : ℤ → ℤ → Bool
int_eq i j = int_leb i j && int_leb j i

abbrev pub ints_eq : List ℤ → List ℤ → Bool
ints_eq [] [] = true
ints_eq [] (j ∷ js) = false
ints_eq (i ∷ is) [] = false
ints_eq (i ∷ is) (j ∷ js) = int_eq i j && ints_eq is js

-- `list(range(n, n + count))`.
abbrev pub range_from : ℕ → ℕ → List ℤ
range_from n zero = []
range_from n (suc count) = pos n ∷ range_from (suc n) count

-- `_clean`: the quotes that enclose a text are taken off.
abbrev pub drop_last : String → String
drop_last String.[] = String.[]
drop_last (String.◌∷◌ c String.[]) = String.[]
drop_last (String.◌∷◌ c (String.◌∷◌ d s)) = String.◌∷◌ c (drop_last (String.◌∷◌ d s))

abbrev pub last_code : String → ℕ
last_code String.[] = 0
last_code (String.◌∷◌ c String.[]) = code c
last_code (String.◌∷◌ c (String.◌∷◌ d s)) = last_code (String.◌∷◌ d s)

abbrev pub unquote : String → String
unquote String.[] = String.[]
unquote (String.◌∷◌ c String.[]) = String.◌∷◌ c String.[]
unquote (String.◌∷◌ c (String.◌∷◌ d s)) =
    if code c == last_code (String.◌∷◌ d s) && (code c == 34 || code c == 39)
    then strip (drop_last (String.◌∷◌ d s))
    else String.◌∷◌ c (String.◌∷◌ d s)

unfoldable pub clean : String → String
clean text = unquote (strip text)

-- The question at a position of the plan, from its area.
abbrev pub question_on : ℕ → Question → AreaContext → PlannedQuestion
question_on seq q area = record {
  seq = seq;
  area = area.path;
  topic = strip q.topic;
  text = clean q.text;
  chunk_ids = area.chunks;
}

abbrev pub planned : ℕ → Question → Option AreaContext → Result PlanFailure PlannedQuestion
planned seq q none = err index_error
planned seq q (some area) = ok (question_on seq q area)

abbrev pub put_question :
    Result PlanFailure PlannedQuestion
    → Result PlanFailure (List PlannedQuestion)
    → Result PlanFailure (List PlannedQuestion)
put_question (err e) rest = err e
put_question (ok q) (err e) = err e
put_question (ok q) (ok qs) = ok (q ∷ qs)

unfoldable pub number_questions :
    List AreaContext → ℕ → List Question → Result PlanFailure (List PlannedQuestion)
unfolding clean
number_questions areas seq [] = ok []
number_questions areas seq (q ∷ qs) =
    put_question (planned seq q (get_before areas q.area)) (number_questions areas (suc seq) qs)

abbrev pub area_numbers : List Question → List ℤ
area_numbers qs = map (λ q. q.area) qs

abbrev pub check_plan :
    List AreaContext → Option (List Question) → Result PlanFailure (List PlannedQuestion)
check_plan areas none = err unusable_plan
check_plan areas (some qs) =
    if ints_eq (sort_by int_leb (area_numbers qs)) (range_from 1 (length areas))
    then number_questions areas 1 qs
    else err unusable_plan

-- `_FENCE.sub("", content)`: its two alternatives, at the beginning and at the end of a reply.
abbrev pub drop_json : String → String
drop_json s = elim (drop_prefix "json" s) [ none ↦ s | some rest ↦ rest ]

abbrev pub open_fence : String → String
open_fence s = elim (drop_prefix "```" (lstrip s)) [
  | none ↦ s
  | some rest ↦ lstrip (drop_json rest)
]

abbrev pub cons_some : Char → Option String → Option String
cons_some c none = none
cons_some c (some s) = some (String.◌∷◌ c s)

-- A text without the fence that it ends with.
abbrev pub drop_fence : String → Option String
drop_fence String.[] = none
drop_fence (String.◌∷◌ c s) =
    let rest = cons_some c (drop_fence s) in if str_eq (String.◌∷◌ c s) "```" then some "" else rest

abbrev pub close_fence : String → String
close_fence s = elim (drop_fence (rstrip s)) [ none ↦ s | some rest ↦ rstrip rest ]

unfoldable pub unfence : String → String
unfence content = close_fence (open_fence content)

unfoldable pub parse_plan :
    (String → Option (List Question))
    → String
    → List AreaContext
    → Result PlanFailure (List PlannedQuestion)
unfolding number_questions unfence
parse_plan validate content areas = check_plan areas (validate (unfence content))
