-- ===== src/Examples/Plans.antt =====
-- Two areas and the model's replies on them: voice-service/src/voice_service/planning/planner.py.

use mathlib.Core.List.{Perm}
use repo_viva.Base.{
  ℕ, ◌≡◌, refl, ◌↔◌, String, Option, none, some, List, [], ◌∷◌, ok, err, pos, str_eq, if◌then◌else◌,
}
use repo_viva.VoiceService.Store.{PlannedQuestion}
use repo_viva.VoiceService.Planning.{AreaContext}
use repo_viva.VoiceService.Planner.{Question, unusable_plan, range_from, parse_plan, unfence, clean}
use repo_viva.VoiceService.Planner.Covers.{Covers, parse_plan-Covers, parse_plan_iff}

abbrev areas : List AreaContext
areas =
    record { path = "api/"; chunks = 1 ∷ 2 ∷ [] } ∷ record { path = "web/"; chunks = 7 ∷ [] } ∷ []

abbrev question : ℕ → Question
question n = record { area = pos n; topic = " flow "; text = "\"How?\"" }

-- `good` names both areas, `twice` one of them twice.
abbrev validate : String → Option (List Question)
validate content =
    if str_eq content "good"
    then some (question 2 ∷ question 1 ∷ [])
    else if str_eq content "twice"
    then some (question 1 ∷ question 1 ∷ [])
    else none

abbrev good_plan : List PlannedQuestion
good_plan =
    record { seq = 1; area = "web/"; topic = "flow"; text = "How?"; chunk_ids = 7 ∷ [] }
    ∷ record { seq = 2; area = "api/"; topic = "flow"; text = "How?"; chunk_ids = 1 ∷ 2 ∷ [] }
    ∷ []

good_reply : parse_plan validate "```json\ngood\n```" areas ≡ ok good_plan
unfolding parse_plan
good_reply = refl

bad_replies :
    (parse_plan validate "twice" areas ≡ err unusable_plan)
    × (parse_plan validate "" areas ≡ err unusable_plan)
unfolding parse_plan
bad_replies = (refl, refl)

-- A text of quotes or spaces passes the check on its length, and nothing is left of it.
nothing_to_say : (clean " " ≡ "") × (clean "\"\"" ≡ "")
unfolding clean
nothing_to_say = (refl, refl)

parse_plan-Covers_example : Covers areas (parse_plan validate "```good```" areas)
parse_plan-Covers_example = parse_plan-Covers validate "```good```" areas

reads_good : validate (unfence "```good```") ≡ some (question 2 ∷ question 1 ∷ [])
unfolding unfence
reads_good = refl

parse_plan_iff_example :
    ((out : List PlannedQuestion) × (parse_plan validate "```good```" areas ≡ ok out))
    ↔ Perm (pos 2 ∷ pos 1 ∷ []) (range_from 1 2)
parse_plan_iff_example =
    parse_plan_iff validate "```good```" areas (question 2 ∷ question 1 ∷ []) reads_good
