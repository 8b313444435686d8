-- ===== src/EvaluationService/Grading.antt =====
-- evaluation-service/src/evaluation_service/grading: models.py, enforce_grounding of grader.py,
-- write_notes of summary.py, and the provider loop of llm.py. The provider is a function from the
-- number of the call to its answer; `parse` is pydantic's validation of a reply.
pub mod Grounding
pub mod Provider
use repo_viva.Base.{
  ℕ, zero, suc, ◌+◌, ◌-◌, String, Bool, true, false, ◌&&◌, ◌||◌, Option, none, some, List, [], ◌∷◌,
  ◌==◌, if◌then◌else◌, ltb, length, take, select_where, str_eq,
}

abbrev pub max_key_points : ℕ
max_key_points = 4

abbrev pub max_feedback_items : ℕ
max_feedback_items = 3

abbrev pub max_files : ℕ
max_files = 5

pub record Score : Type 0 where
  pub score : ℕ
  pub justification : String

pub record KeyPoint : Type 0 where
  pub point : String
  pub chunk_ids : List ℕ

pub record TurnGrade : Type 0 where
  pub correctness : Score
  pub clarity : Score
  pub strengths : List String
  pub gaps : List String
  pub key_points : List KeyPoint
  pub evidence_chunk_ids : List ℕ

pub record FileNote : Type 0 where
  pub file : String
  pub reason : String

pub record SummaryNotes : Type 0 where
  pub strengths : List String
  pub improvements : List String
  pub files_to_revisit : List FileNote

-- The field validators of TurnGrade and SummaryNotes.
unfoldable pub trim_grade : TurnGrade → TurnGrade
trim_grade g = record g {
  strengths = take max_feedback_items g.strengths;
  gaps = take max_feedback_items g.gaps;
  key_points = take max_key_points g.key_points;
}

unfoldable pub trim_notes : SummaryNotes → SummaryNotes
trim_notes n = record n {
  strengths = take max_feedback_items n.strengths;
  improvements = take max_feedback_items n.improvements;
  files_to_revisit = take max_files n.files_to_revisit;
}

-- `i in allowed_ids`.
abbrev pub contains : List ℕ → ℕ → Bool
contains [] i = false
contains (x ∷ xs) i = x == i || contains xs i

-- The loop over the key points: those that keep a citation, and how many citations are dropped.
abbrev pub keep_point : KeyPoint → List ℕ → List KeyPoint × ℕ → List KeyPoint × ℕ
keep_point kp [] (kps, dropped) = (kps, dropped)
keep_point kp (i ∷ valid) (kps, dropped) = (record kp { chunk_ids = i ∷ valid } ∷ kps, dropped)

unfoldable pub ground_points : List ℕ → List KeyPoint → List KeyPoint × ℕ
ground_points allowed [] = ([], 0)
ground_points allowed (kp ∷ kps) =
    let valid = select_where (contains allowed) kp.chunk_ids in
    let (rest, dropped) = ground_points allowed kps in
    keep_point kp valid (rest, length kp.chunk_ids - length valid + dropped)

unfoldable pub enforce_grounding : TurnGrade → List ℕ → TurnGrade × ℕ
unfolding ground_points
enforce_grounding g allowed =
    let (kps, dropped) = ground_points allowed g.key_points in
    let evidence = select_where (contains allowed) g.evidence_chunk_ids in
    (
      record g { key_points = kps; evidence_chunk_ids = evidence },
      dropped + (length g.evidence_chunk_ids - length evidence),
    )

-- What one call of the provider answers; a rate limit carries the wait that _retry_after reads
-- from it, in milliseconds.
pub data ProviderAnswer : Type 0 where
  replies : (content : String) (tokens : ℕ) → ProviderAnswer
  malformed_json : ProviderAnswer
  rate_limited : (retry_after : Option ℕ) → ProviderAnswer
  provider_fails : (message : String) → ProviderAnswer

-- What was used up: calls, milliseconds slept, tokens.
pub record Usage : Type 0 where
  pub calls : ℕ
  pub slept : ℕ
  pub total_tokens : ℕ

pub data CallResult : Type 0 where
  content_is : String → CallResult
  call_raises : CallResult
  out_of_fuel : CallResult

abbrev pub default_wait : ℕ
default_wait = 15000

abbrev pub max_wait : ℕ
max_wait = 60000

abbrev pub max_rate_limit_waits : ℕ
max_rate_limit_waits = 8

-- `_retry_after(exc) or _DEFAULT_RATE_LIMIT_WAIT_S`: a wait of 0 is no answer either.
abbrev pub delay_of : Option ℕ → ℕ
delay_of none = default_wait
delay_of (some zero) = default_wait
delay_of (some (suc d)) = suc d

abbrev pub counted : Usage → Usage
counted u = record u { calls = suc u.calls }

-- _call: `waits` of the loop, and one unit of fuel for each call.
unfoldable pub call_from : (ℕ → ProviderAnswer) → ℕ → ℕ → Usage → CallResult × Usage
call_from provider zero waits u = (out_of_fuel, u)
call_from provider (suc fuel) waits u = elim (provider u.calls) [
  | replies content tokens ↦
      (content_is content, record (counted u) { total_tokens = u.total_tokens + tokens })
  | malformed_json ↦ (content_is "", counted u)
  | provider_fails message ↦ (call_raises, counted u)
  | rate_limited after ↦
      elim (ltb max_rate_limit_waits (suc waits) || ltb max_wait (delay_of after)) [
        | true ↦ (call_raises, counted u)
        | false ↦
            call_from provider fuel (suc waits)
              (record (counted u) { slept = u.slept + delay_of after })
      ]
]

unfoldable pub call : (ℕ → ProviderAnswer) → Usage → CallResult × Usage
unfolding call_from
call provider u = call_from provider (suc max_rate_limit_waits) 0 u

-- complete: a parsed reply, None after two unusable ones, or the provider's exception.
pub data Completion {ℓ} (T : Type ℓ) : Type ℓ where
  parsed : T → Completion T
  unusable : Completion T
  completion_raises : Completion T

module _ {ℓ} {T : Type ℓ} (parse : String → Option T) (provider : ℕ → ProviderAnswer) where
  abbrev pub second_reply : CallResult × Usage → Completion T × Usage
  second_reply (call_raises, u) = (completion_raises, u)
  second_reply (out_of_fuel, u) = (completion_raises, u)
  second_reply (content_is content, u) = elim (parse content) [
    | some t ↦ (parsed t, u)
    | none ↦ (unusable, u)
  ]

  abbrev pub first_reply : CallResult × Usage → Completion T × Usage
  first_reply (call_raises, u) = (completion_raises, u)
  first_reply (out_of_fuel, u) = (completion_raises, u)
  first_reply (content_is content, u) = elim (parse content) [
    | some t ↦ (parsed t, u)
    | none ↦ second_reply (call provider u)
  ]

  unfoldable pub complete : Usage → Completion T × Usage
  unfolding call
  complete u = first_reply (call provider u)

-- write_notes: the files of the graded turns' sources, and the notes that the model returned.
abbrev pub contains_text : List String → String → Bool
contains_text [] s = false
contains_text (x ∷ xs) s = str_eq x s || contains_text xs s

unfoldable pub keep_known_files : List String → SummaryNotes → SummaryNotes
keep_known_files known n = record n {
  files_to_revisit = select_where (λ f. contains_text known f.file) n.files_to_revisit;
}
