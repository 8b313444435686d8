-- ===== src/EvaluationService/Pipeline.antt =====
-- `_evaluate_turn` and the loop over the turns of evaluation-service/src/evaluation_service/pipeline.py,
-- with grade_turn of grading/grader.py. The turns, the chunks and the model's grade are arguments;
-- `name_refs` is the rewriting of chunk references in prose.
pub mod Report
pub mod Citations
pub mod Order
use repo_viva.Base.{
  ℕ, zero, suc, ◌+◌, ◌≤◌, String, Bool, true, false, not, ◌&&◌, ◌||◌, Option, none, some, List, [],
  ◌∷◌, ◌++◌, map, ◌==◌, if◌then◌else◌, ltb, leb, length, select_where, count_where, first_where,
  codes, Result, ok, err, is_some,
}
use repo_viva.EvaluationService.Grading.{
  Score, KeyPoint, TurnGrade, contains, enforce_grounding, Completion, parsed, unusable,
  completion_raises, FileNote, SummaryNotes, keep_known_files, contains_text,
}

pub record Chunk : Type 0 where
  pub id : ℕ
  pub filename : String
  pub start_line : ℕ
  pub end_line : ℕ

pub data TurnStatus : Type 0 where
  asked answered : TurnStatus

pub record Turn : Type 0 where
  pub seq : ℕ
  pub question_text : String
  pub answer_text : Option String
  pub status : TurnStatus
  pub retrieved_chunk_ids : List ℕ

pub record Source : Type 0 where
  pub chunk_id : ℕ
  pub filename : String
  pub start_line : ℕ
  pub end_line : ℕ

pub record GradedPoint : Type 0 where
  pub point : String
  pub sources : List Source

pub record GradedTurn : Type 0 where
  pub correctness : Score
  pub clarity : Score
  pub strengths : List String
  pub gaps : List String
  pub key_points : List GradedPoint
  pub evidence : List Source

pub data Verdict : Type 0 where
  not_answered : Verdict
  not_graded : (sources : List Source) → Verdict
  graded : (grade : GradedTurn) (sources : List Source) → Verdict

pub record Evaluation : Type 0 where
  pub seq : ℕ
  pub question : String
  pub answer : Option String
  pub verdict : Verdict

-- A KeyError of `by_id[i]`, or an exception of a client or of the provider.
pub data Failure : Type 0 where
  key_error provider_error voice_error repository_error : Failure

-- `_source`.
abbrev pub source_of : Chunk → Source
source_of c = record {
  chunk_id = c.id;
  filename = c.filename;
  start_line = c.start_line;
  end_line = c.end_line;
}

-- What `str.strip` removes.
abbrev pub is_space : ℕ → Bool
is_space c =
    (leb 9 c && leb c 13)
    || (leb 28 c && leb c 32)
    || c == 133
    || c == 160
    || c == 5760
    || (leb 8192 c && leb c 8202)
    || c == 8232
    || c == 8233
    || c == 8239
    || c == 8287
    || c == 12288

abbrev pub has_text : List ℕ → Bool
has_text [] = false
has_text (c ∷ cs) = not (is_space c) || has_text cs

abbrev pub says_something : TurnStatus → Option String → Bool
says_something answered (some text) = has_text (codes text)
says_something _ _ = false

-- `_is_answered`.
abbrev pub is_answered : Turn → Bool
is_answered t = says_something t.status t.answer_text

-- `chunks` maps an id to its chunk.
abbrev pub chunk_at : List Chunk → ℕ → Option Chunk
chunk_at chunks i = first_where (λ c. c.id == i) chunks

abbrev pub prepend : Option Chunk → List Chunk → List Chunk
prepend none cs = cs
prepend (some c) cs = c ∷ cs

-- [chunks[i] for i in ids if i in chunks].
abbrev pub chunks_of : List Chunk → List ℕ → List Chunk
chunks_of chunks [] = []
chunks_of chunks (i ∷ ids) = prepend (chunk_at chunks i) (chunks_of chunks ids)

abbrev pub ids_of : List Chunk → List ℕ
ids_of [] = []
ids_of (c ∷ cs) = c.id ∷ ids_of cs

-- [_source(by_id[i]) for i in ids]: none is a KeyError.
abbrev pub add_source : Option Chunk → Option (List Source) → Option (List Source)
add_source (some c) (some ss) = some (source_of c ∷ ss)
add_source _ _ = none

abbrev pub sources_at : List Chunk → List ℕ → Option (List Source)
sources_at chunks [] = some []
sources_at chunks (i ∷ ids) = add_source (chunk_at chunks i) (sources_at chunks ids)

abbrev pub add_point :
    String → Option (List Source) → Option (List GradedPoint) → Option (List GradedPoint)
add_point p (some ss) (some ps) = some (record { point = p; sources = ss } ∷ ps)
add_point _ _ _ = none

abbrev pub points_at : List Chunk → List KeyPoint → Option (List GradedPoint)
points_at chunks [] = some []
points_at chunks (kp ∷ kps) =
    add_point kp.point (sources_at chunks kp.chunk_ids) (points_at chunks kps)

module _ (name_refs : List Chunk → String → String) where
  -- `_name_refs_in_grade`.
  abbrev pub fix_score : List Chunk → Score → Score
  fix_score chunks s = record s { justification = name_refs chunks s.justification }

  abbrev pub fix_points : List Chunk → List KeyPoint → List KeyPoint
  fix_points chunks [] = []
  fix_points chunks (kp ∷ kps) =
      record kp { point = name_refs chunks kp.point } ∷ fix_points chunks kps

  unfoldable pub name_refs_in_grade : List Chunk → TurnGrade → TurnGrade
  name_refs_in_grade chunks g = record g {
    correctness = fix_score chunks g.correctness;
    clarity = fix_score chunks g.clarity;
    strengths = map (name_refs chunks) g.strengths;
    gaps = map (name_refs chunks) g.gaps;
    key_points = fix_points chunks g.key_points;
  }

  -- grade_turn, after the model's reply.
  unfoldable pub ground_grade : List Chunk → TurnGrade → TurnGrade
  unfolding name_refs_in_grade
  ground_grade chunks g = name_refs_in_grade chunks (enforce_grounding g (ids_of chunks)).0

  abbrev pub graded_turn :
      TurnGrade
      → Option (List GradedPoint)
      → Option (List Source)
      → List Source
      → Result Failure Verdict
  graded_turn g (some points) (some evidence) sources = ok (
      graded
        (record {
          correctness = g.correctness;
          clarity = g.clarity;
          strengths = g.strengths;
          gaps = g.gaps;
          key_points = points;
          evidence = evidence;
        })
        sources)
  graded_turn g _ _ sources = err key_error

  abbrev pub cite : List Chunk → TurnGrade → Result Failure Verdict
  cite chunks g =
      graded_turn g (points_at chunks g.key_points) (sources_at chunks g.evidence_chunk_ids)
        (map source_of chunks)

  unfoldable pub verdict_of : List Chunk → Completion TurnGrade → Result Failure Verdict
  unfolding ground_grade
  verdict_of chunks completion_raises = err provider_error
  verdict_of chunks unusable = ok (not_graded (map source_of chunks))
  verdict_of chunks (parsed g) = cite chunks (ground_grade chunks g)

  abbrev pub evaluation_of :
      Turn → Option String → Result Failure Verdict → Result Failure Evaluation
  evaluation_of t answer (err e) = err e
  evaluation_of t answer (ok v) =
      ok (record { seq = t.seq; question = t.question_text; answer = answer; verdict = v })

  -- `_evaluate_turn`; `grade` is what JsonLlm.complete returns on the turn's prompt.
  unfoldable pub evaluate_turn :
      (Turn → Option Turn → List Chunk → Completion TurnGrade)
      → Turn
      → Option Turn
      → List Chunk
      → Result Failure Evaluation
  unfolding verdict_of
  evaluate_turn grade t previous chunks =
      let turn_chunks = chunks_of chunks t.retrieved_chunk_ids in
      if is_answered t
      then evaluation_of t t.answer_text (verdict_of turn_chunks (grade t previous turn_chunks))
      else evaluation_of t none (ok not_answered)

  abbrev pub add_evaluation :
      Result Failure Evaluation
      → Result Failure (List Evaluation)
      → Result Failure (List Evaluation)
  add_evaluation (ok e) (ok es) = ok (e ∷ es)
  add_evaluation (ok e) (err f) = err f
  add_evaluation (err f) _ = err f

  -- The loop over the turns, each with the one before it.
  unfoldable pub evaluate_from :
      (Turn → Option Turn → List Chunk → Completion TurnGrade)
      → List Chunk
      → Option Turn
      → List Turn
      → Result Failure (List Evaluation)
  unfolding evaluate_turn
  evaluate_from grade chunks previous [] = ok []
  evaluate_from grade chunks previous (t ∷ ts) =
      add_evaluation (evaluate_turn grade t previous chunks)
        (evaluate_from grade chunks (some t) ts)

-- compute_scores: the counts, and the scores whose average it rounds.
abbrev pub is_graded : Evaluation → Bool
is_graded e = elim e.verdict [ graded _ _ ↦ true | _ ↦ false ]

abbrev pub was_answered : Evaluation → Bool
was_answered e = elim e.verdict [ not_answered ↦ false | _ ↦ true ]
