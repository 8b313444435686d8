-- ===== src/Examples/Pipeline.antt =====
-- One graded turn and one unanswered turn: evaluation-service/src/evaluation_service/pipeline.py.
use repo_viva.Base.{ℕ, ◌≤◌, String, ◌≡◌, refl, Option, none, some, List, [], ◌∷◌, Result, ok}
use repo_viva.EvaluationService.Grading.{
  TurnGrade, enforce_grounding, Completion, parsed, unusable, SummaryNotes,
}
use repo_viva.EvaluationService.Pipeline.{
  Chunk, Turn, answered, Evaluation, Failure, Source, graded, not_answered, evaluate_turn,
  name_refs_in_grade,
}
use repo_viva.EvaluationService.Pipeline.Report.{Summary, generate_report}
use repo_viva.EvaluationService.Pipeline.Citations.{Sound, evaluation-Sound}
use repo_viva.EvaluationService.Pipeline.Order.{Evaluates, report-Complete}

abbrev chunk : Chunk
chunk = record { id = 11; filename = "src/queue.py"; start_line = 1; end_line = 20 }

abbrev first_turn : Turn
first_turn = record {
  seq = 1;
  question_text = "Why a queue?";
  answer_text = some "To retry.";
  status = answered;
  retrieved_chunk_ids = 11 ∷ 40 ∷ [];
}

abbrev second_turn : Turn
second_turn = record {
  seq = 2;
  question_text = "Why two?";
  answer_text = some "  ";
  status = answered;
  retrieved_chunk_ids = 41 ∷ [];
}

-- The model cites one chunk that it was shown and one that it was not.
abbrev model_grade : TurnGrade
model_grade = record {
  correctness = record { score = 4; justification = "sound" };
  clarity = record { score = 3; justification = "brief" };
  strengths = [];
  gaps = [];
  key_points = record { point = "retries"; chunk_ids = 11 ∷ 99 ∷ [] } ∷ [];
  evidence_chunk_ids = 40 ∷ 11 ∷ [];
}

abbrev same_text : List Chunk → String → String
same_text chunks text = text

abbrev grader : Turn → Option Turn → List Chunk → Completion TurnGrade
grader t previous chunks = parsed model_grade

abbrev get_one : List ℕ → Result Failure (List Chunk)
get_one ids = ok (chunk ∷ [])

abbrev no_notes : List Evaluation → Completion SummaryNotes
no_notes es = unusable

evaluation-Sound_example :
    Sound first_turn (evaluate_turn same_text grader first_turn none (chunk ∷ []))
evaluation-Sound_example = evaluation-Sound same_text grader first_turn none (chunk ∷ [])

abbrev shown : List Source
shown = record { chunk_id = 11; filename = "src/queue.py"; start_line = 1; end_line = 20 } ∷ []

abbrev first_evaluation : Evaluation
first_evaluation = record {
  seq = 1;
  question = "Why a queue?";
  answer = some "To retry.";
  verdict =
      graded
        (record {
          correctness = record { score = 4; justification = "sound" };
          clarity = record { score = 3; justification = "brief" };
          strengths = [];
          gaps = [];
          key_points = record { point = "retries"; sources = shown } ∷ [];
          evidence = shown;
        })
        shown;
}

abbrev second_evaluation : Evaluation
second_evaluation = record { seq = 2; question = "Why two?"; answer = none; verdict = not_answered }

abbrev summary : Summary
summary = record {
  scores = record {
    correctness = 4 ∷ [];
    clarity = 3 ∷ [];
    turns_asked = 2;
    turns_answered = 1;
    turns_graded = 1;
  };
  strengths = [];
  improvements = [];
  files_to_revisit = [];
}

abbrev turns : List Turn
turns = first_turn ∷ second_turn ∷ []

abbrev evaluations : List Evaluation
evaluations = first_evaluation ∷ second_evaluation ∷ []

reports : generate_report same_text get_one grader no_notes (ok turns) ≡ ok (summary, evaluations)
unfolding generate_report evaluate_turn name_refs_in_grade enforce_grounding
reports = refl

report-Complete_example :
    Evaluates turns evaluations
    × (summary.scores.turns_asked ≡ 2)
    × (summary.scores.turns_graded ≤ summary.scores.turns_answered)
    × (summary.scores.turns_answered ≤ summary.scores.turns_asked)
report-Complete_example =
    report-Complete same_text get_one grader no_notes turns summary evaluations reports
