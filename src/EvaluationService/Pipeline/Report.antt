-- ===== src/EvaluationService/Pipeline/Report.antt =====
-- generate_report of evaluation-service/src/evaluation_service/pipeline.py, with compute_scores and
-- write_notes of grading/summary.py. What the clients and the model answer are arguments.
use repo_viva.Base.{
  ℕ, String, Option, none, some, List, [], ◌∷◌, ◌++◌, ◌==◌, if◌then◌else◌, ltb, length,
  select_where, count_where, Result, ok, err,
}
use repo_viva.EvaluationService.Grading.{
  TurnGrade, Completion, parsed, unusable, completion_raises, FileNote, SummaryNotes,
  keep_known_files,
}
use repo_viva.EvaluationService.Pipeline.{
  Chunk, Turn, Source, graded, Evaluation, Failure, provider_error, is_answered, is_graded,
  was_answered, evaluate_from,
}

-- sorted({...}).
abbrev pub insert_id : ℕ → List ℕ → List ℕ
insert_id i [] = i ∷ []
insert_id i (j ∷ ids) =
    let rest = insert_id i ids in
    if i == j then j ∷ ids else if ltb i j then i ∷ j ∷ ids else j ∷ rest

abbrev pub insert_ids : List ℕ → List ℕ → List ℕ
insert_ids [] ids = ids
insert_ids (i ∷ more) ids = insert_id i (insert_ids more ids)

-- The chunks that any answered turn was built from.
abbrev pub wanted_ids : List Turn → List ℕ
wanted_ids [] = []
wanted_ids (t ∷ ts) =
    let rest = wanted_ids ts in
    if is_answered t then insert_ids t.retrieved_chunk_ids rest else rest

-- compute_scores, with the scores in place of their rounded average.
pub record Scores : Type 0 where
  pub correctness : List ℕ
  pub clarity : List ℕ
  pub turns_asked : ℕ
  pub turns_answered : ℕ
  pub turns_graded : ℕ

abbrev pub correctness_scores : List Evaluation → List ℕ
correctness_scores [] = []
correctness_scores (e ∷ es) =
    let rest = correctness_scores es in
    elim e.verdict [ graded g _ ↦ g.correctness.score ∷ rest | _ ↦ rest ]

abbrev pub clarity_scores : List Evaluation → List ℕ
clarity_scores [] = []
clarity_scores (e ∷ es) =
    let rest = clarity_scores es in
    elim e.verdict [ graded g _ ↦ g.clarity.score ∷ rest | _ ↦ rest ]

unfoldable pub compute_scores : List Evaluation → Scores
compute_scores es = record {
  correctness = correctness_scores es;
  clarity = clarity_scores es;
  turns_asked = length es;
  turns_answered = count_where was_answered es;
  turns_graded = count_where is_graded es;
}

-- write_notes: the files behind the graded turns, and the model's notes on them.
abbrev pub filenames : List Source → List String
filenames [] = []
filenames (s ∷ ss) = s.filename ∷ filenames ss

abbrev pub known_files : List Evaluation → List String
known_files [] = []
known_files (e ∷ es) =
    let rest = known_files es in
    elim e.verdict [ graded _ sources ↦ filenames sources ++ rest | _ ↦ rest ]

abbrev pub kept_notes : List String → Completion SummaryNotes → Result Failure (Option SummaryNotes)
kept_notes known completion_raises = err provider_error
kept_notes known unusable = ok none
kept_notes known (parsed n) = ok (some (keep_known_files known n))

unfoldable pub write_notes :
    (List Evaluation → Completion SummaryNotes)
    → List Evaluation
    → Result Failure (Option SummaryNotes)
unfolding keep_known_files
write_notes notes es = elim (select_where is_graded es) [
  | [] ↦ ok none
  | e ∷ rest ↦ kept_notes (known_files es) (notes (e ∷ rest))
]

pub record Summary : Type 0 where
  pub scores : Scores
  pub strengths : List String
  pub improvements : List String
  pub files_to_revisit : List FileNote

abbrev pub summary_of : Scores → Option SummaryNotes → Summary
summary_of scores none = record {
  scores = scores;
  strengths = [];
  improvements = [];
  files_to_revisit = [];
}
summary_of scores (some n) = record {
  scores = scores;
  strengths = n.strengths;
  improvements = n.improvements;
  files_to_revisit = n.files_to_revisit;
}

module _ (name_refs : List Chunk → String → String)
    (get_chunks : List ℕ → Result Failure (List Chunk))
    (grade : Turn → Option Turn → List Chunk → Completion TurnGrade)
    (notes : List Evaluation → Completion SummaryNotes) where
  abbrev pub with_notes :
      List Evaluation
      → Result Failure (Option SummaryNotes)
      → Result Failure (Summary × List Evaluation)
  with_notes es (err f) = err f
  with_notes es (ok n) = ok (summary_of (compute_scores es) n, es)

  abbrev pub summarise :
      Result Failure (List Evaluation) → Result Failure (Summary × List Evaluation)
  summarise (err f) = err f
  summarise (ok es) = with_notes es (write_notes notes es)

  abbrev pub grade_all :
      List Turn → Result Failure (List Chunk) → Result Failure (Summary × List Evaluation)
  grade_all ts (err f) = err f
  grade_all ts (ok chunks) = summarise (evaluate_from name_refs grade chunks none ts)

  abbrev pub fetch : List ℕ → Result Failure (List Chunk)
  fetch [] = ok []
  fetch (i ∷ ids) = get_chunks (i ∷ ids)

  -- generate_report, from the answer of Voice Service on.
  unfoldable pub generate_report :
      Result Failure (List Turn) → Result Failure (Summary × List Evaluation)
  unfolding evaluate_from write_notes compute_scores
  generate_report (err f) = err f
  generate_report (ok ts) = grade_all ts (fetch (wanted_ids ts))
