-- ===== src/EvaluationService/Pipeline/Order.antt =====
-- The report as a whole: evaluation-service/src/evaluation_service/pipeline.py.
use repo_viva.Base.{
  ℕ, suc, ◌≤◌, String, ◌≡◌, refl, ap, true, Option, none, some, List, [], ◌∷◌, arith, length,
  count_where, Result, ok, err,
}
use repo_viva.EvaluationService.Grading.{TurnGrade, SummaryNotes, Completion}
use repo_viva.EvaluationService.Pipeline.{
  Chunk, Turn, Evaluation, Failure, is_graded, was_answered, add_evaluation, evaluate_turn,
  evaluate_from,
}
use repo_viva.EvaluationService.Pipeline.Report.{
  compute_scores, write_notes, Summary, with_notes, summarise, grade_all, fetch, wanted_ids,
  generate_report,
}
use repo_viva.EvaluationService.Pipeline.Citations.{Sound, evaluation-Sound}

-- One sound evaluation for each turn, in the turns' order.
abbrev pub Evaluates : List Turn → List Evaluation → Type 0
Evaluates [] [] = Unit
Evaluates (t ∷ ts) (e ∷ es) = Sound t (ok e) × Evaluates ts es
Evaluates _ _ = ⊥

-- The evaluations, and the counts that go with them.
abbrev pub Complete : List Turn → Summary → List Evaluation → Type 0
Complete ts summary es =
    Evaluates ts es
    × (summary.scores.turns_asked ≡ length ts)
    × (summary.scores.turns_graded ≤ summary.scores.turns_answered)
    × (summary.scores.turns_answered ≤ summary.scores.turns_asked)

length-Evaluates : (ts : List Turn) (es : List Evaluation) → Evaluates ts es → length es ≡ length ts
length-Evaluates [] [] h = refl
length-Evaluates (t ∷ ts) (e ∷ es) h = ap suc (length-Evaluates ts es h.1)
length-Evaluates [] (e ∷ es) h = elim h [ ]
length-Evaluates (t ∷ ts) [] h = elim h [ ]

graded_is_answered : (e : Evaluation) → is_graded e ≡ true → was_answered e ≡ true
graded_is_answered e h = ground (arith, h)

counts_ordered :
    (es : List Evaluation)
    → (count_where is_graded es ≤ count_where was_answered es)
      × (count_where was_answered es ≤ length es)
counts_ordered [] = (omega arith, omega arith)
counts_ordered (e ∷ es) =
    let (less, more) = counts_ordered es in
    (ground (arith, less, graded_is_answered e), ground (arith, more))

module _ (name_refs : List Chunk → String → String)
    (get_chunks : List ℕ → Result Failure (List Chunk))
    (grade : Turn → Option Turn → List Chunk → Completion TurnGrade)
    (notes : List Evaluation → Completion SummaryNotes) where
  evaluates :
      (chunks : List Chunk) (previous : Option Turn) (ts : List Turn) (es : List Evaluation)
      → evaluate_from name_refs grade chunks previous ts ≡ ok es
      → Evaluates ts es
  unfolding evaluate_from
  evaluates chunks previous [] [] h = tt
  evaluates chunks previous [] (e ∷ es) h = absurd (cc h)
  evaluates chunks previous (t ∷ ts) es h =
      go (evaluate_turn name_refs grade t previous chunks)
        (evaluate_from name_refs grade chunks (some t) ts)
        (evaluation-Sound name_refs grade t previous chunks)
        (λ fs k. evaluates chunks (some t) ts fs k) h
    where
      go :
          (r : Result Failure Evaluation) (rest : Result Failure (List Evaluation))
          → Sound t r
          → ((fs : List Evaluation) → rest ≡ ok fs → Evaluates ts fs)
          → add_evaluation name_refs r rest ≡ ok es
          → Evaluates (t ∷ ts) es
      go (ok e) (ok fs) s k eq =
          let same : e ∷ fs ≡ es = ground (arith, eq) in rw (← same) (s, k fs refl)
      go (ok e) (err f) s k eq = absurd (cc eq)
      go (err f) rest s k eq = absurd (cc eq)

  with_scores :
      (ts : List Turn) (fs : List Evaluation) (n : Result Failure (Option SummaryNotes))
      (summary : Summary) (es : List Evaluation)
      → Evaluates ts fs
      → with_notes name_refs get_chunks grade notes fs n ≡ ok (summary, es)
      → Complete ts summary es
  unfolding compute_scores
  with_scores ts fs (err f) summary es h eq = absurd (cc eq)
  with_scores ts fs (ok none) summary es h eq =
      let same : fs ≡ es = ground (arith, eq) in
      let scored : compute_scores fs ≡ summary.scores = ground (arith, eq) in
      let (less, more) = counts_ordered fs in
      rw (← same, ← scored) (h, length-Evaluates ts fs h, less, more)
  with_scores ts fs (ok (some x)) summary es h eq =
      let same : fs ≡ es = ground (arith, eq) in
      let scored : compute_scores fs ≡ summary.scores = ground (arith, eq) in
      let (less, more) = counts_ordered fs in
      rw (← same, ← scored) (h, length-Evaluates ts fs h, less, more)

  -- A report that is generated has one evaluation for each turn, in the turns' order, each sound in
  -- its citations; its counts belong together: no more graded than answered, no more answered than
  -- asked, and as many asked as there were turns.
  pub report-Complete :
      (ts : List Turn) (summary : Summary) (es : List Evaluation)
      → generate_report name_refs get_chunks grade notes (ok ts) ≡ ok (summary, es)
      → Evaluates ts es
        × (summary.scores.turns_asked ≡ length ts)
        × (summary.scores.turns_graded ≤ summary.scores.turns_answered)
        × (summary.scores.turns_answered ≤ summary.scores.turns_asked)
  unfolding generate_report
  report-Complete ts summary es h = go (fetch name_refs get_chunks grade notes (wanted_ids ts)) h
    where
      summarised :
          (chunks : List Chunk) (r : Result Failure (List Evaluation))
          → evaluate_from name_refs grade chunks none ts ≡ r
          → summarise name_refs get_chunks grade notes r ≡ ok (summary, es)
          → Complete ts summary es
      summarised chunks (err f) e eq = absurd (cc eq)
      summarised chunks (ok fs) e eq =
          with_scores ts fs (write_notes notes fs) summary es (evaluates chunks none ts fs e) eq

      go :
          (r : Result Failure (List Chunk))
          → grade_all name_refs get_chunks grade notes ts r ≡ ok (summary, es)
          → Complete ts summary es
      go (err f) eq = absurd (cc eq)
      go (ok chunks) eq = summarised chunks (evaluate_from name_refs grade chunks none ts) refl eq
