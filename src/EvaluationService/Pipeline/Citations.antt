-- ===== src/EvaluationService/Pipeline/Citations.antt =====
-- What a graded turn cites: evaluation-service/src/evaluation_service/pipeline.py.
use repo_viva.Base.{
  ℕ, suc, ◌<◌, String, ◌≡◌, refl, ap, true, ◌||◌, Option, some, List, [], ◌∷◌, map, arith, ◌==◌,
  ==_refl, length, All, All-mono, Result, ok, err, Bool-cases, Option-cases, inl, inr,
}
use repo_viva.Base.Tables.Keys
use repo_viva.EvaluationService.Grading.{
  KeyPoint, TurnGrade, contains, enforce_grounding, Completion, parsed, unusable, completion_raises,
}
use repo_viva.EvaluationService.Grading.Grounding.{grounding_sound}
use repo_viva.EvaluationService.Pipeline.{
  Chunk, Turn, Source, GradedPoint, Verdict, not_answered, not_graded, graded, Evaluation, Failure,
  provider_error, source_of, is_answered, chunk_at, chunks_of, ids_of, sources_at, points_at,
  fix_points, name_refs_in_grade, ground_grade, cite, verdict_of, evaluation_of, evaluate_turn,
}

-- Every source is one of these ids.
abbrev pub Among : List ℕ → List Source → Type 0
Among ids = All (λ s. contains ids s.chunk_id ≡ true)

abbrev pub WellCited : List ℕ → GradedPoint → Type 0
WellCited ids p = (0 < length p.sources) × Among ids p.sources

abbrev pub Cites : List ℕ → Verdict → Type 0
Cites ids not_answered = Unit
Cites ids (not_graded sources) = Among ids sources
Cites ids (graded g sources) =
    All (WellCited ids) g.key_points × Among ids g.evidence × Among ids sources

-- The ways an evaluation may end.
abbrev pub Sound : Turn → Result Failure Evaluation → Type 0
Sound t (err e) = e ≡ provider_error
Sound t (ok e) = (e.seq ≡ t.seq) × Cites t.retrieved_chunk_ids e.verdict

chunk_found :
    (cs : List Chunk) (i : ℕ)
    → contains (ids_of cs) i ≡ true
    → (c : Chunk) × (chunk_at cs i ≡ some c) × (c.id ≡ i)
chunk_found [] i h = absurd (cc h)
chunk_found (c ∷ cs) i h = elim (Bool-cases (c.id == i)) [
  | inl hit ↦ (c, rw hit refl, ground (arith, hit))
  | inr miss ↦
      let (d, found, same) = chunk_found cs i (ground (arith, h, miss)) in (d, rw miss found, same)
]

only_retrieved :
    (chunks : List Chunk) (ids : List ℕ) (i : ℕ)
    → contains (ids_of (chunks_of chunks ids)) i ≡ true
    → contains ids i ≡ true
only_retrieved chunks [] i h = h
only_retrieved chunks (j ∷ ids) i h = elim (Option-cases (chunk_at chunks j)) [
  | inl gone ↦ ground (arith, only_retrieved chunks ids i (rw gone at h))
  | inr (c, e) ↦
      let there : ((c.id == i) || contains (ids_of (chunks_of chunks ids)) i) ≡ true = rw e at h in
      let same = Keys.first_where-holds (λ x. x.id == j) chunks c e in
      ground (arith, there, same, only_retrieved chunks ids i)
]

sources_found :
    (cs : List Chunk) (ids : List ℕ)
    → All (λ i. contains (ids_of cs) i ≡ true) ids
    → (ss : List Source) × (sources_at cs ids ≡ some ss)
      × (length ss ≡ length ids)
      × Among (ids_of cs) ss
sources_found cs [] h = ([], refl, refl, tt)
sources_found cs (i ∷ ids) h =
    let (c, e, same) = chunk_found cs i h.0 in
    let (ss, es, n, within) = sources_found cs ids h.1 in
    (source_of c ∷ ss, rw (e, es) refl, ap suc n, (rw same h.0, within))

points_found :
    (cs : List Chunk) (kps : List KeyPoint)
    → All
        (λ kp. (0 < length kp.chunk_ids) × All (λ i. contains (ids_of cs) i ≡ true) kp.chunk_ids)
        kps
    → (ps : List GradedPoint) × (points_at cs kps ≡ some ps) × All (WellCited (ids_of cs)) ps
points_found cs [] h = ([], refl, tt)
points_found cs (kp ∷ kps) h =
    let (ss, es, n, within) = sources_found cs kp.chunk_ids h.0.1 in
    let (ps, eps, rest) = points_found cs kps h.1 in
    (
      record { point = kp.point; sources = ss } ∷ ps,
      rw (es, eps) refl,
      ((omega (arith, n, h.0.0), within), rest),
    )

Among-all : (cs : List Chunk) → Among (ids_of cs) (map source_of cs)
Among-all cs = go cs (λ i h. h)
  where
    go :
        (ds : List Chunk)
        → ((i : ℕ) → contains (ids_of ds) i ≡ true → contains (ids_of cs) i ≡ true)
        → Among (ids_of cs) (map source_of ds)
    go [] h = tt
    go (d ∷ ds) h = (h d.id (ground (arith, ==_refl d.id)), go ds (λ i k. h i (ground (arith, k))))

abbrev Grounded : List ℕ → KeyPoint → Type 0
Grounded allowed kp = (0 < length kp.chunk_ids) × All (λ i. contains allowed i ≡ true) kp.chunk_ids

-- Among the ids of the turn's chunks is among those that it retrieved.
Among-retrieved :
    (chunks : List Chunk) (ids : List ℕ) (ss : List Source)
    → Among (ids_of (chunks_of chunks ids)) ss
    → Among ids ss
Among-retrieved chunks ids ss =
    All-mono (λ s. contains (ids_of (chunks_of chunks ids)) s.chunk_id ≡ true)
      (λ s. contains ids s.chunk_id ≡ true) (λ s h. only_retrieved chunks ids s.chunk_id h) ss

module _ (name_refs : List Chunk → String → String) where
  fix_points-Grounded :
      (cs : List Chunk) (allowed : List ℕ) (kps : List KeyPoint)
      → All (Grounded allowed) kps
      → All (Grounded allowed) (fix_points name_refs cs kps)
  fix_points-Grounded cs allowed [] h = tt
  fix_points-Grounded cs allowed (kp ∷ kps) h = (h.0, fix_points-Grounded cs allowed kps h.1)

  cited :
      (chunks : List Chunk) (ids : List ℕ) (g : TurnGrade)
      → let cs = chunks_of chunks ids in
        (v : Verdict) × (cite name_refs cs (ground_grade name_refs cs g) ≡ ok v) × Cites ids v
  unfolding ground_grade name_refs_in_grade
  cited chunks ids g =
      let cs = chunks_of chunks ids in
      let cleaned = (enforce_grounding g (ids_of cs)).0 in
      let (grounded_points, grounded_evidence, _) = grounding_sound g (ids_of cs) in
      let (ps, eps, points) =
        points_found cs (fix_points name_refs cs cleaned.key_points)
          (fix_points-Grounded cs (ids_of cs) cleaned.key_points grounded_points) in
      let (ss, ess, n, evidence) = sources_found cs cleaned.evidence_chunk_ids grounded_evidence in
      let fixed = ground_grade name_refs cs g in
      (
        graded
            (record {
              correctness = fixed.correctness;
              clarity = fixed.clarity;
              strengths = fixed.strengths;
              gaps = fixed.gaps;
              key_points = ps;
              evidence = ss;
            })
            (map source_of cs),
        rw (eps, ess) refl,
        (
          All-mono (WellCited (ids_of cs)) (WellCited ids)
              (λ p h. (h.0, Among-retrieved chunks ids p.sources h.1)) ps points,
          Among-retrieved chunks ids ss evidence,
          Among-retrieved chunks ids (map source_of cs) (Among-all cs),
        ),
      )

  verdict-Sound :
      (t : Turn) (chunks : List Chunk) (answer : Option String) (reply : Completion TurnGrade)
      → Sound t (
          evaluation_of name_refs t answer
            (verdict_of name_refs (chunks_of chunks t.retrieved_chunk_ids) reply))
  unfolding verdict_of
  verdict-Sound t chunks answer completion_raises = refl
  verdict-Sound t chunks answer unusable =
      let cs = chunks_of chunks t.retrieved_chunk_ids in
      (refl, Among-retrieved chunks t.retrieved_chunk_ids (map source_of cs) (Among-all cs))
  verdict-Sound t chunks answer (parsed g) =
      let (v, e, h) = cited chunks t.retrieved_chunk_ids g in rw e (refl, h)

  -- The evaluation of a turn never fails on a citation: it ends with the provider's exception or
  -- with a verdict for that turn. Every source that the verdict cites is a chunk retrieved for the
  -- turn's question, and every key point of a grade cites at least one.
  pub evaluation-Sound :
      (grade : Turn → Option Turn → List Chunk → Completion TurnGrade) (t : Turn)
      (previous : Option Turn) (chunks : List Chunk)
      → Sound t (evaluate_turn name_refs grade t previous chunks)
  unfolding evaluate_turn
  evaluation-Sound grade t previous chunks = elim (Bool-cases (is_answered t)) [
    | inl e ↦ rw e (
        verdict-Sound t chunks t.answer_text
          (grade t previous (chunks_of chunks t.retrieved_chunk_ids)))
    | inr e ↦ rw e (refl, tt)
  ]
