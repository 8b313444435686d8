-- ===== src/EvaluationService/Grading/Grounding.antt =====
-- Citations after enforce_grounding: evaluation-service/src/evaluation_service/grading/grader.py.
use repo_viva.Base.{
  ℕ, ◌+◌, ◌-◌, ◌≤◌, ◌<◌, ◌≡◌, refl, Bool, true, List, [], ◌∷◌, arith, length, All, All-mono,
  All-select_where, All-of, select_where,
}
use repo_viva.EvaluationService.Grading.{
  KeyPoint, TurnGrade, contains, keep_point, ground_points, enforce_grounding,
}

-- All citations of a list of key points, and of a grade.
abbrev pub citations : List KeyPoint → ℕ
citations [] = 0
citations (kp ∷ kps) = length kp.chunk_ids + citations kps

-- A key point that cites at least one chunk, and only allowed ones.
abbrev Grounded : List ℕ → KeyPoint → Type 0
Grounded allowed kp = (0 < length kp.chunk_ids) × All (λ i. contains allowed i ≡ true) kp.chunk_ids

allowed_only :
    (allowed ids : List ℕ)
    → All (λ i. contains allowed i ≡ true) (select_where (contains allowed) ids)
allowed_only allowed ids =
    All-mono {0, 0, 0} (λ i. Unit × (contains allowed i ≡ true)) (λ i. contains allowed i ≡ true)
      (λ i h. h.1) (select_where (contains allowed) ids)
      (All-select_where (λ _. Unit) (contains allowed) ids (All-of (λ _. Unit) (λ _. tt) ids))

length-select_where : (p : ℕ → Bool) (ids : List ℕ) → length (select_where p ids) ≤ length ids
length-select_where p [] = omega arith
length-select_where p (i ∷ ids) = ground (arith, length-select_where p ids)

points-Grounded :
    (allowed : List ℕ) (kps : List KeyPoint) → All (Grounded allowed) (ground_points allowed kps).0
unfolding ground_points
points-Grounded allowed [] = tt
points-Grounded allowed (kp ∷ kps) =
    go (select_where (contains allowed) kp.chunk_ids) (allowed_only allowed kp.chunk_ids)
      (points-Grounded allowed kps)
  where
    go :
        (valid : List ℕ)
        → All (λ i. contains allowed i ≡ true) valid
        → All (Grounded allowed) (ground_points allowed kps).0
        → All
            (Grounded allowed)
            (keep_point kp valid (
              (ground_points allowed kps).0,
              length kp.chunk_ids
                  - length (select_where (contains allowed) kp.chunk_ids)
                  + (ground_points allowed kps).1,
            )).0
    go [] h rest = rest
    go (i ∷ valid) h rest = ((omega arith, h), rest)

points_counted :
    (allowed : List ℕ) (kps : List KeyPoint)
    → citations (ground_points allowed kps).0 + (ground_points allowed kps).1 ≡ citations kps
unfolding ground_points
points_counted allowed [] = refl
points_counted allowed (kp ∷ kps) =
    go (select_where (contains allowed) kp.chunk_ids)
      (length-select_where (contains allowed) kp.chunk_ids) (points_counted allowed kps)
  where
    go :
        (valid : List ℕ)
        → length valid ≤ length kp.chunk_ids
        → citations (ground_points allowed kps).0 + (ground_points allowed kps).1 ≡ citations kps
        → citations
              (keep_point kp valid (
                (ground_points allowed kps).0,
                length kp.chunk_ids - length valid + (ground_points allowed kps).1,
              )).0
            + (keep_point kp valid (
              (ground_points allowed kps).0,
              length kp.chunk_ids - length valid + (ground_points allowed kps).1,
            )).1
          ≡ length kp.chunk_ids + citations kps
    go [] h rest = omega (arith, rest)
    go (i ∷ valid) h rest = omega (arith, h, rest)

-- After enforce_grounding every key point cites at least one chunk that the model was shown and no
-- other, the evidence too cites only such chunks, and the count of dropped citations is exact:
-- with those that are left it makes up all that the grade had.
pub grounding_sound :
    (g : TurnGrade) (allowed : List ℕ)
    → let (cleaned, dropped) = enforce_grounding g allowed in
      All
        (λ kp. (0 < length kp.chunk_ids) × All (λ i. contains allowed i ≡ true) kp.chunk_ids)
        cleaned.key_points
      × All (λ i. contains allowed i ≡ true) cleaned.evidence_chunk_ids
      × (citations cleaned.key_points + length cleaned.evidence_chunk_ids + dropped
          ≡ citations g.key_points + length g.evidence_chunk_ids)
unfolding enforce_grounding
grounding_sound g allowed = (
  points-Grounded allowed g.key_points,
  allowed_only allowed g.evidence_chunk_ids,
  omega (
    arith,
    points_counted allowed g.key_points,
    length-select_where (contains allowed) g.evidence_chunk_ids,
  ),
)
