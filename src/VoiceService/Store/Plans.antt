-- ===== src/VoiceService/Store/Plans.antt =====
-- The plan's status in voice-service/src/voice_service/session/store.py: who holds a claim, and
-- what a write by a stale job does.
use repo_viva.Base.{
  ℕ, ◌≡◌, refl, ◌∙◌, Bool, false, some, [], ◌∷◌, arith, ==_refl, if◌then◌else◌, first_where,
  first_where-append, Bool-cases, Option-cases, inl, inr,
}
use repo_viva.Base.Tables.Keys
use repo_viva.VoiceService.Store.{
  SessionDocument, Sessions, update_one, has_interview, is_generating, is_failed, is_failed_plan,
  restart, fresh_document, claim_plan, is_generating_plan, set_if_generating,
}

-- An update whose filter names the interview, seen by a query for the interview.
pub first_where-update_one :
    (q p : SessionDocument → Bool) (f : SessionDocument → SessionDocument)
    → ((d : SessionDocument) → q (f d) ≡ q d)
    → ((d : SessionDocument) → q d ≡ false → p d ≡ false)
    → (ds : Sessions) (d : SessionDocument) → first_where q ds ≡ some d
    → first_where q (update_one p f ds) ≡ some (if p d then f d else d)
first_where-update_one q p f keep narrow [] d e = absurd (cc e)
first_where-update_one q p f keep narrow (x ∷ xs) d e = elim (Bool-cases (q x)) [
  | inl hit ↦ let same : x ≡ d = ground (arith, e) in rw (← same) (ground (arith, keep x))
  | inr miss ↦
      rw (narrow x miss) (rw miss (first_where-update_one q p f keep narrow xs d (rw miss at e)))
]

-- After claim_plan the interview has a document: the fresh one, the old one, or the old one anew.
pub claim_plan_finds :
    (ds : Sessions) (now iid rid : ℕ)
    → (d : SessionDocument) × (first_where (has_interview iid) (claim_plan ds now iid rid).0
        ≡ some d)
unfolding claim_plan
claim_plan_finds ds now iid rid = elim (Option-cases (first_where (has_interview iid) ds)) [
  | inl e ↦ (
    fresh_document iid rid now,
    rw (e, claim_plan)
        (rw (first_where-append (has_interview iid) ds (fresh_document iid rid now), e)
          (ground (arith, ==_refl iid))),
  )
  | inr (d, e) ↦ (
    if is_failed_plan iid d then restart now d else d,
    rw (e, claim_plan)
        (first_where-update_one (has_interview iid) (is_failed_plan iid) (restart now) (λ x. refl)
          (λ x h. ground arith) ds d e),
  )
]

pub claim_plan_keeps :
    (ds : Sessions) (now iid rid : ℕ) (d : SessionDocument)
    → first_where (has_interview iid) ds ≡ some d
    → is_failed d.plan_status ≡ false
    → first_where (has_interview iid) (claim_plan ds now iid rid).0 ≡ some d
unfolding claim_plan
claim_plan_keeps ds now iid rid d e calm =
    rw (e, claim_plan)
      (first_where-update_one (has_interview iid) (is_failed_plan iid) (restart now) (λ x. refl)
          (λ x h. ground arith) ds d e
        ∙ ground arith)

-- A finishing write on a plan that is generating settles it; on any other plan it changes nothing
-- that a query for the interview sees.
pub set_if_generating_finds :
    (ds : Sessions) (iid : ℕ) (f : SessionDocument → SessionDocument) (d : SessionDocument)
    → ((x : SessionDocument) → has_interview iid (f x) ≡ has_interview iid x)
    → first_where (has_interview iid) ds ≡ some d
    → first_where (has_interview iid) (set_if_generating ds iid f)
      ≡ some (if is_generating d.plan_status then f d else d)
unfolding set_if_generating
set_if_generating_finds ds iid f d keep e =
    first_where-update_one (has_interview iid) (is_generating_plan iid) f keep (λ x h. ground arith)
      ds d e
    ∙ ground (arith, Keys.first_where-holds (has_interview iid) ds d e)
