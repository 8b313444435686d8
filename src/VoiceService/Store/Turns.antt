-- ===== src/VoiceService/Store/Turns.antt =====
-- The life of a question in voice-service/src/voice_service/session/store.py: planned, asked,
-- answered, each step once.
use repo_viva.Base.{
  ℕ, zero, suc, String, ◌≡◌, refl, ◌∙◌, Bool, true, false, ◌&&◌, none, some, List, [], ◌∷◌, arith,
  if◌then◌else◌, first_where, select_where, is_some, get_elem?, Bool-cases, inl, inr,
}
use repo_viva.VoiceService.Store.{
  QuestionStatus, planned, asked, answered, StoredQuestion, SessionDocument, Sessions, update_one,
  has_interview, question_at, set_nth, set_question, has_status, expects, on_question,
  update_question, ask, take_answer, mark_asked, record_answer,
}

get_elem?-set_nth :
    (f : StoredQuestion → StoredQuestion) (i : ℕ) (qs : List StoredQuestion) (q : StoredQuestion)
    → get_elem? qs i ≡ some q
    → get_elem? (set_nth i f qs) i ≡ some (f q)
get_elem?-set_nth f i [] q e = absurd (cc e)
get_elem?-set_nth f zero (x ∷ qs) q e = let same : x ≡ q = ground (arith, e) in rw same refl
get_elem?-set_nth f (suc i) (x ∷ qs) q e = get_elem?-set_nth f i qs q e

question_at-set :
    (f : StoredQuestion → StoredQuestion) (seq : ℕ) (qs : List StoredQuestion) (q : StoredQuestion)
    → question_at seq qs ≡ some q
    → question_at seq (set_question seq f qs) ≡ some (f q)
question_at-set f zero qs q e = absurd (cc e)
question_at-set f (suc i) qs q e = get_elem?-set_nth f i qs q e

-- The interview has this document and, by the unique index on interview_id, no other.
abbrev pub Only : ℕ → SessionDocument → Sessions → Type 0
Only iid d ds = select_where (has_interview iid) ds ≡ d ∷ []

select_none-update_one :
    (q p : SessionDocument → Bool) (f : SessionDocument → SessionDocument)
    → ((d : SessionDocument) → q d ≡ false → p d ≡ false)
    → (ds : Sessions) → select_where q ds ≡ []
    → select_where q (update_one p f ds) ≡ []
select_none-update_one q p f narrow [] e = refl
select_none-update_one q p f narrow (x ∷ xs) e = elim (Bool-cases (q x)) [
  | inl hit ↦ absurd (cc (rw hit at e))
  | inr miss ↦ rw (narrow x miss) (rw miss (select_none-update_one q p f narrow xs (rw miss at e)))
]

select_where-update_one :
    (q p : SessionDocument → Bool) (f : SessionDocument → SessionDocument)
    → ((d : SessionDocument) → q (f d) ≡ q d)
    → ((d : SessionDocument) → q d ≡ false → p d ≡ false)
    → (ds : Sessions) (d : SessionDocument) → select_where q ds ≡ d ∷ []
    → select_where q (update_one p f ds) ≡ (if p d then f d else d) ∷ []
select_where-update_one q p f keep narrow [] d e = absurd (cc e)
select_where-update_one q p f keep narrow (x ∷ xs) d e = elim (Bool-cases (q x)) [
  | inl hit ↦
      let heads : x ∷ select_where q xs ≡ d ∷ [] = rw hit at e in
      let same : x ≡ d = ground (arith, heads) in
      let rest : select_where q xs ≡ [] = ground (arith, heads) in
      rw (← same) (ground (arith, keep x, hit, rest, select_none-update_one q p f narrow xs rest))
  | inr miss ↦
      rw (narrow x miss) (rw miss (select_where-update_one q p f keep narrow xs d (rw miss at e)))
]

-- A filter that adds a test to the interview matches its document or nothing.
first_where_none :
    (q t : SessionDocument → Bool) (ds : Sessions)
    → select_where q ds ≡ []
    → is_some (first_where (λ x. q x && t x) ds) ≡ false
first_where_none q t [] e = refl
first_where_none q t (x ∷ xs) e = elim (Bool-cases (q x)) [
  | inl hit ↦ absurd (cc (rw hit at e))
  | inr miss ↦ rw miss (first_where_none q t xs (rw miss at e))
]

first_where_only :
    (q t : SessionDocument → Bool) (ds : Sessions) (d : SessionDocument)
    → select_where q ds ≡ d ∷ []
    → is_some (first_where (λ x. q x && t x) ds) ≡ t d
first_where_only q t [] d e = absurd (cc e)
first_where_only q t (x ∷ xs) d e = elim (Bool-cases (q x)) [
  | inl hit ↦
      let heads : x ∷ select_where q xs ≡ d ∷ [] = rw hit at e in
      let same : x ≡ d = ground (arith, heads) in
      let rest : select_where q xs ≡ [] = ground (arith, heads) in
      rw (← same) (ground (arith, hit, first_where_none q t xs rest))
  | inr miss ↦ rw miss (first_where_only q t xs d (rw miss at e))
]

-- The guarded update on an interview's only document.
pub update_question-Only :
    (ds : Sessions) (now iid seq : ℕ) (s : QuestionStatus) (f : StoredQuestion → StoredQuestion)
    (d : SessionDocument)
    → Only iid d ds
    → update_question ds now iid seq s f ≡ (
        if has_status s (question_at seq d.questions)
        then some (update_one (expects iid seq s) (on_question now seq f) ds)
        else none)
unfolding update_question
update_question-Only ds now iid seq s f d o =
    rw
      (first_where_only (has_interview iid) (λ x. has_status s (question_at seq x.questions)) ds d
        o)
      refl

only_has :
    (q : SessionDocument → Bool) (ds : Sessions) (d : SessionDocument)
    → select_where q ds ≡ d ∷ []
    → q d ≡ true
only_has q [] d e = absurd (cc e)
only_has q (x ∷ xs) d e = elim (Bool-cases (q x)) [
  | inl hit ↦
      let heads : x ∷ select_where q xs ≡ d ∷ [] = rw hit at e in
      let same : x ≡ d = ground (arith, heads) in rw (← same) hit
  | inr miss ↦ only_has q xs d (rw miss at e)
]

updated-Only :
    (ds : Sessions) (now iid seq : ℕ) (s : QuestionStatus) (f : StoredQuestion → StoredQuestion)
    (d : SessionDocument)
    → Only iid d ds
    → has_status s (question_at seq d.questions) ≡ true
    → Only iid (on_question now seq f d) (update_one (expects iid seq s) (on_question now seq f) ds)
updated-Only ds now iid seq s f d o h =
    select_where-update_one (has_interview iid) (expects iid seq s) (on_question now seq f)
      (λ x. refl) (λ x miss. ground arith) ds d o
    ∙ rw (only_has (has_interview iid) ds d o, h) refl

-- A planned question of an interview with one document. Marking it asked succeeds once, an answer
-- is recorded once and only after it. The question then has the status `answered`, the text of
-- that answer and the times of both steps, and is otherwise as it was planned.
pub question_steps_once :
    (ds : Sessions) (iid seq : ℕ) (d : SessionDocument) (q : StoredQuestion) (t u v w : ℕ)
    (answer other : String)
    → Only iid d ds
    → question_at seq d.questions ≡ some q
    → q.status ≡ planned
    → (record_answer ds t iid seq answer ≡ none)
      × ((ds' ds'' : Sessions) × (mark_asked ds t iid seq ≡ some ds')
          × (mark_asked ds' u iid seq ≡ none)
          × (record_answer ds' v iid seq answer ≡ some ds'')
          × (mark_asked ds'' w iid seq ≡ none)
          × (record_answer ds'' w iid seq other ≡ none)
          × ((d' : SessionDocument) × Only iid d' ds''
              × (question_at seq d'.questions
                  ≡ some (record q {
                    status = answered;
                    answer = some answer;
                    asked_at = some t;
                    answered_at = some v;
                  }))))
unfolding mark_asked record_answer
question_steps_once ds iid seq d q t u v w answer other o e s =
    let asked_doc = on_question t seq (ask t) d in
    let ds' = update_one (expects iid seq planned) (on_question t seq (ask t)) ds in
    let is_planned : has_status planned (question_at seq d.questions) ≡ true =
      rw (e, has_status) (rw s refl) in
    let o' : Only iid asked_doc ds' = updated-Only ds t iid seq planned (ask t) d o is_planned in
    let e' : question_at seq asked_doc.questions ≡ some (ask t q) =
      question_at-set (ask t) seq d.questions q e in
    let done_doc = on_question v seq (take_answer v answer) asked_doc in
    let ds'' = update_one (expects iid seq asked) (on_question v seq (take_answer v answer)) ds' in
    let o'' : Only iid done_doc ds'' =
      updated-Only ds' v iid seq asked (take_answer v answer) asked_doc o'
        (rw (e', has_status) refl) in
    let e'' : question_at seq done_doc.questions ≡ some (take_answer v answer (ask t q)) =
      question_at-set (take_answer v answer) seq asked_doc.questions (ask t q) e' in
    (
      update_question-Only ds t iid seq asked (take_answer t answer) d o
          ∙ rw (e, has_status) (rw s refl),
      (
        ds',
        ds'',
        update_question-Only ds t iid seq planned (ask t) d o ∙ rw is_planned refl,
        update_question-Only ds' u iid seq planned (ask u) asked_doc o' ∙ rw (e', has_status) refl,
        update_question-Only ds' v iid seq asked (take_answer v answer) asked_doc o'
            ∙ rw (e', has_status) refl,
        update_question-Only ds'' w iid seq planned (ask w) done_doc o''
            ∙ rw (e'', has_status) refl,
        update_question-Only ds'' w iid seq asked (take_answer w other) done_doc o''
            ∙ rw (e'', has_status) refl,
        (done_doc, o'', e''),
      ),
    )
