-- ===== src/VoiceService/Planner/Covers.antt =====
-- One question for each area: parse_plan of voice-service/src/voice_service/planning/planner.py.
use Prim.Native.Char.{code}
use mathlib.Core.Bool.{false≢true}
use mathlib.Core.List.Perm
use mathlib.Core.List.{Perm}
use repo_viva.Base.{
  ℕ, zero, suc, ◌+◌, ◌≡◌, refl, sym, ap, ap₂, subst, ◌∙◌, ◌↔◌, ◌≤◌, String, true, false, ◌&&◌, ◌||◌,
  ◌==◌, Option, none, some, arith, inl, inr, Bool-cases, List, [], ◌∷◌, map, All, length, get_elem?,
  get_before, ℤ, pos, negsuc, int_leb, is_some, Result, ok, err, sort_by, sort_by-perm,
  sort_by-Sorted, Sorted, Sorted-unique, All-perm, strip, strip_idem,
}
use repo_viva.VoiceService.Store.{PlannedQuestion}
use repo_viva.VoiceService.Planning.{AreaContext}
use repo_viva.VoiceService.Planner.{
  Question, PlanFailure, unusable_plan, int_eq, ints_eq, range_from, area_numbers, planned,
  put_question, number_questions, check_plan, parse_plan, unfence, clean, unquote, last_code,
  drop_last, question_on,
}

int_eq_sound : (i j : ℤ) → int_eq i j ≡ true → i ≡ j
int_eq_sound (pos m) (pos n) h = ap pos (ground (arith, h))
int_eq_sound (pos m) (negsuc n) h = cc
int_eq_sound (negsuc m) (pos n) h = cc
int_eq_sound (negsuc m) (negsuc n) h = ap negsuc (ground (arith, h))

int_eq_refl : (i : ℤ) → int_eq i i ≡ true
int_eq_refl (pos n) = ground arith
int_eq_refl (negsuc n) = ground arith

ints_eq_sound : (is js : List ℤ) → ints_eq is js ≡ true → is ≡ js
ints_eq_sound [] [] h = refl
ints_eq_sound [] (j ∷ js) h = cc
ints_eq_sound (i ∷ is) [] h = cc
ints_eq_sound (i ∷ is) (j ∷ js) h = elim (Bool-cases (int_eq i j)) [
  | inl e ↦
      ap₂ (λ (k : ℤ) (ks : List ℤ). k ∷ ks) (int_eq_sound i j e) (ints_eq_sound is js (rw e at h))
  | inr e ↦ let no_more : false ≡ true = rw e at h in cc
]

ints_eq_refl : (is : List ℤ) → ints_eq is is ≡ true
ints_eq_refl [] = refl
ints_eq_refl (i ∷ is) = rw (int_eq_refl i) (ints_eq_refl is)

int_leb_total : (i j : ℤ) → int_leb i j ≡ false → int_leb j i ≡ true
int_leb_total (pos m) (pos n) h = ground arith
int_leb_total (pos m) (negsuc n) h = refl
int_leb_total (negsuc m) (pos n) h = cc
int_leb_total (negsuc m) (negsuc n) h = ground arith

int_leb_trans : (i j k : ℤ) → int_leb i j ≡ true → int_leb j k ≡ true → int_leb i k ≡ true
int_leb_trans (pos l) (pos m) (pos n) g h = ground arith
int_leb_trans (pos l) (pos m) (negsuc n) g h = cc
int_leb_trans (pos l) (negsuc m) k g h = cc
int_leb_trans (negsuc l) (pos m) (pos n) g h = refl
int_leb_trans (negsuc l) (pos m) (negsuc n) g h = cc
int_leb_trans (negsuc l) (negsuc m) (pos n) g h = refl
int_leb_trans (negsuc l) (negsuc m) (negsuc n) g h = ground arith

int_leb_same : (i j : ℤ) → int_leb i j ≡ true → int_leb j i ≡ true → i ≡ j
int_leb_same i j g h = int_eq_sound i j (rw (g, h) refl)

int_leb_refl : (i : ℤ) → int_leb i i ≡ true
int_leb_refl (pos n) = ground arith
int_leb_refl (negsuc n) = ground arith

range-All : (m n count : ℕ) → suc m ≤ n → All (λ j. int_leb (pos m) j ≡ true) (range_from n count)
range-All m n zero h = tt
range-All m n (suc count) h = (ground arith, range-All m (suc n) count (omega arith))

range-Sorted : (n count : ℕ) → Sorted int_leb (range_from n count)
range-Sorted n zero = tt
range-Sorted n (suc count) = (range-All n (suc n) count (omega arith), range-Sorted (suc n) count)

-- The test of the source: sorted, the numbers are 1 to n.
passes_iff :
    (is : List ℤ) (count : ℕ)
    → (ints_eq (sort_by int_leb is) (range_from 1 count) ≡ true) ↔ Perm is (range_from 1 count)
passes_iff is count = (there, back)
  where
    there : ints_eq (sort_by int_leb is) (range_from 1 count) ≡ true → Perm is (range_from 1 count)
    there h =
        subst (Perm is) (ints_eq_sound (sort_by int_leb is) (range_from 1 count) h)
          (Perm.symm (sort_by-perm int_leb is))

    back : Perm is (range_from 1 count) → ints_eq (sort_by int_leb is) (range_from 1 count) ≡ true
    back p =
        rw
          (Sorted-unique int_leb int_leb_refl int_leb_same (sort_by int_leb is) (range_from 1 count)
            (sort_by-Sorted int_leb int_leb_total int_leb_trans is) (range-Sorted 1 count)
            (Perm.trans (sort_by-perm int_leb is) p))
          (ints_eq_refl (range_from 1 count))

-- The path and the chunks of an area, and those of the area that a number names.
abbrev pub source_of_area : AreaContext → String × List ℕ
source_of_area a = (a.path, a.chunks)

abbrev named_source : List AreaContext → ℤ → String × List ℕ
named_source areas i = elim (get_before areas i) [ none ↦ ("", []) | some a ↦ source_of_area a ]

sources-from :
    (areas : List AreaContext) (k : ℕ) (rest : List AreaContext)
    → ((j : ℕ) → get_elem? areas (k + j) ≡ get_elem? rest j)
    → map (named_source areas) (range_from (suc k) (length rest)) ≡ map source_of_area rest
sources-from areas k [] h = refl
sources-from areas k (a ∷ rest) h =
    ap₂ (λ (x : String × List ℕ) (xs : List (String × List ℕ)). x ∷ xs) here
      (sources-from areas (suc k) rest (λ j. ap (get_elem? areas) (omega arith) ∙ h (suc j)))
  where
    at_k : get_elem? areas k ≡ some a
    at_k = ap (get_elem? areas) (omega arith) ∙ h 0

    here : named_source areas (pos (suc k)) ≡ source_of_area a
    here = rw (named_source, at_k) refl

present-from :
    (areas : List AreaContext) (k : ℕ) (rest : List AreaContext)
    → ((j : ℕ) → get_elem? areas (k + j) ≡ get_elem? rest j)
    → All (λ i. is_some (get_before areas i) ≡ true) (range_from (suc k) (length rest))
present-from areas k [] h = tt
present-from areas k (a ∷ rest) h = (
  ap is_some (ap (get_elem? areas) (omega arith) ∙ h 0),
  present-from areas (suc k) rest (λ j. ap (get_elem? areas) (omega arith) ∙ h (suc j)),
)

-- `seq, seq + 1, ...`, one for each element.
abbrev pub numbers_from {ℓ} : {A : Type ℓ} → ℕ → List A → List ℕ
numbers_from seq [] = []
numbers_from seq (x ∷ xs) = seq ∷ numbers_from (suc seq) xs

abbrev sources : List PlannedQuestion → List (String × List ℕ)
sources out = map (λ q. (q.area, q.chunk_ids)) out

unquote-stripped : (s : String) → strip s ≡ s → strip (unquote s) ≡ unquote s
unquote-stripped String.[] h = refl
unquote-stripped (String.◌∷◌ c String.[]) h = h
unquote-stripped (String.◌∷◌ c (String.◌∷◌ d s)) h =
    elim (Bool-cases (code c == last_code (String.◌∷◌ d s) && (code c == 34 || code c == 39))) [
      | inl e ↦ rw e (strip_idem (drop_last (String.◌∷◌ d s)))
      | inr e ↦ rw e h
    ]

-- A plan of questions: their numbers, their sources, and no space around what is spoken.
abbrev Numbered : List AreaContext → ℕ → List Question → List PlannedQuestion → Type 0
Numbered areas seq qs out =
    (map (λ q. q.seq) out ≡ numbers_from seq out)
    × (sources out ≡ map (named_source areas) (area_numbers qs))
    × All (λ q. strip q.text ≡ q.text) out

number_questions-Numbered :
    (areas : List AreaContext) (seq : ℕ) (qs : List Question)
    → All (λ i. is_some (get_before areas i) ≡ true) (area_numbers qs)
    → (out : List PlannedQuestion) × (number_questions areas seq qs ≡ ok out)
      × Numbered areas seq qs out
unfolding number_questions clean
number_questions-Numbered areas seq [] h = ([], refl, (refl, refl, tt))
number_questions-Numbered areas seq (q ∷ qs) h =
    go (get_before areas q.area) refl (number_questions-Numbered areas (suc seq) qs h.1)
  where
    go :
        (o : Option AreaContext)
        → get_before areas q.area ≡ o
        → (out : List PlannedQuestion) × (number_questions areas (suc seq) qs ≡ ok out)
          × Numbered areas (suc seq) qs out
        → (out : List PlannedQuestion) × (put_question
              (planned seq q o)
              (number_questions areas (suc seq) qs)
            ≡ ok out)
          × Numbered areas seq (q ∷ qs) out
    go none e rest = absurd (false≢true (rw e at (h.0)))
    go (some a) e (out, same, n) = (
      question_on seq q a ∷ out,
      rw same refl,
      (
        ap (λ (ns : List ℕ). seq ∷ ns) n.0,
        ap₂ (λ (x : String × List ℕ) (xs : List (String × List ℕ)). x ∷ xs)
            (rw (named_source, e) refl) n.1,
        (unquote-stripped (strip q.text) (strip_idem q.text), n.2),
      ),
    )

-- The numbers 1 to n name the areas, each once.
named_sources :
    (areas : List AreaContext) (is : List ℤ)
    → Perm is (range_from 1 (length areas))
    → Perm (map (named_source areas) is) (map source_of_area areas)
named_sources areas is p =
    subst (Perm (map (named_source areas) is))
      (sources-from areas 0 areas (λ j. ap (get_elem? areas) (omega arith)))
      (Perm.map (named_source areas) p)

All-present :
    (areas : List AreaContext) (is : List ℤ)
    → Perm is (range_from 1 (length areas))
    → All (λ i. is_some (get_before areas i) ≡ true) is
All-present areas is p =
    All-perm (λ i. is_some (get_before areas i) ≡ true) (λ i. hlevel) (Perm.symm p)
      (present-from areas 0 areas (λ j. ap (get_elem? areas) (omega arith)))

-- What parse_plan promises of its outcome.
abbrev pub Covers : List AreaContext → Result PlanFailure (List PlannedQuestion) → Type 0
Covers areas (err e) = e ≡ unusable_plan
Covers areas (ok out) =
    (map (λ q. q.seq) out ≡ numbers_from 1 out)
    × Perm (map (λ q. (q.area, q.chunk_ids)) out) (map source_of_area areas)
    × All (λ q. strip q.text ≡ q.text) out

check_plan-Covers :
    (areas : List AreaContext) (reply : Option (List Question))
    → Covers areas (check_plan areas reply)
check_plan-Covers areas none = refl
check_plan-Covers areas (some qs) =
    elim (Bool-cases (ints_eq (sort_by int_leb (area_numbers qs)) (range_from 1 (length areas)))) [
      | inl e ↦
          let p = (passes_iff (area_numbers qs) (length areas)).0 e in
          let (out, same, n) =
            number_questions-Numbered areas 1 qs (All-present areas (area_numbers qs) p) in
          rw (e, same)
            (
              n.0,
              subst (λ xs. Perm xs (map source_of_area areas)) (sym n.1)
                  (named_sources areas (area_numbers qs) p),
              n.2,
            )
      | inr e ↦ rw e refl
    ]

-- Whatever the model replies, it is refused as an unusable plan, or the questions are numbered
-- from 1 on and stand for the areas in some order: each area once, with the chunks retrieved from
-- it. No text of a question has space around it.
pub parse_plan-Covers :
    (validate : String → Option (List Question)) (content : String) (areas : List AreaContext)
    → Covers areas (parse_plan validate content areas)
unfolding parse_plan
parse_plan-Covers validate content areas = check_plan-Covers areas (validate (unfence content))

-- A reply that reads as a list of questions is accepted exactly when their area numbers are 1 to
-- the number of areas in some order.
pub parse_plan_iff :
    (validate : String → Option (List Question)) (content : String) (areas : List AreaContext)
    (qs : List Question)
    → validate (unfence content) ≡ some qs
    → ((out : List PlannedQuestion) × (parse_plan validate content areas ≡ ok out))
      ↔ Perm (map (λ q. q.area) qs) (range_from 1 (length areas))
unfolding parse_plan
parse_plan_iff validate content areas qs reads = (there, back)
  where
    there :
        (out : List PlannedQuestion) × (parse_plan validate content areas ≡ ok out)
        → Perm (area_numbers qs) (range_from 1 (length areas))
    there (out, accepted) =
        elim (Bool-cases
          (ints_eq (sort_by int_leb (area_numbers qs)) (range_from 1 (length areas)))) [
            | inl e ↦ (passes_iff (area_numbers qs) (length areas)).0 e
            | inr e ↦ let refused : err unusable_plan ≡ ok out = rw (reads, e) at accepted in cc
          ]

    back :
        Perm (area_numbers qs) (range_from 1 (length areas))
        → (out : List PlannedQuestion) × (parse_plan validate content areas ≡ ok out)
    back p =
        let e = (passes_iff (area_numbers qs) (length areas)).1 p in
        let (out, same, n) =
          number_questions-Numbered areas 1 qs (All-present areas (area_numbers qs) p) in
        (out, rw (reads, e) same)
