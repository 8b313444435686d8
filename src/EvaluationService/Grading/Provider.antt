-- ===== src/EvaluationService/Grading/Provider.antt =====
-- The waits of the provider loop: evaluation-service/src/evaluation_service/grading/llm.py.
use repo_viva.Base.{
  ℕ, zero, suc, ◌+◌, ◌*◌, ◌≤◌, ◌≡◌, ◌≢◌, refl, Bool, true, false, ◌||◌, Option, arith, ltb,
  Bool-cases, inl, inr,
}
use repo_viva.EvaluationService.Grading.{
  ProviderAnswer, replies, malformed_json, rate_limited, provider_fails, Usage, CallResult,
  content_is, call_raises, out_of_fuel, max_wait, max_rate_limit_waits, delay_of, counted,
  call_from, call,
}

is_exhausted : CallResult → Bool
is_exhausted out_of_fuel = true
is_exhausted _ = false

-- What a run of the loop with so many waits left may use.
abbrev Within : ℕ → Usage → CallResult × Usage → Type 0
Within left u (r, v) =
    (is_exhausted r ≡ false)
    × (v.calls ≤ u.calls + suc left)
    × (v.slept ≤ u.slept + left * max_wait)

-- The test of the loop on one more rate limit.
abbrev gives_up : ℕ → Option ℕ → Bool
gives_up waits after = ltb max_rate_limit_waits (suc waits) || ltb max_wait (delay_of after)

no_wait_left :
    (waits : ℕ) (after : Option ℕ) → waits ≡ max_rate_limit_waits → gives_up waits after ≡ true
no_wait_left waits after h = rw h refl

waits_within :
    (waits : ℕ) (after : Option ℕ) → gives_up waits after ≡ false → delay_of after ≤ max_wait
waits_within waits after h = ground (arith, h)

longer :
    (left d : ℕ) (u : Usage) (t : CallResult × Usage)
    → d ≤ max_wait
    → Within left (record (counted u) { slept = u.slept + d }) t
    → Within (suc left) u t
longer left d u (r, v) k (e, c, s) = (e, omega (arith, c), omega (arith, s, k))

loop-Within :
    (provider : ℕ → ProviderAnswer) (left waits : ℕ) (u : Usage)
    → waits + left ≡ max_rate_limit_waits
    → Within left u (call_from provider (suc left) waits u)
unfolding call_from is_exhausted
loop-Within provider zero waits u h = go (provider u.calls) refl
  where
    go :
        (a : ProviderAnswer)
        → provider u.calls ≡ a
        → Within zero u (call_from provider (suc zero) waits u)
    go (replies content tokens) e = rw (e, call_from) (refl, omega arith, omega arith)
    go malformed_json e = rw (e, call_from) (refl, omega arith, omega arith)
    go (provider_fails message) e = rw (e, call_from) (refl, omega arith, omega arith)
    go (rate_limited after) e =
        rw (e, no_wait_left waits after (omega (arith, h)), call_from)
          (refl, omega arith, omega arith)
loop-Within provider (suc left) waits u h = go (provider u.calls) refl (λ d.
    loop-Within provider left (suc waits) (record (counted u) { slept = u.slept + d })
      (omega (arith, h)))
  where
    go :
        (a : ProviderAnswer)
        → provider u.calls ≡ a
        → ((d : ℕ)
            → Within left
                (record (counted u) { slept = u.slept + d })
                (call_from provider
                  (suc left)
                  (suc waits)
                  (record (counted u) { slept = u.slept + d })))
        → Within (suc left) u (call_from provider (suc (suc left)) waits u)
    go (replies content tokens) e rest = rw (e, call_from) (refl, omega arith, omega arith)
    go malformed_json e rest = rw (e, call_from) (refl, omega arith, omega arith)
    go (provider_fails message) e rest = rw (e, call_from) (refl, omega arith, omega arith)
    go (rate_limited after) e rest = elim (Bool-cases (gives_up waits after)) [
      | inl g ↦ rw (e, g, call_from) (refl, omega arith, omega arith)
      | inr g ↦
          rw (e, g, call_from)
            (longer left (delay_of after) u
              (call_from provider (suc left) (suc waits)
                (record (counted u) { slept = u.slept + delay_of after }))
              (waits_within waits after g) (rest (delay_of after)))
    ]

not_exhausted : (r : CallResult) → is_exhausted r ≡ false → r ≢ out_of_fuel
unfolding is_exhausted
not_exhausted (content_is _) h e = absurd (cc e)
not_exhausted call_raises h e = absurd (cc e)
not_exhausted out_of_fuel h e = absurd (cc h)

-- The loop on the provider always ends, with a reply or an exception: it makes at most nine calls
-- and sleeps at most eight minutes in all, whatever waits the provider asks for.
pub call_bounded :
    (provider : ℕ → ProviderAnswer) (u : Usage)
    → ((call provider u).0 ≢ out_of_fuel)
      × ((call provider u).1.calls ≤ u.calls + suc max_rate_limit_waits)
      × ((call provider u).1.slept ≤ u.slept + max_rate_limit_waits * max_wait)
unfolding call
call_bounded provider u =
    let (ends, calls, slept) = loop-Within provider max_rate_limit_waits 0 u refl in
    (not_exhausted (call_from provider (suc max_rate_limit_waits) 0 u).0 ends, calls, slept)
