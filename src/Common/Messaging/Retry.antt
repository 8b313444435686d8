-- ===== src/Common/Messaging/Retry.antt =====
-- All outcomes of publish_event_with_retry: libs/repoviva-common/src/repoviva_common/messaging.py.
use repo_viva.Base.{ℕ, zero, suc, ◌+◌, ◌≤◌, ◌≡◌, Bool, true, false, List, [], ◌∷◌, Result, ok, err}
use repo_viva.Common.Messaging.{PutEvents, PublishError, messaging_error, uncaught, publish_event}

abbrev pub total : List ℕ → ℕ
total [] = 0
total (d ∷ ds) = d + total ds

-- The first `count` calls from the n-th on were not taken.
abbrev pub AllRefused : (ℕ → PutEvents) → ℕ → ℕ → Type 0
AllRefused answer n zero = Unit
AllRefused answer n (suc count) =
    (publish_event (answer n) ≡ err messaging_error) × AllRefused answer (suc n) count

-- The calls that were made led to this outcome.
abbrev pub Explains : (ℕ → PutEvents) → ℕ → ℕ → Result PublishError Bool → ℕ → Type 0
Explains answer n count (ok true) calls =
    (k : ℕ) × (calls ≡ suc k)
    × (suc k ≤ count)
    × AllRefused answer n k
    × (publish_event (answer (n + k)) ≡ ok tt)
Explains answer n count (ok false) calls = (calls ≡ count) × AllRefused answer n count
Explains answer n count (err messaging_error) calls = ⊥
Explains answer n count (err uncaught) calls =
    (k : ℕ) × (calls ≡ suc k)
    × (suc k ≤ count)
    × AllRefused answer n k
    × (publish_event (answer (n + k)) ≡ err uncaught)
