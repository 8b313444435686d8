-- ===== src/Common/Http.antt =====
-- Requests between the services: what a client of httpx gets, and the guard of internal routes.
-- The network is an argument; the body of an answer is its bytes, or the value they stand for.
use repo_viva.Base.{ℕ, Option, none, some}

-- The status and body of an answer, or an httpx.HTTPError.
pub data Reply {ℓ} (A : Type ℓ) : Type ℓ where
  reply : ℕ → Option A → Reply A
  network_error : Reply A

-- The request or its answer gets lost, or both arrive; the route reads the clock that is given.
pub data Transport : Type 0 where
  lost_request : Transport
  lost_answer exchanged : ℕ → Transport

module _ {ℓ κ} {S : Type ℓ} {A : Type κ} where
  abbrev pub over : Transport → S → (ℕ → S × Reply A) → S × Reply A
  over lost_request s route = (s, network_error)
  over (lost_answer clock) s route = ((route clock).0, network_error)
  over (exchanged clock) s route = route clock

  -- A dependency that rejects a request answers in place of the handler.
  abbrev pub guard : Option ℕ → S → S × Reply A → S × Reply A
  guard (some status) s handled = (s, reply status none)
  guard none s handled = handled
