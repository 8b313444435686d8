-- ===== src/Common/Messaging.antt =====
-- libs/repoviva-common/src/repoviva_common/messaging.py: the publishing of events with retries and
-- the loop of a worker on its queue. What the queue service and the handler answer are arguments;
-- the heartbeat runs beside the handler and touches neither its state nor the loop.
pub mod Retry
pub mod Acks
use repo_viva.Base.{
  ℕ, zero, suc, ◌+◌, String, Bool, true, false, Option, none, some, List, [], ◌∷◌, ◌++◌, Result, ok,
  err,
}
use repo_viva.Common.RequestId.{scope_id}

-- What `put_events` answers: the FailedEntryCount of its response, an error of boto3, or another
-- exception.
pub data PutEvents : Type 0 where
  put_response : ℕ → PutEvents
  boto_error other_exception : PutEvents

pub data PublishError : Type 0 where
  messaging_error uncaught : PublishError

unfoldable pub publish_event : PutEvents → Result PublishError (Unit {0})
publish_event (put_response zero) = ok tt
publish_event (put_response (suc _)) = err messaging_error
publish_event boto_error = err messaging_error
publish_event other_exception = err uncaught

-- PUBLISH_RETRY_DELAYS_SECONDS, in milliseconds.
abbrev pub publish_retry_delays : List ℕ
publish_retry_delays = 500 ∷ 2000 ∷ []

-- What the retries return, the calls they made, and how long they slept.
pub record Publishing : Type 0 where
  pub outcome : Result PublishError Bool
  pub calls : ℕ
  pub slept : ℕ

-- One attempt: after its sleep it succeeds, raises, or leaves the rest of the attempts.
abbrev pub after_attempt : ℕ → Result PublishError (Unit {0}) → Publishing → Publishing
after_attempt delay (ok _) rest = record { outcome = ok true; calls = 1; slept = delay }
after_attempt delay (err uncaught) rest = record {
  outcome = err uncaught;
  calls = 1;
  slept = delay;
}
after_attempt delay (err messaging_error) rest = record {
  outcome = rest.outcome;
  calls = suc rest.calls;
  slept = delay + rest.slept;
}

-- The attempts that are left; `answer n` is what the n-th call gets.
unfoldable pub try_publish : (ℕ → PutEvents) → ℕ → List ℕ → Publishing
unfolding publish_event
try_publish answer n [] = record { outcome = ok false; calls = 0; slept = 0 }
try_publish answer n (delay ∷ delays) =
    after_attempt delay (publish_event (answer n)) (try_publish answer (suc n) delays)

unfoldable pub publish_event_with_retry : (ℕ → PutEvents) → List ℕ → Publishing
unfolding try_publish
publish_event_with_retry answer retry_delays = try_publish answer 0 (0 ∷ retry_delays)

pub record Message : Type 0 where
  pub message_id : String
  pub type : String
  pub request_id : Option String
  pub data_json : String

-- A received message with what is still to come: a new request id, and how its deletion ends.
pub record Received : Type 0 where
  pub receipt : String
  pub body : String
  pub fresh_id : String
  pub delete_raises : Bool

-- What a worker did with a message: the handler ran and returned (true) or raised, or the message
-- was deleted.
pub data Act : Type 0 where
  handled : String → Bool → Act
  deleted : String → Act

-- How a call ends: it goes on, an exception leaves it, or the process dies in the handler.
pub data Ending : Type 0 where
  goes_on raised died : Ending

-- How a handler ends.
pub data HandlerEnd : Type 0 where
  returns raises dies : HandlerEnd

module _ {ℓ} {S : Type ℓ} (validate : String → Option Message)
    (handler : String → Message → S → S × HandlerEnd) where
  abbrev pub acknowledge : Received → Bool → S → S × List Act × Ending
  acknowledge raw true s = (s, handled raw.receipt true ∷ [], raised)
  acknowledge raw false s = (s, handled raw.receipt true ∷ deleted raw.receipt ∷ [], goes_on)

  abbrev pub after_handler : Received → S × HandlerEnd → S × List Act × Ending
  after_handler raw (s, dies) = (s, [], died)
  after_handler raw (s, raises) = (s, handled raw.receipt false ∷ [], goes_on)
  after_handler raw (s, returns) = acknowledge raw raw.delete_raises s

  abbrev pub run_handler : Received → Option Message → S → S × List Act × Ending
  run_handler raw none s = (s, [], goes_on)
  run_handler raw (some message) s =
      after_handler raw (handler (scope_id raw.fresh_id message.request_id) message s)

  unfoldable pub handle_one : Received → S → S × List Act × Ending
  handle_one raw s = run_handler raw (validate raw.body) s

  abbrev pub and_then : S × List Act × Ending → (S → S × List Act × Ending) → S × List Act × Ending
  and_then (s, acts, raised) rest = (s, acts, raised)
  and_then (s, acts, died) rest = (s, acts, died)
  and_then (s, acts, goes_on) rest = let (s', more, end) = rest s in (s', acts ++ more, end)

  unfoldable pub handle_all : List Received → S → S × List Act × Ending
  unfolding handle_one
  handle_all [] s = (s, [], goes_on)
  handle_all (raw ∷ raws) s = and_then (handle_one raw s) (handle_all raws)

  -- `_poll` until `stop` is set: each round receives messages, or none when receiving fails.
  unfoldable pub poll : List (Option (List Received)) → S → S × List Act × Ending
  unfolding handle_all
  poll [] s = (s, [], goes_on)
  poll (none ∷ rounds) s = poll rounds s
  poll (some raws ∷ rounds) s = and_then (handle_all raws s) (poll rounds)
