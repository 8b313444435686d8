-- ===== src/VoiceService/Runner/Session.antt =====
-- Admission and the exits of `run` in voice-service/src/voice_service/session/runner.py.
use repo_viva.Base.{ℕ, String, Option, none, some, List, ◌∷◌, Result, ok, err, length}
use repo_viva.VoiceService.Store.{StoredQuestion, load_plan}
use repo_viva.VoiceService.Runner.World.{
  ClientMessage, session_start, Frame, text_frame, EndReason, Sent, session_ready, session_ended,
  error_message, plan_not_ready, session_time_limit, internal_error, Exception, disconnected,
  time_limit, not_ready, other, Outcome, completes, interrupts, World, M, pure, raise, ◌>>=◌, ◌>>◌,
  await, send, safe_send, safe_close, receive,
}
use repo_viva.VoiceService.Runner.Loop.{Services, interview}

pub record ConsumedSession : Type 0 where
  pub interview_id : ℕ
  pub user_id : ℕ
  pub repository_id : ℕ

-- TokenRejectedError, and httpx.HTTPError.
pub data Refusal : Type 0 where
  rejected unreachable : Refusal

module _ (services : Services) (consume_token : String → Result Refusal ConsumedSession) where
  abbrev pub first_message : Frame → Option ClientMessage
  first_message (text_frame raw) = services.parse_client_message raw
  first_message _ = none

  abbrev pub closing : ℕ → M (Option ConsumedSession)
  closing code w = (ok none, safe_close code w)

  abbrev pub on_consumed : Result Refusal ConsumedSession → M (Option ConsumedSession)
  on_consumed (ok session) = pure (some session)
  on_consumed (err rejected) = closing 1008
  on_consumed (err unreachable) = closing 1011

  abbrev pub on_start : Option ClientMessage → M (Option ConsumedSession)
  on_start (some (session_start token)) = do
    answer ← await (pure (consume_token token))
    on_consumed answer
  on_start _ = closing 1008

  abbrev pub on_first : Result Exception Frame → M (Option ConsumedSession)
  on_first (ok raw) = on_start (first_message raw)
  on_first (err time_limit) = closing 1008
  on_first (err disconnected) = pure none
  on_first (err e) = raise e

  -- `_admit`: none where the socket was closed instead.
  unfoldable pub admit : M (Option ConsumedSession)
  unfolding receive await
  admit w = let (raw, w') = receive w in on_first raw w'

  abbrev pub with_plan : ConsumedSession → Option (List StoredQuestion) → M EndReason
  with_plan session none = raise not_ready
  with_plan session (some plan) = do
    send (session_ready session.interview_id (length plan))
    interview services session.interview_id plan

  abbrev pub read_plan : ℕ → M (Option (List StoredQuestion))
  read_plan iid w = (ok (load_plan w.sessions iid), w)

  -- The `try` of `run`.
  unfoldable pub drive : ConsumedSession → M EndReason
  unfolding send
  drive session = do plan ← await (read_plan session.interview_id); with_plan session plan

  abbrev pub add_event : ConsumedSession → Outcome → World → World
  add_event session outcome w = record w {
    events =
        record {
          interview_id = session.interview_id;
          repository_id = session.repository_id;
          outcome = outcome;
        }
        ∷ w.events;
  }

  -- `_ended`: the call of the publisher is made, and may return or raise. Whether the event got to
  -- the bus does not show in what it returns.
  abbrev pub ended : ConsumedSession → Outcome → M (Unit {0})
  ended session outcome w = await (pure tt) (add_event session outcome w)

  abbrev pub farewell : Sent → ℕ → M (Unit {0})
  farewell s code w = (ok tt, safe_close code (safe_send s w))

  -- The `except` clauses of `run`, and what follows them. An exception of `_ended` escapes.
  unfoldable pub conclude : ConsumedSession → Result Exception EndReason → M (Unit {0})
  conclude session (err not_ready) =
      ended session (interrupts "plan not ready") >> farewell (error_message plan_not_ready) 1008
  conclude session (err time_limit) =
      ended session (interrupts "session time limit reached")
      >> farewell (error_message session_time_limit) 1008
  conclude session (err disconnected) = ended session (interrupts "client disconnected")
  conclude session (err (other message)) =
      ended session (interrupts message) >> farewell (error_message internal_error) 1011
  conclude session (ok reason) = ended session completes >> farewell (session_ended reason) 1000

  abbrev pub after_admission : Option ConsumedSession → M (Unit {0})
  after_admission none w = (ok tt, w)
  after_admission (some session) w = let (r, w') = drive session w in conclude session r w'

  -- `run`: an exception other than the two that `_admit` handles escapes from it.
  unfoldable pub run : M (Unit {0})
  unfolding admit drive conclude
  run w =
      let (admitted, w') = admit w in
      elim admitted [ err e ↦ (err e, w') | ok session ↦ after_admission session w' ]
