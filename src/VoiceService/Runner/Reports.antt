-- ===== src/VoiceService/Runner/Reports.antt =====
-- Every session that was admitted calls for its end event exactly once, and no other connection does:
-- `run` of voice-service/src/voice_service/session/runner.py.
use repo_viva.Base.{
  ℕ, String, ◌≡◌, ◌≢◌, ◌↔◌, refl, ◌∙◌, ap, Option, none, some, List, ◌∷◌, Result, ok, err,
}
use repo_viva.VoiceService.Store.{StoredQuestion}
use repo_viva.VoiceService.Runner.World.{
  ClientMessage, session_start, Frame, EndReason, Sent, ErrorCode, Exception, disconnected,
  time_limit, not_ready, other, Outcome, completes, interrupts, EndEvent, World, pure, await, ◌>>◌,
  safe_send, safe_close, receive,
}
use repo_viva.VoiceService.Runner.Keeps.{Keeps, Keeps-pure, Keeps-await, Keeps-bind, keeps_rules}
use repo_viva.VoiceService.Runner.Loop.{Services}
use repo_viva.VoiceService.Runner.Quiet.{
  EventsAre, timeless, send-Keeps, receive-Keeps, interview-Keeps,
}
use repo_viva.VoiceService.Runner.Session.{
  ConsumedSession, Refusal, rejected, unreachable, first_message, closing, on_consumed, on_start,
  on_first, admit, with_plan, read_plan, drive, farewell, conclude, run,
}

module _ (services : Services) (consume_token : String → Result Refusal ConsumedSession) where
  safe_send_keeps :
      (es : List EndEvent) (s : Sent) (w : World) → EventsAre es w → EventsAre es (safe_send s w)
  unfolding safe_send
  safe_send_keeps es s w h = (send-Keeps es s).at w h

  safe_close_keeps :
      (es : List EndEvent) (code : ℕ) (w : World)
      → EventsAre es w
      → EventsAre es (safe_close code w)
  unfolding safe_close
  safe_close_keeps es code w h = (send-Keeps es (Sent.closed code)).at w h

  closing-Keeps :
      (es : List EndEvent) (code : ℕ) → Keeps (EventsAre es) (closing services consume_token code)
  closing-Keeps es code = record { at = λ w h. safe_close_keeps es code w h }

  on_consumed-Keeps :
      (es : List EndEvent) (answer : Result Refusal ConsumedSession)
      → Keeps (EventsAre es) (on_consumed services consume_token answer)
  on_consumed-Keeps es (ok session) = search (keeps_rules)
  on_consumed-Keeps es (err rejected) = closing-Keeps es 1008
  on_consumed-Keeps es (err unreachable) = closing-Keeps es 1011

  on_start-Keeps :
      (es : List EndEvent) (m : Option ClientMessage)
      → Keeps (EventsAre es) (on_start services consume_token m)
  on_start-Keeps es (some (session_start token)) =
      search (keeps_rules, timeless, on_consumed-Keeps) depth 9
  on_start-Keeps es none = closing-Keeps es 1008
  on_start-Keeps es (some m) = closing-Keeps es 1008

  on_first-Keeps :
      (es : List EndEvent) (r : Result Exception Frame)
      → Keeps (EventsAre es) (on_first services consume_token r)
  on_first-Keeps es (ok raw) = on_start-Keeps es (first_message services consume_token raw)
  on_first-Keeps es (err time_limit) = closing-Keeps es 1008
  on_first-Keeps es (err disconnected) = search (keeps_rules)
  on_first-Keeps es (err e) = search (keeps_rules)

  admit-Keeps : (es : List EndEvent) → Keeps (EventsAre es) (admit services consume_token)
  unfolding admit
  admit-Keeps es = record {
    at = λ w h. (on_first-Keeps es (receive w).0).at (receive w).1 ((receive-Keeps es).at w h);
  }

  with_plan-Keeps :
      (es : List EndEvent) (session : ConsumedSession) (plan : Option (List StoredQuestion))
      → Keeps (EventsAre es) (with_plan services consume_token session plan)
  with_plan-Keeps es session none = search (keeps_rules)
  with_plan-Keeps es session (some plan) = search (keeps_rules, send-Keeps, interview-Keeps) depth 9

  read_plan-Keeps :
      (es : List EndEvent) (iid : ℕ) → Keeps (EventsAre es) (read_plan services consume_token iid)
  read_plan-Keeps es iid = record { at = λ w h. h }

  drive-Keeps :
      (es : List EndEvent) (session : ConsumedSession)
      → Keeps (EventsAre es) (drive services consume_token session)
  unfolding drive
  drive-Keeps es session = search (keeps_rules, timeless, read_plan-Keeps, with_plan-Keeps) depth 9

  -- The event of a session that ended so.
  abbrev end_event : ConsumedSession → Outcome → EndEvent
  end_event session outcome = record {
    interview_id = session.interview_id;
    repository_id = session.repository_id;
    outcome = outcome;
  }

  farewell-Keeps :
      (es : List EndEvent) (s : Sent) (code : ℕ)
      → Keeps (EventsAre es) (farewell services consume_token s code)
  farewell-Keeps es s code = record {
    at = λ w h. safe_close_keeps es code (safe_send s w) (safe_send_keeps es s w h);
  }

  called-Keeps : (es : List EndEvent) → Keeps (EventsAre es) (await (pure tt))
  called-Keeps es = Keeps-await (pure tt) (timeless es) (Keeps-pure tt)

  told-Keeps :
      (es : List EndEvent) (s : Sent) (code : ℕ)
      → Keeps (EventsAre es) (await (pure tt) >> farewell services consume_token s code)
  told-Keeps es s code =
      Keeps-bind (await (pure tt)) (λ _. farewell services consume_token s code) (called-Keeps es)
        (λ _. farewell-Keeps es s code)

  conclude_reports :
      (session : ConsumedSession) (r : Result Exception EndReason) (w : World)
      → (o : Outcome) × ((conclude services consume_token session r w).1.events
          ≡ end_event session o ∷ w.events)
        × ((o ≡ completes) ↔ ((reason : EndReason) × (r ≡ ok reason)))
  unfolding conclude
  conclude_reports session (err not_ready) w = (
    interrupts "plan not ready",
    (told-Keeps _ (Sent.error_message ErrorCode.plan_not_ready) 1008).at _ refl,
    ((λ e. cc), (λ e. absurd (cc e.1))),
  )
  conclude_reports session (err time_limit) w = (
    interrupts "session time limit reached",
    (told-Keeps _ (Sent.error_message ErrorCode.session_time_limit) 1008).at _ refl,
    ((λ e. cc), (λ e. absurd (cc e.1))),
  )
  conclude_reports session (err disconnected) w = (
    interrupts "client disconnected",
    (called-Keeps _).at _ refl,
    ((λ e. cc), (λ e. absurd (cc e.1))),
  )
  conclude_reports session (err (other message)) w = (
    interrupts message,
    (told-Keeps _ (Sent.error_message ErrorCode.internal_error) 1011).at _ refl,
    ((λ e. cc), (λ e. absurd (cc e.1))),
  )
  conclude_reports session (ok reason) w = (
    completes,
    (told-Keeps _ (Sent.session_ended reason) 1000).at _ refl,
    ((λ _. (reason, refl)), (λ _. refl)),
  )

  -- A connection that was admitted calls the publisher of `interview.ended` exactly once, for its
  -- interview and repository, however the calls on the way fail and however that call itself ends;
  -- the outcome that it hands over is `completed` exactly when the interview loop returned.
  pub admitted_reports_once :
      (w : World) (session : ConsumedSession)
      → (admit services consume_token w).0 ≡ ok (some session)
      → (o : Outcome) × ((run services consume_token w).1.events
          ≡ record {
            interview_id = session.interview_id;
            repository_id = session.repository_id;
            outcome = o;
          }
            ∷ w.events)
        × ((o ≡ completes) ↔ (
            (reason : EndReason) × ((drive services consume_token session
                (admit services consume_token w).1).0
              ≡ ok reason)))
  unfolding run
  admitted_reports_once w session e =
      let w' = (admit services consume_token w).1 in
      let driven = drive services consume_token session w' in
      let (o, one, when) = conclude_reports session driven.0 driven.1 in
      (
        o,
        rw (e, run)
            (one
              ∙ ap (λ (es : List EndEvent). end_event session o ∷ es)
                  ((drive-Keeps w.events session).at w' ((admit-Keeps w.events).at w refl))),
        when,
      )

  -- A connection that was not admitted does not call the publisher.
  pub unadmitted_silent :
      (w : World)
      → ((session : ConsumedSession) → (admit services consume_token w).0 ≢ ok (some session))
      → (run services consume_token w).1.events ≡ w.events
  unfolding run
  unadmitted_silent w never = go (admit services consume_token w).0 refl
    where
      quiet : (admit services consume_token w).1.events ≡ w.events
      quiet = (admit-Keeps w.events).at w refl

      go :
          (r : Result Exception (Option ConsumedSession))
          → (admit services consume_token w).0 ≡ r
          → (run services consume_token w).1.events ≡ w.events
      go (err x) e = rw (e, run) quiet
      go (ok none) e = rw (e, run) quiet
      go (ok (some session)) e = absurd (never session e)
