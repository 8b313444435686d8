-- ===== src/VoiceService/Runner/Quiet.antt =====
-- The interview loop of voice-service/src/voice_service/session/runner.py publishes no event.
use repo_viva.Base.{ℕ, String, ◌≡◌, Bool, true, false, Option, none, some, List, [], ◌∷◌, arith}
use repo_viva.VoiceService.Store.{Sessions, StoredQuestion}
use repo_viva.VoiceService.Runner.World.{
  ClientMessage, session_start, Frame, text_frame, binary_frame, disconnect_frame, EndReason, Sent,
  EndEvent, World, pure, await, send, receive, store, put_sent, next_frame, checked_frame,
  read_clock, update_sessions,
}
use repo_viva.VoiceService.Runner.Keeps.{Keeps, IsTimeless, Keeps-await, Keeps-bind, keeps_rules}
use repo_viva.VoiceService.Runner.Loop.{
  Services, Reply, ends, answered, Round, again, replied, hear, timed, transcribe, on_transcript,
  on_message, on_audio, on_frame, round, after_round, first_or, answer_loop, await_answer,
  next_chunk, speak_chunks, speak, ask_question, show_transcript, save_timing, settle, one_question,
  interview,
}

-- The events that the connection has published so far.
abbrev pub EventsAre : List EndEvent → World → Type 0
EventsAre es w = w.events ≡ es

module _ (es : List EndEvent) where
  pub timeless : IsTimeless (EventsAre es)
  timeless = record { moved = λ w s t h. h }

  pub send-Keeps : (s : Sent) → Keeps (EventsAre es) (send s)
  unfolding send
  send-Keeps s = Keeps-await (put_sent s) timeless (record { at = λ w h. h })

  checked-Keeps : (f : Frame) → Keeps (EventsAre es) (checked_frame f)
  checked-Keeps disconnect_frame = record { at = λ w h. h }
  checked-Keeps (text_frame raw) = record { at = λ w h. h }
  checked-Keeps (binary_frame raw) = record { at = λ w h. h }

  next_frame-Keeps : Keeps (EventsAre es) next_frame
  next_frame-Keeps = record { at = λ w h. ground arith }

  pub receive-Keeps : Keeps (EventsAre es) receive
  unfolding receive
  receive-Keeps =
      Keeps-bind (await next_frame) checked_frame (Keeps-await next_frame timeless next_frame-Keeps)
        checked-Keeps

  update-Keeps : (f : ℕ → Sessions → Option Sessions) → Keeps (EventsAre es) (update_sessions f)
  update-Keeps f = record { at = λ w h. ground arith }

  store-Keeps : (f : ℕ → Sessions → Option Sessions) → Keeps (EventsAre es) (store f)
  unfolding store
  store-Keeps f = Keeps-await (update_sessions f) timeless (update-Keeps f)

  clock-Keeps : Keeps (EventsAre es) read_clock
  unfolding read_clock
  clock-Keeps = record { at = λ w h. h }

  module _ (services : Services) where
    hear-Keeps :
        (pcm : List ℕ) (question : String) → Keeps (EventsAre es) (hear services pcm question)
    hear-Keeps pcm question = record { at = λ w h. h }

    timed-Keeps : (t0 : ℕ) (text : String) → Keeps (EventsAre es) (timed services t0 text)
    timed-Keeps t0 text = record { at = λ w h. h }

    transcribe-Keeps :
        (pcm : List ℕ) (question : String) → Keeps (EventsAre es) (transcribe services pcm question)
    unfolding transcribe
    transcribe-Keeps pcm question =
        search (keeps_rules, timeless, clock-Keeps, hear-Keeps, timed-Keeps) depth 9

    on_transcript-Keeps : (h : String × ℕ) → Keeps (EventsAre es) (on_transcript services h)
    on_transcript-Keeps (text, ms) = search (keeps_rules, send-Keeps) depth 9

    on_audio-Keeps :
        (audio : List ℕ) (discarding : Bool) (raw : List ℕ)
        → Keeps (EventsAre es) (on_audio services audio discarding raw)
    on_audio-Keeps audio discarding raw = search (keeps_rules, send-Keeps) depth 9

    on_message-Keeps :
        (question : String) (audio : List ℕ) (discarding : Bool) (m : Option ClientMessage)
        → Keeps (EventsAre es) (on_message services question audio discarding m)
    on_message-Keeps question audio discarding none = search (keeps_rules, send-Keeps) depth 9
    on_message-Keeps question audio discarding (some (session_start token)) =
        search (keeps_rules, send-Keeps) depth 9
    on_message-Keeps question audio discarding (some ClientMessage.audio_end) =
        search (keeps_rules, transcribe-Keeps, on_transcript-Keeps) depth 9
    on_message-Keeps question audio discarding (some (ClientMessage.answer_text text)) =
        search (keeps_rules)
    on_message-Keeps question audio discarding (some ClientMessage.session_end) =
        search (keeps_rules)

    on_frame-Keeps :
        (question : String) (audio : List ℕ) (discarding : Bool) (f : Frame)
        → Keeps (EventsAre es) (on_frame services question audio discarding f)
    unfolding on_frame
    on_frame-Keeps question audio discarding (binary_frame raw) =
        on_audio-Keeps audio discarding raw
    on_frame-Keeps question audio discarding (text_frame raw) =
        on_message-Keeps question audio discarding (services.parse_client_message raw)
    on_frame-Keeps question audio discarding disconnect_frame = search (keeps_rules)

    round-Keeps :
        (question : String) (audio : List ℕ) (discarding : Bool)
        → Keeps (EventsAre es) (round services question audio discarding)
    unfolding round
    round-Keeps question audio discarding =
        Keeps-bind receive (on_frame services question audio discarding) receive-Keeps
          (on_frame-Keeps question audio discarding)

    answer_loop-Keeps :
        (fs : List Frame) (question : String) (audio : List ℕ) (discarding : Bool)
        → Keeps (EventsAre es) (answer_loop services fs question audio discarding)
    unfolding answer_loop
    answer_loop-Keeps [] question audio discarding = search (keeps_rules, round-Keeps) depth 9
    answer_loop-Keeps (f ∷ fs) question audio discarding =
        Keeps-bind (round services question audio discarding) _
          (round-Keeps question audio discarding)
          λ r. next r (λ a d. answer_loop-Keeps fs question a d)
      where
        next :
            (r : Round)
            → ((a : List ℕ) (d : Bool)
                → Keeps (EventsAre es) (answer_loop services fs question a d))
            → Keeps
                (EventsAre es)
                (after_round services (λ a d. answer_loop services fs question a d) r)
        next (again a d) k = k a d
        next (replied reply) k = search (keeps_rules)

    await_answer-Keeps : (question : String) → Keeps (EventsAre es) (await_answer services question)
    unfolding await_answer
    await_answer-Keeps question = record {
      at = λ w h. (answer_loop-Keeps w.inbox question [] false).at w h;
    }

    next_chunk-Keeps : (chunk : List ℕ) → Keeps (EventsAre es) (next_chunk services chunk)
    next_chunk-Keeps chunk = search (keeps_rules, timeless, clock-Keeps, send-Keeps) depth 12

    speak_chunks-Keeps :
        (chunks : List (List ℕ)) (first : Option ℕ)
        → Keeps (EventsAre es) (speak_chunks services chunks first)
    unfolding speak_chunks
    speak_chunks-Keeps [] first = search (keeps_rules, timeless) depth 9
    speak_chunks-Keeps (chunk ∷ chunks) first =
        Keeps-bind (next_chunk services chunk) _ (next_chunk-Keeps chunk)
          λ now. speak_chunks-Keeps chunks (some (first_or now first))

    speak-Keeps : (seq : ℕ) (question : String) → Keeps (EventsAre es) (speak services seq question)
    unfolding speak
    speak-Keeps seq question =
        search (keeps_rules, clock-Keeps, send-Keeps, speak_chunks-Keeps) depth 14

    ask_question-Keeps :
        (iid : ℕ) (q : StoredQuestion) → Keeps (EventsAre es) (ask_question services iid q)
    unfolding ask_question
    ask_question-Keeps iid q = search (keeps_rules, store-Keeps, send-Keeps, speak-Keeps) depth 14

    show_transcript-Keeps :
        (seq : ℕ) (text : String) (ms : Option ℕ)
        → Keeps (EventsAre es) (show_transcript services seq text ms)
    show_transcript-Keeps seq text none = search (keeps_rules)
    show_transcript-Keeps seq text (some ms) = send-Keeps _

    save_timing-Keeps :
        (iid seq : ℕ) (ms : Option ℕ) → Keeps (EventsAre es) (save_timing services iid seq ms)
    save_timing-Keeps iid seq none = search (keeps_rules)
    save_timing-Keeps iid seq (some ms) = store-Keeps _

    settle-Keeps :
        (iid seq : ℕ) (reply : Reply) → Keeps (EventsAre es) (settle services iid seq reply)
    unfolding settle
    settle-Keeps iid seq ends = search (keeps_rules)
    settle-Keeps iid seq (answered text ms) =
        search (keeps_rules, store-Keeps, send-Keeps, show_transcript-Keeps, save_timing-Keeps)
          depth 14

    one_question-Keeps :
        (iid : ℕ) (q : StoredQuestion) → Keeps (EventsAre es) (one_question services iid q)
    unfolding one_question
    one_question-Keeps iid q =
        search (keeps_rules, ask_question-Keeps, await_answer-Keeps, settle-Keeps) depth 14

    pub interview-Keeps :
        (iid : ℕ) (plan : List StoredQuestion) → Keeps (EventsAre es) (interview services iid plan)
    unfolding interview
    interview-Keeps iid [] = search (keeps_rules)
    interview-Keeps iid (q ∷ qs) =
        Keeps-bind (one_question services iid q) _ (one_question-Keeps iid q)
          λ on. next on (interview-Keeps iid qs)
      where
        next :
            (on : Bool)
            → Keeps (EventsAre es) (interview services iid qs)
            → Keeps (EventsAre es) (elim on [
              | true ↦ interview services iid qs
              | false ↦ pure EndReason.ended_by_client
            ])
        next true k = k
        next false k = search (keeps_rules)
