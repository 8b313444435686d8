-- ===== src/VoiceService/Runner/Loop.antt =====
-- The questions of a live interview and their answers: `_interview`, `_speak`, `_await_answer` and
-- `_transcribe` of voice-service/src/voice_service/session/runner.py.
use repo_viva.Base.{
  ℕ, ◌-◌, ◌*◌, String, Bool, true, false, Option, none, some, List, [], ◌∷◌, ◌++◌, ok, ltb,
  if◌then◌else◌, length,
}
use repo_viva.VoiceService.Store.{StoredQuestion, mark_asked, add_timings, record_answer}
use repo_viva.VoiceService.Runner.World.{
  ClientMessage, session_start, audio_end, answer_text, session_end, Frame, text_frame,
  binary_frame, disconnect_frame, EndReason, completed, ended_by_client, question_text,
  question_audio, question_audio_end, transcript_final, turn_complete, error_message,
  answer_too_long, bad_message, no_speech, time_limit, M, pure, raise, ◌>>=◌, ◌>>◌, await, send,
  receive, read_clock, store,
}

-- BYTES_PER_SECOND of speech/stt.py: PCM16 at 16 kHz.
abbrev pub bytes_per_second : ℕ
bytes_per_second = 32000

-- What the runner is given: the message parser, speech to text, and text to speech, by the chunks
-- that it yields; each may also raise, by the script.
pub record Services : Type 0 where
  pub parse_client_message : String → Option ClientMessage
  pub transcribe : List ℕ → String → String
  pub synthesize : String → List (List ℕ)
  pub max_answer_seconds : ℕ

pub data Reply : Type 0 where
  answered : (text : String) (stt_ms : Option ℕ) → Reply
  ends : Reply

-- How one round of the waiting loop leaves it.
pub data Round : Type 0 where
  again : (audio : List ℕ) (discarding : Bool) → Round
  replied : Reply → Round

abbrev pub is_empty : {A : Type 0} → List A → Bool
is_empty [] = true
is_empty (x ∷ xs) = false

abbrev pub is_blank : String → Bool
is_blank String.[] = true
is_blank (String.◌∷◌ c s) = false

abbrev pub first_or : ℕ → Option ℕ → ℕ
first_or now none = now
first_or now (some t) = t

module _ (services : Services) where
  abbrev pub max_bytes : ℕ
  max_bytes = services.max_answer_seconds * bytes_per_second

  abbrev pub hear : List ℕ → String → M String
  hear pcm question w = (ok (services.transcribe pcm question), record w { heard = pcm ∷ w.heard })

  abbrev pub timed : ℕ → String → M (String × ℕ)
  timed t0 text w = (ok (text, w.clock - t0), w)

  -- `_transcribe`.
  unfoldable pub transcribe : List ℕ → String → M (String × ℕ)
  unfolding await read_clock
  transcribe pcm question =
      if is_empty pcm
      then pure ("", 0)
      else do t0 ← read_clock; text ← await (hear pcm question); timed t0 text

  abbrev pub on_transcript : String × ℕ → M Round
  on_transcript (transcript, stt_ms) =
      if is_blank transcript
      then (do send (error_message no_speech); pure (again [] false))
      else pure (replied (answered transcript (some stt_ms)))

  abbrev pub on_message : String → List ℕ → Bool → Option ClientMessage → M Round
  on_message question audio discarding none = do
    send (error_message bad_message)
    pure (again audio discarding)
  on_message question audio discarding (some (session_start token)) = do
    send (error_message bad_message)
    pure (again audio discarding)
  on_message question audio discarding (some audio_end) =
      if discarding
      then pure (again audio false)
      else (do heard ← transcribe audio question; on_transcript heard)
  on_message question audio discarding (some (answer_text text)) =
      pure (replied (answered text none))
  on_message question audio discarding (some session_end) = pure (replied ends)

  abbrev pub on_audio : List ℕ → Bool → List ℕ → M Round
  on_audio audio discarding raw =
      if discarding
      then pure (again audio true)
      else if ltb max_bytes (length (audio ++ raw))
      then (do send (error_message answer_too_long); pure (again [] true))
      else pure (again (audio ++ raw) false)

  -- The body of the `while True` for one frame.
  unfoldable pub on_frame : String → List ℕ → Bool → Frame → M Round
  unfolding transcribe send
  on_frame question audio discarding (binary_frame raw) = on_audio audio discarding raw
  on_frame question audio discarding (text_frame raw) =
      on_message question audio discarding (services.parse_client_message raw)
  on_frame question audio discarding disconnect_frame = pure (again audio discarding)

  unfoldable pub round : String → List ℕ → Bool → M Round
  unfolding receive on_frame
  round question audio discarding = receive >>= on_frame question audio discarding

  abbrev pub after_round : (List ℕ → Bool → M Reply) → Round → M Reply
  after_round loop (again audio discarding) = loop audio discarding
  after_round loop (replied reply) = pure reply

  -- One round for each frame to come, and one more, in which the wait ends by the time limit.
  unfoldable pub answer_loop : List Frame → String → List ℕ → Bool → M Reply
  answer_loop [] question audio discarding =
      round question audio discarding >>= λ _. raise time_limit
  answer_loop (f ∷ fs) question audio discarding =
      round question audio discarding >>= after_round (λ a d. answer_loop fs question a d)

  unfoldable pub await_answer : String → M Reply
  await_answer question w = answer_loop w.inbox question [] false w

  abbrev pub next_chunk : List ℕ → M ℕ
  next_chunk chunk = do await (pure tt); now ← read_clock; send (question_audio chunk); pure now

  -- Each chunk is awaited and sent; the last wait finds the stream at its end. The result is the
  -- clock at the first chunk.
  unfoldable pub speak_chunks : List (List ℕ) → Option ℕ → M (Option ℕ)
  speak_chunks [] first = do await (pure tt); pure first
  speak_chunks (chunk ∷ chunks) first = do
    now ← next_chunk chunk
    speak_chunks chunks (some (first_or now first))

  -- `_speak`.
  unfoldable pub speak : ℕ → String → M (List (String × ℕ))
  unfolding speak_chunks read_clock send
  speak seq question = do
    t0 ← read_clock
    first ← speak_chunks (services.synthesize question) none
    end ← read_clock
    send (question_audio_end seq)
    pure (("tts_first_byte_ms", first_or end first - t0) ∷ ("tts_ms", end - t0) ∷ [])

  -- Persist, then ask: the text first, then the spoken question.
  unfoldable pub ask_question : ℕ → StoredQuestion → M (Unit {0})
  unfolding store send speak
  ask_question iid q = do
    store (λ now ds. mark_asked ds now iid q.seq)
    send (question_text q.seq q.text)
    timings ← speak q.seq q.text
    store (λ now ds. some (add_timings ds now iid q.seq timings))

  abbrev pub show_transcript : ℕ → String → Option ℕ → M (Unit {0})
  show_transcript seq text none = pure tt
  show_transcript seq text (some stt_ms) = send (transcript_final seq text)

  abbrev pub save_timing : ℕ → ℕ → Option ℕ → M (Unit {0})
  save_timing iid seq none = pure tt
  save_timing iid seq (some stt_ms) =
      store (λ now ds. some (add_timings ds now iid seq (("stt_ms", stt_ms) ∷ [])))

  -- What is done with a reply; the result is whether the interview goes on.
  unfoldable pub settle : ℕ → ℕ → Reply → M Bool
  unfolding store send
  settle iid seq ends = pure false
  settle iid seq (answered text stt_ms) = do
    show_transcript seq text stt_ms
    store (λ now ds. record_answer ds now iid seq text)
    save_timing iid seq stt_ms
    send (turn_complete seq)
    pure true

  unfoldable pub one_question : ℕ → StoredQuestion → M Bool
  unfolding ask_question await_answer settle
  one_question iid q = do ask_question iid q; reply ← await_answer q.text; settle iid q.seq reply

  -- `_interview`.
  unfoldable pub interview : ℕ → List StoredQuestion → M EndReason
  interview iid [] = pure completed
  interview iid (q ∷ qs) = do
    goes_on ← one_question iid q
    elim goes_on [ true ↦ interview iid qs | false ↦ pure ended_by_client ]
