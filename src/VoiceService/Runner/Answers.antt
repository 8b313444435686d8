-- ===== src/VoiceService/Runner/Answers.antt =====
-- The answer loop of voice-service/src/voice_service/session/runner.py: what is buffered and what
-- goes to transcription stay within the limit of one answer.
use repo_viva.Base.{
  ℕ, ◌≤◌, ◌<◌, String, ◌≡◌, refl, Bool, true, false, Option, none, some, List, [], ◌∷◌, ◌++◌,
  Result, ok, err, if◌then◌else◌, arith, length, All, ltb, Bool-cases, inl, inr,
}
use repo_viva.VoiceService.Runner.World.{
  ClientMessage, session_start, Frame, text_frame, binary_frame, disconnect_frame, Sent, World,
  Exception, M, pure, ◌>>=◌, await, send, receive, put_sent, next_frame, checked_frame, read_clock,
  error_message, time_limit, answer_too_long, bad_message, no_speech,
}
use repo_viva.VoiceService.Runner.Keeps.{Keeps, IsTimeless, Keeps-await, Keeps-bind}
use repo_viva.VoiceService.Runner.Triples.{
  Triple, Post, Triple-pure, Triple-raise, Triple-bind, Triple-of_keeps,
}
use repo_viva.VoiceService.Runner.Loop.{
  Services, Reply, ends, answered, Round, again, replied, hear, transcribe, on_transcript,
  on_message, on_audio, on_frame, round, after_round, answer_loop, await_answer, max_bytes,
  is_empty, is_blank,
}

module _ (services : Services) where
  -- An answer that may be sent: not empty, and within the limit.
  abbrev IsSendable : List ℕ → Type 0
  IsSendable pcm = (0 < length pcm) × (length pcm ≤ max_bytes services)

  abbrev IsBounded : World → Type 0
  IsBounded w = All IsSendable w.heard

  timeless : IsTimeless IsBounded
  timeless = record { moved = λ w s t h. h }

  send-Keeps : (s : Sent) → Keeps IsBounded (send s)
  unfolding send
  send-Keeps s = Keeps-await (put_sent s) timeless (record { at = λ w h. h })

  -- What a round leaves buffered is within the limit too.
  abbrev Leaves : Round → World → Type 0
  Leaves (again audio discarding) w = (length audio ≤ max_bytes services) × IsBounded w
  Leaves (replied reply) w = IsBounded w

  abbrev Ensures : M Round → Type 0
  Ensures m = Triple IsBounded m Leaves IsBounded

  kept : {A : Type 0} (m : M A) → Keeps IsBounded m → Triple IsBounded m (λ _. IsBounded) IsBounded
  kept m k = Triple-of_keeps IsBounded (λ _. IsBounded) IsBounded m k (λ a w h. h) (λ w h. h)

  after :
      {A : Type 0} (m : M A) (f : A → M Round)
      → Keeps IsBounded m
      → ((a : A) → Ensures (f a))
      → Ensures (m >>= f)
  after m f k e = Triple-bind IsBounded (λ _. IsBounded) Leaves IsBounded m f (kept m k) e

  buffering :
      (audio : List ℕ) (discarding : Bool)
      → length audio ≤ max_bytes services
      → Ensures (pure (again audio discarding))
  buffering audio discarding Fits =
      Triple-pure IsBounded Leaves IsBounded (again audio discarding) (λ w h. (Fits, h))

  replying : (reply : Reply) → Ensures (pure (replied reply))
  replying reply = Triple-pure IsBounded Leaves IsBounded (replied reply) (λ w h. h)

  say_again :
      (s : Sent) (audio : List ℕ) (discarding : Bool)
      → length audio ≤ max_bytes services
      → Ensures (send s >>= λ _. pure (again audio discarding))
  say_again s audio discarding Fits =
      after (send s) _ (send-Keeps s) λ _. buffering audio discarding Fits

  if_ensures :
      (b : Bool) (m n : M Round)
      → (b ≡ true → Ensures m)
      → (b ≡ false → Ensures n)
      → Ensures (if b then m else n)
  if_ensures true m n km kn = km refl
  if_ensures false m n km kn = kn refl

  on_audio_ensures :
      (audio : List ℕ) (discarding : Bool) (raw : List ℕ)
      → length audio ≤ max_bytes services
      → Ensures (on_audio services audio discarding raw)
  on_audio_ensures audio discarding raw Fits =
      if_ensures discarding _ _ (λ _. buffering audio true Fits)
        λ _.
          if_ensures (ltb (max_bytes services) (length (audio ++ raw))) _ _
            (λ _. say_again (error_message answer_too_long) [] true (omega arith))
            (λ short. buffering (audio ++ raw) false (ground arith))

  nonempty : (pcm : List ℕ) → is_empty pcm ≡ false → 0 < length pcm
  nonempty [] h = absurd (cc h)
  nonempty (b ∷ pcm) h = omega arith

  hear-Keeps :
      (pcm : List ℕ) (question : String)
      → IsSendable pcm
      → Keeps IsBounded (hear services pcm question)
  hear-Keeps pcm question Fits = record { at = λ w h. (Fits, h) }

  transcribe-Keeps :
      (pcm : List ℕ) (question : String)
      → length pcm ≤ max_bytes services
      → Keeps IsBounded (transcribe services pcm question)
  unfolding transcribe
  transcribe-Keeps pcm question Fits = elim (Bool-cases (is_empty pcm)) [
    | inl e ↦ rw (e, transcribe) (record { at = λ w h. h })
    | inr e ↦
        rw (e, transcribe)
          (Keeps-bind read_clock _ (unfold read_clock in record { at = λ w h. h }) λ t0.
            Keeps-bind (await (hear services pcm question)) _
              (Keeps-await (hear services pcm question) timeless
                (hear-Keeps pcm question (nonempty pcm e, Fits)))
              λ text. record { at = λ w h. h })
  ]

  on_transcript_ensures : (h : String × ℕ) → Ensures (on_transcript services h)
  on_transcript_ensures (text, ms) =
      if_ensures (is_blank text) _ _
        (λ _. say_again (error_message no_speech) [] false (omega arith))
        (λ _. replying (answered text (some ms)))

  on_message_ensures :
      (question : String) (audio : List ℕ) (discarding : Bool) (m : Option ClientMessage)
      → length audio ≤ max_bytes services
      → Ensures (on_message services question audio discarding m)
  on_message_ensures question audio discarding none Fits =
      say_again (error_message bad_message) audio discarding Fits
  on_message_ensures question audio discarding (some (session_start token)) Fits =
      say_again (error_message bad_message) audio discarding Fits
  on_message_ensures question audio discarding (some ClientMessage.audio_end) Fits =
      if_ensures discarding _ _ (λ _. buffering audio false Fits)
        λ _.
          after (transcribe services audio question) _ (transcribe-Keeps audio question Fits)
            on_transcript_ensures
  on_message_ensures question audio discarding (some (ClientMessage.answer_text text)) Fits =
      replying (answered text none)
  on_message_ensures question audio discarding (some ClientMessage.session_end) Fits = replying ends

  on_frame_ensures :
      (question : String) (audio : List ℕ) (discarding : Bool) (f : Frame)
      → length audio ≤ max_bytes services
      → Ensures (on_frame services question audio discarding f)
  unfolding on_frame
  on_frame_ensures question audio discarding (binary_frame raw) Fits =
      on_audio_ensures audio discarding raw Fits
  on_frame_ensures question audio discarding (text_frame raw) Fits =
      on_message_ensures question audio discarding (services.parse_client_message raw) Fits
  on_frame_ensures question audio discarding disconnect_frame Fits = buffering audio discarding Fits

  checked-Keeps : (f : Frame) → Keeps IsBounded (checked_frame f)
  checked-Keeps disconnect_frame = record { at = λ w h. h }
  checked-Keeps (text_frame raw) = record { at = λ w h. h }
  checked-Keeps (binary_frame raw) = record { at = λ w h. h }

  receive-Keeps : Keeps IsBounded receive
  unfolding receive
  receive-Keeps =
      Keeps-bind (await next_frame) checked_frame
        (Keeps-await next_frame timeless (record { at = λ w h. ground arith })) checked-Keeps

  round_ensures :
      (question : String) (audio : List ℕ) (discarding : Bool)
      → length audio ≤ max_bytes services
      → Ensures (round services question audio discarding)
  unfolding round
  round_ensures question audio discarding Fits =
      after receive _ receive-Keeps λ f. on_frame_ensures question audio discarding f Fits

  loop_ensures :
      (fs : List Frame) (question : String) (audio : List ℕ) (discarding : Bool)
      → length audio ≤ max_bytes services
      → Triple IsBounded
          (answer_loop services fs question audio discarding)
          (λ _. IsBounded)
          IsBounded
  unfolding answer_loop
  loop_ensures [] question audio discarding Fits =
      Triple-bind IsBounded Leaves (λ _. IsBounded) IsBounded
        (round services question audio discarding) _ (round_ensures question audio discarding Fits)
        λ r. Triple-raise (Leaves r) (λ _. IsBounded) IsBounded time_limit (bounded r)
    where
      bounded : (r : Round) (w : World) → Leaves r w → IsBounded w
      bounded (again a d) w h = h.1
      bounded (replied reply) w h = h
  loop_ensures (f ∷ fs) question audio discarding Fits =
      Triple-bind IsBounded Leaves (λ _. IsBounded) IsBounded
        (round services question audio discarding) _ (round_ensures question audio discarding Fits)
        λ r. next r (λ a d h. loop_ensures fs question a d h)
    where
      next :
          (r : Round)
          → ((a : List ℕ) (d : Bool)
              → length a ≤ max_bytes services
              → Triple IsBounded (answer_loop services fs question a d) (λ _. IsBounded) IsBounded)
          → Triple
              (Leaves r)
              (after_round services (λ a d. answer_loop services fs question a d) r)
              (λ _. IsBounded)
              IsBounded
      next (again a d) k = record { at = λ w h. (k a d h.0).at w h.1 }
      next (replied reply) k = record { at = λ w h. h }

  -- Whatever frames come and whichever calls fail, all audio that the wait for an answer hands to
  -- transcription is nonempty and no longer than the limit of one answer.
  pub await_answer_bounded :
      (question : String) (w : World)
      → All (λ pcm. (0 < length pcm) × (length pcm ≤ max_bytes services)) w.heard
      → All
          (λ pcm. (0 < length pcm) × (length pcm ≤ max_bytes services))
          (await_answer services question w).1.heard
  unfolding await_answer
  await_answer_bounded question w h =
      go (await_answer services question w).0
        ((loop_ensures w.inbox question [] false (omega arith)).at w h)
    where
      go :
          (r : Result Exception Reply)
          → Post (λ _. IsBounded) IsBounded r (await_answer services question w).1
          → IsBounded (await_answer services question w).1
      go (ok reply) k = k
      go (err e) k = k
