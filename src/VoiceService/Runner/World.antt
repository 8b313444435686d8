-- ===== src/VoiceService/Runner/World.antt =====
-- The world of one connection, and calls that may raise: voice-service's session/runner.py and
-- session/protocol.py.
use repo_viva.Base.{ℕ, String, Option, none, some, List, [], ◌∷◌, Result, ok, err}
use repo_viva.VoiceService.Store.{Sessions}

-- The protocol's messages from the client; `parse_client_message` is a parameter of the loop.
pub data ClientMessage : Type 0 where
  session_start : String → ClientMessage
  audio_end : ClientMessage
  answer_text : String → ClientMessage
  session_end : ClientMessage

-- What `ws.receive()` returns.
pub data Frame : Type 0 where
  text_frame : String → Frame
  binary_frame : List ℕ → Frame
  disconnect_frame : Frame

pub data EndReason : Type 0 where
  completed ended_by_client : EndReason

pub data ErrorCode : Type 0 where
  plan_not_ready session_time_limit internal_error answer_too_long bad_message no_speech : ErrorCode

-- What goes to the client: the JSON messages of protocol.py, audio, and the close.
pub data Sent : Type 0 where
  session_ready : (interview_id question_count : ℕ) → Sent
  question_text : (seq : ℕ) (text : String) → Sent
  question_audio : List ℕ → Sent
  question_audio_end : (seq : ℕ) → Sent
  transcript_final : (seq : ℕ) (text : String) → Sent
  turn_complete : (seq : ℕ) → Sent
  session_ended : EndReason → Sent
  error_message : ErrorCode → Sent
  closed : (code : ℕ) → Sent

-- The exceptions that `run` tells apart.
pub data Exception : Type 0 where
  disconnected : Exception
  time_limit : Exception
  not_ready : Exception
  other : String → Exception

pub data Fault : Type 0 where
  goes : Fault
  raises_before raises_after : Exception → Fault

pub data Outcome : Type 0 where
  completes : Outcome
  interrupts : String → Outcome

-- What a call of `interview_ended` hands over.
pub record EndEvent : Type 0 where
  pub interview_id : ℕ
  pub repository_id : ℕ
  pub outcome : Outcome

-- `clock` is in milliseconds; `sent`, `heard` (what went to transcription) and `events` (the calls of
-- the publisher) are newest first.
pub record World : Type 0 where
  pub sessions : Sessions
  pub inbox : List Frame
  pub script : List (ℕ × Fault)
  pub clock : ℕ
  pub sent : List Sent
  pub heard : List (List ℕ)
  pub events : List EndEvent

abbrev pub M : Type 0 → Type 0
M A = World → Result Exception A × World

abbrev pub pure : {A : Type 0} → A → M A
pure a w = (ok a, w)

abbrev pub raise : {A : Type 0} → Exception → M A
raise e w = (err e, w)

abbrev pub continue : {A B : Type 0} → Result Exception A → (A → M B) → M B
continue (ok a) f w = f a w
continue (err e) f w = (err e, w)

infixl 5 ◌>>=◌ ◌>>◌
abbrev pub ◌>>=◌ : {A B : Type 0} → M A → (A → M B) → M B
◌>>=◌ m f w = let (r, w') = m w in continue r f w'

abbrev pub ◌>>◌ : {B : Type 0} → M (Unit {0}) → M B → M B
m >> k = m >>= λ _. k

abbrev pub faulty : {A : Type 0} → Fault → M A → M A
faulty goes m w = m w
faulty (raises_before e) m w = (err e, w)
faulty (raises_after e) m w = let (r, w') = m w in (err e, w')

-- One `await`: the next line of the script decides; past its end every call goes through.
abbrev pub awaiting_with : {A : Type 0} → List (ℕ × Fault) → M A → M A
awaiting_with [] m w = m w
awaiting_with ((t, fault) ∷ rest) m w = faulty fault m (record w { script = rest; clock = t })

unfoldable pub await : {A : Type 0} → M A → M A
await m w = awaiting_with w.script m w

abbrev pub put_sent : Sent → M (Unit {0})
put_sent s w = (ok tt, record w { sent = s ∷ w.sent })

unfoldable pub send : Sent → M (Unit {0})
unfolding await
send s = await (put_sent s)

-- _safe_send and _safe_close: whatever is raised is dropped.
abbrev pub suppress : M (Unit {0}) → World → World
suppress m w = (m w).1

unfoldable pub safe_send : Sent → World → World
unfolding send
safe_send s w = suppress (send s) w

unfoldable pub safe_close : ℕ → World → World
unfolding send
safe_close code w = suppress (send (closed code)) w

-- `_receive`: with no frame to come, the wait lasts until the time limit of the session.
abbrev pub next_frame : M Frame
next_frame w = elim w.inbox [
  | [] ↦ (err time_limit, w)
  | f ∷ rest ↦ (ok f, record w { inbox = rest })
]

abbrev pub checked_frame : Frame → M Frame
checked_frame disconnect_frame w = (err disconnected, w)
checked_frame f w = (ok f, w)

unfoldable pub receive : M Frame
unfolding await
receive = await next_frame >>= checked_frame

unfoldable pub read_clock : M ℕ
read_clock w = (ok w.clock, w)

-- A store call: none is the RuntimeError of a question in another state.
abbrev pub stored_or_raise : Option Sessions → M (Unit {0})
stored_or_raise none w = (err (other "RuntimeError"), w)
stored_or_raise (some ds) w = (ok tt, record w { sessions = ds })

abbrev pub update_sessions : (ℕ → Sessions → Option Sessions) → M (Unit {0})
update_sessions f w = stored_or_raise (f w.clock w.sessions) w

unfoldable pub store : (ℕ → Sessions → Option Sessions) → M (Unit {0})
unfolding await
store f = await (update_sessions f)
