-- ===== src/VoiceService/Runner.antt =====
-- voice-service/src/voice_service/session/runner.py: one WebSocket connection, from admission to
-- its end event. What the connection meets is a script: at each `await` the clock reading and
-- whether the call goes through, or raises before or after its effect.
pub mod World
pub mod Keeps
pub mod Triples
pub mod Loop
pub mod Session
pub mod Quiet
pub mod Reports
pub mod Answers
