-- ===== src/Http1.antt =====
-- include/uproxy/http1.h, src/http1.cpp: HTTP/1.1 messages, their parser and their serializer.
pub mod Message
pub mod Parse
pub mod Start
pub mod Serialize
pub mod Fields
pub mod Sound
pub mod Rounds
mod Tests
