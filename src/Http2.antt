-- ===== src/Http2.antt =====
-- include/uproxy/http2.h, src/http2.cpp: HTTP/2 framing (`Frame`: types and writer, `Reader`) and
-- the connection (`Conn`: its state and small operations, `Handle`: frames and `process`). The
-- other children prove their laws.
pub mod Frame
pub mod Reader
pub mod Wire
pub mod Messages
pub mod RoundTrip
pub mod Body
pub mod Conn
pub mod Handle
pub mod Safe
pub mod Streams
pub mod Steady
pub mod Process
mod Tests
