-- ===== src/Http2/Frame.antt =====
-- include/uproxy/http2.h, src/http2.cpp: frames and the class `H2FrameWriter`.
-- An enum class over an integer type is its number, since the reader casts any byte to one.
-- The bytes of a word are remainders of quotients; bits that do not meet are added, not or-ed.
use uproxy.Base.{
  ℕ, zero, suc, ◌+◌, ◌*◌, ◌/◌, ◌%◌, ◌^◌, min, Bool, List, [], ◌∷◌, ltb, ◌==◌, ◌&&◌, ◌||◌,
  if◌then◌else◌, length, take, drop, Result, ok, stuck, ◌>>=◌, fail_if, from_code, http2_protocol,
}
use uproxy.Buffer.{RingBuffer, append}

-- `H2FrameType`, the types that the connection tells apart.
abbrev pub data_frame : ℕ
data_frame = 0x0

abbrev pub headers_frame : ℕ
headers_frame = 0x1

abbrev pub rst_stream_frame : ℕ
rst_stream_frame = 0x3

abbrev pub settings_frame : ℕ
settings_frame = 0x4

abbrev pub ping_frame : ℕ
ping_frame = 0x6

abbrev pub goaway_frame : ℕ
goaway_frame = 0x7

abbrev pub window_update_frame : ℕ
window_update_frame = 0x8

-- `H2Flags::END_STREAM` and `H2Flags::ACK` are bit 0, `H2Flags::END_HEADERS` is bit 2.
abbrev pub end_stream_flag : ℕ
end_stream_flag = 0x1

abbrev pub end_headers_flag : ℕ
end_headers_flag = 0x4

abbrev pub ack_flag : ℕ
ack_flag = 0x1

-- `H2Error::STREAM_CLOSED`
abbrev pub stream_closed : ℕ
stream_closed = 0x5

pub record H2Frame : Type 0 where
  pub length : ℕ
  pub type : ℕ
  pub flags : ℕ
  pub stream_id : ℕ
  pub payload : List ℕ

abbrev pub new_frame : H2Frame
new_frame = record { length = 0; type = data_frame; flags = 0; stream_id = 0; payload = [] }

-- `byte(v, shift)`
abbrev pub byte : ℕ → ℕ → ℕ
byte v shift = v / 2 ^ shift % 256

abbrev pub u32_bytes : ℕ → List ℕ
u32_bytes v = byte v 24 ∷ byte v 16 ∷ byte v 8 ∷ byte v 0 ∷ []

-- The `header` array of `write_frame_header`.
abbrev pub header_bytes : ℕ → ℕ → ℕ → ℕ → List ℕ
header_bytes len type flags stream_id =
    byte len 16 ∷ byte len 8 ∷ byte len 0 ∷ type ∷ flags ∷ u32_bytes stream_id

-- `(stream_id & 0x80000000U) != 0U` is bit 31.
unfoldable pub write_frame_header : ℕ → ℕ → ℕ → ℕ → RingBuffer → Result RingBuffer
write_frame_header len type flags stream_id buf =
    fail_if (ltb 0x00ff_ffff len || stream_id / 2 ^ 31 % 2 == 1)
      (from_code http2_protocol "invalid frame header")
      (append (header_bytes len type flags stream_id) buf)

unfoldable pub append_u32 : ℕ → RingBuffer → Result RingBuffer
append_u32 v buf = append (u32_bytes v) buf

-- A setting is a 16-bit number and a 32-bit value.
unfoldable pub write_pairs : List (ℕ × ℕ) → RingBuffer → Result RingBuffer
write_pairs [] buf = ok buf
write_pairs ((setting, value) ∷ settings) buf = do
  buf' ← append (byte setting 8 ∷ byte setting 0 ∷ u32_bytes value) buf
  write_pairs settings buf'

unfoldable pub write_settings : List (ℕ × ℕ) → RingBuffer → Result RingBuffer
write_settings settings buf = do
  buf' ← write_frame_header (length settings * 6 % 2 ^ 32) settings_frame 0 0 buf
  write_pairs settings buf'

unfoldable pub write_settings_ack : RingBuffer → Result RingBuffer
write_settings_ack buf = write_frame_header 0 settings_frame ack_flag 0 buf

-- The payload has the most significant byte first.
abbrev pub u64_bytes : ℕ → List ℕ
u64_bytes v =
    byte v 56 ∷ byte v 48 ∷ byte v 40 ∷ byte v 32 ∷ byte v 24 ∷ byte v 16 ∷ byte v 8 ∷ byte v 0 ∷ []

unfoldable pub write_ping : ℕ → Bool → RingBuffer → Result RingBuffer
write_ping opaque ack buf = do
  buf' ← write_frame_header 8 ping_frame (if ack then ack_flag else 0) 0 buf
  append (u64_bytes opaque) buf'

unfoldable pub write_window_update : ℕ → ℕ → RingBuffer → Result RingBuffer
write_window_update stream_id increment buf =
    fail_if (increment == 0 || ltb 0x7fff_ffff increment)
      (from_code http2_protocol "invalid window increment")
      (do
        buf' ← write_frame_header 4 window_update_frame 0 stream_id buf
        append_u32 increment buf')

-- `last_stream_id & 0x7fffffffU` is the remainder by 2 ^ 31.
unfoldable pub write_goaway : ℕ → ℕ → List ℕ → RingBuffer → Result RingBuffer
write_goaway last_stream_id error debug_data buf = do
  buf₁ ← write_frame_header ((8 + length debug_data) % 2 ^ 32) goaway_frame 0 0 buf
  buf₂ ← append_u32 (last_stream_id % 2 ^ 31) buf₁
  buf₃ ← append_u32 error buf₂
  append debug_data buf₃

unfoldable pub write_rst_stream : ℕ → ℕ → RingBuffer → Result RingBuffer
write_rst_stream stream_id error buf =
    fail_if (stream_id == 0) (from_code http2_protocol "RST_STREAM on stream 0")
      (do buf' ← write_frame_header 4 rst_stream_frame 0 stream_id buf; append_u32 error buf')

unfoldable pub write_headers : ℕ → List ℕ → Bool → ℕ → RingBuffer → Result RingBuffer
write_headers stream_id header_block end_stream max_frame_size buf =
    fail_if (stream_id == 0 || ltb max_frame_size (length header_block))
      (from_code http2_protocol "invalid HEADERS frame")
      (do
        buf' ←
            write_frame_header (length header_block % 2 ^ 32) headers_frame
              (end_headers_flag + (if end_stream then end_stream_flag else 0)) stream_id buf
        append header_block buf')

-- The `while` loop of `write_data`, on fuel; `bytes` is the data from `offset` on.
unfoldable pub write_chunks : ℕ → ℕ → List ℕ → Bool → ℕ → RingBuffer → Result RingBuffer
write_chunks fuel stream_id [] end_stream max_frame_size buf = ok buf
write_chunks zero stream_id (b ∷ bs) end_stream max_frame_size buf = stuck
write_chunks (suc fuel) stream_id (b ∷ bs) end_stream max_frame_size buf =
    let bytes : List ℕ = b ∷ bs in
    let chunk = min max_frame_size (length bytes) in
    let final_chunk = end_stream && chunk == length bytes in
    do
      buf₁ ←
          write_frame_header (chunk % 2 ^ 32) data_frame
            (if final_chunk then end_stream_flag else 0) stream_id buf
      buf₂ ← append (take chunk bytes) buf₁
      write_chunks fuel stream_id (drop chunk bytes) end_stream max_frame_size buf₂

-- Each round writes a byte at least.
unfoldable pub write_data : ℕ → List ℕ → Bool → ℕ → RingBuffer → Result RingBuffer
write_data stream_id bytes end_stream max_frame_size buf =
    fail_if (stream_id == 0 || max_frame_size == 0) (from_code http2_protocol "invalid DATA frame")
      (write_chunks (length bytes) stream_id bytes end_stream max_frame_size buf)
