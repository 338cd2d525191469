-- ===== src/Http2/Messages.antt =====
-- src/http2.cpp: the messages of `H2FrameWriter` that are one frame each, and their round trip
-- through `H2FrameReader`.
use uproxy.Base.{
  ℕ, suc, ◌+◌, ◌*◌, ◌%◌, ◌^◌, ◌≤◌, ◌<◌, ◌≡◌, ◌≢◌, refl, Bool, false, List, [], ◌∷◌, ◌++◌, arith,
  length, if◌then◌else◌, ltb, ◌==◌, ◌||◌, Result,
}
use uproxy.Buffer.{RingBuffer}
use uproxy.Buffer.Fifo.{IsValid}
use uproxy.Buffer.Append.{Appended, append_lem, Appended-bind, Appended-nil}
use uproxy.Http2.Frame.{
  H2Frame, byte, u32_bytes, u64_bytes, settings_frame, ping_frame, window_update_frame,
  goaway_frame, rst_stream_frame, headers_frame, ack_flag, end_headers_flag, end_stream_flag,
  append_u32, write_pairs, write_settings, write_settings_ack, write_ping, write_window_update,
  write_goaway, write_rst_stream, write_headers,
}
use uproxy.Http2.Wire.{wire, write_frame_header_lem, header_then_lem}

-- A call of the writer.
pub data Message : Type 0 where
  settings : List (ℕ × ℕ) → Message
  settings_ack : Message
  ping : ℕ → Bool → Message
  window_update : ℕ → ℕ → Message
  goaway : ℕ → ℕ → List ℕ → Message
  rst_stream : ℕ → ℕ → Message
  headers : ℕ → List ℕ → Bool → Message

abbrev pub write : ℕ → Message → RingBuffer → Result RingBuffer
write max_size (settings pairs) b = write_settings pairs b
write max_size settings_ack b = write_settings_ack b
write max_size (ping opaque ack) b = write_ping opaque ack b
write max_size (window_update id inc) b = write_window_update id inc b
write max_size (goaway last error debug) b = write_goaway last error debug b
write max_size (rst_stream id error) b = write_rst_stream id error b
write max_size (headers id block end) b = write_headers id block end max_size b

abbrev pub pair_bytes : List (ℕ × ℕ) → List ℕ
pair_bytes [] = []
pair_bytes ((setting, value) ∷ pairs) =
    (byte setting 8 ∷ byte setting 0 ∷ u32_bytes value) ++ pair_bytes pairs

abbrev plain : ℕ → ℕ → ℕ → List ℕ → H2Frame
plain type flags id payload = record {
  length = length payload;
  type = type;
  flags = flags;
  stream_id = id;
  payload = payload;
}

-- The frame that HTTP/2 has for a message.
abbrev pub frame_of : Message → H2Frame
frame_of (settings pairs) = plain settings_frame 0 0 (pair_bytes pairs)
frame_of settings_ack = plain settings_frame ack_flag 0 []
frame_of (ping opaque ack) = plain ping_frame (if ack then ack_flag else 0) 0 (u64_bytes opaque)
frame_of (window_update id inc) = plain window_update_frame 0 id (u32_bytes inc)
frame_of (goaway last error debug) =
    plain goaway_frame 0 0 (u32_bytes (last % 2 ^ 31) ++ (u32_bytes error ++ debug))
frame_of (rst_stream id error) = plain rst_stream_frame 0 id (u32_bytes error)
frame_of (headers id block end) =
    plain headers_frame (end_headers_flag + (if end then end_stream_flag else 0)) id block

-- What the writer's checks ask, and that the payload's length has three bytes.
abbrev pub IsSendable : ℕ → Message → Type 0
IsSendable max_size (settings pairs) = length pairs * 6 < 2 ^ 24
IsSendable max_size settings_ack = Unit {0}
IsSendable max_size (ping opaque ack) = Unit {0}
IsSendable max_size (window_update id inc) = (id < 2 ^ 31) × (0 < inc) × (inc < 2 ^ 31)
IsSendable max_size (goaway last error debug) = 8 + length debug < 2 ^ 24
IsSendable max_size (rst_stream id error) = (id ≢ 0) × (id < 2 ^ 31)
IsSendable max_size (headers id block end) =
    (id ≢ 0) × (id < 2 ^ 31) × (length block ≤ max_size) × (length block < 2 ^ 24)

write_pairs_lem :
    (pairs : List (ℕ × ℕ)) (b : RingBuffer)
    → IsValid b
    → Appended b (pair_bytes pairs) (write_pairs pairs b)
unfolding write_pairs
write_pairs_lem [] b v = Appended-nil b v
write_pairs_lem ((s, x) ∷ pairs) b v =
    Appended-bind b (byte s 8 ∷ byte s 0 ∷ u32_bytes x) (pair_bytes pairs) _ (write_pairs pairs)
      (append_lem _ b v) (λ b' v'. write_pairs_lem pairs b' v')

length-pair_bytes : (pairs : List (ℕ × ℕ)) → length (pair_bytes pairs) ≡ length pairs * 6
length-pair_bytes [] = refl
length-pair_bytes ((s, x) ∷ pairs) = omega (arith, length-pair_bytes pairs)

append_u32_lem : (x : ℕ) (b : RingBuffer) → IsValid b → Appended b (u32_bytes x) (append_u32 x b)
unfolding append_u32
append_u32_lem x b v = append_lem (u32_bytes x) b v

-- The writer appends exactly the message's frame.
pub write_lem :
    (max_size : ℕ) (m : Message) (b : RingBuffer)
    → IsValid b
    → IsSendable max_size m
    → Appended b (wire (frame_of m)) (write max_size m b)
unfolding write_settings write_settings_ack write_ping write_window_update write_goaway
    write_rst_stream write_headers
write_lem max_size (settings pairs) b v s =
    let len = length-pair_bytes pairs in
    let e : length pairs * 6 % 2 ^ 32 ≡ length (pair_bytes pairs) = omega (arith, len) in
    rw e (
      header_then_lem (length (pair_bytes pairs)) settings_frame 0 0 (pair_bytes pairs) b
        (write_pairs pairs) v (omega (arith, len)) (omega arith) (write_pairs_lem pairs))
write_lem max_size settings_ack b v s =
    write_frame_header_lem 0 settings_frame ack_flag 0 b v (omega arith) (omega arith)
write_lem max_size (ping opaque ack) b v s =
    header_then_lem 8 ping_frame _ 0 (u64_bytes opaque) b _ v (omega arith) (omega arith)
      (append_lem (u64_bytes opaque))
write_lem max_size (window_update id inc) b v s =
    let e : (inc == 0 || ltb 0x7fff_ffff inc) ≡ false = ground arith in
    rw e (
      header_then_lem 4 window_update_frame 0 id (u32_bytes inc) b (append_u32 inc) v (omega arith)
        s.0 (append_u32_lem inc))
write_lem max_size (goaway last error debug) b v s =
    let e : (8 + length debug) % 2 ^ 32
        ≡ suc (suc (suc (suc (suc (suc (suc (suc (length debug)))))))) =
      omega arith in
    rw e (
      header_then_lem _ goaway_frame 0 0 (u32_bytes (last % 2 ^ 31) ++ (u32_bytes error ++ debug)) b
        _ v (omega arith) (omega arith)
        (λ b₁ v₁.
          Appended-bind b₁ (u32_bytes (last % 2 ^ 31)) (u32_bytes error ++ debug) _ _
            (append_u32_lem (last % 2 ^ 31) b₁ v₁)
            (λ b₂ v₂.
              Appended-bind b₂ (u32_bytes error) debug _ _ (append_u32_lem error b₂ v₂)
                (append_lem debug))))
write_lem max_size (rst_stream id error) b v s =
    let e : (id == 0) ≡ false = ground (arith, s.0) in
    rw e (
      header_then_lem 4 rst_stream_frame 0 id (u32_bytes error) b (append_u32 error) v (omega arith)
        s.1 (append_u32_lem error))
write_lem max_size (headers id block end) b v s =
    let e : (id == 0 || ltb max_size (length block)) ≡ false = ground (arith, s.0) in
    let len : length block % 2 ^ 32 ≡ length block = omega arith in
    rw (e, len)
      (header_then_lem (length block) headers_frame _ id block b _ v s.3 s.1 (append_lem block))
