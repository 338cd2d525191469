-- ===== src/Http2/Wire.antt =====
-- src/http2.cpp: the bytes that `H2FrameWriter` appends, and how `H2FrameReader` reads them.
use uproxy.Base.{
  ℕ, ◌+◌, ◌*◌, ◌/◌, ◌%◌, ◌^◌, ◌≤◌, ◌<◌, ◌≡◌, sym, ap, ◌∙◌, false, List, ◌++◌, arith, length,
  length-append, take-length-append, drop-length-append, ltb, ◌==◌, ◌||◌, Result, ◌>>=◌,
}
use uproxy.Buffer.{RingBuffer, peek, commit_read}
use uproxy.Buffer.Fifo.{
  contents, IsValid, length-contents, peek-eq-take, contents-commit_read, commit_read-IsValid,
}
use uproxy.Buffer.Append.{Appended, append_lem, Appended-bind}
use uproxy.Http1.Message.{complete}
use uproxy.Http2.Frame.{H2Frame, byte, header_bytes, write_frame_header}
use uproxy.Http2.Reader.{read_frame}

-- The bytes of a frame.
abbrev pub wire : H2Frame → List ℕ
wire f = header_bytes f.length f.type f.flags f.stream_id ++ f.payload

-- A frame that fits its header and the reader's limit.
pub record IsFrame (max_frame_size : ℕ) (f : H2Frame) : Type 0 where
  pub length_eq : f.length ≡ length f.payload
  pub length_fits : f.length < 2 ^ 24
  pub length_le : f.length ≤ max_frame_size
  pub stream_fits : f.stream_id < 2 ^ 31

-- A valid header passes the check of `write_frame_header`.
pub write_frame_header_lem :
    (len type flags stream_id : ℕ) (b : RingBuffer)
    → IsValid b
    → len < 2 ^ 24
    → stream_id < 2 ^ 31
    → Appended b
        (header_bytes len type flags stream_id)
        (write_frame_header len type flags stream_id b)
unfolding write_frame_header
write_frame_header_lem len type flags stream_id b v h₁ h₂ =
    let e : (ltb 0x00ff_ffff len || stream_id / 2 ^ 31 % 2 == 1) ≡ false = ground arith in
    rw e (append_lem (header_bytes len type flags stream_id) b v)

-- A header and a payload make a frame.
pub header_then_lem :
    (len type flags stream_id : ℕ) (payload : List ℕ) (b : RingBuffer)
    (f : RingBuffer → Result RingBuffer)
    → IsValid b
    → len < 2 ^ 24
    → stream_id < 2 ^ 31
    → ((b' : RingBuffer) → IsValid b' → Appended b' payload (f b'))
    → Appended b
        (wire (record {
          length = len;
          type = type;
          flags = flags;
          stream_id = stream_id;
          payload = payload;
        }))
        (write_frame_header len type flags stream_id b >>= f)
header_then_lem len type flags stream_id payload b f v h₁ h₂ k =
    Appended-bind b (header_bytes len type flags stream_id) payload
      (write_frame_header len type flags stream_id b) f
      (write_frame_header_lem len type flags stream_id b v h₁ h₂) k

-- The reader finds a frame at the front of the buffer and leaves what follows it.
pub read_frame-wire :
    (max_frame_size : ℕ) (f f₀ : H2Frame) (rest : List ℕ) (b : RingBuffer)
    → IsValid b
    → IsFrame max_frame_size f
    → contents b ≡ wire f ++ rest
    → (b' : RingBuffer) × (read_frame b f₀ max_frame_size ≡ (complete, b', f))
      × IsValid b'
      × (contents b' ≡ rest)
unfolding read_frame
read_frame-wire max_frame_size f f₀ rest b v fits q = (
  commit_read f.length (commit_read 9 b),
  rw (head, len, sid, room₁, room₂, room₃, body),
  commit_read-IsValid f.length (commit_read 9 b) (commit_read-IsValid 9 b v),
  left,
)
  where
    head : peek 9 b ≡ header_bytes f.length f.type f.flags f.stream_id
    head = peek-eq-take 9 b v ∙ rw q

    rest₁ : contents (commit_read 9 b) ≡ f.payload ++ rest
    rest₁ = contents-commit_read 9 b v ∙ rw q

    size : b.size ≡ 9 + f.length + length rest
    size = sym (length-contents b v) ∙ ap length q ∙ omega (arith, length-append f.payload rest)

    left : contents (commit_read f.length (commit_read 9 b)) ≡ rest
    left =
        contents-commit_read f.length (commit_read 9 b) (commit_read-IsValid 9 b v)
        ∙ rw (rest₁, fits.length_eq) (drop-length-append f.payload rest)

    body : peek f.length (commit_read 9 b) ≡ f.payload
    body =
        peek-eq-take f.length (commit_read 9 b) (commit_read-IsValid 9 b v)
        ∙ rw (rest₁, fits.length_eq) (take-length-append f.payload rest)

    len : byte f.length 16 * 2 ^ 16 + byte f.length 8 * 2 ^ 8 + byte f.length 0 ≡ f.length
    len = omega arith

    sid :
        (byte f.stream_id 24 * 2 ^ 24
            + byte f.stream_id 16 * 2 ^ 16
            + byte f.stream_id 8 * 2 ^ 8
            + byte f.stream_id 0)
          % 2 ^ 31
        ≡ f.stream_id
    sid = omega arith

    room₁ : ltb b.size 9 ≡ false
    room₁ = ground (arith, size)

    room₂ : ltb max_frame_size f.length ≡ false
    room₂ = ground arith

    room₃ : ltb b.size (9 + f.length) ≡ false
    room₃ = ground (arith, size)
