-- ===== src/Http2/Safe.antt =====
-- src/http2.cpp: the buffers of a connection stay valid, and its loops end.
use uproxy.Base.{
  ℕ, Bool, true, false, List, [], ◌==◌, Error, Result, ok, err, stuck, ◌>>=◌, fail_if, from_code,
  http2_protocol,
}
use uproxy.Buffer.{RingBuffer, append}
use uproxy.Buffer.Fifo.{IsValid}
use uproxy.Buffer.Append.{append_lem}
use uproxy.Http2.Frame.{
  write_frame_header, header_bytes, append_u32, u32_bytes, write_pairs, write_settings,
  write_settings_ack, write_ping, u64_bytes, write_rst_stream,
}

-- A write that gives a valid buffer or an error.
abbrev pub Good : Result RingBuffer → Type 0
Good (ok b) = IsValid b
Good (err e) = Unit {0}
Good stuck = ⊥

Good-bind :
    (r : Result RingBuffer) (f : RingBuffer → Result RingBuffer)
    → Good r
    → ((b : RingBuffer) → IsValid b → Good (f b))
    → Good (r >>= f)
Good-bind (ok b) f h next = next b h
Good-bind (err e) f h next = tt
Good-bind stuck f h next = elim h [ ]

Good-fail_if : (test : Bool) (e : Error) (r : Result RingBuffer) → Good r → Good (fail_if test e r)
Good-fail_if true e r h = tt
Good-fail_if false e r h = h

pub append-Good : (l : List ℕ) (b : RingBuffer) → IsValid b → Good (append l b)
append-Good l b v = let (b', e, v', q) = append_lem l b v in rw e v'

write_frame_header-Good :
    (len type flags id : ℕ) (b : RingBuffer)
    → IsValid b
    → Good (write_frame_header len type flags id b)
unfolding write_frame_header
write_frame_header-Good len type flags id b v =
    Good-fail_if _ (from_code http2_protocol "invalid frame header") _
      (append-Good (header_bytes len type flags id) b v)

pub write_settings_ack-Good : (b : RingBuffer) → IsValid b → Good (write_settings_ack b)
unfolding write_settings_ack
write_settings_ack-Good b v = write_frame_header-Good _ _ _ _ b v

pub write_settings-Good : (b : RingBuffer) → IsValid b → Good (write_settings [] b)
unfolding write_settings write_pairs
write_settings-Good b v =
    Good-bind (write_frame_header _ _ _ _ b) _ (write_frame_header-Good _ _ _ _ b v) (λ b' v'. v')

pub write_ping-Good :
    (opaque : ℕ) (ack : Bool) (b : RingBuffer) → IsValid b → Good (write_ping opaque ack b)
unfolding write_ping
write_ping-Good opaque ack b v =
    Good-bind (write_frame_header _ _ _ _ b) _ (write_frame_header-Good _ _ _ _ b v)
      (λ b' v'. append-Good (u64_bytes opaque) b' v')

pub write_rst_stream-Good :
    (id error : ℕ) (b : RingBuffer) → IsValid b → Good (write_rst_stream id error b)
unfolding write_rst_stream append_u32
write_rst_stream-Good id error b v =
    Good-fail_if (id == 0) (from_code http2_protocol "RST_STREAM on stream 0") _ (
      Good-bind (write_frame_header _ _ _ _ b) _ (write_frame_header-Good _ _ _ _ b v)
        (λ b' v'. append-Good (u32_bytes error) b' v'))
