-- ===== src/Http2/Handle.antt =====
-- src/http2.cpp: `H2Conn::handle_frame`, one function for each type of frame, and `process`.
-- A handler returns its result, the list `ready` and the connection.
use uproxy.Base.{
  ℕ, zero, suc, ◌+◌, ◌*◌, ◌%◌, ◌^◌, max, Bool, true, false, not, ◌&&◌, ◌||◌, List, [], ◌∷◌, ◌++◌,
  ltb, ◌==◌, if◌then◌else◌, length, bytes_eq, Result, ok, err, stuck,
}
use uproxy.Base.Int.{pos, ◌+ℤ◌}
use uproxy.Buffer.{RingBuffer, readable, peek, commit_read, append}
use uproxy.Hpack.Decode.{bit, decode}
use uproxy.Http1.Message.{complete, incomplete, malformed}
use uproxy.Http2.Frame.{
  H2Frame, new_frame, data_frame, headers_frame, settings_frame, ping_frame, goaway_frame,
  window_update_frame, stream_closed, write_settings, write_settings_ack, write_ping,
  write_rst_stream,
}
use uproxy.Http2.Reader.{read_frame, byte_at}
use uproxy.Http2.Conn.{
  H2StreamState, idle, open_, half_closed_local, half_closed_remote, closed, H2Stream, H2Conn,
  preface, h2_error, sent, get_or_create_stream, put_stream,
}

abbrev pub Handled : Type 0
Handled = Result (Unit {0}) × List ℕ × H2Conn

-- `return writer_.write_...(send_buf_, ...)`
abbrev pub reply : List ℕ → H2Conn → Result RingBuffer → Handled
reply ready c r = let (result, c') = sent c r in (result, ready, c')

unfoldable pub handle_settings : H2Frame → List ℕ → H2Conn → Handled
unfolding write_settings_ack
handle_settings frame ready c =
    if not (frame.stream_id == 0) || not (frame.length % 6 == 0)
    then (h2_error "bad SETTINGS", ready, c)
    else if bit 0 frame.flags
    then (ok tt, ready, c)
    else reply ready c (write_settings_ack c.send_buf)

-- `data = (data << 8U) | b`, over the payload
abbrev pub big_endian : ℕ → List ℕ → ℕ
big_endian acc [] = acc
big_endian acc (b ∷ bs) = big_endian (acc * 2 ^ 8 % 2 ^ 64 + b) bs

unfoldable pub handle_ping : H2Frame → List ℕ → H2Conn → Handled
unfolding write_ping
handle_ping frame ready c =
    if not (frame.stream_id == 0) || not (frame.length == 8)
    then (h2_error "bad PING", ready, c)
    else if bit 0 frame.flags
    then (ok tt, ready, c)
    else reply ready c (write_ping (big_endian 0 frame.payload) true c.send_buf)

-- A write through the reference `stream`.
abbrev pub update : H2Stream → H2Conn → H2Conn
update s c = record c { streams = put_stream s.id s c.streams }

-- The state after a HEADERS frame that is accepted.
abbrev pub after_headers : Bool → H2StreamState → H2StreamState
after_headers end idle = if end then half_closed_remote else open_
after_headers end open_ = if end then half_closed_remote else open_
after_headers end half_closed_local = if end then closed else half_closed_local
after_headers end half_closed_remote = half_closed_remote
after_headers end closed = closed

abbrev pub takes_headers : H2StreamState → Bool
takes_headers idle = true
takes_headers open_ = true
takes_headers half_closed_local = true
takes_headers half_closed_remote = false
takes_headers closed = false

-- The HEADERS branch. The decoder's table and the stream keep what was decoded before an error.
unfoldable pub handle_headers : H2Frame → H2Stream → List ℕ → H2Conn → Handled
unfolding write_rst_stream decode put_stream
handle_headers frame s ready c =
    let refused = reply ready c (write_rst_stream frame.stream_id stream_closed c.send_buf) in
    let (r, dec, headers) = decode frame.payload c.hpack_dec s.request_headers in
    let end = bit 0 frame.flags in
    let c' : H2Conn = record c { hpack_dec = dec } in
    let decoded : Handled = elim r [
      | ok u ↦ (
        ok tt,
        (if end then ready ++ frame.stream_id ∷ [] else ready),
        update (record s { request_headers = headers; state = after_headers end s.state }) c',
      )
      | err e ↦ (err e, ready, update (record s { request_headers = headers }) c')
      | stuck ↦ (stuck, ready, c')
    ] in
    if not (takes_headers s.state)
    then refused
    else if bit 2 frame.flags
    then decoded
    else (h2_error "CONTINUATION unsupported in simple block", ready, c)

-- The state after the last DATA frame.
abbrev pub after_data : H2StreamState → H2StreamState
after_data idle = idle
after_data open_ = half_closed_remote
after_data half_closed_local = closed
after_data half_closed_remote = half_closed_remote
after_data closed = closed

-- `stream.recv_buf.append(frame.payload)` and what follows it.
unfoldable pub take_data : H2Frame → H2Stream → List ℕ → H2Conn → Handled
unfolding put_stream
take_data frame s ready c = elim (append frame.payload s.recv_buf) [
  | ok buf ↦
      let end = bit 0 frame.flags in
      (
        ok tt,
        (if end then ready ++ frame.stream_id ∷ [] else ready),
        update (record s { recv_buf = buf; state = if end then after_data s.state else s.state }) c,
      )
  | err e ↦ (err e, ready, c)
  | stuck ↦ (stuck, ready, c)
]

unfoldable pub handle_data : H2Frame → H2Stream → List ℕ → H2Conn → Handled
unfolding write_rst_stream take_data
handle_data frame s ready c = elim s.state [
  | idle ↦ (h2_error "DATA on idle stream", ready, c)
  | half_closed_remote ↦ reply ready c (write_rst_stream frame.stream_id stream_closed c.send_buf)
  | closed ↦ reply ready c (write_rst_stream frame.stream_id stream_closed c.send_buf)
  | _ ↦ take_data frame s ready c
]

-- `stream.send_window` is an `int32_t`, whose overflow C++ leaves undefined: an integer here.
unfoldable pub handle_window_update : H2Frame → H2Stream → List ℕ → H2Conn → Handled
unfolding put_stream
handle_window_update frame s ready c =
    let p = frame.payload in
    let inc =
      (byte_at p 0 * 2 ^ 24 + byte_at p 1 * 2 ^ 16 + byte_at p 2 * 2 ^ 8 + byte_at p 3) % 2 ^ 31 in
    if not (frame.length == 4) || not (length p == 4)
    then (h2_error "bad WINDOW_UPDATE", ready, c)
    else if inc == 0
    then (h2_error "zero WINDOW_UPDATE", ready, c)
    else (ok tt, ready, update (record s { send_window = s.send_window +ℤ pos inc }) c)

-- The part of `handle_frame` for a frame on a stream; other types change nothing more.
unfoldable pub handle_stream_frame : H2Frame → List ℕ → H2Conn → Handled
unfolding get_or_create_stream put_stream handle_headers handle_data handle_window_update
handle_stream_frame frame ready c =
    let s = get_or_create_stream frame.stream_id c.streams in
    let c' : H2Conn = record c {
      last_peer_stream = max c.last_peer_stream frame.stream_id;
      streams = put_stream frame.stream_id s c.streams;
    } in
    if frame.type == headers_frame
    then handle_headers frame s ready c'
    else if frame.type == data_frame
    then handle_data frame s ready c'
    else if frame.type == window_update_frame
    then handle_window_update frame s ready c'
    else (ok tt, ready, c')

unfoldable pub handle_frame : H2Frame → List ℕ → H2Conn → Handled
unfolding handle_settings handle_ping handle_stream_frame
handle_frame frame ready c =
    if frame.type == settings_frame
    then handle_settings frame ready c
    else if frame.type == ping_frame
    then handle_ping frame ready c
    else if frame.type == goaway_frame
    then (ok tt, ready, record c { done = true })
    else if frame.stream_id == 0
    then (h2_error "stream frame on stream 0", ready, c)
    else handle_stream_frame frame ready c

-- The `for (;;)` loop of `process`, on fuel.
unfoldable pub process_frames : ℕ → List ℕ → H2Conn → Result (List ℕ) × H2Conn
unfolding read_frame handle_frame
process_frames zero ready c = (stuck, c)
process_frames (suc fuel) ready c =
    let (parsed, buf, frame) = read_frame c.recv_buf new_frame c.max_frame_size in
    elim parsed [
      | incomplete ↦ (ok ready, c)
      | malformed ↦ (h2_error "invalid HTTP/2 frame", record c { done = true })
      | complete ↦
          let (r, ready', c') = handle_frame frame ready (record c { recv_buf = buf }) in
          elim r [
            | ok u ↦ process_frames fuel ready' c'
            | err e ↦ (err e, c')
            | stuck ↦ (stuck, c')
          ]
    ]

-- A frame takes nine bytes at least, so one round more than there are bytes is enough.
unfoldable pub process_rest : H2Conn → Result (List ℕ) × H2Conn
unfolding process_frames
process_rest c = process_frames (suc (readable c.recv_buf)) [] c

-- The server waits for the preface, and answers it with its settings.
unfoldable pub process : H2Conn → Result (List ℕ) × H2Conn
unfolding process_rest write_settings
process c =
    let n = length preface in
    let (r, c') =
      sent (record c { recv_buf = commit_read n c.recv_buf; saw_preface = true })
        (write_settings [] c.send_buf) in
    let started : Result (List ℕ) × H2Conn = elim r [
      | ok u ↦ process_rest c'
      | err e ↦ (err e, c')
      | stuck ↦ (stuck, c')
    ] in
    if c.is_server && not c.saw_preface
    then if ltb (readable c.recv_buf) n
      then (ok [], c)
      else if bytes_eq (peek n c.recv_buf) preface
      then started
      else (h2_error "invalid HTTP/2 preface", record c { done = true })
    else process_rest c
