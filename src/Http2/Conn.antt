-- ===== src/Http2/Conn.antt =====
-- include/uproxy/http2.h, src/http2.cpp: the class `H2Conn`. A method returns its result beside the
-- new connection. `std::unordered_map` is an association list, and `std::max` the native `max`.
-- A writer that fails has written nothing: its checks stand before its first byte.
use uproxy.Base.Text.{is_empty}
use uproxy.Base.{
  ℕ, Bool, true, false, ◌&&◌, List, [], ◌∷◌, ◌++◌, Option, none, some, ◌==◌, if◌then◌else◌, codes,
  Result, ok, err, stuck, String, from_code, http2_protocol,
}
use mathlib.Core.Option
use uproxy.Base.Int.{ℤ, pos}
use uproxy.Buffer.{RingBuffer, make, readable, peek, commit_read, append}
use uproxy.Hpack.Header.{HpackHeader}
use uproxy.Hpack.Table.{DynamicTable, fresh}
use uproxy.Hpack.Encode.{encode}
use uproxy.Http2.Frame.{write_window_update, write_goaway, write_headers, write_data}

pub data H2StreamState : Type 0 where
  idle open_ half_closed_local half_closed_remote closed : H2StreamState

-- The members that the code reads or writes.
pub record H2Stream : Type 0 where
  pub id : ℕ
  pub state : H2StreamState
  pub send_window : ℤ
  pub recv_buf : RingBuffer
  pub request_headers : List HpackHeader

pub record H2Conn : Type 0 where
  pub is_server : Bool
  pub hpack_enc : DynamicTable
  pub hpack_dec : DynamicTable
  pub streams : List (ℕ × H2Stream)
  pub last_peer_stream : ℕ
  pub max_frame_size : ℕ
  pub recv_buf : RingBuffer
  pub send_buf : RingBuffer
  pub done : Bool
  pub saw_preface : Bool

-- `H2_PREFACE`: "PRI * HTTP/2.0", two line ends, "SM", two line ends.
abbrev pub preface : List ℕ
preface = codes "PRI * HTTP/2.0" ++ (13 ∷ 10 ∷ 13 ∷ 10 ∷ codes "SM" ++ (13 ∷ 10 ∷ 13 ∷ 10 ∷ []))

abbrev pub h2_error {ℓ} : {A : Type ℓ} → String → Result A
h2_error msg = err (from_code http2_protocol msg)

-- The buffer after a write whose result is thrown away.
abbrev pub written : RingBuffer → Result RingBuffer → RingBuffer
written buf (ok buf') = buf'
written buf (err e) = buf
written buf stuck = buf

-- The result of a write to `send_buf_`.
abbrev pub sent : H2Conn → Result RingBuffer → Result (Unit {0}) × H2Conn
sent c (ok buf) = (ok tt, record c { send_buf = buf })
sent c (err e) = (err e, c)
sent c stuck = (stuck, c)

unfoldable pub make_conn : Bool → H2Conn
make_conn is_server = record {
  is_server = is_server;
  hpack_enc = fresh;
  hpack_dec = fresh;
  streams = [];
  last_peer_stream = 0;
  max_frame_size = 16384;
  recv_buf = make 65536;
  send_buf = if is_server then make 65536 else written (make 65536) (append preface (make 65536));
  done = false;
  saw_preface = false;
}

unfoldable pub feed : List ℕ → H2Conn → Result (Unit {0}) × H2Conn
feed bytes c = elim (append bytes c.recv_buf) [
  | ok buf ↦ (ok tt, record c { recv_buf = buf })
  | err e ↦ (err e, c)
  | stuck ↦ (stuck, c)
]

-- `streams_.at(stream_id)`; `none` is the exception `std::out_of_range`.
unfoldable pub find_stream : ℕ → List (ℕ × H2Stream) → Option H2Stream
find_stream id [] = none
find_stream id ((k, s) ∷ m) = if k == id then some s else find_stream id m

-- A write through the reference that `try_emplace` or `at` gave.
unfoldable pub put_stream : ℕ → H2Stream → List (ℕ × H2Stream) → List (ℕ × H2Stream)
put_stream id s [] = (id, s) ∷ []
put_stream id s ((k, old) ∷ m) = if k == id then (k, s) ∷ m else (k, old) ∷ put_stream id s m

abbrev pub new_stream : ℕ → H2Stream
new_stream id = record {
  id = id;
  state = idle;
  send_window = pos 65535;
  recv_buf = make 65536;
  request_headers = [];
}

-- `get_or_create_stream`: the stream that is there, or a new one, with its id set.
unfoldable pub get_or_create_stream : ℕ → List (ℕ × H2Stream) → H2Stream
unfolding find_stream
get_or_create_stream id m = elim (find_stream id m) [
  | none ↦ new_stream id
  | some s ↦ record s { id = id }
]

unfoldable pub stream_headers : ℕ → H2Conn → Option (List HpackHeader)
unfolding find_stream
stream_headers id c = Option.map (λ s. s.request_headers) (find_stream id c.streams)

unfoldable pub stream_body : ℕ → H2Conn → Option (List ℕ)
unfolding find_stream
stream_body id c =
    Option.map (λ s. peek (readable s.recv_buf) s.recv_buf) (find_stream id c.streams)

unfoldable pub consume_body : ℕ → ℕ → H2Conn → Option H2Conn
unfolding find_stream put_stream
consume_body id n c =
    Option.map
      (λ s. record c {
        streams = put_stream id (record s { recv_buf = commit_read n s.recv_buf }) c.streams;
      })
      (find_stream id c.streams)

-- `send_response` behind the encoding: the two writes to `send_buf_`.
unfoldable pub write_response : ℕ → List ℕ → List ℕ → Bool → H2Conn → Result (Unit {0}) × H2Conn
unfolding write_headers write_data
write_response stream_id block body end_stream c =
    let (r, c') =
      sent c
        (write_headers stream_id block (is_empty body && end_stream) c.max_frame_size c.send_buf) in
    elim r [
      | ok u ↦
          if is_empty body
          then (ok tt, c')
          else sent c' (write_data stream_id body end_stream c'.max_frame_size c'.send_buf)
      | err e ↦ (err e, c')
      | stuck ↦ (stuck, c')
    ]

-- An encoder that fails has changed its table all the same.
unfoldable pub send_response :
    ℕ → List HpackHeader → List ℕ → Bool → H2Conn → Result (Unit {0}) × H2Conn
unfolding encode write_response
send_response stream_id headers body end_stream c =
    let (r, enc) = encode headers c.hpack_enc (make 4096) in
    let c' : H2Conn = record c { hpack_enc = enc } in
    elim r [
      | ok encoded ↦ write_response stream_id (peek (readable encoded) encoded) body end_stream c'
      | err e ↦ (err e, c')
      | stuck ↦ (stuck, c')
    ]

unfoldable pub send_window_update : ℕ → ℕ → H2Conn → Result (Unit {0}) × H2Conn
unfolding write_window_update
send_window_update stream_id increment c =
    sent c (write_window_update stream_id increment c.send_buf)

unfoldable pub pending_output : H2Conn → List ℕ
pending_output c = peek (readable c.send_buf) c.send_buf

unfoldable pub consume_output : ℕ → H2Conn → H2Conn
consume_output n c = record c { send_buf = commit_read n c.send_buf }

unfoldable pub goaway : ℕ → List ℕ → H2Conn → Result (Unit {0}) × H2Conn
unfolding write_goaway
goaway error debug_data c =
    let c' : H2Conn = record c { done = true } in
    sent c' (write_goaway c.last_peer_stream error debug_data c.send_buf)
