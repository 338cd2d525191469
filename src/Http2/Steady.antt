-- ===== src/Http2/Steady.antt =====
-- src/http2.cpp: every handler of frames keeps the buffers of a connection valid, and ends.
use uproxy.Base.{
  ℕ, ◌+◌, ◌*◌, ◌%◌, ◌^◌, max, ◌≡◌, ◌≢◌, refl, Bool, true, not, ◌||◌, List, [], ◌∷◌, ◌++◌, length,
  if◌then◌else◌, ◌==◌, Result, ok, err, stuck,
}
use uproxy.Base.Int.{pos, ◌+ℤ◌}
use uproxy.Buffer.{RingBuffer, append}
use uproxy.Buffer.Fifo.{IsValid}
use uproxy.Hpack.Header.{HpackHeader}
use uproxy.Hpack.Table.{DynamicTable}
use uproxy.Hpack.Decode.{bit, decode}
use uproxy.Hpack.Total.{decode_ends}
use uproxy.Http2.Frame.{
  H2Frame, settings_frame, ping_frame, goaway_frame, headers_frame, data_frame, window_update_frame,
  stream_closed, write_rst_stream,
}
use uproxy.Http2.Reader.{byte_at}
use uproxy.Http2.Conn.{
  H2StreamState, idle, open_, half_closed_local, half_closed_remote, closed, H2Stream, H2Conn,
  h2_error, put_stream, get_or_create_stream,
}
use uproxy.Http2.Handle.{
  Handled, reply, handle_settings, handle_ping, big_endian, handle_headers, after_headers,
  takes_headers, take_data, after_data, handle_data, handle_window_update, handle_stream_frame,
  handle_frame, update,
}
use uproxy.Http2.Safe.{
  Good, append-Good, write_settings_ack-Good, write_ping-Good, write_rst_stream-Good,
}
use uproxy.Http2.Streams.{
  IsConn, Keeps, put_stream-AllValid, get_or_create_stream-valid, unchanged, reply-Keeps, if-Keeps,
  update-Keeps,
}

handle_settings-Keeps :
    (frame : H2Frame) (ready : List ℕ) (c : H2Conn)
    → IsConn c
    → Keeps c (handle_settings frame ready c)
unfolding handle_settings
handle_settings-Keeps frame ready c k =
    if-Keeps c (not (frame.stream_id == 0) || not (frame.length % 6 == 0)) _ _
      (unchanged c _ ready k (λ q. cc))
      (if-Keeps c (bit 0 frame.flags) _ _ (unchanged c _ ready k (λ q. cc))
        (reply-Keeps ready c _ k (write_settings_ack-Good c.send_buf k.send_valid)))

handle_ping-Keeps :
    (frame : H2Frame) (ready : List ℕ) (c : H2Conn) → IsConn c → Keeps c (handle_ping frame ready c)
unfolding handle_ping
handle_ping-Keeps frame ready c k =
    if-Keeps c (not (frame.stream_id == 0) || not (frame.length == 8)) _ _
      (unchanged c _ ready k (λ q. cc))
      (if-Keeps c (bit 0 frame.flags) _ _ (unchanged c _ ready k (λ q. cc)) (
        reply-Keeps ready c _ k
          (write_ping-Good (big_endian 0 frame.payload) true c.send_buf k.send_valid)))

handle_headers-Keeps :
    (frame : H2Frame) (s : H2Stream) (ready : List ℕ) (c : H2Conn)
    → IsConn c
    → IsValid s.recv_buf
    → Keeps c (handle_headers frame s ready c)
unfolding handle_headers
handle_headers-Keeps frame s ready c k v =
    if-Keeps c (not (takes_headers s.state)) _ _
      (reply-Keeps ready c _ k
        (write_rst_stream-Good frame.stream_id stream_closed c.send_buf k.send_valid))
      (if-Keeps c (bit 2 frame.flags) _ _
        (decoded (decode frame.payload c.hpack_dec s.request_headers).0
          (decode frame.payload c.hpack_dec s.request_headers).1
          (decode frame.payload c.hpack_dec s.request_headers).2
          (decode_ends frame.payload c.hpack_dec s.request_headers))
        (unchanged c (h2_error "CONTINUATION unsupported in simple block") ready k (λ q. cc)))
  where
    end : Bool
    end = bit 0 frame.flags

    -- What the branch does with what was decoded.
    stored : Result (Unit {0}) → DynamicTable → List HpackHeader → Handled
    stored r dec headers = elim r [
      | ok u ↦ (
        ok tt,
        (if end then ready ++ frame.stream_id ∷ [] else ready),
        update (record s { request_headers = headers; state = after_headers end s.state })
            (record c { hpack_dec = dec }),
      )
      | err e ↦ (
        err e,
        ready,
        update (record s { request_headers = headers }) (record c { hpack_dec = dec }),
      )
      | stuck ↦ (stuck, ready, record c { hpack_dec = dec })
    ]

    decoded :
        (r : Result (Unit {0})) (dec : DynamicTable) (headers : List HpackHeader)
        → r ≢ stuck
        → Keeps c (stored r dec headers)
    decoded (ok u) dec headers e =
        update-Keeps c dec
          (record s { request_headers = headers; state = after_headers end s.state }) _ _ k v
          (λ q. cc)
    decoded (err x) dec headers e =
        update-Keeps c dec (record s { request_headers = headers }) _ _ k v (λ q. cc)
    decoded stuck dec headers e = absurd (e refl)

take_data-Keeps :
    (frame : H2Frame) (s : H2Stream) (ready : List ℕ) (c : H2Conn)
    → IsConn c
    → IsValid s.recv_buf
    → Keeps c (take_data frame s ready c)
unfolding take_data
take_data-Keeps frame s ready c k v =
    taken (append frame.payload s.recv_buf) (append-Good frame.payload s.recv_buf v) refl
  where
    taken :
        (r : Result RingBuffer)
        → Good r
        → append frame.payload s.recv_buf ≡ r
        → Keeps c (take_data frame s ready c)
    taken (ok b) g p =
        rw (take_data, p)
          (update-Keeps c c.hpack_dec
            (record s {
              recv_buf = b;
              state = if bit 0 frame.flags then after_data s.state else s.state;
            })
            _ _ k g (λ q. cc))
    taken (err e) g p = rw (take_data, p) (unchanged c (err e) ready k (λ q. cc))
    taken stuck g p = elim g [ ]

handle_data-Keeps :
    (frame : H2Frame) (s : H2Stream) (ready : List ℕ) (c : H2Conn)
    → IsConn c
    → IsValid s.recv_buf
    → Keeps c (handle_data frame s ready c)
unfolding handle_data
handle_data-Keeps frame s ready c k v = in_state s.state refl
  where
    refused : Keeps c (reply ready c (write_rst_stream frame.stream_id stream_closed c.send_buf))
    refused =
        reply-Keeps ready c _ k
          (write_rst_stream-Good frame.stream_id stream_closed c.send_buf k.send_valid)

    in_state : (st : H2StreamState) → s.state ≡ st → Keeps c (handle_data frame s ready c)
    in_state idle p = rw (handle_data, p) (unchanged c _ ready k (λ q. cc))
    in_state open_ p = rw (handle_data, p) (take_data-Keeps frame s ready c k v)
    in_state half_closed_local p = rw (handle_data, p) (take_data-Keeps frame s ready c k v)
    in_state half_closed_remote p = rw (handle_data, p) refused
    in_state closed p = rw (handle_data, p) refused

handle_window_update-Keeps :
    (frame : H2Frame) (s : H2Stream) (ready : List ℕ) (c : H2Conn)
    → IsConn c
    → IsValid s.recv_buf
    → Keeps c (handle_window_update frame s ready c)
unfolding handle_window_update
handle_window_update-Keeps frame s ready c k v =
    let p = frame.payload in
    let inc =
      (byte_at p 0 * 2 ^ 24 + byte_at p 1 * 2 ^ 16 + byte_at p 2 * 2 ^ 8 + byte_at p 3) % 2 ^ 31 in
    if-Keeps c (not (frame.length == 4) || not (length p == 4)) _ _
      (unchanged c _ ready k (λ q. cc))
      (if-Keeps c (inc == 0) _ _ (unchanged c _ ready k (λ q. cc)) (
        update-Keeps c c.hpack_dec (record s { send_window = s.send_window +ℤ pos inc }) (ok tt)
          ready k v (λ q. cc)))

handle_stream_frame-Keeps :
    (frame : H2Frame) (ready : List ℕ) (c : H2Conn)
    → IsConn c
    → Keeps c (handle_stream_frame frame ready c)
unfolding handle_stream_frame
handle_stream_frame-Keeps frame ready c k =
    if-Keeps c (frame.type == headers_frame) _ _ (handle_headers-Keeps frame s ready c' k' v) (
      if-Keeps c (frame.type == data_frame) _ _ (handle_data-Keeps frame s ready c' k' v) (
        if-Keeps c (frame.type == window_update_frame) _ _
          (handle_window_update-Keeps frame s ready c' k' v)
          (unchanged c' (ok tt) ready k' (λ q. cc))))
  where
    s : H2Stream
    s = get_or_create_stream frame.stream_id c.streams

    v : IsValid s.recv_buf
    v = get_or_create_stream-valid frame.stream_id c.streams k.streams_valid

    c' : H2Conn
    c' = record c {
      last_peer_stream = max c.last_peer_stream frame.stream_id;
      streams = put_stream frame.stream_id s c.streams;
    }

    k' : IsConn c'
    k' = record {
      recv_valid = k.recv_valid;
      send_valid = k.send_valid;
      streams_valid = put_stream-AllValid frame.stream_id s c.streams v k.streams_valid;
    }

pub handle_frame-Keeps :
    (frame : H2Frame) (ready : List ℕ) (c : H2Conn)
    → IsConn c
    → Keeps c (handle_frame frame ready c)
unfolding handle_frame
handle_frame-Keeps frame ready c k =
    if-Keeps c (frame.type == settings_frame) _ _ (handle_settings-Keeps frame ready c k) (
      if-Keeps c (frame.type == ping_frame) _ _ (handle_ping-Keeps frame ready c k) (
        if-Keeps c (frame.type == goaway_frame) _ _ gone (
          if-Keeps c (frame.stream_id == 0) _ _
            (unchanged c (h2_error "stream frame on stream 0") ready k (λ q. cc))
            (handle_stream_frame-Keeps frame ready c k))))
  where
    gone : Keeps c (ok tt, ready, record c { done = true })
    gone = record {
      ends = λ q. cc;
      conn = record {
        recv_valid = k.recv_valid;
        send_valid = k.send_valid;
        streams_valid = k.streams_valid;
      };
      same = refl;
    }
