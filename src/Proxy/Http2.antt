-- ===== src/Proxy/Http2.antt =====
-- src/proxy.cpp: `handle_h2_client`, which carries requests of HTTP/2 to upstreams of HTTP/1.1.
use uproxy.Base.{
  ℕ, true, false, not, ◌&&◌, List, [], ◌∷◌, ◌++◌, map, Option, none, some, if◌then◌else◌, ◌==◌,
  length, drop, codes, bytes_eq, Result, ok, err, stuck, ◌>>=◌, get_or,
}
use uproxy.Base.Text.{to_lower, is_empty, any}
use uproxy.Buffer
use uproxy.Buffer.{RingBuffer, readable, peek, append, commit_read}
use uproxy.Hpack.Header.{HpackHeader}
use uproxy.Http1.Message.{HttpHeader, HttpRequest, complete, incomplete, malformed}
use uproxy.Http1.Serialize.{status_text}
use uproxy.Http1.Start.{parse_response}
use uproxy.Http2.Conn.{
  H2Conn, make_conn, feed, stream_headers, stream_body, consume_body, send_response, pending_output,
  consume_output,
}
use uproxy.Http2.Handle.{process}
use uproxy.Proxy.{ClientConn, Interest, read_write, Watched, Backend}
use uproxy.Proxy.Response.{empty_response}
use uproxy.Proxy.Upstream.{Attempt}
use uproxy.Proxy.Http1.{
  After, closes, returns, queued, Fetched, nobody, failed, fetched, unanswered, fetch,
  empty_request,
}

-- The loop over the headers of a stream. The last of several `:method`s counts.
unfoldable pub note_headers : List HpackHeader → HttpRequest → HttpRequest
note_headers [] req = req
note_headers (h ∷ hs) req =
    let authority = bytes_eq h.name (codes ":authority") in
    let plain = not (is_empty h.name) && not (get_or h.name 0 0 == b':') in
    note_headers hs (
      if bytes_eq h.name (codes ":method")
      then record req { method = h.value }
      else if bytes_eq h.name (codes ":path")
      then record req { target = h.value }
      else if not authority && plain
      then record req { headers = req.headers ++ record { name = h.name; value = h.value } ∷ [] }
      else req)

unfoldable pub request_of : List HpackHeader → List ℕ → HttpRequest
unfolding note_headers empty_request
request_of headers body = record (note_headers headers empty_request) {
  version = codes "HTTP/1.1";
  keep_alive = true;
  content_length = length body;
}

abbrev pub connection_headers : List (List ℕ)
connection_headers =
    codes "connection" ∷ codes "keep-alive" ∷ codes "transfer-encoding" ∷ codes "upgrade" ∷ []

-- The headers of the response, without those of the connection. The names keep their case.
unfoldable pub response_fields : List HttpHeader → List HpackHeader
response_fields [] = []
response_fields (h ∷ hs) =
    let rest = response_fields hs in
    if any (bytes_eq (map to_lower h.name)) connection_headers
    then rest
    else record { name = h.name; value = h.value; sensitive = false } ∷ rest

abbrev pub own_response : List ℕ → List HpackHeader
own_response status =
    record { name = codes ":status"; value = status; sensitive = false }
    ∷ record { name = codes "content-length"; value = codes "0"; sensitive = false }
    ∷ []

-- The headers and the body that a response of HTTP/1.1 becomes.
unfoldable pub converted : List ℕ → List HpackHeader × List ℕ
unfolding parse_response append response_fields
converted bytes =
    let resp_buf = queued bytes (Buffer.make (length bytes)) in
    let (status, resp) = parse_response resp_buf empty_response in
    elim status [
      | complete ↦ (
        record { name = codes ":status"; value = status_text resp.status; sensitive = false }
            ∷ response_fields resp.headers,
        drop resp.header_bytes bytes,
      )
      | incomplete ↦ (own_response (codes "502"), [])
      | malformed ↦ (own_response (codes "502"), [])
    ]

-- `(void)send_response(…)`, then `consume_body`. A stream that is not there, where `at` throws,
-- ends the model.
unfoldable pub reply_to : ℕ → ℕ → List HpackHeader × List ℕ → H2Conn → Option H2Conn
unfolding send_response consume_body
reply_to stream_id body_size (headers, body) h2 =
    consume_body stream_id body_size (send_response stream_id headers body true h2).1

abbrev pub replied :
    ℕ
    → ℕ
    → H2Conn
    → ClientConn
    → Backend
    → List HpackHeader × List ℕ
    → Result (ClientConn × H2Conn × Backend)
replied stream_id size h2 conn back response = elim (reply_to stream_id size response h2) [
  | none ↦ stuck
  | some h2' ↦ ok (conn, h2', back)
]

-- The response on a stream whose request had a body of that size.
unfoldable pub respond :
    ℕ → ℕ → ClientConn → H2Conn → Fetched → Result (ClientConn × H2Conn × Backend)
unfolding converted reply_to
respond stream_id size conn h2 (nobody back) =
    replied stream_id size h2 conn back (own_response (codes "503"), [])
respond stream_id size conn h2 (failed i back) =
    replied stream_id size h2 (record conn { upstream = some i }) back
      (own_response (codes "502"), [])
respond stream_id size conn h2 (fetched i response back) =
    replied stream_id size h2 (record conn { upstream = some i }) back (converted response)
respond stream_id size conn h2 unanswered = stuck

-- One round of the loop over the streams that are ready, where the stream has these headers and
-- this body.
unfoldable pub stream_with :
    (ℕ → Attempt)
    → ℕ
    → ClientConn
    → H2Conn
    → Backend
    → Option (List HpackHeader)
    → Option (List ℕ)
    → Result (ClientConn × H2Conn × Backend)
unfolding request_of fetch respond
stream_with attempts stream_id conn h2 back none body = stuck
stream_with attempts stream_id conn h2 back (some headers) none = stuck
stream_with attempts stream_id conn h2 back (some headers) (some body) =
    respond stream_id (length body) conn h2 (fetch (request_of headers body) body attempts back)

unfoldable pub answer_stream :
    (ℕ → Attempt) → ℕ → ClientConn × H2Conn × Backend → Result (ClientConn × H2Conn × Backend)
unfolding stream_headers stream_body stream_with
answer_stream attempts stream_id (conn, h2, back) =
    stream_with attempts stream_id conn h2 back (stream_headers stream_id h2)
      (stream_body stream_id h2)

-- The loop, where `attempts id` is what the system answers during the exchange for stream `id`.
unfoldable pub answer_streams :
    (ℕ → ℕ → Attempt)
    → List ℕ
    → ClientConn × H2Conn × Backend
    → Result (ClientConn × H2Conn × Backend)
unfolding answer_stream
answer_streams attempts [] s = ok s
answer_streams attempts (id ∷ ids) s =
    answer_stream (attempts id) id s >>= answer_streams attempts ids

-- What is fed leaves the read buffer.
unfoldable pub fed_with :
    List ℕ → ClientConn → Result (Unit {0}) × H2Conn → Option (ClientConn × H2Conn)
unfolding commit_read
fed_with bytes conn (ok u, h2) =
    some (record conn { rbuf = commit_read (length bytes) conn.rbuf }, h2)
fed_with bytes conn (err e, h2) = none
fed_with bytes conn (stuck, h2) = none

-- Feeding what the read buffer holds.
unfoldable pub feed_input : ClientConn → H2Conn → Option (ClientConn × H2Conn)
unfolding feed peek fed_with
feed_input conn h2 =
    let bytes = peek (readable conn.rbuf) conn.rbuf in
    let fed = fed_with bytes conn (feed bytes h2) in
    if readable conn.rbuf == 0 then some (conn, h2) else fed

-- The end of the handler: the output of the connection goes to the write buffer.
unfoldable pub flush_output : Interest → ClientConn → H2Conn → After
unfolding append consume_output pending_output
flush_output interest conn h2 =
    let output = pending_output h2 in
    let written : Watched = record {
      conn = record conn {
        wbuf = queued output conn.wbuf;
        h2conn = some (consume_output (length output) h2);
      };
      interest = read_write;
    } in
    let unchanged : Watched = record {
      conn = record conn { h2conn = some h2 };
      interest = interest;
    } in
    if h2.done then closes else returns (if is_empty output then unchanged else written)

-- The handler behind `process`.
unfoldable pub handle_ready :
    (ℕ → ℕ → Attempt)
    → Interest
    → ClientConn
    → Backend
    → Result (List ℕ) × H2Conn
    → Result (After × Backend)
unfolding answer_streams flush_output
handle_ready attempts interest conn back (err e, h2) = ok (closes, back)
handle_ready attempts interest conn back (stuck, h2) = stuck
handle_ready attempts interest conn back (ok ids, h2) =
    answer_streams attempts ids (conn, h2, back) >>= λ (conn', h2', back').
    ok (flush_output interest conn' h2', back')

-- The handler behind `feed`, which fails where it is given nothing.
unfoldable pub handle_fed :
    (ℕ → ℕ → Attempt) → Interest → Backend → Option (ClientConn × H2Conn) → Result (After × Backend)
unfolding process handle_ready
handle_fed attempts interest back none = ok (closes, back)
handle_fed attempts interest back (some (conn, h2)) =
    handle_ready attempts interest conn back (process h2)

unfoldable pub handle_h2_client : (ℕ → ℕ → Attempt) → Watched → Backend → Result (After × Backend)
unfolding make_conn feed_input handle_fed
handle_h2_client attempts w back =
    let h2 : H2Conn = elim w.conn.h2conn [ none ↦ make_conn true | some h ↦ h ] in
    handle_fed attempts w.interest back (feed_input w.conn h2)
