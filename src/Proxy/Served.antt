-- ===== src/Proxy/Served.antt =====
-- src/proxy.cpp: the handlers of the two protocols keep the buffers of a client valid, and a client
-- that has something left to write watched for writing.
use uproxy.Base.{
  ℕ, ◌≡◌, ◌⊎◌, refl, true, List, [], ◌∷◌, Option, none, some, inl, inr, Bool-cases, Option-cases,
  length, ◌==◌, codes, Result, ok, err, stuck,
}
use uproxy.Base.Holds.{Holds, Holds-ok, Holds-stuck, Holds-if, Holds-bind}
use uproxy.Base.Text.{is_empty}
use uproxy.Buffer.{readable, peek, commit_read}
use uproxy.Buffer.Fifo.{IsValid, contents, commit_read-IsValid}
use uproxy.Http1.Message.{HttpRequest, ParseResult, complete, incomplete, malformed}
use uproxy.Http1.Start.{parse_request}
use uproxy.Http2.Conn.{H2Conn, make_conn, feed, stream_headers, stream_body, pending_output}
use uproxy.Http2.Handle.{process}
use uproxy.Proxy.{ClientConn, Interest, read_write, Watched, Backend}
use uproxy.Proxy.Upstream.{Attempt}
use uproxy.Proxy.Serving.{queued_lem}
use uproxy.Proxy.Http1.{
  After, closes, returns, goes_on, Fetched, nobody, failed, fetched, unanswered, unsupported,
  unavailable, bad_gateway, answer_with, answer, handle_request, handle_http1, empty_request,
}
use uproxy.Hpack.Header.{HpackHeader}
use uproxy.Proxy.Http2.{
  respond, replied, stream_with, fed_with, handle_ready, handle_fed, answer_stream, answer_streams,
  feed_input, flush_output, handle_h2_client, reply_to, own_response, converted,
}

-- The buffers are valid, and the client is watched for writing if there is something to write.
abbrev pub IsServed : Interest → ClientConn → Type 0
IsServed interest conn =
    IsValid conn.rbuf × IsValid conn.wbuf × ((contents conn.wbuf ≡ []) ⊎ (interest ≡ read_write))

abbrev pub Keeps : After → Type 0
Keeps closes = Unit
Keeps (returns w) = IsServed w.interest w.conn
Keeps (goes_on w) = IsServed w.interest w.conn

abbrev pub Kept : After × Backend → Type 0
Kept x = Keeps x.0

answer_with-Kept :
    (req : HttpRequest) (f : Fetched) (conn : ClientConn)
    → IsValid conn.rbuf
    → IsValid conn.wbuf
    → Holds Kept (answer_with req conn f)
unfolding answer_with
answer_with-Kept req (nobody back) conn v vw =
    Holds-ok (v, (queued_lem unavailable conn.wbuf vw).0, inr refl)
answer_with-Kept req (failed i back) conn v vw =
    Holds-ok (v, (queued_lem bad_gateway conn.wbuf vw).0, inr refl)
answer_with-Kept req (fetched i bytes back) conn v vw =
    Holds-ok (v, (queued_lem bytes conn.wbuf vw).0, inr refl)
answer_with-Kept req unanswered conn v vw = Holds-stuck

handle_request-Kept :
    (req : HttpRequest) (attempts : ℕ → Attempt) (w : Watched) (back : Backend)
    → IsServed w.interest w.conn
    → Holds Kept (handle_request req attempts w back)
unfolding handle_request answer
handle_request-Kept req attempts w back v =
    let rest = commit_read-IsValid req.header_bytes w.conn.rbuf v.0 in
    Holds-if req.chunked (Holds-ok (rest, (queued_lem unsupported w.conn.wbuf v.1).0, inr refl)) (
      Holds-if _ (Holds-ok v) (
        answer_with-Kept req _
          (record w.conn {
            rbuf = commit_read req.content_length (commit_read req.header_bytes w.conn.rbuf);
          })
          (commit_read-IsValid req.content_length (commit_read req.header_bytes w.conn.rbuf) rest)
          v.1))

pub handle_http1-Kept :
    (attempts : ℕ → Attempt) (w : Watched) (back : Backend)
    → IsServed w.interest w.conn
    → Holds Kept (handle_http1 attempts w back)
unfolding handle_http1
handle_http1-Kept attempts w back v = go (parse_request w.conn.rbuf empty_request)
  where
    go :
        (x : ParseResult × HttpRequest)
        → Holds Kept (elim x.0 as (λ _. Result (After × Backend)) [
          | malformed ↦ ok (closes, back)
          | complete ↦ handle_request x.1 attempts w back
          | incomplete ↦ ok (goes_on w, back)
        ])
    go (malformed, req) = Holds-ok tt
    go (complete, req) = handle_request-Kept req attempts w back v
    go (incomplete, req) = Holds-ok v

-- The same for HTTP/2, where the interest stays until the end of the handler.
module _ (watching : Interest) where
  abbrev KeptStream : ClientConn × H2Conn × Backend → Type 0
  KeptStream x = IsServed watching x.0

  replied-Kept :
      (stream_id size : ℕ) (h2 : H2Conn) (conn : ClientConn) (back : Backend)
      (response : List HpackHeader × List ℕ)
      → IsServed watching conn
      → Holds KeptStream (replied stream_id size h2 conn back response)
  replied-Kept stream_id size h2 conn back response v =
      elim (Option-cases (reply_to stream_id size response h2)) [
        | inl missing ↦ rw (replied, missing) Holds-stuck
        | inr (h2', e) ↦ rw (replied, e) (Holds-ok v)
      ]

  respond-Kept :
      (stream_id size : ℕ) (conn : ClientConn) (h2 : H2Conn) (f : Fetched)
      → IsServed watching conn
      → Holds KeptStream (respond stream_id size conn h2 f)
  unfolding respond
  respond-Kept stream_id size conn h2 (nobody back) v =
      replied-Kept stream_id size h2 conn back (own_response (codes "503"), []) v
  respond-Kept stream_id size conn h2 (failed i back) v =
      replied-Kept stream_id size h2 (record conn { upstream = some i }) back
        (own_response (codes "502"), []) v
  respond-Kept stream_id size conn h2 (fetched i response back) v =
      replied-Kept stream_id size h2 (record conn { upstream = some i }) back (converted response) v
  respond-Kept stream_id size conn h2 unanswered v = Holds-stuck

  answer_stream-Kept :
      (attempts : ℕ → Attempt) (stream_id : ℕ) (s : ClientConn × H2Conn × Backend)
      → IsServed watching s.0
      → Holds KeptStream (answer_stream attempts stream_id s)
  unfolding answer_stream
  answer_stream-Kept attempts stream_id (conn, h2, back) v =
      go (stream_headers stream_id h2) (stream_body stream_id h2)
    where
      go :
          (headers : Option (List HpackHeader)) (body : Option (List ℕ))
          → Holds KeptStream (stream_with attempts stream_id conn h2 back headers body)
      go none body = Holds-stuck
      go (some headers) none = Holds-stuck
      go (some headers) (some body) = respond-Kept stream_id (length body) conn h2 _ v

  answer_streams-Kept :
      (attempts : ℕ → ℕ → Attempt) (ids : List ℕ) (s : ClientConn × H2Conn × Backend)
      → IsServed watching s.0
      → Holds KeptStream (answer_streams attempts ids s)
  unfolding answer_streams
  answer_streams-Kept attempts [] s v = Holds-ok v
  answer_streams-Kept attempts (id ∷ ids) s v =
      Holds-bind (answer_stream (attempts id) id s) (answer_stream-Kept (attempts id) id s v)
        (λ s' v'. answer_streams-Kept attempts ids s' v')

  flush_output-Keeps :
      (conn : ClientConn) (h2 : H2Conn)
      → IsServed watching conn
      → Keeps (flush_output watching conn h2)
  unfolding flush_output
  flush_output-Keeps conn h2 v = elim (Bool-cases h2.done) [
    | inl done ↦ rw done tt
    | inr going ↦ elim (Bool-cases (is_empty (pending_output h2))) [
      | inl nothing ↦ rw going (rw nothing v)
      | inr some_output ↦
          rw going
            (rw some_output (v.0, (queued_lem (pending_output h2) conn.wbuf v.1).0, inr refl))
    ]
  ]

  abbrev FedClient : Option (ClientConn × H2Conn) → Type 0
  FedClient none = Unit
  FedClient (some out) = IsServed watching out.0

  fed_with-FedClient :
      (bytes : List ℕ) (conn : ClientConn) (x : Result (Unit {0}) × H2Conn)
      → IsServed watching conn
      → FedClient (fed_with bytes conn x)
  unfolding fed_with
  fed_with-FedClient bytes conn (ok u, h2) v =
      (commit_read-IsValid (length bytes) conn.rbuf v.0, v.1, v.2)
  fed_with-FedClient bytes conn (err e, h2) v = tt
  fed_with-FedClient bytes conn (stuck, h2) v = tt

  feed_input-FedClient :
      (conn : ClientConn) (h2 : H2Conn) → IsServed watching conn → FedClient (feed_input conn h2)
  unfolding feed_input
  feed_input-FedClient conn h2 v = elim (Bool-cases (readable conn.rbuf == 0)) [
    | inl empty ↦ rw (feed_input, empty) v
    | inr full ↦
        let bytes = peek (readable conn.rbuf) conn.rbuf in
        rw (feed_input, full) (fed_with-FedClient bytes conn (feed bytes h2) v)
  ]

handle_fed-Kept :
    (attempts : ℕ → ℕ → Attempt) (interest : Interest) (back : Backend)
    (x : Option (ClientConn × H2Conn))
    → FedClient interest x
    → Holds Kept (handle_fed attempts interest back x)
unfolding handle_fed handle_ready
handle_fed-Kept attempts interest back none v = Holds-ok tt
handle_fed-Kept attempts interest back (some (conn, h2)) v = go (process h2)
  where
    go : (y : Result (List ℕ) × H2Conn) → Holds Kept (handle_ready attempts interest conn back y)
    go (err e, h2') = Holds-ok tt
    go (stuck, h2') = Holds-stuck
    go (ok ids, h2') =
        Holds-bind (answer_streams attempts ids (conn, h2', back))
          (answer_streams-Kept interest attempts ids (conn, h2', back) v)
          (λ s w. Holds-ok (flush_output-Keeps interest s.0 s.1 w))

pub handle_h2_client-Kept :
    (attempts : ℕ → ℕ → Attempt) (w : Watched) (back : Backend)
    → IsServed w.interest w.conn
    → Holds Kept (handle_h2_client attempts w back)
unfolding handle_h2_client
handle_h2_client-Kept attempts w back v =
    let h2 : H2Conn = elim w.conn.h2conn [ none ↦ make_conn true | some h ↦ h ] in
    handle_fed-Kept attempts w.interest back (feed_input w.conn h2)
      (feed_input-FedClient w.interest w.conn h2 v)
