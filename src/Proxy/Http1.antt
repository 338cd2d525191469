-- ===== src/Proxy/Http1.antt =====
-- src/proxy.cpp: the part of `on_client_event` that answers a request of HTTP/1.1.
use uproxy.Base.{
  ℕ, suc, zero, ◌+◌, ◌-◌, ◌%◌, ◌^◌, true, false, List, [], ◌∷◌, ◌++◌, Option, none, some, get_elem?,
  ltb, if◌then◌else◌, codes, Result, ok, err, stuck,
}
use uproxy.Buffer.{RingBuffer, readable, peek, append, commit_read}
use uproxy.Balancer.{UpstreamEndpoint, WeightedRoundRobin, next}
use uproxy.Http1.Message.{HttpRequest, complete, incomplete, malformed}
use uproxy.Http1.Parse.{crlf}
use uproxy.Http1.Start.{parse_request}
use uproxy.Proxy.{ClientConn, read_write, Watched, Backend}
use uproxy.Proxy.Upstream.{Attempt, forward_http1}

-- The three answers of the proxy's own.
abbrev closing : List ℕ → List ℕ
closing status =
    codes "HTTP/1.1 "
    ++ (status
        ++ (crlf
            ++ (codes "Content-Length: 0"
                ++ (crlf ++ (codes "Connection: close" ++ (crlf ++ crlf))))))

abbrev pub unsupported : List ℕ
unsupported = closing (codes "501 Not Implemented")

abbrev pub unavailable : List ℕ
unavailable = closing (codes "503 Service Unavailable")

abbrev pub bad_gateway : List ℕ
bad_gateway = closing (codes "502 Bad Gateway")

-- `(void)wbuf.append(bytes)`: a failure leaves the buffer as it was.
abbrev pub queued : List ℕ → RingBuffer → RingBuffer
queued bytes wbuf = elim (append bytes wbuf) [ ok b ↦ b | err e ↦ wbuf | stuck ↦ wbuf ]

-- `failed_requests.fetch_add(1)` on the endpoint at an index
unfoldable pub count_failure : ℕ → List UpstreamEndpoint → List UpstreamEndpoint
count_failure i [] = []
count_failure zero (e ∷ es) = record e { failed_requests = (e.failed_requests + 1) % 2 ^ 64 } ∷ es
count_failure (suc i) (e ∷ es) = e ∷ count_failure i es

abbrev pub with_failure : ℕ → WeightedRoundRobin → WeightedRoundRobin
with_failure i lb = record lb { endpoints = count_failure i lb.endpoints }

-- What a handler comes to: it closes the connection, it returns, or the event goes on to the
-- part for writing.
pub data After : Type 0 where
  closes : After
  returns : Watched → After
  goes_on : Watched → After

-- The choice of an upstream and the exchange with it: the upstream, if there is one, and the
-- response, if there is one.
pub data Fetched : Type 0 where
  nobody : Backend → Fetched
  failed : ℕ → Backend → Fetched
  fetched : ℕ → List ℕ → Backend → Fetched
  unanswered : Fetched

unfoldable pub fetch : HttpRequest → List ℕ → (ℕ → Attempt) → Backend → Fetched
unfolding next forward_http1 count_failure
fetch req body attempts back =
    let (chosen, lb) = next back.lb in
    let at_index : Option (ℕ × UpstreamEndpoint) = elim chosen [
      | none ↦ none
      | some i ↦ elim (get_elem? lb.endpoints i) [ none ↦ none | some e ↦ some (i, e) ]
    ] in
    elim at_index [
      | none ↦ nobody (record back { lb = lb })
      | some (i, e) ↦
          let (r, pools) = forward_http1 req body e attempts back.pools in
          elim r [
            | ok response ↦ fetched i response (record { lb = lb; pools = pools })
            | err e ↦ failed i (record { lb = with_failure i lb; pools = pools })
            | stuck ↦ unanswered
          ]
    ]

-- The end of an answer: the request is counted, and the client is watched for writing.
abbrev counted : ClientConn → Watched
counted conn = record {
  conn = record conn { req_count = conn.req_count + 1 };
  interest = read_write;
}

-- What is queued for the client.
unfoldable pub answer_with : HttpRequest → ClientConn → Fetched → Result (After × Backend)
unfolding append
answer_with req conn (nobody back) = ok (
  goes_on (counted (record conn { keep_alive = false; wbuf = queued unavailable conn.wbuf })),
  back,
)
answer_with req conn (failed i back) = ok (
  goes_on (
      counted (record conn {
        upstream = some i;
        keep_alive = false;
        wbuf = queued bad_gateway conn.wbuf;
      })),
  back,
)
answer_with req conn (fetched i response back) = ok (
  goes_on (
      counted (record conn {
        upstream = some i;
        keep_alive = req.keep_alive;
        wbuf = queued response conn.wbuf;
      })),
  back,
)
answer_with req conn unanswered = stuck

-- A request that has arrived with its body, which has left the read buffer.
unfoldable pub answer :
    HttpRequest → List ℕ → (ℕ → Attempt) → ClientConn → Backend → Result (After × Backend)
unfolding fetch answer_with
answer req body attempts conn back = answer_with req conn (fetch req body attempts back)

-- Behind `parse_request`, where it found a request.
unfoldable pub handle_request :
    HttpRequest → (ℕ → Attempt) → Watched → Backend → Result (After × Backend)
unfolding answer append commit_read peek
handle_request req attempts w back =
    let conn = w.conn in
    let buffered = readable conn.rbuf - req.header_bytes in
    let refused = record conn {
      wbuf = queued unsupported conn.wbuf;
      keep_alive = false;
      rbuf = commit_read req.header_bytes conn.rbuf;
    } in
    let rest = commit_read req.header_bytes conn.rbuf in
    let body = peek req.content_length rest in
    if req.chunked
    then ok (returns (record { conn = refused; interest = read_write }), back)
    else if ltb buffered req.content_length
    then ok (returns w, back)
    else answer req body attempts (record conn { rbuf = commit_read req.content_length rest }) back

unfoldable pub empty_request : HttpRequest
empty_request = record {
  method = [];
  target = [];
  version = [];
  headers = [];
  keep_alive = true;
  content_length = 0;
  chunked = false;
  header_bytes = 0;
}

unfoldable pub handle_http1 : (ℕ → Attempt) → Watched → Backend → Result (After × Backend)
unfolding handle_request parse_request empty_request
handle_http1 attempts w back =
    let (parsed, req) = parse_request w.conn.rbuf empty_request in
    elim parsed [
      | malformed ↦ ok (closes, back)
      | complete ↦ handle_request req attempts w back
      | incomplete ↦ ok (goes_on w, back)
    ]
