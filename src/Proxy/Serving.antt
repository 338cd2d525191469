-- ===== src/Proxy/Serving.antt =====
-- src/proxy.cpp: what a request of HTTP/1.1 takes from the read buffer and what it puts in the write
-- buffer.
use mathlib.Core.Path.{subst}
use uproxy.Base.{
  ℕ, ◌+◌, ◌-◌, ◌<◌, ◌≡◌, refl, sym, ap, ◌∙◌, true, false, List, ◌++◌, ◌⊎◌, inl, inr, Bool-cases,
  ltb, take, drop, drop-drop, ltb→lt,
}
use uproxy.Base.Holds.{Holds, Holds-map, Holds-ok, Holds-stuck}
use uproxy.Buffer.{RingBuffer, readable, peek, commit_read}
use uproxy.Buffer.Fifo.{contents, IsValid, peek-eq-take, contents-commit_read, commit_read-IsValid}
use uproxy.Buffer.Append.{append_lem}
use uproxy.Http1.Message.{HttpRequest}
use uproxy.Proxy.{ClientConn, Watched, Backend, read_write}
use uproxy.Proxy.Upstream.{Attempt}
use uproxy.Proxy.Http1.{
  After, closes, returns, goes_on, Fetched, nobody, failed, fetched, unanswered, fetch, queued,
  unsupported, unavailable, bad_gateway, answer_with, answer, handle_request,
}

pub queued_lem :
    (bytes : List ℕ) (b : RingBuffer)
    → IsValid b
    → IsValid (queued bytes b) × (contents (queued bytes b) ≡ contents b ++ bytes)
queued_lem bytes b v =
    let (b', e, v', q) = append_lem bytes b v in
    let same : queued bytes b ≡ b' = rw (queued, e) refl in
    (subst IsValid (sym same) v', ap contents same ∙ q)

-- Where an answer is from: it is the proxy's own, and ends the connection, or the upstream's.
abbrev pub Origin : HttpRequest → ClientConn → Fetched → List ℕ → Type 0
Origin req conn (nobody back) response = (response ≡ unavailable) × (conn.keep_alive ≡ false)
Origin req conn (failed i back) response = (response ≡ bad_gateway) × (conn.keep_alive ≡ false)
Origin req conn (fetched i bytes back) response =
    (response ≡ bytes) × (conn.keep_alive ≡ req.keep_alive)
Origin req conn unanswered response = ⊥

-- A client whose request is answered: the request has left the read buffer, and one answer stands
-- behind what the write buffer held.
pub record Answered (req : HttpRequest) (f : Fetched) (rest queue : List ℕ) (count : ℕ)
    (conn : ClientConn) : Type 0 where
  pub rbuf_valid : IsValid conn.rbuf
  pub wbuf_valid : IsValid conn.wbuf
  pub rbuf_left : contents conn.rbuf ≡ rest
  pub wbuf_more :
      (response : List ℕ) × (contents conn.wbuf ≡ queue ++ response) × Origin req conn f response
  pub counted_one : conn.req_count ≡ count + 1

-- What `handle_request` comes to with a client of valid buffers.
abbrev pub Handled : HttpRequest → (ℕ → Attempt) → Watched → Backend → After × Backend → Type 0
Handled req attempts w back (closes, back') = ⊥
Handled req attempts w back (returns w', back') =
    ((req.chunked ≡ true)
      × (contents w'.conn.rbuf ≡ drop req.header_bytes (contents w.conn.rbuf))
      × (contents w'.conn.wbuf ≡ contents w.conn.wbuf ++ unsupported)
      × (w'.conn.keep_alive ≡ false))
    ⊎ ((readable w.conn.rbuf - req.header_bytes < req.content_length) × (w' ≡ w))
Handled req attempts w back (goes_on w', back') =
    let queue = contents w.conn.rbuf in
    let body = take req.content_length (drop req.header_bytes queue) in
    Answered req (fetch req body attempts back) (drop (req.header_bytes + req.content_length) queue)
      (contents w.conn.wbuf) w.conn.req_count w'.conn
    × (w'.interest ≡ read_write)

-- What `answer_with` comes to.
abbrev Goes : HttpRequest → Fetched → List ℕ → List ℕ → ℕ → After × Backend → Type 0
Goes req f rest queue count (closes, back) = ⊥
Goes req f rest queue count (returns w, back) = ⊥
Goes req f rest queue count (goes_on w, back) =
    Answered req f rest queue count w.conn × (w.interest ≡ read_write)

answer_with-Answered :
    (req : HttpRequest) (f : Fetched) (conn : ClientConn) (rest : List ℕ)
    → IsValid conn.rbuf
    → IsValid conn.wbuf
    → contents conn.rbuf ≡ rest
    → Holds (Goes req f rest (contents conn.wbuf) conn.req_count) (answer_with req conn f)
unfolding answer_with
answer_with-Answered req (nobody back) conn rest vr vw e =
    let (v, q) = queued_lem unavailable conn.wbuf vw in
    Holds-ok (
      record {
        rbuf_valid = vr;
        wbuf_valid = v;
        rbuf_left = e;
        wbuf_more = (unavailable, q, (refl, refl));
        counted_one = refl;
      },
      refl,
    )
answer_with-Answered req (failed i back) conn rest vr vw e =
    let (v, q) = queued_lem bad_gateway conn.wbuf vw in
    Holds-ok (
      record {
        rbuf_valid = vr;
        wbuf_valid = v;
        rbuf_left = e;
        wbuf_more = (bad_gateway, q, (refl, refl));
        counted_one = refl;
      },
      refl,
    )
answer_with-Answered req (fetched i bytes back) conn rest vr vw e =
    let (v, q) = queued_lem bytes conn.wbuf vw in
    Holds-ok (
      record {
        rbuf_valid = vr;
        wbuf_valid = v;
        rbuf_left = e;
        wbuf_more = (bytes, q, (refl, refl));
        counted_one = refl;
      },
      refl,
    )
answer_with-Answered req unanswered conn rest vr vw e = Holds-stuck

Goes-Handled :
    (req : HttpRequest) (attempts : ℕ → Attempt) (w : Watched) (back : Backend)
    (x : After × Backend)
    → let queue = contents w.conn.rbuf in
      let body = take req.content_length (drop req.header_bytes queue) in
      Goes req
        (fetch req body attempts back)
        (drop (req.header_bytes + req.content_length) queue)
        (contents w.conn.wbuf)
        w.conn.req_count
        x
      → Handled req attempts w back x
Goes-Handled req attempts w back (closes, b) h = h
Goes-Handled req attempts w back (returns w', b) h = absurd h
Goes-Handled req attempts w back (goes_on w', b) h = h

-- On a client with valid buffers `handle_request` closes nothing. Where it returns, the request is
-- chunked, its head has left the read buffer and the answer 501 is queued behind the rest, or less
-- of the body is there than announced and nothing has changed. Where it goes on, exactly the head
-- and the body have left the read buffer, that body is what `fetch` was given, one answer is
-- queued behind the rest, the upstream's or one of the proxy's own that ends the connection, the
-- buffers are valid, and the client is watched for writing.
pub handle_request-Handled :
    (req : HttpRequest) (attempts : ℕ → Attempt) (w : Watched) (back : Backend)
    → IsValid w.conn.rbuf
    → IsValid w.conn.wbuf
    → Holds (Handled req attempts w back) (handle_request req attempts w back)
unfolding handle_request answer
handle_request-Handled req attempts w back vr vw =
    let conn = w.conn in
    let rest = commit_read req.header_bytes conn.rbuf in
    let v₁ = commit_read-IsValid req.header_bytes conn.rbuf vr in
    let left = contents-commit_read req.header_bytes conn.rbuf vr in
    let taken = take req.content_length (drop req.header_bytes (contents conn.rbuf)) in
    let body : peek req.content_length rest ≡ taken =
      peek-eq-take req.content_length rest v₁ ∙ ap (take req.content_length) left in
    let gone : contents (commit_read req.content_length rest)
        ≡ drop (req.header_bytes + req.content_length) (contents conn.rbuf) =
      contents-commit_read req.content_length rest v₁
      ∙ ap (drop req.content_length) left
      ∙ drop-drop req.content_length req.header_bytes (contents conn.rbuf) in
    elim (Bool-cases req.chunked) [
      | inl chunked ↦
          rw chunked (Holds-ok (inl (refl, left, (queued_lem unsupported conn.wbuf vw).1, refl)))
      | inr plain ↦
          elim (Bool-cases (ltb (readable conn.rbuf - req.header_bytes) req.content_length)) [
            | inl short ↦ rw plain (rw short (Holds-ok (inr (ltb→lt _ _ short, refl))))
            | inr whole ↦ rw plain (
                rw whole (
                  rw body (
                    Holds-map (Goes-Handled (record req { chunked = false }) attempts w back) (
                      answer_with-Answered (record req { chunked = false })
                        (fetch (record req { chunked = false }) taken attempts back)
                        (record conn { rbuf = commit_read req.content_length rest })
                        (drop (req.header_bytes + req.content_length) (contents conn.rbuf))
                        (commit_read-IsValid req.content_length rest v₁) vw gone))))
          ]
    ]
