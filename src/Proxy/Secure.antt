-- ===== src/Proxy/Secure.antt =====
-- src/proxy.cpp: the branches for a connection with TLS of `read_client_input`, of
-- `write_client_output` and of `on_client_event`, in the build with BoringSSL. What the system and the
-- library answer is an argument.
use uproxy.Base.{
  ℕ, Bool, true, false, List, [], ◌∷◌, Option, none, some, ◌==◌, if◌then◌else◌, bytes_eq, codes,
  Error, Result, ok, err, stuck, ◌>>=◌, from_code, from_errno, would_block,
}
use uproxy.Base.System.{Returned, eintr, eagain}
use uproxy.Buffer.{RingBuffer, readable, append, commit_read}
use uproxy.Proxy.{Proto, http1, http2}
use uproxy.Proxy.Cipher.{as_result, Outcome, flushed, blocked, broken, dry, flush_tls_ciphertext}
use uproxy.Proxy.Server.{is_would_block}
use uproxy.Tls.{TlsHandshakeState, pending, finished}
use uproxy.Tls.Boring.{TlsConn, SslResult, feed_encrypted, read, write, do_handshake, alpn_protocol}

-- What `recv` gives goes to the TLS connection; `feeds` is what `BIO_write` answers. Whether the end of
-- the stream was seen.
unfoldable pub feed_loop : List (Returned (List ℕ)) → (List ℕ → Bool) → TlsConn → Result Bool
unfolding feed_encrypted
feed_loop [] feeds c = stuck
feed_loop (r ∷ recvs) feeds c =
    let again = feed_loop recvs feeds c in
    elim r.value [
      | some [] ↦ ok true
      | some (b ∷ bytes) ↦ feed_encrypted (feeds (b ∷ bytes)) (b ∷ bytes) c >>= λ u. again
      | none ↦
          if r.errno == eintr
          then again
          else if r.errno == eagain
          then ok false
          else err (from_errno r.errno "read client")
    ]

-- The loop of `TLSConn::read`: how it ends, and the read buffer.
unfoldable pub drain_loop :
    List (SslResult (List ℕ)) → TlsConn → RingBuffer → Result (Unit {0}) × RingBuffer
unfolding read append
drain_loop [] c rbuf = (stuck, rbuf)
drain_loop (r ∷ reads) c rbuf = elim (read r c) [
  | ok bytes ↦ elim (append bytes rbuf) [
    | ok rbuf' ↦ drain_loop reads c rbuf'
    | err e ↦ (err e, rbuf)
    | stuck ↦ (stuck, rbuf)
  ]
  | err e ↦ ((if is_would_block e.code then ok tt else err e), rbuf)
  | stuck ↦ (stuck, rbuf)
]

-- What a client with TLS has beside the fields of a `ClientConn`.
pub record Secure : Type 0 where
  pub tls_conn : TlsConn
  pub tls_pending : RingBuffer

-- What is answered to one call of `flush_tls_ciphertext`.
pub record Flush : Type 0 where
  pub takes : List (SslResult (List ℕ))
  pub sends : List (Returned ℕ)

-- The outcome, and the client behind it.
unfoldable pub flush : Flush → Secure → Outcome × Secure
unfolding flush_tls_ciphertext
flush f s =
    let (o, p, sent, made) = flush_tls_ciphertext f.takes s.tls_conn f.sends s.tls_pending in
    (o, record s { tls_pending = p })

-- A flush that would block is no error.
abbrev pub let_block {ℓ} : {A : Type ℓ} → Outcome → Result A → Result A
let_block flushed r = r
let_block blocked r = r
let_block (broken e) r = err e
let_block dry r = stuck

-- Behind the two loops.
unfoldable pub flush_read :
    Flush → Secure → Bool → Result (Unit {0}) × RingBuffer → Result Bool × RingBuffer × Secure
unfolding flush
flush_read f s saw_eof (ok u, rbuf) =
    let (o, s') = flush f s in (let_block o (ok saw_eof), rbuf, s')
flush_read f s saw_eof (err e, rbuf) = (err e, rbuf, s)
flush_read f s saw_eof (stuck, rbuf) = (stuck, rbuf, s)

unfoldable pub read_secure :
    List (Returned (List ℕ))
    → (List ℕ → Bool)
    → List (SslResult (List ℕ))
    → Flush
    → Secure
    → RingBuffer
    → Result Bool × RingBuffer × Secure
unfolding feed_loop drain_loop flush_read
read_secure recvs feeds reads f s rbuf = elim (feed_loop recvs feeds s.tls_conn) [
  | ok saw_eof ↦ flush_read f s saw_eof (drain_loop reads s.tls_conn rbuf)
  | err e ↦ (err e, rbuf, s)
  | stuck ↦ (stuck, rbuf, s)
]

-- What the answers to one round of writing are: those of `TLSConn::write` and of the flush behind it.
pub record WriteRound : Type 0 where
  pub written : SslResult ℕ
  pub flushes : Flush

abbrev pub tls_pending_error : Error
tls_pending_error = from_code would_block "tls write pending"

-- The loop over the write buffer; `last` is what the flush behind it is answered.
unfoldable pub write_secure :
    List WriteRound → Flush → Secure → RingBuffer → Result (Unit {0}) × RingBuffer × Secure
unfolding write flush commit_read
write_secure [] last s wbuf =
    let (o, s') = flush last s in
    if readable wbuf == 0 then (as_result o, wbuf, s') else (stuck, wbuf, s)
write_secure (r ∷ rounds) last s wbuf =
    let (o_last, s_last) = flush last s in
    let (o, s') = flush r.flushes s in
    let round : Result (Unit {0}) × RingBuffer × Secure = elim (write r.written s.tls_conn) [
      | err e ↦
          if is_would_block e.code
          then (let_block o (err tls_pending_error), wbuf, s')
          else (err e, wbuf, s)
      | stuck ↦ (stuck, wbuf, s)
      | ok n ↦ elim o [
        | flushed ↦ write_secure rounds last s' (commit_read n wbuf)
        | blocked ↦ (as_result blocked, commit_read n wbuf, s')
        | broken e ↦ (err e, commit_read n wbuf, s')
        | dry ↦ (stuck, commit_read n wbuf, s')
      ]
    ] in
    if readable wbuf == 0 then (as_result o_last, wbuf, s_last) else round

-- How the part of `on_client_event` for a handshake ends: the connection is closed, the handshake goes
-- on, or it is done, with the protocol, and the client is watched for writing too.
pub data Shake : Type 0 where
  shuts : Shake
  waits : Secure → Shake
  starts : Proto → Secure → Shake

-- The loop of `recv`: whether the connection is to go on. `EINTR` closes it, and what `feed_encrypted`
-- returns is ignored.
unfoldable pub shake_input : List (Returned (List ℕ)) → Result Bool
shake_input [] = stuck
shake_input (r ∷ recvs) =
    let again = shake_input recvs in
    elim r.value [ some [] ↦ ok false | some (b ∷ bytes) ↦ again | none ↦ ok (r.errno == eagain) ]

unfoldable pub shaken : Outcome → Secure → Result TlsHandshakeState → Result Shake
unfolding alpn_protocol
shaken o s (ok finished) =
    let proto = if bytes_eq (alpn_protocol s.tls_conn) (codes "h2") then http2 else http1 in
    let_block o (ok (starts proto s))
shaken o s (ok pending) = let_block o (ok (waits s))
shaken o s (err e) = let_block o (ok shuts)
shaken o s stuck = stuck

-- Behind the input: a flush that fails closes the connection.
unfoldable pub shake_on : SslResult (Option (List ℕ)) → Flush → Secure → Result Shake
unfolding do_handshake flush shaken
shake_on h f s =
    let (r, c) = do_handshake h s.tls_conn in
    let (o, s') = flush f (record s { tls_conn = c }) in
    elim o [
      | flushed ↦ shaken flushed s' r
      | blocked ↦ shaken blocked s' r
      | broken e ↦ ok shuts
      | dry ↦ stuck
    ]

unfoldable pub on_handshake :
    Bool → List (Returned (List ℕ)) → SslResult (Option (List ℕ)) → Flush → Secure → Result Shake
unfolding shake_input shake_on
on_handshake reads recvs h f s = (if reads then shake_input recvs else ok true) >>= λ going.
    (if going then shake_on h f s else ok shuts)
