-- ===== src/Proxy/Cipher.antt =====
-- src/proxy.cpp: `flush_tls_ciphertext` for a connection with TLS, in the build with BoringSSL. What
-- `send` and the library answer is an argument.
use uproxy.Base.{
  ℕ, zero, suc, List, [], ◌∷◌, ◌++◌, none, some, ◌==◌, if◌then◌else◌, take, drop, Error, Result, ok,
  err, stuck, from_code, from_errno, would_block,
}
use uproxy.Base.System.{Returned, eintr, eagain}
use uproxy.Buffer.{RingBuffer, readable, peek, append, commit_read}
use uproxy.Tls.Boring.{TlsConn, SslResult, take_encrypted}

-- How a call of `send` goes on.
pub data Sent : Type 0 where
  took : ℕ → Sent
  again full : Sent
  refused : ℕ → Sent

unfoldable pub classify : Returned ℕ → Sent
classify s = elim s.value [
  | some zero ↦ refused s.errno
  | some (suc n) ↦ took (suc n)
  | none ↦ if s.errno == eintr then again else if s.errno == eagain then full else refused s.errno
]

-- How a loop ends: through, with `WouldBlock`, with another error, or for want of answers.
pub data Outcome : Type 0 where
  flushed blocked : Outcome
  broken : Error → Outcome
  dry : Outcome

abbrev pub as_result : Outcome → Result (Unit {0})
as_result flushed = ok tt
as_result blocked = err (from_code would_block "tls write")
as_result (broken e) = err e
as_result dry = stuck

-- A loop leaves `tls_pending`, the bytes that `send` has taken, and the answers that are left.
abbrev pub Sending : Type 0
Sending = Outcome × RingBuffer × List ℕ × List (Returned ℕ)

-- The loop over `tls_pending`.
unfoldable pub flush_pending : List (Returned ℕ) → RingBuffer → Sending
unfolding classify peek commit_read
flush_pending [] p = ((if readable p == 0 then flushed else dry), p, [], [])
flush_pending (s ∷ sends) p =
    let round : Sending = elim (classify s) [
      | took n ↦
          let (o, p', sent, left) = flush_pending sends (commit_read n p) in
          (o, p', take n (peek (readable p) p) ++ sent, left)
      | again ↦ flush_pending sends p
      | full ↦ (blocked, p, [], sends)
      | refused errno ↦ (broken (from_errno errno "tls write"), p, [], sends)
    ] in
    if readable p == 0 then (flushed, p, [], s ∷ sends) else round

-- What does not fit the socket waits in `tls_pending`.
unfoldable pub save : List (Returned ℕ) → RingBuffer → Result RingBuffer → Sending
save sends p (ok p') = (blocked, p', [], sends)
save sends p (err e) = (broken e, p, [], sends)
save sends p stuck = (dry, p, [], sends)

-- The inner loop, over the bytes from `off` on.
unfoldable pub send_chunk : List (Returned ℕ) → List ℕ → RingBuffer → Sending
unfolding classify append save
send_chunk sends [] p = (flushed, p, [], sends)
send_chunk [] (b ∷ bytes) p = (dry, p, [], [])
send_chunk (s ∷ sends) (b ∷ bytes) p = elim (classify s) [
  | took n ↦
      let (o, p', sent, left) = send_chunk sends (drop n (b ∷ bytes)) p in
      (o, p', take n (b ∷ bytes) ++ sent, left)
  | again ↦ send_chunk sends (b ∷ bytes) p
  | full ↦ save sends p (append (b ∷ bytes) p)
  | refused errno ↦ (broken (from_errno errno "tls write"), p, [], sends)
]

-- The loop of `take_encrypted`, with the bytes that the library gave in front of the answers.
unfoldable pub take_loop :
    List (SslResult (List ℕ))
    → TlsConn
    → List (Returned ℕ)
    → RingBuffer
    → Outcome × RingBuffer × List ℕ × List ℕ
unfolding take_encrypted send_chunk
take_loop [] c sends p = (dry, p, [], [])
take_loop (t ∷ takes) c sends p = elim (take_encrypted t c) [
  | err e ↦ (broken e, p, [], [])
  | stuck ↦ (dry, p, [], [])
  | ok [] ↦ (flushed, p, [], [])
  | ok (b ∷ bytes) ↦
      let (o, p', sent, left) = send_chunk sends (b ∷ bytes) p in
      elim o [
        | flushed ↦
            let (o', p'', more, made) = take_loop takes c left p' in
            (o', p'', sent ++ more, (b ∷ bytes) ++ made)
        | blocked ↦ (blocked, p', sent, b ∷ bytes)
        | broken e ↦ (broken e, p', sent, b ∷ bytes)
        | dry ↦ (dry, p', sent, b ∷ bytes)
      ]
]

-- Behind the loop over `tls_pending`.
unfoldable pub flush_rest :
    List (SslResult (List ℕ)) → TlsConn → Sending → Outcome × RingBuffer × List ℕ × List ℕ
unfolding take_loop
flush_rest takes c (flushed, p, sent, sends) =
    let (o, p', more, made) = take_loop takes c sends p in (o, p', sent ++ more, made)
flush_rest takes c (blocked, p, sent, sends) = (blocked, p, sent, [])
flush_rest takes c (broken e, p, sent, sends) = (broken e, p, sent, [])
flush_rest takes c (dry, p, sent, sends) = (dry, p, sent, [])

-- The result, `tls_pending`, the bytes that `send` has taken and those that the library gave.
unfoldable pub flush_tls_ciphertext :
    List (SslResult (List ℕ))
    → TlsConn
    → List (Returned ℕ)
    → RingBuffer
    → Outcome × RingBuffer × List ℕ × List ℕ
unfolding flush_pending flush_rest
flush_tls_ciphertext takes c sends p = flush_rest takes c (flush_pending sends p)
