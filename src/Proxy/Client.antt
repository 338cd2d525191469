-- ===== src/Proxy/Client.antt =====
-- src/proxy.cpp: `read_client_input` and `write_client_output` for a connection without TLS. What
-- `recv` and `send` answer is an argument.
use uproxy.Base.{
  ℕ, Bool, true, false, List, [], ◌∷◌, ◌++◌, none, some, ◌==◌, if◌then◌else◌, take, Result, ok, err,
  stuck, from_code, from_errno, would_block,
}
use uproxy.Base.System.{Returned, eintr, eagain}
use uproxy.Buffer.{RingBuffer, readable, peek, append, commit_read}

-- The loop of `recv`: whether the end of the stream was seen, and the read buffer.
unfoldable pub read_client_input : List (Returned (List ℕ)) → RingBuffer → Result Bool × RingBuffer
unfolding append
read_client_input [] rbuf = (stuck, rbuf)
read_client_input (r ∷ recvs) rbuf = elim r.value [
  | some [] ↦ (ok true, rbuf)
  | some (b ∷ bytes) ↦ elim (append (b ∷ bytes) rbuf) [
    | ok rbuf' ↦ read_client_input recvs rbuf'
    | err e ↦ (err e, rbuf)
    | stuck ↦ (stuck, rbuf)
  ]
  | none ↦
      let again = read_client_input recvs rbuf in
      if r.errno == eintr
      then again
      else if r.errno == eagain
      then (ok false, rbuf)
      else (err (from_errno r.errno "read client"), rbuf)
]

-- The loop of `send`: how it ends, the write buffer, and the bytes that `send` has taken.
unfoldable pub write_client_output :
    List (Returned ℕ) → RingBuffer → Result (Unit {0}) × RingBuffer × List ℕ
unfolding peek commit_read
write_client_output [] wbuf = ((if readable wbuf == 0 then ok tt else stuck), wbuf, [])
write_client_output (s ∷ sends) wbuf =
    let failed : Result (Unit {0}) × RingBuffer × List ℕ =
      (err (from_errno s.errno "write client"), wbuf, []) in
    let round : Result (Unit {0}) × RingBuffer × List ℕ = elim s.value [
      | some n ↦
          let (r, wbuf', taken) = write_client_output sends (commit_read n wbuf) in
          if n == 0 then failed else (r, wbuf', take n (peek (readable wbuf) wbuf) ++ taken)
      | none ↦
          let again = write_client_output sends wbuf in
          if s.errno == eintr
          then again
          else if s.errno == eagain
          then (err (from_code would_block "write client"), wbuf, [])
          else failed
    ] in
    if readable wbuf == 0 then (ok tt, wbuf, []) else round
