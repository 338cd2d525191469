-- ===== src/Proxy/Plaintext.antt =====
-- src/proxy.cpp: what a client with TLS sends reaches its read buffer.
use mathlib.Core.List.{append_assoc, append-nil}
use uproxy.Base.{
  ℕ, ◌≡◌, refl, sym, ap, ◌∙◌, true, List, [], ◌∷◌, ◌++◌, Result, ok, err, stuck, from_code,
  sys_error,
}
use uproxy.Buffer.{RingBuffer}
use uproxy.Buffer.Append.{append_lem}
use uproxy.Buffer.Fifo.{IsValid, contents}
use uproxy.Proxy.Secure.{drain_loop}
use uproxy.Tls.Boring.{TlsConn, SslResult, did, wants, fails, read, read_with}

-- The bytes that `SSL_read` gives before it gives none, and how that ends.
abbrev pub decrypted : List (SslResult (List ℕ)) → List ℕ
decrypted [] = []
decrypted (did bytes ∷ reads) = bytes ++ decrypted reads
decrypted (wants ∷ reads) = []
decrypted (fails ∷ reads) = []

abbrev pub drained : List (SslResult (List ℕ)) → Result (Unit {0})
drained [] = stuck
drained (did bytes ∷ reads) = drained reads
drained (wants ∷ reads) = ok tt
drained (fails ∷ reads) = err (from_code sys_error "SSL_read failed")

-- On a connection behind its handshake and a valid read buffer, the loop of `TLSConn::read` ends as
-- the library's answers do, and puts exactly the decrypted bytes behind what is queued, in order;
-- the buffer stays valid.
pub drain_loop_lem :
    (reads : List (SslResult (List ℕ))) (c : TlsConn) (rbuf : RingBuffer)
    → c.ssl ≡ true
    → c.handshake_done ≡ true
    → IsValid rbuf
    → let (r, rbuf') = drain_loop reads c rbuf in
      (r ≡ drained reads) × IsValid rbuf' × (contents rbuf' ≡ contents rbuf ++ decrypted reads)
unfolding drain_loop read read_with
drain_loop_lem [] c rbuf has going v = (refl, v, sym (append-nil (contents rbuf)))
drain_loop_lem (wants ∷ reads) c rbuf has going v =
    rw (drain_loop, read, has, going) (refl, v, sym (append-nil (contents rbuf)))
drain_loop_lem (fails ∷ reads) c rbuf has going v =
    rw (drain_loop, read, has, going) (refl, v, sym (append-nil (contents rbuf)))
drain_loop_lem (did bytes ∷ reads) c rbuf has going v =
    let (rbuf', e, v', q) = append_lem bytes rbuf v in
    let (ends, valid, all) = drain_loop_lem reads c rbuf' has going v' in
    rw (drain_loop, read, has, going, e)
      (
        ends,
        valid,
        all
            ∙ ap (λ xs. xs ++ decrypted reads) q
            ∙ append_assoc (contents rbuf) bytes (decrypted reads),
      )
