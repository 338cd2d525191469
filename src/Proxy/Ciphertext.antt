-- ===== src/Proxy/Ciphertext.antt =====
-- src/proxy.cpp: `flush_tls_ciphertext` loses and reorders no bytes.
use mathlib.Core.List.{append_assoc, append-nil}
use mathlib.Core.Path.{subst}
use uproxy.Base.{
  ℕ, ◌≡◌, refl, sym, ap, ap₂, ◌∙◌, List, [], ◌∷◌, ◌++◌, inl, inr, Bool-cases, ◌==◌, take, drop,
  take-append-drop, Result, ok, err, stuck, from_errno,
}
use uproxy.Base.System.{Returned}
use uproxy.Buffer.{RingBuffer, readable, peek, append, commit_read}
use uproxy.Buffer.Append.{Appended, append_lem}
use uproxy.Buffer.Fifo.{IsValid, contents, commit_read-IsValid, contents-commit_read, peek_whole}
use uproxy.Proxy.Cipher.{
  Sent, took, again, full, refused, classify, Outcome, flushed, blocked, broken, dry, Sending,
  flush_pending, save, send_chunk, take_loop, flush_rest, flush_tls_ciphertext,
}
use uproxy.Proxy.Delivery.{contents-nil}
use uproxy.Tls.Boring.{TlsConn, SslResult, take_encrypted}

-- What holds where the connection goes on.
abbrev pub Unless : Outcome → Type 0 → Type 0
Unless flushed P = P
Unless blocked P = P
Unless (broken e) P = Unit
Unless dry P = Unit

abbrev pub IsEmptied : Outcome → RingBuffer → Type 0
IsEmptied flushed p = contents p ≡ []
IsEmptied blocked p = Unit
IsEmptied (broken e) p = Unit
IsEmptied dry p = Unit

-- `queued` are the bytes that had to be sent.
pub record Conserves (queued : List ℕ) (o : Outcome) (p' : RingBuffer) (sent : List ℕ)
    : Type 0 where
  pub valid : IsValid p'
  pub split : Unless o (sent ++ contents p' ≡ queued)
  pub emptied : IsEmptied o p'

abbrev Sends : List ℕ → Sending → Type 0
Sends queued (o, p', sent, left) = Conserves queued o p' sent

split_on :
    (o : Outcome) (part rest sent : List ℕ) (p' : RingBuffer) {queued : List ℕ}
    → part ++ rest ≡ queued
    → Conserves rest o p' sent
    → Conserves queued o p' (part ++ sent)
split_on o part rest sent p' {queued} e c = record {
  valid = c.valid;
  split = joined o c.split;
  emptied = c.emptied;
}
  where
    joined :
        (o : Outcome)
        → Unless o (sent ++ contents p' ≡ rest)
        → Unless o ((part ++ sent) ++ contents p' ≡ queued)
    joined flushed s = append_assoc part sent (contents p') ∙ ap (◌++◌ part) s ∙ e
    joined blocked s = append_assoc part sent (contents p') ∙ ap (◌++◌ part) s ∙ e
    joined (broken x) s = tt
    joined dry s = tt

flush_pending-Sends :
    (sends : List (Returned ℕ)) (p : RingBuffer)
    → IsValid p
    → Sends (contents p) (flush_pending sends p)
unfolding flush_pending
flush_pending-Sends [] p v = elim (Bool-cases (readable p == 0)) [
  | inl empty ↦ rw empty (record { valid = v; split = refl; emptied = contents-nil p v empty })
  | inr some_bytes ↦ rw some_bytes (record { valid = v; split = tt; emptied = tt })
]
flush_pending-Sends (s ∷ sends) p v = elim (Bool-cases (readable p == 0)) [
  | inl empty ↦ rw empty (record { valid = v; split = refl; emptied = contents-nil p v empty })
  | inr some_bytes ↦ rw some_bytes (by_answer (λ q w. flush_pending-Sends sends q w) (classify s))
]
  where
    by_answer :
        ((q : RingBuffer) → IsValid q → Sends (contents q) (flush_pending sends q))
        → (a : Sent)
        → Sends (contents p) (elim a as (λ _. Sending) [
          | took n ↦
              let (o, p', sent, left) = flush_pending sends (commit_read n p) in
              (o, p', take n (peek (readable p) p) ++ sent, left)
          | again ↦ flush_pending sends p
          | full ↦ (blocked, p, [], sends)
          | refused errno ↦ (broken (from_errno errno "tls write"), p, [], sends)
        ])
    by_answer later (took n) =
        let (o, p', sent, left) = flush_pending sends (commit_read n p) in
        split_on o (take n (peek (readable p) p)) (contents (commit_read n p)) sent p'
          (ap₂ (λ k c. take n k ++ c) (peek_whole p v) (contents-commit_read n p v)
            ∙ take-append-drop n (contents p))
          (later (commit_read n p) (commit_read-IsValid n p v))
    by_answer later again = later p v
    by_answer later full = record { valid = v; split = refl; emptied = tt }
    by_answer later (refused errno) = record { valid = v; split = tt; emptied = tt }

save-Sends :
    (sends : List (Returned ℕ)) (p : RingBuffer) (bytes : List ℕ) (r : Result RingBuffer)
    → IsValid p
    → contents p ≡ []
    → Appended p bytes r
    → Sends bytes (save sends p r)
unfolding save
save-Sends sends p bytes (ok p') v empty (b', e, v', q) =
    let same : p' ≡ b' = cc in
    record {
      valid = subst IsValid (sym same) v';
      split = ap contents same ∙ q ∙ ap (λ c. c ++ bytes) empty;
      emptied = tt;
    }
save-Sends sends p bytes (err e) v empty a = record { valid = v; split = tt; emptied = tt }
save-Sends sends p bytes stuck v empty a = record { valid = v; split = tt; emptied = tt }

send_chunk-Sends :
    (sends : List (Returned ℕ)) (bytes : List ℕ) (p : RingBuffer)
    → IsValid p
    → contents p ≡ []
    → Sends bytes (send_chunk sends bytes p)
unfolding send_chunk
send_chunk-Sends sends [] p v empty = record { valid = v; split = empty; emptied = empty }
send_chunk-Sends [] (b ∷ bytes) p v empty = record { valid = v; split = tt; emptied = tt }
send_chunk-Sends (s ∷ sends) (b ∷ bytes) p v empty =
    by_answer (λ rest. send_chunk-Sends sends rest p v empty) (classify s)
  where
    by_answer :
        ((rest : List ℕ) → Sends rest (send_chunk sends rest p))
        → (a : Sent)
        → Sends (b ∷ bytes) (elim a as (λ _. Sending) [
          | took n ↦
              let (o, p', sent, left) = send_chunk sends (drop n (b ∷ bytes)) p in
              (o, p', take n (b ∷ bytes) ++ sent, left)
          | again ↦ send_chunk sends (b ∷ bytes) p
          | full ↦ save sends p (append (b ∷ bytes) p)
          | refused errno ↦ (broken (from_errno errno "tls write"), p, [], sends)
        ])
    by_answer later (took n) =
        let (o, p', sent, left) = send_chunk sends (drop n (b ∷ bytes)) p in
        split_on o (take n (b ∷ bytes)) (drop n (b ∷ bytes)) sent p'
          (take-append-drop n (b ∷ bytes)) (later (drop n (b ∷ bytes)))
    by_answer later again = later (b ∷ bytes)
    by_answer later full = save-Sends sends p (b ∷ bytes) _ v empty (append_lem (b ∷ bytes) p v)
    by_answer later (refused errno) = record { valid = v; split = tt; emptied = tt }

abbrev Made : List ℕ → Outcome × RingBuffer × List ℕ × List ℕ → Type 0
Made queued (o, p', sent, made) = Conserves (queued ++ made) o p' sent

-- With nothing left in `tls_pending` everything was sent.
all_sent :
    (sent : List ℕ) (p' : RingBuffer) {queued : List ℕ}
    → contents p' ≡ []
    → sent ++ contents p' ≡ queued
    → sent ≡ queued
all_sent sent p' empty split = sym (append-nil sent) ∙ ap (◌++◌ sent) (sym empty) ∙ split

take_loop-Made :
    (takes : List (SslResult (List ℕ))) (c : TlsConn) (sends : List (Returned ℕ)) (p : RingBuffer)
    → IsValid p
    → contents p ≡ []
    → Made [] (take_loop takes c sends p)
unfolding take_loop
take_loop-Made [] c sends p v empty = record { valid = v; split = tt; emptied = tt }
take_loop-Made (t ∷ takes) c sends p v empty =
    by_bytes (λ sends' q w e. take_loop-Made takes c sends' q w e) (take_encrypted t c)
  where
    Rest : Type 0
    Rest =
        (sends' : List (Returned ℕ)) (q : RingBuffer)
        → IsValid q
        → contents q ≡ []
        → Made [] (take_loop takes c sends' q)

    chunked :
        Rest
        → (chunk : List ℕ) (x : Sending) → Sends chunk x
        → Made [] (
            let (o, p', sent, left) = x in
            elim o as (λ _. Outcome × RingBuffer × List ℕ × List ℕ) [
              | flushed ↦
                  let (o', p'', more, made) = take_loop takes c left p' in
                  (o', p'', sent ++ more, chunk ++ made)
              | blocked ↦ (blocked, p', sent, chunk)
              | broken e ↦ (broken e, p', sent, chunk)
              | dry ↦ (dry, p', sent, chunk)
            ])
    chunked later chunk (flushed, p', sent, left) s =
        let (o', p'', more, made) = take_loop takes c left p' in
        split_on o' sent made more p'' (ap (λ xs. xs ++ made) (all_sent sent p' s.emptied s.split))
          (later left p' s.valid s.emptied)
    chunked later chunk (blocked, p', sent, left) s = s
    chunked later chunk (broken e, p', sent, left) s = record {
      valid = s.valid;
      split = tt;
      emptied = tt;
    }
    chunked later chunk (dry, p', sent, left) s = record {
      valid = s.valid;
      split = tt;
      emptied = tt;
    }

    by_bytes :
        Rest
        → (r : Result (List ℕ))
        → Made [] (elim r as (λ _. Outcome × RingBuffer × List ℕ × List ℕ) [
          | err e ↦ (broken e, p, [], [])
          | stuck ↦ (dry, p, [], [])
          | ok [] ↦ (flushed, p, [], [])
          | ok (b ∷ bytes) ↦
              let (o, p', sent, left) = send_chunk sends (b ∷ bytes) p in
              elim o [
                | flushed ↦
                    let (o', p'', more, made) = take_loop takes c left p' in
                    (o', p'', sent ++ more, (b ∷ bytes) ++ made)
                | blocked ↦ (blocked, p', sent, b ∷ bytes)
                | broken e ↦ (broken e, p', sent, b ∷ bytes)
                | dry ↦ (dry, p', sent, b ∷ bytes)
              ]
        ])
    by_bytes later (err e) = record { valid = v; split = tt; emptied = tt }
    by_bytes later stuck = record { valid = v; split = tt; emptied = tt }
    by_bytes later (ok []) = record { valid = v; split = empty; emptied = empty }
    by_bytes later (ok (b ∷ bytes)) =
        chunked later (b ∷ bytes) (send_chunk sends (b ∷ bytes) p)
          (send_chunk-Sends sends (b ∷ bytes) p v empty)

flush_rest-Made :
    (takes : List (SslResult (List ℕ))) (c : TlsConn) (x : Sending) {queued : List ℕ}
    → Sends queued x
    → Made queued (flush_rest takes c x)
unfolding flush_rest
flush_rest-Made takes c (flushed, p, sent, sends) {queued} s =
    let (o, p', more, made) = take_loop takes c sends p in
    split_on o sent made more p' (ap (λ xs. xs ++ made) (all_sent sent p s.emptied s.split))
      (take_loop-Made takes c sends p s.valid s.emptied)
flush_rest-Made takes c (blocked, p, sent, sends) {queued} s = record {
  valid = s.valid;
  split = s.split ∙ sym (append-nil queued);
  emptied = tt;
}
flush_rest-Made takes c (broken e, p, sent, sends) s = record {
  valid = s.valid;
  split = tt;
  emptied = tt;
}
flush_rest-Made takes c (dry, p, sent, sends) s = record {
  valid = s.valid;
  split = tt;
  emptied = tt;
}

-- Where `flush_tls_ciphertext` succeeds or would block, the bytes that `send` has taken and then
-- those left in `tls_pending` are those that were pending and then those that the TLS connection
-- gave, in order; where it succeeds, none is left. The buffer stays valid in every case.
pub flush_tls_ciphertext_lem :
    (takes : List (SslResult (List ℕ))) (c : TlsConn) (sends : List (Returned ℕ)) (p : RingBuffer)
    → IsValid p
    → let (o, p', sent, made) = flush_tls_ciphertext takes c sends p in
      Conserves (contents p ++ made) o p' sent
unfolding flush_tls_ciphertext
flush_tls_ciphertext_lem takes c sends p v =
    flush_rest-Made takes c (flush_pending sends p) (flush_pending-Sends sends p v)
