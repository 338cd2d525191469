-- ===== src/Proxy/Written.antt =====
-- src/proxy.cpp: what is left of the two buffers of a client with TLS behind `write_client_output`.
use uproxy.Base.{
  ℕ, ◌≡◌, refl, ap, ◌∙◌, Bool, true, false, List, [], ◌∷◌, inl, inr, Bool-cases, ◌==◌,
  if◌then◌else◌, drop, drop-drop, ◌+◌, Error, Result, ok, err, stuck,
}
use uproxy.Buffer.{RingBuffer, readable, commit_read}
use uproxy.Buffer.Fifo.{IsValid, contents, commit_read-IsValid, contents-commit_read}
use uproxy.Proxy.Cipher.{Outcome, flushed, blocked, broken, dry, as_result}
use uproxy.Proxy.Ciphertext.{IsEmptied, flush_tls_ciphertext_lem}
use uproxy.Proxy.Delivery.{contents-nil}
use uproxy.Proxy.Secure.{
  Secure, Flush, flush, let_block, WriteRound, tls_pending_error, write_secure,
}
use uproxy.Proxy.Server.{is_would_block}
use uproxy.Tls.Boring.{write}

-- The plaintext is a rest of `queued`, and nothing waits anywhere where the call succeeds.
pub record Written (queued : List ℕ) (r : Result (Unit {0})) (wbuf' : RingBuffer) (s' : Secure)
    : Type 0 where
  pub wbuf_valid : IsValid wbuf'
  pub pending_valid : IsValid s'.tls_pending
  pub rest : (n : ℕ) × (contents wbuf' ≡ drop n queued)
  pub whole : r ≡ ok tt → (contents wbuf' ≡ []) × (contents s'.tls_pending ≡ [])

abbrev Writes : List ℕ → Result (Unit {0}) × RingBuffer × Secure → Type 0
Writes queued (r, wbuf', s') = Written queued r wbuf' s'

-- A result that is no success.
abbrev IsFailure : Result (Unit {0}) → Type 0
IsFailure (ok u) = ⊥
IsFailure (err e) = Unit
IsFailure stuck = Unit

failed-Written :
    (r : Result (Unit {0})) (n : ℕ) (wbuf wbuf' : RingBuffer) (s' : Secure)
    → IsFailure r
    → IsValid wbuf'
    → IsValid s'.tls_pending
    → contents wbuf' ≡ drop n (contents wbuf)
    → Written (contents wbuf) r wbuf' s'
failed-Written (ok u) n wbuf wbuf' s' f v w q = absurd f
failed-Written (err e) n wbuf wbuf' s' f v w q = record {
  wbuf_valid = v;
  pending_valid = w;
  rest = (n, q);
  whole = λ h. cc;
}
failed-Written stuck n wbuf wbuf' s' f v w q = record {
  wbuf_valid = v;
  pending_valid = w;
  rest = (n, q);
  whole = λ h. cc;
}

let_block-IsFailure : (o : Outcome) (e : Error) → IsFailure (let_block o (err e))
let_block-IsFailure flushed e = tt
let_block-IsFailure blocked e = tt
let_block-IsFailure (broken x) e = tt
let_block-IsFailure dry e = tt

-- A flush keeps `tls_pending` valid, and leaves nothing in it where it succeeds.
flush-IsValid :
    (f : Flush) (s : Secure)
    → IsValid s.tls_pending
    → IsValid (flush f s).1.tls_pending × IsEmptied (flush f s).0 (flush f s).1.tls_pending
unfolding flush
flush-IsValid f s w =
    let c = flush_tls_ciphertext_lem f.takes s.tls_conn f.sends s.tls_pending w in
    (c.valid, c.emptied)

-- The flush behind the loop, when nothing is left to write.
last-Written :
    (o : Outcome) (wbuf : RingBuffer) (s' : Secure)
    → IsValid wbuf
    → contents wbuf ≡ []
    → IsValid s'.tls_pending × IsEmptied o s'.tls_pending
    → Written (contents wbuf) (as_result o) wbuf s'
last-Written flushed wbuf s' v empty (w, none_left) = record {
  wbuf_valid = v;
  pending_valid = w;
  rest = (0, refl);
  whole = λ h. (empty, none_left);
}
last-Written blocked wbuf s' v empty (w, e) = failed-Written _ 0 wbuf wbuf s' tt v w refl
last-Written (broken x) wbuf s' v empty (w, e) = failed-Written _ 0 wbuf wbuf s' tt v w refl
last-Written dry wbuf s' v empty (w, e) = failed-Written _ 0 wbuf wbuf s' tt v w refl

Written-later :
    (n : ℕ) (wbuf : RingBuffer) (x : Result (Unit {0}) × RingBuffer × Secure)
    → IsValid wbuf
    → Writes (contents (commit_read n wbuf)) x
    → Writes (contents wbuf) x
Written-later n wbuf x v w = record {
  wbuf_valid = w.wbuf_valid;
  pending_valid = w.pending_valid;
  rest = (
    n + w.rest.0,
    w.rest.1
        ∙ ap (drop w.rest.0) (contents-commit_read n wbuf v)
        ∙ drop-drop w.rest.0 n (contents wbuf),
  );
  whole = w.whole;
}

-- On valid buffers, whatever the library and the system answer: both buffers stay valid, what is
-- left to write is a rest of what was queued, and where `write_client_output` of a client with TLS
-- succeeds, neither plaintext nor ciphertext is left.
pub write_secure_lem :
    (rounds : List WriteRound) (last : Flush) (s : Secure) (wbuf : RingBuffer)
    → IsValid wbuf
    → IsValid s.tls_pending
    → let (r, wbuf', s') = write_secure rounds last s wbuf in Written (contents wbuf) r wbuf' s'
unfolding write_secure
write_secure_lem [] last s wbuf v w = elim (Bool-cases (readable wbuf == 0)) [
  | inl empty ↦ rw empty (
      last-Written (flush last s).0 wbuf (flush last s).1 v (contents-nil wbuf v empty)
        (flush-IsValid last s w))
  | inr some_bytes ↦ rw some_bytes (failed-Written stuck 0 wbuf wbuf s tt v w refl)
]
write_secure_lem (r ∷ rounds) last s wbuf v w = elim (Bool-cases (readable wbuf == 0)) [
  | inl empty ↦ rw empty (
      last-Written (flush last s).0 wbuf (flush last s).1 v (contents-nil wbuf v empty)
        (flush-IsValid last s w))
  | inr some_bytes ↦ rw some_bytes (
      by_written
        (λ n k.
          write_secure_lem rounds last (flush r.flushes s).1 (commit_read n wbuf)
            (commit_read-IsValid n wbuf v) k)
        (write r.written s.tls_conn))
]
  where
    o : Outcome
    o = (flush r.flushes s).0

    s1 : Secure
    s1 = (flush r.flushes s).1

    w1 : IsValid s1.tls_pending
    w1 = (flush-IsValid r.flushes s w).0

    Later : Type 0
    Later =
        (n : ℕ)
        → IsValid s1.tls_pending
        → Writes (contents (commit_read n wbuf)) (write_secure rounds last s1 (commit_read n wbuf))

    by_outcome :
        Later
        → (n : ℕ) (o : Outcome)
        → Writes (contents wbuf) (elim o as (λ _. Result (Unit {0}) × RingBuffer × Secure) [
          | flushed ↦ write_secure rounds last s1 (commit_read n wbuf)
          | blocked ↦ (as_result blocked, commit_read n wbuf, s1)
          | broken e ↦ (err e, commit_read n wbuf, s1)
          | dry ↦ (stuck, commit_read n wbuf, s1)
        ])
    by_outcome later n flushed = Written-later n wbuf _ v (later n w1)
    by_outcome later n blocked =
        failed-Written _ n wbuf (commit_read n wbuf) s1 tt (commit_read-IsValid n wbuf v) w1
          (contents-commit_read n wbuf v)
    by_outcome later n (broken e) =
        failed-Written _ n wbuf (commit_read n wbuf) s1 tt (commit_read-IsValid n wbuf v) w1
          (contents-commit_read n wbuf v)
    by_outcome later n dry =
        failed-Written _ n wbuf (commit_read n wbuf) s1 tt (commit_read-IsValid n wbuf v) w1
          (contents-commit_read n wbuf v)

    by_error :
        (e : Error) (again : Bool)
        → Writes
            (contents wbuf)
            (if again then (let_block o (err tls_pending_error), wbuf, s1) else (err e, wbuf, s))
    by_error e true =
        failed-Written _ 0 wbuf wbuf s1 (let_block-IsFailure o tls_pending_error) v w1 refl
    by_error e false = failed-Written _ 0 wbuf wbuf s tt v w refl

    by_written :
        Later
        → (x : Result ℕ)
        → Writes (contents wbuf) (elim x as (λ _. Result (Unit {0}) × RingBuffer × Secure) [
          | err e ↦
              if is_would_block e.code
              then (let_block o (err tls_pending_error), wbuf, s1)
              else (err e, wbuf, s)
          | stuck ↦ (stuck, wbuf, s)
          | ok n ↦ elim o as (λ _. Result (Unit {0}) × RingBuffer × Secure) [
            | flushed ↦ write_secure rounds last s1 (commit_read n wbuf)
            | blocked ↦ (as_result blocked, commit_read n wbuf, s1)
            | broken e ↦ (err e, commit_read n wbuf, s1)
            | dry ↦ (stuck, commit_read n wbuf, s1)
          ]
        ])
    by_written later (err e) = by_error e (is_would_block e.code)
    by_written later stuck = failed-Written stuck 0 wbuf wbuf s tt v w refl
    by_written later (ok n) = by_outcome later n o
