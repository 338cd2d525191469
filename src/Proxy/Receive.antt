-- ===== src/Proxy/Receive.antt =====
-- src/proxy.cpp: what `read_client_input` and `read_response` receive.
use mathlib.Core.List.{append-nil, append_assoc}
use uproxy.Base.{
  ℕ, ◌≡◌, refl, sym, ap, ◌∙◌, Bool, true, false, List, [], ◌∷◌, ◌++◌, none, some, ◌==◌, inl, inr,
  Bool-cases, Option-cases, if◌then◌else◌, Result, ok, err, stuck, from_errno,
}
use uproxy.Base.System.{Returned, eintr, eagain}
use uproxy.Buffer.{RingBuffer}
use uproxy.Buffer.Fifo.{contents, IsValid}
use uproxy.Buffer.Append.{append_lem}
use uproxy.Proxy.Client.{read_client_input}

-- The bytes of all answers of `recv`.
abbrev pub delivered : List (Returned (List ℕ)) → List ℕ
delivered [] = []
delivered (r ∷ recvs) = elim r.value [
  | none ↦ delivered recvs
  | some bytes ↦ bytes ++ delivered recvs
]

-- The bytes that come before the first answer that ends the loop: neither bytes nor `EINTR`.
abbrev pub arrived : List (Returned (List ℕ)) → List ℕ
arrived [] = []
arrived (r ∷ recvs) =
    let later = arrived recvs in
    elim r.value [
      | none ↦ if r.errno == eintr then later else []
      | some [] ↦ []
      | some (b ∷ bytes) ↦ (b ∷ bytes) ++ later
    ]

-- What that answer means: the end of the stream, nothing more for now, or an error.
abbrev pub outcome : List (Returned (List ℕ)) → Result Bool
outcome [] = stuck
outcome (r ∷ recvs) =
    let later = outcome recvs in
    elim r.value [
      | none ↦
          if r.errno == eintr
          then later
          else if r.errno == eagain
          then ok false
          else err (from_errno r.errno "read client")
      | some [] ↦ ok true
      | some (b ∷ bytes) ↦ later
    ]

-- What `read_client_input` makes of a read buffer, from those two.
abbrev pub Received : RingBuffer → List ℕ → Result Bool → Result Bool × RingBuffer → Type 0
Received rbuf bytes ending (r, rbuf') =
    (r ≡ ending) × IsValid rbuf' × (contents rbuf' ≡ contents rbuf ++ bytes)

Received-nothing :
    (rbuf : RingBuffer) (r : Result Bool) → IsValid rbuf → Received rbuf [] r (r, rbuf)
Received-nothing rbuf r v = (refl, v, sym (append-nil (contents rbuf)))

Received-behind :
    (rbuf rbuf' : RingBuffer) (bytes more : List ℕ) (ending : Result Bool)
    (x : Result Bool × RingBuffer)
    → contents rbuf' ≡ contents rbuf ++ bytes
    → Received rbuf' more ending x
    → Received rbuf (bytes ++ more) ending x
Received-behind rbuf rbuf' bytes more ending (r, rbuf'') q (e, v, all) =
    (e, v, all ∙ ap (λ c. c ++ more) q ∙ append_assoc (contents rbuf) bytes more)

-- On a valid read buffer `read_client_input` puts all bytes that `recv` gives before it first gives
-- none, calls interrupted by a signal not counted, behind what is queued, in order, and leaves the
-- buffer valid. Its result is what that last answer means: the end of the stream, nothing more for
-- now, or the error of the system; it is stuck only if no answer ends the loop.
pub read_client_input_lem :
    (recvs : List (Returned (List ℕ))) (rbuf : RingBuffer)
    → IsValid rbuf
    → Received rbuf (arrived recvs) (outcome recvs) (read_client_input recvs rbuf)
unfolding read_client_input
read_client_input_lem [] rbuf v = Received-nothing rbuf stuck v
read_client_input_lem (r ∷ recvs) rbuf v = elim (Option-cases r.value) [
  | inl nothing ↦ elim (Bool-cases (r.errno == eintr)) [
    | inl again ↦ rw nothing (rw again (read_client_input_lem recvs rbuf v))
    | inr other ↦ elim (Bool-cases (r.errno == eagain)) [
      | inl drained ↦ rw nothing (rw other (rw drained (Received-nothing rbuf (ok false) v)))
      | inr error ↦ rw nothing (rw other (rw error (Received-nothing rbuf _ v)))
    ]
  ]
  | inr ([], e) ↦ rw e (Received-nothing rbuf (ok true) v)
  | inr (b ∷ bytes, e) ↦
      let (rbuf', appended, v', q) = append_lem (b ∷ bytes) rbuf v in
      rw e (
        rw (read_client_input, appended)
          (Received-behind rbuf rbuf' (b ∷ bytes) (arrived recvs) (outcome recvs) _ q
            (read_client_input_lem recvs rbuf' v')))
]
