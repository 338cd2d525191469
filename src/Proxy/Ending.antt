-- ===== src/Proxy/Ending.antt =====
-- src/proxy.cpp: `read_response` returns.
use mathlib.Core.Path.{subst}
use uproxy.Base.{
  ℕ, ◌≤◌, ◌≡◌, ◌≢◌, refl, sym, ap, Bool, true, false, ◌||◌, List, [], ◌∷◌, some, leb, ◌==◌, ◌⊎◌,
  inl, inr, if◌then◌else◌, arith, Bool-cases, Option-cases, length, All, Result, stuck,
}
use uproxy.Base.System.{Returned, eintr, eagain}
use uproxy.Buffer
use uproxy.Buffer.{RingBuffer, readable, peek, append}
use uproxy.Buffer.Fifo.{IsValid, make-IsValid}
use uproxy.Buffer.Append.{append_lem}
use uproxy.Http1.Message.{HttpResponse}
use uproxy.Proxy.System.{Poll, ready, wait_fd}
use uproxy.Proxy.Response.{
  max_proxy_response_bytes, response_complete, before_recv, after_recv, read_loop, read_response,
  empty_response,
}
use uproxy.Proxy.Reply.{Either}

-- The descriptor is readable.
abbrev pub IsReadable : Poll → Type 0
IsReadable p = (trouble : Bool) × (p ≡ ready trouble true)

-- One of the answers is the end of the stream.
abbrev pub HasEnd : List (Returned (List ℕ)) → Type 0
HasEnd [] = ⊥
HasEnd (r ∷ recvs) = (r.value ≡ some []) ⊎ HasEnd recvs

Settled-if :
    (test : Bool) {r s : Result (List ℕ)} → r ≢ stuck → s ≢ stuck → (if test then r else s) ≢ stuck
Settled-if true p q = p
Settled-if false p q = q

Settled-Either {ℓ} :
    {B : Type ℓ} (Q : B → Type 0) (s : Result (List ℕ) ⊎ B) (k : B → Result (List ℕ))
    → Either (λ r. r ≢ stuck) Q s
    → ((b : B) → Q b → k b ≢ stuck)
    → (elim s as (λ _. Result (List ℕ)) [ inl out ↦ out | inr b ↦ k b ]) ≢ stuck
Settled-Either Q (inl out) k h f = h
Settled-Either Q (inr b) k h f = f b h

before_recv-readable :
    (response : RingBuffer) (parsed : HttpResponse) (trouble : Bool) (polls : List Poll)
    → Either
        (λ r. r ≢ stuck)
        (λ polls'. polls' ≡ polls)
        (before_recv response parsed (ready trouble true ∷ polls))
unfolding before_recv wait_fd
before_recv-readable response parsed true polls =
    elim (Bool-cases (leb max_proxy_response_bytes (readable response))) [
      | inl large ↦ rw (before_recv, large) (λ e. cc)
      | inr small ↦ rw (before_recv, small) refl
    ]
before_recv-readable response parsed false polls =
    elim (Bool-cases (leb max_proxy_response_bytes (readable response))) [
      | inl large ↦ rw (before_recv, large) (λ e. cc)
      | inr small ↦ rw (before_recv, small) refl
    ]

after_recv-goes_on :
    (r : Returned (List ℕ)) (response : RingBuffer)
    → IsValid response
    → Either
        (λ out. out ≢ stuck)
        (λ response'. IsValid response' × (r.value ≢ some []))
        (after_recv r response)
unfolding after_recv
after_recv-goes_on r response v = elim (Option-cases r.value) [
  | inl nothing ↦ elim (Bool-cases (r.errno == eagain || r.errno == eintr)) [
    | inl again ↦ rw (after_recv, nothing) (rw again (v, λ e. cc))
    | inr error ↦ rw (after_recv, nothing) (rw error (λ e. cc))
  ]
  | inr ([], e) ↦ rw (after_recv, e) (λ h. cc)
  | inr (b ∷ bytes, e) ↦
      let (response', appended, v', q) = append_lem (b ∷ bytes) response v in
      rw (after_recv, e) (rw (append, appended) (v', λ h. cc))
]

read_loop_ends :
    (recvs : List (Returned (List ℕ))) (polls : List Poll) (response : RingBuffer)
    (parsed : HttpResponse)
    → IsValid response
    → All IsReadable polls
    → length recvs ≤ length polls
    → HasEnd recvs
    → read_loop recvs polls response parsed ≢ stuck
unfolding read_loop
read_loop_ends [] polls response parsed v at_ready enough end = absurd end
read_loop_ends (r ∷ recvs) [] response parsed v at_ready enough end = absurd (omega arith)
read_loop_ends (r ∷ recvs) (p ∷ polls) response parsed v at_ready enough end =
    let parsed' = (response_complete response parsed).1 in
    let (trouble, e) = at_ready.0 in
    Settled-if (response_complete response parsed).0 (λ e. cc)
      (Settled-Either (λ polls'. polls' ≡ polls) (before_recv response parsed' (p ∷ polls)) _
        (subst
          (λ q.
            Either (λ r. r ≢ stuck) (λ polls'. polls' ≡ polls)
              (before_recv response parsed' (q ∷ polls)))
          (sym e) (before_recv-readable response parsed' trouble polls))
        (λ polls' same.
          Settled-Either (λ response'. IsValid response' × (r.value ≢ some []))
            (after_recv r response) (λ response'. read_loop recvs polls' response' parsed')
            (after_recv-goes_on r response v)
            (λ response' h.
              read_loop_ends recvs polls' response' parsed' h.0
                (subst (All IsReadable) (sym same) at_ready.1) (omega (arith, ap length same))
                (elim end [ inl last ↦ absurd (h.1 last) | inr later ↦ later ]))))

-- Where each answer of `poll` reports the descriptor as readable, there are no fewer of them than
-- answers of `recv`, and one answer of `recv` is the end of the stream, `read_response` returns.
pub read_response_ends :
    (recvs : List (Returned (List ℕ))) (polls : List Poll)
    → All IsReadable polls
    → length recvs ≤ length polls
    → HasEnd recvs
    → read_response recvs polls ≢ stuck
unfolding read_response
read_response_ends recvs polls ready_polls enough end =
    read_loop_ends recvs polls (Buffer.make 65536) empty_response (make-IsValid 65536) ready_polls
      enough end
