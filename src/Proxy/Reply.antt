-- ===== src/Proxy/Reply.antt =====
-- src/proxy.cpp: what `read_response` returns.
use mathlib.Core.List.{append_assoc}
use uproxy.Base.{
  ℕ, ◌+◌, ◌≤◌, ◌<◌, ◌≡◌, refl, sym, ap, ◌∙◌, ◌||◌, List, [], ◌∷◌, ◌++◌, none, some, leb, ◌==◌, ◌⊎◌,
  inl, inr, arith, Bool-cases, Option-cases, Result-cases, length, length-append, All, Result, ok,
  stuck,
}
use uproxy.Base.Holds.{Holds, Holds-ok, Holds-err, Holds-stuck, Holds-if}
use uproxy.Base.System.{Returned, eintr, eagain}
use uproxy.Buffer
use uproxy.Buffer.{RingBuffer, readable, peek, append}
use uproxy.Buffer.Fifo.{contents, IsValid, peek_whole, length-contents, make-IsValid, contents-make}
use uproxy.Buffer.Append.{append_lem}
use uproxy.Http1.Message.{HttpResponse}
use uproxy.Proxy.System.{Poll, wait_fd}
use uproxy.Proxy.Response.{
  max_proxy_response_bytes, response_complete, before_recv, after_recv, read_loop, read_response,
  empty_response,
}
use uproxy.Proxy.Receive.{delivered}

-- A call of `recv` returns no more than it was given room for.
abbrev pub IsChunk : Returned (List ℕ) → Type 0
IsChunk r = (bytes : List ℕ) → r.value ≡ some bytes → length bytes ≤ 16384

-- A beginning of `sent`, not much longer than the limit.
abbrev pub IsReply : List ℕ → List ℕ → Type 0
IsReply sent bytes =
    ((later : List ℕ) × (bytes ++ later ≡ sent)) × (length bytes < max_proxy_response_bytes + 16384)

-- The buffer in the loop: what is in it begins what is to come of `sent`.
record Reading (sent : List ℕ) (response : RingBuffer) (left : List ℕ) : Type 0 where
  pub valid : IsValid response
  pub split : contents response ++ left ≡ sent
  pub size : readable response < max_proxy_response_bytes + 16384

whole-IsReply :
    {sent left : List ℕ} (response : RingBuffer)
    → Reading sent response left
    → Holds (IsReply sent) (ok (peek (readable response) response))
whole-IsReply response r =
    rw (peek_whole response r.valid)
      (Holds-ok ((_, r.split), omega (arith, r.size, length-contents response r.valid)))

-- What holds of either side.
abbrev pub Either {ℓ κ} : {A : Type ℓ} {B : Type κ} → (A → Type 0) → (B → Type 0) → A ⊎ B → Type 0
Either P Q (inl a) = P a
Either P Q (inr b) = Q b

Holds-Either {ℓ} :
    {B : Type ℓ} {P : List ℕ → Type 0} (Q : B → Type 0) (s : Result (List ℕ) ⊎ B)
    (k : B → Result (List ℕ))
    → Either (Holds P) Q s
    → ((b : B) → Q b → Holds P (k b))
    → Holds P (elim s [ inl out ↦ out | inr b ↦ k b ])
Holds-Either Q (inl out) k h f = h
Holds-Either Q (inr b) k h f = f b h

before_recv-IsReply :
    {sent left : List ℕ} (response : RingBuffer) (parsed : HttpResponse) (polls : List Poll)
    → Reading sent response left
    → Either
        (Holds (IsReply sent))
        (λ _. readable response < max_proxy_response_bytes)
        (before_recv response parsed polls)
unfolding before_recv
before_recv-IsReply response parsed polls r =
    elim (Bool-cases (leb max_proxy_response_bytes (readable response))) [
      | inl large ↦ rw large Holds-err
      | inr small ↦ elim (Result-cases (wait_fd "read upstream" polls).0) [
        | inl (u, e) ↦ rw small (rw e (ground (arith, small)))
        | inr (inl (x, e)) ↦ rw small (rw e (Holds-if _ (whole-IsReply response r) Holds-err))
        | inr (inr e) ↦ rw small (rw e Holds-stuck)
      ]
    ]

-- What a call of `recv` adds to `left`.
abbrev added : Returned (List ℕ) → List ℕ → List ℕ
added r left = elim r.value [ none ↦ left | some bytes ↦ bytes ++ left ]

after_recv-IsReply :
    (sent left : List ℕ) (r : Returned (List ℕ)) (response : RingBuffer)
    → IsChunk r
    → readable response < max_proxy_response_bytes
    → Reading sent response (added r left)
    → Either
        (Holds (IsReply sent))
        (λ response'. Reading sent response' left)
        (after_recv r response)
unfolding after_recv
after_recv-IsReply sent left r response chunk small reading = elim (Option-cases r.value) [
  | inl nothing ↦
      let same : added r left ≡ left = rw nothing refl in
      elim (Bool-cases (r.errno == eagain || r.errno == eintr)) [
        | inl again ↦ rw nothing (
            rw again (record {
              valid = reading.valid;
              split = ap (◌++◌ (contents response)) (sym same) ∙ reading.split;
              size = reading.size;
            }))
        | inr error ↦ rw nothing (rw error Holds-err)
      ]
  | inr ([], e) ↦ rw e (whole-IsReply response reading)
  | inr (b ∷ bytes, e) ↦
      let (response', appended, v', q) = append_lem (b ∷ bytes) response reading.valid in
      let same : added r left ≡ (b ∷ bytes) ++ left = rw e refl in
      rw (after_recv, e)
        (rw (append, appended)
          (record {
            valid = v';
            split =
                ap (λ c. c ++ left) q
                ∙ append_assoc (contents response) (b ∷ bytes) left
                ∙ ap (◌++◌ (contents response)) (sym same)
                ∙ reading.split;
            size = omega (
              arith,
              small,
              chunk (b ∷ bytes) e,
              length-contents response' v',
              ap length q,
              length-append (contents response) (b ∷ bytes),
              length-contents response reading.valid,
            );
          }))
]

read_loop-IsReply :
    (sent : List ℕ) (recvs : List (Returned (List ℕ))) (polls : List Poll) (response : RingBuffer)
    (parsed : HttpResponse)
    → All IsChunk recvs
    → Reading sent response (delivered recvs)
    → Holds (IsReply sent) (read_loop recvs polls response parsed)
unfolding read_loop
read_loop-IsReply sent [] polls response parsed chunks r =
    Holds-if (response_complete response parsed).0 (whole-IsReply response r) (
      Holds-Either _ (before_recv response (response_complete response parsed).1 polls) (λ _. stuck)
        (before_recv-IsReply response (response_complete response parsed).1 polls r)
        (λ _ small. Holds-stuck))
read_loop-IsReply sent (c ∷ recvs) polls response parsed chunks r =
    let parsed' = (response_complete response parsed).1 in
    Holds-if (response_complete response parsed).0 (whole-IsReply response r) (
      Holds-Either _ (before_recv response parsed' polls) _
        (before_recv-IsReply response parsed' polls r)
        (λ polls' small.
          Holds-Either _ (after_recv c response)
            (λ response'. read_loop recvs polls' response' parsed')
            (after_recv-IsReply sent (delivered recvs) c response chunks.0 small r)
            (λ response' r'. read_loop-IsReply sent recvs polls' response' parsed' chunks.1 r')))

-- Where no call of `recv` returns more than it has room for, the bytes that `read_response`
-- returns are a beginning of what the upstream sent, and fewer than the limit and one such room
-- together.
pub read_response-IsReply :
    (recvs : List (Returned (List ℕ))) (polls : List Poll)
    → All IsChunk recvs
    → Holds (IsReply (delivered recvs)) (read_response recvs polls)
unfolding read_response
read_response-IsReply recvs polls chunks =
    read_loop-IsReply (delivered recvs) recvs polls (Buffer.make 65536) empty_response chunks
      (record {
        valid = make-IsValid 65536;
        split = ap (λ c. c ++ delivered recvs) (contents-make 65536);
        size = omega (
          arith,
          length-contents (Buffer.make 65536) (make-IsValid 65536),
          ap length (contents-make 65536),
        );
      })
