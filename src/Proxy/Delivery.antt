-- ===== src/Proxy/Delivery.antt =====
-- src/proxy.cpp: what `write_all` and `write_client_output` deliver.
use mathlib.Core.List.{append_assoc}
use uproxy.Base.{
  ℕ, suc, ◌≤◌, ◌≡◌, refl, sym, ap, ◌∙◌, true, false, List, [], ◌∷◌, ◌++◌, none, some, ◌==◌, ◌⊎◌,
  inl, inr, if◌then◌else◌, arith, Bool-cases, Option-cases, Result-cases, length, take, drop,
  take-append-drop, length-drop, All, Result, ok, err, Error,
}
use uproxy.Base.System.{Returned, eintr, eagain}
use uproxy.Buffer.{RingBuffer, readable, peek, commit_read}
use uproxy.Buffer.Fifo.{
  contents, IsValid, peek_whole, contents-commit_read, commit_read-IsValid, length-contents,
}
use uproxy.Proxy.System.{Poll}
use uproxy.Proxy.Send.{after_failure, write_all}
use uproxy.Proxy.Client.{write_client_output}

-- How many of the answers of `send` took a byte.
abbrev pub progress : List (Returned ℕ) → ℕ
progress [] = 0
progress (s ∷ sends) = elim s.value [
  | none ↦ progress sends
  | some n ↦ if n == 0 then progress sends else suc (progress sends)
]

-- Answers that end no loop: some bytes are taken, or a signal has interrupted the call.
abbrev pub IsFair : Returned ℕ → Type 0
IsFair s = ((n : ℕ) × (s.value ≡ some (suc n))) ⊎ ((s.value ≡ none) × (s.errno ≡ eintr))

interrupted : (polls : List Poll) → after_failure eintr polls ≡ (ok tt, polls)
unfolding after_failure
interrupted polls = refl

-- Where each call of `send` takes some bytes or is interrupted by a signal, `write_all` succeeds
-- and all bytes are taken in their order, if there are as many calls that take some as there are
-- bytes.
pub write_all_ends :
    (sends : List (Returned ℕ)) (polls : List Poll) (bytes : List ℕ)
    → All IsFair sends
    → length bytes ≤ progress sends
    → write_all sends polls bytes ≡ (ok tt, bytes)
unfolding write_all
write_all_ends sends polls [] fair h = refl
write_all_ends [] polls (b ∷ bytes) fair h = absurd (omega arith)
write_all_ends (s ∷ sends) polls (b ∷ bytes) fair h = elim fair.0 [
  | inl (n, e) ↦
      let some_taken : (suc n == 0) ≡ false = ground arith in
      let more : progress (s ∷ sends) ≡ suc (progress sends) = rw e (rw some_taken refl) in
      let left : length (drop n bytes) ≤ progress sends =
        omega (arith, more, length-drop n bytes) in
      rw e (
        rw some_taken (
          rw (write_all_ends sends polls (drop n bytes) fair.1 left)
            (ap (λ x. (ok tt, b ∷ x)) (take-append-drop n bytes))))
  | inr (e, i) ↦
      let same : progress (s ∷ sends) ≡ progress sends = rw e refl in
      let again = ap (λ k. after_failure k polls) i ∙ interrupted polls in
      rw e
        (rw again (rw again (write_all_ends sends polls (b ∷ bytes) fair.1 (omega (arith, same)))))
]

-- Whatever `send` and `poll` answer, what `send` has taken is a beginning of the bytes, and all of
-- them where `write_all` succeeds.
write_all_prefix :
    (sends : List (Returned ℕ)) (polls : List Poll) (bytes : List ℕ)
    → (rest : List ℕ) × (bytes ≡ (write_all sends polls bytes).1 ++ rest)
      × ((write_all sends polls bytes).0 ≡ ok tt → rest ≡ [])
unfolding write_all
write_all_prefix sends polls [] = ([], refl, λ e. refl)
write_all_prefix [] polls (b ∷ bytes) = (b ∷ bytes, refl, λ e. cc)
write_all_prefix (s ∷ sends) polls (b ∷ bytes) = elim (Option-cases s.value) [
  | inl nothing ↦
      let (waited, polls') = after_failure s.errno polls in
      elim (Result-cases waited) [
        | inl (u, e) ↦ rw (write_all, nothing) (rw e (write_all_prefix sends polls' (b ∷ bytes)))
        | inr (inl (x, e)) ↦ rw (write_all, nothing) (rw e (b ∷ bytes, refl, λ e. cc))
        | inr (inr e) ↦ rw (write_all, nothing) (rw e (b ∷ bytes, refl, λ e. cc))
      ]
  | inr (n, e) ↦ elim (Bool-cases (n == 0)) [
    | inl nothing ↦ rw e (rw nothing (b ∷ bytes, refl, λ e. cc))
    | inr something ↦
        let (rest, split, whole) = write_all_prefix sends polls (drop n (b ∷ bytes)) in
        rw e (
          rw something (
            rest,
            sym (take-append-drop n (b ∷ bytes))
                ∙ ap (◌++◌ (take n (b ∷ bytes))) split
                ∙ sym (append_assoc (take n (b ∷ bytes)) _ rest),
            whole,
          ))
  ]
]

pub length-nil {ℓ} : {A : Type ℓ} (xs : List A) → length xs ≡ 0 → xs ≡ []
length-nil [] h = refl
length-nil (x ∷ xs) h = absurd (omega arith)

-- What is left of a write buffer behind `write_client_output`.
pub record Flushed (wbuf : RingBuffer) (w : Result (Unit {0}) × RingBuffer × List ℕ) : Type 0 where
  pub valid : IsValid w.1
  pub split : w.2 ++ contents w.1 ≡ contents wbuf
  pub whole : w.0 ≡ ok tt → contents w.1 ≡ []

pub contents-nil : (b : RingBuffer) → IsValid b → (readable b == 0) ≡ true → contents b ≡ []
contents-nil b v h = length-nil (contents b) (ground (arith, length-contents b v, h))

Flushed-kept : (wbuf : RingBuffer) (e : Error) → IsValid wbuf → Flushed wbuf (err e, wbuf, [])
Flushed-kept wbuf e v = record { valid = v; split = refl; whole = λ h. cc }

Flushed-taken :
    (n : ℕ) (wbuf : RingBuffer) (w : Result (Unit {0}) × RingBuffer × List ℕ)
    → IsValid wbuf
    → Flushed (commit_read n wbuf) w
    → Flushed wbuf (w.0, w.1, take n (peek (readable wbuf) wbuf) ++ w.2)
Flushed-taken n wbuf w v f = record {
  valid = f.valid;
  split =
      append_assoc (take n (peek (readable wbuf) wbuf)) w.2 (contents w.1)
      ∙ ap (◌++◌ (take n (peek (readable wbuf) wbuf))) (f.split ∙ contents-commit_read n wbuf v)
      ∙ ap (λ c. take n c ++ drop n (contents wbuf)) (peek_whole wbuf v)
      ∙ take-append-drop n (contents wbuf);
  whole = f.whole;
}

-- On a valid write buffer, what `send` has taken and what is left queued are together what was
-- queued, the buffer stays valid, and nothing is left where `write_client_output` succeeds.
pub write_client_output_lem :
    (sends : List (Returned ℕ)) (wbuf : RingBuffer)
    → IsValid wbuf
    → Flushed wbuf (write_client_output sends wbuf)
unfolding write_client_output
write_client_output_lem [] wbuf v = elim (Bool-cases (readable wbuf == 0)) [
  | inl empty ↦
      rw empty (record { valid = v; split = refl; whole = λ h. contents-nil wbuf v empty })
  | inr full ↦ rw full (record { valid = v; split = refl; whole = λ h. cc })
]
write_client_output_lem (s ∷ sends) wbuf v = elim (Bool-cases (readable wbuf == 0)) [
  | inl empty ↦
      rw empty (record { valid = v; split = refl; whole = λ h. contents-nil wbuf v empty })
  | inr full ↦ elim (Option-cases s.value) [
    | inl nothing ↦ elim (Bool-cases (s.errno == eintr)) [
      | inl again ↦ rw full (rw nothing (rw again (write_client_output_lem sends wbuf v)))
      | inr other ↦ elim (Bool-cases (s.errno == eagain)) [
        | inl later ↦ rw full (rw nothing (rw other (rw later (Flushed-kept wbuf _ v))))
        | inr error ↦ rw full (rw nothing (rw other (rw error (Flushed-kept wbuf _ v))))
      ]
    ]
    | inr (n, e) ↦ elim (Bool-cases (n == 0)) [
      | inl zero_sent ↦ rw full (rw e (rw zero_sent (Flushed-kept wbuf _ v)))
      | inr some_sent ↦ rw full (
          rw e (
            rw some_sent (
              Flushed-taken n wbuf (write_client_output sends (commit_read n wbuf)) v (
                write_client_output_lem sends (commit_read n wbuf)
                  (commit_read-IsValid n wbuf v)))))
    ]
  ]
]
