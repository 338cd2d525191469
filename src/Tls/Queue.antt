-- ===== src/Tls/Queue.antt =====
-- src/tls.cpp: a connection of the build without BoringSSL is two queues of bytes.
use mathlib.Core.List.{append_assoc, append-nil}
use uproxy.Base.{
  ℕ, ◌≡◌, refl, sym, ap, ◌∙◌, true, List, [], ◌∷◌, ◌++◌, inl, inr, Bool-cases, ◌==◌, length, take,
  drop, min, take-append-drop, Result, ok, err, stuck,
}
use uproxy.Tls.Fallback.{TlsConn, feed_encrypted, take_encrypted, read, write}

-- A call of one of the four operations on bytes.
pub data Call : Type 0 where
  feeds writes : List ℕ → Call
  reads takes : ℕ → Call

-- The bytes that calls hand over, and those that a call gives.
abbrev pub fed_by : List Call → List ℕ
fed_by [] = []
fed_by (feeds bytes ∷ ks) = bytes ++ fed_by ks
fed_by (writes bytes ∷ ks) = fed_by ks
fed_by (reads room ∷ ks) = fed_by ks
fed_by (takes room ∷ ks) = fed_by ks

abbrev pub written_by : List Call → List ℕ
written_by [] = []
written_by (feeds bytes ∷ ks) = written_by ks
written_by (writes bytes ∷ ks) = bytes ++ written_by ks
written_by (reads room ∷ ks) = written_by ks
written_by (takes room ∷ ks) = written_by ks

abbrev given : Result (List ℕ) → List ℕ
given (ok bytes) = bytes
given (err e) = []
given stuck = []

-- What `read` and `take_encrypted` gave, and the connection behind the calls.
unfoldable pub calls : List Call → TlsConn → List ℕ × List ℕ × TlsConn
unfolding feed_encrypted write read take_encrypted
calls [] c = ([], [], c)
calls (feeds bytes ∷ ks) c = calls ks (feed_encrypted bytes c).1
calls (writes bytes ∷ ks) c = calls ks (write bytes c).1
calls (reads room ∷ ks) c =
    let (r, c') = read room c in let (got, taken, c'') = calls ks c' in (given r ++ got, taken, c'')
calls (takes room ∷ ks) c =
    let (r, c') = take_encrypted room c in
    let (got, taken, c'') = calls ks c' in (got, given r ++ taken, c'')

-- Nothing is lost, added or reordered on the way through a queue.
abbrev pub Passes : List Call → TlsConn → List ℕ × List ℕ × TlsConn → Type 0
Passes ks c (got, taken, c') =
    (got ++ c'.inbound ≡ c.inbound ++ fed_by ks)
    × (taken ++ c'.outbound ≡ c.outbound ++ written_by ks)

-- A part of a queue is given, and more is given of the rest.
gives_on :
    (part rest more left : List ℕ) {q : List ℕ} (later : List ℕ)
    → part ++ rest ≡ q
    → more ++ left ≡ rest ++ later
    → (part ++ more) ++ left ≡ q ++ later
gives_on part rest more left later e f =
    append_assoc part more left
    ∙ ap (◌++◌ part) f
    ∙ sym (append_assoc part rest later)
    ∙ ap (λ xs. xs ++ later) e

-- A `read` behind the handshake takes the front off the queue, and changes nothing else.
read_lem :
    (room : ℕ) (c : TlsConn)
    → c.handshake_done ≡ true
    → let (r, c') = read room c in
      (given r ++ c'.inbound ≡ c.inbound) × (c'.outbound ≡ c.outbound) × (c'.handshake_done ≡ true)
unfolding read
read_lem room c going = elim (Bool-cases (min room (length c.inbound) == 0)) [
  | inl empty ↦ rw (read, going, empty) (refl, refl, refl)
  | inr full ↦
      rw (read, going, full) (take-append-drop (min room (length c.inbound)) c.inbound, refl, refl)
]

write_lem :
    (bytes : List ℕ) (c : TlsConn)
    → c.handshake_done ≡ true
    → let c' = (write bytes c).1 in
      (c'.outbound ≡ c.outbound ++ bytes) × (c'.inbound ≡ c.inbound) × (c'.handshake_done ≡ true)
unfolding write
write_lem bytes c going = rw (write, going) (refl, refl, refl)

-- On a connection behind its handshake, through any calls of `feed_encrypted`, `read`, `write` and
-- `take_encrypted`: the bytes that `read` gave and then those still queued are those that were
-- queued before and then all that were fed; and so for the bytes that `take_encrypted` gave and
-- those that were written.
pub calls-Passes :
    (ks : List Call) (c : TlsConn) → c.handshake_done ≡ true → Passes ks c (calls ks c)
unfolding calls
calls-Passes [] c going = (sym (append-nil c.inbound), sym (append-nil c.outbound))
calls-Passes (feeds bytes ∷ ks) c going =
    let rest = calls-Passes ks (feed_encrypted bytes c).1 going in
    (rest.0 ∙ append_assoc c.inbound bytes (fed_by ks), rest.1)
calls-Passes (writes bytes ∷ ks) c going =
    let (queued, kept, going') = write_lem bytes c going in
    let rest = calls-Passes ks (write bytes c).1 going' in
    (
      rest.0 ∙ ap (λ xs. xs ++ fed_by ks) kept,
      rest.1
          ∙ ap (λ xs. xs ++ written_by ks) queued
          ∙ append_assoc c.outbound bytes (written_by ks),
    )
calls-Passes (takes room ∷ ks) c going =
    let c' : TlsConn = (take_encrypted room c).1 in
    let n = min room (length c.outbound) in
    let rest = calls-Passes ks c' going in
    (
      rest.0,
      gives_on (take n c.outbound) (drop n c.outbound) (calls ks c').1 (calls ks c').2.outbound
          (written_by ks) (take-append-drop n c.outbound) rest.1,
    )
calls-Passes (reads room ∷ ks) c going =
    let (r, c') = read room c in
    let (front, out, going') = read_lem room c going in
    let rest = calls-Passes ks c' going' in
    (
      gives_on (given r) c'.inbound (calls ks c').0 (calls ks c').2.inbound (fed_by ks) front
          rest.0,
      rest.1 ∙ ap (λ xs. xs ++ written_by ks) out,
    )
