-- ===== src/Buffer/Append.antt =====
-- src/buffer.cpp: `ensure_writable` and `append` never fail, and extend the queue.
use mathlib.Core.List.{append-nil, append_assoc}
use uproxy.Base.{
  ℕ, zero, suc, ◌+◌, ◌-◌, ◌*◌, ◌%◌, ◌≤◌, ◌<◌, min, max, ◌≡◌, refl, sym, ap, ap₂, ◌∙◌, inl, List, [],
  ◌∷◌, ◌++◌, arith, length, take, drop, replicate, length-take, length-drop, length-replicate,
  take_all, drop_all, take-append-drop, dec_lt, leb, ◌==◌, if◌then◌else◌, Result, ok, fail_if,
  from_code, config_invalid, ◌>>=◌, false, true,
}
use uproxy.Buffer.{
  RingBuffer, capacity, writable, Segment, write_iovecs, commit_write, peek, store, ensure_writable,
  fill, append_loop, append,
}
use uproxy.Buffer.Fifo.{contents, IsValid, length-contents, peek-eq-take, put, put-Written}
use uproxy.Buffer.Window.{turn_whole, window, length-store, window-store_straight}

-- The chunk that goes to a segment at the write position.
fill_cons :
    (n : ℕ) (s : Segment) (ss : List Segment) (l : List ℕ) (b : RingBuffer)
    → 0 < length l
    → min s.len (length l) ≡ n
    → s.base ≡ b.write_pos
    → fill (s ∷ ss) l b ≡ fill ss (drop n l) (put n (take n l) b)
unfolding fill put
fill_cons n s ss [] b h e₁ e₂ = absurd (omega arith)
fill_cons n s ss (x ∷ xs) b h e₁ e₂ =
    ap₂
      (λ k a.
        fill ss (drop k (x ∷ xs))
          (commit_write k (record b { bytes = store b.bytes a (take k (x ∷ xs)) })))
      e₁ e₂

-- A segment that holds everything takes everything, and the segments behind it nothing.
fill_done :
    (s : Segment) (ss : List Segment) (l : List ℕ) (b : RingBuffer)
    → 0 < length l
    → length l ≤ s.len
    → s.base ≡ b.write_pos
    → fill (s ∷ ss) l b ≡ ([], put (length l) l b)
fill_done s ss l b h₀ h e =
    fill_cons (length l) s ss l b h₀ (omega arith) e
    ∙ ap₂ (λ r t. fill ss r (put (length l) t b)) (drop_all (length l) l (omega arith))
        (take_all (length l) l (omega arith))
    ∙ fill-nil ss (put (length l) l b)
  where
    fill-nil : (ss : List Segment) (b : RingBuffer) → fill ss [] b ≡ ([], b)
    fill-nil [] b = unfold fill in refl
    fill-nil (s ∷ ss) b = unfold fill in refl

write_iovecs_straight :
    (b : RingBuffer)
    → 0 < writable b
    → writable b ≤ capacity b - b.write_pos
    → write_iovecs b ≡ record { base = b.write_pos; len = writable b } ∷ []
unfolding write_iovecs
write_iovecs_straight b h₀ h = ground arith

write_iovecs_round :
    (b : RingBuffer)
    → capacity b - b.write_pos < writable b
    → write_iovecs b
      ≡ record { base = b.write_pos; len = capacity b - b.write_pos }
        ∷ record { base = 0; len = writable b - (capacity b - b.write_pos) }
        ∷ []
unfolding write_iovecs
write_iovecs_round b h = ground arith

-- One round of the segments takes all of the data, where there is room for it.
Filled : List ℕ → RingBuffer → List ℕ × RingBuffer → Type 0
Filled l b (rest, b') = (rest ≡ []) × IsValid b' × (contents b' ≡ contents b ++ l)

Filled-put :
    (l : List ℕ) (b : RingBuffer)
    → IsValid b
    → 0 < length l
    → length l ≤ writable b
    → b.write_pos + length l ≤ capacity b
    → Filled l b ([], put (length l) l b)
unfolding Filled
Filled-put l b v h₀ h h₁ =
    let w = put-Written (length l) l b v refl h h₁ h₀ in (refl, w.valid, w.queue)

-- The data goes round: what fits behind the write position, then the rest at the front.
fill_round :
    (n : ℕ) (l : List ℕ) (b : RingBuffer)
    → IsValid b
    → b.write_pos + n ≡ capacity b
    → 0 < n
    → n < length l
    → length l ≤ writable b
    → Filled l b (
        fill
          (record { base = b.write_pos; len = n } ∷ record { base = 0; len = writable b - n } ∷ [])
          l
          b)
unfolding Filled
fill_round n l b v e h₀ h₁ h₂ =
    let c₁ = take n l in
    let c₂ = drop n l in
    let len₁ : length c₁ ≡ n = omega (arith, length-take n l) in
    let w₁ = put-Written n c₁ b v len₁ (omega arith) (omega arith) h₀ in
    let b₁ = put n c₁ b in
    let len₂ = length-drop n l in
    let w₂ =
      put-Written (length c₂) c₂ b₁ w₁.valid refl (omega (arith, len₂, w₁.size_eq, w₁.cap_eq))
        (omega (arith, len₂, w₁.pos_eq, w₁.cap_eq, w₁.size_eq, origin)) (omega (arith, len₂)) in
    rw
      (
        fill_cons n (record { base = b.write_pos; len = n })
            (record { base = 0; len = writable b - n } ∷ []) l b (omega arith) (omega arith) refl,
        fill_done (record { base = 0; len = writable b - n }) [] c₂ b₁ (omega (arith, len₂))
            (omega (arith, len₂)) (omega (arith, w₁.pos_eq, origin)),
      )
      (
        refl,
        w₂.valid,
        w₂.queue
            ∙ ap (λ k. k ++ c₂) w₁.queue
            ∙ append_assoc (contents b) c₁ c₂
            ∙ ap (λ k. contents b ++ k) (take-append-drop n l),
      )
  where
    origin : (b.write_pos + length (take n l)) % length b.bytes ≡ 0
    origin =
        turn_whole b.write_pos n (length (take n l)) (length b.bytes) (omega arith) e
          (omega (arith, length-take n l))

fill_lem :
    (l : List ℕ) (b : RingBuffer)
    → IsValid b
    → 0 < length l
    → length l ≤ writable b
    → Filled l b (fill (write_iovecs b) l b)
fill_lem l b v h₀ h = elim (dec_lt (capacity b - b.write_pos) (writable b)) [
  | no q ↦
      rw
        (
          write_iovecs_straight b (omega arith) (omega arith),
          fill_done (record { base = b.write_pos; len = writable b }) [] l b h₀ h refl,
        )
        (Filled-put l b v h₀ h (omega arith))
  | yes q ↦ rw (write_iovecs_round b q) (elim (dec_lt (capacity b - b.write_pos) (length l)) [
    | no r ↦
        rw
          (fill_done (record { base = b.write_pos; len = capacity b - b.write_pos })
            (record { base = 0; len = writable b - (capacity b - b.write_pos) } ∷ []) l b h₀
            (omega arith) refl)
          (Filled-put l b v h₀ h (omega arith))
    | yes r ↦ fill_round (capacity b - b.write_pos) l b v (omega arith) (omega arith) r h
  ])
]

write_iovecs_room : (b : RingBuffer) → 0 < writable b → (length (write_iovecs b) == 0) ≡ false
unfolding write_iovecs
write_iovecs_room b h = ground arith

append_loop_step :
    (f x : ℕ) (xs : List ℕ) (b : RingBuffer)
    → append_loop (suc f) (x ∷ xs) b
      ≡ fail_if
          (length (write_iovecs b) == 0)
          (from_code config_invalid "ring buffer full")
          (append_loop f (fill (write_iovecs b) (x ∷ xs) b).0 (fill (write_iovecs b) (x ∷ xs) b).1)
unfolding append_loop
append_loop_step f x xs b = refl

append_loop-nil : (f : ℕ) (b : RingBuffer) → append_loop f [] b ≡ ok b
unfolding append_loop
append_loop-nil f b = refl

-- What appending `l` to `b` must return: a valid buffer that holds `l` behind what `b` holds.
abbrev pub Appended : RingBuffer → List ℕ → Result RingBuffer → Type 0
Appended b l r = (b' : RingBuffer) × (r ≡ ok b') × IsValid b' × (contents b' ≡ contents b ++ l)

-- With room for the data the loop ends in its first round.
append_loop_lem :
    (f : ℕ) (l : List ℕ) (b : RingBuffer)
    → IsValid b
    → length l ≤ f
    → length l ≤ writable b
    → Appended b l (append_loop f l b)
unfolding Filled
append_loop_lem f [] b v h₀ h = (b, append_loop-nil f b, v, sym (append-nil (contents b)))
append_loop_lem zero (x ∷ xs) b v h₀ h = absurd (omega arith)
append_loop_lem (suc f) (x ∷ xs) b v h₀ h =
    let (gone, v', q) = fill_lem (x ∷ xs) b v (omega arith) h in
    (
      (fill (write_iovecs b) (x ∷ xs) b).1,
      append_loop_step f x xs b
          ∙ rw (write_iovecs_room b (omega arith), gone) (append_loop-nil f _),
      v',
      q,
    )

-- The storage that `ensure_writable` moves the queue to, if there is no room for `n` bytes.
abbrev grown_cap : ℕ → RingBuffer → ℕ
grown_cap n b = max (capacity b * 2) (capacity b + n)

abbrev grown : ℕ → RingBuffer → RingBuffer
grown n b = record {
  bytes = store (replicate (grown_cap n b) 0) 0 (peek b.size b);
  read_pos = 0;
  write_pos = length (peek b.size b);
  size = length (peek b.size b);
}

peek_all : (b : RingBuffer) → IsValid b → peek b.size b ≡ contents b
peek_all b v =
    peek-eq-take b.size b v ∙ take_all b.size (contents b) (omega (arith, length-contents b v))

ensure_writable_grows :
    (n : ℕ) (b : RingBuffer) → IsValid b → writable b < n → ensure_writable n b ≡ ok (grown n b)
unfolding ensure_writable
ensure_writable_grows n b v h =
    let len : length (peek b.size b) ≡ b.size = ap length (peek_all b v) ∙ length-contents b v in
    let cap : ◌≡◌ {A = ℕ} (if grown_cap n b == 0 then n else grown_cap n b) (grown_cap n b) =
      ground arith in
    rw cap (ground arith)

ensure_writable_enough : (n : ℕ) (b : RingBuffer) → n ≤ writable b → ensure_writable n b ≡ ok b
unfolding ensure_writable
ensure_writable_enough n b h = let e : leb n (writable b) ≡ true = ground arith in rw e

grown_lem :
    (n : ℕ) (b : RingBuffer)
    → IsValid b
    → writable b < n
    → IsValid (grown n b) × (contents (grown n b) ≡ contents b) × (n ≤ writable (grown n b))
grown_lem n b v h =
    let c = peek b.size b in
    let len : length c ≡ b.size = ap length (peek_all b v) ∙ length-contents b v in
    let d : List ℕ = replicate (grown_cap n b) 0 in
    let lend : length d ≡ grown_cap n b = length-replicate (grown_cap n b) 0 in
    let fits : 0 + length c ≤ length d = omega (arith, len, lend) in
    let lens = length-store d c 0 fits in
    (
      record {
        size_in = omega (arith, len, lend, lens);
        read_in = omega (arith, len, lend, lens);
        write_in = omega (arith, len, lend, lens);
        apart = inl (omega arith);
      },
      ap (λ k. window 0 k (store d 0 c)) (omega arith)
          ∙ window-store_straight d c 0 fits 0 0 (omega arith)
          ∙ peek_all b v,
      omega (arith, len, lend, lens),
    )

-- On a valid buffer `ensure_writable` succeeds, makes room for `n` bytes and keeps what is queued;
-- the buffer stays valid.
ensure_writable_lem :
    (n : ℕ) (b : RingBuffer)
    → IsValid b
    → (b' : RingBuffer) × (ensure_writable n b ≡ ok b')
      × IsValid b'
      × (contents b' ≡ contents b)
      × (n ≤ writable b')
ensure_writable_lem n b v = elim (dec_lt (writable b) n) [
  | yes h ↦
      let (v', q, room) = grown_lem n b v h in
      (grown n b, ensure_writable_grows n b v h, v', q, room)
  | no h ↦ (b, ensure_writable_enough n b (omega arith), v, refl, omega arith)
]

-- `append` succeeds on every valid buffer, puts the data behind what is queued and leaves the
-- buffer valid.
pub append_lem : (l : List ℕ) (b : RingBuffer) → IsValid b → Appended b l (append l b)
unfolding append
append_lem l b v =
    let (b', e, v', q, room) = ensure_writable_lem (length l) b v in
    let (b'', e', v'', q') = append_loop_lem (length l) l b' v' (omega arith) room in
    (b'', rw (e, e'), v'', q' ∙ ap (λ k. k ++ l) q)

-- Two writes in a row put their data one behind the other.
pub Appended-bind :
    (b : RingBuffer) (xs ys : List ℕ) (r : Result RingBuffer) (f : RingBuffer → Result RingBuffer)
    → Appended b xs r
    → ((b' : RingBuffer) → IsValid b' → Appended b' ys (f b'))
    → Appended b (xs ++ ys) (r >>= f)
Appended-bind b xs ys r f (b₁, e₁, v₁, q₁) k =
    let (b₂, e₂, v₂, q₂) = k b₁ v₁ in
    (b₂, rw (e₁, e₂), v₂, q₂ ∙ ap (λ c. c ++ ys) q₁ ∙ append_assoc (contents b) xs ys)

-- Writing nothing.
pub Appended-nil : (b : RingBuffer) → IsValid b → Appended b [] (ok b)
Appended-nil b v = (b, refl, v, sym (append-nil (contents b)))
