-- ===== src/Buffer/Fifo.antt =====
-- src/buffer.cpp: `RingBuffer` as a queue of bytes.
use uproxy.Base.{
  ℕ, ◌+◌, ◌-◌, ◌%◌, ◌≤◌, ◌<◌, min, max, ◌≡◌, refl, sym, ◌∙◌, ◌⊎◌, inl, inr, List, [], ◌++◌, arith,
  length, take, drop, length-append, length-take, length-drop, take_all, drop_all, take-take,
  dec_lt,
}
use uproxy.Buffer.{RingBuffer, make, readable, writable, commit_read, commit_write, peek, store}
use uproxy.Buffer.Window.{
  window, window_straight, window_round, window-drop, length-store, turn, window-store_straight,
  window-store_round,
}

-- The bytes that were written and not yet read, oldest first.
abbrev pub contents : RingBuffer → List ℕ
contents b = window b.read_pos b.size b.bytes

-- Both positions lie in the storage, and `write_pos` is `size` bytes on from `read_pos`.
pub record IsValid (b : RingBuffer) : Type 0 where
  pub size_in : b.size ≤ length b.bytes
  pub read_in : b.read_pos < max 1 (length b.bytes)
  pub write_in : b.write_pos < max 1 (length b.bytes)
  pub apart :
      (b.write_pos ≡ b.read_pos + b.size) ⊎ (b.write_pos + length b.bytes ≡ b.read_pos + b.size)

pub length-contents : (b : RingBuffer) → IsValid b → length (contents b) ≡ b.size
length-contents b v = omega (
  arith,
  length-take b.size (drop b.read_pos b.bytes ++ b.bytes),
  length-append (drop b.read_pos b.bytes) b.bytes,
)

pub make-IsValid : (n : ℕ) → IsValid (make n)
unfolding make
make-IsValid n = record {
  size_in = omega arith;
  read_in = omega arith;
  write_in = omega arith;
  apart = inl refl;
}

pub contents-make : (n : ℕ) → contents (make n) ≡ []
unfolding make
contents-make n = refl

-- On a valid buffer `peek` copies the first `k` bytes of the queue, or all of them where there are
-- fewer.
pub peek-eq-take : (k : ℕ) (b : RingBuffer) → IsValid b → peek k b ≡ take k (contents b)
unfolding peek
peek-eq-take k b v =
    let n = min k b.size in
    let X = drop b.read_pos b.bytes in
    let cut : take k (contents b) ≡ window b.read_pos n b.bytes =
      take-take k b.size (X ++ b.bytes) in
    let lenX : length X ≡ length b.bytes - b.read_pos = length-drop b.read_pos b.bytes in
    elim (dec_lt (length b.bytes) (b.read_pos + n)) [
      | yes round ↦ ground (
        arith,
        cut,
        window_round b.read_pos n b.bytes (omega arith),
        take_all (length b.bytes - b.read_pos) X,
      )
      | no straight ↦ ground (arith, cut, window_straight b.read_pos n b.bytes (omega arith))
    ]

commit_read_all :
    (k : ℕ) (b : RingBuffer)
    → b.size ≤ k
    → commit_read k b ≡ record b { read_pos = b.write_pos; size = 0 }
unfolding commit_read
commit_read_all k b h = ground arith

commit_read_part :
    (k : ℕ) (b : RingBuffer)
    → k < b.size
    → b.size ≤ length b.bytes
    → commit_read k b ≡ record b { read_pos = (b.read_pos + k) % length b.bytes; size = b.size - k }
unfolding commit_read
commit_read_part k b h c = let e : min k b.size ≡ k = omega arith in ground arith

-- Peeking at everything.
pub peek_whole : (b : RingBuffer) → IsValid b → peek (readable b) b ≡ contents b
peek_whole b v =
    peek-eq-take (readable b) b v
    ∙ take_all b.size (contents b) (omega (arith, length-contents b v))

-- On a valid buffer `commit_read` drops the first `k` bytes of the queue.
pub contents-commit_read :
    (k : ℕ) (b : RingBuffer) → IsValid b → contents (commit_read k b) ≡ drop k (contents b)
contents-commit_read k b v = elim (dec_lt k b.size) [
  | yes h ↦
      rw (commit_read_part k b h v.size_in)
        (window-drop b.read_pos k b.size b.bytes (omega arith) (omega arith) v.size_in)
  | no h ↦
      rw (commit_read_all k b (omega arith))
        (sym (drop_all k (contents b) (omega (arith, length-contents b v))))
]

-- `commit_read` keeps a buffer valid.
pub commit_read-IsValid : (k : ℕ) (b : RingBuffer) → IsValid b → IsValid (commit_read k b)
commit_read-IsValid k b v = elim (dec_lt k b.size) [
  | yes h ↦
      let t = turn b.read_pos k (length b.bytes) (omega arith) (omega arith) in
      rw (commit_read_part k b h v.size_in) (record {
        size_in = omega arith;
        read_in = omega (arith, t);
        write_in = omega arith;
        apart = ground (arith, t);
      })
  | no h ↦ rw (commit_read_all k b (omega arith)) (record {
    size_in = omega arith;
    read_in = v.write_in;
    write_in = v.write_in;
    apart = inl (omega arith);
  })
]

-- What copying `c` to the write position and committing it makes of a buffer.
pub record Written (b : RingBuffer) (c : List ℕ) (b' : RingBuffer) : Type 0 where
  pub valid : IsValid b'
  pub queue : contents b' ≡ contents b ++ c
  pub size_eq : b'.size ≡ b.size + length c
  pub cap_eq : length b'.bytes ≡ length b.bytes
  pub pos_eq : b'.write_pos ≡ (b.write_pos + length c) % length b.bytes

unfoldable pub put : ℕ → List ℕ → RingBuffer → RingBuffer
unfolding commit_write
put n c b = commit_write n (record b { bytes = store b.bytes b.write_pos c })

-- The chunk fits behind the write position, so both `min`s take their first argument.
module _ (n : ℕ) (c : List ℕ) (b : RingBuffer) (v : IsValid b) (e : length c ≡ n)
    (h₁ : n ≤ writable b) (h₂ : b.write_pos + n ≤ length b.bytes) (h₃ : 0 < n) where
  put_fits : b.write_pos + length c ≤ length b.bytes
  put_fits = omega arith

  put_lem : put n c b ≡ record {
    bytes = store b.bytes b.write_pos c;
    read_pos = b.read_pos;
    write_pos = (b.write_pos + n) % length b.bytes;
    size = b.size + n;
  }
  unfolding put
  put_lem = ground (arith, length-store b.bytes c b.write_pos put_fits)

  put-IsValid : IsValid (put n c b)
  put-IsValid =
      let len = length-store b.bytes c b.write_pos put_fits in
      let t = turn b.write_pos n (length b.bytes) (omega arith) (omega arith) in
      rw put_lem (record {
        size_in = omega (arith, len);
        read_in = omega (arith, len);
        write_in = omega (arith, len, t);
        apart = ground (arith, len, t);
      })

  contents-put : contents (put n c b) ≡ contents b ++ c
  contents-put =
      rw (put_lem, sym e)
        (elim v.apart [
          | inl q ↦ window-store_straight b.bytes c b.write_pos put_fits b.read_pos b.size q
          | inr q ↦
              window-store_round b.bytes c b.write_pos put_fits b.read_pos b.size (omega arith) q
                (omega arith)
        ])

  pub put-Written : Written b c (put n c b)
  put-Written = record {
    valid = put-IsValid;
    queue = contents-put;
    size_eq = rw (put_lem, e);
    cap_eq = rw put_lem (length-store b.bytes c b.write_pos put_fits);
    pos_eq = rw (put_lem, e);
  }
