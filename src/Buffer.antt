-- ===== src/Buffer.antt =====
-- include/uproxy/buffer.h, src/buffer.cpp: the class `RingBuffer`.
-- A byte is a number; the two `struct iovec` of a call are the list of the segments in use, each
-- an offset into `data_` and a length, and the returned count is the length of that list.
-- A vector holds fewer than 2 ^ 63 bytes, so no sum of two sizes wraps a `size_t`.
pub mod Window
pub mod Fifo
pub mod Append
mod Tests
use uproxy.Base.{
  ℕ, zero, suc, ◌+◌, ◌-◌, ◌*◌, ◌%◌, min, max, List, [], ◌∷◌, ◌++◌, ltb, leb, ◌==◌, if◌then◌else◌,
  ◌||◌, length, take, drop, replicate, Result, ok, stuck, ◌>>=◌, fail_if, from_code, config_invalid,
}

pub record RingBuffer : Type 0 where
  pub bytes : List ℕ
  pub read_pos : ℕ
  pub write_pos : ℕ
  pub size : ℕ

-- `RingBuffer(size_t capacity)`: a vector of `capacity` zero bytes.
unfoldable pub make : ℕ → RingBuffer
make capacity = record { bytes = replicate capacity 0; read_pos = 0; write_pos = 0; size = 0 }

abbrev pub readable : RingBuffer → ℕ
readable b = b.size

abbrev pub capacity : RingBuffer → ℕ
capacity b = length b.bytes

abbrev pub writable : RingBuffer → ℕ
writable b = length b.bytes - b.size

-- A `struct iovec` over the buffer's own storage.
pub record Segment : Type 0 where
  pub base : ℕ
  pub len : ℕ

-- The segments of `n` bytes from `pos` on, going round the end of the storage.
abbrev segments : ℕ → ℕ → ℕ → List Segment
segments cap pos n =
    let first = min n (cap - pos) in
    let second = n - first in
    if second == 0
    then record { base = pos; len = first } ∷ []
    else (record { base = pos; len = first } ∷ record { base = 0; len = second } ∷ [])

unfoldable pub read_iovecs : RingBuffer → List Segment
read_iovecs b =
    if b.size == 0 || capacity b == 0 then [] else segments (capacity b) b.read_pos b.size

unfoldable pub write_iovecs : RingBuffer → List Segment
write_iovecs b =
    if writable b == 0 || capacity b == 0
    then []
    else segments (capacity b) b.write_pos (writable b)

unfoldable pub commit_read : ℕ → RingBuffer → RingBuffer
commit_read k b =
    let n = min k b.size in
    let read_pos' = if capacity b == 0 then 0 else (b.read_pos + n) % capacity b in
    let size' = b.size - n in
    record b { read_pos = if size' == 0 then b.write_pos else read_pos'; size = size' }

unfoldable pub commit_write : ℕ → RingBuffer → RingBuffer
commit_write k b =
    let n = min k (writable b) in
    record b {
      write_pos = if capacity b == 0 then 0 else (b.write_pos + n) % capacity b;
      size = b.size + n;
    }

unfoldable pub peek : ℕ → RingBuffer → List ℕ
peek k b =
    let n = min k b.size in
    let first = min n (capacity b - b.read_pos) in
    let head = take first (drop b.read_pos b.bytes) in
    if n == 0 then [] else if ltb first n then head ++ take (n - first) b.bytes else head

unfoldable pub read_bytes : ℕ → RingBuffer → List ℕ
unfolding peek
read_bytes k b = peek k b

-- `std::memcpy` of `src` to the storage at `at`; `std::copy` where `at` is 0.
unfoldable pub store : List ℕ → ℕ → List ℕ → List ℕ
store dst at src = take at dst ++ (src ++ drop (at + length src) dst)

unfoldable pub ensure_writable : ℕ → RingBuffer → Result RingBuffer
ensure_writable n b =
    let doubled = max (capacity b * 2) (capacity b + n) in
    let new_cap = if doubled == 0 then n else doubled in
    let existing = peek b.size b in
    if leb n (writable b)
    then ok b
    else fail_if (ltb new_cap b.size) (from_code config_invalid "ring buffer overflow") (
        ok (record {
          bytes = store (replicate new_cap 0) 0 existing;
          read_pos = 0;
          write_pos = if length existing == new_cap then 0 else length existing;
          size = length existing;
        }))

-- The `for` loop of `append` over the segments: what is left of the data, and the buffer.
unfoldable pub fill : List Segment → List ℕ → RingBuffer → List ℕ × RingBuffer
unfolding commit_write store
fill [] rest b = (rest, b)
fill (s ∷ ss) [] b = ([], b)
fill (s ∷ ss) (x ∷ xs) b =
    let n = min s.len (length (x ∷ xs)) in
    let written = record b { bytes = store b.bytes s.base (take n (x ∷ xs)) } in
    fill ss (drop n (x ∷ xs)) (commit_write n written)

-- The `while` loop of `append`, on fuel; `rest` is `data[copied..]`.
unfoldable pub append_loop : ℕ → List ℕ → RingBuffer → Result RingBuffer
unfolding fill write_iovecs
append_loop fuel [] b = ok b
append_loop zero (x ∷ xs) b = stuck
append_loop (suc fuel) (x ∷ xs) b =
    let iov = write_iovecs b in
    let (rest, b') = fill iov (x ∷ xs) b in
    let more = append_loop fuel rest b' in
    fail_if (length iov == 0) (from_code config_invalid "ring buffer full") more

-- Every round copies a byte at least, so as many rounds as bytes are enough.
unfoldable pub append : List ℕ → RingBuffer → Result RingBuffer
unfolding ensure_writable append_loop
append xs b = do b' ← ensure_writable (length xs) b; append_loop (length xs) xs b'
