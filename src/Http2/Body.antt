-- ===== src/Http2/Body.antt =====
-- src/http2.cpp: `write_data` cuts a body into frames, and the reader gets the body back.
use uproxy.Base.{
  ℕ, zero, suc, ◌%◌, ◌^◌, ◌≤◌, ◌<◌, min, ◌≡◌, ◌≢◌, refl, ap, ◌∙◌, Bool, false, ◌&&◌, List, [], ◌∷◌,
  ◌++◌, arith, length, take, drop, length-take, length-drop, take-append-drop, if◌then◌else◌, ◌==◌,
  ◌||◌, ok, All,
}
use uproxy.Buffer.{RingBuffer}
use uproxy.Buffer.Fifo.{contents, IsValid}
use uproxy.Buffer.Append.{Appended, append_lem, Appended-bind, Appended-nil}
use uproxy.Http2.Frame.{
  H2Frame, header_bytes, data_frame, end_stream_flag, write_chunks, write_data,
}
use uproxy.Http2.Wire.{IsFrame, write_frame_header_lem}
use uproxy.Http2.RoundTrip.{wires, read_frames, read_frames-wires}

-- The frame of one round: at most `size` bytes, marked if they are the last and the stream ends.
abbrev pub piece : ℕ → ℕ → Bool → List ℕ → H2Frame
piece id size end xs =
    let chunk = min size (length xs) in
    record {
      length = chunk;
      type = data_frame;
      flags = if end && chunk == length xs then end_stream_flag else 0;
      stream_id = id;
      payload = take chunk xs;
    }

-- The frames of `write_data`.
abbrev pub data_frames : ℕ → ℕ → Bool → ℕ → List ℕ → List H2Frame
data_frames fuel id end size [] = []
data_frames zero id end size (x ∷ xs) = []
data_frames (suc fuel) id end size (x ∷ xs) =
    piece id size end (x ∷ xs)
    ∷ data_frames fuel id end size (drop (min size (length (x ∷ xs))) (x ∷ xs))

write_chunks_lem :
    (fuel id size : ℕ) (end : Bool) (xs : List ℕ) (b : RingBuffer)
    → IsValid b
    → length xs ≤ fuel
    → id < 2 ^ 31
    → 0 < size
    → size < 2 ^ 24
    → Appended b (wires (data_frames fuel id end size xs)) (write_chunks fuel id xs end size b)
unfolding write_chunks
write_chunks_lem fuel id size end [] b v h hid h₀ hs = Appended-nil b v
write_chunks_lem zero id size end (x ∷ xs) b v h hid h₀ hs = absurd (omega arith)
write_chunks_lem (suc fuel) id size end (x ∷ xs) b v h hid h₀ hs =
    let chunk = min size (length (x ∷ xs)) in
    let small : chunk % 2 ^ 32 ≡ chunk = omega arith in
    rw small (
      Appended-bind b (header_bytes chunk data_frame _ id) _ _ _
        (write_frame_header_lem chunk data_frame _ id b v (omega arith) hid)
        (λ b₁ v₁.
          Appended-bind b₁ (take chunk (x ∷ xs)) _ _ _ (append_lem (take chunk (x ∷ xs)) b₁ v₁)
            (λ b₂ v₂.
              write_chunks_lem fuel id size end (drop chunk (x ∷ xs)) b₂ v₂
                (omega (arith, length-drop chunk (x ∷ xs))) hid h₀ hs)))

abbrev pub payloads : List H2Frame → List ℕ
payloads [] = []
payloads (f ∷ fs) = f.payload ++ payloads fs

payloads-data_frames :
    (fuel id size : ℕ) (end : Bool) (xs : List ℕ)
    → length xs ≤ fuel
    → 0 < size
    → payloads (data_frames fuel id end size xs) ≡ xs
payloads-data_frames fuel id size end [] h h₀ = refl
payloads-data_frames zero id size end (x ∷ xs) h h₀ = absurd (omega arith)
payloads-data_frames (suc fuel) id size end (x ∷ xs) h h₀ =
    let chunk = min size (length (x ∷ xs)) in
    ap (λ c. take chunk (x ∷ xs) ++ c)
      (payloads-data_frames fuel id size end (drop chunk (x ∷ xs))
        (omega (arith, length-drop chunk (x ∷ xs))) h₀)
    ∙ take-append-drop chunk (x ∷ xs)

-- A frame of a body: on the stream, of one byte at least and of `size` at most.
pub record IsPiece (id size : ℕ) (f : H2Frame) : Type 0 where
  pub type_eq : f.type ≡ data_frame
  pub stream_eq : f.stream_id ≡ id
  pub length_eq : f.length ≡ length f.payload
  pub some_bytes : 0 < f.length
  pub fits : f.length ≤ size

data_frames-IsPiece :
    (fuel id size : ℕ) (end : Bool) (xs : List ℕ)
    → 0 < size
    → All (IsPiece id size) (data_frames fuel id end size xs)
data_frames-IsPiece fuel id size end [] h₀ = tt
data_frames-IsPiece zero id size end (x ∷ xs) h₀ = tt
data_frames-IsPiece (suc fuel) id size end (x ∷ xs) h₀ =
    let chunk = min size (length (x ∷ xs)) in
    (
      record {
        type_eq = refl;
        stream_eq = refl;
        length_eq = omega (arith, length-take chunk (x ∷ xs));
        some_bytes = omega arith;
        fits = omega arith;
      },
      data_frames-IsPiece fuel id size end (drop chunk (x ∷ xs)) h₀,
    )

IsPiece-IsFrame :
    (id size limit : ℕ) (fs : List H2Frame)
    → id < 2 ^ 31
    → size < 2 ^ 24
    → size ≤ limit
    → All (IsPiece id size) fs
    → All (IsFrame limit) fs
IsPiece-IsFrame id size limit [] hid hs hl p = tt
IsPiece-IsFrame id size limit (f ∷ fs) hid hs hl p =
    let q = p.0 in
    (
      record {
        length_eq = q.length_eq;
        length_fits = omega (arith, q.fits);
        length_le = omega (arith, q.fits);
        stream_fits = omega (arith, q.stream_eq);
      },
      IsPiece-IsFrame id size limit fs hid hs hl p.1,
    )

-- Only the last frame has flags, and END_STREAM there exactly if the stream ends.
abbrev pub OnlyLastEnds : Bool → List H2Frame → Type 0
OnlyLastEnds end [] = Unit {0}
OnlyLastEnds end (f ∷ []) = f.flags ≡ (if end then end_stream_flag else 0)
OnlyLastEnds end (f ∷ g ∷ fs) = (f.flags ≡ 0) × OnlyLastEnds end (g ∷ fs)

OnlyLastEnds-cons :
    (end : Bool) (f : H2Frame) (fuel id size : ℕ) (ys : List ℕ)
    → length ys ≤ fuel
    → f.flags ≡ (if end && length ys == 0 then end_stream_flag else 0)
    → OnlyLastEnds end (data_frames fuel id end size ys)
    → OnlyLastEnds end (f ∷ data_frames fuel id end size ys)
OnlyLastEnds-cons end f fuel id size [] h e r = ground (arith, e)
OnlyLastEnds-cons end f zero id size (y ∷ ys) h e r = absurd (omega arith)
OnlyLastEnds-cons end f (suc fuel) id size (y ∷ ys) h e r = (ground (arith, e), r)

data_frames-OnlyLastEnds :
    (fuel id size : ℕ) (end : Bool) (xs : List ℕ)
    → length xs ≤ fuel
    → 0 < size
    → OnlyLastEnds end (data_frames fuel id end size xs)
data_frames-OnlyLastEnds fuel id size end [] h h₀ = tt
data_frames-OnlyLastEnds zero id size end (x ∷ xs) h h₀ = tt
data_frames-OnlyLastEnds (suc fuel) id size end (x ∷ xs) h h₀ =
    let chunk = min size (length (x ∷ xs)) in
    let ys = drop chunk (x ∷ xs) in
    let len = length-drop chunk (x ∷ xs) in
    OnlyLastEnds-cons end (piece id size end (x ∷ xs)) fuel id size ys (omega (arith, len))
      (ground (arith, len)) (data_frames-OnlyLastEnds fuel id size end ys (omega (arith, len)) h₀)

length-data_frames :
    (fuel id size : ℕ) (end : Bool) (xs : List ℕ) → length (data_frames fuel id end size xs) ≤ fuel
length-data_frames fuel id size end [] = omega arith
length-data_frames zero id size end (x ∷ xs) = omega arith
length-data_frames (suc fuel) id size end (x ∷ xs) =
    omega (arith, length-data_frames fuel id size end (drop (min size (length (x ∷ xs))) (x ∷ xs)))

-- A body written to an empty buffer, on a stream other than 0 (below 2 ^ 31) and in frames of at
-- most `size` bytes (positive, below 2 ^ 24), comes back from a reader that accepts frames of that
-- size: the payloads joined are the body, each frame is a DATA frame of the stream with 1 to
-- `size` bytes, and END_STREAM is set on the last frame alone, exactly if the stream ends.
pub read-write_data :
    (id size limit : ℕ) (end : Bool) (body : List ℕ) (b : RingBuffer)
    → IsValid b
    → contents b ≡ []
    → id ≢ 0
    → id < 2 ^ 31
    → 0 < size
    → size < 2 ^ 24
    → size ≤ limit
    → (b' : RingBuffer) × (write_data id body end size b ≡ ok b')
      × (payloads (read_frames (suc (length body)) limit b') ≡ body)
      × All (IsPiece id size) (read_frames (suc (length body)) limit b')
      × OnlyLastEnds end (read_frames (suc (length body)) limit b')
unfolding write_data
read-write_data id size limit end body b v e id≢0 hid h₀ hs hl =
    let n = length body in
    let fs = data_frames n id end size body in
    let (b', e', v', q) = write_chunks_lem n id size end body b v (omega arith) hid h₀ hs in
    let pieces = data_frames-IsPiece n id size end body h₀ in
    let back : read_frames (suc n) limit b' ≡ fs =
      read_frames-wires (suc n) limit fs b' v'
        (omega (arith, length-data_frames n id size end body))
        (IsPiece-IsFrame id size limit fs hid hs hl pieces) (q ∙ ap (λ c. c ++ wires fs) e) in
    let checks : (id == 0 || size == 0) ≡ false = ground arith in
    (
      b',
      rw checks e',
      rw back (payloads-data_frames n id size end body (omega arith) h₀),
      rw back pieces,
      rw back (data_frames-OnlyLastEnds n id size end body (omega arith) h₀),
    )
