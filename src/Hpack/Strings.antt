-- ===== src/Hpack/Strings.antt =====
-- src/hpack.cpp: integers and uncompressed strings that `HpackEncoder` writes, read back by
-- `HpackDecoder`.
use mathlib.Core.List.{append_assoc}
use uproxy.Base.{
  ℕ, ◌+◌, ◌-◌, ◌/◌, ◌%◌, ◌^◌, ◌≤◌, ◌<◌, ◌≡◌, ◌≢◌, ◌⊎◌, refl, ◌∙◌, bit_or, Bool, true, false, List,
  [], ◌∷◌, ◌++◌, arith, ltb, ◌==◌, ==_iff, ◌||◌, not, Bool-cases, inl, inr, Result, ok, err,
  from_code, hpack_error, passes_under, passes_under_lem, length, take, drop, length-append,
  take-length-append, drop-length-append,
}
use uproxy.Buffer.{RingBuffer, append}
use uproxy.Buffer.Fifo.{contents, IsValid}
use uproxy.Buffer.Append.{append_lem, Appended-bind}
use uproxy.Hpack.Huffman.{huffman_len}
use uproxy.Hpack.Encode.{encode_int, encode_string}
use uproxy.Hpack.Decode.{bit, decode_int, decode_text, decode_string}
use uproxy.Hpack.Int.{IsPrefix, int_bytes, encode_int_lem, decode_int-int_bytes}

-- `decode_int` reads back what `encode_int` wrote to an empty buffer, behind any prefix that
-- leaves the low bits free, for values below 2 ^ 63 other than 0 behind a prefix of seven bits;
-- the bytes that follow are left.
pub decode_int-encode_int :
    (v prefix_bits prefix : ℕ) (rest : List ℕ) (b : RingBuffer)
    → IsPrefix prefix_bits prefix
    → IsValid b
    → contents b ≡ []
    → v < 2 ^ 63
    → (0 < v) ⊎ (prefix_bits ≢ 7)
    → (b' : RingBuffer) × (encode_int v prefix_bits prefix b ≡ ok b')
      × (decode_int (contents b' ++ rest) prefix_bits ≡ ok (v, rest))
decode_int-encode_int v n prefix rest b p valid e small nonzero =
    let (b', e', v', q) = encode_int_lem v n prefix b valid small in
    (b', e', rw (q, e) (decode_int-int_bytes v n prefix rest p small nonzero))

-- The prefixes that the encoder uses.
pub IsPrefix-plain : IsPrefix 7 0
unfolding passes_under
IsPrefix-plain = record {
  some_bits = omega arith;
  at_most = omega arith;
  free =
      λ v h. (==_iff _ v).0 (passes_under_lem (λ v. bit_or 0 v % 256 % 2 ^ 7 == v) 128 v h table);
}
  where
    table : passes_under (λ v. bit_or 0 v % 256 % 2 ^ 7 == v) 128 ≡ true
    table = refl

pub IsPrefix-huffman : IsPrefix 7 0x80
unfolding passes_under
IsPrefix-huffman = record {
  some_bits = omega arith;
  at_most = omega arith;
  free = λ v h.
      (==_iff _ v).0 (passes_under_lem (λ v. bit_or 0x80 v % 256 % 2 ^ 7 == v) 128 v h table);
}
  where
    table : passes_under (λ v. bit_or 0x80 v % 256 % 2 ^ 7 == v) 128 ≡ true
    table = refl

-- The first byte of a length has bit 7 exactly in front of a Huffman code.
first_plain : (v : ℕ) → v < 128 → bit 7 (bit_or 0 v % 256) ≡ false
unfolding passes_under
first_plain v h =
    negated (bit 7 (bit_or 0 v % 256))
      (passes_under_lem (λ v. not (bit 7 (bit_or 0 v % 256))) 128 v h table)
  where
    table : passes_under (λ v. not (bit 7 (bit_or 0 v % 256))) 128 ≡ true
    table = refl

    negated : (b : Bool) → not b ≡ true → b ≡ false
    negated true h = cc
    negated false h = refl

decode_string_plain :
    (x len : ℕ) (bs rest : List ℕ)
    → bit 7 x ≡ false
    → decode_int (x ∷ bs) 7 ≡ ok (len, rest)
    → len ≤ 65535
    → len ≤ length rest
    → decode_string (x ∷ bs) ≡ ok (take len rest, drop len rest)
unfolding decode_string decode_text
decode_string_plain x len bs rest top e h₁ h₂ =
    let fits : (ltb 65535 len || ltb (length rest) len) ≡ false = ground arith in rw (e, top, fits)

-- A length is the first byte of a string.
decode_string-int_bytes :
    (v : ℕ) (bs : List ℕ)
    → 0 < v
    → v ≤ 65535
    → v ≤ length bs
    → decode_string (int_bytes v 7 0 ++ bs) ≡ ok (take v bs, drop v bs)
decode_string-int_bytes v bs h₀ h₁ h₂ =
    let e = decode_int-int_bytes v 7 0 bs IsPrefix-plain (omega arith) (inl h₀) in
    elim (Bool-cases (ltb v (2 ^ 7 - 1))) [
      | inl short ↦
          rw short
            (decode_string_plain _ v _ bs (first_plain v (ground arith)) (rw short at e) h₁ h₂)
      | inr long ↦
          rw long
            (decode_string_plain _ v _ bs (first_plain 127 (omega arith)) (rw long at e) h₁ h₂)
    ]

-- A string of 1 to 65535 bytes for which the Huffman code is no shorter, written to an empty
-- buffer by `encode_string`, comes back from `decode_string`, which leaves the bytes that follow.
pub decode_string-encode_string :
    (s rest : List ℕ) (b : RingBuffer)
    → IsValid b
    → contents b ≡ []
    → 0 < length s
    → length s ≤ 65535
    → length s ≤ (huffman_len s + 7) / 8
    → (b' : RingBuffer) × (encode_string s b ≡ ok b')
      × (decode_string (contents b' ++ rest) ≡ ok (s, rest))
unfolding encode_string
decode_string-encode_string s rest b valid e h₀ h₁ plain =
    let (b', e', v', q) =
      Appended-bind b (int_bytes (length s) 7 0) s (encode_int (length s) 7 0 b) (append s)
        (encode_int_lem (length s) 7 0 b valid (omega arith)) (append_lem s) in
    let longer : ltb ((huffman_len s + 7) / 8) (length s) ≡ false = ground arith in
    let assoc = append_assoc (int_bytes (length s) 7 0) s rest in
    let back : ◌≡◌ {A = Result (List ℕ × List ℕ)}
        (ok (take (length s) (s ++ rest), drop (length s) (s ++ rest))) (ok (s, rest)) =
      rw (take-length-append s rest, drop-length-append s rest) in
    (
      b',
      rw (longer, e'),
      rw (q, e, assoc)
          (decode_string-int_bytes (length s) (s ++ rest) h₀ h₁
              (omega (arith, length-append s rest))
            ∙ back),
    )

-- The empty string, though, which `encode_string` writes to an empty buffer as the byte 0, is
-- refused by `decode_string`, whatever follows.
decode_string-encode_string_nil :
    (rest : List ℕ) (b : RingBuffer)
    → IsValid b
    → contents b ≡ []
    → (b' : RingBuffer) × (encode_string [] b ≡ ok b')
      × (decode_string (contents b' ++ rest) ≡ err (from_code hpack_error "invalid index 0"))
unfolding encode_string huffman_len decode_string decode_int
decode_string-encode_string_nil rest b valid e =
    let (b', e', v', q) =
      Appended-bind b (int_bytes 0 7 0) [] (encode_int 0 7 0 b) (append [])
        (encode_int_lem 0 7 0 b valid (omega arith)) (append_lem []) in
    (b', e', rw (q, e))
