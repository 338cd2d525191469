-- ===== src/Hpack/Int.antt =====
-- src/hpack.cpp: `decode_int` reads back what `encode_int` wrote.
use native.Mathlib.Numerals.{towards_suc}
use native.Mathlib.Nat.{pow-suc, one-le-pow}
use uproxy.Base.{
  ℕ, zero, suc, ◌+◌, ◌-◌, ◌*◌, ◌/◌, ◌%◌, ◌^◌, ◌≤◌, ◌<◌, ◌≡◌, ◌≢◌, ◌⊎◌, refl, ap, ◌∙◌, bit_or, true,
  false, List, [], ◌∷◌, ◌++◌, arith, ltb, leb, ◌==◌, ◌&&◌, ◌||◌, if◌then◌else◌, Bool-cases, inl,
  inr, ok, ◌>>=◌,
}
use uproxy.Buffer.{RingBuffer, append}
use uproxy.Buffer.Fifo.{IsValid}
use uproxy.Buffer.Append.{Appended, append_lem, Appended-bind}
use uproxy.Hpack.Encode.{encode_rest, encode_int}
use uproxy.Hpack.Decode.{bit, decode_rest, decode_int}

-- The bytes behind the prefix: groups of seven bits, the lowest first.
abbrev pub rest_bytes : ℕ → ℕ → List ℕ
rest_bytes zero v = v ∷ []
rest_bytes (suc j) v =
    let more = rest_bytes j (v / 128) in if leb 128 v then (v % 128 + 128) ∷ more else v ∷ []

narrower : (j v : ℕ) → v < 128 * 128 ^ suc j → v / 128 < 128 * 128 ^ j
narrower j v h = let p = pow-suc 128 j in omega (arith, p)

encode_rest_more :
    (fuel v : ℕ) (b : RingBuffer)
    → leb 128 v ≡ true
    → encode_rest (suc fuel) v b
      ≡ (append ((v % 128 + 128) % 256 ∷ []) b >>= λ out'. encode_rest fuel (v / 128) out')
unfolding encode_rest
encode_rest_more fuel v b e = rw (e, encode_rest)

encode_rest_last :
    (fuel v : ℕ) (b : RingBuffer)
    → leb 128 v ≡ false
    → encode_rest (suc fuel) v b ≡ append (v % 256 ∷ []) b
unfolding encode_rest
encode_rest_last fuel v b e = rw (e, encode_rest)

-- The loop appends the groups.
encode_rest_lem :
    (j fuel v : ℕ) (b : RingBuffer)
    → IsValid b
    → j < fuel
    → v < 128 * 128 ^ j
    → Appended b (rest_bytes j v) (encode_rest fuel v b)
encode_rest_lem j zero v b valid h hv = absurd (omega arith)
encode_rest_lem zero (suc fuel) v b valid h hv =
    let byte : v % 256 ≡ v = omega arith in
    rw (encode_rest_last fuel v b (ground arith), byte) (append_lem (v ∷ []) b valid)
encode_rest_lem (suc j) (suc fuel) v b valid h hv = elim (Bool-cases (leb 128 v)) [
  | inr small ↦
      let byte : v % 256 ≡ v = ground arith in
      rw (encode_rest_last fuel v b small, byte, small) (append_lem (v ∷ []) b valid)
  | inl large ↦
      let byte : (v % 128 + 128) % 256 ≡ v % 128 + 128 = omega arith in
      rw (encode_rest_more fuel v b large, byte, large)
        (Appended-bind b ((v % 128 + 128) ∷ []) (rest_bytes j (v / 128)) _ _
          (append_lem ((v % 128 + 128) ∷ []) b valid)
          (λ b' valid'. encode_rest_lem j fuel (v / 128) b' valid' (omega arith) (narrower j v hv)))
]

-- A last group ends the loop of `decode_rest`.
decode_rest_last :
    (v value m : ℕ) (rest : List ℕ)
    → v < 128
    → value + v * 2 ^ m < 2 ^ 64
    → decode_rest (v ∷ rest) value m ≡ ok (value + v * 2 ^ m, rest)
unfolding decode_rest
decode_rest_last v value m rest hv h =
    let low : v % 128 ≡ v = omega arith in
    let top : bit 7 v ≡ false = ground arith in
    let sum : (value + v * 2 ^ m % 2 ^ 64) % 2 ^ 64 ≡ value + v * 2 ^ m = omega arith in
    rw (low, top, sum)

decode_rest_more :
    (r value m : ℕ) (rest : List ℕ)
    → r < 128
    → m + 7 ≤ 56
    → value + r * 2 ^ m < 2 ^ 64
    → decode_rest ((r + 128) ∷ rest) value m ≡ decode_rest rest (value + r * 2 ^ m) (m + 7)
unfolding decode_rest
decode_rest_more r value m rest hr hm h =
    let low : (r + 128) % 128 ≡ r = omega arith in
    let top : bit 7 (r + 128) ≡ true = ground arith in
    let fits : ltb 56 (m + 7) ≡ false = ground arith in
    let sum : (value + r * 2 ^ m % 2 ^ 64) % 2 ^ 64 ≡ value + r * 2 ^ m = omega arith in
    rw (low, top, fits, sum)

-- The value of the groups, split behind the first.
split_value : (v m : ℕ) → v % 128 * 2 ^ m + v / 128 * 2 ^ (m + 7) ≡ v * 2 ^ m
split_value v m =
    let p : 2 ^ (m + 7) ≡ 128 * 2 ^ m = simp towards_suc (omega arith) in
    let q : v ≡ 128 * (v / 128) + v % 128 = omega arith in
    rw p (omega (arith, ap (λ (t : ℕ). t * 2 ^ m) q))

-- The loop of `decode_rest` adds the groups at their places.
decode_rest_lem :
    (j v value m : ℕ) (rest : List ℕ)
    → m + 7 * j ≡ 56
    → v < 128 * 128 ^ j
    → value + v * 2 ^ m < 2 ^ 64
    → decode_rest (rest_bytes j v ++ rest) value m ≡ ok (value + v * 2 ^ m, rest)
decode_rest_lem zero v value m rest hm hv h = decode_rest_last v value m rest (omega arith) h
decode_rest_lem (suc j) v value m rest hm hv h = elim (Bool-cases (leb 128 v)) [
  | inr small ↦ rw small (decode_rest_last v value m rest (ground arith) h)
  | inl large ↦
      let s = split_value v m in
      let sum : value + v % 128 * 2 ^ m + v / 128 * 2 ^ (m + 7) ≡ value + v * 2 ^ m =
        omega (arith, s) in
      rw
        (
          large,
          decode_rest_more (v % 128) value m (rest_bytes j (v / 128) ++ rest) (omega arith)
              (omega arith) (omega (arith, s)),
        )
        (rw
          (decode_rest_lem j (v / 128) (value + v % 128 * 2 ^ m) (m + 7) rest (omega arith)
            (narrower j v hv) (omega (arith, sum)))
          (ap (λ t. ok (t, rest)) sum))
]

-- A prefix leaves its low bits free for the value.
pub record IsPrefix (prefix_bits prefix : ℕ) : Type 0 where
  pub some_bits : 0 < prefix_bits
  pub at_most : prefix_bits ≤ 8
  pub free : (v : ℕ) → v < 2 ^ prefix_bits → bit_or prefix v % 256 % 2 ^ prefix_bits ≡ v

-- The bytes of an integer behind a prefix.
abbrev pub int_bytes : ℕ → ℕ → ℕ → List ℕ
int_bytes v prefix_bits prefix =
    let max_prefix = 2 ^ prefix_bits - 1 in
    if ltb v max_prefix
    then bit_or prefix v % 256 ∷ []
    else (bit_or prefix max_prefix % 256) ∷ rest_bytes 8 (v - max_prefix)

pub encode_int_lem :
    (v prefix_bits prefix : ℕ) (b : RingBuffer)
    → IsValid b
    → v < 2 ^ 63
    → Appended b (int_bytes v prefix_bits prefix) (encode_int v prefix_bits prefix b)
unfolding encode_int
encode_int_lem v n prefix b valid h = elim (Bool-cases (ltb v (2 ^ n - 1))) [
  | inl short ↦ rw short (append_lem (bit_or prefix v % 256 ∷ []) b valid)
  | inr long ↦ rw long (
      Appended-bind b (bit_or prefix (2 ^ n - 1) % 256 ∷ []) (rest_bytes 8 (v - (2 ^ n - 1))) _ _
        (append_lem (bit_or prefix (2 ^ n - 1) % 256 ∷ []) b valid)
        (λ b' valid'. encode_rest_lem 8 10 (v - (2 ^ n - 1)) b' valid' (omega arith) (omega arith)))
]

-- `decode_int` reads an integer back, but for 0 behind a prefix of seven bits.
pub decode_int-int_bytes :
    (v prefix_bits prefix : ℕ) (rest : List ℕ)
    → IsPrefix prefix_bits prefix
    → v < 2 ^ 63
    → (0 < v) ⊎ (prefix_bits ≢ 7)
    → decode_int (int_bytes v prefix_bits prefix ++ rest) prefix_bits ≡ ok (v, rest)
unfolding decode_int
decode_int-int_bytes v n prefix rest p h nonzero =
    let bits : (n == 0 || ltb 8 n) ≡ false = ground (arith, p.some_bits, p.at_most) in
    let pow : 1 ≤ 2 ^ n = one-le-pow n 2 (omega arith) in
    elim (Bool-cases (ltb v (2 ^ n - 1))) [
      | inl short ↦
          let value = p.free v (ground (arith, pow)) in
          let index : (v == 0 && n == 7) ≡ false = ground (arith, nonzero) in
          rw (short, bits, value, short, index)
      | inr long ↦
          let mask = 2 ^ n - 1 in
          let value = p.free mask (omega (arith, pow)) in
          let past : ltb mask mask ≡ false = ground arith in
          let one : 2 ^ 0 ≡ suc zero = refl in
          let sum : mask + (v - mask) * 2 ^ 0 ≡ v = ground arith in
          rw (long, bits, value, past)
            (decode_rest_lem 8 (v - mask) mask 0 rest (omega arith) (omega arith)
                (omega (arith, sum))
              ∙ ap (λ t. ok (t, rest)) sum)
    ]
