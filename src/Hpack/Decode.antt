-- ===== src/Hpack/Decode.antt =====
-- src/hpack.cpp: `decode_int`, `decode_string` and `decode` of `HpackDecoder`.
-- The span that the functions shorten is returned beside their result.
use uproxy.Base.{
  ℕ, zero, suc, ◌+◌, ◌-◌, ◌*◌, ◌/◌, ◌%◌, ◌^◌, Bool, List, [], ◌∷◌, ◌++◌, Option, none, some, ltb,
  ◌==◌, ◌&&◌, ◌||◌, if◌then◌else◌, length, take, drop, Result, ok, err, stuck, ◌>>=◌, fail_if,
  from_code, hpack_error,
}
use uproxy.Hpack.Header.{HpackHeader, has_uppercase}
use uproxy.Hpack.Table.{DynamicTable, set_max_table_size, add_to_dynamic, lookup}
use uproxy.Hpack.Huffman.{huffman_decode}

-- `(x & (1 << k)) != 0`
abbrev pub bit : ℕ → ℕ → Bool
bit k x = x / 2 ^ k % 2 == 1

-- The `while` loop of `decode_int`; `b & 0x7F` is `b % 128`.
unfoldable pub decode_rest : List ℕ → ℕ → ℕ → Result (ℕ × List ℕ)
decode_rest [] value m = err (from_code hpack_error "truncated HPACK integer")
decode_rest (b ∷ rest) value m =
    let value' = (value + b % 128 * 2 ^ m % 2 ^ 64) % 2 ^ 64 in
    let more = decode_rest rest value' (m + 7) in
    if bit 7 b
    then fail_if (ltb 56 (m + 7)) (from_code hpack_error "HPACK integer overflow") more
    else ok (value', rest)

-- `data.front() & mask` is the remainder by `2 ^ prefix_bits`.
unfoldable pub decode_int : List ℕ → ℕ → Result (ℕ × List ℕ)
unfolding decode_rest
decode_int [] prefix_bits = err (from_code hpack_error "truncated HPACK integer")
decode_int (b ∷ rest) prefix_bits =
    let mask = 2 ^ prefix_bits - 1 in
    let value = b % 2 ^ prefix_bits in
    let more = decode_rest rest value 0 in
    fail_if (prefix_bits == 0 || ltb 8 prefix_bits)
      (from_code hpack_error "truncated HPACK integer")
      (if ltb value mask
        then fail_if (value == 0 && prefix_bits == 7) (from_code hpack_error "invalid index 0")
            (ok (value, rest))
        else more)

-- The part of `decode_string` behind the length.
unfoldable pub decode_text : Bool → ℕ → List ℕ → Result (List ℕ × List ℕ)
unfolding huffman_decode
decode_text huffman len rest =
    let coded = huffman_decode (take len rest) >>= λ s. ok (s, drop len rest) in
    fail_if (ltb 65535 len || ltb (length rest) len)
      (from_code hpack_error "invalid HPACK string length")
      (if huffman then coded else ok (take len rest, drop len rest))

unfoldable pub decode_string : List ℕ → Result (List ℕ × List ℕ)
unfolding decode_int decode_text
decode_string [] = err (from_code hpack_error "truncated HPACK string")
decode_string (b ∷ rest) = do
  (len, rest') ← decode_int (b ∷ rest) 7
  decode_text (bit 7 b) len rest'

-- What one round of `decode` leaves: the rest of the data, the table and the headers.
abbrev pub Round : Type 0
Round = List ℕ × DynamicTable × List HpackHeader

abbrev pub or_error {ℓ} : {A : Type ℓ} → Option A → Result A
or_error none = err (from_code hpack_error "invalid HPACK index")
or_error (some a) = ok a

abbrev pub or_name_error {ℓ} : {A : Type ℓ} → Option A → Result A
or_name_error none = err (from_code hpack_error "invalid HPACK name index")
or_name_error (some a) = ok a

unfoldable pub decode_indexed : List ℕ → DynamicTable → List HpackHeader → Result Round
unfolding decode_int lookup
decode_indexed bytes t out = do
  (idx, rest) ← decode_int bytes 7
  h ← or_error (lookup idx t)
  ok (rest, t, out ++ h ∷ [])

unfoldable pub decode_size : List ℕ → DynamicTable → List HpackHeader → Result Round
unfolding decode_int set_max_table_size
decode_size bytes t out = do
  (size, rest) ← decode_int bytes 5
  fail_if (ltb t.max_table_size size) (from_code hpack_error "dynamic table size update too large")
      (ok (rest, set_max_table_size size t, out))

-- The name of a literal: a string of its own, or that of a table entry.
unfoldable pub decode_name : ℕ → List ℕ → DynamicTable → Result (List ℕ × List ℕ)
unfolding decode_string lookup
decode_name name_idx bytes t =
    let indexed = or_name_error (lookup name_idx t) >>= λ h. ok (h.name, bytes) in
    if name_idx == 0 then decode_string bytes else indexed

unfoldable pub decode_literal : ℕ → List ℕ → DynamicTable → List HpackHeader → Result Round
unfolding decode_int decode_name decode_string has_uppercase add_to_dynamic
decode_literal b bytes t out = do
  (name_idx, rest₁) ← decode_int bytes (if bit 6 b then 6 else 4)
  (name, rest₂) ← decode_name name_idx rest₁ t
  (value, rest₃) ← decode_string rest₂
  let header : HpackHeader = record { name = name; value = value; sensitive = bit 4 b }
  fail_if (has_uppercase name) (from_code hpack_error "uppercase HTTP/2 header name")
      (ok (rest₃, (if bit 6 b then add_to_dynamic header t else t), out ++ header ∷ []))

-- One round of the loop. An error changes neither the table nor the headers.
unfoldable pub decode_one : ℕ → List ℕ → DynamicTable → List HpackHeader → Result Round
unfolding decode_indexed decode_size decode_literal
decode_one b bytes t out =
    if bit 7 b
    then decode_indexed bytes t out
    else if bit 5 b
    then decode_size bytes t out
    else decode_literal b bytes t out

-- `while (!data.empty())`, on fuel.
unfoldable pub decode_loop :
    ℕ
    → List ℕ
    → DynamicTable
    → List HpackHeader
    → Result (Unit {0}) × DynamicTable × List HpackHeader
unfolding decode_one
decode_loop fuel [] t out = (ok tt, t, out)
decode_loop zero (b ∷ bytes) t out = (stuck, t, out)
decode_loop (suc fuel) (b ∷ bytes) t out = elim (decode_one b (b ∷ bytes) t out) [
  | ok (rest, t', out') ↦ decode_loop fuel rest t' out'
  | err e ↦ (err e, t, out)
  | stuck ↦ (stuck, t, out)
]

-- Each round takes a byte at least.
unfoldable pub decode :
    List ℕ → DynamicTable → List HpackHeader → Result (Unit {0}) × DynamicTable × List HpackHeader
unfolding decode_loop
decode bytes t out = decode_loop (length bytes) bytes t out
