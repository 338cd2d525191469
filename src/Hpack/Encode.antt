-- ===== src/Hpack/Encode.antt =====
-- src/hpack.cpp: `encode_int`, `encode_string` and `HpackEncoder::encode`.
use uproxy.Base.{
  ℕ, zero, suc, ◌+◌, ◌-◌, ◌/◌, ◌%◌, ◌^◌, bit_or, Bool, true, false, List, [], ◌∷◌, ltb, leb, ◌||◌,
  if◌then◌else◌, length, bytes_eq, codes, Result, ok, err, stuck, ◌>>=◌, from_code, hpack_error,
}
use uproxy.Buffer.{RingBuffer, append}
use uproxy.Hpack.Header.{HpackHeader, has_uppercase}
use uproxy.Hpack.Table.{DynamicTable, add_to_dynamic}
use uproxy.Hpack.Huffman.{huffman_len, huffman_encode}

-- `while (value >= 128)` and the last byte, on fuel.
unfoldable pub encode_rest : ℕ → ℕ → RingBuffer → Result RingBuffer
encode_rest zero value out = stuck
encode_rest (suc fuel) value out = elim (leb 128 value) [
  | true ↦ do
    out' ← append ((value % 128 + 128) % 256 ∷ []) out
    encode_rest fuel (value / 128) out'
  | false ↦ append (value % 256 ∷ []) out
]

-- A `uint64_t` has ten groups of seven bits at most.
unfoldable pub encode_int : ℕ → ℕ → ℕ → RingBuffer → Result RingBuffer
unfolding encode_rest
encode_int value prefix_bits prefix out =
    let max_prefix = 2 ^ prefix_bits - 1 in
    let short = append (bit_or prefix value % 256 ∷ []) out in
    let long = append (bit_or prefix max_prefix % 256 ∷ []) out >>= λ out'.
    encode_rest 10 (value - max_prefix) out' in
    if ltb value max_prefix then short else long

-- The Huffman code is used where it is shorter.
unfoldable pub encode_string : List ℕ → RingBuffer → Result RingBuffer
unfolding encode_int huffman_len huffman_encode
encode_string s out =
    let huffman_bytes = (huffman_len s + 7) / 8 in
    let coded = encode_int huffman_bytes 7 0x80 out >>= λ out'. append (huffman_encode s) out' in
    let plain = encode_int (length s) 7 0x00 out >>= λ out'. append s out' in
    if ltb huffman_bytes (length s) then coded else plain

abbrev pub is_sensitive : HpackHeader → Bool
is_sensitive h =
    h.sensitive
    || (bytes_eq h.name (codes "authorization")
        || (bytes_eq h.name (codes "cookie") || bytes_eq h.name (codes "proxy-authorization")))

-- The three parts of a literal field. It never refers to a table entry.
unfoldable pub encode_field : HpackHeader → RingBuffer → Result RingBuffer
unfolding encode_int encode_string
encode_field h out = do
  out₁ ← if is_sensitive h then encode_int 0 4 0x10 out else encode_int 0 6 0x40 out
  out₂ ← encode_string h.name out₁
  encode_string h.value out₂

-- `HpackEncoder::encode`. The table keeps the fields that were encoded before an error; the
-- caller drops the output then.
unfoldable pub encode :
    List HpackHeader → DynamicTable → RingBuffer → Result RingBuffer × DynamicTable
unfolding encode_field has_uppercase add_to_dynamic
encode [] t out = (ok out, t)
encode (h ∷ hs) t out =
    let t' = if is_sensitive h then t else add_to_dynamic h t in
    let coded : Result RingBuffer × DynamicTable = elim (encode_field h out) [
      | ok out' ↦ encode hs t' out'
      | err e ↦ (err e, t)
      | stuck ↦ (stuck, t)
    ] in
    if has_uppercase h.name
    then (err (from_code hpack_error "uppercase HTTP/2 header name"), t)
    else coded
