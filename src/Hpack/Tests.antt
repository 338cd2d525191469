-- ===== src/Hpack/Tests.antt =====
-- src/hpack.cpp: the laws of HPACK on concrete headers, and runs of its Huffman code.
use uproxy.Base.{
  ℕ, ◌+◌, ◌/◌, ◌≤◌, ◌≡◌, ◌≢◌, refl, arith, inl, List, [], ◌∷◌, ◌++◌, none, some, codes, ok, stuck,
}
use uproxy.Buffer.{RingBuffer, make}
use uproxy.Buffer.Fifo.{contents, make-IsValid, contents-make}
use uproxy.Hpack.Header.{HpackHeader, entry}
use uproxy.Hpack.HuffmanTable.{huffman_sym_table}
use uproxy.Hpack.Table.{DynamicTable, fresh, add_to_dynamic, lookup}
use uproxy.Hpack.Huffman.{huffman_len, huffman_encode}
use uproxy.Hpack.Encode.{encode_int, encode_string}
use uproxy.Hpack.Decode.{decode_int, decode_string, decode}
use uproxy.Hpack.Size.{IsSized, Evicted, add_to_dynamic_lem, lookup-add_to_dynamic}
use uproxy.Hpack.Strings.{IsPrefix-huffman, decode_int-encode_int, decode_string-encode_string}
use uproxy.Hpack.Total.{decode_ends}

abbrev host : HpackHeader
host = entry "host" "a"

abbrev path : HpackHeader
path = entry "path" "b"

-- Two entries of 37 bytes each, in a table of 80 bytes.
abbrev two : DynamicTable
two = record { dynamic_table = host ∷ path ∷ []; table_size = 74; max_table_size = 80 }

two-IsSized : IsSized two
two-IsSized = record { size_eq = refl; within = omega arith; small = omega arith }

add_to_dynamic_lem_example :
    Evicted (entry "x" "y" ∷ two.dynamic_table) 80 (add_to_dynamic (entry "x" "y") two)
    × IsSized (add_to_dynamic (entry "x" "y") two)
add_to_dynamic_lem_example = add_to_dynamic_lem (entry "x" "y") two two-IsSized (omega arith)

lookup-add_to_dynamic_example :
    (lookup 63 (add_to_dynamic (entry "x" "y") two) ≡ some (entry "x" "y"))
    × (lookup 62 (add_to_dynamic (entry "x" "y") two) ≡ none)
lookup-add_to_dynamic_example = lookup-add_to_dynamic (entry "x" "y") two two-IsSized (omega arith)

decode_int-encode_int_example :
    (b' : RingBuffer) × (encode_int 1337 7 0x80 (make 2) ≡ ok b')
    × (decode_int (contents b' ++ 5 ∷ []) 7 ≡ ok (1337, 5 ∷ []))
decode_int-encode_int_example =
    decode_int-encode_int 1337 7 0x80 (5 ∷ []) (make 2) IsPrefix-huffman (make-IsValid 2)
      (contents-make 2) (omega arith) (inl (omega arith))

-- A text whose bytes have long codes.
abbrev coarse : List ℕ
coarse = 1 ∷ 2 ∷ 255 ∷ []

coarse_plain : 3 ≤ (huffman_len coarse + 7) / 8
unfolding huffman_len huffman_sym_table
coarse_plain = omega arith

decode_string-encode_string_example :
    (b' : RingBuffer) × (encode_string coarse (make 2) ≡ ok b')
    × (decode_string (contents b' ++ 9 ∷ []) ≡ ok (coarse, 9 ∷ []))
decode_string-encode_string_example =
    decode_string-encode_string coarse (9 ∷ []) (make 2) (make-IsValid 2) (contents-make 2)
      (omega arith) (omega arith) coarse_plain

decode_ends_example : (decode (0x82 ∷ 0x41 ∷ 0x82 ∷ 0xff ∷ []) fresh []).0 ≢ stuck
decode_ends_example = decode_ends (0x82 ∷ 0x41 ∷ 0x82 ∷ 0xff ∷ []) fresh []

huffman_www :
    huffman_encode (codes "www.example.com")
    ≡ 0xf1 ∷ 0xe3 ∷ 0xc2 ∷ 0xe5 ∷ 0xf2 ∷ 0x3a ∷ 0x6b ∷ 0xa0 ∷ 0xab ∷ 0x90 ∷ 0xf4 ∷ 0xff ∷ []
unfolding huffman_encode huffman_sym_table
huffman_www = refl
