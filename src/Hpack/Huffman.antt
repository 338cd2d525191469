-- ===== src/Hpack/Huffman.antt =====
-- src/hpack.cpp: the Huffman branches of `encode_string` and `HpackDecoder::decode_string`.
-- `x << k` on 64 bits is `x * 2 ^ k % 2 ^ 64`, and `x >> k` is `x / 2 ^ k`.
use uproxy.Base.{
  ℕ, zero, suc, ◌+◌, ◌-◌, ◌*◌, ◌/◌, ◌%◌, ◌^◌, bit_or, List, [], ◌∷◌, ◌++◌, Option, none, some, ltb,
  leb, ◌==◌, if◌then◌else◌, length, get_or, set, Result, ok, err, ◌>>=◌, from_code, hpack_error,
}
use uproxy.Hpack.HuffmanTable.{HpackHuffmanSym, huffman_sym_table}

abbrev no_sym : HpackHuffmanSym
no_sym = record { nbits = 0; code = 0 }

abbrev pub sym_of : ℕ → HpackHuffmanSym
sym_of c = get_or huffman_sym_table c no_sym

-- `sym.code >> (32 - sym.nbits)`
abbrev pub code_of : HpackHuffmanSym → ℕ
code_of s = s.code / 2 ^ (32 - s.nbits)

unfoldable pub huffman_len : List ℕ → ℕ
unfolding huffman_sym_table
huffman_len [] = 0
huffman_len (c ∷ s) = (sym_of c).nbits + huffman_len s

-- `while (bit_len >= 8)`: the whole bytes at the top of `bit_buf`, and the bits left over.
unfoldable pub flush_bytes : ℕ → ℕ → ℕ → List ℕ → ℕ × List ℕ
flush_bytes zero bit_buf bit_len enc = (bit_len, enc)
flush_bytes (suc fuel) bit_buf bit_len enc =
    let rest =
      flush_bytes fuel bit_buf (bit_len - 8) (enc ++ bit_buf / 2 ^ (bit_len - 8) % 256 ∷ []) in
    if leb 8 bit_len then rest else (bit_len, enc)

-- The loop over the text. A symbol has 30 bits at most, so five rounds flush its bytes.
unfoldable pub encode_symbols : List ℕ → ℕ → ℕ → List ℕ → ℕ × ℕ × List ℕ
unfolding flush_bytes huffman_sym_table
encode_symbols [] bit_buf bit_len enc = (bit_buf, bit_len, enc)
encode_symbols (c ∷ s) bit_buf bit_len enc =
    let sym = sym_of c in
    let buf = bit_or (bit_buf * 2 ^ sym.nbits % 2 ^ 64) (code_of sym) in
    let (bit_len', enc') = flush_bytes 5 buf (bit_len + sym.nbits) enc in
    encode_symbols s buf bit_len' enc'

-- The last byte is filled up with ones.
unfoldable pub huffman_encode : List ℕ → List ℕ
unfolding encode_symbols
huffman_encode s =
    let (bit_buf, bit_len, enc) = encode_symbols s 0 0 [] in
    let pad = 8 - bit_len in
    if ltb 0 bit_len
    then enc ++ bit_or (bit_buf * 2 ^ pad % 2 ^ 64) (2 ^ pad - 1) % 256 ∷ []
    else enc

-- A node of the decoding tree: `none` is -1.
pub record HuffNode : Type 0 where
  pub left : Option ℕ
  pub right : Option ℕ
  pub sym : Option ℕ

abbrev pub empty_node : HuffNode
empty_node = record { left = none; right = none; sym = none }

abbrev pub node_at : List HuffNode → ℕ → HuffNode
node_at tree i = get_or tree i empty_node

-- One bit on from a node: the child, added to the tree if it is missing.
unfoldable pub grow_child : ℕ → ℕ → List HuffNode → ℕ × List HuffNode
grow_child bit node tree =
    let n = node_at tree node in
    let fresh = length tree in
    if bit == 0
    then elim n.left [
      | some child ↦ (child, tree)
      | none ↦ (fresh, set tree node (record n { left = some fresh }) ++ empty_node ∷ [])
    ]
    else elim n.right [
      | some child ↦ (child, tree)
      | none ↦ (fresh, set tree node (record n { right = some fresh }) ++ empty_node ∷ [])
    ]

-- `for (int b = nbits - 1; b >= 0; --b)`
unfoldable pub grow_path : ℕ → ℕ → ℕ → List HuffNode → ℕ × List HuffNode
unfolding grow_child
grow_path zero code node tree = (node, tree)
grow_path (suc b) code node tree =
    let (child, tree') = grow_child (code / 2 ^ b % 2) node tree in grow_path b code child tree'

-- `for (int i = 0; i < 257; ++i)`, from symbol `i` on.
unfoldable pub grow_tree : ℕ → List HpackHuffmanSym → List HuffNode → List HuffNode
unfolding grow_path
grow_tree i [] tree = tree
grow_tree i (s ∷ syms) tree =
    let (node, tree') = grow_path s.nbits (code_of s) 0 tree in
    grow_tree (i + 1) syms (set tree' node (record (node_at tree' node) { sym = some i }))

-- The static `tree`, built on the first call and not changed afterwards.
unfoldable pub huffman_tree : List HuffNode
unfolding grow_tree huffman_sym_table
huffman_tree = grow_tree 0 huffman_sym_table (empty_node ∷ [])

-- One bit of the input: the node reached, and the text so far.
unfoldable pub decode_bit : List HuffNode → ℕ → ℕ × List ℕ → Result (ℕ × List ℕ)
decode_bit tree bit (node, out) =
    elim (if bit == 0 then (node_at tree node).left else (node_at tree node).right) [
      | none ↦ err (from_code hpack_error "invalid Huffman code")
      | some child ↦ elim (node_at tree child).sym [
        | none ↦ ok (child, out)
        | some s ↦
            if s == 256
            then err (from_code hpack_error "EOS symbol in Huffman")
            else ok (0, out ++ s ∷ [])
      ]
    ]

-- `for (int bit = 7; bit >= 0; --bit)`
unfoldable pub decode_byte : List HuffNode → ℕ → ℕ → ℕ × List ℕ → Result (ℕ × List ℕ)
unfolding decode_bit
decode_byte tree zero b st = ok st
decode_byte tree (suc bit) b st = do
  st' ← decode_bit tree (b / 2 ^ bit % 2) st
  decode_byte tree bit b st'

unfoldable pub decode_bytes : List HuffNode → List ℕ → ℕ × List ℕ → Result (ℕ × List ℕ)
unfolding decode_byte
decode_bytes tree [] st = ok st
decode_bytes tree (b ∷ bs) st = do st' ← decode_byte tree 8 b st; decode_bytes tree bs st'

-- The padding is not looked at: bits after the last symbol are ignored.
unfoldable pub huffman_decode : List ℕ → Result (List ℕ)
unfolding decode_bytes
huffman_decode bs = do st ← decode_bytes huffman_tree bs (0, []); ok st.1
