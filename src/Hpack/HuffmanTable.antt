-- ===== src/Hpack/HuffmanTable.antt =====
-- include/uproxy/hpack_huffman_table.h: the Huffman code of each byte, and of the end mark 256.
use uproxy.Base.{ℕ, List, [], ◌∷◌}

-- The code is the topmost `nbits` bits of `code`, a 32-bit word.
pub record HpackHuffmanSym : Type 0 where
  pub nbits : ℕ
  pub code : ℕ

abbrev sym : ℕ → ℕ → HpackHuffmanSym
sym nbits code = record { nbits = nbits; code = code }

unfoldable pub huffman_sym_table : List HpackHuffmanSym
huffman_sym_table =
    sym 13 0xffc00000
    ∷ sym 23 0xffffb000
    ∷ sym 28 0xfffffe20
    ∷ sym 28 0xfffffe30
    ∷ sym 28 0xfffffe40
    ∷ sym 28 0xfffffe50
    ∷ sym 28 0xfffffe60
    ∷ sym 28 0xfffffe70
    ∷ sym 28 0xfffffe80
    ∷ sym 24 0xffffea00
    ∷ sym 30 0xfffffff0
    ∷ sym 28 0xfffffe90
    ∷ sym 28 0xfffffea0
    ∷ sym 30 0xfffffff4
    ∷ sym 28 0xfffffeb0
    ∷ sym 28 0xfffffec0
    ∷ sym 28 0xfffffed0
    ∷ sym 28 0xfffffee0
    ∷ sym 28 0xfffffef0
    ∷ sym 28 0xffffff00
    ∷ sym 28 0xffffff10
    ∷ sym 28 0xffffff20
    ∷ sym 30 0xfffffff8
    ∷ sym 28 0xffffff30
    ∷ sym 28 0xffffff40
    ∷ sym 28 0xffffff50
    ∷ sym 28 0xffffff60
    ∷ sym 28 0xffffff70
    ∷ sym 28 0xffffff80
    ∷ sym 28 0xffffff90
    ∷ sym 28 0xffffffa0
    ∷ sym 28 0xffffffb0
    ∷ sym 6 0x50000000
    ∷ sym 10 0xfe000000
    ∷ sym 10 0xfe400000
    ∷ sym 12 0xffa00000
    ∷ sym 13 0xffc80000
    ∷ sym 6 0x54000000
    ∷ sym 8 0xf8000000
    ∷ sym 11 0xff400000
    ∷ sym 10 0xfe800000
    ∷ sym 10 0xfec00000
    ∷ sym 8 0xf9000000
    ∷ sym 11 0xff600000
    ∷ sym 8 0xfa000000
    ∷ sym 6 0x58000000
    ∷ sym 6 0x5c000000
    ∷ sym 6 0x60000000
    ∷ sym 5 0x0
    ∷ sym 5 0x8000000
    ∷ sym 5 0x10000000
    ∷ sym 6 0x64000000
    ∷ sym 6 0x68000000
    ∷ sym 6 0x6c000000
    ∷ sym 6 0x70000000
    ∷ sym 6 0x74000000
    ∷ sym 6 0x78000000
    ∷ sym 6 0x7c000000
    ∷ sym 7 0xb8000000
    ∷ sym 8 0xfb000000
    ∷ sym 15 0xfff80000
    ∷ sym 6 0x80000000
    ∷ sym 12 0xffb00000
    ∷ sym 10 0xff000000
    ∷ sym 13 0xffd00000
    ∷ sym 6 0x84000000
    ∷ sym 7 0xba000000
    ∷ sym 7 0xbc000000
    ∷ sym 7 0xbe000000
    ∷ sym 7 0xc0000000
    ∷ sym 7 0xc2000000
    ∷ sym 7 0xc4000000
    ∷ sym 7 0xc6000000
    ∷ sym 7 0xc8000000
    ∷ sym 7 0xca000000
    ∷ sym 7 0xcc000000
    ∷ sym 7 0xce000000
    ∷ sym 7 0xd0000000
    ∷ sym 7 0xd2000000
    ∷ sym 7 0xd4000000
    ∷ sym 7 0xd6000000
    ∷ sym 7 0xd8000000
    ∷ sym 7 0xda000000
    ∷ sym 7 0xdc000000
    ∷ sym 7 0xde000000
    ∷ sym 7 0xe0000000
    ∷ sym 7 0xe2000000
    ∷ sym 7 0xe4000000
    ∷ sym 8 0xfc000000
    ∷ sym 7 0xe6000000
    ∷ sym 8 0xfd000000
    ∷ sym 13 0xffd80000
    ∷ sym 19 0xfffe0000
    ∷ sym 13 0xffe00000
    ∷ sym 14 0xfff00000
    ∷ sym 6 0x88000000
    ∷ sym 15 0xfffa0000
    ∷ sym 5 0x18000000
    ∷ sym 6 0x8c000000
    ∷ sym 5 0x20000000
    ∷ sym 6 0x90000000
    ∷ sym 5 0x28000000
    ∷ sym 6 0x94000000
    ∷ sym 6 0x98000000
    ∷ sym 6 0x9c000000
    ∷ sym 5 0x30000000
    ∷ sym 7 0xe8000000
    ∷ sym 7 0xea000000
    ∷ sym 6 0xa0000000
    ∷ sym 6 0xa4000000
    ∷ sym 6 0xa8000000
    ∷ sym 5 0x38000000
    ∷ sym 6 0xac000000
    ∷ sym 7 0xec000000
    ∷ sym 6 0xb0000000
    ∷ sym 5 0x40000000
    ∷ sym 5 0x48000000
    ∷ sym 6 0xb4000000
    ∷ sym 7 0xee000000
    ∷ sym 7 0xf0000000
    ∷ sym 7 0xf2000000
    ∷ sym 7 0xf4000000
    ∷ sym 7 0xf6000000
    ∷ sym 15 0xfffc0000
    ∷ sym 11 0xff800000
    ∷ sym 14 0xfff40000
    ∷ sym 13 0xffe80000
    ∷ sym 28 0xffffffc0
    ∷ sym 20 0xfffe6000
    ∷ sym 22 0xffff4800
    ∷ sym 20 0xfffe7000
    ∷ sym 20 0xfffe8000
    ∷ sym 22 0xffff4c00
    ∷ sym 22 0xffff5000
    ∷ sym 22 0xffff5400
    ∷ sym 23 0xffffb200
    ∷ sym 22 0xffff5800
    ∷ sym 23 0xffffb400
    ∷ sym 23 0xffffb600
    ∷ sym 23 0xffffb800
    ∷ sym 23 0xffffba00
    ∷ sym 23 0xffffbc00
    ∷ sym 24 0xffffeb00
    ∷ sym 23 0xffffbe00
    ∷ sym 24 0xffffec00
    ∷ sym 24 0xffffed00
    ∷ sym 22 0xffff5c00
    ∷ sym 23 0xffffc000
    ∷ sym 24 0xffffee00
    ∷ sym 23 0xffffc200
    ∷ sym 23 0xffffc400
    ∷ sym 23 0xffffc600
    ∷ sym 23 0xffffc800
    ∷ sym 21 0xfffee000
    ∷ sym 22 0xffff6000
    ∷ sym 23 0xffffca00
    ∷ sym 22 0xffff6400
    ∷ sym 23 0xffffcc00
    ∷ sym 23 0xffffce00
    ∷ sym 24 0xffffef00
    ∷ sym 22 0xffff6800
    ∷ sym 21 0xfffee800
    ∷ sym 20 0xfffe9000
    ∷ sym 22 0xffff6c00
    ∷ sym 22 0xffff7000
    ∷ sym 23 0xffffd000
    ∷ sym 23 0xffffd200
    ∷ sym 21 0xfffef000
    ∷ sym 23 0xffffd400
    ∷ sym 22 0xffff7400
    ∷ sym 22 0xffff7800
    ∷ sym 24 0xfffff000
    ∷ sym 21 0xfffef800
    ∷ sym 22 0xffff7c00
    ∷ sym 23 0xffffd600
    ∷ sym 23 0xffffd800
    ∷ sym 21 0xffff0000
    ∷ sym 21 0xffff0800
    ∷ sym 22 0xffff8000
    ∷ sym 21 0xffff1000
    ∷ sym 23 0xffffda00
    ∷ sym 22 0xffff8400
    ∷ sym 23 0xffffdc00
    ∷ sym 23 0xffffde00
    ∷ sym 20 0xfffea000
    ∷ sym 22 0xffff8800
    ∷ sym 22 0xffff8c00
    ∷ sym 22 0xffff9000
    ∷ sym 23 0xffffe000
    ∷ sym 22 0xffff9400
    ∷ sym 22 0xffff9800
    ∷ sym 23 0xffffe200
    ∷ sym 26 0xfffff800
    ∷ sym 26 0xfffff840
    ∷ sym 20 0xfffeb000
    ∷ sym 19 0xfffe2000
    ∷ sym 22 0xffff9c00
    ∷ sym 23 0xffffe400
    ∷ sym 22 0xffffa000
    ∷ sym 25 0xfffff600
    ∷ sym 26 0xfffff880
    ∷ sym 26 0xfffff8c0
    ∷ sym 26 0xfffff900
    ∷ sym 27 0xfffffbc0
    ∷ sym 27 0xfffffbe0
    ∷ sym 26 0xfffff940
    ∷ sym 24 0xfffff100
    ∷ sym 25 0xfffff680
    ∷ sym 19 0xfffe4000
    ∷ sym 21 0xffff1800
    ∷ sym 26 0xfffff980
    ∷ sym 27 0xfffffc00
    ∷ sym 27 0xfffffc20
    ∷ sym 26 0xfffff9c0
    ∷ sym 27 0xfffffc40
    ∷ sym 24 0xfffff200
    ∷ sym 21 0xffff2000
    ∷ sym 21 0xffff2800
    ∷ sym 26 0xfffffa00
    ∷ sym 26 0xfffffa40
    ∷ sym 28 0xffffffd0
    ∷ sym 27 0xfffffc60
    ∷ sym 27 0xfffffc80
    ∷ sym 27 0xfffffca0
    ∷ sym 20 0xfffec000
    ∷ sym 24 0xfffff300
    ∷ sym 20 0xfffed000
    ∷ sym 21 0xffff3000
    ∷ sym 22 0xffffa400
    ∷ sym 21 0xffff3800
    ∷ sym 21 0xffff4000
    ∷ sym 23 0xffffe600
    ∷ sym 22 0xffffa800
    ∷ sym 22 0xffffac00
    ∷ sym 25 0xfffff700
    ∷ sym 25 0xfffff780
    ∷ sym 24 0xfffff400
    ∷ sym 24 0xfffff500
    ∷ sym 26 0xfffffa80
    ∷ sym 23 0xffffe800
    ∷ sym 26 0xfffffac0
    ∷ sym 27 0xfffffcc0
    ∷ sym 26 0xfffffb00
    ∷ sym 26 0xfffffb40
    ∷ sym 27 0xfffffce0
    ∷ sym 27 0xfffffd00
    ∷ sym 27 0xfffffd20
    ∷ sym 27 0xfffffd40
    ∷ sym 27 0xfffffd60
    ∷ sym 28 0xffffffe0
    ∷ sym 27 0xfffffd80
    ∷ sym 27 0xfffffda0
    ∷ sym 27 0xfffffdc0
    ∷ sym 27 0xfffffde0
    ∷ sym 27 0xfffffe00
    ∷ sym 26 0xfffffb80
    ∷ sym 30 0xfffffffc
    ∷ []
