-- ===== src/Hpack.antt =====
-- include/uproxy/hpack.h, src/hpack.cpp: header compression. The children model the static table,
-- the dynamic table, the Huffman code, the encoder and the decoder, and prove their laws.
pub mod Header
pub mod HuffmanTable
pub mod Table
pub mod Huffman
pub mod Encode
pub mod Decode
pub mod Int
pub mod Size
pub mod Strings
pub mod Total
mod Tests
