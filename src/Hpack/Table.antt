-- ===== src/Hpack/Table.antt =====
-- include/uproxy/hpack.h, src/hpack.cpp: the dynamic table, which `HpackEncoder` and
-- `HpackDecoder` each keep in the same three members. The deque is a list, newest entry first.
use uproxy.Base.{
  ℕ, zero, suc, ◌+◌, ◌-◌, ◌%◌, ◌^◌, List, [], ◌∷◌, Option, none, ltb, ◌==◌, ◌||◌, if◌then◌else◌,
  length, get_elem?,
}
use uproxy.Hpack.Header.{HpackHeader, static_table, static_size, entry_size}

pub record DynamicTable : Type 0 where
  pub dynamic_table : List HpackHeader
  pub table_size : ℕ
  pub max_table_size : ℕ

abbrev pub fresh : DynamicTable
fresh = record { dynamic_table = []; table_size = 0; max_table_size = 4096 }

-- `table_size_ -= entry_size(dynamic_table_.back())`, on `size_t`.
abbrev pub without : ℕ → HpackHeader → ℕ
without size h = (size + 2 ^ 64 - entry_size h) % 2 ^ 64

-- `back` of a deque that is not empty, and `pop_back`.
abbrev pub back : HpackHeader → List HpackHeader → HpackHeader
back h [] = h
back h (g ∷ hs) = back g hs

abbrev pub pop_back : List HpackHeader → List HpackHeader
pop_back [] = []
pop_back (h ∷ []) = []
pop_back (h ∷ g ∷ hs) = h ∷ pop_back (g ∷ hs)

-- `while (table_size_ > max_table_size_ && !dynamic_table_.empty())`, on fuel.
unfoldable pub evict_loop : ℕ → DynamicTable → List HpackHeader → DynamicTable
evict_loop fuel t [] = record t { dynamic_table = [] }
evict_loop zero t (h ∷ hs) = record t { dynamic_table = h ∷ hs }
evict_loop (suc fuel) t (h ∷ hs) =
    let rest =
      evict_loop fuel (record t { table_size = without t.table_size (back h hs) })
        (pop_back (h ∷ hs)) in
    if ltb t.max_table_size t.table_size then rest else record t { dynamic_table = h ∷ hs }

-- Each round takes an entry off.
unfoldable pub evict : DynamicTable → DynamicTable
unfolding evict_loop
evict t = evict_loop (length t.dynamic_table) t t.dynamic_table

-- `set_max_table_size`, of the encoder and of the decoder.
unfoldable pub set_max_table_size : ℕ → DynamicTable → DynamicTable
unfolding evict
set_max_table_size n t = evict (record t { max_table_size = n })

-- `add_to_dynamic` of the decoder, and the same steps in the encoder's loop.
unfoldable pub add_to_dynamic : HpackHeader → DynamicTable → DynamicTable
unfolding evict
add_to_dynamic h t = evict (record t {
  dynamic_table = h ∷ t.dynamic_table;
  table_size = (t.table_size + entry_size h) % 2 ^ 64;
})

-- `HpackDecoder::lookup`; `none` is the null pointer.
unfoldable pub lookup : ℕ → DynamicTable → Option HpackHeader
unfolding static_table
lookup index t =
    let dyn = index - static_size in
    if index == 0
    then none
    else if ltb index static_size
    then get_elem? static_table index
    else if dyn == 0 || ltb (length t.dynamic_table) dyn
    then none
    else get_elem? t.dynamic_table (dyn - 1)
