-- ===== src/Hpack/Size.antt =====
-- src/hpack.cpp: `table_size_` is the size of the dynamic table, and stays within the maximum.
use uproxy.Base.{
  ℕ, zero, suc, ◌+◌, ◌%◌, ◌^◌, ◌≤◌, ◌<◌, ◌≡◌, refl, sym, ap, ◌∙◌, List, [], ◌∷◌, ◌++◌, arith, ltb,
  none, some, length, false, Bool-cases, inl, inr,
}
use mathlib.Core.List.{append-nil, append_assoc}
use uproxy.Hpack.Header.{HpackHeader, entry_size}
use uproxy.Hpack.Table.{
  DynamicTable, without, back, pop_back, evict_loop, evict, set_max_table_size, add_to_dynamic,
  lookup,
}

-- The size of a table, as HPACK defines it.
abbrev pub sum_sizes : List HpackHeader → ℕ
sum_sizes [] = 0
sum_sizes (h ∷ hs) = entry_size h + sum_sizes hs

pub record IsSized (t : DynamicTable) : Type 0 where
  pub size_eq : t.table_size ≡ sum_sizes t.dynamic_table
  pub within : t.table_size ≤ t.max_table_size
  pub small : t.max_table_size < 2 ^ 63

pop_back_sum :
    (h : HpackHeader) (hs : List HpackHeader)
    → sum_sizes (pop_back (h ∷ hs)) + entry_size (back h hs) ≡ sum_sizes (h ∷ hs)
pop_back_sum h [] = omega arith
pop_back_sum h (g ∷ hs) = omega (arith, pop_back_sum g hs)

length-pop_back :
    (h : HpackHeader) (hs : List HpackHeader) → suc (length (pop_back (h ∷ hs))) ≡ length (h ∷ hs)
length-pop_back h [] = refl
length-pop_back h (g ∷ hs) = ap suc (length-pop_back g hs)

pop_back_append :
    (h : HpackHeader) (hs : List HpackHeader) → pop_back (h ∷ hs) ++ back h hs ∷ [] ≡ h ∷ hs
pop_back_append h [] = refl
pop_back_append h (g ∷ hs) = ap (◌∷◌ h) (pop_back_append g hs)

-- An entry was dropped only if it did not fit behind those that are kept.
abbrev pub IsNeeded : ℕ → List HpackHeader → List HpackHeader → Type 0
IsNeeded limit kept [] = Unit {0}
IsNeeded limit kept (g ∷ gone) = limit < sum_sizes kept + entry_size g

IsNeeded-append :
    (limit : ℕ) (kept gone : List HpackHeader) (last : HpackHeader)
    → IsNeeded limit kept gone
    → limit < sum_sizes (kept ++ gone) + entry_size last
    → IsNeeded limit kept (gone ++ last ∷ [])
IsNeeded-append limit kept [] last n h = rw append-nil at h
IsNeeded-append limit kept (g ∷ gone) last n h = n

-- The table keeps the newest entries of a list, as many as fit.
pub record Evicted (entries : List HpackHeader) (limit : ℕ) (t : DynamicTable) : Type 0 where
  pub limit_eq : t.max_table_size ≡ limit
  pub size_eq : t.table_size ≡ sum_sizes t.dynamic_table
  pub within : t.table_size ≤ limit
  pub gone : List HpackHeader
  pub parts : t.dynamic_table ++ gone ≡ entries
  pub needed : IsNeeded limit t.dynamic_table gone

evict_loop_lem :
    (fuel : ℕ) (t : DynamicTable) (hs : List HpackHeader)
    → length hs ≤ fuel
    → t.table_size ≡ sum_sizes hs
    → sum_sizes hs < 2 ^ 64
    → Evicted hs t.max_table_size (evict_loop fuel t hs)
unfolding evict_loop
evict_loop_lem fuel t [] h e small = record {
  limit_eq = refl;
  size_eq = e;
  within = omega arith;
  gone = [];
  parts = refl;
  needed = tt;
}
evict_loop_lem zero t (x ∷ hs) h e small = absurd (omega arith)
evict_loop_lem (suc fuel) t (x ∷ hs) h e small =
    elim (Bool-cases (ltb t.max_table_size t.table_size)) [
      | inr fits ↦ rw fits (record {
        limit_eq = refl;
        size_eq = e;
        within = ground arith;
        gone = [];
        parts = append-nil (x ∷ hs);
        needed = tt;
      })
      | inl over ↦
          let sum = pop_back_sum x hs in
          let len = length-pop_back x hs in
          let t' : DynamicTable = record t { table_size = without t.table_size (back x hs) } in
          let r =
            evict_loop_lem fuel t' (pop_back (x ∷ hs)) (omega (arith, len)) (omega (arith, sum))
              (omega (arith, sum)) in
          rw over (dropped_last x hs t.max_table_size _ r (ground (arith, sum)))
    ]
  where
    dropped_last :
        (x : HpackHeader) (hs : List HpackHeader) (limit : ℕ) (r : DynamicTable)
        → Evicted (pop_back (x ∷ hs)) limit r
        → limit < sum_sizes (x ∷ hs)
        → Evicted (x ∷ hs) limit r
    dropped_last x hs limit r k over = record {
      limit_eq = k.limit_eq;
      size_eq = k.size_eq;
      within = k.within;
      gone = k.gone ++ back x hs ∷ [];
      parts =
          sym (append_assoc r.dynamic_table k.gone (back x hs ∷ []))
          ∙ ap (λ l. l ++ back x hs ∷ []) k.parts
          ∙ pop_back_append x hs;
      needed =
          IsNeeded-append limit r.dynamic_table k.gone (back x hs) k.needed
            (rw k.parts (omega (arith, pop_back_sum x hs)));
    }

Evicted-IsSized :
    (entries : List HpackHeader) (limit : ℕ) (t : DynamicTable)
    → Evicted entries limit t
    → limit < 2 ^ 63
    → IsSized t
Evicted-IsSized entries limit t k small = record {
  size_eq = k.size_eq;
  within = omega (arith, k.within, k.limit_eq);
  small = rw k.limit_eq small;
}

-- A new entry (of fewer than 2 ^ 63 bytes) goes to the front of a table of the right size, and the
-- oldest entries make room for it: as many as do not fit, none more. The size stays right.
pub add_to_dynamic_lem :
    (h : HpackHeader) (t : DynamicTable)
    → IsSized t
    → entry_size h < 2 ^ 63
    → Evicted (h ∷ t.dynamic_table) t.max_table_size (add_to_dynamic h t)
      × IsSized (add_to_dynamic h t)
unfolding add_to_dynamic evict
add_to_dynamic_lem h t s small =
    (k, Evicted-IsSized (h ∷ t.dynamic_table) t.max_table_size (add_to_dynamic h t) k s.small)
  where
    sum : (t.table_size + entry_size h) % 2 ^ 64 ≡ sum_sizes (h ∷ t.dynamic_table)
    sum = omega (arith, s.size_eq, s.within, s.small)

    k : Evicted (h ∷ t.dynamic_table) t.max_table_size (add_to_dynamic h t)
    k =
        evict_loop_lem (suc (length t.dynamic_table))
          (record t {
            dynamic_table = h ∷ t.dynamic_table;
            table_size = (t.table_size + entry_size h) % 2 ^ 64;
          })
          (h ∷ t.dynamic_table) (omega arith) sum (omega (arith, s.size_eq, s.within, s.small))

-- A new maximum (below 2 ^ 63) drops the oldest entries of a table of the right size that do not
-- fit any more, none more. The size stays right.
set_max_table_size_lem :
    (n : ℕ) (t : DynamicTable)
    → IsSized t
    → n < 2 ^ 63
    → Evicted t.dynamic_table n (set_max_table_size n t) × IsSized (set_max_table_size n t)
unfolding set_max_table_size evict
set_max_table_size_lem n t s small =
    (k, Evicted-IsSized t.dynamic_table n (set_max_table_size n t) k small)
  where
    k : Evicted t.dynamic_table n (set_max_table_size n t)
    k =
        evict_loop_lem (length t.dynamic_table) (record t { max_table_size = n }) t.dynamic_table
          (omega arith) s.size_eq (omega (arith, s.size_eq, s.within, s.small))

-- A new entry that fits a table of the right size is found at index 63, and index 62 is refused.
pub lookup-add_to_dynamic :
    (h : HpackHeader) (t : DynamicTable)
    → IsSized t
    → entry_size h ≤ t.max_table_size
    → (lookup 63 (add_to_dynamic h t) ≡ some h) × (lookup 62 (add_to_dynamic h t) ≡ none)
unfolding lookup
lookup-add_to_dynamic h t s fits =
    (newest (add_to_dynamic h t) (add_to_dynamic_lem h t s (omega (arith, s.small))).0, refl)
  where
    newest :
        (r : DynamicTable) → Evicted (h ∷ t.dynamic_table) t.max_table_size r → lookup 63 r ≡ some h
    newest r k = front r.dynamic_table k.gone refl k.parts k.needed
      where
        front :
            (kept gone : List HpackHeader)
            → r.dynamic_table ≡ kept
            → kept ++ gone ≡ h ∷ t.dynamic_table
            → IsNeeded t.max_table_size kept gone
            → lookup 63 r ≡ some h
        front [] [] e p n = cc
        front [] (g ∷ gone) e p n = let same : g ≡ h = cc in absurd (omega (arith, rw same at n))
        front (g ∷ kept) gone e p n =
            let same : g ≡ h = cc in
            let room : ltb (suc (length kept)) 1 ≡ false = ground arith in rw (e, room, same)
