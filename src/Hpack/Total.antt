-- ===== src/Hpack/Total.antt =====
-- src/hpack.cpp: the loops of `HpackDecoder` end, on any bytes.
use uproxy.Base.{
  ℕ, zero, suc, ◌+◌, ◌%◌, ◌*◌, ◌^◌, ◌≤◌, ◌≢◌, Bool, true, false, List, [], ◌∷◌, ◌++◌, Option, none,
  some, arith, ◌==◌, if◌then◌else◌, length, take, length-drop, Error, Result, ok, err, stuck, ◌>>=◌,
  fail_if,
}
use uproxy.Hpack.Header.{HpackHeader}
use uproxy.Hpack.Table.{DynamicTable, lookup}
use uproxy.Hpack.Huffman.{
  HuffNode, huffman_tree, decode_bit, decode_byte, decode_bytes, huffman_decode, node_at,
}
use uproxy.Hpack.Decode.{
  bit, decode_rest, decode_int, decode_text, decode_string, Round, decode_indexed, decode_size,
  decode_name, decode_literal, or_error, or_name_error, decode_one, decode_loop, decode,
}

-- A result that is no lack of fuel, and whose value has a size of `n` at most.
abbrev pub Bounded {ℓ} : {A : Type ℓ} → (A → ℕ) → ℕ → Result A → Type 0
Bounded size n (ok a) = size a ≤ n
Bounded size n (err e) = Unit {0}
Bounded size n stuck = ⊥

Bounded-bind {ℓ κ} :
    {A : Type ℓ} {B : Type κ} (f : A → ℕ) (g : B → ℕ) (n m : ℕ) (r : Result A) (k : A → Result B)
    → Bounded f n r
    → ((a : A) → f a ≤ n → Bounded g m (k a))
    → Bounded g m (r >>= k)
Bounded-bind f g n m (ok a) k h next = next a h
Bounded-bind f g n m (err e) k h next = tt
Bounded-bind f g n m stuck k h next = elim h [ ]

Bounded-fail_if {ℓ} :
    {A : Type ℓ} (f : A → ℕ) (n : ℕ) (test : Bool) (e : Error) (r : Result A)
    → Bounded f n r
    → Bounded f n (fail_if test e r)
Bounded-fail_if f n true e r h = tt
Bounded-fail_if f n false e r h = h

Bounded-if {ℓ} :
    {A : Type ℓ} (f : A → ℕ) (n : ℕ) (test : Bool) (r s : Result A)
    → Bounded f n r
    → Bounded f n s
    → Bounded f n (if test then r else s)
Bounded-if f n true r s h k = h
Bounded-if f n false r s h k = k

abbrev any_size {ℓ} : {A : Type ℓ} → A → ℕ
any_size a = 0

-- How much of the data is left behind a value.
abbrev left_over {ℓ} : {A : Type ℓ} → A × List ℕ → ℕ
left_over p = length p.1

at_most :
    (n : ℕ) {m : ℕ}
    → n ≤ m
    → (r : Result (List ℕ × List ℕ)) → Bounded left_over n r
    → Bounded left_over m r
at_most n h (ok p) k = omega arith
at_most n h (err e) k = tt
at_most n h stuck k = k

decode_rest_left :
    (bytes : List ℕ) (value m : ℕ) → Bounded left_over (length bytes) (decode_rest bytes value m)
unfolding decode_rest
decode_rest_left [] value m = tt
decode_rest_left (b ∷ bytes) value m =
    Bounded-if left_over _ (bit 7 b) _ _
      (Bounded-fail_if left_over _ _ _ _
        (weaker _ (decode_rest_left bytes ((value + b % 128 * 2 ^ m % 2 ^ 64) % 2 ^ 64) (m + 7))))
      (omega arith)
  where
    weaker :
        (r : Result (ℕ × List ℕ))
        → Bounded left_over (length bytes) r
        → Bounded left_over (suc (length bytes)) r
    weaker (ok p) h = omega arith
    weaker (err e) h = tt
    weaker stuck h = h

decode_int_left :
    (b : ℕ) (bytes : List ℕ) (prefix_bits : ℕ)
    → Bounded left_over (length bytes) (decode_int (b ∷ bytes) prefix_bits)
unfolding decode_int
decode_int_left b bytes prefix_bits = ground (arith, decode_rest_left bytes (b % 2 ^ prefix_bits) 0)

Bounded-option {ℓ κ} :
    {A : Type ℓ} {B : Type κ} (f : A → ℕ) (n : ℕ) (o : Option B) (r : Result A) (k : B → Result A)
    → Bounded f n r
    → ((b : B) → Bounded f n (k b))
    → Bounded f n (elim o [ none ↦ r | some b ↦ k b ])
Bounded-option f n none r k h next = h
Bounded-option f n (some b) r k h next = next b

decode_bit_ends :
    (tree : List HuffNode) (b : ℕ) (st : ℕ × List ℕ) → Bounded any_size 0 (decode_bit tree b st)
unfolding decode_bit
decode_bit_ends tree b (node, out) =
    Bounded-option any_size 0
      (if b == 0 then (node_at tree node).left else (node_at tree node).right) _ _ tt
      (λ child.
        Bounded-option any_size 0 (node_at tree child).sym _ _ (omega arith)
          (λ s. Bounded-if any_size 0 (s == 256) _ (ok (0, out ++ s ∷ [])) tt (omega arith)))

decode_byte_ends :
    (tree : List HuffNode) (bits b : ℕ) (st : ℕ × List ℕ)
    → Bounded any_size 0 (decode_byte tree bits b st)
unfolding decode_byte
decode_byte_ends tree zero b st = omega arith
decode_byte_ends tree (suc bit) b st =
    Bounded-bind any_size any_size 0 0 _ _ (decode_bit_ends tree _ st)
      (λ st' h. decode_byte_ends tree bit b st')

decode_bytes_ends :
    (tree : List HuffNode) (bs : List ℕ) (st : ℕ × List ℕ)
    → Bounded any_size 0 (decode_bytes tree bs st)
unfolding decode_bytes
decode_bytes_ends tree [] st = omega arith
decode_bytes_ends tree (b ∷ bs) st =
    Bounded-bind any_size any_size 0 0 _ _ (decode_byte_ends tree 8 b st)
      (λ st' h. decode_bytes_ends tree bs st')

huffman_decode_ends : (bs : List ℕ) → Bounded any_size 0 (huffman_decode bs)
unfolding huffman_decode
huffman_decode_ends bs =
    Bounded-bind any_size any_size 0 0 _ _ (decode_bytes_ends huffman_tree bs (0, []))
      (λ st h. omega arith)

decode_text_left :
    (huffman : Bool) (len : ℕ) (bytes : List ℕ)
    → Bounded left_over (length bytes) (decode_text huffman len bytes)
unfolding decode_text
decode_text_left huffman len bytes =
    let shorter = length-drop len bytes in
    Bounded-fail_if left_over _ _ _ _ (
      Bounded-if left_over _ huffman _ _
        (Bounded-bind any_size left_over 0 _ _ _ (huffman_decode_ends (take len bytes))
          (λ s h. omega (arith, shorter)))
        (omega (arith, shorter)))

decode_string_left : (bytes : List ℕ) → Bounded left_over (length bytes) (decode_string bytes)
unfolding decode_string
decode_string_left [] = tt
decode_string_left (b ∷ bytes) =
    Bounded-bind left_over left_over (length bytes) _ _ _ (decode_int_left b bytes 7)
      (λ p h. at_most _ (omega arith) _ (decode_text_left (bit 7 b) p.0 p.1))

or_error_ends : (o : Option HpackHeader) → Bounded any_size 0 (or_error o)
or_error_ends none = tt
or_error_ends (some h) = omega arith

or_name_error_ends : (o : Option HpackHeader) → Bounded any_size 0 (or_name_error o)
or_name_error_ends none = tt
or_name_error_ends (some h) = omega arith

-- How much of the data a round leaves.
abbrev round_left : Round → ℕ
round_left r = length r.0

decode_indexed_left :
    (b : ℕ) (bytes : List ℕ) (t : DynamicTable) (out : List HpackHeader)
    → Bounded round_left (length bytes) (decode_indexed (b ∷ bytes) t out)
unfolding decode_indexed
decode_indexed_left b bytes t out =
    Bounded-bind left_over round_left (length bytes) _ _ _ (decode_int_left b bytes 7)
      (λ p h. Bounded-bind any_size round_left 0 _ _ _ (or_error_ends (lookup p.0 t)) (λ x z. h))

decode_size_left :
    (b : ℕ) (bytes : List ℕ) (t : DynamicTable) (out : List HpackHeader)
    → Bounded round_left (length bytes) (decode_size (b ∷ bytes) t out)
unfolding decode_size
decode_size_left b bytes t out =
    Bounded-bind left_over round_left (length bytes) _ _ _ (decode_int_left b bytes 5)
      (λ p h. ground arith)

decode_name_left :
    (name_idx : ℕ) (bytes : List ℕ) (t : DynamicTable)
    → Bounded left_over (length bytes) (decode_name name_idx bytes t)
unfolding decode_name
decode_name_left name_idx bytes t = Bounded-if left_over _ _ _ _ (decode_string_left bytes) (
    Bounded-bind any_size left_over 0 _ _ _ (or_name_error_ends (lookup name_idx t))
      (λ x z. omega arith))

decode_literal_left :
    (b : ℕ) (bytes : List ℕ) (t : DynamicTable) (out : List HpackHeader)
    → Bounded round_left (length bytes) (decode_literal b (b ∷ bytes) t out)
unfolding decode_literal
decode_literal_left b bytes t out =
    let n = length bytes in
    Bounded-bind left_over round_left n n _ _ (decode_int_left b bytes (if bit 6 b then 6 else 4))
      (λ p h₁.
        Bounded-bind left_over round_left n n _ _ (at_most _ h₁ _ (decode_name_left p.0 p.1 t))
          (λ q h₂.
            Bounded-bind left_over round_left n n _ _ (at_most _ h₂ _ (decode_string_left q.1))
              (λ r h₃. ground arith)))

decode_one_left :
    (b : ℕ) (bytes : List ℕ) (t : DynamicTable) (out : List HpackHeader)
    → Bounded round_left (length bytes) (decode_one b (b ∷ bytes) t out)
unfolding decode_one
decode_one_left b bytes t out =
    Bounded-if round_left _ (bit 7 b) _ _ (decode_indexed_left b bytes t out) (
      Bounded-if round_left _ (bit 5 b) _ _ (decode_size_left b bytes t out)
        (decode_literal_left b bytes t out))

-- What the loop does with the result of a round.
abbrev after :
    ℕ
    → DynamicTable
    → List HpackHeader
    → Result Round
    → Result (Unit {0}) × DynamicTable × List HpackHeader
after fuel t out (ok (rest, t', out')) = decode_loop fuel rest t' out'
after fuel t out (err e) = (err e, t, out)
after fuel t out stuck = (stuck, t, out)

after_ends :
    (fuel n : ℕ) (t : DynamicTable) (out : List HpackHeader) (r : Result Round)
    → Bounded round_left n r
    → ((rest : List ℕ) (t' : DynamicTable) (out' : List HpackHeader)
        → length rest ≤ n
        → (decode_loop fuel rest t' out').0 ≢ stuck)
    → (after fuel t out r).0 ≢ stuck
after_ends fuel n t out (ok (rest, t', out')) h ends = ends rest t' out' h
after_ends fuel n t out (err e) h ends = cc
after_ends fuel n t out stuck h ends = elim h [ ]

decode_loop_ends :
    (fuel : ℕ) (bytes : List ℕ) (t : DynamicTable) (out : List HpackHeader)
    → length bytes ≤ fuel
    → (decode_loop fuel bytes t out).0 ≢ stuck
unfolding decode_loop
decode_loop_ends fuel [] t out h = cc
decode_loop_ends zero (b ∷ bytes) t out h = absurd (omega arith)
decode_loop_ends (suc fuel) (b ∷ bytes) t out h =
    after_ends fuel (length bytes) t out (decode_one b (b ∷ bytes) t out)
      (decode_one_left b bytes t out)
      (λ rest t' out' k. decode_loop_ends fuel rest t' out' (omega arith))

-- `decode` ends on any bytes: the rounds that the model allows are enough.
pub decode_ends :
    (bytes : List ℕ) (t : DynamicTable) (out : List HpackHeader) → (decode bytes t out).0 ≢ stuck
unfolding decode
decode_ends bytes t out = decode_loop_ends (length bytes) bytes t out (omega arith)
