-- ===== src/Base/Text.antt =====
-- What the source uses of the standard library on texts: `<cctype>`, `std::to_string`,
-- `std::string_view::find` and `std::from_chars`, over lists of bytes in the "C" locale.
use Prim.Native.Nat.{ℕ, zero, suc, ◌+◌, ◌-◌, ◌*◌, ◌/◌, ◌%◌}
use mathlib.Core.Bool.{Bool, true, false, ◌&&◌, ◌||◌}
use mathlib.Core.List.{List, [], ◌∷◌}
use mathlib.Core.Option
use mathlib.Core.Option.{Option, none, some}
use uproxy.Base.Tests.{ltb, leb, ◌==◌, if◌then◌else◌}
use uproxy.Base.Lists.{length, drop}

abbrev pub is_digit : ℕ → Bool
is_digit c = leb b'0' c && leb c b'9'

abbrev pub is_upper : ℕ → Bool
is_upper c = leb b'A' c && leb c b'Z'

abbrev pub is_lower : ℕ → Bool
is_lower c = leb b'a' c && leb c b'z'

abbrev pub is_alnum : ℕ → Bool
is_alnum c = is_digit c || (is_upper c || is_lower c)

-- `std::isspace`: the blank, and the codes from 9 (tab) to 13 (carriage return).
abbrev pub is_space : ℕ → Bool
is_space c = c == b' ' || (leb 9 c && leb c 13)

abbrev pub to_lower : ℕ → ℕ
to_lower c = if is_upper c then c + 32 else c

abbrev pub any {ℓ} : {A : Type ℓ} → (A → Bool) → List A → Bool
any p [] = false
any p (x ∷ xs) = p x || any p xs

abbrev pub all {ℓ} : {A : Type ℓ} → (A → Bool) → List A → Bool
all p [] = true
all p (x ∷ xs) = p x && all p xs

-- The loops that take bytes off the front, and off the back, while a test holds.
abbrev pub strip_front : (ℕ → Bool) → List ℕ → List ℕ
strip_front p [] = []
strip_front p (c ∷ s) = let rest = strip_front p s in if p c then rest else c ∷ s

abbrev pub strip_back : (ℕ → Bool) → List ℕ → List ℕ
strip_back p [] = []
strip_back p (c ∷ s) = elim (strip_back p s) [
  | [] ↦ if p c then [] else c ∷ []
  | d ∷ ds ↦ c ∷ d ∷ ds
]

abbrev pub is_empty : List ℕ → Bool
is_empty [] = true
is_empty (c ∷ s) = false

abbrev pub starts_with : List ℕ → List ℕ → Bool
starts_with [] s = true
starts_with (x ∷ xs) [] = false
starts_with (x ∷ xs) (y ∷ ys) = (x == y) && starts_with xs ys

-- `s.find(pat)`: where the first occurrence begins; `none` is `npos`.
abbrev pub find : List ℕ → List ℕ → Option ℕ
find pat [] = if starts_with pat [] then some 0 else none
find pat (x ∷ xs) = if starts_with pat (x ∷ xs) then some 0 else Option.map suc (find pat xs)

-- `s.find(pat, pos)`
abbrev pub find_from : List ℕ → ℕ → List ℕ → Option ℕ
find_from pat pos s = Option.map (λ i. pos + i) (find pat (drop pos s))

abbrev pub has_text : List ℕ → List ℕ → Bool
has_text pat s = elim (find pat s) [ none ↦ false | some i ↦ true ]

-- `std::to_string` of an unsigned number: one digit a round, the last first.
abbrev pub digits_loop : ℕ → ℕ → List ℕ → List ℕ
digits_loop zero n out = out
digits_loop (suc fuel) n out =
    let rest = digits_loop fuel (n / 10) ((b'0' + n % 10) ∷ out) in
    if ltb n 10 then (b'0' + n) ∷ out else rest

-- A number has no more digits than its value plus one.
unfoldable pub to_string : ℕ → List ℕ
to_string n = digits_loop (suc n) n []

-- The value of a digit; `none` for a byte that is none in the base.
abbrev pub digit_value : ℕ → ℕ → Option ℕ
digit_value base c =
    let value =
      if is_digit c
      then c - b'0'
      else if is_lower c
      then c - b'a' + 10
      else if is_upper c
      then c - b'A' + 10
      else base in
    if ltb value base then some value else none

-- The longest run of digits, and what follows it.
abbrev pub read_digits : ℕ → ℕ → List ℕ → ℕ × List ℕ
read_digits base acc [] = (acc, [])
read_digits base acc (c ∷ cs) = elim (digit_value base c) [
  | none ↦ (acc, c ∷ cs)
  | some d ↦ read_digits base (acc * base + d) cs
]

-- `std::from_chars(first, last, value, base)` into an unsigned type of values below `bound`,
-- together with the callers' test that it succeeded and stopped at the end of the text.
abbrev pub from_chars : ℕ → ℕ → List ℕ → Option ℕ
from_chars base bound [] = none
from_chars base bound (c ∷ cs) =
    let (value, rest) = read_digits base 0 (c ∷ cs) in
    if length rest == 0 && ltb value bound then some value else none
