-- ===== src/Config/Numbers.antt =====
-- src/config.cpp: numbers that are written in decimal are read back.
use mathlib.Core.List.{append-nil, append_assoc}
use uproxy.Base.{
  ℕ, zero, suc, ◌+◌, ◌-◌, ◌*◌, ◌/◌, ◌%◌, ◌^◌, ◌≤◌, ◌<◌, ◌≡◌, refl, sym, ap, ◌∙◌, true, false, List,
  [], ◌∷◌, ◌++◌, some, ltb, ◌==◌, if◌then◌else◌, Bool-cases, inl, inr, arith, length, All, ok, ◌||◌,
  length-append,
}
use uproxy.Base.Text.{
  is_space, strip_front, strip_back, digit_value, read_digits, digits_loop, to_string, from_chars,
}
use uproxy.Config.Values.{trim, parse_u32, parse_port}

abbrev pub IsDigit : ℕ → Type 0
IsDigit c = (48 ≤ c) × (c < 58)

-- The value of a text of digits, behind digits of value `acc`.
abbrev pub horner : ℕ → List ℕ → ℕ
horner acc [] = acc
horner acc (c ∷ cs) = horner (acc * 10 + (c - 48)) cs

horner-append : (acc : ℕ) (xs ys : List ℕ) → horner acc (xs ++ ys) ≡ horner (horner acc xs) ys
horner-append acc [] ys = refl
horner-append acc (x ∷ xs) ys = horner-append (acc * 10 + (x - 48)) xs ys

-- The digits of a number, the first first.
abbrev pub digits : ℕ → ℕ → List ℕ
digits zero n = []
digits (suc fuel) n =
    let more = digits fuel (n / 10) ++ (48 + n % 10) ∷ [] in
    if ltb n 10 then (48 + n) ∷ [] else more

digits_loop-digits : (fuel n : ℕ) (out : List ℕ) → digits_loop fuel n out ≡ digits fuel n ++ out
digits_loop-digits zero n out = refl
digits_loop-digits (suc fuel) n out = elim (Bool-cases (ltb n 10)) [
  | inl small ↦ rw small
  | inr large ↦ rw large (
      digits_loop-digits fuel (n / 10) ((48 + n % 10) ∷ out)
      ∙ sym (append_assoc (digits fuel (n / 10)) ((48 + n % 10) ∷ []) out))
]

All-append-IsDigit : (xs : List ℕ) (c : ℕ) → All IsDigit xs → IsDigit c → All IsDigit (xs ++ c ∷ [])
All-append-IsDigit [] c a d = (d, tt)
All-append-IsDigit (x ∷ xs) c a d = (a.0, All-append-IsDigit xs c a.1 d)

digits-IsDigit : (fuel n : ℕ) → All IsDigit (digits fuel n)
digits-IsDigit zero n = tt
digits-IsDigit (suc fuel) n = elim (Bool-cases (ltb n 10)) [
  | inl small ↦ rw small ((omega arith, ground arith), tt)
  | inr large ↦ rw large (
      All-append-IsDigit (digits fuel (n / 10)) (48 + n % 10) (digits-IsDigit fuel (n / 10))
        (omega arith, omega arith))
]

horner-digits : (fuel n : ℕ) → n < fuel → horner 0 (digits fuel n) ≡ n
horner-digits zero n h = absurd (omega arith)
horner-digits (suc fuel) n h = elim (Bool-cases (ltb n 10)) [
  | inl small ↦ rw small (omega arith)
  | inr large ↦
      let ten : 10 ≤ n = ground arith in
      rw large (
        horner-append 0 (digits fuel (n / 10)) ((48 + n % 10) ∷ [])
        ∙ omega (arith, horner-digits fuel (n / 10) (omega arith)))
]

-- A text of digits is read to its end.
read_digits-horner :
    (acc : ℕ) (xs : List ℕ) → All IsDigit xs → read_digits 10 acc xs ≡ (horner acc xs, [])
read_digits-horner acc [] a = refl
read_digits-horner acc (c ∷ cs) a =
    let value : digit_value 10 c ≡ some (c - 48) = ground arith in
    rw (read_digits, value) (read_digits-horner (acc * 10 + (c - 48)) cs a.1)

from_chars-horner :
    (bound c : ℕ) (cs : List ℕ)
    → All IsDigit (c ∷ cs)
    → horner 0 (c ∷ cs) < bound
    → from_chars 10 bound (c ∷ cs) ≡ some (horner 0 (c ∷ cs))
from_chars-horner bound c cs a h =
    let fits : ltb (horner 0 (c ∷ cs)) bound ≡ true = ground arith in
    rw (read_digits-horner 0 (c ∷ cs) a) (rw fits)

-- No digit is white space.
strip_front-digits : (xs : List ℕ) → All IsDigit xs → strip_front is_space xs ≡ xs
strip_front-digits [] a = refl
strip_front-digits (c ∷ cs) a = let kept : is_space c ≡ false = ground arith in rw kept

strip_back-digits : (xs : List ℕ) → All IsDigit xs → strip_back is_space xs ≡ xs
strip_back-digits [] a = refl
strip_back-digits (c ∷ []) a = let kept : is_space c ≡ false = ground arith in rw kept
strip_back-digits (c ∷ d ∷ cs) a = rw (strip_back-digits (d ∷ cs) a.1)

pub trim-digits : (xs : List ℕ) → All IsDigit xs → trim xs ≡ xs
unfolding trim
trim-digits xs a = rw (strip_front-digits xs a) (strip_back-digits xs a)

pub to_string-digits : (n : ℕ) → to_string n ≡ digits (suc n) n
unfolding to_string
to_string-digits n = digits_loop-digits (suc n) n [] ∙ append-nil (digits (suc n) n)

pub to_string-IsDigit : (n : ℕ) → All IsDigit (to_string n)
to_string-IsDigit n = rw (to_string-digits n) (digits-IsDigit (suc n) n)

from_chars-nonempty :
    (bound n : ℕ) (xs : List ℕ)
    → All IsDigit xs
    → 0 < length xs
    → horner 0 xs ≡ n
    → n < bound
    → from_chars 10 bound xs ≡ some n
from_chars-nonempty bound n [] a h e fits = absurd (omega arith)
from_chars-nonempty bound n (c ∷ cs) a h e fits =
    from_chars-horner bound c cs a (omega (arith, e)) ∙ ap some e

digits-length : (fuel n : ℕ) → 0 < length (digits (suc fuel) n)
digits-length fuel n = elim (Bool-cases (ltb n 10)) [
  | inl small ↦ rw small (omega arith)
  | inr large ↦
      rw large (rw (length-append (digits fuel (n / 10)) ((48 + n % 10) ∷ [])) (omega arith))
]

-- Every number comes back from `std::to_string` through `std::from_chars`.
pub from_chars-to_string : (n bound : ℕ) → n < bound → from_chars 10 bound (to_string n) ≡ some n
from_chars-to_string n bound h = rw (to_string-digits n) (
    from_chars-nonempty bound n (digits (suc n) n) (digits-IsDigit (suc n) n) (digits-length n n)
      (horner-digits (suc n) n (omega arith)) h)

parse_u32-trimmed :
    (value field : List ℕ) {n : ℕ}
    → trim value ≡ value
    → from_chars 10 (2 ^ 32) value ≡ some n
    → parse_u32 value field ≡ ok n
unfolding parse_u32
parse_u32-trimmed value field kept reads = rw (parse_u32, kept) (rw reads refl)

pub parse_u32-to_string :
    (n : ℕ) (field : List ℕ) → n < 2 ^ 32 → parse_u32 (to_string n) field ≡ ok n
parse_u32-to_string n field h =
    parse_u32-trimmed (to_string n) field (trim-digits (to_string n) (to_string-IsDigit n))
      (from_chars-to_string n (2 ^ 32) h)

pub parse_port-to_string :
    (n : ℕ) (field : List ℕ) → 0 < n → n < 65536 → parse_port (to_string n) field ≡ ok n
unfolding parse_port
parse_port-to_string n field positive fits =
    let good : (n == 0 || ltb 65535 n) ≡ false = ground arith in
    rw (parse_u32-to_string n field (omega arith)) (rw good refl)
