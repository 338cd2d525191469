-- ===== src/Http1/Parse.antt =====
-- src/http1.cpp: the class `Http1Parser`. A parser returns the message beside its result, since
-- the caller's message keeps what was stored before an error.
use mathlib.Core.Option
use uproxy.Base.{
  ℕ, zero, suc, ◌+◌, ◌-◌, ◌^◌, Bool, true, false, not, ◌&&◌, ◌||◌, List, [], ◌∷◌, ◌++◌, map, Option,
  none, some, ltb, leb, ◌==◌, if◌then◌else◌, length, take, drop, get_or, bytes_eq, codes,
}
use uproxy.Base.Text.{
  is_alnum, to_lower, any, all, find, strip_front, strip_back, has_text, from_chars,
}
use uproxy.Http1.Message.{
  ParseResult, complete, incomplete, malformed, HttpHeader, max_header_name, max_header_value,
  max_header_count, max_header_bytes,
}

abbrev pub crlf : List ℕ
crlf = 13 ∷ 10 ∷ []

abbrev pub is_blank : ℕ → Bool
is_blank c = c == 32 || c == 9

unfoldable pub is_token_char : ℕ → Bool
is_token_char c = is_alnum c || any (λ x. x == c) (codes "!#$%&'*+-.^_`|~")

unfoldable pub lower : List ℕ → List ℕ
lower s = map to_lower s

unfoldable pub trim_ows : List ℕ → List ℕ
trim_ows s = strip_back is_blank (strip_front is_blank s)

-- A byte that `valid_header_value` accepts.
abbrev pub is_value_char : ℕ → Bool
is_value_char c = not (c == 13 || c == 10) && not (ltb c 0x20 && not (c == 9))

unfoldable pub valid_header_value : List ℕ → Bool
valid_header_value s = all is_value_char s

-- A line feed that no carriage return precedes; `prev` is the byte before.
unfoldable pub bare_lf : ℕ → List ℕ → Bool
bare_lf prev [] = false
bare_lf prev (c ∷ s) = (c == 10 && not (prev == 13)) || bare_lf c s

-- What the loop over the header lines changes.
pub record Fields : Type 0 where
  pub headers : List HttpHeader
  pub keep_alive : Bool
  pub chunked : Bool
  pub saw_content_length : Bool
  pub content_length : ℕ

-- The branches on the name of a header; `none` is an error.
unfoldable pub note_header : Bool → List ℕ → List ℕ → Fields → Option Fields
unfolding lower
note_header is_request lname value f =
    let stored : Option Fields = elim (from_chars 10 (2 ^ 64) value) [
      | none ↦ none
      | some parsed ↦
          if f.saw_content_length && not (parsed == f.content_length)
          then none
          else some (record f { saw_content_length = true; content_length = parsed })
    ] in
    if bytes_eq lname (codes "content-length")
    then stored
    else if bytes_eq lname (codes "transfer-encoding") && has_text (codes "chunked") (lower value)
    then some (record f { chunked = true })
    else if bytes_eq lname (codes "connection")
        && (is_request && has_text (codes "close") (lower value))
    then some (record f { keep_alive = false })
    else some f

-- `headers.push_back`
abbrev pub add_header : HttpHeader → Fields → Fields
add_header h f = record f { headers = f.headers ++ h ∷ [] }

-- The name and the value of a line, with the colon at `colon`.
unfoldable pub parse_field : Bool → ℕ → List ℕ → Fields → Option Fields
unfolding is_token_char trim_ows valid_header_value note_header lower
parse_field is_request colon line f =
    let name = take colon line in
    let value = trim_ows (drop (colon + 1) line) in
    if colon == 0 || is_blank (get_or line (colon - 1) 0)
    then none
    else if ltb max_header_name (length name) || not (all is_token_char name)
    then none
    else if ltb max_header_value (length value) || not (valid_header_value value)
    then none
    else if leb max_header_count (length f.headers)
    then none
    else Option.map (add_header (record { name = name; value = value }))
        (note_header is_request (lower name) value f)

-- The body of the `while` loop: an error leaves the fields as they were.
unfoldable pub parse_line : Bool → List ℕ → Fields → Option Fields
unfolding parse_field
parse_line is_request line f =
    if is_blank (get_or line 0 0) then none else elim (find (codes ":") line) [
      | none ↦ none
      | some colon ↦ parse_field is_request colon line f
    ]

-- The `while` loop over `header_block[pos..]`, on fuel.
unfoldable pub parse_lines : ℕ → Bool → List ℕ → Fields → ParseResult × Fields
unfolding parse_line
parse_lines zero is_request block f = (complete, f)
parse_lines (suc fuel) is_request block f = elim (find crlf block) [
  | none ↦ (complete, f)
  | some zero ↦ (complete, f)
  | some (suc n) ↦ elim (parse_line is_request (take (suc n) block) f) [
    | none ↦ (malformed, f)
    | some g ↦ parse_lines fuel is_request (drop (suc n + 2) block) g
  ]
]

-- The checks in front of the start line: the length of the block, or how the search ended.
pub data Block : Type 0 where
  stop : ParseResult → Block
  found : ℕ → List ℕ → Block

unfoldable pub header_block : List ℕ → Block
unfolding bare_lf
header_block bytes = elim (find (crlf ++ crlf) bytes) [
  | none ↦
      if ltb max_header_bytes (length bytes) || has_text (10 ∷ []) bytes
      then stop malformed
      else stop incomplete
  | some end ↦
      if ltb max_header_bytes (end + 4)
      then stop malformed
      else if bare_lf 0 (take (end + 2) bytes)
      then stop malformed
      else found end (take (end + 2) bytes)
]
