-- ===== src/Config/Values.antt =====
-- src/config.cpp: `trim` and the readers of single values.
use uproxy.Base.{
  ℕ, ◌-◌, ◌^◌, Bool, ◌&&◌, ◌||◌, List, none, some, ltb, leb, ◌==◌, if◌then◌else◌, length, take,
  drop, get_or, bytes_eq, codes, Result, ok, err, ◌>>=◌, fail_if, from_code_text, config_invalid,
}
use uproxy.Base.Text.{is_space, strip_front, strip_back, from_chars}

unfoldable pub trim : List ℕ → List ℕ
trim input = strip_back is_space (strip_front is_space input)

unfoldable pub parse_bool : List ℕ → Bool
unfolding trim
parse_bool value = bytes_eq (trim value) (codes "true")

-- A text in double quotes loses them.
unfoldable pub parse_string : List ℕ → List ℕ
unfolding trim
parse_string value =
    let v = trim value in
    let quoted = leb 2 (length v) && (get_or v 0 0 == b'"' && get_or v (length v - 1) 0 == b'"') in
    if quoted then take (length v - 2) (drop 1 v) else v

unfoldable pub parse_u32 : List ℕ → List ℕ → Result ℕ
unfolding trim
parse_u32 value field = elim (from_chars 10 (2 ^ 32) (trim value)) [
  | none ↦ err (from_code_text config_invalid field)
  | some out ↦ ok out
]

unfoldable pub parse_port : List ℕ → List ℕ → Result ℕ
unfolding parse_u32
parse_port value field = do
  parsed ← parse_u32 value field
  fail_if (parsed == 0 || ltb 65535 parsed) (from_code_text config_invalid field) (ok parsed)
