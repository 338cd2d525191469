-- ===== src/Log.antt =====
-- include/uproxy/log.h, src/log.cpp: the class `Logger`. A call of `log` is the text that it prints.
pub mod Line
mod Tests
use uproxy.Base.{ℕ, Bool, true, List, [], ◌∷◌, ◌++◌, ◌==◌, ltb, if◌then◌else◌, bytes_eq, codes}

pub data LogLevel : Type 0 where
  trace debug info warn error : LogLevel

unfoldable pub parse_log_level : List ℕ → LogLevel
parse_log_level level =
    if bytes_eq level (codes "trace")
    then trace
    else if bytes_eq level (codes "debug")
    then debug
    else if bytes_eq level (codes "warn")
    then warn
    else if bytes_eq level (codes "error")
    then error
    else info

unfoldable pub log_level_name : LogLevel → List ℕ
log_level_name trace = codes "trace"
log_level_name debug = codes "debug"
log_level_name info = codes "info"
log_level_name warn = codes "warn"
log_level_name error = codes "error"

-- `static_cast<int>(level)`
abbrev pub rank : LogLevel → ℕ
rank trace = 0
rank debug = 1
rank info = 2
rank warn = 3
rank error = 4

-- The body of the loop of `escape_json`.
unfoldable pub escaped : ℕ → List ℕ
escaped c =
    if c == 92
    then 92 ∷ 92 ∷ []
    else if c == 34
    then 92 ∷ 34 ∷ []
    else if c == 10
    then 92 ∷ b'n' ∷ []
    else if c == 13
    then 92 ∷ b'r' ∷ []
    else if c == 9
    then 92 ∷ b't' ∷ []
    else c ∷ []

unfoldable pub escape_json : List ℕ → List ℕ
unfolding escaped
escape_json [] = []
escape_json (c ∷ input) = escaped c ++ escape_json input

-- What `%s` prints: a text ends at its first zero byte.
unfoldable pub until_nul : List ℕ → List ℕ
until_nul [] = []
until_nul (c ∷ s) = let rest = until_nul s in if c == 0 then [] else c ∷ rest

abbrev pub quote : List ℕ
quote = 34 ∷ []

unfoldable pub write_json_pairs : List (List ℕ × List ℕ) → List ℕ
unfolding escape_json until_nul
write_json_pairs [] = []
write_json_pairs ((key, value) ∷ rest) =
    codes ",\""
    ++ (until_nul (escape_json key)
        ++ (codes "\":\"" ++ (until_nul (escape_json value) ++ (quote ++ write_json_pairs rest))))

unfoldable pub write_text_pairs : List (List ℕ × List ℕ) → List ℕ
unfolding until_nul
write_text_pairs [] = []
write_text_pairs ((key, value) ∷ rest) =
    codes " " ++ (until_nul key ++ (codes "=" ++ (until_nul value ++ write_text_pairs rest)))

-- The members of a `Logger` but for its mutex and its stream.
pub record Logger : Type 0 where
  pub min_level : LogLevel
  pub json_format : Bool

-- The line that `log` prints, without its line feed.
unfoldable pub json_line : LogLevel → List ℕ → List (List ℕ × List ℕ) → List ℕ
unfolding log_level_name escape_json until_nul write_json_pairs
json_line level msg pairs =
    codes "{\"level\":\""
    ++ (log_level_name level
        ++ (codes "\",\"msg\":\""
            ++ (until_nul (escape_json msg) ++ (quote ++ (write_json_pairs pairs ++ codes "}")))))

unfoldable pub text_line : LogLevel → List ℕ → List (List ℕ × List ℕ) → List ℕ
unfolding log_level_name until_nul write_text_pairs
text_line level msg pairs =
    log_level_name level ++ (codes " " ++ (until_nul msg ++ write_text_pairs pairs))

unfoldable pub log : Logger → LogLevel → List ℕ → List (List ℕ × List ℕ) → List ℕ
unfolding json_line text_line
log l level msg pairs =
    if ltb (rank level) (rank l.min_level)
    then []
    else (if l.json_format then json_line level msg pairs else text_line level msg pairs) ++ 10 ∷ []
