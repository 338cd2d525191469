-- ===== src/Log/Tests.antt =====
-- src/log.cpp: a message with line feeds and quotes, as a line of JSON.
use uproxy.Base.{ℕ, ◌≡◌, ◌≤◌, ◌<◌, ◌⊎◌, refl, List, [], ◌∷◌, ◌++◌, All, true, codes}
use uproxy.Log.{info, warn, rank, escape_json, log}
use uproxy.Log.Line.{IsNotFeed, log-one_line}

abbrev hostile : List ℕ
hostile = codes "a\"" ++ 10 ∷ codes "b"

escapes : escape_json hostile ≡ codes "a\\\"\\nb"
unfolding escape_json
escapes = refl

log-one_line_example :
    let out =
      log (record { min_level = info; json_format = true }) warn hostile ((hostile, []) ∷ []) in
    ((rank warn < rank info) × (out ≡ []))
    ⊎ ((rank info ≤ rank warn) × ((line : List ℕ) × (out ≡ line ++ 10 ∷ []) × All IsNotFeed line))
log-one_line_example = log-one_line info warn hostile ((hostile, []) ∷ [])
