-- ===== src/Log/Line.antt =====
-- src/log.cpp: a message and its fields cannot break a line of JSON.
use uproxy.Base.{
  ℕ, ◌≡◌, ◌≢◌, ◌≤◌, ◌<◌, refl, sym, ap, ◌∙◌, not, ◌&&◌, false, ltb→lt, Bool, true, List, [], ◌∷◌,
  ◌++◌, All, codes, ◌==◌, Bool-cases, inl, inr, ◌⊎◌, ltb, arith,
}
use uproxy.Log.{
  LogLevel, trace, debug, info, warn, error, rank, log_level_name, escaped, escape_json, until_nul,
  quote, write_json_pairs, json_line, log,
}

abbrev pub IsNotFeed : ℕ → Type 0
IsNotFeed c = c ≢ 10

All-append : (xs ys : List ℕ) → All IsNotFeed xs → All IsNotFeed ys → All IsNotFeed (xs ++ ys)
All-append [] ys a b = b
All-append (x ∷ xs) ys a b = (a.0, All-append xs ys a.1 b)

escaped-IsNotFeed : (c : ℕ) → All IsNotFeed (escaped c)
unfolding escaped
escaped-IsNotFeed c = elim (Bool-cases (c == 92)) [
  | inl h ↦ rw h ((λ e. cc), ((λ e. cc), tt))
  | inr h₁ ↦ elim (Bool-cases (c == 34)) [
    | inl h ↦ rw h₁ (rw h ((λ e. cc), ((λ e. cc), tt)))
    | inr h₂ ↦ elim (Bool-cases (c == 10)) [
      | inl h ↦ rw h₁ (rw h₂ (rw h ((λ e. cc), ((λ e. cc), tt))))
      | inr h₃ ↦ elim (Bool-cases (c == 13)) [
        | inl h ↦ rw h₁ (rw h₂ (rw h₃ (rw h ((λ e. cc), ((λ e. cc), tt)))))
        | inr h₄ ↦ elim (Bool-cases (c == 9)) [
          | inl h ↦ rw h₁ (rw h₂ (rw h₃ (rw h₄ (rw h ((λ e. cc), ((λ e. cc), tt))))))
          | inr h ↦ rw h₁ (rw h₂ (rw h₃ (rw h₄ (rw h (ground (arith, h₃), tt)))))
        ]
      ]
    ]
  ]
]

escape_json-IsNotFeed : (s : List ℕ) → All IsNotFeed (escape_json s)
unfolding escape_json
escape_json-IsNotFeed [] = tt
escape_json-IsNotFeed (c ∷ s) =
    All-append (escaped c) (escape_json s) (escaped-IsNotFeed c) (escape_json-IsNotFeed s)

until_nul-All : (s : List ℕ) → All IsNotFeed s → All IsNotFeed (until_nul s)
unfolding until_nul
until_nul-All [] a = tt
until_nul-All (c ∷ s) a = elim (Bool-cases (c == 0)) [
  | inl nul ↦ rw (until_nul, nul) tt
  | inr other ↦ rw (until_nul, other) (a.0, until_nul-All s a.1)
]

-- A field as `%s` prints it.
printed-IsNotFeed : (s : List ℕ) → All IsNotFeed (until_nul (escape_json s))
printed-IsNotFeed s = until_nul-All (escape_json s) (escape_json-IsNotFeed s)

write_json_pairs-IsNotFeed :
    (pairs : List (List ℕ × List ℕ)) → All IsNotFeed (write_json_pairs pairs)
unfolding write_json_pairs
write_json_pairs-IsNotFeed [] = tt
write_json_pairs-IsNotFeed ((key, value) ∷ rest) = (
  λ e. cc,
  (
    (λ e. cc),
    All-append (until_nul (escape_json key)) _ (printed-IsNotFeed key) (
      (λ e. cc),
      (
        (λ e. cc),
        (
          (λ e. cc),
          All-append (until_nul (escape_json value)) _ (printed-IsNotFeed value)
              ((λ e. cc), write_json_pairs-IsNotFeed rest),
        ),
      ),
    ),
  ),
)

-- A test that tells the texts without a line feed.
abbrev has_no_feed : List ℕ → Bool
has_no_feed [] = true
has_no_feed (c ∷ s) = not (c == 10) && has_no_feed s

has_no_feed-All : (s : List ℕ) → has_no_feed s ≡ true → All IsNotFeed s
has_no_feed-All [] h = tt
has_no_feed-All (c ∷ s) h = elim (Bool-cases (c == 10)) [
  | inl feed ↦ absurd (false_true (ap (λ b. not b && has_no_feed s) (sym feed) ∙ h))
  | inr other ↦
      (ground (arith, other), has_no_feed-All s (ap (λ b. not b && has_no_feed s) (sym other) ∙ h))
]
  where
    false_true : false ≡ true → ⊥
    false_true e = cc

log_level_name-IsNotFeed : (level : LogLevel) → All IsNotFeed (log_level_name level)
unfolding log_level_name
log_level_name-IsNotFeed trace = has_no_feed-All (codes "trace") refl
log_level_name-IsNotFeed debug = has_no_feed-All (codes "debug") refl
log_level_name-IsNotFeed info = has_no_feed-All (codes "info") refl
log_level_name-IsNotFeed warn = has_no_feed-All (codes "warn") refl
log_level_name-IsNotFeed error = has_no_feed-All (codes "error") refl

json_line-IsNotFeed :
    (level : LogLevel) (msg : List ℕ) (pairs : List (List ℕ × List ℕ))
    → All IsNotFeed (json_line level msg pairs)
unfolding json_line
json_line-IsNotFeed level msg pairs =
    All-append (codes "{\"level\":\"") _ (has_no_feed-All (codes "{\"level\":\"") refl) (
      All-append (log_level_name level) _ (log_level_name-IsNotFeed level) (
        All-append (codes "\",\"msg\":\"") _ (has_no_feed-All (codes "\",\"msg\":\"") refl) (
          All-append (until_nul (escape_json msg)) _ (printed-IsNotFeed msg) (
            All-append quote _ (has_no_feed-All quote refl) (
              All-append (write_json_pairs pairs) _ (write_json_pairs-IsNotFeed pairs)
                (has_no_feed-All (codes "}") refl))))))

-- A logger of JSON prints nothing for a level below its own. For any other, whatever bytes the
-- message and the fields hold, it prints one line: text without a line feed, and a line feed.
pub log-one_line :
    (min level : LogLevel) (msg : List ℕ) (pairs : List (List ℕ × List ℕ))
    → let out = log (record { min_level = min; json_format = true }) level msg pairs in
      ((rank level < rank min) × (out ≡ []))
      ⊎ ((rank min ≤ rank level) × ((line : List ℕ) × (out ≡ line ++ 10 ∷ []) × All IsNotFeed line))
unfolding log
log-one_line min level msg pairs = elim (Bool-cases (ltb (rank level) (rank min))) [
  | inl low ↦ inl (ltb→lt _ _ low, rw low refl)
  | inr high ↦ inr (
    ground (arith, high),
    (json_line level msg pairs, rw high refl, json_line-IsNotFeed level msg pairs),
  )
]
