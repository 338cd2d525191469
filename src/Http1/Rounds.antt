-- ===== src/Http1/Rounds.antt =====
-- src/http1.cpp: the loop of `parse_headers` over the header lines ends by itself.
use uproxy.Base.{
  ℕ, zero, suc, ◌+◌, ◌≤◌, ◌≡◌, refl, Bool, List, [], ◌∷◌, Option-cases, inl, inr, arith, length,
  take, drop, length-drop,
}
use uproxy.Base.Text.{find}
use uproxy.Http1.Parse.{crlf, Fields, parse_line, parse_lines}

rounds :
    (n m : ℕ) (r : Bool) (block : List ℕ) (f : Fields)
    → length block ≤ n
    → length block ≤ m
    → parse_lines n r block f ≡ parse_lines m r block f
unfolding parse_lines
rounds zero zero r block f h k = refl
rounds zero (suc m) r [] f h k = refl
rounds zero (suc m) r (c ∷ cs) f h k = absurd (omega arith)
rounds (suc n) zero r [] f h k = refl
rounds (suc n) zero r (c ∷ cs) f h k = absurd (omega arith)
rounds (suc n) (suc m) r [] f h k = refl
rounds (suc n) (suc m) r (c ∷ cs) f h k = elim (Option-cases (find crlf (c ∷ cs))) [
  | inl p ↦ rw (parse_lines, p)
  | inr (zero, p) ↦ rw (parse_lines, p)
  | inr (suc i, p) ↦ elim (Option-cases (parse_line r (take (suc i) (c ∷ cs)) f)) [
    | inl q ↦ rw (parse_lines, p, q)
    | inr (g, q) ↦
        let rest = drop (suc i + 2) (c ∷ cs) in
        let shorter = length-drop (suc i + 2) (c ∷ cs) in
        rw (parse_lines, p, q)
          (rounds n m r rest g (omega (arith, shorter)) (omega (arith, shorter)))
  ]
]

-- As many rounds as the block has bytes are enough for the loop over the header lines: with any
-- number of further rounds the result and the fields are the same.
parse_lines_rounds :
    (extra : ℕ) (r : Bool) (block : List ℕ) (f : Fields)
    → parse_lines (length block + extra) r block f ≡ parse_lines (length block) r block f
parse_lines_rounds extra r block f =
    rounds (length block + extra) (length block) r block f (omega arith) (omega arith)
