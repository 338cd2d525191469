-- ===== src/Balancer/Scan.antt =====
-- src/load_balancer.cpp: what the loop of `next` computes.
use uproxy.Base.{
  ℕ, zero, suc, ◌+◌, ◌≡◌, refl, ◌⊎◌, inl, inr, Bool, true, false, ◌&&◌, List, [], ◌∷◌, none, some,
  if◌then◌else◌, length, arith, Bool-cases,
}
use uproxy.Base.Int.{ℤ, pos, ◌+ℤ◌, ◌≤ℤ◌}
use uproxy.Balancer.{UpstreamEndpoint, Best, beats, scan}

-- The weights after the loop: each healthy endpoint's grows by its weight.
abbrev pub grow : List UpstreamEndpoint → List ℤ → List ℤ
grow [] ws = ws
grow (e ∷ es) [] = []
grow (e ∷ es) (w ∷ ws) = (if e.healthy then w +ℤ pos e.weight else w) ∷ grow es ws

-- The sum of the weights of the healthy endpoints.
abbrev pub live_total : List UpstreamEndpoint → ℕ
live_total [] = 0
live_total (e ∷ es) = (if e.healthy then e.weight else 0) + live_total es

-- The first healthy endpoint of the largest weight, from index `i` on, or the one at hand.
abbrev pub winner : ℕ → List UpstreamEndpoint → List ℤ → Best → Best
winner i [] vs best = best
winner i (e ∷ es) [] best = best
winner i (e ∷ es) (v ∷ vs) best =
    winner (i + 1) es vs (if e.healthy && beats best v then some (i, v) else best)

pub scan_lem :
    (i : ℕ) (es : List UpstreamEndpoint) (ws : List ℤ) (total : ℕ) (best : Best)
    → length es ≡ length ws
    → scan i es ws total best ≡ (grow es ws, total + live_total es, winner i es (grow es ws) best)
unfolding scan
scan_lem i [] ws total best h = ground arith
scan_lem i (e ∷ es) [] total best h = absurd (omega arith)
scan_lem i (e ∷ es) (w ∷ ws) total best h =
    let w' = if e.healthy then w +ℤ pos e.weight else w in
    ground (
      arith,
      scan_lem (i + 1) es ws (if e.healthy then total + e.weight else total)
          (if e.healthy && beats best w' then some (i, w') else best) (omega arith),
    )

-- No healthy endpoint has a larger weight than `v`.
abbrev pub Dominates : List UpstreamEndpoint → List ℤ → ℤ → Type 0
Dominates [] vs v = Unit {0}
Dominates (e ∷ es) [] v = Unit {0}
Dominates (e ∷ es) (w ∷ ws) v = (e.healthy ≡ true → w ≤ℤ v) × Dominates es ws v

-- The endpoint at an index is healthy and has weight `v`.
abbrev pub HealthyAt : List UpstreamEndpoint → List ℤ → ℕ → ℤ → Type 0
HealthyAt [] vs k v = ⊥
HealthyAt (e ∷ es) [] k v = ⊥
HealthyAt (e ∷ es) (w ∷ ws) zero v = (e.healthy ≡ true) × (w ≡ v)
HealthyAt (e ∷ es) (w ∷ ws) (suc k) v = HealthyAt es ws k v

abbrev pub NoneHealthy : List UpstreamEndpoint → Type 0
NoneHealthy [] = Unit {0}
NoneHealthy (e ∷ es) = (e.healthy ≡ false) × NoneHealthy es

-- The best so far is no better than `v`.
abbrev pub AtMost : Best → ℤ → Type 0
AtMost none v = Unit {0}
AtMost (some (j, u)) v = u ≤ℤ v

-- The winner is the best at hand, or a healthy endpoint of the rest, and nothing exceeds it.
pub record Won (i : ℕ) (es : List UpstreamEndpoint) (vs : List ℤ) (best : Best) (j : ℕ) (v : ℤ)
    : Type 0 where
  pub found : winner i es vs best ≡ some (j, v)
  pub top : Dominates es vs v
  pub over : AtMost best v
  pub at : (best ≡ some (j, v)) ⊎ ((k : ℕ) × (j ≡ i + k) × HealthyAt es vs k v)

unfoldable pub Outcome : ℕ → List UpstreamEndpoint → List ℤ → Best → Type 0
Outcome i es vs best =
    ((winner i es vs best ≡ none) × (best ≡ none) × NoneHealthy es)
    ⊎ ((j : ℕ) × (v : ℤ) × Won i es vs best j v)

not_beats : (best : Best) (w v : ℤ) → beats best w ≡ false → AtMost best v → w ≤ℤ v
not_beats none w v h a = ground arith
not_beats (some (j, u)) w v h a = ground arith

beats_over : (best : Best) (w v : ℤ) → beats best w ≡ true → w ≤ℤ v → AtMost best v
beats_over none w v h a = tt
beats_over (some (j, u)) w v h a = ground arith

and_right : (a b : Bool) → (a && b) ≡ false → a ≡ true → b ≡ false
and_right a b h e = ground arith

and_both : (a b : Bool) → (a && b) ≡ true → (a ≡ true) × (b ≡ true)
and_both a b h = ground arith

keep_best :
    (i : ℕ) (e : UpstreamEndpoint) (es : List UpstreamEndpoint) (w : ℤ) (vs : List ℤ) (best : Best)
    → (e.healthy && beats best w) ≡ false
    → Outcome (i + 1) es vs best
    → Outcome i (e ∷ es) (w ∷ vs) best
unfolding Outcome
keep_best i e es w vs best h (inl (q, n, z)) = inl (rw h q, n, (ground arith, z))
keep_best i e es w vs best h (inr (j, v, won)) = inr (
  j,
  v,
  record {
    found = rw h won.found;
    top = (λ live. not_beats best w v (and_right _ _ h live) won.over, won.top);
    over = won.over;
    at = later won.at;
  },
)
  where
    later :
        (best ≡ some (j, v)) ⊎ ((k : ℕ) × (j ≡ i + 1 + k) × HealthyAt es vs k v)
        → (best ≡ some (j, v)) ⊎ ((k : ℕ) × (j ≡ i + k) × HealthyAt (e ∷ es) (w ∷ vs) k v)
    later (inl p) = inl p
    later (inr (k, p, at)) = inr (suc k, omega arith, at)

take_new :
    (i : ℕ) (e : UpstreamEndpoint) (es : List UpstreamEndpoint) (w : ℤ) (vs : List ℤ) (best : Best)
    → (e.healthy && beats best w) ≡ true
    → Outcome (i + 1) es vs (some (i, w))
    → Outcome i (e ∷ es) (w ∷ vs) best
unfolding Outcome
take_new i e es w vs best h (inl (q, n, z)) = cc
take_new i e es w vs best h (inr (j, v, won)) = inr (
  j,
  v,
  record {
    found = rw h won.found;
    top = (λ _. won.over, won.top);
    over = beats_over best w v (and_both _ _ h).1 won.over;
    at = here won.at;
  },
)
  where
    here :
        (◌≡◌ {A = Best} (some (i, w)) (some (j, v)))
          ⊎ ((k : ℕ) × (j ≡ i + 1 + k) × HealthyAt es vs k v)
        → (best ≡ some (j, v)) ⊎ ((k : ℕ) × (j ≡ i + k) × HealthyAt (e ∷ es) (w ∷ vs) k v)
    here (inl p) = inr (0, ground arith, ((and_both _ _ h).0, ground arith))
    here (inr (k, p, at)) = inr (suc k, omega arith, at)

pub winner_lem :
    (i : ℕ) (es : List UpstreamEndpoint) (vs : List ℤ) (best : Best)
    → length es ≡ length vs
    → Outcome i es vs best
unfolding Outcome
winner_lem i [] vs none h = inl (refl, refl, tt)
winner_lem i [] vs (some (j, v)) h =
    inr (j, v, record { found = refl; top = tt; over = omega arith; at = inl refl })
winner_lem i (e ∷ es) [] best h = absurd (omega arith)
winner_lem i (e ∷ es) (w ∷ vs) best h = elim (Bool-cases (e.healthy && beats best w)) [
  | inl q ↦ take_new i e es w vs best q (winner_lem (i + 1) es vs (some (i, w)) (omega arith))
  | inr q ↦ keep_best i e es w vs best q (winner_lem (i + 1) es vs best (omega arith))
]
