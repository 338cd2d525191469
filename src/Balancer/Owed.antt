-- ===== src/Balancer/Owed.antt =====
-- src/load_balancer.cpp: what the smooth weighted round robin owes each endpoint.
use uproxy.Base.{
  ℕ, zero, suc, ◌+◌, ◌*◌, ◌%◌, ◌^◌, ◌≤◌, ◌<◌, ◌≡◌, refl, ap, true, List, [], ◌∷◌, length, set,
  get_or, arith, map,
}
use uproxy.Base.Int.{ℤ, pos, ◌+ℤ◌, ◌-ℤ◌, ◌≤ℤ◌, pos_part, neg_part, +ℤ_parts, -ℤ_parts}
use uproxy.Balancer.{UpstreamEndpoint, count_request}
use uproxy.Balancer.Scan.{grow, live_total, Dominates, HealthyAt}

abbrev pub AllHealthy : List UpstreamEndpoint → Type 0
AllHealthy [] = Unit {0}
AllHealthy (e ∷ es) = (e.healthy ≡ true) × AllHealthy es

-- How many requests were counted.
abbrev pub served : List UpstreamEndpoint → ℕ
served [] = 0
served (e ∷ es) = e.total_requests + served es

-- After `k` calls at total weight `t`: an endpoint's current weight is what it is owed, `k` times
-- its weight, less `t` for each request that it got, and it never got a whole request too many.
abbrev pub Owed : ℕ → ℕ → List UpstreamEndpoint → List ℤ → Type 0
Owed t k [] ws = Unit {0}
Owed t k (e ∷ es) [] = ⊥
Owed t k (e ∷ es) (w ∷ ws) =
    (pos_part w + t * e.total_requests ≡ k * e.weight + neg_part w)
    × (neg_part w < t)
    × Owed t k es ws

abbrev pub pos_sum : List UpstreamEndpoint → List ℤ → ℕ
pos_sum [] ws = 0
pos_sum (e ∷ es) [] = 0
pos_sum (e ∷ es) (w ∷ ws) = pos_part w + pos_sum es ws

abbrev pub neg_sum : List UpstreamEndpoint → List ℤ → ℕ
neg_sum [] ws = 0
neg_sum (e ∷ es) [] = 0
neg_sum (e ∷ es) (w ∷ ws) = neg_part w + neg_sum es ws

pub Owed-sum :
    (t k : ℕ) (es : List UpstreamEndpoint) (ws : List ℤ)
    → AllHealthy es
    → Owed t k es ws
    → pos_sum es ws + t * served es ≡ k * live_total es + neg_sum es ws
Owed-sum t k [] ws h o = omega arith
Owed-sum t k (e ∷ es) [] h o = elim o [ ]
Owed-sum t k (e ∷ es) (w ∷ ws) h o = ground (arith, Owed-sum t k es ws h.1 o.2)

-- Growing adds the total weight to the sum.
pub grow_sum :
    (es : List UpstreamEndpoint) (ws : List ℤ)
    → AllHealthy es
    → length es ≡ length ws
    → pos_sum es (grow es ws) + neg_sum es ws
      ≡ neg_sum es (grow es ws) + pos_sum es ws + live_total es
grow_sum [] ws h l = omega arith
grow_sum (e ∷ es) [] h l = absurd (omega arith)
grow_sum (e ∷ es) (w ∷ ws) h l =
    ground (arith, grow_sum es ws h.1 (omega arith), +ℤ_parts w (pos e.weight))

not_pos : (w v : ℤ) → w ≤ℤ v → pos_part v ≡ 0 → pos_part w ≡ 0
not_pos w v h z = ground arith

grow_neg : (w : ℤ) (n : ℕ) → neg_part (w +ℤ pos n) ≤ neg_part w
unfolding ◌+ℤ◌
grow_neg w n = ground arith

shrink_neg : (w : ℤ) (t : ℕ) → 0 < t → 0 < pos_part w → neg_part (w -ℤ pos t) < t + neg_part w
unfolding ◌-ℤ◌
shrink_neg w t h₀ h = ground arith

one_sign : (w : ℤ) → 0 < pos_part w → neg_part w ≡ 0
one_sign w h = ground arith

-- Where no weight is above `v`, and `v` is not positive, no weight is positive.
pub no_pos :
    (es : List UpstreamEndpoint) (vs : List ℤ) (v : ℤ)
    → AllHealthy es
    → Dominates es vs v
    → pos_part v ≡ 0
    → pos_sum es vs ≡ 0
no_pos [] vs v h d z = refl
no_pos (e ∷ es) [] v h d z = refl
no_pos (e ∷ es) (w ∷ vs) v h d z =
    let below = d.0 h.0 in let rest = no_pos es vs v h.1 d.1 z in omega (arith, not_pos w v below z)

-- Each row after the call: what it is owed grows by its weight.
Owed-grow :
    (t k : ℕ) (es : List UpstreamEndpoint) (ws : List ℤ)
    → AllHealthy es
    → Owed t k es ws
    → Owed t (suc k) es (grow es ws)
Owed-grow t k [] ws h o = tt
Owed-grow t k (e ∷ es) [] h o = elim o [ ]
Owed-grow t k (e ∷ es) (w ∷ ws) h o = rw h.0 (
  omega (arith, +ℤ_parts w (pos e.weight)),
  omega (arith, grow_neg w e.weight),
  Owed-grow t k es ws h.1 o.2,
)

-- The chosen endpoint pays the total for its request.
pub Owed-pick :
    (t k i : ℕ) (es : List UpstreamEndpoint) (ws : List ℤ) (v : ℤ)
    → AllHealthy es
    → Owed t k es ws
    → HealthyAt es (grow es ws) i v
    → 0 < pos_part v
    → served es + 1 < 2 ^ 64
    → Owed t
        (suc k)
        (count_request i es)
        (set (grow es ws) i (get_or (grow es ws) i (pos 0) -ℤ pos t))
unfolding count_request
Owed-pick t k i [] ws v h o at p small = elim at [ ]
Owed-pick t k i (e ∷ es) [] v h o at p small = elim at [ ]
Owed-pick t k zero (e ∷ es) (w ∷ ws) v h o at p small =
    let v' = w +ℤ pos e.weight in
    let grown : v' ≡ v = ground (arith, h.0, at.1) in
    let top : 0 < pos_part v' = rw grown p in
    let count : (e.total_requests + 1) % 2 ^ 64 ≡ e.total_requests + 1 = omega arith in
    rw (h.0, count)
      (
        omega (arith, +ℤ_parts w (pos e.weight), -ℤ_parts v' (pos t), o.0),
        omega (arith, shrink_neg v' t (omega arith) top, one_sign v' top),
        Owed-grow t k es ws h.1 o.2,
      )
Owed-pick t k (suc i) (e ∷ es) (w ∷ ws) v h o at p small = rw h.0 (
  omega (arith, +ℤ_parts w (pos e.weight)),
  omega (arith, grow_neg w e.weight),
  Owed-pick t k i es ws v h.1 o.2 at p (omega arith),
)

-- Counting a request changes nothing else of the endpoints.
pub served-count_request :
    (i : ℕ) (es : List UpstreamEndpoint) (vs : List ℤ) (v : ℤ)
    → HealthyAt es vs i v
    → served es + 1 < 2 ^ 64
    → served (count_request i es) ≡ suc (served es)
unfolding count_request
served-count_request i [] vs v at small = elim at [ ]
served-count_request i (e ∷ es) [] v at small = elim at [ ]
served-count_request zero (e ∷ es) (w ∷ vs) v at small = omega arith
served-count_request (suc i) (e ∷ es) (w ∷ vs) v at small =
    omega (arith, served-count_request i es vs v at (omega arith))

pub AllHealthy-count_request :
    (i : ℕ) (es : List UpstreamEndpoint) → AllHealthy es → AllHealthy (count_request i es)
unfolding count_request
AllHealthy-count_request i [] h = tt
AllHealthy-count_request zero (e ∷ es) h = h
AllHealthy-count_request (suc i) (e ∷ es) h = (h.0, AllHealthy-count_request i es h.1)

pub weights-count_request :
    (i : ℕ) (es : List UpstreamEndpoint)
    → map (λ e. e.weight) (count_request i es) ≡ map (λ e. e.weight) es
unfolding count_request
weights-count_request i [] = refl
weights-count_request zero (e ∷ es) = refl
weights-count_request (suc i) (e ∷ es) = ap (◌∷◌ e.weight) (weights-count_request i es)

pub live_total-count_request :
    (i : ℕ) (es : List UpstreamEndpoint) → live_total (count_request i es) ≡ live_total es
unfolding count_request
live_total-count_request i [] = refl
live_total-count_request zero (e ∷ es) = refl
live_total-count_request (suc i) (e ∷ es) = omega (arith, live_total-count_request i es)
