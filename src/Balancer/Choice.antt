-- ===== src/Balancer/Choice.antt =====
-- src/load_balancer.cpp: which endpoint `next` returns, and the state that it leaves.
use uproxy.Base.{
  ℕ, zero, suc, ◌+◌, ◌<◌, ◌≡◌, refl, sym, ap, ◌∙◌, ◌⊎◌, inl, inr, false, List, [], ◌∷◌, Option,
  none, some, length, length-set, length-map, set, get_or, arith, map, ◌==◌,
}
use uproxy.Base.Int.{ℤ, pos, ◌-ℤ◌}
use uproxy.Config.{UpstreamConfig}
use uproxy.Balancer.{
  UpstreamEndpoint, WeightedRoundRobin, make, make_endpoint, count_request, settle, next, Best,
}
use uproxy.Balancer.Scan.{
  grow, live_total, winner, scan_lem, Dominates, HealthyAt, NoneHealthy, Outcome, winner_lem,
}

abbrev pub Positive : List UpstreamEndpoint → Type 0
Positive [] = Unit {0}
Positive (e ∷ es) = (0 < e.weight) × Positive es

-- One current weight for each endpoint, and no endpoint of weight 0.
pub record IsValid (b : WeightedRoundRobin) : Type 0 where
  pub paired : length b.endpoints ≡ length b.current_weights
  pub positive : Positive b.endpoints

length-grow :
    (es : List UpstreamEndpoint) (ws : List ℤ)
    → length es ≡ length ws
    → length (grow es ws) ≡ length ws
length-grow [] ws h = refl
length-grow (e ∷ es) [] h = refl
length-grow (e ∷ es) (w ∷ ws) h = ap suc (length-grow es ws (omega arith))

length-count_request :
    (i : ℕ) (es : List UpstreamEndpoint) → length (count_request i es) ≡ length es
unfolding count_request
length-count_request i [] = refl
length-count_request zero (e ∷ es) = refl
length-count_request (suc i) (e ∷ es) = ap suc (length-count_request i es)

Positive-count_request :
    (i : ℕ) (es : List UpstreamEndpoint) → Positive es → Positive (count_request i es)
unfolding count_request
Positive-count_request i [] h = tt
Positive-count_request zero (e ∷ es) h = h
Positive-count_request (suc i) (e ∷ es) h = (h.0, Positive-count_request i es h.1)

live_total_pos :
    (es : List UpstreamEndpoint) (ws : List ℤ) (k : ℕ) (v : ℤ)
    → Positive es
    → HealthyAt es ws k v
    → 0 < live_total es
live_total_pos [] ws k v p h = elim h [ ]
live_total_pos (e ∷ es) [] k v p h = elim h [ ]
live_total_pos (e ∷ es) (w ∷ ws) zero v p h = ground arith
live_total_pos (e ∷ es) (w ∷ ws) (suc k) v p h = ground (arith, live_total_pos es ws k v p.1 h)

-- The state after endpoint `k` was chosen.
abbrev pub chosen : ℕ → WeightedRoundRobin → WeightedRoundRobin
chosen k b =
    let ws = grow b.endpoints b.current_weights in
    record {
      endpoints = count_request k b.endpoints;
      current_weights = set ws k (get_or ws k (pos 0) -ℤ pos (live_total b.endpoints));
    }

-- `next` grows the weights of the healthy endpoints. If there is one, it picks one whose new
-- weight is the largest, takes the total off it and counts the request; else it returns null.
pub data Choice (b : WeightedRoundRobin) (r : Option ℕ × WeightedRoundRobin) : Type 0 where
  null :
      NoneHealthy b.endpoints
      → r ≡ (none, record b { current_weights = grow b.endpoints b.current_weights })
      → Choice b r
  pick :
      (k : ℕ) (v : ℤ)
      → HealthyAt b.endpoints (grow b.endpoints b.current_weights) k v
      → Dominates b.endpoints (grow b.endpoints b.current_weights) v
      → r ≡ (some k, chosen k b)
      → Choice b r

next_lem :
    (b : WeightedRoundRobin)
    → length b.endpoints ≡ length b.current_weights
    → next b
      ≡ settle b
          (grow b.endpoints b.current_weights)
          (live_total b.endpoints)
          (winner 0 b.endpoints (grow b.endpoints b.current_weights) none)
unfolding next
next_lem b h =
    let z : 0 + live_total b.endpoints ≡ live_total b.endpoints = omega arith in
    rw (scan_lem 0 b.endpoints b.current_weights 0 none h, z)

settle_pick :
    (b : WeightedRoundRobin) (ws : List ℤ) (t k : ℕ) (v : ℤ)
    → 0 < t
    → settle b ws t (some (k, v)) ≡ (
      some k,
      record {
        endpoints = count_request k b.endpoints;
        current_weights = set ws k (get_or ws k (pos 0) -ℤ pos t);
      },
    )
unfolding settle
settle_pick b ws t k v h = let e : (t == 0) ≡ false = ground arith in rw e

settle_null :
    (b : WeightedRoundRobin) (ws : List ℤ) (t : ℕ)
    → settle b ws t none ≡ (none, record b { current_weights = ws })
unfolding settle
settle_null b ws t = refl

-- On a valid balancer `next` grows the weights of the healthy endpoints. With no endpoint healthy
-- it returns null; else it picks a healthy one whose new weight is the largest, takes the total of
-- the healthy weights off it and counts the request.
pub next-Choice : (b : WeightedRoundRobin) → IsValid b → Choice b (next b)
unfolding Outcome
next-Choice b valid = choose (winner_lem 0 es vs none paired)
  where
    es : List UpstreamEndpoint
    es = b.endpoints

    vs : List ℤ
    vs = grow es b.current_weights

    paired : length es ≡ length vs
    paired = valid.paired ∙ sym (length-grow es b.current_weights valid.paired)

    choose : Outcome 0 es vs none → Choice b (next b)
    choose (inl (q, n, z)) =
        null z (next_lem b valid.paired ∙ rw q (settle_null b vs (live_total es)))
    choose (inr (j, v, won)) = picked won.at
      where
        picked :
            (◌≡◌ {A = Best} none (some (j, v))) ⊎ ((k : ℕ) × (j ≡ 0 + k) × HealthyAt es vs k v)
            → Choice b (next b)
        picked (inl p) = cc
        picked (inr (k, p, at)) =
            let index : j ≡ k = omega arith in
            pick k v at won.top (
              next_lem b valid.paired
              ∙ rw (won.found, index)
                  (settle_pick b vs (live_total es) k v
                    (live_total_pos es vs k v valid.positive at)))

-- The constructor builds a valid balancer.
pub make-IsValid : (cfgs : List UpstreamConfig) → IsValid (make cfgs)
unfolding make
make-IsValid cfgs = record {
  paired = length-map cfgs make_endpoint ∙ sym (length-map cfgs (λ _. pos 0));
  positive = positive cfgs;
}
  where
    positive : (cs : List UpstreamConfig) → Positive (map make_endpoint cs)
    positive [] = tt
    positive (c ∷ cs) = (omega arith, positive cs)

-- `next` keeps a balancer valid: one current weight for each endpoint, and no endpoint of weight
-- 0.
pub next-IsValid : (b : WeightedRoundRobin) → IsValid b → IsValid (next b).1
next-IsValid b v = keep (next-Choice b v)
  where
    grown : length (grow b.endpoints b.current_weights) ≡ length b.current_weights
    grown = length-grow b.endpoints b.current_weights v.paired

    keep : Choice b (next b) → IsValid (next b).1
    keep (null z e) = rw e (record { paired = v.paired ∙ sym grown; positive = v.positive })
    keep (pick k w at top e) = rw e (record {
      paired =
          length-count_request k b.endpoints
          ∙ v.paired
          ∙ sym grown
          ∙ sym (length-set (grow b.endpoints b.current_weights) k _);
      positive = Positive-count_request k b.endpoints v.positive;
    })
