-- ===== src/Balancer/Fair.antt =====
-- src/load_balancer.cpp: the smooth weighted round robin of `next` is fair.
use uproxy.Base.{
  ℕ, zero, suc, ◌+◌, ◌*◌, ◌^◌, ◌≤◌, ◌<◌, ◌≡◌, refl, ap, ap₂, ◌∙◌, true, List, [], ◌∷◌, length,
  arith, map, dec_lt,
}
use uproxy.Base.Int.{ℤ, pos, pos_part, neg_part}
use uproxy.Config.{UpstreamConfig}
use uproxy.Balancer.{UpstreamEndpoint, WeightedRoundRobin, make, make_endpoint, next}
use uproxy.Balancer.Scan.{grow, live_total, Dominates, NoneHealthy}
use uproxy.Balancer.Choice.{IsValid, Choice, null, pick, next-Choice, make-IsValid, next-IsValid}
use uproxy.Balancer.Owed.{
  AllHealthy, served, Owed, pos_sum, neg_sum, Owed-sum, grow_sum, no_pos, Owed-pick,
  served-count_request, AllHealthy-count_request, weights-count_request, live_total-count_request,
}

-- `n` calls of `next`.
unfoldable pub next_times : ℕ → WeightedRoundRobin → WeightedRoundRobin
next_times zero b = b
next_times (suc n) b = next_times n (next b).1

not-NoneHealthy :
    (es : List UpstreamEndpoint) → AllHealthy es → 0 < live_total es → ¬ NoneHealthy es
not-NoneHealthy [] h p n = omega arith
not-NoneHealthy (e ∷ es) h p n = cc (h.0, n.0)

-- The state after `k` calls on a fresh balancer of total weight `t`.
record Round (t k : ℕ) (b : WeightedRoundRobin) : Type 0 where
  valid : IsValid b
  healthy : AllHealthy b.endpoints
  total_eq : live_total b.endpoints ≡ t
  served_eq : served b.endpoints ≡ k
  owed : Owed t k b.endpoints b.current_weights

-- The chosen weight is positive, since the weights add up to `t` after growing.
chosen_pos :
    (t k : ℕ) (b : WeightedRoundRobin) (v : ℤ)
    → 0 < t
    → Round t k b
    → Dominates b.endpoints (grow b.endpoints b.current_weights) v
    → 0 < pos_part v
chosen_pos t k b v ht r top = elim (dec_lt 0 (pos_part v)) [
  | yes p ↦ p
  | no p ↦
      let ws = b.current_weights in
      let summed = Owed-sum t k b.endpoints ws r.healthy r.owed in
      let balanced : pos_sum b.endpoints ws + t * k ≡ k * t + neg_sum b.endpoints ws =
        rw (r.served_eq, r.total_eq) at summed in
      absurd (
        omega (
          arith,
          balanced,
          grow_sum b.endpoints ws r.healthy r.valid.paired,
          r.total_eq,
          no_pos b.endpoints (grow b.endpoints ws) v r.healthy top (omega arith),
        ))
]

Round-next :
    (t k : ℕ) (b : WeightedRoundRobin)
    → 0 < t
    → k + 1 < 2 ^ 64
    → Round t k b
    → Round t (suc k) (next b).1
Round-next t k b ht small r = after (next-Choice b r.valid)
  where
    es : List UpstreamEndpoint
    es = b.endpoints

    after : Choice b (next b) → Round t (suc k) (next b).1
    after (null z e) = absurd (not-NoneHealthy es r.healthy (omega (arith, r.total_eq)) z)
    after (pick i v at top e) =
        let room : served es + 1 < 2 ^ 64 = omega (arith, r.served_eq) in
        let count = served-count_request i es (grow es b.current_weights) v at room in
        let rows =
          Owed-pick t k i es b.current_weights v r.healthy r.owed at (chosen_pos t k b v ht r top)
            room in
        record {
          valid = next-IsValid b r.valid;
          healthy = rw e (AllHealthy-count_request i es r.healthy);
          total_eq = rw e (live_total-count_request i es ∙ r.total_eq);
          served_eq = rw e (count ∙ ap suc r.served_eq);
          owed = rw (e, r.total_eq) rows;
        }

Round-next_times :
    (t k n : ℕ) (b : WeightedRoundRobin)
    → 0 < t
    → k + n < 2 ^ 64
    → Round t k b
    → Round t (k + n) (next_times n b)
unfolding next_times
Round-next_times t k zero b ht h r = let e : k + zero ≡ k = omega arith in rw e r
Round-next_times t k (suc n) b ht h r =
    let e : k + suc n ≡ suc k + n = omega arith in
    rw e (
      Round-next_times t (suc k) n (next b).1 ht (omega arith)
        (Round-next t k b ht (omega arith) r))

-- A fresh balancer over healthy endpoints.
abbrev pub AllUp : List UpstreamConfig → Type 0
AllUp [] = Unit {0}
AllUp (c ∷ cs) = (c.healthy ≡ true) × AllUp cs

make-Round :
    (cfgs : List UpstreamConfig)
    → AllUp cfgs
    → 0 < live_total (make cfgs).endpoints
    → Round (live_total (make cfgs).endpoints) 0 (make cfgs)
unfolding make
make-Round cfgs up some_weight = record {
  valid = make-IsValid cfgs;
  healthy = healthy cfgs up;
  total_eq = refl;
  served_eq = none_served cfgs;
  owed = nothing_owed cfgs;
}
  where
    healthy : (cs : List UpstreamConfig) → AllUp cs → AllHealthy (map make_endpoint cs)
    healthy [] u = tt
    healthy (c ∷ cs) u = (u.0, healthy cs u.1)

    t : ℕ
    t = live_total (map make_endpoint cfgs)

    nothing_owed :
        (cs : List UpstreamConfig) → Owed t 0 (map make_endpoint cs) (map (λ _. pos 0) cs)
    nothing_owed [] = tt
    nothing_owed (c ∷ cs) = (omega arith, some_weight, nothing_owed cs)

    none_served : (cs : List UpstreamConfig) → served (map make_endpoint cs) ≡ 0
    none_served [] = refl
    none_served (c ∷ cs) = omega (arith, none_served cs)

-- After `t` rounds nobody got more than its share.
at_most_share :
    (t : ℕ) (e : UpstreamEndpoint) (w : ℤ)
    → pos_part w + t * e.total_requests ≡ t * e.weight + neg_part w
    → neg_part w < t
    → e.total_requests ≤ e.weight
at_most_share t e w h l = grind arith

served-le :
    (t : ℕ) (es : List UpstreamEndpoint) (ws : List ℤ)
    → AllHealthy es
    → Owed t t es ws
    → served es ≤ live_total es
served-le t [] ws h o = omega arith
served-le t (e ∷ es) [] h o = elim o [ ]
served-le t (e ∷ es) (w ∷ ws) h o =
    rw h.0 (omega (arith, served-le t es ws h.1 o.2, at_most_share t e w o.0 o.1))

zero_of_parts : (w : ℤ) → pos_part w ≡ neg_part w → w ≡ pos 0
zero_of_parts w h = ground arith

-- Where all requests together are as many as the weights, each share is exact.
exact :
    (t : ℕ) (es : List UpstreamEndpoint) (ws : List ℤ)
    → AllHealthy es
    → length es ≡ length ws
    → Owed t t es ws
    → live_total es ≤ served es
    → (map (λ e. e.total_requests) es ≡ map (λ e. e.weight) es) × (ws ≡ map (λ _. pos 0) es)
exact t [] [] h l o s = (refl, refl)
exact t [] (w ∷ ws) h l o s = absurd (omega arith)
exact t (e ∷ es) [] h l o s = elim o [ ]
exact t (e ∷ es) (w ∷ ws) h l o s =
    let le = at_most_share t e w o.0 o.1 in
    let rest_le = served-le t es ws h.1 o.2 in
    let s' : e.weight + live_total es ≤ e.total_requests + served es = rw h.0 at s in
    let same : e.total_requests ≡ e.weight = omega arith in
    let settled : w ≡ pos 0 = zero_of_parts w (grind (arith, o.0)) in
    let (counts, weights) = exact t es ws h.1 (omega arith) o.2 (omega arith) in
    (ap₂ ◌∷◌ same counts, ap₂ ◌∷◌ settled weights)

weights-next :
    (b : WeightedRoundRobin)
    → IsValid b
    → map (λ e. e.weight) (next b).1.endpoints ≡ map (λ e. e.weight) b.endpoints
weights-next b v = same (next-Choice b v)
  where
    same :
        Choice b (next b)
        → map (λ e. e.weight) (next b).1.endpoints ≡ map (λ e. e.weight) b.endpoints
    same (null z e) = rw e
    same (pick k w at top e) = rw e (weights-count_request k b.endpoints)

weights-next_times :
    (n : ℕ) (b : WeightedRoundRobin)
    → IsValid b
    → map (λ e. e.weight) (next_times n b).endpoints ≡ map (λ e. e.weight) b.endpoints
unfolding next_times
weights-next_times zero b v = refl
weights-next_times (suc n) b v =
    weights-next_times n (next b).1 (next-IsValid b v) ∙ weights-next b v

-- A healthy endpoint has a positive weight.
no_weight :
    (cfgs : List UpstreamConfig) → AllUp cfgs → ¬ (0 < live_total (make cfgs).endpoints) → cfgs ≡ []
unfolding make
no_weight [] up h = refl
no_weight (c ∷ cs) up h = absurd (h (ground (arith, up.0)))

-- On a fresh balancer whose endpoints are all healthy, and stay so, as many calls of `next` as the
-- weights add up to (below 2 ^ 64) count exactly as many requests for each endpoint as its weight,
-- and leave every current weight at 0.
pub next_times_shares :
    (cfgs : List UpstreamConfig)
    → AllUp cfgs
    → live_total (make cfgs).endpoints < 2 ^ 64
    → let b = next_times (live_total (make cfgs).endpoints) (make cfgs) in
      (map (λ e. e.total_requests) b.endpoints ≡ map (λ e. e.weight) (make cfgs).endpoints)
      × (b.current_weights ≡ map (λ _. pos 0) b.endpoints)
next_times_shares cfgs up small = elim (dec_lt 0 (live_total (make cfgs).endpoints)) [
  | yes p ↦ shared p
  | no p ↦ idle (no_weight cfgs up p)
]
  where
    b₀ : WeightedRoundRobin
    b₀ = make cfgs

    t : ℕ
    t = live_total b₀.endpoints

    b : WeightedRoundRobin
    b = next_times t b₀

    idle :
        cfgs ≡ []
        → (map (λ e. e.total_requests) b.endpoints ≡ map (λ e. e.weight) b₀.endpoints)
          × (b.current_weights ≡ map (λ _. pos 0) b.endpoints)
    idle e = rw e (unfold make next_times in (refl, refl))

    shared :
        0 < t
        → (map (λ e. e.total_requests) b.endpoints ≡ map (λ e. e.weight) b₀.endpoints)
          × (b.current_weights ≡ map (λ _. pos 0) b.endpoints)
    shared p =
        let z : 0 + t ≡ t = omega arith in
        let r : Round t t b =
          rw z at (Round-next_times t 0 t b₀ p (omega arith) (make-Round cfgs up p)) in
        let (counts, weights) =
          exact t b.endpoints b.current_weights r.healthy r.valid.paired r.owed
            (omega (arith, r.total_eq, r.served_eq)) in
        (counts ∙ weights-next_times t b₀ (make-IsValid cfgs), weights)
