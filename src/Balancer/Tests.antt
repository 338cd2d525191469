-- ===== src/Balancer/Tests.antt =====
-- src/load_balancer.cpp: the laws of `next`, on a balancer with weights 3 and 1 and one of two.
use uproxy.Base.{◌<◌, ◌^◌, ◌≡◌, refl, arith, true, false, List, [], ◌∷◌, map, codes, some}
use uproxy.Base.Int.{pos, ◌+ℤ◌}
use uproxy.Config.{UpstreamConfig, http1}
use uproxy.Balancer.{make, next, scan, settle}
use uproxy.Balancer.Scan.{live_total}
use uproxy.Balancer.Choice.{Choice, next-Choice, make-IsValid}
use uproxy.Balancer.Fair.{next_times, next_times_shares}

abbrev heavy : UpstreamConfig
heavy = record {
  name = codes "a";
  addr = codes "10.0.0.1";
  port = 80;
  weight = 3;
  healthy = true;
  proto = http1;
}

abbrev light : UpstreamConfig
light = record heavy { name = codes "b"; weight = 1 }

abbrev down : UpstreamConfig
down = record heavy { name = codes "c"; weight = 5; healthy = false }

abbrev pair : List UpstreamConfig
pair = heavy ∷ light ∷ []

abbrev mixed : List UpstreamConfig
mixed = down ∷ light ∷ heavy ∷ []

small_pair : live_total (make pair).endpoints < 2 ^ 64
unfolding make
small_pair = omega arith

next_times_shares_example :
    let b = next_times (live_total (make pair).endpoints) (make pair) in
    (map (λ e. e.total_requests) b.endpoints ≡ map (λ e. e.weight) (make pair).endpoints)
    × (b.current_weights ≡ map (λ _. pos 0) b.endpoints)
next_times_shares_example = next_times_shares pair (refl, (refl, tt)) small_pair

next-Choice_example : Choice (make mixed) (next (make mixed))
next-Choice_example = next-Choice (make mixed) (make-IsValid mixed)

-- The down endpoint is passed over, though its weight is the largest.
next-mixed : (next (make mixed)).0 ≡ some 2
unfolding next make settle scan ◌+ℤ◌
next-mixed = refl
