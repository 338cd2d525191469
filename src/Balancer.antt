-- ===== src/Balancer.antt =====
-- include/uproxy/load_balancer.h, src/load_balancer.cpp: the class `WeightedRoundRobin`.
-- A `shared_ptr` to an endpoint is its index in `endpoints_`. A weight is an unbounded integer:
-- an `int64_t` holds the sum of 2 ^ 31 weights of 32 bits. The mutex makes each call one step.
pub mod Scan
pub mod Choice
pub mod Owed
pub mod Fair
mod Tests
use uproxy.Base.{
  ℕ, zero, suc, ◌+◌, ◌%◌, ◌^◌, max, Bool, true, false, ◌&&◌, List, [], ◌∷◌, ◌++◌, map, Option, none,
  some, if◌then◌else◌, ◌==◌, set, get_or, bytes_eq,
}
use uproxy.Base.Int.{ℤ, pos, ◌+ℤ◌, ◌-ℤ◌, ltb_ℤ}
use uproxy.Base.Text.{is_empty, to_string}
use uproxy.Config.{UpstreamConfig}

pub record UpstreamEndpoint : Type 0 where
  pub addr : List ℕ
  pub port : ℕ
  pub weight : ℕ
  pub name : List ℕ
  pub healthy : Bool
  pub active_requests : ℕ
  pub total_requests : ℕ
  pub failed_requests : ℕ

pub record WeightedRoundRobin : Type 0 where
  pub endpoints : List UpstreamEndpoint
  pub current_weights : List ℤ

-- The body of the constructor's loop. A weight of 0 counts as 1.
unfoldable pub make_endpoint : UpstreamConfig → UpstreamEndpoint
unfolding to_string
make_endpoint cfg = record {
  addr = cfg.addr;
  port = cfg.port;
  weight = max 1 cfg.weight;
  name = if is_empty cfg.name then cfg.addr ++ b':' ∷ to_string cfg.port else cfg.name;
  healthy = cfg.healthy;
  active_requests = 0;
  total_requests = 0;
  failed_requests = 0;
}

unfoldable pub make : List UpstreamConfig → WeightedRoundRobin
unfolding make_endpoint
make configs = record {
  endpoints = map make_endpoint configs;
  current_weights = map (λ _. pos 0) configs;
}

-- The index of the best endpoint so far, with `current_weights_[best]`, which the rest of the
-- loop does not change; `none` is `best == -1`.
abbrev pub Best : Type 0
Best = Option (ℕ × ℤ)

abbrev pub beats : Best → ℤ → Bool
beats none w = true
beats (some (j, v)) w = ltb_ℤ v w

-- The `for` loop of `next` from index `i` on: the weights, the total and the best.
unfoldable pub scan : ℕ → List UpstreamEndpoint → List ℤ → ℕ → Best → List ℤ × ℕ × Best
scan i [] ws total best = (ws, total, best)
scan i (e ∷ es) [] total best = ([], total, best)
scan i (e ∷ es) (w ∷ ws) total best =
    let w' = if e.healthy then w +ℤ pos e.weight else w in
    let total' = if e.healthy then total + e.weight else total in
    let best' = if e.healthy && beats best w' then some (i, w') else best in
    let (ws', sum, winner) = scan (i + 1) es ws total' best' in (w' ∷ ws', sum, winner)

-- `total_requests.fetch_add(1)` on the endpoint at an index
unfoldable pub count_request : ℕ → List UpstreamEndpoint → List UpstreamEndpoint
count_request i [] = []
count_request zero (e ∷ es) = record e { total_requests = (e.total_requests + 1) % 2 ^ 64 } ∷ es
count_request (suc i) (e ∷ es) = e ∷ count_request i es

-- The end of `next`, behind the loop.
unfoldable pub settle : WeightedRoundRobin → List ℤ → ℕ → Best → Option ℕ × WeightedRoundRobin
unfolding count_request
settle b ws total none = (none, record b { current_weights = ws })
settle b ws total (some (i, w)) =
    if total == 0 then (none, record b { current_weights = ws }) else (
      some i,
      record {
        endpoints = count_request i b.endpoints;
        current_weights = set ws i (get_or ws i (pos 0) -ℤ pos total);
      },
    )

unfoldable pub next : WeightedRoundRobin → Option ℕ × WeightedRoundRobin
next b =
    let (ws, total, best) = scan 0 b.endpoints b.current_weights 0 none in settle b ws total best

-- The loop of `mark_healthy` and `mark_unhealthy`: every endpoint of that name.
unfoldable pub mark : Bool → List ℕ → List UpstreamEndpoint → List UpstreamEndpoint
mark h name [] = []
mark h name (e ∷ es) =
    (if bytes_eq e.name name then record e { healthy = h } else e) ∷ mark h name es

unfoldable pub mark_unhealthy : List ℕ → WeightedRoundRobin → WeightedRoundRobin
unfolding mark
mark_unhealthy name b = record b { endpoints = mark false name b.endpoints }

unfoldable pub mark_healthy : List ℕ → WeightedRoundRobin → WeightedRoundRobin
unfolding mark
mark_healthy name b = record b { endpoints = mark true name b.endpoints }

pub record Stats : Type 0 where
  pub name : List ℕ
  pub healthy : Bool
  pub active : ℕ
  pub total : ℕ
  pub failed : ℕ

unfoldable pub stats : WeightedRoundRobin → List Stats
stats b =
    map
      (λ e. record {
        name = e.name;
        healthy = e.healthy;
        active = e.active_requests;
        total = e.total_requests;
        failed = e.failed_requests;
      })
      b.endpoints
