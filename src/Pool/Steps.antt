-- ===== src/Pool/Steps.antt =====
-- src/upstream_pool.cpp and the calls of `forward_http1` in src/proxy.cpp: a pool shared by any
-- number of callers, as a step relation. `drain`, which no code calls, is no step.
use uproxy.Base.{
  ℕ, suc, ◌+◌, ◌-◌, ◌^◌, ◌≤◌, ◌<◌, ◌≡◌, refl, false, List, [], ◌∷◌, none, some, length,
  length-append, if◌then◌else◌, arith, Bool-cases, inl, inr,
}
use uproxy.Config.{PoolConfig}
use uproxy.Pool.{
  PooledConn, UpstreamPool, make, less_one, reuse, must_connect, acquire, wake, connect_failed,
  release, is_stale, evict, evict_idle,
}

-- A pool with the number of connections that callers hold, of callers that are connecting, and of
-- connections that a caller dropped.
pub record World : Type 0 where
  pub pool : UpstreamPool
  pub busy : ℕ
  pub dialing : ℕ
  pub lost : ℕ

-- `abandon` is `release(nullptr)`, by which `forward_http1` ends a failed exchange: the caller's
-- connection is closed when its pointer goes out of scope.
pub data Step (v w : World) : Type 0 where
  take :
      (c : PooledConn) (p : UpstreamPool)
      → acquire v.pool ≡ reuse c p
      → w ≡ record v { pool = p; busy = suc v.busy }
      → Step v w
  dial :
      (p : UpstreamPool)
      → acquire v.pool ≡ must_connect p
      → w ≡ record v { pool = p; dialing = suc v.dialing }
      → Step v w
  woken :
      (c : PooledConn) (p : UpstreamPool)
      → wake v.pool ≡ some (c, p)
      → w ≡ record v { pool = p; busy = suc v.busy }
      → Step v w
  dialled : 0 < v.dialing → w ≡ record v { dialing = v.dialing - 1; busy = suc v.busy } → Step v w
  refused :
      0 < v.dialing
      → w ≡ record v { pool = connect_failed v.pool; dialing = v.dialing - 1 }
      → Step v w
  give_back :
      (c : PooledConn) (now : ℕ)
      → 0 < v.busy
      → w ≡ record v { pool = release (some c) now v.pool; busy = v.busy - 1 }
      → Step v w
  abandon :
      (now : ℕ)
      → 0 < v.busy
      → w ≡ record v { pool = release none now v.pool; busy = v.busy - 1; lost = suc v.lost }
      → Step v w
  sweep : (now : ℕ) → w ≡ record v { pool = evict_idle now v.pool } → Step v w

pub data Reach (v : World) : World → Type 0 where
  here : Reach v v
  next : {u w : World} → Reach v u → Step u w → Reach v w

abbrev pub start : PoolConfig → World
start cfg = record { pool = make cfg; busy = 0; dialing = 0; lost = 0 }

-- `total_` counts the idle connections, those in use, those being made, and those that were lost,
-- and stays within the limit, which is a `uint32_t`.
pub record Counted (limit : ℕ) (w : World) : Type 0 where
  pub small : limit < 2 ^ 32
  pub limit_eq : w.pool.cfg.max_conns_per_upstream ≡ limit
  pub total_eq : w.pool.total ≡ length w.pool.idle + w.busy + w.dialing + w.lost
  pub within : w.pool.total ≤ limit

take-Counted :
    (n : ℕ) (v : World) (c : PooledConn) (p : UpstreamPool)
    → Counted n v
    → acquire v.pool ≡ reuse c p
    → Counted n (record v { pool = p; busy = suc v.busy })
unfolding acquire
take-Counted n v c p k e = ground arith

dial-Counted :
    (n : ℕ) (v : World) (p : UpstreamPool)
    → Counted n v
    → acquire v.pool ≡ must_connect p
    → Counted n (record v { pool = p; dialing = suc v.dialing })
unfolding acquire
dial-Counted n v p k e = ground arith

woken-Counted :
    (n : ℕ) (v : World) (c : PooledConn) (p : UpstreamPool)
    → Counted n v
    → wake v.pool ≡ some (c, p)
    → Counted n (record v { pool = p; busy = suc v.busy })
unfolding wake
woken-Counted n v c p k e = ground arith

refused-Counted :
    (n : ℕ) (v : World)
    → Counted n v
    → 0 < v.dialing
    → Counted n (record v { pool = connect_failed v.pool; dialing = v.dialing - 1 })
unfolding connect_failed
refused-Counted n v k h = ground arith

give_back-Counted :
    (n : ℕ) (v : World) (c : PooledConn) (now : ℕ)
    → Counted n v
    → 0 < v.busy
    → Counted n (record v { pool = release (some c) now v.pool; busy = v.busy - 1 })
unfolding release
give_back-Counted n v c now k h =
    ground
      (arith, length-append v.pool.idle (record c { in_use = false; last_used_at_ms = now } ∷ []))

-- An eviction takes each stale connection off the list and off the total.
evict_total :
    (cfg : PoolConfig) (now : ℕ) (cs : List PooledConn) (total : ℕ)
    → length cs ≤ total
    → total < 2 ^ 32
    → (evict cfg now cs total).1 + length cs ≡ total + length (evict cfg now cs total).0
unfolding evict
evict_total cfg now [] total h s = omega arith
evict_total cfg now (c ∷ cs) total h s = elim (Bool-cases (is_stale cfg now c)) [
  | inl stale ↦
      rw stale (omega (arith, evict_total cfg now cs (less_one total) (omega arith) (omega arith)))
  | inr fresh ↦ rw fresh (omega (arith, evict_total cfg now cs total (omega arith) s))
]

length-evict :
    (cfg : PoolConfig) (now : ℕ) (cs : List PooledConn) (total : ℕ)
    → length (evict cfg now cs total).0 ≤ length cs
unfolding evict
length-evict cfg now [] total = omega arith
length-evict cfg now (c ∷ cs) total =
    ground (arith, length-evict cfg now cs (if is_stale cfg now c then less_one total else total))

sweep-Counted :
    (n : ℕ) (v : World) (now : ℕ)
    → Counted n v
    → Counted n (record v { pool = evict_idle now v.pool })
unfolding evict_idle
sweep-Counted n v now k = omega (
  arith,
  evict_total v.pool.cfg now v.pool.idle v.pool.total (omega arith) (omega arith),
  length-evict v.pool.cfg now v.pool.idle v.pool.total,
)

Step-Counted : (n : ℕ) (v w : World) → Step v w → Counted n v → Counted n w
Step-Counted n v w (take c p e q) k = rw q (take-Counted n v c p k e)
Step-Counted n v w (dial p e q) k = rw q (dial-Counted n v p k e)
Step-Counted n v w (woken c p e q) k = rw q (woken-Counted n v c p k e)
Step-Counted n v w (dialled h q) k = rw q (omega arith)
Step-Counted n v w (refused h q) k = rw q (refused-Counted n v k h)
Step-Counted n v w (give_back c now h q) k = rw q (give_back-Counted n v c now k h)
Step-Counted n v w (abandon now h q) k = rw q (unfold release in omega arith)
Step-Counted n v w (sweep now q) k = rw q (sweep-Counted n v now k)

pub Reach-Counted : (n : ℕ) {v w : World} → Reach v w → Counted n v → Counted n w
Reach-Counted n here k = k
Reach-Counted n (next {u} {w} r s) k = Step-Counted n u w s (Reach-Counted n r k)

-- In every state that callers can bring a fresh pool to, `total_` is the number of connections
-- that are idle, in use, being made or lost, and is at most the limit, which is below 2 ^ 32.
pub Reach-start-Counted :
    (cfg : PoolConfig) (w : World)
    → cfg.max_conns_per_upstream < 2 ^ 32
    → Reach (start cfg) w
    → Counted cfg.max_conns_per_upstream w
Reach-start-Counted cfg w small r =
    Reach-Counted cfg.max_conns_per_upstream r
      (record { small = small; limit_eq = refl; total_eq = omega arith; within = omega arith })
