-- ===== src/Pool/Faults.antt =====
-- src/upstream_pool.cpp and the calls of `forward_http1` in src/proxy.cpp: how a pool gets stuck.
use uproxy.Base.{
  ℕ, ap, ◌⊎◌, ◌+◌, ◌-◌, ◌%◌, ◌^◌, ◌≤◌, ◌<◌, ◌≡◌, refl, false, List, [], ◌∷◌, none, some, length,
  arith,
}
use uproxy.Pool.{
  PooledConn, UpstreamPool, less_one, must_wait, must_connect, acquire, wake, release, drain,
}
use uproxy.Pool.Steps.{
  World, Step, take, dial, woken, dialled, refused, give_back, abandon, sweep, Reach, here, next,
  Counted, Reach-Counted,
}

Step-lost : (v w : World) → Step v w → v.lost ≤ w.lost
Step-lost v w (take c p e q) = rw q (omega arith)
Step-lost v w (dial p e q) = rw q (omega arith)
Step-lost v w (woken c p e q) = rw q (omega arith)
Step-lost v w (dialled h q) = rw q (omega arith)
Step-lost v w (refused h q) = rw q (omega arith)
Step-lost v w (give_back c now h q) = rw q (omega arith)
Step-lost v w (abandon now h q) = rw q (omega arith)
Step-lost v w (sweep now q) = rw q (omega arith)

Reach-lost : {v w : World} → Reach v w → v.lost ≤ w.lost
Reach-lost here = omega arith
Reach-lost (next {u} {w} r s) = omega (arith, Reach-lost r, Step-lost u w s)

full_waits :
    (n : ℕ) (w : World)
    → Counted n w
    → w.lost ≡ n
    → (acquire w.pool ≡ must_wait) × (wake w.pool ≡ none)
unfolding acquire wake
full_waits n w k h = full w.pool.idle refl
  where
    full :
        (idle : List PooledConn)
        → w.pool.idle ≡ idle
        → (acquire w.pool ≡ must_wait) × (wake w.pool ≡ none)
    full [] e = (ground arith, ground arith)
    full (c ∷ cs) e = absurd (omega (arith, ap length e))

-- In a state where `total_` counts the connections, once as many were abandoned as the limit
-- allows, the pool is dead: whatever callers do afterwards, `acquire` has to wait, and no waiter
-- is ever served.
pub lost_forever :
    (n : ℕ) (v w : World)
    → Counted n v
    → v.lost ≡ n
    → Reach v w
    → (acquire w.pool ≡ must_wait) × (wake w.pool ≡ none)
lost_forever n v w k h r =
    let k' = Reach-Counted n r k in full_waits n w k' (omega (arith, Reach-lost r))

release_gone :
    (c : PooledConn) (now : ℕ) (p : UpstreamPool)
    → (c.valid ≡ false) ⊎ (p.cfg.max_keepalive ≤ c.request_count)
    → release (some c) now p ≡ record p { total = less_one p.total }
unfolding release
release_gone c now p gone = ground arith

acquire_room :
    (p : UpstreamPool)
    → p.idle ≡ []
    → 0 < p.total
    → p.total ≤ p.cfg.max_conns_per_upstream
    → p.total < 2 ^ 32
    → acquire (record p { total = less_one p.total }) ≡ must_connect p
unfolding acquire
acquire_room p none_idle pos within small =
    let down : less_one p.total ≡ p.total - 1 = omega arith in
    let up : (less_one p.total + 1) % 2 ^ 32 ≡ p.total = omega arith in ground arith

wake-nil : (p : UpstreamPool) → p.idle ≡ [] → wake p ≡ none
unfolding wake
wake-nil p e = ground arith

-- Giving back a connection that is dead or worn out makes room for a new one, but serves no
-- waiter: with nothing idle, the predicate of a thread that waits is still false, while a thread
-- that calls `acquire` now may connect (for a positive total, at most the limit and below 2 ^ 32).
pub release_wakes_nobody :
    (c : PooledConn) (now : ℕ) (p : UpstreamPool)
    → (c.valid ≡ false) ⊎ (p.cfg.max_keepalive ≤ c.request_count)
    → p.idle ≡ []
    → 0 < p.total
    → p.total ≤ p.cfg.max_conns_per_upstream
    → p.total < 2 ^ 32
    → let q = release (some c) now p in (wake q ≡ none) × (acquire q ≡ must_connect p)
release_wakes_nobody c now p gone none_idle pos within small = rw (release_gone c now p gone) (
  wake-nil (record p { total = less_one p.total }) none_idle,
  acquire_room p none_idle pos within small,
)

-- After `drain`, giving back a dead connection wraps `total_` round to 2 ^ 32 - 1, and the next
-- `acquire` has to wait, for any limit below 2 ^ 32.
drain_wraps :
    (c : PooledConn) (now : ℕ) (p : UpstreamPool)
    → c.valid ≡ false
    → p.cfg.max_conns_per_upstream < 2 ^ 32
    → let q = release (some c) now (drain p) in (q.total ≡ 2 ^ 32 - 1) × (acquire q ≡ must_wait)
unfolding release drain acquire
drain_wraps c now p dead small = ground arith
