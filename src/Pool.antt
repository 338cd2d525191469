-- ===== src/Pool.antt =====
-- include/uproxy/upstream_pool.h, src/upstream_pool.cpp: the class `UpstreamPool`.
-- Each section under the mutex is one function. `acquire` has three such sections with a wait or a
-- connection attempt between them; what the system calls answer is an argument.
pub mod Steps
pub mod Faults
pub mod Manager
mod Tests
use uproxy.Base.{
  ℕ, ◌+◌, ◌-◌, ◌%◌, ◌^◌, Bool, true, false, not, ◌&&◌, ◌||◌, List, [], ◌∷◌, ◌++◌, Option, none,
  some, ltb, leb, if◌then◌else◌, length,
}
use uproxy.Config.{PoolConfig}

-- A file descriptor and its connection: `valid` is `fd.valid()`.
pub record PooledConn : Type 0 where
  pub fd : ℕ
  pub valid : Bool
  pub in_use : Bool
  pub request_count : ℕ
  pub created_at_ms : ℕ
  pub last_used_at_ms : ℕ

pub record UpstreamPool : Type 0 where
  pub cfg : PoolConfig
  pub idle : List PooledConn
  pub total : ℕ
  pub failed_requests : ℕ

abbrev pub make : PoolConfig → UpstreamPool
make cfg = record { cfg = cfg; idle = []; total = 0; failed_requests = 0 }

-- `--total_` on a `uint32_t`
abbrev pub less_one : ℕ → ℕ
less_one total = (total + 2 ^ 32 - 1) % 2 ^ 32

-- How the first section of `acquire` ends.
pub data Acquire : Type 0 where
  reuse : PooledConn → UpstreamPool → Acquire
  must_wait : Acquire
  must_connect : UpstreamPool → Acquire

unfoldable pub acquire : UpstreamPool → Acquire
acquire p = elim p.idle [
  | conn ∷ rest ↦ reuse (record conn { in_use = true }) (record p { idle = rest })
  | [] ↦
      if leb p.cfg.max_conns_per_upstream p.total
      then must_wait
      else must_connect (record p { total = (p.total + 1) % 2 ^ 32 })
]

-- `wait_for` returned: its predicate holds, and the front is taken, or the time is over (`none`).
unfoldable pub wake : UpstreamPool → Option (PooledConn × UpstreamPool)
wake p = elim p.idle [
  | [] ↦ none
  | conn ∷ rest ↦ some (record conn { in_use = true }, record p { idle = rest })
]

-- The last section, where `new_connection` has failed. The count of the endpoint's
-- `failed_requests` that comes from here is kept in the pool, and is not in the balancer's `stats`.
unfoldable pub connect_failed : UpstreamPool → UpstreamPool
connect_failed p = record p {
  total = less_one p.total;
  failed_requests = (p.failed_requests + 1) % 2 ^ 64;
}

-- The end of `new_connection`, where the connection is up.
unfoldable pub connected : ℕ → ℕ → PooledConn
connected fd now = record {
  fd = fd;
  valid = true;
  in_use = true;
  request_count = 0;
  created_at_ms = now;
  last_used_at_ms = now;
}

-- `release(conn)`: `none` is the null pointer.
unfoldable pub release : Option PooledConn → ℕ → UpstreamPool → UpstreamPool
release none now p = p
release (some conn) now p =
    if not conn.valid || leb p.cfg.max_keepalive conn.request_count
    then record p { total = less_one p.total }
    else record p { idle = p.idle ++ record conn { in_use = false; last_used_at_ms = now } ∷ [] }

abbrev pub is_stale : PoolConfig → ℕ → PooledConn → Bool
is_stale cfg now conn =
    leb conn.last_used_at_ms now && ltb cfg.idle_timeout_ms (now - conn.last_used_at_ms)

-- The loop of `evict_idle` over the idle connections: those that stay, and the total.
unfoldable pub evict : PoolConfig → ℕ → List PooledConn → ℕ → List PooledConn × ℕ
evict cfg now [] total = ([], total)
evict cfg now (c ∷ cs) total =
    let stale = is_stale cfg now c in
    let (kept, total') = evict cfg now cs (if stale then less_one total else total) in
    ((if stale then kept else c ∷ kept), total')

unfoldable pub evict_idle : ℕ → UpstreamPool → UpstreamPool
unfolding evict
evict_idle now p =
    let (kept, total') = evict p.cfg now p.idle p.total in record p { idle = kept; total = total' }

unfoldable pub drain : UpstreamPool → UpstreamPool
drain p = record p { idle = []; total = 0 }

abbrev pub idle_count : UpstreamPool → ℕ
idle_count p = length p.idle

abbrev pub total_count : UpstreamPool → ℕ
total_count p = p.total
