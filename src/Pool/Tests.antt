-- ===== src/Pool/Tests.antt =====
-- src/upstream_pool.cpp: the laws of the pool, on a pool of one connection.
use uproxy.Base.{◌≡◌, refl, arith, true, false, inl, [], none, some}
use uproxy.Config.{PoolConfig}
use uproxy.Pool.{PooledConn, UpstreamPool, make, must_wait, must_connect, acquire, wake, release}
use uproxy.Pool.Steps.{
  World, Step, dial, dialled, abandon, Reach, here, next, start, Counted, Reach-start-Counted,
}
use uproxy.Pool.Faults.{lost_forever, release_wakes_nobody}

abbrev single : PoolConfig
single = record {
  max_conns_per_upstream = 1;
  connect_timeout_ms = 5000;
  idle_timeout_ms = 60000;
  max_keepalive = 1000;
}

-- The one connection is out.
abbrev taken : UpstreamPool
taken = record { cfg = single; idle = []; total = 1; failed_requests = 0 }

abbrev dead : PooledConn
dead = record {
  fd = 7;
  valid = false;
  in_use = true;
  request_count = 1;
  created_at_ms = 0;
  last_used_at_ms = 0;
}

abbrev dialling : World
dialling = record { pool = taken; busy = 0; dialing = 1; lost = 0 }

abbrev used : World
used = record { pool = taken; busy = 1; dialing = 0; lost = 0 }

abbrev dropped : World
dropped = record { pool = taken; busy = 0; dialing = 0; lost = 1 }

first_acquire : acquire (make single) ≡ must_connect taken
unfolding acquire
first_acquire = refl

release-none : release none 5 taken ≡ taken
unfolding release
release-none = refl

abandon_step : Step used dropped
unfolding release
abandon_step = abandon 5 (omega arith) refl

-- A first exchange fails: connect, use, and release the null pointer.
to_dropped : Reach (start single) dropped
to_dropped =
    next (next (next here (dial taken first_acquire refl)) (dialled (omega arith) refl))
      abandon_step

Reach-start-Counted_example : Counted 1 dropped
Reach-start-Counted_example = Reach-start-Counted single dropped (omega arith) to_dropped

dropped-Counted : Counted 1 dropped
dropped-Counted = record {
  small = omega arith;
  limit_eq = refl;
  total_eq = refl;
  within = omega arith;
}

lost_forever_example : (acquire dropped.pool ≡ must_wait) × (wake dropped.pool ≡ none)
lost_forever_example = lost_forever 1 dropped dropped dropped-Counted refl here

release_wakes_nobody_example :
    let q = release (some dead) 5 taken in (wake q ≡ none) × (acquire q ≡ must_connect taken)
release_wakes_nobody_example =
    release_wakes_nobody dead 5 taken (inl refl) refl (omega arith) (omega arith) (omega arith)
