-- ===== src/Proxy/Lost.antt =====
-- src/proxy.cpp, src/upstream_pool.cpp: the connections that `forward_http1` loses.
use uproxy.Base.{
  ℕ, ◌+◌, ◌%◌, ◌^◌, ◌≤◌, ◌≡◌, refl, true, List, [], leb, arith, Result, ok, err, stuck, from_code,
  timeout,
}
use uproxy.Config.{PoolConfig}
use uproxy.Pool.{PooledConn, UpstreamPool, acquire, wake, release}
use uproxy.Pool.Manager.{acquire_conn}
use uproxy.Proxy.Upstream.{
  Attempt, Round, no_connection, broken, answered, unknown, exchange, give_back, round_with, round,
  forward_loop,
}
use uproxy.Proxy.Slots.{IsCounted, missing, Has, Acquired, acquire_conn-Acquired, release-Has}

-- What a round does where `n` connections are missing: one that fails on a connection leaves one
-- more.
abbrev pub Rounded : PoolConfig → ℕ → Round × UpstreamPool → Type 0
Rounded cfg n (no_connection e, q) = Has cfg n q
Rounded cfg n (broken e, q) = Has cfg (n + 1) q
Rounded cfg n (answered response, q) = Has cfg n q
Rounded cfg n (unknown, q) = Has cfg (n + 1) q

give_back-Rounded :
    (cfg : PoolConfig) (n : ℕ) (a : Attempt) (conn : PooledConn) (p : UpstreamPool)
    (r : Result (List ℕ))
    → Has cfg (n + 1) p
    → Rounded cfg n (give_back a conn p r)
unfolding give_back release
give_back-Rounded cfg n a conn p (err e) h = h
give_back-Rounded cfg n a conn p stuck h = h
give_back-Rounded cfg n a conn p (ok response) h =
    release-Has (record conn { request_count = (conn.request_count + 1) % 2 ^ 64 }) a.now n cfg p h

round_with-Rounded :
    (cfg : PoolConfig) (n : ℕ) (bytes : List ℕ) (a : Attempt) (x : Result PooledConn × UpstreamPool)
    → Acquired cfg n x
    → Rounded cfg n (round_with bytes a x)
unfolding round_with
round_with-Rounded cfg n bytes a (err e, p) h = h
round_with-Rounded cfg n bytes a (stuck, p) h = h
round_with-Rounded cfg n bytes a (ok conn, p) h =
    give_back-Rounded cfg n a conn p (exchange bytes a) h

-- A round of `forward_http1` on a pool whose total counts its idle connections leaves such a pool
-- of the same configuration. As many connections are counted but not idle behind it as before if
-- there was none to be had or if it brought a response, and one more if the exchange failed or the
-- answers of the system do not end it.
pub round_lem :
    (bytes : List ℕ) (a : Attempt) (p : UpstreamPool)
    → IsCounted p
    → Rounded p.cfg (missing p) (round bytes a p)
unfolding round
round_lem bytes a p c =
    round_with-Rounded p.cfg (missing p) bytes a (acquire_conn a.dial p)
      (acquire_conn-Acquired a.dial p c)

-- On a pool without an idle connection whose total has reached the limit, a request fails with the
-- error "upstream pool exhausted", whatever the system answers.
pub forward_exhausted :
    (bytes : List ℕ) (attempts : ℕ → Attempt) (p : UpstreamPool)
    → p.idle ≡ []
    → p.cfg.max_conns_per_upstream ≤ p.total
    → (forward_loop 2 0 bytes attempts p).0 ≡ err (from_code timeout "upstream pool exhausted")
unfolding forward_loop round round_with acquire_conn acquire wake
forward_exhausted bytes attempts p none_idle full =
    let at_limit : leb p.cfg.max_conns_per_upstream p.total ≡ true = ground arith in
    rw (forward_loop, none_idle) (rw at_limit (rw (wake, none_idle) refl))
