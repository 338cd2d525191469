-- ===== src/Proxy/Slots.antt =====
-- src/proxy.cpp, src/upstream_pool.cpp: what the rounds of `forward_http1` do to the pool.
use uproxy.Base.{
  ℕ, ◌+◌, ◌-◌, ◌%◌, ◌^◌, ◌≤◌, ◌<◌, ◌≡◌, refl, ap, true, false, not, ◌||◌, List, [], ◌∷◌, some, leb,
  inl, inr, arith, Bool-cases, Result-cases, length, length-append, Result, ok, err, stuck,
}
use uproxy.Config.{PoolConfig}
use uproxy.Pool.{PooledConn, UpstreamPool, acquire, wake, connect_failed, release}
use uproxy.Pool.Manager.{Dial, new_connection, acquire_conn}

-- `total_` counts the idle connections at least, and is a number of 32 bits.
pub record IsCounted (p : UpstreamPool) : Type 0 where
  pub idle_in : length p.idle ≤ p.total
  pub total_in : p.total < 2 ^ 32
  pub limit_in : p.cfg.max_conns_per_upstream < 2 ^ 32

-- The connections that `total_` counts and that are not idle. Between two requests nobody holds
-- one, so these are lost.
abbrev pub missing : UpstreamPool → ℕ
missing p = p.total - length p.idle

-- A pool of that configuration with so many connections missing.
pub record Has (cfg : PoolConfig) (n : ℕ) (q : UpstreamPool) : Type 0 where
  pub counted : IsCounted q
  pub cfg_eq : q.cfg ≡ cfg
  pub gone : missing q ≡ n

-- What `acquire_conn` does where `n` are missing: a connection in use is one more.
abbrev pub Acquired : PoolConfig → ℕ → Result PooledConn × UpstreamPool → Type 0
Acquired cfg n (ok conn, q) = Has cfg (n + 1) q
Acquired cfg n (err e, q) = Has cfg n q
Acquired cfg n (stuck, q) = Has cfg (n + 1) q

module _ (d : Dial) (p : UpstreamPool) (c : IsCounted p) where
  acquire_conn-reuse :
      (conn : PooledConn) (rest : List PooledConn)
      → p.idle ≡ conn ∷ rest
      → Acquired p.cfg (missing p) (acquire_conn d p)
  unfolding acquire_conn acquire
  acquire_conn-reuse conn rest e =
      rw (acquire_conn, e)
        (record {
          counted = record {
            idle_in = omega (arith, c.idle_in, ap length e);
            total_in = c.total_in;
            limit_in = c.limit_in;
          };
          cfg_eq = refl;
          gone = omega (arith, c.idle_in, ap length e);
        })

  acquire_conn-wait :
      p.idle ≡ []
      → leb p.cfg.max_conns_per_upstream p.total ≡ true
      → Acquired p.cfg (missing p) (acquire_conn d p)
  unfolding acquire_conn acquire wake
  acquire_conn-wait e full =
      rw (acquire_conn, e)
        (rw full (
          rw (wake, e)
            (record {
              counted = record {
                idle_in = omega (arith, c.idle_in, ap length e);
                total_in = c.total_in;
                limit_in = c.limit_in;
              };
              cfg_eq = refl;
              gone = omega (arith, ap length e);
            })))

  acquire_conn-connect :
      p.idle ≡ []
      → leb p.cfg.max_conns_per_upstream p.total ≡ false
      → Acquired p.cfg (missing p) (acquire_conn d p)
  unfolding acquire_conn acquire connect_failed
  acquire_conn-connect e free =
      let fits : (p.total + 1) % 2 ^ 32 ≡ p.total + 1 = ground (arith, c.limit_in, free) in
      let less : ((p.total + 1) % 2 ^ 32 + 2 ^ 32 - 1) % 2 ^ 32 ≡ p.total =
        omega (arith, fits, c.total_in) in
      let none_idle : length p.idle ≡ 0 = ap length e in
      elim (Result-cases (new_connection d)) [
        | inl (conn, made) ↦
            rw (acquire_conn, e)
              (rw free (
                rw made (record {
                  counted = record {
                    idle_in = omega (arith, fits, none_idle);
                    total_in = omega arith;
                    limit_in = c.limit_in;
                  };
                  cfg_eq = refl;
                  gone = omega (arith, fits, none_idle);
                })))
        | inr (inl (x, failed)) ↦
            rw (acquire_conn, e)
              (rw free (
                rw failed (record {
                  counted = record {
                    idle_in = omega (arith, less, none_idle);
                    total_in = omega (arith, less, c.total_in);
                    limit_in = c.limit_in;
                  };
                  cfg_eq = refl;
                  gone = omega (arith, less, none_idle);
                })))
        | inr (inr stops) ↦
            rw (acquire_conn, e)
              (rw free (
                rw stops (record {
                  counted = record {
                    idle_in = omega (arith, fits, none_idle);
                    total_in = omega arith;
                    limit_in = c.limit_in;
                  };
                  cfg_eq = refl;
                  gone = omega (arith, fits, none_idle);
                })))
      ]

pub acquire_conn-Acquired :
    (d : Dial) (p : UpstreamPool) → IsCounted p → Acquired p.cfg (missing p) (acquire_conn d p)
acquire_conn-Acquired d p c = go p.idle refl
  where
    go : (idle : List PooledConn) → p.idle ≡ idle → Acquired p.cfg (missing p) (acquire_conn d p)
    go (conn ∷ rest) e = acquire_conn-reuse d p c conn rest e
    go [] e = elim (Bool-cases (leb p.cfg.max_conns_per_upstream p.total)) [
      | inl full ↦ acquire_conn-wait d p c e full
      | inr free ↦ acquire_conn-connect d p c e free
    ]

-- Giving back a connection that is one of the missing.
pub release-Has :
    (conn : PooledConn) (now n : ℕ) (cfg : PoolConfig) (p : UpstreamPool)
    → Has cfg (n + 1) p
    → Has cfg n (release (some conn) now p)
unfolding release
release-Has conn now n cfg p h =
    let less : (p.total + 2 ^ 32 - 1) % 2 ^ 32 ≡ p.total - 1 =
      ground (arith, h.counted.total_in, h.gone) in
    elim (Bool-cases (not conn.valid || leb p.cfg.max_keepalive conn.request_count)) [
      | inl dropped ↦ rw dropped (record {
        counted = record {
          idle_in = omega (arith, less, h.gone);
          total_in = omega (arith, less, h.counted.total_in);
          limit_in = h.counted.limit_in;
        };
        cfg_eq = h.cfg_eq;
        gone = omega (arith, less, h.gone);
      })
      | inr kept ↦
          let one_more =
            length-append p.idle (record conn { in_use = false; last_used_at_ms = now } ∷ []) in
          rw kept (record {
            counted = record {
              idle_in = omega (arith, one_more, h.gone);
              total_in = h.counted.total_in;
              limit_in = h.counted.limit_in;
            };
            cfg_eq = h.cfg_eq;
            gone = omega (arith, one_more, h.gone);
          })
    ]
