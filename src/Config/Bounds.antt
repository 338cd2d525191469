-- ===== src/Config/Bounds.antt =====
-- src/config.cpp: the ranges that every number of a configuration stays in.
use uproxy.Base.{
  ℕ, Option-cases, ◌^◌, ◌<◌, ◌≡◌, ◌&&◌, ◌||◌, List, [], ◌∷◌, some, ltb, ◌==◌, inl, inr, arith, All,
  bytes_eq, codes,
}
use uproxy.Base.Holds.{Holds, Holds-ok, Holds-err, Holds-bind, Holds-if, Holds-fail_if}
use uproxy.Base.Text.{from_chars}
use uproxy.Config.{UpstreamConfig, PoolConfig, ProxyConfig}
use uproxy.Config.Values.{trim, parse_u32, parse_port, parse_string}
use uproxy.Config.File.{
  Section, root, proxy, tls, pool, log, upstream, change_last, assign_proxy, assign_pool,
  assign_upstream, assign,
}

abbrev pub IsPort : ℕ → Type 0
IsPort n = (0 < n) × (n < 65536)

abbrev pub IsU32 : ℕ → Type 0
IsU32 n = n < 2 ^ 32

abbrev pub IsBoundedUpstream : UpstreamConfig → Type 0
IsBoundedUpstream u = (u.port < 65536) × IsU32 u.weight

abbrev pub IsBoundedPool : PoolConfig → Type 0
IsBoundedPool p =
    IsU32 p.max_conns_per_upstream
    × IsU32 p.connect_timeout_ms
    × IsU32 p.idle_timeout_ms
    × IsU32 p.max_keepalive

pub record IsBounded (cfg : ProxyConfig) : Type 0 where
  pub listen_in : IsPort cfg.listen_port
  pub tls_in : IsPort cfg.tls_port
  pub workers_in : IsU32 cfg.worker_threads
  pub pool_in : IsBoundedPool cfg.pool
  pub upstreams_in : All IsBoundedUpstream cfg.upstreams

from_chars-bound :
    (base bound : ℕ) (xs : List ℕ) {n : ℕ} → from_chars base bound xs ≡ some n → n < bound
from_chars-bound base bound [] h = cc
from_chars-bound base bound (c ∷ cs) h = ground (arith, h)

pub parse_u32-IsU32 : (value field : List ℕ) → Holds IsU32 (parse_u32 value field)
unfolding parse_u32
parse_u32-IsU32 value field = elim (Option-cases (from_chars 10 (2 ^ 32) (trim value))) [
  | inl none_read ↦ rw (parse_u32, none_read) Holds-err
  | inr (n, e) ↦ rw (parse_u32, e) (Holds-ok (from_chars-bound 10 (2 ^ 32) (trim value) e))
]

pub parse_port-IsPort : (value field : List ℕ) → Holds IsPort (parse_port value field)
unfolding parse_port
parse_port-IsPort value field =
    Holds-bind (parse_u32 value field) (parse_u32-IsU32 value field) (λ n small.
      Holds-fail_if (n == 0 || ltb 65535 n) _
        (λ good. Holds-ok (ground (arith, good), ground (arith, good))))

change_last-All :
    {P : UpstreamConfig → Type 0} (f : UpstreamConfig → UpstreamConfig) (us : List UpstreamConfig)
    → ((u : UpstreamConfig) → P u → P (f u))
    → All P us
    → All P (change_last f us)
change_last-All f [] k a = tt
change_last-All f (u ∷ []) k a = (k u a.0, tt)
change_last-All f (u ∷ v ∷ us) k a = (a.0, change_last-All f (v ∷ us) k a.1)

assign_proxy-IsBounded :
    (key value : List ℕ) (cfg : ProxyConfig)
    → IsBounded cfg
    → Holds IsBounded (assign_proxy key value cfg)
unfolding assign_proxy
assign_proxy-IsBounded key value cfg b =
    Holds-if (bytes_eq key (codes "listen_addr"))
      (Holds-ok (record {
        listen_in = b.listen_in;
        tls_in = b.tls_in;
        workers_in = b.workers_in;
        pool_in = b.pool_in;
        upstreams_in = b.upstreams_in;
      }))
      (Holds-if (bytes_eq key (codes "listen_port"))
        (Holds-bind (parse_port value key) (parse_port-IsPort value key) (λ p h. Holds-ok (record {
          listen_in = h;
          tls_in = b.tls_in;
          workers_in = b.workers_in;
          pool_in = b.pool_in;
          upstreams_in = b.upstreams_in;
        })))
        (Holds-if (bytes_eq key (codes "tls_port"))
          (Holds-bind (parse_port value key) (parse_port-IsPort value key) (λ p h.
            Holds-ok (record {
              listen_in = b.listen_in;
              tls_in = h;
              workers_in = b.workers_in;
              pool_in = b.pool_in;
              upstreams_in = b.upstreams_in;
            })))
          (Holds-if (bytes_eq key (codes "worker_threads"))
            (Holds-bind (parse_u32 value key) (parse_u32-IsU32 value key) (λ n h. Holds-ok (record {
              listen_in = b.listen_in;
              tls_in = b.tls_in;
              workers_in = h;
              pool_in = b.pool_in;
              upstreams_in = b.upstreams_in;
            })))
            (Holds-ok b))))

assign_pool-IsBounded :
    (key value : List ℕ) (p : PoolConfig)
    → IsBoundedPool p
    → Holds IsBoundedPool (assign_pool key value p)
unfolding assign_pool
assign_pool-IsBounded key value p (conns, connect, idle, keepalive) =
    let read = parse_u32-IsU32 value key in
    Holds-if (bytes_eq key (codes "max_connections_per_upstream"))
      (Holds-bind (parse_u32 value key) read (λ n h. Holds-ok (h, connect, idle, keepalive)))
      (Holds-if (bytes_eq key (codes "connect_timeout_ms"))
        (Holds-bind (parse_u32 value key) read (λ n h. Holds-ok (conns, h, idle, keepalive)))
        (Holds-if (bytes_eq key (codes "idle_timeout_ms"))
          (Holds-bind (parse_u32 value key) read (λ n h. Holds-ok (conns, connect, h, keepalive)))
          (Holds-if (bytes_eq key (codes "max_keepalive"))
            (Holds-bind (parse_u32 value key) read (λ n h. Holds-ok (conns, connect, idle, h)))
            (Holds-ok (conns, connect, idle, keepalive)))))

assign_upstream-IsBounded :
    (key value : List ℕ) (us : List UpstreamConfig)
    → All IsBoundedUpstream us
    → Holds (All IsBoundedUpstream) (assign_upstream key value us)
unfolding assign_upstream
assign_upstream-IsBounded key value us b =
    Holds-if (bytes_eq key (codes "name")) (Holds-ok (change_last-All _ us (λ u h. h) b)) (
      Holds-if (bytes_eq key (codes "addr")) (Holds-ok (change_last-All _ us (λ u h. h) b)) (
        Holds-if (bytes_eq key (codes "port"))
          (Holds-bind (parse_port value key) (parse_port-IsPort value key)
            (λ n h. Holds-ok (change_last-All _ us (λ u old. (h.1, old.1)) b)))
          (Holds-if (bytes_eq key (codes "weight"))
            (Holds-bind (parse_u32 value key) (parse_u32-IsU32 value key)
              (λ n h. Holds-ok (change_last-All _ us (λ u old. (old.0, h)) b)))
            (Holds-if (bytes_eq key (codes "healthy"))
              (Holds-ok (change_last-All _ us (λ u h. h) b))
              (Holds-if
                (bytes_eq key (codes "protocol") && bytes_eq (parse_string value) (codes "h2c"))
                (Holds-ok (change_last-All _ us (λ u h. h) b)) (Holds-ok b))))))

pub assign-IsBounded :
    (section : Section) (key value : List ℕ) (cfg : ProxyConfig)
    → IsBounded cfg
    → Holds IsBounded (assign section key value cfg)
unfolding assign
assign-IsBounded root key value cfg b = Holds-ok b
assign-IsBounded proxy key value cfg b = assign_proxy-IsBounded key value cfg b
assign-IsBounded tls key value cfg b = Holds-ok (record {
  listen_in = b.listen_in;
  tls_in = b.tls_in;
  workers_in = b.workers_in;
  pool_in = b.pool_in;
  upstreams_in = b.upstreams_in;
})
assign-IsBounded pool key value cfg b =
    Holds-bind (assign_pool key value cfg.pool) (assign_pool-IsBounded key value cfg.pool b.pool_in)
      (λ p h. Holds-ok (record {
        listen_in = b.listen_in;
        tls_in = b.tls_in;
        workers_in = b.workers_in;
        pool_in = h;
        upstreams_in = b.upstreams_in;
      }))
assign-IsBounded log key value cfg b = Holds-ok (record {
  listen_in = b.listen_in;
  tls_in = b.tls_in;
  workers_in = b.workers_in;
  pool_in = b.pool_in;
  upstreams_in = b.upstreams_in;
})
assign-IsBounded upstream key value cfg b =
    Holds-bind (assign_upstream key value cfg.upstreams)
      (assign_upstream-IsBounded key value cfg.upstreams b.upstreams_in)
      (λ us h. Holds-ok (record {
        listen_in = b.listen_in;
        tls_in = b.tls_in;
        workers_in = b.workers_in;
        pool_in = b.pool_in;
        upstreams_in = h;
      }))
