-- ===== src/Pool/Manager.antt =====
-- src/upstream_pool.cpp: `new_connection`, the whole of `acquire`, and the class `PoolManager`.
use uproxy.Base.{
  ℕ, Bool, not, List, [], ◌∷◌, map, Option, none, some, ◌==◌, if◌then◌else◌, bytes_eq, Result, ok,
  err, stuck, ◌>>=◌, fail_if, from_code, from_errno, config_invalid, timeout, sys_error,
}
use uproxy.Base.System.{einprogress}
use uproxy.Config.{PoolConfig}
use uproxy.Fd.{set_nonblocking}
use uproxy.Pool.{
  PooledConn, UpstreamPool, make, reuse, must_wait, must_connect, acquire, wake, connect_failed,
  connected, evict_idle,
}

-- What the system calls of `new_connection` answer, in their order: for a call that fails, the
-- `errno` behind it. `connected_by` is what `poll` returned, and `so_error` is `none` where
-- `getsockopt` failed.
pub record Dial : Type 0 where
  pub socket : Option ℕ
  pub socket_errno : ℕ
  pub get_flags : Option ℕ
  pub set_flags : Option ℕ
  pub is_ipv4 : Bool
  pub connect : Option ℕ
  pub polled_one : Bool
  pub so_error : Option ℕ
  pub now : ℕ

-- Waiting for a connection that `connect` has begun.
unfoldable pub await_connect : ℕ → Dial → Result PooledConn
unfolding connected
await_connect fd d =
    let failed = err (from_code sys_error "connect upstream failed") in
    if not d.polled_one
    then err (from_code timeout "connect upstream timeout")
    else elim d.so_error [
      | none ↦ failed
      | some code ↦ if code == 0 then ok (connected fd d.now) else failed
    ]

unfoldable pub new_connection : Dial → Result PooledConn
unfolding set_nonblocking await_connect connected
new_connection d = elim d.socket [
  | none ↦ err (from_errno d.socket_errno "socket upstream")
  | some fd ↦ set_nonblocking d.get_flags d.set_flags >>= λ _.
      fail_if (not d.is_ipv4) (from_code config_invalid "upstream address must be IPv4")
        (elim d.connect [
          | none ↦ ok (connected fd d.now)
          | some errno ↦
              if errno == einprogress
              then await_connect fd d
              else err (from_errno errno "connect upstream")
        ])
]

-- `acquire`, where no other caller changes the pool while it waits or connects: all callers are
-- handlers of one event loop.
unfoldable pub acquire_conn : Dial → UpstreamPool → Result PooledConn × UpstreamPool
unfolding acquire wake new_connection connect_failed
acquire_conn d p = elim (acquire p) [
  | reuse conn p' ↦ (ok conn, p')
  | must_wait ↦ elim (wake p) [
    | none ↦ (err (from_code timeout "upstream pool exhausted"), p)
    | some (conn, p') ↦ (ok conn, p')
  ]
  | must_connect p' ↦ elim (new_connection d) [
    | ok conn ↦ (ok conn, p')
    | err e ↦ (err e, connect_failed p')
    | stuck ↦ (stuck, p')
  ]
]

-- `pools_` is an unordered map: each name stands in the list once.
pub record PoolManager : Type 0 where
  pub pools : List (List ℕ × UpstreamPool)
  pub cfg : PoolConfig

abbrev pub make_manager : PoolConfig → PoolManager
make_manager cfg = record { pools = []; cfg = cfg }

unfoldable pub find_pool : List ℕ → List (List ℕ × UpstreamPool) → Option UpstreamPool
find_pool name [] = none
find_pool name ((key, p) ∷ m) =
    let later = find_pool name m in if bytes_eq key name then some p else later

-- The pool that `get` refers to.
unfoldable pub get : List ℕ → PoolManager → UpstreamPool
unfolding find_pool
get name m = elim (find_pool name m.pools) [ none ↦ make m.cfg | some p ↦ p ]

-- The manager behind `get`, once that pool has become `p`.
unfoldable pub put_pool :
    List ℕ → UpstreamPool → List (List ℕ × UpstreamPool) → List (List ℕ × UpstreamPool)
put_pool name p [] = (name, p) ∷ []
put_pool name p ((key, q) ∷ m) =
    let later = put_pool name p m in if bytes_eq key name then (key, p) ∷ m else (key, q) ∷ later

unfoldable pub tick : ℕ → PoolManager → PoolManager
unfolding evict_idle
tick now m = record m { pools = map (λ e. (e.0, evict_idle now e.1)) m.pools }
