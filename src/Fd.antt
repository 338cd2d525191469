-- ===== src/Fd.antt =====
-- src/fd.cpp: `Uniquefd`, the owner of a descriptor. What a call of the system answers is an argument:
-- `none` for success, else the `errno` behind it.
use uproxy.Base.{
  ℕ, ◌+◌, Bool, true, false, List, [], ◌∷◌, Option, none, some, ◌==◌, if◌then◌else◌, Result, ok,
  err, stuck, ◌>>=◌, from_errno,
}
use uproxy.Base.System.{eintr}

-- `none` is -1.
pub record Uniquefd : Type 0 where
  pub fd : Option ℕ

unfoldable pub make : Option ℕ → Uniquefd
make fd = record { fd = fd }

unfoldable pub get : Uniquefd → Option ℕ
get u = u.fd

unfoldable pub release : Uniquefd → Option ℕ × Uniquefd
release u = (u.fd, record { fd = none })

unfoldable pub valid : Uniquefd → Bool
valid u = is_some u.fd
  where
    is_some : Option ℕ → Bool
    is_some none = false
    is_some (some fd) = true

-- The loop of `close`: how often it is called.
unfoldable pub close_loop : List (Option ℕ) → Result ℕ
close_loop [] = stuck
close_loop (none ∷ closes) = ok 1
close_loop (some errno ∷ closes) =
    let again = close_loop closes >>= λ n. ok (n + 1) in if errno == eintr then again else ok 1

-- How often `close` is called for the descriptor that was owned, and the owner behind it.
unfoldable pub reset : List (Option ℕ) → Option ℕ → Uniquefd → Result (ℕ × Uniquefd)
unfolding close_loop
reset closes fd u = elim u.fd [
  | none ↦ ok (0, record { fd = fd })
  | some old ↦ close_loop closes >>= λ n. ok (n, record { fd = fd })
]

-- `a = std::move(b)` for two owners: the calls of `close`, and both behind it.
unfoldable pub move_assign :
    List (Option ℕ) → Uniquefd → Uniquefd → Result (ℕ × Uniquefd × Uniquefd)
unfolding release reset
move_assign closes a b = let (fd, b') = release b in reset closes fd a >>= λ (n, a'). ok (n, a', b')

unfoldable pub set_nonblocking : Option ℕ → Option ℕ → Result (Unit {0})
set_nonblocking (some errno) set_flags = err (from_errno errno "fcntl(F_GETFL)")
set_nonblocking none (some errno) = err (from_errno errno "fcntl(F_SETFL O_NONBLOCK)")
set_nonblocking none none = ok tt

-- With SO_REUSEPORT.
unfoldable pub set_reuse : Option ℕ → Option ℕ → Result (Unit {0})
set_reuse (some errno) port = err (from_errno errno "setsockopt(SO_REUSEADDR)")
set_reuse none (some errno) = err (from_errno errno "setsockopt(SO_REUSEPORT)")
set_reuse none none = ok tt

unfoldable pub set_nodelay : Option ℕ → Result (Unit {0})
set_nodelay (some errno) = err (from_errno errno "setsockopt(TCP_NODELAY)")
set_nodelay none = ok tt
