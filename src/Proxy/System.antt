-- ===== src/Proxy/System.antt =====
-- src/proxy.cpp: `wait_fd`, and the answers of `poll`.
use uproxy.Base.{
  ℕ, String, Bool, not, ◌&&◌, List, [], ◌∷◌, ◌==◌, if◌then◌else◌, Result, ok, err, stuck, from_code,
  from_errno, sys_error, timeout,
}
use uproxy.Base.System.{eintr}

-- What `poll` on one descriptor answers. Where it is ready: whether `revents` has one of POLLERR,
-- POLLHUP and POLLNVAL, and whether it has the event that was asked for.
pub data Poll : Type 0 where
  ready : Bool → Bool → Poll
  timed_out : Poll
  poll_failed : ℕ → Poll

-- `wait_fd`, with the answers that the calls of `poll` get one after the other. It takes one
-- answer, and one more for each interruption; the other answers are left for later calls.
unfoldable pub wait_fd : String → List Poll → Result (Unit {0}) × List Poll
wait_fd op [] = (stuck, [])
wait_fd op (ready trouble wanted ∷ polls) =
    ((if trouble && not wanted then err (from_code sys_error op) else ok tt), polls)
wait_fd op (timed_out ∷ polls) = (err (from_code timeout op), polls)
wait_fd op (poll_failed errno ∷ polls) =
    let again = wait_fd op polls in
    if errno == eintr then again else (err (from_errno errno op), polls)
