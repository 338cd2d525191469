-- ===== src/Proxy/Send.antt =====
-- src/proxy.cpp: `write_all`. What the system answers is an argument.
use uproxy.Base.{
  ℕ, List, [], ◌∷◌, ◌++◌, none, some, ◌==◌, if◌then◌else◌, take, drop, Result, ok, err, stuck,
  from_errno,
}
use uproxy.Base.System.{Returned, eintr, eagain}
use uproxy.Proxy.System.{Poll, wait_fd}

-- What follows a `send` that returned -1: another round, or an error.
unfoldable pub after_failure : ℕ → List Poll → Result (Unit {0}) × List Poll
unfolding wait_fd
after_failure errno polls =
    if errno == eagain
    then wait_fd "write upstream" polls
    else ((if errno == eintr then ok tt else err (from_errno errno "write upstream")), polls)

-- `write_all`, with the answers of `send` and of `poll`: how it ends, and the bytes that `send`
-- has taken.
unfoldable pub write_all : List (Returned ℕ) → List Poll → List ℕ → Result (Unit {0}) × List ℕ
unfolding after_failure
write_all sends polls [] = (ok tt, [])
write_all [] polls (b ∷ bytes) = (stuck, [])
write_all (s ∷ sends) polls (b ∷ bytes) = elim s.value [
  | some n ↦
      let (r, taken) = write_all sends polls (drop n (b ∷ bytes)) in
      if n == 0
      then (err (from_errno s.errno "write upstream"), [])
      else (r, take n (b ∷ bytes) ++ taken)
  | none ↦
      let (waited, polls') = after_failure s.errno polls in
      elim waited [
        | ok u ↦ write_all sends polls' (b ∷ bytes)
        | err e ↦ (err e, [])
        | stuck ↦ (stuck, [])
      ]
]
