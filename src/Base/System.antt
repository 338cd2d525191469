-- ===== src/Base/System.antt =====
-- What a system call returns: its value, where `none` is -1, and `errno` behind the call.
use Prim.Native.Nat.{ℕ}
use mathlib.Core.Option.{Option}

pub record Returned {ℓ} (A : Type ℓ) : Type ℓ where
  pub value : Option A
  pub errno : ℕ

-- The values on Linux, where `EWOULDBLOCK` is `EAGAIN`.
abbrev pub eintr : ℕ
eintr = 4

abbrev pub eagain : ℕ
eagain = 11

abbrev pub einprogress : ℕ
einprogress = 115
