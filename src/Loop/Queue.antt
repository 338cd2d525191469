-- ===== src/Loop/Queue.antt =====
-- include/uproxy/event_loop.h: what `add_timer`, `cancel_timer` and the part of `poll` for timers
-- promise to the owner of a loop, over an unknown state.
use uproxy.Base.{ℕ, ◌≡◌, Option, none, some, ◌==◌, if◌then◌else◌, Result, ok, err, stuck}

-- `pending s id` is the callback that waits under the number `id`. `Answers` is what the system
-- answers to an operation, `Signal` an event that the kernel reports. `IsGood` holds of the states of
-- the loop, `Fits` of answers that the system can give there.
pub record TimerQueue (C : Type 0) : Type 1 where
  pub State : Type 0
  pub Answers : Type 0
  pub Signal : Type 0
  pub pending : State → ℕ → Option C
  pub add : Answers → ℕ → C → State → Result ℕ × State
  pub cancel : Answers → ℕ → State → Result (Unit {0}) × State
  pub expire : Signal → State → Option C × State
  pub IsGood : State → Type 0
  pub Fits : Answers → State → Type 0

-- The callbacks behind an operation, from those in front of it.
abbrev pub Same : {C : Type 0} → (ℕ → Option C) → (ℕ → Option C) → Type 0
Same p p' = (j : ℕ) → p' j ≡ p j

abbrev pub Puts : {C : Type 0} → ℕ → Option C → (ℕ → Option C) → (ℕ → Option C) → Type 0
Puts id o p p' = (j : ℕ) → p' j ≡ (if j == id then o else p j)

abbrev pub Added : {C : Type 0} → C → (ℕ → Option C) → (ℕ → Option C) → Result ℕ → Type 0
Added cb p p' (ok id) = (p id ≡ none) × Puts id (some cb) p p'
Added cb p p' (err e) = Same p p'
Added cb p p' stuck = ⊥

abbrev pub Cancelled :
    {C : Type 0} → ℕ → (ℕ → Option C) → (ℕ → Option C) → Result (Unit {0}) → Type 0
Cancelled id p p' (ok u) = Puts id none p p'
Cancelled id p p' (err e) = Same p p'
Cancelled id p p' stuck = ⊥

abbrev pub Expired : {C : Type 0} → (ℕ → Option C) → (ℕ → Option C) → Option C → Type 0
Expired p p' none = Same p p'
Expired p p' (some cb) = (id : ℕ) × (p id ≡ some cb) × Puts id none p p'

pub record IsLawful {C : Type 0} (Q : TimerQueue C) : Type 0 where
  pub add_law :
      (k : Q.Answers) (delay_ms : ℕ) (cb : C) (s : Q.State)
      → Q.IsGood s
      → Q.Fits k s
      → Q.IsGood (Q.add k delay_ms cb s).1
        × Added cb (Q.pending s) (Q.pending (Q.add k delay_ms cb s).1) (Q.add k delay_ms cb s).0
  pub cancel_law :
      (k : Q.Answers) (id : ℕ) (s : Q.State)
      → Q.IsGood s
      → Q.IsGood (Q.cancel k id s).1
        × Cancelled id (Q.pending s) (Q.pending (Q.cancel k id s).1) (Q.cancel k id s).0
  pub expire_law :
      (e : Q.Signal) (s : Q.State)
      → Q.IsGood s
      → Q.IsGood (Q.expire e s).1
        × Expired (Q.pending s) (Q.pending (Q.expire e s).1) (Q.expire e s).0
