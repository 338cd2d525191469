-- ===== src/Loop/Kqueue.antt =====
-- src/event_loop_kqueue.cpp: `KqueueLoop`. The kernel is a parameter where the loop changes its
-- filters, and what it answers is an argument elsewhere.
use uproxy.Base.{
  ℕ, ◌+◌, ◌*◌, ◌/◌, ◌%◌, ◌^◌, Bool, true, false, List, [], ◌∷◌, Option, none, some, ◌==◌,
  if◌then◌else◌, Result, ok, err, ◌>>=◌, from_errno,
}
use uproxy.Base.Int.{ℤ, pos, negsuc}
use uproxy.Base.Map.{find, erase, assign, emplace}
use uproxy.Base.System.{Returned, eintr}
use uproxy.Loop.{
  Event, no_event, read_event, write_event, hang_up_event, error_event, union, has, FiredEvent,
}

pub data Filter : Type 0 where
  evfilt_read evfilt_write evfilt_timer : Filter

pub data Action : Type 0 where
  adds deletes : Action

-- A change that `EV_SET` writes for a descriptor.
pub record Change : Type 0 where
  pub ident : ℕ
  pub filter : Filter
  pub action : Action

abbrev pub enoent : ℕ
enoent = 2

-- The two bits of an entry of `registered_`.
pub record Registered : Type 0 where
  pub for_read : Bool
  pub for_write : Bool

pub record KqueueLoop (C : Type 0) : Type 0 where
  pub timers : List (ℕ × C)
  pub next_timer_id : ℕ
  pub registered : List (ℕ × Registered)

abbrev pub of_entry : Option Registered → Registered
of_entry none = record { for_read = false; for_write = false }
of_entry (some r) = r

module _ {C : Type 0} where
  unfoldable pub make : KqueueLoop C
  make = record { timers = []; next_timer_id = 1; registered = [] }

  -- `registered_[fd]`: an entry that is not there has no bit.
  abbrev pub registered_at : KqueueLoop C → ℕ → Registered
  registered_at l fd = of_entry (find fd l.registered)

-- `kevent` takes a list of changes: the `errno` of the first that fails.
module _ {K : Type 0} (kevent : List Change → K → Option ℕ × K) where
  -- One half of `apply`: a filter that is wanted is added; one that is not is deleted if its bit is
  -- set. What is left is whether adding failed and the new bit.
  unfoldable pub ask : ℕ → Filter → Bool → Bool → K → Option ℕ × Bool × K
  ask fd filter true cur k =
      let (failure, k') = kevent (record { ident = fd; filter = filter; action = adds } ∷ []) k in
      (failure, true, k')
  ask fd filter false true k =
      let (failure, k') =
        kevent (record { ident = fd; filter = filter; action = deletes } ∷ []) k in
      (none, false, k')
  ask fd filter false false k = (none, false, k)

  -- Behind the second half, with the bit of the first.
  unfoldable pub store_bits :
      {C : Type 0}
      → ℕ
      → KqueueLoop C
      → Bool
      → Option ℕ × Bool × K
      → Result (Unit {0}) × KqueueLoop C × K
  store_bits fd l reading (some errno, writing, k) =
      (err (from_errno errno "kevent add write"), l, k)
  store_bits fd l reading (none, writing, k) =
      let bits : Registered = record { for_read = reading; for_write = writing } in
      (ok tt, record l { registered = assign fd bits l.registered }, k)

  -- Behind the first half.
  unfoldable pub ask_write :
      {C : Type 0}
      → ℕ
      → Event
      → KqueueLoop C
      → Option ℕ × Bool × K
      → Result (Unit {0}) × KqueueLoop C × K
  unfolding ask store_bits
  ask_write fd events l (some errno, reading, k) = (err (from_errno errno "kevent add read"), l, k)
  ask_write fd events l (none, reading, k) =
      store_bits fd l reading
        (ask fd evfilt_write (has events write_event) (registered_at l fd).for_write k)

  unfoldable pub apply :
      {C : Type 0} → ℕ → Event → KqueueLoop C → K → Result (Unit {0}) × KqueueLoop C × K
  unfolding ask ask_write
  apply fd events l k =
      ask_write fd events l
        (ask fd evfilt_read (has events read_event) (registered_at l fd).for_read k)

  unfoldable pub add :
      {C : Type 0} → ℕ → Event → KqueueLoop C → K → Result (Unit {0}) × KqueueLoop C × K
  unfolding apply
  add fd events l k = apply fd events l k

  unfoldable pub modify :
      {C : Type 0} → ℕ → Event → KqueueLoop C → K → Result (Unit {0}) × KqueueLoop C × K
  unfolding apply
  modify fd events l k = apply fd events l k

  unfoldable pub remove : ℕ → K → Result (Unit {0}) × K
  remove fd k =
      let (failure, k') =
        kevent
          (record { ident = fd; filter = evfilt_read; action = deletes }
            ∷ record { ident = fd; filter = evfilt_write; action = deletes }
            ∷ [])
          k in
      (
        elim failure [
          | none ↦ ok tt
          | some errno ↦ if errno == enoent then ok tt else err (from_errno errno "kevent delete")
        ],
        k',
      )

module _ {C : Type 0} where
  -- `armed` is what `kevent` answers for the number and the delay of the timer.
  unfoldable pub add_timer : (ℕ → ℕ → Option ℕ) → ℕ → C → KqueueLoop C → Result ℕ × KqueueLoop C
  add_timer armed delay_ms cb l =
      let id = l.next_timer_id in
      let counted = record l { next_timer_id = (id + 1) % 2 ^ 64 } in
      elim (armed id delay_ms) [
        | some errno ↦ (err (from_errno errno "kevent timer add"), counted)
        | none ↦ (ok id, record counted { timers = emplace id cb l.timers })
      ]

  unfoldable pub cancel_timer : Option ℕ → ℕ → KqueueLoop C → Result (Unit {0}) × KqueueLoop C
  cancel_timer none id l = (ok tt, record l { timers = erase id l.timers })
  cancel_timer (some errno) id l =
      if errno == enoent
      then (ok tt, record l { timers = erase id l.timers })
      else (err (from_errno errno "kevent timer delete"), l)

-- An event of `kevent`, with the flags EV_EOF and EV_ERROR.
pub record Kevent : Type 0 where
  pub ident : ℕ
  pub filter : Filter
  pub at_eof : Bool
  pub failed : Bool

pub data Taken (C : Type 0) : Type 0 where
  reported : FiredEvent → Taken C
  expired : C → Taken C
  ignored : Taken C

unfoldable pub from_kevent : Kevent → Event
from_kevent ev =
    let filtered : Event = elim ev.filter [
      | evfilt_read ↦ union no_event read_event
      | evfilt_write ↦ union no_event write_event
      | evfilt_timer ↦ no_event
    ] in
    let ended : Event = if ev.at_eof then union filtered hang_up_event else filtered in
    if ev.failed then union ended error_event else ended

module _ {C : Type 0} where
  unfoldable pub take_timer : ℕ → KqueueLoop C → Taken C × KqueueLoop C
  take_timer id l = elim (find id l.timers) [
    | none ↦ (ignored, l)
    | some cb ↦ (expired cb, record l { timers = erase id l.timers })
  ]

  unfoldable pub take_event : Kevent → KqueueLoop C → Taken C × KqueueLoop C
  unfolding from_kevent take_timer
  take_event ev l =
      let other : Taken C × KqueueLoop C =
        (reported (record { fd = ev.ident; events = from_kevent ev }), l) in
      elim ev.filter [
        | evfilt_timer ↦ take_timer ev.ident l
        | evfilt_read ↦ other
        | evfilt_write ↦ other
      ]

-- The seconds and nanoseconds that `kevent` waits; a negative time is for ever.
unfoldable pub wait_time : ℤ → Option (ℕ × ℕ)
wait_time (pos ms) = some (ms / 1000, ms % 1000 * 1000000)
wait_time (negsuc n) = none

-- `poll` for callbacks that change the loop and the state `S` of their owner.
module _ {C S : Type 0} (run : C → KqueueLoop C × S → Result (KqueueLoop C × S))
    (cb : FiredEvent → KqueueLoop C × S → Result (KqueueLoop C × S)) where
  unfoldable pub call_back : Taken C → KqueueLoop C × S → Result (KqueueLoop C × S)
  call_back (reported ev) w = cb ev w
  call_back (expired fn) w = run fn w
  call_back ignored w = ok w

  unfoldable pub dispatch : List Kevent → KqueueLoop C × S → Result (KqueueLoop C × S)
  unfolding take_event call_back
  dispatch [] w = ok w
  dispatch (ev ∷ events) (l, s) =
      let (taken, l') = take_event ev l in call_back taken (l', s) >>= dispatch events

  unfoldable pub poll :
      ℤ → (Option (ℕ × ℕ) → Returned (List Kevent)) → KqueueLoop C × S → Result (KqueueLoop C × S)
  unfolding wait_time dispatch
  poll timeout_ms kevent w =
      let waited = kevent (wait_time timeout_ms) in
      elim waited.value [
        | some events ↦ dispatch events w
        | none ↦ if waited.errno == eintr then ok w else err (from_errno waited.errno "kevent poll")
      ]
