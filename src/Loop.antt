-- ===== src/Loop.antt =====
-- include/uproxy/event_loop.h: the bits of `Event` and the event that a loop reports. The children
-- model the two loops, src/event_loop_epoll.cpp and src/event_loop_kqueue.cpp.
pub mod Epoll
pub mod Queue
pub mod Timers
pub mod Kqueue
pub mod Filters
pub mod OneShot
pub mod Ticking
mod Tests
use uproxy.Base.{ℕ, Bool, true, false, ◌&&◌, ◌||◌}

-- One field for each bit.
pub record Event : Type 0 where
  pub reads : Bool
  pub writes : Bool
  pub hangs_up : Bool
  pub fails : Bool

abbrev pub no_event : Event
no_event = record { reads = false; writes = false; hangs_up = false; fails = false }

abbrev pub read_event : Event
read_event = record no_event { reads = true }

abbrev pub write_event : Event
write_event = record no_event { writes = true }

abbrev pub hang_up_event : Event
hang_up_event = record no_event { hangs_up = true }

abbrev pub error_event : Event
error_event = record no_event { fails = true }

-- `operator|` and `operator&`.
abbrev pub union : Event → Event → Event
union a b = record {
  reads = a.reads || b.reads;
  writes = a.writes || b.writes;
  hangs_up = a.hangs_up || b.hangs_up;
  fails = a.fails || b.fails;
}

abbrev pub meet : Event → Event → Event
meet a b = record {
  reads = a.reads && b.reads;
  writes = a.writes && b.writes;
  hangs_up = a.hangs_up && b.hangs_up;
  fails = a.fails && b.fails;
}

abbrev pub has : Event → Event → Bool
has set flag = let both = meet set flag in both.reads || both.writes || both.hangs_up || both.fails

pub record FiredEvent : Type 0 where
  pub fd : ℕ
  pub events : Event
