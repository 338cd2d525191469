-- ===== src/Loop/Epoll.antt =====
-- src/event_loop_epoll.cpp: `EpollLoop`. What the kernel answers is an argument; `C` is the type of
-- the callbacks that a timer holds.
use uproxy.Base.{
  ℕ, ◌+◌, ◌*◌, ◌/◌, ◌%◌, ◌^◌, Bool, true, false, ◌||◌, List, [], ◌∷◌, Option, none, some, ◌==◌,
  if◌then◌else◌, Result, ok, err, ◌>>=◌, from_errno,
}
use uproxy.Base.Map.{find, erase, assign, emplace}
use uproxy.Base.System.{Returned, eintr}
use uproxy.Loop.{
  Event, no_event, read_event, write_event, hang_up_event, error_event, union, has, FiredEvent,
}

-- The bits of a mask of epoll that the loop uses: EPOLLIN, EPOLLOUT, EPOLLERR, EPOLLHUP,
-- EPOLLRDHUP and EPOLLET.
pub record EpollBits : Type 0 where
  pub readable : Bool
  pub writable : Bool
  pub failed : Bool
  pub hung_up : Bool
  pub peer_closed : Bool
  pub edge : Bool

unfoldable pub to_epoll : Event → EpollBits
to_epoll e = record {
  readable = has e read_event;
  writable = has e write_event;
  failed = false;
  hung_up = false;
  peer_closed = has e read_event;
  edge = true;
}

unfoldable pub from_epoll : EpollBits → Event
from_epoll ep =
    let out1 : Event = if ep.readable then union no_event read_event else no_event in
    let out2 : Event = if ep.writable then union out1 write_event else out1 in
    let out3 : Event = if ep.hung_up || ep.peer_closed then union out2 hang_up_event else out2 in
    if ep.failed then union out3 error_event else out3

pub record Timer {ℓ} (C : Type ℓ) : Type ℓ where
  pub id : ℕ
  pub tfd : ℕ
  pub cb : C

pub record EpollLoop {ℓ} (C : Type ℓ) : Type ℓ where
  pub timer_fd_to_id : List (ℕ × ℕ)
  pub timers : List (ℕ × Timer C)
  pub next_timer_id : ℕ

abbrev enoent : ℕ
enoent = 2

-- `ctl` is what `epoll_ctl` answers for the descriptor and the mask: for a call that fails, the
-- `errno` behind it.
unfoldable pub add : (ℕ → EpollBits → Option ℕ) → ℕ → Event → Result (Unit {0})
unfolding to_epoll
add ctl fd events = elim (ctl fd (to_epoll events)) [
  | none ↦ ok tt
  | some errno ↦ err (from_errno errno "epoll add")
]

unfoldable pub modify : (ℕ → EpollBits → Option ℕ) → ℕ → Event → Result (Unit {0})
unfolding to_epoll
modify ctl fd events = elim (ctl fd (to_epoll events)) [
  | none ↦ ok tt
  | some errno ↦ err (from_errno errno "epoll mod")
]

unfoldable pub remove : (ℕ → Option ℕ) → ℕ → Result (Unit {0})
remove ctl fd = elim (ctl fd) [
  | none ↦ ok tt
  | some errno ↦ if errno == enoent then ok tt else err (from_errno errno "epoll del")
]

-- EPOLLIN and EPOLLET.
abbrev pub timer_mask : EpollBits
timer_mask = record {
  readable = true;
  writable = false;
  failed = false;
  hung_up = false;
  peer_closed = false;
  edge = true;
}

-- What the calls of `add_timer` answer: the descriptor of `timerfd_create`, the failure of
-- `timerfd_settime`, which depends on the seconds and nanoseconds, and the one of `epoll_ctl`, which
-- depends on the descriptor and the mask.
pub record TimerAnswers : Type 0 where
  pub created : Returned ℕ
  pub settime : ℕ → ℕ → Option ℕ
  pub watched : ℕ → EpollBits → Option ℕ

module _ {ℓ} {C : Type ℓ} where
  unfoldable pub make : EpollLoop C
  make = record { timer_fd_to_id = []; timers = []; next_timer_id = 1 }

  -- Behind `timerfd_create`.
  unfoldable pub armed : ℕ → ℕ → C → TimerAnswers → EpollLoop C → Result ℕ × EpollLoop C
  armed fd delay_ms cb k l =
      let id = l.next_timer_id in
      let counted = record l { next_timer_id = (id + 1) % 2 ^ 64 } in
      elim (k.settime (delay_ms / 1000) (delay_ms % 1000 * 1000000)) [
        | some errno ↦ (err (from_errno errno "timerfd_settime"), l)
        | none ↦ elim (k.watched fd timer_mask) [
          | some errno ↦ (err (from_errno errno "epoll add timer"), counted)
          | none ↦ (
            ok id,
            record counted {
              timer_fd_to_id = assign fd id l.timer_fd_to_id;
              timers = emplace id (record { id = id; tfd = fd; cb = cb }) l.timers;
            },
          )
        ]
      ]

  unfoldable pub add_timer : ℕ → C → TimerAnswers → EpollLoop C → Result ℕ × EpollLoop C
  unfolding armed
  add_timer delay_ms cb k l = elim k.created.value [
    | none ↦ (err (from_errno k.created.errno "timerfd_create"), l)
    | some fd ↦ armed fd delay_ms cb k l
  ]

  -- The timer is taken off both maps.
  unfoldable pub forget : ℕ → ℕ → EpollLoop C → EpollLoop C
  forget fd id l = record l {
    timer_fd_to_id = erase fd l.timer_fd_to_id;
    timers = erase id l.timers;
  }

  unfoldable pub cancel_timer : ℕ → EpollLoop C → Result (Unit {0}) × EpollLoop C
  unfolding forget
  cancel_timer id l = elim (find id l.timers) [
    | none ↦ (ok tt, l)
    | some t ↦ (ok tt, forget t.tfd id l)
  ]

-- What one event of `epoll_wait` leads to: an event for the caller, the callback of a timer, or
-- nothing, where the timer is no longer there.
pub data Taken {ℓ} (C : Type ℓ) : Type ℓ where
  reported : FiredEvent → Taken C
  expired : C → Taken C
  ignored : Taken C

module _ {ℓ} {C : Type ℓ} where
  -- The callback of a timer is taken off the loop before it is called.
  unfoldable pub take_event : ℕ → EpollBits → EpollLoop C → Taken C × EpollLoop C
  unfolding from_epoll forget
  take_event fd ep l = elim (find fd l.timer_fd_to_id) [
    | none ↦ (reported (record { fd = fd; events = from_epoll ep }), l)
    | some id ↦ elim (find id l.timers) [
      | none ↦ (ignored, l)
      | some t ↦ (expired t.cb, forget fd id l)
    ]
  ]

-- `poll` for callbacks that change the loop and the state `S` of their owner.
module _ {ℓ κ} {C : Type ℓ} {S : Type κ} (run : C → EpollLoop C × S → Result (EpollLoop C × S))
    (cb : FiredEvent → EpollLoop C × S → Result (EpollLoop C × S)) where
  unfoldable pub call_back : Taken C → EpollLoop C × S → Result (EpollLoop C × S)
  call_back (reported ev) w = cb ev w
  call_back (expired fn) w = run fn w
  call_back ignored w = ok w

  unfoldable pub dispatch : List (ℕ × EpollBits) → EpollLoop C × S → Result (EpollLoop C × S)
  unfolding take_event call_back
  dispatch [] w = ok w
  dispatch ((fd, ep) ∷ events) (l, s) =
      let (taken, l') = take_event fd ep l in call_back taken (l', s) >>= dispatch events

  unfoldable pub poll : Returned (List (ℕ × EpollBits)) → EpollLoop C × S → Result (EpollLoop C × S)
  unfolding dispatch
  poll waited w = elim waited.value [
    | some events ↦ dispatch events w
    | none ↦ if waited.errno == eintr then ok w else err (from_errno waited.errno "epoll wait")
  ]
