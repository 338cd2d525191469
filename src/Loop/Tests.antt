-- ===== src/Loop/Tests.antt =====
-- src/event_loop_epoll.cpp, src/event_loop_kqueue.cpp: the laws of the loops, at small examples.
use uproxy.Base.{
  ℕ, ◌≡◌, ◌≢◌, refl, ◌∙◌, arith, Bool, true, false, List, [], ◌∷◌, Option, none, some, ◌==◌,
  if◌then◌else◌,
}
use uproxy.Loop.{Event, read_event, write_event, union}
use uproxy.Loop.Epoll
use uproxy.Loop.Epoll.{EpollLoop, EpollBits, Timer, TimerAnswers, add_timer, take_event, expired}
use uproxy.Loop.Kqueue
use uproxy.Loop.Kqueue.{
  Filter, evfilt_read, evfilt_write, evfilt_timer, Action, adds, deletes, Change, KqueueLoop, apply,
}
use uproxy.Loop.Queue.{IsLawful}
use uproxy.Loop.Timers.{epoll_queue, epoll_queue-IsLawful, IsConsistent, make-IsConsistent}
use uproxy.Loop.OneShot.{kqueue_queue, kqueue_queue-IsLawful}
use uproxy.Loop.Filters.{IsKevent, Spares, other, Applied, apply_lem}
use uproxy.Loop.Ticking.{Moment, on_signals, IsTicking, on_signals-IsTicking, on_signals-last}

epoll_queue-IsLawful_example : IsLawful (epoll_queue ℕ)
epoll_queue-IsLawful_example = epoll_queue-IsLawful ℕ

kqueue_queue-IsLawful_example : IsLawful (kqueue_queue ℕ)
kqueue_queue-IsLawful_example = kqueue_queue-IsLawful ℕ

-- A loop whose timer 1 has the descriptor 7.
abbrev one_timer : EpollLoop (Unit {0})
one_timer = record {
  timer_fd_to_id = (7, 1) ∷ [];
  timers = (1, record { id = 1; tfd = 7; cb = tt }) ∷ [];
  next_timer_id = 2;
}

abbrev fresh_timer : TimerAnswers
fresh_timer = record {
  created = record { value = some 9; errno = 0 };
  settime = λ seconds nanoseconds. none;
  watched = λ fd mask. none;
}

-- The one that `run` adds to a new loop.
abbrev first_timer : TimerAnswers
first_timer = record fresh_timer { created = record { value = some 7; errno = 0 } }

one_timer-IsConsistent : IsConsistent one_timer
unfolding Epoll.make add_timer Epoll.armed
one_timer-IsConsistent =
    ((epoll_queue-IsLawful (Unit {0})).add_law first_timer 1000 tt Epoll.make make-IsConsistent
      (λ fd e. refl, omega arith)).0

abbrev no_descriptor : TimerAnswers
no_descriptor = record fresh_timer { created = record { value = none; errno = 24 } }

abbrev timer_bits : EpollBits
timer_bits = record {
  readable = true;
  writable = false;
  failed = false;
  hung_up = false;
  peer_closed = false;
  edge = false;
}

abbrev due : TimerAnswers → Moment TimerAnswers (ℕ × EpollBits)
due k = record { signal = (7, timer_bits); answers = k; shutdown = false }

one_timer-IsTicking : IsTicking ((epoll_queue (Unit {0})).pending one_timer)
one_timer-IsTicking = (1, λ j. ground arith)

on_signals-IsTicking_example : IsTicking (
    (epoll_queue (Unit {0})).pending
      (on_signals (epoll_queue (Unit {0})) (due fresh_timer ∷ []) one_timer).1)
unfolding take_event add_timer Epoll.armed Epoll.forget
on_signals-IsTicking_example =
    on_signals-IsTicking (epoll_queue (Unit {0})) (epoll_queue-IsLawful (Unit {0}))
      (due fresh_timer ∷ []) one_timer one_timer-IsConsistent one_timer-IsTicking
      ((refl, (λ fd e. refl, omega arith), 2, refl), tt)

on_signals-last_example :
    (on_signals (epoll_queue (Unit {0})) (due no_descriptor ∷ due fresh_timer ∷ []) one_timer).0 ≡ 1
unfolding take_event add_timer Epoll.forget
on_signals-last_example =
    on_signals-last (epoll_queue (Unit {0})) (epoll_queue-IsLawful (Unit {0})) (due no_descriptor)
      (due fresh_timer ∷ []) one_timer one_timer-IsConsistent one_timer-IsTicking refl
      (λ fd e. refl, omega arith) refl

-- A kernel that keeps what it watches as a function.
abbrev same_filter : Filter → Filter → Bool
same_filter evfilt_read evfilt_read = true
same_filter evfilt_write evfilt_write = true
same_filter evfilt_timer evfilt_timer = true
same_filter _ _ = false

abbrev sets : Action → Bool
sets adds = true
sets deletes = false

abbrev small_kevent : List Change → (ℕ → Filter → Bool) → Option ℕ × (ℕ → Filter → Bool)
small_kevent [] p = (none, p)
small_kevent (c ∷ cs) p = (
  none,
  λ j f. if j == c.ident then (if same_filter c.filter f then sets c.action else p j f) else p j f,
)

own_descriptor : (fd : ℕ) (a b : Bool) → (if fd == fd then a else b) ≡ a
own_descriptor fd a b = ground arith

other_descriptor : (j fd : ℕ) (a b : Bool) → j ≢ fd → (if j == fd then a else b) ≡ b
other_descriptor j fd a b ne = ground (arith, ne)

same_filter_self : (f : Filter) (a b : Bool) → (if same_filter f f then a else b) ≡ a
same_filter_self evfilt_read a b = refl
same_filter_self evfilt_write a b = refl
same_filter_self evfilt_timer a b = refl

same_filter-other : (f : Filter) (a b : Bool) → (if same_filter f (other f) then a else b) ≡ b
same_filter-other evfilt_read a b = refl
same_filter-other evfilt_write a b = refl
same_filter-other evfilt_timer a b = refl

small_kevent-Spares :
    (fd : ℕ) (f : Filter) (a : Action) (p : ℕ → Filter → Bool)
    → Spares fd f p (small_kevent (record { ident = fd; filter = f; action = a } ∷ []) p).1
small_kevent-Spares fd f a p =
    (own_descriptor fd _ _ ∙ same_filter-other f _ _, λ j g ne. other_descriptor j fd _ _ ne)

small_kevent-IsKevent : IsKevent small_kevent (λ p. p)
small_kevent-IsKevent = record {
  adding = λ fd f k.
      (λ e. own_descriptor fd _ _ ∙ same_filter_self f _ _, small_kevent-Spares fd f adds k);
  deleting = λ fd f k.
      (own_descriptor fd _ _ ∙ same_filter_self f _ _, small_kevent-Spares fd f deletes k);
}

abbrev nothing_watched : ℕ → Filter → Bool
nothing_watched j f = false

abbrev both_events : Event
both_events = union read_event write_event

apply_lem_example :
    let (r, l', p) = apply small_kevent 5 both_events (Kqueue.make {C = ℕ}) nothing_watched in
    Applied 5 both_events (Kqueue.make {C = ℕ}) nothing_watched p l' r
apply_lem_example =
    apply_lem small_kevent (λ p. p) small_kevent-IsKevent 5 both_events Kqueue.make nothing_watched
      (λ fd. (λ e. absurd cc, λ e. absurd cc))
