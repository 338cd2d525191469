-- ===== src/Loop/OneShot.antt =====
-- src/event_loop_kqueue.cpp: the timers of `KqueueLoop`, which the kernel names by their numbers.
use uproxy.Base.{
  ℕ, ◌≡◌, ◌<◌, ◌+◌, ◌^◌, refl, arith, Option, none, some, inl, inr, Option-cases, Bool-cases, ◌==◌,
}
use uproxy.Base.Map.{find, erase, find-erase, find-emplace, find-erase-some, find-emplace-some}
use uproxy.Loop.Kqueue.{
  KqueueLoop, Kevent, Filter, evfilt_read, evfilt_write, evfilt_timer, Taken, reported, expired,
  ignored, add_timer, cancel_timer, take_timer, take_event, enoent,
}
use uproxy.Loop.Queue.{TimerQueue, IsLawful, Puts, Added, Cancelled, Expired}

abbrev pub waiting : {C : Type 0} → KqueueLoop C → ℕ → Option C
waiting l id = find id l.timers

-- The numbers in use lie below the next one.
abbrev pub IsNumbered : {C : Type 0} → KqueueLoop C → Type 0
IsNumbered {C} l = (id : ℕ) (cb : C) → find id l.timers ≡ some cb → id < l.next_timer_id

abbrev Leaves : {C R : Type 0} → ((ℕ → Option C) → R → Type 0) → R × KqueueLoop C → Type 0
Leaves P (r, l) = IsNumbered l × P (waiting l) r

-- The callback that an event makes due.
abbrev pub expiry : {C : Type 0} → Taken C → Option C
expiry (reported ev) = none
expiry (expired cb) = some cb
expiry ignored = none

-- What the system answers to `add_timer`, and to `cancel_timer`.
pub record KqueueAnswers : Type 0 where
  pub armed : ℕ → ℕ → Option ℕ
  pub disarmed : Option ℕ

module _ {C : Type 0} where
  unnumbered : (l : KqueueLoop C) → IsNumbered l → find l.next_timer_id l.timers ≡ none
  unnumbered l c = elim (Option-cases (find l.next_timer_id l.timers)) [
    | inl nothing ↦ nothing
    | inr (cb, found) ↦ absurd (ground (arith, c l.next_timer_id cb found))
  ]

  erased-Leaves :
      (id : ℕ) (l : KqueueLoop C)
      → IsNumbered l
      → IsNumbered (record l { timers = erase id l.timers })
        × Puts id none (waiting l) (waiting (record l { timers = erase id l.timers }))
  erased-Leaves id l c =
      (λ j cb h. c j cb (find-erase-some j id l.timers h).1, λ j. find-erase j id l.timers)

  add_timer-Leaves :
      (armed : ℕ → ℕ → Option ℕ) (delay_ms : ℕ) (cb : C) (l : KqueueLoop C)
      → IsNumbered l
      → l.next_timer_id + 1 < 2 ^ 64
      → Leaves (Added cb (waiting l)) (add_timer armed delay_ms cb l)
  unfolding add_timer
  add_timer-Leaves armed delay_ms cb l c small =
      let id = l.next_timer_id in
      let free = unnumbered l c in
      elim (Option-cases (armed id delay_ms)) [
        | inr (errno, refused) ↦
            rw (add_timer, refused)
              (λ j v h. let below = c j v h in omega (arith, below, small), λ j. refl)
        | inl taken ↦
            rw (add_timer, taken)
              (
                (λ j v h. elim (find-emplace-some j id cb l.timers free h) [
                  | inl (same, mine) ↦ omega (arith, same, small)
                  | inr (ne, old) ↦ let below = c j v old in omega (arith, below, small)
                ]),
                (free, λ j. find-emplace j id cb l.timers free),
              )
      ]

  cancel_timer-Leaves :
      (answer : Option ℕ) (id : ℕ) (l : KqueueLoop C)
      → IsNumbered l
      → Leaves (Cancelled id (waiting l)) (cancel_timer answer id l)
  unfolding cancel_timer
  cancel_timer-Leaves none id l c = erased-Leaves id l c
  cancel_timer-Leaves (some errno) id l c = elim (Bool-cases (errno == enoent)) [
    | inl gone ↦ rw (cancel_timer, gone) (erased-Leaves id l c)
    | inr failed ↦ rw (cancel_timer, failed) (c, λ j. refl)
  ]

  take_timer-Leaves :
      (id : ℕ) (l : KqueueLoop C)
      → IsNumbered l
      → Leaves (λ p taken. Expired (waiting l) p (expiry taken)) (take_timer id l)
  unfolding take_timer
  take_timer-Leaves id l c = elim (Option-cases (find id l.timers)) [
    | inl nothing ↦ rw (take_timer, nothing) (c, λ j. refl)
    | inr (cb, found) ↦
        rw (take_timer, found) ((erased-Leaves id l c).0, (id, found, (erased-Leaves id l c).1))
  ]

  take_event-Leaves :
      (ev : Kevent) (l : KqueueLoop C)
      → IsNumbered l
      → Leaves (λ p taken. Expired (waiting l) p (expiry taken)) (take_event ev l)
  unfolding take_event
  take_event-Leaves ev l c = by_filter ev.filter refl
    where
      by_filter :
          (f : Filter)
          → ev.filter ≡ f
          → Leaves (λ p taken. Expired (waiting l) p (expiry taken)) (take_event ev l)
      by_filter evfilt_timer e = rw (take_event, e) (take_timer-Leaves ev.ident l c)
      by_filter evfilt_read e = rw (take_event, e) (c, λ j. refl)
      by_filter evfilt_write e = rw (take_event, e) (c, λ j. refl)

abbrev pub kqueue_queue : (C : Type 0) → TimerQueue C
kqueue_queue C = record {
  State = KqueueLoop C;
  Answers = KqueueAnswers;
  Signal = Kevent;
  pending = waiting;
  add = λ k delay_ms cb l. add_timer k.armed delay_ms cb l;
  cancel = λ k id l. cancel_timer k.disarmed id l;
  expire = λ ev l. let (taken, l') = take_event ev l in (expiry taken, l');
  IsGood = IsNumbered;
  Fits = λ k l. l.next_timer_id + 1 < 2 ^ 64;
}

-- The loop over kqueue keeps the promises of `TimerQueue` too, in states whose numbers lie below the
-- next one, as long as the counter does not wrap.
pub kqueue_queue-IsLawful : (C : Type 0) → IsLawful (kqueue_queue C)
kqueue_queue-IsLawful C = record {
  add_law = λ k delay_ms cb l c small. add_timer-Leaves k.armed delay_ms cb l c small;
  cancel_law = λ k id l c. cancel_timer-Leaves k.disarmed id l c;
  expire_law = λ ev l c. take_event-Leaves ev l c;
}
