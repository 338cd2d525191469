-- ===== src/Loop/Timers.antt =====
-- src/event_loop_epoll.cpp: the timers of `EpollLoop`.
use uproxy.Base.{
  ℕ, ◌≡◌, ◌<◌, ◌+◌, ◌^◌, ◌%◌, ◌/◌, ◌*◌, refl, sym, ap, ◌∙◌, arith, List, Option, none, some, inl,
  inr, Option-cases,
}
use uproxy.Base.Map.{
  find, assign, emplace, find-erase, find-emplace, find-erase-some, find-erase_ne, find-assign_ne,
  find-assign_self, find-assign-some, find-emplace-some, find-emplace_ne, find-emplace_self,
}
use uproxy.Loop.Epoll.{
  timer_mask, EpollLoop, Timer, TimerAnswers, make, EpollBits, add_timer, armed, cancel_timer,
  forget, Taken, reported, expired, ignored, take_event,
}
use uproxy.Loop.Queue.{TimerQueue, IsLawful, Puts, Added, Cancelled, Expired}

-- The two maps are each other's inverse, and the numbers in use lie below the next one.
pub record IsConsistent {C : Type 0} (l : EpollLoop C) : Type 0 where
  pub owner :
      (fd id : ℕ)
      → find fd l.timer_fd_to_id ≡ some id
      → (t : Timer C) × (find id l.timers ≡ some t) × (t.tfd ≡ fd)
  pub held :
      (id : ℕ) (t : Timer C)
      → find id l.timers ≡ some t
      → (find t.tfd l.timer_fd_to_id ≡ some id) × (id < l.next_timer_id)

abbrev callback : {C : Type 0} → Option (Timer C) → Option C
callback none = none
callback (some t) = some t.cb

abbrev pub pending : {C : Type 0} → EpollLoop C → ℕ → Option C
pending l id = callback (find id l.timers)

module _ {C : Type 0} where
  forget-IsConsistent :
      (fd id : ℕ) (l : EpollLoop C)
      → IsConsistent l
      → find fd l.timer_fd_to_id ≡ some id
      → IsConsistent (forget fd id l)
  unfolding forget
  forget-IsConsistent fd id l c e = record {
    owner = λ fd' id' h.
        let (ne, kept) = find-erase-some fd' fd l.timer_fd_to_id h in
        let (t, found, own) = c.owner fd' id' kept in
        let (t0, found0, own0) = c.owner fd id e in
        (t, find-erase_ne l.timers (λ same. ne cc) ∙ found, own);
    held = λ id' t h.
        let (ne, kept) = find-erase-some id' id l.timers h in
        let (owned, below) = c.held id' t kept in
        (find-erase_ne l.timer_fd_to_id (λ same. ne cc) ∙ owned, below);
  }

  forget-Puts : (fd id : ℕ) (l : EpollLoop C) → Puts id none (pending l) (pending (forget fd id l))
  unfolding forget
  forget-Puts fd id l j = ground (arith, find-erase j id l.timers)

-- What a loop is left with: it is consistent, and `P` holds of its callbacks and the result.
abbrev Leaves : {C R : Type 0} → ((ℕ → Option C) → R → Type 0) → R × EpollLoop C → Type 0
Leaves P (r, l) = IsConsistent l × P (pending l) r

-- What `timerfd_create` promises: the descriptor is not one that a timer holds. The counter does not
-- wrap.
abbrev pub FitsTimer : {C : Type 0} → TimerAnswers → EpollLoop C → Type 0
FitsTimer k l =
    ((fd : ℕ) → k.created.value ≡ some fd → find fd l.timer_fd_to_id ≡ none)
    × (l.next_timer_id + 1 < 2 ^ 64)

-- The callback that an event makes due.
abbrev pub expiry : {C : Type 0} → Taken C → Option C
expiry (reported ev) = none
expiry (expired cb) = some cb
expiry ignored = none

module _ {C : Type 0} where
  cancel_timer-Leaves :
      (id : ℕ) (l : EpollLoop C)
      → IsConsistent l
      → Leaves (Cancelled id (pending l)) (cancel_timer id l)
  unfolding cancel_timer
  cancel_timer-Leaves id l c = elim (Option-cases (find id l.timers)) [
    | inl nothing ↦ rw (cancel_timer, nothing) (c, λ j. ground (arith, nothing))
    | inr (t, found) ↦
        rw (cancel_timer, found)
          (forget-IsConsistent t.tfd id l c (c.held id t found).0, forget-Puts t.tfd id l)
  ]

  take_event-Leaves :
      (fd : ℕ) (ep : EpollBits) (l : EpollLoop C)
      → IsConsistent l
      → Leaves (λ p taken. Expired (pending l) p (expiry taken)) (take_event fd ep l)
  unfolding take_event
  take_event-Leaves fd ep l c = elim (Option-cases (find fd l.timer_fd_to_id)) [
    | inl other ↦ rw (take_event, other) (c, λ j. refl)
    | inr (id, owned) ↦
        let (t, found, own) = c.owner fd id owned in
        rw (take_event, owned, found)
          (forget-IsConsistent fd id l c owned, (id, ap callback found, forget-Puts fd id l))
  ]

none-ne : {a b id : ℕ} (m : List (ℕ × ℕ)) → find b m ≡ none → a ≡ b → find a m ≡ some id → ⊥
none-ne m h e h' = cc

module _ {C : Type 0} where
  -- No timer has the next number yet.
  next-free : (l : EpollLoop C) → IsConsistent l → find l.next_timer_id l.timers ≡ none
  next-free l c = elim (Option-cases (find l.next_timer_id l.timers)) [
    | inl nothing ↦ nothing
    | inr (t, found) ↦ absurd (ground (arith, c.held l.next_timer_id t found))
  ]

  counted-IsConsistent :
      (l : EpollLoop C)
      → IsConsistent l
      → l.next_timer_id + 1 < 2 ^ 64
      → IsConsistent (record l { next_timer_id = (l.next_timer_id + 1) % 2 ^ 64 })
  counted-IsConsistent l c small = record {
    owner = c.owner;
    held = λ id t h. let (owned, below) = c.held id t h in (owned, omega (arith, below, small));
  }

  -- The loop with one more timer.
  abbrev entered : ℕ → C → EpollLoop C → EpollLoop C
  entered fd cb l = record l {
    next_timer_id = (l.next_timer_id + 1) % 2 ^ 64;
    timer_fd_to_id = assign fd l.next_timer_id l.timer_fd_to_id;
    timers = emplace l.next_timer_id (record { id = l.next_timer_id; tfd = fd; cb = cb }) l.timers;
  }

  entered-IsConsistent :
      (fd : ℕ) (cb : C) (l : EpollLoop C)
      → IsConsistent l
      → find fd l.timer_fd_to_id ≡ none
      → l.next_timer_id + 1 < 2 ^ 64
      → IsConsistent (entered fd cb l)
  entered-IsConsistent fd cb l c fresh small =
      let id' = l.next_timer_id in
      let t' : Timer C = record { id = id'; tfd = fd; cb = cb } in
      let free = next-free l c in
      record {
        owner = λ fd0 id h. elim (find-assign-some fd0 fd id' l.timer_fd_to_id h) [
          | inl (same, mine) ↦ (
            t',
            ap (λ n. find n (emplace id' t' l.timers)) (sym mine)
                ∙ find-emplace_self id' t' l.timers free,
            sym same,
          )
          | inr (ne, old) ↦
              let (t, found, own) = c.owner fd0 id old in
              (
                t,
                find-emplace_ne t' l.timers free (λ e. ground (arith, c.held id t found, e))
                    ∙ found,
                own,
              )
        ];
        held = λ id t h. elim (find-emplace-some id id' t' l.timers free h) [
          | inl (same, mine) ↦ (
            ap (λ u. find u.tfd (assign fd id' l.timer_fd_to_id)) (sym mine)
                ∙ find-assign_self fd id' l.timer_fd_to_id
                ∙ ap some (sym same),
            omega (arith, same, small),
          )
          | inr (ne, old) ↦
              let (owned, below) = c.held id t old in
              (
                find-assign_ne id' l.timer_fd_to_id (λ e. none-ne l.timer_fd_to_id fresh e owned)
                    ∙ owned,
                omega (arith, below, small),
              )
        ];
      }

  entered-Puts :
      (fd : ℕ) (cb : C) (l : EpollLoop C)
      → IsConsistent l
      → Puts l.next_timer_id (some cb) (pending l) (pending (entered fd cb l))
  entered-Puts fd cb l c j = ground (
    arith,
    next-free l c,
    find-emplace j l.next_timer_id (record { id = l.next_timer_id; tfd = fd; cb = cb }) l.timers
        (next-free l c),
  )

  armed-Leaves :
      (fd delay_ms : ℕ) (cb : C) (k : TimerAnswers) (l : EpollLoop C)
      → IsConsistent l
      → find fd l.timer_fd_to_id ≡ none
      → l.next_timer_id + 1 < 2 ^ 64
      → Leaves (Added cb (pending l)) (armed fd delay_ms cb k l)
  unfolding armed
  armed-Leaves fd delay_ms cb k l c fresh small =
      elim (Option-cases (k.settime (delay_ms / 1000) (delay_ms % 1000 * 1000000))) [
        | inr (errno, refused) ↦ rw (armed, refused) (c, λ j. refl)
        | inl is_set ↦ elim (Option-cases (k.watched fd timer_mask)) [
          | inr (errno, unwatched) ↦
              rw (armed, is_set, unwatched) (counted-IsConsistent l c small, λ j. refl)
          | inl watched ↦
              rw (armed, is_set, watched)
                (
                  entered-IsConsistent fd cb l c fresh small,
                  (ap callback (next-free l c), entered-Puts fd cb l c),
                )
        ]
      ]

  add_timer-Leaves :
      (k : TimerAnswers) (delay_ms : ℕ) (cb : C) (l : EpollLoop C)
      → IsConsistent l
      → FitsTimer k l
      → Leaves (Added cb (pending l)) (add_timer delay_ms cb k l)
  unfolding add_timer
  add_timer-Leaves k delay_ms cb l c fits = elim (Option-cases k.created.value) [
    | inl failed ↦ rw (add_timer, failed) (c, λ j. refl)
    | inr (fd, made) ↦
        rw (add_timer, made) (armed-Leaves fd delay_ms cb k l c (fits.0 fd made) fits.1)
  ]

-- An event that the kernel reports, and what `add_timer` is answered.
abbrev pub epoll_queue : (C : Type 0) → TimerQueue C
epoll_queue C = record {
  State = EpollLoop C;
  Answers = TimerAnswers;
  Signal = ℕ × EpollBits;
  pending = pending;
  add = λ k delay_ms cb l. add_timer delay_ms cb k l;
  cancel = λ k id l. cancel_timer id l;
  expire = λ (fd, ep) l. let (taken, l') = take_event fd ep l in (expiry taken, l');
  IsGood = IsConsistent;
  Fits = FitsTimer;
}

-- The loop over epoll keeps the promises of `TimerQueue` in consistent states, for answers of
-- `timerfd_create` that are not the descriptor of a timer and a counter that does not wrap.
pub epoll_queue-IsLawful : (C : Type 0) → IsLawful (epoll_queue C)
epoll_queue-IsLawful C = record {
  add_law = λ k delay_ms cb l c fits. add_timer-Leaves k delay_ms cb l c fits;
  cancel_law = λ k id l c. cancel_timer-Leaves id l c;
  expire_law = λ (fd, ep) l c. take_event-Leaves fd ep l c;
}

pub make-IsConsistent : {C : Type 0} → IsConsistent (make {C = C})
unfolding make
make-IsConsistent = record { owner = λ fd id h. absurd cc; held = λ id t h. absurd cc }
