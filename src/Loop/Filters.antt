-- ===== src/Loop/Filters.antt =====
-- src/event_loop_kqueue.cpp: what the kernel watches a descriptor for, and the bits of
-- `registered_`.
use mathlib.Core.Path.{subst}
use uproxy.Base.{
  ℕ, ◌≡◌, ◌≢◌, refl, sym, ap, ◌∙◌, arith, Bool, true, false, List, [], ◌∷◌, Option, none, some, inl,
  inr, Bool-cases, ◌==◌, Result, ok, err, stuck,
}
use uproxy.Base.Map.{assign, find-assign_self, find-assign_ne}
use uproxy.Loop.{Event, has, read_event, write_event}
use uproxy.Loop.Kqueue.{
  Filter, evfilt_read, evfilt_write, evfilt_timer, adds, deletes, Change, Registered, KqueueLoop,
  registered_at, of_entry, ask, store_bits, ask_write, apply,
}

abbrev pub other : Filter → Filter
other evfilt_read = evfilt_write
other evfilt_write = evfilt_read
other evfilt_timer = evfilt_read

-- Nothing is changed but what is watched of `fd` for the filter.
abbrev pub Spares : ℕ → Filter → (ℕ → Filter → Bool) → (ℕ → Filter → Bool) → Type 0
Spares fd f p p' =
    (p' fd (other f) ≡ p fd (other f)) × ((j : ℕ) (g : Filter) → j ≢ fd → p' j g ≡ p j g)

module _ {K : Type 0} where
  -- What the manual of `kevent` says of one change: adding a filter sets it, if it succeeds, and
  -- behind deleting it is not there, whether it was or not.
  pub record IsKevent (kevent : List Change → K → Option ℕ × K) (watched : K → ℕ → Filter → Bool)
      : Type 0 where
    pub adding :
        (fd : ℕ) (f : Filter) (k : K)
        → let x = kevent (record { ident = fd; filter = f; action = adds } ∷ []) k in
          (x.0 ≡ none → watched x.1 fd f ≡ true) × Spares fd f (watched k) (watched x.1)
    pub deleting :
        (fd : ℕ) (f : Filter) (k : K)
        → let x = kevent (record { ident = fd; filter = f; action = deletes } ∷ []) k in
          (watched x.1 fd f ≡ false) × Spares fd f (watched k) (watched x.1)

-- Every filter that the kernel has is registered.
abbrev CoversAt : {C : Type 0} → (ℕ → Filter → Bool) → KqueueLoop C → ℕ → Type 0
CoversAt p l fd =
    (p fd evfilt_read ≡ true → (registered_at l fd).for_read ≡ true)
    × (p fd evfilt_write ≡ true → (registered_at l fd).for_write ≡ true)

abbrev pub Covers : {C : Type 0} → (ℕ → Filter → Bool) → KqueueLoop C → Type 0
Covers p l = (fd : ℕ) → CoversAt p l fd

-- What `apply` leaves behind.
abbrev pub Applied :
    {C : Type 0}
    → ℕ
    → Event
    → KqueueLoop C
    → (ℕ → Filter → Bool)
    → (ℕ → Filter → Bool)
    → KqueueLoop C
    → Result (Unit {0})
    → Type 0
Applied fd events l p p' l' (ok u) =
    (p' fd evfilt_read ≡ has events read_event)
    × (p' fd evfilt_write ≡ has events write_event)
    × ((j : ℕ) (g : Filter) → j ≢ fd → p' j g ≡ p j g)
    × Covers p' l'
Applied fd events l p p' l' (err e) = (l' ≡ l) × ((j : ℕ) (g : Filter) → j ≢ fd → p' j g ≡ p j g)
Applied fd events l p p' l' stuck = ⊥

false_of : (b : Bool) → (b ≡ true → false ≡ true) → b ≡ false
false_of true h = sym (h refl)
false_of false h = refl

abbrev stored : {C : Type 0} → ℕ → Registered → KqueueLoop C → KqueueLoop C
stored fd bits l = record l { registered = assign fd bits l.registered }

registered_at-stored_self :
    {C : Type 0} (fd : ℕ) (bits : Registered) (l : KqueueLoop C)
    → registered_at (stored fd bits l) fd ≡ bits
registered_at-stored_self fd bits l = ap of_entry (find-assign_self fd bits l.registered)

registered_at-stored_ne :
    {C : Type 0} {j fd : ℕ} (bits : Registered) (l : KqueueLoop C)
    → j ≢ fd
    → registered_at (stored fd bits l) j ≡ registered_at l j
registered_at-stored_ne bits l ne = ap of_entry (find-assign_ne bits l.registered ne)

module _ {K : Type 0} (kevent : List Change → K → Option ℕ × K) (watched : K → ℕ → Filter → Bool)
    (laws : IsKevent kevent watched) where
  -- One half.
  abbrev Asked : ℕ → Filter → Bool → K → Option ℕ × Bool × K → Type 0
  Asked fd f wanted k (failure, new, k') =
      (failure ≡ none → (watched k' fd f ≡ wanted) × (new ≡ wanted))
      × Spares fd f (watched k) (watched k')

  ask-Asked :
      (fd : ℕ) (f : Filter) (wanted cur : Bool) (k : K)
      → (watched k fd f ≡ true → cur ≡ true)
      → Asked fd f wanted k (ask kevent fd f wanted cur k)
  unfolding ask
  ask-Asked fd f true cur k h =
      let (set, spared) = laws.adding fd f k in ((λ e. (set e, refl)), spared)
  ask-Asked fd f false true k h =
      let (cleared, spared) = laws.deleting fd f k in ((λ e. (cleared, refl)), spared)
  ask-Asked fd f false false k h =
      ((λ e. (false_of (watched k fd f) h, refl)), (refl, λ j g ne. refl))

  module _ {C : Type 0} (fd : ℕ) (events : Event) (l : KqueueLoop C) (k : K)
      (c : Covers (watched k) l) where
    abbrev Applies : Result (Unit {0}) × KqueueLoop C × K → Type 0
    Applies (r, l', k') = Applied fd events l (watched k) (watched k') l' r

    store_bits-Applies :
        (reading : Bool) (k1 : K) (x : Option ℕ × Bool × K)
        → (watched k1 fd evfilt_read ≡ has events read_event) × (reading ≡ has events read_event)
        → Spares fd evfilt_read (watched k) (watched k1)
        → Asked fd evfilt_write (has events write_event) k1 x
        → Applies (store_bits kevent fd l reading x)
    unfolding store_bits
    store_bits-Applies reading k1 (some errno, writing, k2) half s1 (set, s2) =
        (refl, λ j g ne. s2.1 j g ne ∙ s1.1 j g ne)
    store_bits-Applies reading k1 (none, writing, k2) half s1 (set, s2) =
        (s2.0 ∙ half.0, (set refl).0, (λ j g ne. s2.1 j g ne ∙ s1.1 j g ne), covered)
      where
        bits : Registered
        bits = record { for_read = reading; for_write = writing }

        own : registered_at (stored fd bits l) fd ≡ bits
        own = registered_at-stored_self fd bits l

        covered : Covers (watched k2) (stored fd bits l)
        covered j = elim (Bool-cases (j == fd)) [
          | inl same ↦
              let e : j ≡ fd = ground (arith, same) in
              subst (CoversAt (watched k2) (stored fd bits l)) (sym e) (
                λ h. ap (λ r. r.for_read) own ∙ half.1 ∙ sym (s2.0 ∙ half.0) ∙ h,
                λ h. ap (λ r. r.for_write) own ∙ (set refl).1 ∙ sym (set refl).0 ∙ h,
              )
          | inr differ ↦
              let ne : j ≢ fd = ground (arith, differ) in
              let old = registered_at-stored_ne bits l ne in
              let kept = λ (g : Filter). sym (s2.1 j g ne ∙ s1.1 j g ne) in
              (
                λ h. ap (λ r. r.for_read) old ∙ (c j).0 (kept evfilt_read ∙ h),
                λ h. ap (λ r. r.for_write) old ∙ (c j).1 (kept evfilt_write ∙ h),
              )
        ]

    ask_write-Applies :
        (x : Option ℕ × Bool × K)
        → Asked fd evfilt_read (has events read_event) k x
        → Applies (ask_write kevent fd events l x)
    unfolding ask_write
    ask_write-Applies (some errno, reading, k1) (set, s1) = (refl, s1.1)
    ask_write-Applies (none, reading, k1) (set, s1) =
        store_bits-Applies reading k1 _ (set refl) s1
          (ask-Asked fd evfilt_write _ _ k1 (λ h. (c fd).1 (sym s1.0 ∙ h)))

    apply-Applies : Applies (apply kevent fd events l k)
    unfolding apply
    apply-Applies = ask_write-Applies _ (ask-Asked fd evfilt_read _ _ k (c fd).0)

-- Where the kernel follows the manual of `kevent` and `registered_` covers every filter that it
-- has, `apply`, if it succeeds, leaves the kernel watching the descriptor for exactly the events
-- asked for, every other descriptor for what it was, and `registered_` covering the filters again.
-- If it fails, `registered_` and what is watched of other descriptors are unchanged.
pub apply_lem :
    {K C : Type 0} (kevent : List Change → K → Option ℕ × K) (watched : K → ℕ → Filter → Bool)
    → IsKevent kevent watched
    → (fd : ℕ) (events : Event) (l : KqueueLoop C) (k : K) → Covers (watched k) l
    → let (r, l', k') = apply kevent fd events l k in
      Applied fd events l (watched k) (watched k') l' r
apply_lem kevent watched laws fd events l k c = apply-Applies kevent watched laws fd events l k c
