-- ===== src/Loop/Ticking.antt =====
-- src/proxy.cpp: the timer of `ProxyServer`. `run` adds it, and `on_tick`, which it calls, adds the
-- next one, unless the server shuts down; a failure to add it there is ignored.
use uproxy.Base.{
  ℕ, ◌≡◌, ◌+◌, refl, ◌∙◌, arith, Bool, true, false, List, [], ◌∷◌, Option, none, some, ◌==◌,
  if◌then◌else◌, Error, Result, ok, err, stuck,
}
use uproxy.Loop.Queue.{TimerQueue, IsLawful, Added, Expired}

-- What one event of the kernel finds: the event, the answers to `add_timer`, and `g_shutdown`.
pub record Moment (Answers Signal : Type 0) : Type 0 where
  pub signal : Signal
  pub answers : Answers
  pub shutdown : Bool

module _ (Q : TimerQueue (Unit {0})) where
  -- The timer of `on_tick`, behind the part that works on the pools.
  unfoldable pub tick_again : Bool → Q.Answers → Q.State → Q.State
  tick_again true k s = s
  tick_again false k s = (Q.add k 1000 tt s).1

  -- The part of `poll` for one event: how many ticks it makes, and the loop behind it.
  unfoldable pub tick_with : Moment Q.Answers Q.Signal → Option (Unit {0}) × Q.State → ℕ × Q.State
  unfolding tick_again
  tick_with m (none, s) = (0, s)
  tick_with m (some fn, s) = (1, tick_again m.shutdown m.answers s)

  unfoldable pub on_signal : Moment Q.Answers Q.Signal → Q.State → ℕ × Q.State
  unfolding tick_with
  on_signal m s = tick_with m (Q.expire m.signal s)

  unfoldable pub on_signals : List (Moment Q.Answers Q.Signal) → Q.State → ℕ × Q.State
  unfolding on_signal
  on_signals [] s = (0, s)
  on_signals (m ∷ ms) s =
      let (n, s') = on_signal m s in let (more, s'') = on_signals ms s' in (n + more, s'')

-- One callback waits, or none.
abbrev pub IsTicking : (ℕ → Option (Unit {0})) → Type 0
IsTicking p = (id : ℕ) × ((j : ℕ) → p j ≡ (if j == id then some tt else none))

abbrev pub IsSilent : (ℕ → Option (Unit {0})) → Type 0
IsSilent p = (j : ℕ) → p j ≡ none

absent : {o : Option (Unit {0})} {fn : Unit {0}} → o ≡ none → o ≡ some fn → ⊥
absent e e' = cc

module _ (Q : TimerQueue (Unit {0})) (laws : IsLawful Q) where
  Expired-IsSilent :
      (p p' : ℕ → Option (Unit {0})) (o : Option (Unit {0}))
      → Expired p p' o
      → IsSilent p
      → (o ≡ none) × IsSilent p'
  Expired-IsSilent p p' none same silent = (refl, λ j. same j ∙ silent j)
  Expired-IsSilent p p' (some fn) (id, due, puts) silent = absurd (absent (silent id) due)

  -- The callback that was due was the only one.
  Expired-alone :
      (p p' : ℕ → Option (Unit {0})) (fn : Unit {0})
      → Expired p p' (some fn)
      → IsTicking p
      → IsSilent p'
  Expired-alone p p' fn (id, due, puts) (tick, only) j =
      ground (arith, puts j, due, only id, only j)

  Added-alone :
      (p p' : ℕ → Option (Unit {0})) (r : Result ℕ) {id : ℕ}
      → Added tt p p' r
      → IsSilent p
      → r ≡ ok id
      → IsTicking p'
  Added-alone p p' (ok n) (free, puts) silent e = (n, λ j. ground (arith, puts j, silent j))
  Added-alone p p' (err x) same silent e = absurd cc
  Added-alone p p' stuck same silent e = absurd cc

  Added-failed :
      (p p' : ℕ → Option (Unit {0})) (r : Result ℕ) {e : Error}
      → Added tt p p' r
      → IsSilent p
      → r ≡ err e
      → IsSilent p'
  Added-failed p p' (ok n) law silent e = absurd cc
  Added-failed p p' (err x) same silent e = λ j. same j ∙ silent j
  Added-failed p p' stuck law silent e = absurd cc

  on_signal-IsSilent :
      (m : Moment Q.Answers Q.Signal) (s : Q.State)
      → Q.IsGood s
      → IsSilent (Q.pending s)
      → let (n, s') = on_signal Q m s in (n ≡ 0) × Q.IsGood s' × IsSilent (Q.pending s')
  unfolding on_signal
  on_signal-IsSilent m s good silent = go (Q.expire m.signal s) (laws.expire_law m.signal s good)
    where
      go :
          (x : Option (Unit {0}) × Q.State)
          → Q.IsGood x.1 × Expired (Q.pending s) (Q.pending x.1) x.0
          → let (n, s') = tick_with Q m x in (n ≡ 0) × Q.IsGood s' × IsSilent (Q.pending s')
      go (none, s') (good', e) = (refl, good', λ j. e j ∙ silent j)
      go (some fn, s') (good', (id, due, puts)) = absurd (absent (silent id) due)

  -- The timer is added again: the server does not shut down and `add_timer` succeeds.
  abbrev pub Renews : Moment Q.Answers Q.Signal → Q.State → Type 0
  Renews m s' =
      (m.shutdown ≡ false)
      × Q.Fits m.answers s'
      × (id : ℕ) × ((Q.add m.answers 1000 tt s').0 ≡ ok id)

  on_signal-IsTicking :
      (m : Moment Q.Answers Q.Signal) (s : Q.State)
      → Q.IsGood s
      → IsTicking (Q.pending s)
      → Renews m (Q.expire m.signal s).1
      → let (n, s') = on_signal Q m s in Q.IsGood s' × IsTicking (Q.pending s')
  unfolding on_signal
  on_signal-IsTicking m s good ticking renews =
      go (Q.expire m.signal s) (laws.expire_law m.signal s good) renews
    where
      again :
          (down : Bool) (s' : Q.State)
          → Q.IsGood s'
          → IsSilent (Q.pending s')
          → (down ≡ false)
            × Q.Fits m.answers s'
            × (id : ℕ) × ((Q.add m.answers 1000 tt s').0 ≡ ok id)
          → Q.IsGood (tick_again Q down m.answers s')
            × IsTicking (Q.pending (tick_again Q down m.answers s'))
      again true s' good' silent r = absurd cc
      again false s' good' silent (up, fits, id, added) =
          let (kept, law) = laws.add_law m.answers 1000 tt s' good' fits in
          (kept, Added-alone _ _ _ law silent added)

      go :
          (x : Option (Unit {0}) × Q.State)
          → Q.IsGood x.1 × Expired (Q.pending s) (Q.pending x.1) x.0
          → Renews m x.1
          → let (n, s') = tick_with Q m x in Q.IsGood s' × IsTicking (Q.pending s')
      go (none, s') (good', e) r = (good', (ticking.0, λ j. e j ∙ ticking.1 j))
      go (some fn, s') (good', e) r = again m.shutdown s' good' (Expired-alone _ _ fn e ticking) r

  -- The timer is added again at every one of some events.
  abbrev pub AllRenew : List (Moment Q.Answers Q.Signal) → Q.State → Type 0
  AllRenew [] s = Unit
  AllRenew (m ∷ ms) s = Renews m (Q.expire m.signal s).1 × AllRenew ms (on_signal Q m s).1

-- On any lawful loop where only the timer of `on_tick` waits, it is the only one that waits after
-- any events of the kernel, if the server does not shut down and each `add_timer` succeeds.
pub on_signals-IsTicking :
    (Q : TimerQueue (Unit {0})) (laws : IsLawful Q) (ms : List (Moment Q.Answers Q.Signal))
    (s : Q.State)
    → Q.IsGood s
    → IsTicking (Q.pending s)
    → AllRenew Q laws ms s
    → IsTicking (Q.pending (on_signals Q ms s).1)
unfolding on_signals
on_signals-IsTicking Q laws [] s good ticking all = ticking
on_signals-IsTicking Q laws (m ∷ ms) s good ticking all =
    let (good', ticking') = on_signal-IsTicking Q laws m s good ticking all.0 in
    on_signals-IsTicking Q laws ms (on_signal Q m s).1 good' ticking' all.1

-- On any lawful loop without a waiting timer no event makes a tick, however many the kernel reports.
on_signals-IsSilent :
    (Q : TimerQueue (Unit {0})) (laws : IsLawful Q) (ms : List (Moment Q.Answers Q.Signal))
    (s : Q.State)
    → Q.IsGood s
    → IsSilent (Q.pending s)
    → (on_signals Q ms s).0 ≡ 0
unfolding on_signals
on_signals-IsSilent Q laws [] s good silent = refl
on_signals-IsSilent Q laws (m ∷ ms) s good silent =
    let (zero_ticks, good', silent') = on_signal-IsSilent Q laws m s good silent in
    let rest = on_signals-IsSilent Q laws ms (on_signal Q m s).1 good' silent' in
    omega (arith, zero_ticks, rest)

-- On any lawful loop where only the timer of `on_tick` waits, if `add_timer` fails in `on_tick`,
-- that tick is the last: the events that follow, however many, make none.
pub on_signals-last :
    (Q : TimerQueue (Unit {0})) (laws : IsLawful Q) (m : Moment Q.Answers Q.Signal)
    (ms : List (Moment Q.Answers Q.Signal)) (s : Q.State) {e : Error}
    → Q.IsGood s
    → IsTicking (Q.pending s)
    → (Q.expire m.signal s).0 ≡ some tt
    → Q.Fits m.answers (Q.expire m.signal s).1
    → (Q.add m.answers 1000 tt (Q.expire m.signal s).1).0 ≡ err e
    → (on_signals Q (m ∷ ms) s).0 ≡ 1
unfolding on_signals on_signal
on_signals-last Q laws m ms s {e} good ticking due fits failed =
    go (Q.expire m.signal s) (laws.expire_law m.signal s good) due fits failed
  where
    stopped :
        (down : Bool) (s' : Q.State)
        → Q.IsGood s'
        → IsSilent (Q.pending s')
        → Q.Fits m.answers s'
        → (Q.add m.answers 1000 tt s').0 ≡ err e
        → (on_signals Q ms (tick_again Q down m.answers s')).0 ≡ 0
    stopped true s' good' silent fits' failed' = on_signals-IsSilent Q laws ms s' good' silent
    stopped false s' good' silent fits' failed' =
        let (kept, law) = laws.add_law m.answers 1000 tt s' good' fits' in
        on_signals-IsSilent Q laws ms (Q.add m.answers 1000 tt s').1 kept
          (Added-failed Q laws _ _ _ law silent failed')

    go :
        (x : Option (Unit {0}) × Q.State)
        → Q.IsGood x.1 × Expired (Q.pending s) (Q.pending x.1) x.0
        → x.0 ≡ some tt
        → Q.Fits m.answers x.1
        → (Q.add m.answers 1000 tt x.1).0 ≡ err e
        → (tick_with Q m x).0 + (on_signals Q ms (tick_with Q m x).1).0 ≡ 1
    go (none, s') g d f a = absurd cc
    go (some fn, s') (good', ex) d f a =
        let rest = stopped m.shutdown s' good' (Expired-alone Q laws _ _ fn ex ticking) f a in
        omega (arith, rest)
