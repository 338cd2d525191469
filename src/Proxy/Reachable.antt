-- ===== src/Proxy/Reachable.antt =====
-- src/proxy.cpp: the states that a server reaches through its handlers.
use mathlib.Core.Path.{subst}
use uproxy.Base.{
  ℕ, ◌≡◌, ◌≢◌, sym, Bool, true, false, List, [], ◌∷◌, ◌++◌, Option, none, some, inl, inr,
  if◌then◌else◌, Bool-cases, arith, ◌==◌, ◌||◌, ok, ◌>>=◌,
}
use uproxy.Base.Holds.{Holds, Holds-ok, Holds-if, Holds-bind}
use uproxy.Buffer.Fifo.{make-IsValid, contents-make}
use uproxy.Config.{ProxyConfig}
use uproxy.Loop.{Event}
use uproxy.Proxy.{ProxyServer, new_client, Watched, read_only}
use uproxy.Proxy.Http1.{After, closes, returns, goes_on}
use uproxy.Proxy.Server.{
  make_server, find_conn, erase_conn, put_conn, close_conn, emplace_conn, Accepted, on_accept,
  Answers, on_event, after, on_client_event, on_tick,
}
use uproxy.Proxy.Served.{IsServed, Keeps}
use uproxy.Proxy.Clients.{on_event-Kept}

-- No entry has the descriptor.
abbrev pub IsAbsent : ℕ → List (ℕ × Watched) → Type 0
IsAbsent fd [] = Unit
IsAbsent fd ((key, w) ∷ m) = (key ≢ fd) × IsAbsent fd m

-- Each descriptor has one entry, and each client is served.
abbrev pub AreClients : List (ℕ × Watched) → Type 0
AreClients [] = Unit
AreClients ((key, w) ∷ m) = IsAbsent key m × IsServed w.interest w.conn × AreClients m

-- What a look-up tells.
abbrev Found : ℕ → List (ℕ × Watched) → Option Watched → Type 0
Found fd m none = IsAbsent fd m
Found fd m (some w) = IsServed w.interest w.conn

Found-later :
    (fd key : ℕ) (v : Watched) (m : List (ℕ × Watched)) (o : Option Watched)
    → key ≢ fd
    → Found fd m o
    → Found fd ((key, v) ∷ m) o
Found-later fd key v m none other f = (other, f)
Found-later fd key v m (some w) other f = f

find_conn-Found : (fd : ℕ) (m : List (ℕ × Watched)) → AreClients m → Found fd m (find_conn fd m)
unfolding find_conn
find_conn-Found fd [] a = tt
find_conn-Found fd ((key, v) ∷ m) a = elim (Bool-cases (key == fd)) [
  | inl same ↦ rw (find_conn, same) a.1
  | inr other ↦
      rw (find_conn, other)
        (Found-later fd key v m (find_conn fd m) (ground (arith, other)) (find_conn-Found fd m a.2))
]

IsAbsent-erase :
    (key fd : ℕ) (m : List (ℕ × Watched)) → IsAbsent key m → IsAbsent key (erase_conn fd m)
unfolding erase_conn
IsAbsent-erase key fd [] a = tt
IsAbsent-erase key fd ((k, v) ∷ m) a = elim (Bool-cases (k == fd)) [
  | inl same ↦ rw (erase_conn, same) (IsAbsent-erase key fd m a.1)
  | inr other ↦ rw (erase_conn, other) (a.0, IsAbsent-erase key fd m a.1)
]

erase_conn-AreClients :
    (fd : ℕ) (m : List (ℕ × Watched)) → AreClients m → AreClients (erase_conn fd m)
unfolding erase_conn
erase_conn-AreClients fd [] a = tt
erase_conn-AreClients fd ((k, v) ∷ m) a = elim (Bool-cases (k == fd)) [
  | inl same ↦ rw (erase_conn, same) (erase_conn-AreClients fd m a.2)
  | inr other ↦
      rw (erase_conn, other) (IsAbsent-erase k fd m a.0, a.1, erase_conn-AreClients fd m a.2)
]

IsAbsent-put :
    (key fd : ℕ) (w : Watched) (m : List (ℕ × Watched))
    → IsAbsent key m
    → IsAbsent key (put_conn fd w m)
unfolding put_conn
IsAbsent-put key fd w [] a = tt
IsAbsent-put key fd w ((k, v) ∷ m) a = elim (Bool-cases (k == fd)) [
  | inl same ↦ rw (put_conn, same) a
  | inr other ↦ rw (put_conn, other) (a.0, IsAbsent-put key fd w m a.1)
]

put_conn-AreClients :
    (fd : ℕ) (w : Watched) (m : List (ℕ × Watched))
    → IsServed w.interest w.conn
    → AreClients m
    → AreClients (put_conn fd w m)
unfolding put_conn
put_conn-AreClients fd w [] c a = tt
put_conn-AreClients fd w ((k, v) ∷ m) c a = elim (Bool-cases (k == fd)) [
  | inl same ↦ rw (put_conn, same) (a.0, c, a.2)
  | inr other ↦
      rw (put_conn, other) (IsAbsent-put k fd w m a.0, a.1, put_conn-AreClients fd w m c a.2)
]

IsAbsent-append :
    (key fd : ℕ) (w : Watched) (m : List (ℕ × Watched))
    → fd ≢ key
    → IsAbsent key m
    → IsAbsent key (m ++ (fd, w) ∷ [])
IsAbsent-append key fd w [] other a = (other, tt)
IsAbsent-append key fd w ((k, v) ∷ m) other a = (a.0, IsAbsent-append key fd w m other a.1)

append-AreClients :
    (fd : ℕ) (w : Watched) (m : List (ℕ × Watched))
    → IsServed w.interest w.conn
    → IsAbsent fd m
    → AreClients m
    → AreClients (m ++ (fd, w) ∷ [])
append-AreClients fd w [] c n a = (tt, c, tt)
append-AreClients fd w ((k, v) ∷ m) c n a =
    (IsAbsent-append k fd w m (λ e. n.0 (sym e)) a.0, a.1, append-AreClients fd w m c n.1 a.2)

emplace_conn-AreClients :
    (fd : ℕ) (w : Watched) (m : List (ℕ × Watched))
    → IsServed w.interest w.conn
    → AreClients m
    → AreClients (emplace_conn fd w m)
unfolding emplace_conn
emplace_conn-AreClients fd w m c a = go (find_conn fd m) (find_conn-Found fd m a)
  where
    go :
        (o : Option Watched)
        → Found fd m o
        → AreClients (elim o [ none ↦ m ++ (fd, w) ∷ [] | some v ↦ m ])
    go none f = append-AreClients fd w m c f a
    go (some v) f = a

on_accept-AreClients :
    (accepted : List Accepted) (s : ProxyServer)
    → AreClients s.conns
    → AreClients (on_accept accepted s).conns
unfolding on_accept
on_accept-AreClients [] s a = a
on_accept-AreClients (x ∷ rest) s a = on_accept-AreClients rest _ (taken x.added)
  where
    fresh : Watched
    fresh = record { conn = new_client x.now x.remote; interest = read_only }

    taken :
        (added : Bool)
        → AreClients
            (if added then record s { conns = emplace_conn x.fd fresh s.conns } else s).conns
    taken true =
        emplace_conn-AreClients x.fd fresh s.conns
          (make-IsValid 65536, make-IsValid 65536, inl (contents-make 65536)) a
    taken false = a

after-AreClients :
    (fd : ℕ) (ending : After) (s : ProxyServer)
    → Keeps ending
    → AreClients s.conns
    → AreClients (after fd ending s).conns
unfolding after close_conn
after-AreClients fd closes s k a = erase_conn-AreClients fd s.conns a
after-AreClients fd (returns w) s k a = put_conn-AreClients fd w s.conns k a
after-AreClients fd (goes_on w) s k a = put_conn-AreClients fd w s.conns k a

abbrev HasClients : ProxyServer → Type 0
HasClients s = AreClients s.conns

on_client_event-HasClients :
    (a : Answers) (fd : ℕ) (ev : Event) (s : ProxyServer)
    → HasClients s
    → Holds HasClients (on_client_event a fd ev s)
unfolding on_client_event close_conn
on_client_event-HasClients a fd ev s c = go (find_conn fd s.conns) (find_conn-Found fd s.conns c)
  where
    go :
        (o : Option Watched)
        → Found fd s.conns o
        → Holds HasClients (elim o [
          | none ↦ ok s
          | some w ↦
              if ev.hangs_up || ev.fails
              then ok (close_conn fd s)
              else on_event a ev w s.back >>= λ (ending, back).
                  ok (after fd ending (record s { back = back }))
        ])
    go none f = Holds-ok c
    go (some w) f =
        Holds-if (ev.hangs_up || ev.fails) (Holds-ok (erase_conn-AreClients fd s.conns c)) (
          Holds-bind (on_event a ev w s.back) (on_event-Kept a ev w s.back f)
            (λ x k. Holds-ok (after-AreClients fd x.0 (record s { back = x.1 }) k c)))

-- One call of a handler by the event loop.
pub data Step (s s' : ProxyServer) : Type 0 where
  accepts : (accepted : List Accepted) → s' ≡ on_accept accepted s → Step s s'
  client : (a : Answers) (fd : ℕ) (ev : Event) → on_client_event a fd ev s ≡ ok s' → Step s s'
  ticks : (now : ℕ) → s' ≡ on_tick now s → Step s s'

pub data Reach (cfg : ProxyConfig) : ProxyServer → Type 0 where
  start : Reach cfg (make_server cfg)
  next : {s s' : ProxyServer} → Reach cfg s → Step s s' → Reach cfg s'

Step-AreClients : {s s' : ProxyServer} → Step s s' → AreClients s.conns → AreClients s'.conns
unfolding on_tick
Step-AreClients {s} (accepts accepted e) c =
    subst HasClients (sym e) (on_accept-AreClients accepted s c)
Step-AreClients {s} {s'} (client a fd ev e) c = (on_client_event-HasClients a fd ev s c).holds s' e
Step-AreClients (ticks now e) c = subst HasClients (sym e) c

-- In every state that a server reaches through its handlers, each descriptor has one entry at
-- most, the read and the write buffer of each client are valid, and each client whose write buffer
-- is not empty is watched for writing.
pub Reach-AreClients : (cfg : ProxyConfig) {s : ProxyServer} → Reach cfg s → AreClients s.conns
unfolding make_server
Reach-AreClients cfg start = tt
Reach-AreClients cfg (next r step) = Step-AreClients step (Reach-AreClients cfg r)
