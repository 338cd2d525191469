-- ===== src/Proxy/Loops.antt =====
-- src/proxy.cpp: the handlers as `run` calls them through the loop over epoll.
use uproxy.Base.{
  ℕ, ◌≡◌, ◌≢◌, refl, ap, ◌∙◌, arith, true, false, List, [], ◌∷◌, Option, none, some, ◌==◌,
  if◌then◌else◌, Result, ok, err, ◌>>=◌, from_errno,
}
use uproxy.Base.Holds.{Holds, Holds-ok, Holds-err, Holds-stuck, Holds-if, Holds-bind}
use uproxy.Base.Map
use uproxy.Base.System.{eintr}
use uproxy.Config.{ProxyConfig}
use uproxy.Loop.{Event, FiredEvent}
use uproxy.Loop.Epoll
use uproxy.Loop.Epoll.{
  EpollLoop, EpollBits, Taken, from_epoll, reported, expired, ignored, take_event, call_back,
  dispatch,
}
use uproxy.Proxy.{ProxyServer, Watched}
use uproxy.Proxy.Server.{Answers, on_client_event, find_conn, close_conn, erase_conn}
use uproxy.Proxy.Reachable.{
  accepts, client, ticks, Reach, next, AreClients, IsAbsent, Reach-AreClients,
}
use uproxy.Proxy.Run.{Running, Round, tick, on_fired, run_loop, close_all}

abbrev HasReached : ProxyConfig → Running → Type 0
HasReached cfg w = Reach cfg w.1

module _ (cfg : ProxyConfig) (listen_fd : ℕ) (r : Round) where
  on_fired-HasReached :
      (ev : FiredEvent) (w : Running)
      → HasReached cfg w
      → Holds (HasReached cfg) (on_fired listen_fd r ev w)
  unfolding on_fired
  on_fired-HasReached ev (l, s) reached =
      Holds-if (ev.fd == listen_fd) (Holds-ok (next reached (accepts r.accepted refl))) (
        Holds-bind {P = λ s'. on_client_event (r.answers ev.fd) ev.fd ev.events s ≡ ok s'}
          (on_client_event (r.answers ev.fd) ev.fd ev.events s) (record { holds = λ s' e. e })
          (λ s' e. Holds-ok (next reached (client (r.answers ev.fd) ev.fd ev.events e))))

  call_back-HasReached :
      (taken : Taken (Unit {0})) (w : Running)
      → HasReached cfg w
      → Holds (HasReached cfg) (call_back (tick r) (on_fired listen_fd r) taken w)
  unfolding call_back tick
  call_back-HasReached (reported ev) w reached = on_fired-HasReached ev w reached
  call_back-HasReached (expired fn) (l, s) reached = Holds-ok (next reached (ticks r.now refl))
  call_back-HasReached ignored w reached = Holds-ok reached

  dispatch-HasReached :
      (events : List (ℕ × EpollBits)) (w : Running)
      → HasReached cfg w
      → Holds (HasReached cfg) (dispatch (tick r) (on_fired listen_fd r) events w)
  unfolding dispatch
  dispatch-HasReached [] w reached = Holds-ok reached
  dispatch-HasReached ((fd, ep) ∷ events) (l, s) reached =
      Holds-bind
        (call_back (tick r) (on_fired listen_fd r) (take_event fd ep l).0
          ((take_event fd ep l).1, s))
        (call_back-HasReached (take_event fd ep l).0 ((take_event fd ep l).1, s) reached)
        (λ w' reached'. dispatch-HasReached events w' reached')

  poll-HasReached :
      (w : Running)
      → HasReached cfg w
      → Holds (HasReached cfg) (Epoll.poll (tick r) (on_fired listen_fd r) r.waited w)
  unfolding Epoll.poll
  poll-HasReached w reached = go r.waited.value
    where
      go :
          (value : Option (List (ℕ × EpollBits)))
          → Holds (HasReached cfg) (elim value as (λ _. Result Running) [
            | some events ↦ dispatch (tick r) (on_fired listen_fd r) events w
            | none ↦
                if r.waited.errno == eintr
                then ok w
                else err (from_errno r.waited.errno "epoll wait")
          ])
      go (some events) = dispatch-HasReached events w reached
      go none = Holds-if (r.waited.errno == eintr) (Holds-ok reached) Holds-err

erase_conn-absent : (fd : ℕ) (m : List (ℕ × Watched)) → IsAbsent fd m → erase_conn fd m ≡ m
unfolding erase_conn
erase_conn-absent fd [] a = refl
erase_conn-absent fd ((key, w) ∷ m) a =
    let differ : (key == fd) ≡ false = ground (arith, a.0) in
    rw (erase_conn, differ) (ap (λ t. (key, w) ∷ t) (erase_conn-absent fd m a.1))

erase_conn-first :
    (fd : ℕ) (w : Watched) (m : List (ℕ × Watched))
    → IsAbsent fd m
    → erase_conn fd ((fd, w) ∷ m) ≡ m
unfolding erase_conn
erase_conn-first fd w m a =
    let same : (fd == fd) ≡ true = ground arith in rw (erase_conn, same) (erase_conn-absent fd m a)

close_all-empties :
    (m : List (ℕ × Watched)) (s : ProxyServer)
    → AreClients m
    → s.conns ≡ m
    → close_all m s ≡ record s { conns = [] }
unfolding close_all close_conn
close_all-empties [] s a e = ap (λ m. record s { conns = m }) e
close_all-empties ((fd, w) ∷ m) s a e =
    close_all-empties m (close_conn fd s) a.2 (ap (erase_conn fd) e ∙ erase_conn-first fd w m a.0)

abbrev pub HasNone : Running → Type 0
HasNone w = w.1.conns ≡ []

close_all-conns :
    (cfg : ProxyConfig) (s : ProxyServer)
    → Reach cfg s
    → close_all s.conns s ≡ record s { conns = [] }
close_all-conns cfg s reached = close_all-empties s.conns s (Reach-AreClients cfg reached) refl

ended-HasNone :
    (cfg : ProxyConfig) (listen_fd : ℕ) (rounds : List Round) (l : EpollLoop (Unit {0}))
    (s : ProxyServer)
    → Reach cfg s
    → Holds HasNone (run_loop listen_fd rounds (l, s))
unfolding run_loop
ended-HasNone cfg listen_fd [] l s reached = Holds-stuck
ended-HasNone cfg listen_fd (r ∷ rounds) l s reached =
    Holds-if r.shutdown (Holds-ok (ap (λ t. t.conns) (close_all-conns cfg s reached))) (
      Holds-bind (Epoll.poll (tick r) (on_fired listen_fd r) r.waited (l, s))
        (poll-HasReached cfg listen_fd r (l, s) reached)
        (λ (l', s') reached'. ended-HasNone cfg listen_fd rounds l' s' reached'))

-- From a state that the handlers reach: in the round that finds `g_shutdown` set, `run` ends, has
-- closed every connection and changed nothing else; and whatever rounds of events and answers it
-- goes through, if it ends without an error, no connection is left.
pub run_loop_lem :
    (cfg : ProxyConfig) (listen_fd : ℕ) (r : Round) (rounds : List Round) (l : EpollLoop (Unit {0}))
    (s : ProxyServer)
    → Reach cfg s
    → (r.shutdown ≡ true → run_loop listen_fd (r ∷ rounds) (l, s) ≡ ok (l, record s { conns = [] }))
      × Holds HasNone (run_loop listen_fd (r ∷ rounds) (l, s))
unfolding run_loop
run_loop_lem cfg listen_fd r rounds l s reached = (
  λ down. rw (run_loop, down) (ap (λ t. ok (l, t)) (close_all-conns cfg s reached)),
  ended-HasNone cfg listen_fd (r ∷ rounds) l s reached,
)

from_epoll-hangs_up : (ep : EpollBits) → ep.peer_closed ≡ true → (from_epoll ep).hangs_up ≡ true
unfolding from_epoll
from_epoll-hangs_up ep ended = ground (arith, ended)

on_client_event-hangs_up :
    (a : Answers) (fd : ℕ) (ev : Event) (s : ProxyServer) {w : Watched}
    → find_conn fd s.conns ≡ some w
    → ev.hangs_up ≡ true
    → on_client_event a fd ev s ≡ ok (close_conn fd s)
unfolding on_client_event
on_client_event-hangs_up a fd ev s found ended = rw (on_client_event, found, ended) refl

on_fired-hangs_up :
    (listen_fd : ℕ) (r : Round) (fd : ℕ) (ev : Event) (l : EpollLoop (Unit {0})) (s : ProxyServer)
    {w : Watched}
    → find_conn fd s.conns ≡ some w
    → ev.hangs_up ≡ true
    → fd ≢ listen_fd
    → on_fired listen_fd r (record { fd = fd; events = ev }) (l, s) ≡ ok (l, close_conn fd s)
unfolding on_fired
on_fired-hangs_up listen_fd r fd ev l s found ended client_fd =
    let differ : (fd == listen_fd) ≡ false = ground (arith, client_fd) in
    rw (on_fired, differ)
      (ap (λ x. x >>= λ s'. ok (l, s'))
        (on_client_event-hangs_up (r.answers fd) fd ev s found ended))

-- What epoll reports of a client that has ended its side of the connection (EPOLLRDHUP) closes the
-- connection, whatever else is reported, whatever `recv` would give and whatever the buffers hold:
-- the server sends nothing, asks no upstream and keeps every other connection as it was.
pub half_close :
    (listen_fd : ℕ) (r : Round) (fd : ℕ) (ep : EpollBits) (l : EpollLoop (Unit {0}))
    (s : ProxyServer) {w : Watched}
    → ep.peer_closed ≡ true
    → find_conn fd s.conns ≡ some w
    → fd ≢ listen_fd
    → Map.find fd l.timer_fd_to_id ≡ none
    → dispatch (tick r) (on_fired listen_fd r) ((fd, ep) ∷ []) (l, s) ≡ ok (l, close_conn fd s)
unfolding dispatch call_back take_event
half_close listen_fd r fd ep l s ended found client_fd no_timer =
    rw (take_event, no_timer)
      (ap (λ x. x >>= λ w. ok w)
        (on_fired-hangs_up listen_fd r fd (from_epoll ep) l s found (from_epoll-hangs_up ep ended)
          client_fd))
