-- ===== src/Proxy/Run.antt =====
-- src/proxy.cpp: `run`, behind `setup_listeners`, over `EpollLoop`, for a server without TLS. What the
-- system answers to the handlers is an argument.
use uproxy.Base.{ℕ, Bool, List, [], ◌∷◌, ◌==◌, if◌then◌else◌, Result, ok, stuck, ◌>>=◌}
use uproxy.Base.System.{Returned}
use uproxy.Loop.{FiredEvent}
use uproxy.Loop.Epoll
use uproxy.Loop.Epoll.{EpollLoop, EpollBits, TimerAnswers, add_timer}
use uproxy.Proxy.{ProxyServer, Watched}
use uproxy.Proxy.Server.{Answers, Accepted, on_accept, on_client_event, on_tick, close_conn}

-- The loop, whose timers have one callback, and the server.
abbrev pub Running : Type 0
Running = EpollLoop (Unit {0}) × ProxyServer

-- One round of the loop of `run`: `g_shutdown` in front of it, what `epoll_wait` returns, and what
-- the handlers are answered. `ticking` is what `add_timer` is answered in `on_tick`, and `down`
-- what `g_shutdown` is there.
pub record Round : Type 0 where
  pub shutdown : Bool
  pub waited : Returned (List (ℕ × EpollBits))
  pub accepted : List Accepted
  pub answers : ℕ → Answers
  pub now : ℕ
  pub ticking : TimerAnswers
  pub down : Bool

-- The callback of the timer.
unfoldable pub tick : Round → Unit {0} → Running → Result Running
unfolding on_tick
tick r fn (l, s) = ok (if r.down then l else (add_timer 1000 tt r.ticking l).1, on_tick r.now s)

-- The callback of `poll`.
unfoldable pub on_fired : ℕ → Round → FiredEvent → Running → Result Running
unfolding on_accept on_client_event
on_fired listen_fd r ev (l, s) =
    if ev.fd == listen_fd
    then ok (l, on_accept r.accepted s)
    else on_client_event (r.answers ev.fd) ev.fd ev.events s >>= λ s'. ok (l, s')

-- The loop behind the loop of `run`, over the entries that are left when it begins.
unfoldable pub close_all : List (ℕ × Watched) → ProxyServer → ProxyServer
unfolding close_conn
close_all [] s = s
close_all ((fd, w) ∷ rest) s = close_all rest (close_conn fd s)

unfoldable pub run_loop : ℕ → List Round → Running → Result Running
unfolding tick on_fired close_all Epoll.poll
run_loop listen_fd [] w = stuck
run_loop listen_fd (r ∷ rounds) (l, s) =
    let going =
      Epoll.poll (tick r) (on_fired listen_fd r) r.waited (l, s) >>= run_loop listen_fd rounds in
    if r.shutdown then ok (l, close_all s.conns s) else going
