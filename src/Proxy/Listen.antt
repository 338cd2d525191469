-- ===== src/Proxy/Listen.antt =====
-- src/proxy.cpp: `setup_listeners`, and the whole of `run` in the build without BoringSSL, where no
-- client has TLS.
use uproxy.Base.{
  ℕ, String, Bool, not, List, ◌++◌, Option, none, some, if◌then◌else◌, codes, Result, ok, err,
  stuck, ◌>>=◌, fail_if, from_errno, from_code_text, sys_error,
}
use uproxy.Base.System.{Returned}
use uproxy.Config.{ProxyConfig}
use uproxy.Fd.{set_nonblocking, set_reuse}
use uproxy.Loop.Epoll
use uproxy.Loop.{read_event}
use uproxy.Loop.Epoll.{EpollBits, TimerAnswers}
use uproxy.Proxy.Run.{Running, Round, run_loop}
use uproxy.Proxy.Server.{make_server}
use uproxy.Tls.Fallback

-- What the system answers while a listener is made: for a call that fails, the `errno` behind it.
-- `parses` is whether `inet_pton` accepts an address, `watch` what `epoll_ctl` answers.
pub record ListenAnswers : Type 0 where
  pub socket : Returned ℕ
  pub reuse_addr : Option ℕ
  pub reuse_port : Option ℕ
  pub get_flags : Option ℕ
  pub set_flags : Option ℕ
  pub parses : List ℕ → Bool
  pub bind : Option ℕ
  pub listen : Option ℕ
  pub watch : ℕ → EpollBits → Option ℕ

-- The texts in which the two parts of `setup_listeners` differ.
pub record Texts : Type 0 where
  pub for_socket : String
  pub for_addr : String
  pub for_bind : String
  pub for_listen : String

-- A call whose failure is an error.
unfoldable pub checked : Option ℕ → String → Result (Unit {0})
checked none text = ok tt
checked (some errno) text = err (from_errno errno text)

-- Behind the call of `socket`.
unfoldable pub listen_on : Texts → List ℕ → ListenAnswers → ℕ → Result ℕ
unfolding set_reuse set_nonblocking checked Epoll.add
listen_on texts addr k fd = set_reuse k.reuse_addr k.reuse_port >>= λ _.
    set_nonblocking k.get_flags k.set_flags >>= λ _.
    fail_if (not (k.parses addr)) (from_code_text sys_error (codes texts.for_addr ++ addr)) (
      checked k.bind texts.for_bind >>= λ _.
      checked k.listen texts.for_listen >>= λ _. Epoll.add k.watch fd read_event >>= λ _. ok fd)

-- One listener: its descriptor.
unfoldable pub listener : Texts → List ℕ → ListenAnswers → Result ℕ
unfolding listen_on
listener texts addr k = elim k.socket.value [
  | none ↦ err (from_errno k.socket.errno texts.for_socket)
  | some fd ↦ listen_on texts addr k fd
]

abbrev plain_texts : Texts
plain_texts = record {
  for_socket = "socket listen";
  for_addr = "invalid listen address: ";
  for_bind = "bind listen";
  for_listen = "listen";
}

abbrev tls_texts : Texts
tls_texts = record {
  for_socket = "socket tls listen";
  for_addr = "invalid TLS listen address: ";
  for_bind = "bind tls listen";
  for_listen = "listen tls";
}

-- The descriptors of the listener and, if TLS is on, of the one for TLS.
unfoldable pub setup_listeners : ProxyConfig → ListenAnswers → ListenAnswers → Result (ℕ × Option ℕ)
unfolding listener
setup_listeners cfg k k_tls =
    let second = listener tls_texts cfg.listen_addr k_tls in
    listener plain_texts cfg.listen_addr k >>= λ fd.
    (if cfg.tls.enabled then (second >>= λ tls_fd. ok (fd, some tls_fd)) else ok (fd, none))

-- The first timer, on a new loop.
unfoldable pub start_timer : TimerAnswers → Result (Epoll.EpollLoop (Unit {0}))
unfolding Epoll.add_timer Epoll.make
start_timer k = started (Epoll.add_timer 1000 tt k Epoll.make)
  where
    started : Result ℕ × Epoll.EpollLoop (Unit {0}) → Result (Epoll.EpollLoop (Unit {0}))
    started (ok id, l) = ok l
    started (err e, l) = err e
    started (stuck, l) = stuck

unfoldable pub run :
    ProxyConfig → ListenAnswers → ListenAnswers → TimerAnswers → List Round → Result Running
unfolding Fallback.server setup_listeners start_timer make_server run_loop
run cfg k k_tls timer rounds =
    let with_tls : Result (Unit {0}) = Fallback.server cfg.tls >>= λ ctx. ok tt in
    (if cfg.tls.enabled then with_tls else ok tt) >>= λ u. setup_listeners cfg k k_tls >>= λ fds.
    start_timer timer >>= λ l. run_loop fds.0 rounds (l, make_server cfg)
