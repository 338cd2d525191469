-- ===== src/Proxy/Server.antt =====
-- src/proxy.cpp: `on_accept`, `on_client_event`, `close_conn` and `on_tick`. What the system answers
-- during a call is an argument.
use uproxy.Base.{
  ℕ, Bool, true, false, ◌||◌, List, [], ◌∷◌, ◌++◌, Option, none, some, if◌then◌else◌, ◌==◌, Result,
  ok, err, stuck, ◌>>=◌, ErrCode, would_block, ok_code, sys_error, eof, http_malformed,
  http2_protocol, hpack_error, config_syntax, config_invalid, tls_handshake, tls_io, no_upstream,
  timeout,
}
use uproxy.Base.System.{Returned}
use uproxy.Config.{ProxyConfig}
use uproxy.Balancer
use uproxy.Loop.{Event}
use uproxy.Pool.Manager.{make_manager, tick}
use uproxy.Proxy.{ProxyServer, new_client, Proto, http1, http2, Watched, read_only, Backend}
use uproxy.Proxy.Client.{read_client_input, write_client_output}
use uproxy.Proxy.Http1.{After, closes, returns, goes_on, handle_http1}
use uproxy.Proxy.Http2.{handle_h2_client}
use uproxy.Proxy.Upstream.{Attempt}

-- `ProxyServer(cfg)`, as far as its handlers use it.
unfoldable pub make_server : ProxyConfig → ProxyServer
make_server cfg = record {
  back = record { lb = Balancer.make cfg.upstreams; pools = make_manager cfg.pool };
  conns = [];
}

unfoldable pub find_conn : ℕ → List (ℕ × Watched) → Option Watched
find_conn fd [] = none
find_conn fd ((key, w) ∷ m) = let later = find_conn fd m in if key == fd then some w else later

unfoldable pub erase_conn : ℕ → List (ℕ × Watched) → List (ℕ × Watched)
erase_conn fd [] = []
erase_conn fd ((key, w) ∷ m) =
    let later = erase_conn fd m in if key == fd then later else (key, w) ∷ later

-- The connection that a handler has changed through its reference.
unfoldable pub put_conn : ℕ → Watched → List (ℕ × Watched) → List (ℕ × Watched)
put_conn fd w [] = []
put_conn fd w ((key, v) ∷ m) =
    let later = put_conn fd w m in if key == fd then (key, w) ∷ m else (key, v) ∷ later

unfoldable pub close_conn : ℕ → ProxyServer → ProxyServer
unfolding erase_conn
close_conn fd s = record s { conns = erase_conn fd s.conns }

-- `emplace`, which keeps an entry that is there.
unfoldable pub emplace_conn : ℕ → Watched → List (ℕ × Watched) → List (ℕ × Watched)
unfolding find_conn
emplace_conn fd w m = elim (find_conn fd m) [ none ↦ m ++ (fd, w) ∷ [] | some v ↦ m ]

-- A client that `accept` has returned, and whether the event loop takes its descriptor.
pub record Accepted : Type 0 where
  pub fd : ℕ
  pub now : ℕ
  pub remote : List ℕ
  pub added : Bool

-- The loop of `on_accept` for the listener without TLS, up to the call of `accept` that fails.
unfoldable pub on_accept : List Accepted → ProxyServer → ProxyServer
unfolding emplace_conn new_client
on_accept [] s = s
on_accept (a ∷ rest) s =
    let fresh : Watched = record { conn = new_client a.now a.remote; interest = read_only } in
    on_accept rest (if a.added then record s { conns = emplace_conn a.fd fresh s.conns } else s)

-- What the system answers during one event of a client.
pub record Answers : Type 0 where
  pub recvs : List (Returned (List ℕ))
  pub sends : List (Returned ℕ)
  pub attempts : ℕ → ℕ → Attempt

-- The part for reading. The exchange for a request of HTTP/1.1 has the answers under 0.
unfoldable pub by_protocol : Answers → Watched → Backend → Proto → Result (After × Backend)
unfolding handle_http1 handle_h2_client
by_protocol a w back http1 = handle_http1 (a.attempts 0) w back
by_protocol a w back http2 = handle_h2_client a.attempts w back

-- Behind `read_client_input`, which tells whether the end of the stream was seen.
unfoldable pub after_input : Answers → Watched → Backend → Result Bool → Result (After × Backend)
unfolding by_protocol
after_input a w back (err e) = ok (closes, back)
after_input a w back stuck = stuck
after_input a w back (ok true) = ok (closes, back)
after_input a w back (ok false) = by_protocol a w back w.conn.proto

unfoldable pub on_read : Answers → Watched → Backend → Result (After × Backend)
unfolding read_client_input after_input
on_read a w back =
    let (r, rbuf) = read_client_input a.recvs w.conn.rbuf in
    after_input a (record w { conn = record w.conn { rbuf = rbuf } }) back r

abbrev pub is_would_block : ErrCode → Bool
is_would_block code = elim code [
  | would_block ↦ true
  | ok_code ↦ false
  | sys_error ↦ false
  | eof ↦ false
  | http_malformed ↦ false
  | http2_protocol ↦ false
  | hpack_error ↦ false
  | config_syntax ↦ false
  | config_invalid ↦ false
  | tls_handshake ↦ false
  | tls_io ↦ false
  | no_upstream ↦ false
  | timeout ↦ false
]

-- Behind `write_client_output`.
unfoldable pub after_output : Watched → Result (Unit {0}) → Result After
after_output w (err e) = ok (if is_would_block e.code then returns w else closes)
after_output w stuck = stuck
after_output w (ok u) =
    ok (if w.conn.keep_alive then returns (record w { interest = read_only }) else closes)

-- The part for writing.
unfoldable pub on_write : Answers → Watched → Result After
unfolding write_client_output after_output
on_write a w =
    let (r, wbuf, taken) = write_client_output a.sends w.conn.wbuf in
    after_output (record w { conn = record w.conn { wbuf = wbuf } }) r

-- The state behind a handler.
unfoldable pub after : ℕ → After → ProxyServer → ProxyServer
unfolding close_conn put_conn
after fd closes s = close_conn fd s
after fd (returns w) s = record s { conns = put_conn fd w s.conns }
after fd (goes_on w) s = record s { conns = put_conn fd w s.conns }

-- The two parts, one behind the other.
unfoldable pub then_write : Answers → Event → After × Backend → Result (After × Backend)
unfolding on_write
then_write a ev (closes, back) = ok (closes, back)
then_write a ev (returns w, back) = ok (returns w, back)
then_write a ev (goes_on w, back) =
    if ev.writes then (on_write a w >>= λ ending. ok (ending, back)) else ok (returns w, back)

unfoldable pub on_event : Answers → Event → Watched → Backend → Result (After × Backend)
unfolding on_read then_write
on_event a ev w back =
    (if ev.reads then on_read a w back else ok (goes_on w, back)) >>= then_write a ev

unfoldable pub on_client_event : Answers → ℕ → Event → ProxyServer → Result ProxyServer
unfolding find_conn close_conn on_event after
on_client_event a fd ev s = elim (find_conn fd s.conns) [
  | none ↦ ok s
  | some w ↦
      if ev.hangs_up || ev.fails
      then ok (close_conn fd s)
      else on_event a ev w s.back >>= λ (ending, back).
          ok (after fd ending (record s { back = back }))
]

unfoldable pub on_tick : ℕ → ProxyServer → ProxyServer
unfolding tick
on_tick now s = record s { back = record s.back { pools = tick now s.back.pools } }
