-- ===== src/Proxy/LoopTests.antt =====
-- src/proxy.cpp: the laws of `run` and of a client with TLS, at small examples.
use uproxy.Base.{
  inl, ℕ, ◌≡◌, ◌++◌, refl, arith, Bool, true, false, List, [], ◌∷◌, none, some, codes, ok,
}
use uproxy.Base.Holds.{Holds}
use uproxy.Base.System.{Returned, eagain}
use uproxy.Buffer
use uproxy.Buffer.{RingBuffer}
use uproxy.Buffer.Fifo.{IsValid, contents, make-IsValid}
use uproxy.Config.{default_config}
use uproxy.Loop.Epoll
use uproxy.Loop.Epoll.{EpollLoop, EpollBits, TimerAnswers, dispatch}
use uproxy.Proxy.{ProxyServer, new_client, read_only}
use uproxy.Proxy.Server.{
  Answers, Accepted, make_server, on_accept, close_conn, emplace_conn, find_conn,
}
use uproxy.Proxy.Upstream.{Attempt}
use uproxy.Proxy.Reachable.{start, next, accepts}
use uproxy.Proxy.Run.{Round, tick, on_fired, run_loop}
use uproxy.Proxy.Cipher.{flush_tls_ciphertext}
use uproxy.Proxy.Ciphertext.{Conserves, flush_tls_ciphertext_lem}
use uproxy.Proxy.Plaintext.{drained, decrypted, drain_loop_lem}
use uproxy.Proxy.Secure.{Secure, Flush, WriteRound, drain_loop, write_secure}
use uproxy.Proxy.Written.{Written, write_secure_lem}
use uproxy.Tls.Boring.{TlsConn, did, wants}
use uproxy.Proxy.Loops.{HasNone, run_loop_lem, half_close}

abbrev pub one_client : List Accepted
one_client = record { fd = 5; now = 1; remote = codes "10.0.0.7"; added = true } ∷ []

abbrev pub served : ProxyServer
served = on_accept one_client (make_server default_config)

-- The request has arrived, and the client has ended its side.
abbrev ended : EpollBits
ended = record {
  readable = true;
  writable = false;
  failed = false;
  hung_up = false;
  peer_closed = true;
  edge = false;
}

abbrev no_timer : TimerAnswers
no_timer = record {
  created = record { value = none; errno = 24 };
  settime = λ seconds nanoseconds. none;
  watched = λ fd mask. none;
}

-- There is no descriptor left to connect with.
abbrev pub broken_off : Attempt
broken_off = record {
  dial = record {
    socket = none;
    socket_errno = 24;
    get_flags = none;
    set_flags = none;
    is_ipv4 = true;
    connect = none;
    polled_one = true;
    so_error = some 0;
    now = 5;
  };
  sends = [];
  send_polls = [];
  recvs = [];
  recv_polls = [];
  now = 6;
}

abbrev request_ready : Answers
request_ready = record {
  recvs =
      record { value = some (codes "GET / HTTP/1.1"); errno = 0 }
      ∷ record { value = some []; errno = 0 }
      ∷ [];
  sends = [];
  attempts = λ id k. broken_off;
}

abbrev a_round : Bool → Round
a_round shutdown = record {
  shutdown = shutdown;
  waited = record { value = some ((5, ended) ∷ []); errno = 0 };
  accepted = [];
  answers = λ fd. request_ready;
  now = 9;
  ticking = no_timer;
  down = false;
}

served-found :
    find_conn 5 served.conns
    ≡ some (record { conn = new_client 1 (codes "10.0.0.7"); interest = read_only })
unfolding find_conn on_accept emplace_conn make_server
served-found = refl

half_close_example :
    dispatch
      (tick (a_round false))
      (on_fired 3 (a_round false))
      ((5, ended) ∷ [])
      (Epoll.make, served)
    ≡ ok (Epoll.make, close_conn 5 served)
unfolding Epoll.make
half_close_example =
    half_close 3 (a_round false) 5 ended Epoll.make served refl served-found
      (λ e. ground (arith, e)) refl

run_loop_lem_example :
    (true ≡ true
      → run_loop 3 (a_round true ∷ []) (Epoll.make, served)
        ≡ ok (Epoll.make, record served { conns = [] }))
    × Holds HasNone (run_loop 3 (a_round true ∷ []) (Epoll.make, served))
run_loop_lem_example =
    run_loop_lem default_config 3 (a_round true) [] Epoll.make served
      (next start (accepts one_client refl))

-- A connection behind its handshake, whose library gives three bytes, of which the socket takes two.
abbrev behind_handshake : TlsConn
behind_handshake = record { server = true; ssl = true; alpn = codes "h2"; handshake_done = true }

abbrev short_sends : List (Returned ℕ)
short_sends = record { value = some 2; errno = 0 } ∷ record { value = none; errno = eagain } ∷ []

flush_tls_ciphertext_lem_example :
    let (o, p, sent, made) =
      flush_tls_ciphertext
        (did (7 ∷ 8 ∷ 9 ∷ []) ∷ [])
        behind_handshake
        short_sends
        (Buffer.make 16) in
    Conserves (contents (Buffer.make 16) ++ made) o p sent
flush_tls_ciphertext_lem_example =
    flush_tls_ciphertext_lem (did (7 ∷ 8 ∷ 9 ∷ []) ∷ []) behind_handshake short_sends
      (Buffer.make 16) (make-IsValid 16)

drain_loop_lem_example :
    let (r, rbuf) = drain_loop (did (7 ∷ 8 ∷ []) ∷ wants ∷ []) behind_handshake (Buffer.make 16) in
    (r ≡ drained (did (7 ∷ 8 ∷ []) ∷ wants ∷ []))
    × IsValid rbuf
    × (contents rbuf ≡ contents (Buffer.make 16) ++ decrypted (did (7 ∷ 8 ∷ []) ∷ wants ∷ []))
drain_loop_lem_example =
    drain_loop_lem (did (7 ∷ 8 ∷ []) ∷ wants ∷ []) behind_handshake (Buffer.make 16) refl refl
      (make-IsValid 16)

-- The library takes both bytes of plaintext and gives nine of ciphertext, which the socket refuses.
abbrev one_round : List WriteRound
one_round =
    record {
      written = did 2;
      flushes = record {
        takes = did (1 ∷ 2 ∷ 3 ∷ 4 ∷ 5 ∷ 6 ∷ 7 ∷ 8 ∷ 9 ∷ []) ∷ [];
        sends = record { value = none; errno = eagain } ∷ [];
      };
    }
    ∷ []

abbrev no_flush : Flush
no_flush = record { takes = wants ∷ []; sends = [] }

abbrev two_bytes : RingBuffer
two_bytes = record { bytes = 7 ∷ 8 ∷ 0 ∷ 0 ∷ []; read_pos = 0; write_pos = 2; size = 2 }

abbrev two_bytes-IsValid : IsValid two_bytes
two_bytes-IsValid = record {
  size_in = omega arith;
  read_in = omega arith;
  write_in = omega arith;
  apart = inl refl;
}

abbrev secure_client : Secure
secure_client = record { tls_conn = behind_handshake; tls_pending = Buffer.make 16 }

write_secure_lem_example :
    let (r, wbuf, s) = write_secure one_round no_flush secure_client two_bytes in
    Written (contents two_bytes) r wbuf s
write_secure_lem_example =
    write_secure_lem one_round no_flush secure_client two_bytes two_bytes-IsValid (make-IsValid 16)
