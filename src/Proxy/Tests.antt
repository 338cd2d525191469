-- ===== src/Proxy/Tests.antt =====
-- src/proxy.cpp: the laws of the server, at small exchanges.
use uproxy.Base.{
  ℕ, ◌≡◌, ◌≢◌, ◌≤◌, refl, ap, arith, true, false, List, [], ◌∷◌, ◌++◌, Option, none, some, inl, inr,
  length, codes, ok, err, stuck, from_code, timeout,
}
use uproxy.Base.Holds.{Holds}
use uproxy.Base.System.{Returned, eintr}
use uproxy.Base.Text.{to_string}
use uproxy.Balancer
use uproxy.Buffer
use uproxy.Buffer.{RingBuffer}
use uproxy.Buffer.Fifo.{IsValid}
use uproxy.Config.{default_config}
use uproxy.Hpack.Header.{HpackHeader, has_uppercase}
use uproxy.Http1.Message.{HttpRequest}
use uproxy.Http2.Conn.{H2Conn, make_conn, new_stream, pending_output}
use uproxy.Pool.{PooledConn, UpstreamPool}
use uproxy.Pool.Manager.{Dial, make_manager}
use uproxy.Proxy.{new_client, Watched, read_only, Backend}
use uproxy.Proxy.System.{Poll, ready}
use uproxy.Proxy.Send.{write_all}
use uproxy.Proxy.Response.{read_response}
use uproxy.Proxy.Upstream.{Attempt, round, forward_loop}
use uproxy.Proxy.Client.{read_client_input, write_client_output}
use uproxy.Proxy.Http1.{handle_request, empty_request}
use uproxy.Proxy.Http2.{reply_to, converted}
use uproxy.Proxy.Delivery.{write_all_ends, Flushed, write_client_output_lem}
use uproxy.Proxy.Receive.{delivered, arrived, outcome, Received, read_client_input_lem}
use uproxy.Proxy.Reply.{IsReply, read_response-IsReply}
use uproxy.Proxy.Ending.{read_response_ends}
use uproxy.Proxy.Slots.{IsCounted, missing}
use uproxy.Proxy.Lost.{Rounded, round_lem}
use uproxy.Proxy.Exhausted.{Exchange, serve, all_losses, forward_loop-serve}
use uproxy.Proxy.Uppercase.{reply_to-capital}
use uproxy.Proxy.Serving.{Handled, handle_request-Handled}

abbrev gives {ℓ} : {A : Type ℓ} → A → Returned A
gives a = record { value = some a; errno = 0 }

abbrev fails_with {ℓ} : {A : Type ℓ} → ℕ → Returned A
fails_with errno = record { value = none; errno = errno }

-- One byte is taken, a signal interrupts, and one more is taken.
abbrev by_bytes : List (Returned ℕ)
by_bytes = gives 1 ∷ fails_with eintr ∷ gives 1 ∷ []

write_all_ends_example : write_all by_bytes [] (7 ∷ 8 ∷ []) ≡ (ok tt, 7 ∷ 8 ∷ [])
write_all_ends_example =
    write_all_ends by_bytes [] (7 ∷ 8 ∷ []) (inl (0, refl), (inr (refl, refl), (inl (0, refl), tt)))
      (omega arith)

-- The second call of `send` fails.
abbrev cut_off : List (Returned ℕ)
cut_off = gives 2 ∷ fails_with 104 ∷ []

-- Two bytes are queued, round the end of the storage.
abbrev wrapped : RingBuffer
wrapped = record { bytes = 1 ∷ 2 ∷ 3 ∷ 4 ∷ []; read_pos = 3; write_pos = 1; size = 2 }

abbrev wrapped-IsValid : IsValid wrapped
wrapped-IsValid = record {
  size_in = omega arith;
  read_in = omega arith;
  write_in = omega arith;
  apart = inr refl;
}

write_client_output_lem_example : Flushed wrapped (write_client_output cut_off wrapped)
write_client_output_lem_example = write_client_output_lem cut_off wrapped wrapped-IsValid

abbrev pieces : List (Returned (List ℕ))
pieces =
    gives (codes "HTTP/1.1 204 No")
    ∷ fails_with eintr
    ∷ gives (codes " Content")
    ∷ gives (13 ∷ 10 ∷ 13 ∷ 10 ∷ [])
    ∷ []

read_client_input_lem_example :
    Received wrapped (arrived pieces) (outcome pieces) (read_client_input pieces wrapped)
read_client_input_lem_example = read_client_input_lem pieces wrapped wrapped-IsValid

abbrev four_ready : List Poll
four_ready = ready true true ∷ ready true true ∷ ready true true ∷ ready true true ∷ []

length_of : {xs ys : List ℕ} → length xs ≤ 16384 → some xs ≡ some ys → length ys ≤ 16384
length_of h e = omega (arith, h, ap (λ o. size o) e)
  where
    size : Option (List ℕ) → ℕ
    size none = 0
    size (some xs) = length xs

read_response-IsReply_example : Holds (IsReply (delivered pieces)) (read_response pieces four_ready)
read_response-IsReply_example = read_response-IsReply pieces four_ready (
  λ bytes e. length_of (omega arith) e,
  (
    λ bytes e. absurd cc,
    (λ bytes e. length_of (omega arith) e, (λ bytes e. length_of (omega arith) e, tt)),
  ),
)

read_whole : read_response pieces four_ready ≡ ok (delivered pieces)
unfolding read_response Buffer.make
read_whole = refl

-- The upstream closes behind its first bytes.
abbrev closed : List (Returned (List ℕ))
closed = gives (codes "HTTP/1.1 200 OK") ∷ gives [] ∷ []

read_response_ends_example : read_response closed (ready true true ∷ ready false true ∷ []) ≢ stuck
read_response_ends_example =
    read_response_ends closed (ready true true ∷ ready false true ∷ [])
      ((true, refl), ((false, refl), tt)) (omega arith) (inr (inl refl))

abbrev no_dial : Dial
no_dial = record {
  socket = none;
  socket_errno = 24;
  get_flags = none;
  set_flags = none;
  is_ipv4 = true;
  connect = none;
  polled_one = true;
  so_error = some 0;
  now = 5;
}

-- The upstream closes the connection at once.
abbrev broken_off : Attempt
broken_off = record {
  dial = no_dial;
  sends = cut_off;
  send_polls = [];
  recvs = [];
  recv_polls = [];
  now = 6;
}

abbrev idle_conn : PooledConn
idle_conn = record {
  fd = 9;
  valid = true;
  in_use = false;
  request_count = 0;
  created_at_ms = 0;
  last_used_at_ms = 1;
}

abbrev one_idle : UpstreamPool
one_idle = record {
  cfg = default_config.pool;
  idle = idle_conn ∷ [];
  total = 1;
  failed_requests = 0;
}

abbrev one_idle-IsCounted : IsCounted one_idle
one_idle-IsCounted = record {
  idle_in = omega arith;
  total_in = omega arith;
  limit_in = omega arith;
}

round_lem_example :
    Rounded one_idle.cfg (missing one_idle) (round (7 ∷ 8 ∷ 9 ∷ []) broken_off one_idle)
round_lem_example = round_lem (7 ∷ 8 ∷ 9 ∷ []) broken_off one_idle one_idle-IsCounted

-- A pool of one connection, and a request whose exchange fails.
abbrev only_one : UpstreamPool
only_one = record one_idle { cfg = record default_config.pool { max_conns_per_upstream = 1 } }

abbrev only_one-IsCounted : IsCounted only_one
only_one-IsCounted = record {
  idle_in = omega arith;
  total_in = omega arith;
  limit_in = omega arith;
}

abbrev failing : Exchange
failing = record { bytes = 7 ∷ 8 ∷ 9 ∷ []; attempts = λ k. broken_off }

one_lost : all_losses (failing ∷ []) only_one ≡ 1
unfolding all_losses
one_lost = refl

forward_loop-serve_example :
    (forward_loop 2 0
      (7 ∷ [])
      (λ k. broken_off)
      (serve (failing ∷ []) (serve (failing ∷ []) only_one))).0
    ≡ err (from_code timeout "upstream pool exhausted")
forward_loop-serve_example =
    forward_loop-serve (failing ∷ []) (failing ∷ []) (7 ∷ []) (λ k. broken_off) only_one
      only_one-IsCounted (omega arith) (omega (arith, one_lost))

-- What an upstream of HTTP/1.1 may answer, as it is passed on to a client of HTTP/2.
abbrev response : List ℕ
response = codes "HTTP/1.1 200 OK" ++ (13 ∷ 10 ∷ (codes "X-Id: 1" ++ (13 ∷ 10 ∷ 13 ∷ 10 ∷ [])))

abbrev with_stream : H2Conn
with_stream = record (make_conn true) { streams = (1, new_stream 1) ∷ [] }

abbrev headers : List HpackHeader
headers =
    record { name = codes ":status"; value = codes "200"; sensitive = false }
    ∷ record { name = codes "X-Id"; value = codes "1"; sensitive = false }
    ∷ []

names_stay : converted response ≡ (headers, [])
unfolding converted Buffer.peek Buffer.make to_string
names_stay = refl

abbrev behind : H2Conn
unfolding reply_to
behind = elim (reply_to 1 0 (headers, []) with_stream) [ none ↦ with_stream | some c ↦ c ]

replied : reply_to 1 0 (headers, []) with_stream ≡ some behind
unfolding reply_to Buffer.append Buffer.make
replied = refl

reply_to-capital_example : pending_output behind ≡ pending_output with_stream
unfolding has_uppercase
reply_to-capital_example = reply_to-capital 1 0 headers [] with_stream behind refl replied

-- A request with two bytes of body, of which one has arrived.
abbrev request : HttpRequest
request = record empty_request { content_length = 1; header_bytes = 1 }

abbrev client : Watched
client = record {
  conn = record (new_client 0 []) { rbuf = wrapped; wbuf = wrapped };
  interest = read_only;
}

abbrev nobody_there : Backend
nobody_there = record { lb = Balancer.make []; pools = make_manager default_config.pool }

handle_request-Handled_example :
    Holds
      (Handled request (λ k. broken_off) client nobody_there)
      (handle_request request (λ k. broken_off) client nobody_there)
handle_request-Handled_example =
    handle_request-Handled request (λ k. broken_off) client nobody_there wrapped-IsValid
      wrapped-IsValid
