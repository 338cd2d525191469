-- ===== src/Proxy/Upstream.antt =====
-- src/proxy.cpp: `forward_http1`, the exchange with an upstream. What the system answers is an
-- argument.
use uproxy.Base.{
  ℕ, zero, suc, ◌+◌, ◌%◌, ◌^◌, List, ◌∷◌, ◌++◌, none, some, ◌==◌, if◌then◌else◌, length, Error,
  Result, ok, err, stuck, ◌>>=◌, from_code, no_upstream,
}
use uproxy.Base.System.{Returned}
use uproxy.Base.Text.{is_empty, to_string}
use uproxy.Buffer.{RingBuffer, readable, peek, append}
use uproxy.Buffer
use uproxy.Http1.Message.{HttpRequest}
use uproxy.Http1.Serialize.{write_request}
use uproxy.Balancer.{UpstreamEndpoint}
use uproxy.Pool.{PooledConn, UpstreamPool, release}
use uproxy.Pool.Manager.{Dial, acquire_conn, PoolManager, get, put_pool}
use uproxy.Proxy.System.{Poll}
use uproxy.Proxy.Send.{write_all}
use uproxy.Proxy.Response.{read_response}

abbrev pub upstream_host : UpstreamEndpoint → List ℕ
upstream_host e = e.addr ++ b':' ∷ to_string e.port

-- The bytes of the request that goes to the upstream.
unfoldable pub upstream_request : HttpRequest → List ℕ → UpstreamEndpoint → Result (List ℕ)
unfolding write_request append peek
upstream_request req body upstream = do
  head ← write_request req (upstream_host upstream) (Buffer.make (65536 + length body))
  whole ← if is_empty body then ok head else append body head
  ok (peek (readable whole) whole)

-- What the system answers in one round of the loop of `forward_http1`.
pub record Attempt : Type 0 where
  pub dial : Dial
  pub sends : List (Returned ℕ)
  pub send_polls : List Poll
  pub recvs : List (Returned (List ℕ))
  pub recv_polls : List Poll
  pub now : ℕ

-- How a round ends: without a connection, with one that failed, which is closed and released as a
-- null pointer, or with a response.
pub data Round : Type 0 where
  no_connection : Error → Round
  broken : Error → Round
  answered : List ℕ → Round
  unknown : Round

-- The exchange over a connection: the request is written, and the response is read.
unfoldable pub exchange : List ℕ → Attempt → Result (List ℕ)
unfolding write_all read_response
exchange bytes a =
    (write_all a.sends a.send_polls bytes).0 >>= λ _. read_response a.recvs a.recv_polls

-- The end of a round, behind the exchange over a connection.
unfoldable pub give_back :
    Attempt → PooledConn → UpstreamPool → Result (List ℕ) → Round × UpstreamPool
unfolding release
give_back a conn p (err e) = (broken e, release none a.now p)
give_back a conn p stuck = (unknown, p)
give_back a conn p (ok response) = (
  answered response,
  release (some (record conn { request_count = (conn.request_count + 1) % 2 ^ 64 })) a.now p,
)

-- A round behind `acquire`, and from there on.
unfoldable pub round_with :
    List ℕ → Attempt → Result PooledConn × UpstreamPool → Round × UpstreamPool
unfolding exchange give_back
round_with bytes a (err e, p) = (no_connection e, p)
round_with bytes a (stuck, p) = (unknown, p)
round_with bytes a (ok conn, p) = give_back a conn p (exchange bytes a)

unfoldable pub round : List ℕ → Attempt → UpstreamPool → Round × UpstreamPool
unfolding acquire_conn round_with
round bytes a p = round_with bytes a (acquire_conn a.dial p)

-- The loop of `forward_http1`: `left` rounds from the round `k` on.
unfoldable pub forward_loop :
    ℕ → ℕ → List ℕ → (ℕ → Attempt) → UpstreamPool → Result (List ℕ) × UpstreamPool
unfolding round
forward_loop zero k bytes attempts p =
    (err (from_code no_upstream "upstream request failed after retry"), p)
forward_loop (suc left) k bytes attempts p =
    let (ending, p') = round bytes (attempts k) p in
    let again = forward_loop left (k + 1) bytes attempts p' in
    elim ending [
      | no_connection e ↦ (err e, p')
      | broken e ↦ if k == 0 then again else (err e, p')
      | answered response ↦ (ok response, p')
      | unknown ↦ (stuck, p')
    ]

unfoldable pub forward_http1 :
    HttpRequest
    → List ℕ
    → UpstreamEndpoint
    → (ℕ → Attempt)
    → PoolManager
    → Result (List ℕ) × PoolManager
unfolding upstream_request forward_loop get put_pool
forward_http1 req body upstream attempts pools = elim (upstream_request req body upstream) [
  | err e ↦ (err e, pools)
  | stuck ↦ (stuck, pools)
  | ok bytes ↦
      let (r, p) = forward_loop 2 0 bytes attempts (get upstream.name pools) in
      (r, record pools { pools = put_pool upstream.name p pools.pools })
]
