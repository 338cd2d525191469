-- ===== src/Proxy.antt =====
-- include/uproxy/proxy.h, src/proxy.cpp: the server, with the clients of its listener without TLS, and
-- the functions for a client with TLS.
-- The parent has its state; the children model the calls of the system, the exchange with an
-- upstream, the client's side and the handlers of the event loop, and prove their laws.
pub mod System
pub mod Send
pub mod Response
pub mod Upstream
pub mod Client
pub mod Http1
pub mod Http2
pub mod Server
pub mod Delivery
pub mod Receive
pub mod Reply
pub mod Ending
pub mod Slots
pub mod Lost
pub mod Exhausted
pub mod Names
pub mod Uppercase
pub mod Serving
pub mod Served
pub mod Clients
pub mod Reachable
pub mod Run
pub mod Listen
pub mod Cipher
pub mod Ciphertext
pub mod Secure
pub mod Plaintext
pub mod Written
pub mod Loops
mod Tests
mod LoopTests
mod StateTests
use uproxy.Base.{ℕ, Bool, true, List, [], ◌∷◌, Option, none, if◌then◌else◌, ◌==◌}
use uproxy.Buffer
use uproxy.Buffer.{RingBuffer}
use uproxy.Balancer.{WeightedRoundRobin}
use uproxy.Http2.Conn.{H2Conn}
use uproxy.Pool.Manager.{PoolManager}

pub data ConnState : Type 0 where
  tls_handshake read_request connect_upstream send_request read_response send_response : ConnState
  done error : ConnState

pub data Proto : Type 0 where
  http1 http2 : Proto

-- The fields that the handlers of a connection without TLS use. `upstream` is an index in the
-- balancer's endpoints.
pub record ClientConn : Type 0 where
  pub state : ConnState
  pub proto : Proto
  pub rbuf : RingBuffer
  pub wbuf : RingBuffer
  pub keep_alive : Bool
  pub req_count : ℕ
  pub h2conn : Option H2Conn
  pub upstream : Option ℕ
  pub connected_at_ms : ℕ
  pub remote_addr : List ℕ

unfoldable pub new_client : ℕ → List ℕ → ClientConn
new_client now remote = record {
  state = read_request;
  proto = http1;
  rbuf = Buffer.make 65536;
  wbuf = Buffer.make 65536;
  keep_alive = true;
  req_count = 0;
  h2conn = none;
  upstream = none;
  connected_at_ms = now;
  remote_addr = remote;
}

-- What the event loop watches a descriptor for, as the handlers ask for it: a call of `modify` that
-- fails, which they ignore, is not modelled.
pub data Interest : Type 0 where
  read_only read_write : Interest

-- A connection with what it is watched for.
pub record Watched : Type 0 where
  pub conn : ClientConn
  pub interest : Interest

-- What the handlers share: `lb_` and `pools_`.
pub record Backend : Type 0 where
  pub lb : WeightedRoundRobin
  pub pools : PoolManager

pub record ProxyServer : Type 0 where
  pub back : Backend
  pub conns : List (ℕ × Watched)
