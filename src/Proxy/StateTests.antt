-- ===== src/Proxy/StateTests.antt =====
-- src/proxy.cpp: a state that the server reaches, where an answer waits for its client.
use uproxy.Base.{ℕ, ◌≡◌, ◌++◌, refl, List, [], ◌∷◌, none, some, codes, Result, ok, err, stuck}
use uproxy.Base.System.{eagain}
use uproxy.Buffer
use uproxy.Config.{default_config}
use uproxy.Loop.{read_event}
use uproxy.Proxy.{ProxyServer, read_only, read_write}
use uproxy.Proxy.Server.{Answers, find_conn, on_accept, make_server, on_client_event}
use uproxy.Proxy.Reachable.{start, next, accepts, client, AreClients, Reach-AreClients}
use uproxy.Proxy.LoopTests.{one_client, served, broken_off}

-- A request whose body is chunked, which is answered with an error.
abbrev request : List ℕ
request =
    codes "GET / HTTP/1.1"
    ++ (13
        ∷ 10
        ∷ (codes "Host: a"
            ++ (13 ∷ 10 ∷ (codes "Transfer-Encoding: chunked" ++ (13 ∷ 10 ∷ 13 ∷ 10 ∷ [])))))

abbrev chunked_request : Answers
chunked_request = record {
  recvs = record { value = some request; errno = 0 } ∷ record { value = none; errno = eagain } ∷ [];
  sends = [];
  attempts = λ id k. broken_off;
}

abbrev or_before : ProxyServer → Result ProxyServer → ProxyServer
or_before s (ok s') = s'
or_before s (err e) = s
or_before s stuck = s

abbrev refused : ProxyServer
refused = or_before served (on_client_event chunked_request 5 read_event served)

refuses : on_client_event chunked_request 5 read_event served ≡ ok refused
unfolding on_client_event on_accept make_server Buffer.make
refuses = refl

-- The answer is queued, so the client is watched for writing.
refused_waits :
    elim (find_conn 5 refused.conns) [ none ↦ read_only | some w ↦ w.interest ] ≡ read_write
unfolding find_conn on_client_event on_accept make_server Buffer.make
refused_waits = refl

Reach-AreClients_example : AreClients refused.conns
Reach-AreClients_example =
    Reach-AreClients default_config
      (next (next start (accepts one_client refl)) (client chunked_request 5 read_event refuses))
