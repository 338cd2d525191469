-- ===== src/Proxy/Exhausted.antt =====
-- src/proxy.cpp, src/upstream_pool.cpp: what the lost connections come to over many requests.
use mathlib.Core.Path.{subst}
use uproxy.Base.{
  ℕ, zero, suc, ◌+◌, ◌-◌, ◌%◌, ◌^◌, ◌≤◌, ◌≡◌, refl, sym, not, ◌||◌, List, [], ◌∷◌, some, leb, ◌==◌,
  inl, inr, if◌then◌else◌, arith, Bool-cases, Result-cases, Result, ok, err, stuck, from_code,
  timeout,
}
use uproxy.Config.{PoolConfig}
use uproxy.Pool.{PooledConn, UpstreamPool, acquire, wake, connect_failed, release}
use uproxy.Pool.Manager.{Dial, new_connection, acquire_conn}
use uproxy.Proxy.Upstream.{
  Attempt, Round, no_connection, broken, answered, unknown, exchange, give_back, round_with, round,
  forward_loop,
}
use uproxy.Proxy.Slots.{IsCounted, missing, Has, Acquired, acquire_conn-Acquired}
use uproxy.Proxy.Delivery.{length-nil}
use uproxy.Proxy.Lost.{Rounded, round_lem, forward_exhausted}

-- `total_` is at most the limit.
abbrev IsWithin : UpstreamPool → Type 0
IsWithin p = p.total ≤ p.cfg.max_conns_per_upstream

acquire_conn-IsWithin :
    (d : Dial) (p : UpstreamPool) → IsCounted p → IsWithin p → IsWithin (acquire_conn d p).1
unfolding acquire_conn acquire wake connect_failed
acquire_conn-IsWithin d p c w = go p.idle refl
  where
    go : (idle : List PooledConn) → p.idle ≡ idle → IsWithin (acquire_conn d p).1
    go (conn ∷ rest) e = rw (acquire_conn, e) w
    go [] e = elim (Bool-cases (leb p.cfg.max_conns_per_upstream p.total)) [
      | inl full ↦ rw (acquire_conn, e) (rw full (rw (wake, e) w))
      | inr free ↦
          let fits : (p.total + 1) % 2 ^ 32 ≤ p.cfg.max_conns_per_upstream =
            ground (arith, c.limit_in, free) in
          let less : ((p.total + 1) % 2 ^ 32 + 2 ^ 32 - 1) % 2 ^ 32 ≤ p.cfg.max_conns_per_upstream =
            ground (arith, c.limit_in, free) in
          elim (Result-cases (new_connection d)) [
            | inl (conn, made) ↦ rw (acquire_conn, e) (rw free (rw made fits))
            | inr (inl (x, failed)) ↦ rw (acquire_conn, e) (rw free (rw failed less))
            | inr (inr stops) ↦ rw (acquire_conn, e) (rw free (rw stops fits))
          ]
    ]

release-IsWithin :
    (conn : PooledConn) (now n : ℕ) (cfg : PoolConfig) (p : UpstreamPool)
    → Has cfg (n + 1) p
    → IsWithin p
    → IsWithin (release (some conn) now p)
unfolding release
release-IsWithin conn now n cfg p h w =
    elim (Bool-cases (not conn.valid || leb p.cfg.max_keepalive conn.request_count)) [
      | inl dropped ↦
          let less : (p.total + 2 ^ 32 - 1) % 2 ^ 32 ≡ p.total - 1 =
            ground (arith, h.counted.total_in, h.gone) in
          rw dropped (omega (arith, less, w))
      | inr kept ↦ rw kept w
    ]

give_back-IsWithin :
    (cfg : PoolConfig) (n : ℕ) (a : Attempt) (conn : PooledConn) (p : UpstreamPool)
    (r : Result (List ℕ))
    → Has cfg (n + 1) p
    → IsWithin p
    → IsWithin (give_back a conn p r).1
unfolding give_back release
give_back-IsWithin cfg n a conn p (err e) h w = w
give_back-IsWithin cfg n a conn p stuck h w = w
give_back-IsWithin cfg n a conn p (ok response) h w =
    release-IsWithin (record conn { request_count = (conn.request_count + 1) % 2 ^ 64 }) a.now n cfg
      p h w

round_with-IsWithin :
    (cfg : PoolConfig) (n : ℕ) (bytes : List ℕ) (a : Attempt) (x : Result PooledConn × UpstreamPool)
    → Acquired cfg n x
    → IsWithin x.1
    → IsWithin (round_with bytes a x).1
unfolding round_with
round_with-IsWithin cfg n bytes a (err e, p) h w = w
round_with-IsWithin cfg n bytes a (stuck, p) h w = w
round_with-IsWithin cfg n bytes a (ok conn, p) h w =
    give_back-IsWithin cfg n a conn p (exchange bytes a) h w

round-IsWithin :
    (bytes : List ℕ) (a : Attempt) (p : UpstreamPool)
    → IsCounted p
    → IsWithin p
    → IsWithin (round bytes a p).1
unfolding round
round-IsWithin bytes a p c w =
    round_with-IsWithin p.cfg (missing p) bytes a (acquire_conn a.dial p)
      (acquire_conn-Acquired a.dial p c) (acquire_conn-IsWithin a.dial p c w)

-- What a request of the history sends, and what the system answers to it.
pub record Exchange : Type 0 where
  pub bytes : List ℕ
  pub attempts : ℕ → Attempt

-- The pool behind the requests, one after the other.
unfoldable pub serve : List Exchange → UpstreamPool → UpstreamPool
unfolding forward_loop
serve [] p = p
serve (x ∷ xs) p = serve xs (forward_loop 2 0 x.bytes x.attempts p).1

-- The exchanges of one request that do not end with a response, though there was a connection.
unfoldable pub losses : ℕ → ℕ → List ℕ → (ℕ → Attempt) → UpstreamPool → ℕ
unfolding round
losses zero k bytes attempts p = 0
losses (suc left) k bytes attempts p =
    let (ending, p') = round bytes (attempts k) p in
    let again = losses left (k + 1) bytes attempts p' in
    elim ending [
      | no_connection e ↦ 0
      | broken e ↦ if k == 0 then suc again else 1
      | answered response ↦ 0
      | unknown ↦ 1
    ]

-- Those of all requests of the history.
unfoldable pub all_losses : List Exchange → UpstreamPool → ℕ
unfolding forward_loop losses
all_losses [] p = 0
all_losses (x ∷ xs) p =
    losses 2 0 x.bytes x.attempts p + all_losses xs (forward_loop 2 0 x.bytes x.attempts p).1

-- A pool of that configuration within its limit, with so many connections missing.
abbrev Lacks : PoolConfig → ℕ → UpstreamPool → Type 0
Lacks cfg n p = Has cfg n p × IsWithin p

Lacks-eq : (cfg : PoolConfig) (n m : ℕ) (p : UpstreamPool) → n ≡ m → Lacks cfg n p → Lacks cfg m p
Lacks-eq cfg n m p e h = subst (λ i. Lacks cfg i p) e h

forward_loop-Lacks :
    (cfg : PoolConfig) (left k n : ℕ) (bytes : List ℕ) (attempts : ℕ → Attempt) (p : UpstreamPool)
    → Lacks cfg n p
    → Lacks cfg (n + losses left k bytes attempts p) (forward_loop left k bytes attempts p).1
unfolding forward_loop losses
forward_loop-Lacks cfg zero k n bytes attempts p h = Lacks-eq cfg n _ p (omega arith) h
forward_loop-Lacks cfg (suc left) k n bytes attempts p h =
    go (round bytes (attempts k) p)
      (subst (λ c. Rounded c n (round bytes (attempts k) p)) h.0.cfg_eq
        (subst (λ m. Rounded p.cfg m (round bytes (attempts k) p)) h.0.gone
          (round_lem bytes (attempts k) p h.0.counted)))
      (round-IsWithin bytes (attempts k) p h.0.counted h.1)
      (λ q b. forward_loop-Lacks cfg left (k + 1) (n + 1) bytes attempts q b)
  where
    go :
        (x : Round × UpstreamPool)
        → Rounded cfg n x
        → IsWithin x.1
        → ((q : UpstreamPool)
            → Lacks cfg (n + 1) q
            → Lacks cfg
                (n + 1 + losses left (k + 1) bytes attempts q)
                (forward_loop left (k + 1) bytes attempts q).1)
        → Lacks cfg
            (n + elim x.0 [
              | no_connection e ↦ 0
              | broken e ↦ if k == 0 then suc (losses left (k + 1) bytes attempts x.1) else 1
              | answered response ↦ 0
              | unknown ↦ 1
            ])
            (elim x.0 as (λ _. Result (List ℕ) × UpstreamPool) [
              | no_connection e ↦ (err e, x.1)
              | broken e ↦
                  if k == 0 then forward_loop left (k + 1) bytes attempts x.1 else (err e, x.1)
              | answered response ↦ (ok response, x.1)
              | unknown ↦ (stuck, x.1)
            ]).1
    go (no_connection e, q) r w again = Lacks-eq cfg n _ q (omega arith) (r, w)
    go (answered response, q) r w again = Lacks-eq cfg n _ q (omega arith) (r, w)
    go (unknown, q) r w again = (r, w)
    go (broken e, q) r w again = elim (Bool-cases (k == 0)) [
      | inl first ↦ rw first (Lacks-eq cfg _ _ _ (omega arith) (again q (r, w)))
      | inr second ↦ rw second (r, w)
    ]

serve-Lacks :
    (cfg : PoolConfig) (n : ℕ) (xs : List Exchange) (p : UpstreamPool)
    → Lacks cfg n p
    → Lacks cfg (n + all_losses xs p) (serve xs p)
unfolding serve all_losses
serve-Lacks cfg n [] p h = Lacks-eq cfg n _ p (omega arith) h
serve-Lacks cfg n (x ∷ xs) p h =
    let n' = n + losses 2 0 x.bytes x.attempts p in
    let p' = (forward_loop 2 0 x.bytes x.attempts p).1 in
    let rest = serve-Lacks cfg n' xs p' (forward_loop-Lacks cfg 2 0 n x.bytes x.attempts p h) in
    Lacks-eq cfg _ _ (serve xs p') (omega arith) rest

Lacks-all :
    (n : ℕ) (p : UpstreamPool)
    → p.cfg.max_conns_per_upstream ≤ n
    → Lacks p.cfg n p
    → (p.idle ≡ []) × (p.cfg.max_conns_per_upstream ≤ p.total)
Lacks-all n p many h =
    (length-nil p.idle (omega (arith, h.0.gone, h.0.counted.idle_in)), omega (arith, h.0.gone))

-- Requests, and nothing else, use a pool one after the other, whose total counts its idle
-- connections and is within the limit. Once as many connections are lost as the limit allows, which are those
-- missing at first and one for each exchange that did not end with a response, a further request
-- fails with the error "upstream pool exhausted", whatever the system answers to it, and whatever
-- requests have succeeded before, in between or since.
pub forward_loop-serve :
    (xs ys : List Exchange) (bytes : List ℕ) (attempts : ℕ → Attempt) (p : UpstreamPool)
    → IsCounted p
    → p.total ≤ p.cfg.max_conns_per_upstream
    → p.cfg.max_conns_per_upstream ≤ missing p + all_losses xs p
    → (forward_loop 2 0 bytes attempts (serve ys (serve xs p))).0
      ≡ err (from_code timeout "upstream pool exhausted")
forward_loop-serve xs ys bytes attempts p c w lost =
    let q = serve ys (serve xs p) in
    let n = missing p + all_losses xs p + all_losses ys (serve xs p) in
    let there : Lacks p.cfg n q = serve-Lacks p.cfg (missing p + all_losses xs p) ys (serve xs p) (
      serve-Lacks p.cfg (missing p) xs p (record { counted = c; cfg_eq = refl; gone = refl }, w)) in
    let same = there.0.cfg_eq in
    let all_gone =
      Lacks-all n q (subst (λ g. g.max_conns_per_upstream ≤ n) (sym same) (omega (arith, lost)))
        (subst (λ g. Lacks g n q) (sym same) there) in
    forward_exhausted bytes attempts q all_gone.0 all_gone.1
