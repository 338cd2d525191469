-- ===== src/Tls/Tests.antt =====
-- src/tls.cpp: the laws, at small examples.
use uproxy.Base.{
  ℕ, ◌≡◌, refl, ◌++◌, true, List, [], ◌∷◌, Option, none, some, codes, ok, if◌then◌else◌,
}
use uproxy.Tls.Alpn.{alpn_select_cb}
use uproxy.Tls.Boring.{SslCtx}
use uproxy.Tls.Fallback.{TlsConn}
use uproxy.Tls.Negotiated.{Agreed, negotiated_lem}
use uproxy.Tls.Offers.{encode, IsCut, offers}
use uproxy.Tls.Queue.{Call, feeds, writes, reads, takes, calls}

-- "http/1.1" and "h2", and an offer of nine bytes of which one is there.
abbrev offered : List ℕ
offered = encode (codes "http/1.1" ∷ codes "h2" ∷ []) ++ 9 ∷ 104 ∷ []

abbrev ssl_ctx : SslCtx
ssl_ctx = record { cert_file = codes "cert"; key_file = codes "key"; selects_alpn = true }

negotiated_lem_example :
    (names : List (List ℕ)) × (tail : List ℕ) × (sel : Option (List ℕ)) × (offered
      ≡ encode names ++ tail)
    × IsCut tail
    × (alpn_select_cb offered ≡ ok sel)
    × Agreed ssl_ctx none sel (if offers "h2" names then codes "h2" else codes "http/1.1")
negotiated_lem_example = negotiated_lem ssl_ctx none offered

-- The choice is computed.
chosen : alpn_select_cb offered ≡ ok (some (codes "h2"))
unfolding alpn_select_cb
chosen = refl

abbrev shaken_hands : TlsConn
shaken_hands = record {
  ctx = none;
  server = true;
  inbound = 7 ∷ [];
  outbound = [];
  alpn = codes "http/1.1";
  handshake_done = true;
}

abbrev some_calls : List Call
some_calls = feeds (8 ∷ 9 ∷ []) ∷ reads 2 ∷ writes (1 ∷ 2 ∷ []) ∷ takes 1 ∷ reads 2 ∷ reads 2 ∷ []

-- The bytes that were there first come out first.
got_in_order : (calls some_calls shaken_hands).0 ≡ 7 ∷ 8 ∷ 9 ∷ []
unfolding calls
got_in_order = refl
