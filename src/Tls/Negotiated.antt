-- ===== src/Tls/Negotiated.antt =====
-- src/tls.cpp: the protocol that a handshake ends with, and what a configuration does to a context.
use uproxy.Base.{
  ℕ, ◌≡◌, refl, arith, Bool, true, false, List, ◌++◌, Option, some, if◌then◌else◌, codes, Result,
  ok, err, stuck,
}
use uproxy.Config.{TlsConfig}
use uproxy.Tls.{finished}
use uproxy.Tls.Alpn.{select, alpn_select_cb}
use uproxy.Tls.Boring.{
  SslCtx, TlsContext, CtxAnswers, server, make, did, shaken, do_handshake, alpn_protocol,
}
use uproxy.Tls.Offers.{encode, IsCut, offers, alpn_select_cb_lem}

-- A new connection of a server behind a handshake that chose `sel`.
abbrev pub Agreed : SslCtx → Option TlsConfig → Option (List ℕ) → List ℕ → Type 0
Agreed ssl_ctx cfg sel protocol =
    let (r, c) =
      do_handshake (did sel)
        (make (some (record { server = true; cfg = cfg; ssl_ctx = some ssl_ctx })) true) in
    (r ≡ ok finished) × (alpn_protocol c ≡ protocol)

agreed_lem :
    (ssl_ctx : SslCtx) (cfg : Option TlsConfig) (has_h2 has_h1 : Bool)
    → Agreed ssl_ctx cfg (select has_h2 has_h1) (if has_h2 then codes "h2" else codes "http/1.1")
unfolding do_handshake make shaken select alpn_protocol
agreed_lem ssl_ctx cfg true has_h1 = (refl, refl)
agreed_lem ssl_ctx cfg false true = (refl, refl)
agreed_lem ssl_ctx cfg false false = (refl, refl)

-- Whatever bytes a client offers its protocols in, they are the encoding of some names, up to the
-- end or to an offer that is longer than what is left, `alpn_select_cb` makes a choice, and the
-- handshake of a new connection that reports this choice ends with the protocol "h2" if that is
-- among the names, and with "http/1.1" if it is not.
pub negotiated_lem :
    (ssl_ctx : SslCtx) (cfg : Option TlsConfig) (bytes : List ℕ)
    → (names : List (List ℕ)) × (tail : List ℕ) × (sel : Option (List ℕ)) × (bytes
        ≡ encode names ++ tail)
      × IsCut tail
      × (alpn_select_cb bytes ≡ ok sel)
      × Agreed ssl_ctx cfg sel (if offers "h2" names then codes "h2" else codes "http/1.1")
negotiated_lem ssl_ctx cfg bytes =
    let (names, tail, e, cut, chosen) = alpn_select_cb_lem bytes in
    let sel : Option (List ℕ) = select (offers "h2" names) (offers "http/1.1" names) in
    (names, tail, sel, e, cut, chosen, agreed_lem ssl_ctx cfg _ _)

-- The part of a context that the library sees.
abbrev ssl_ctx_of : Result TlsContext → Result (Option SslCtx)
ssl_ctx_of (ok ctx) = ok ctx.ssl_ctx
ssl_ctx_of (err e) = err e
ssl_ctx_of stuck = stuck

-- `TLSContext::server` makes the same `SSL_CTX`, or fails with the same error, for any minimum version
-- and any list of protocols in the configuration.
server-ignores :
    (k : CtxAnswers) (cfg : TlsConfig) (min_version : List ℕ) (alpn : List (List ℕ))
    → ssl_ctx_of (server k (record cfg { min_version = min_version; alpn = alpn }))
      ≡ ssl_ctx_of (server k cfg)
unfolding server
server-ignores k cfg min_version alpn = ground arith
