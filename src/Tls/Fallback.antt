-- ===== src/Tls/Fallback.antt =====
-- src/tls.cpp: `TLSContext` and `TLSConn` in the build without BoringSSL.
use uproxy.Base.{
  ℕ, Bool, true, false, not, List, [], ◌++◌, Option, none, some, ◌==◌, if◌then◌else◌, length, take,
  drop, min, codes, Result, ok, err, from_code, would_block, tls_handshake,
}
use uproxy.Base.Text.{is_empty}
use uproxy.Config.{TlsConfig}
use uproxy.Tls.{TlsHandshakeState, finished}

pub record TlsContext : Type 0 where
  pub server : Bool
  pub cfg : Option TlsConfig

unfoldable pub server : TlsConfig → Result TlsContext
server cfg =
    if cfg.enabled
    then err (
        from_code tls_handshake
          "BoringSSL submodule is required for TLS; run with --no-tls in fallback builds")
    else ok (record { server = true; cfg = some cfg })

unfoldable pub client : Result TlsContext
client = ok (record { server = false; cfg = none })

-- The two queues of bytes; the front of a queue is the front of its list.
pub record TlsConn : Type 0 where
  pub ctx : Option TlsContext
  pub server : Bool
  pub inbound : List ℕ
  pub outbound : List ℕ
  pub alpn : List ℕ
  pub handshake_done : Bool

unfoldable pub make : Option TlsContext → Bool → TlsConn
make ctx is_server = record {
  ctx = ctx;
  server = is_server;
  inbound = [];
  outbound = [];
  alpn = codes "http/1.1";
  handshake_done = not is_server;
}

-- `ctx != nullptr && ctx->cfg.enabled`; the default of a configuration is that TLS is on.
abbrev pub is_enabled : Option TlsContext → Bool
is_enabled none = false
is_enabled (some ctx) = config_enabled ctx.cfg
  where
    config_enabled : Option TlsConfig → Bool
    config_enabled none = true
    config_enabled (some cfg) = cfg.enabled

unfoldable pub do_handshake : TlsConn → Result TlsHandshakeState × TlsConn
do_handshake c =
    if is_enabled c.ctx
    then (err (from_code tls_handshake "TLS unavailable in fallback build"), c)
    else (ok finished, record c { handshake_done = true })

unfoldable pub feed_encrypted : List ℕ → TlsConn → Result (Unit {0}) × TlsConn
feed_encrypted bytes c = (ok tt, record c { inbound = c.inbound ++ bytes })

-- `room` is the size of the buffer that is filled.
unfoldable pub take_encrypted : ℕ → TlsConn → Result (List ℕ) × TlsConn
take_encrypted room c =
    let n = min room (length c.outbound) in
    (ok (take n c.outbound), record c { outbound = drop n c.outbound })

unfoldable pub read : ℕ → TlsConn → Result (List ℕ) × TlsConn
read room c =
    let n = min room (length c.inbound) in
    if not c.handshake_done
    then (err (from_code would_block "handshake pending"), c)
    else if n == 0
    then (err (from_code would_block "no TLS data"), c)
    else (ok (take n c.inbound), record c { inbound = drop n c.inbound })

unfoldable pub write : List ℕ → TlsConn → Result ℕ × TlsConn
write bytes c =
    if not c.handshake_done
    then (err (from_code would_block "handshake pending"), c)
    else (ok (length bytes), record c { outbound = c.outbound ++ bytes })

unfoldable pub want_read : TlsConn → Bool
want_read c = is_empty c.inbound

unfoldable pub want_write : TlsConn → Bool
want_write c = not (is_empty c.outbound)

unfoldable pub alpn_protocol : TlsConn → List ℕ
alpn_protocol c = c.alpn

unfoldable pub shutdown : TlsConn → Result (Unit {0}) × TlsConn
shutdown c = (ok tt, record c { handshake_done = false })
