-- ===== src/Tls/Boring.antt =====
-- src/tls.cpp: `TLSContext` and `TLSConn` in the build with BoringSSL. What the library answers to a
-- call is an argument.
use uproxy.Base.{
  ℕ, Bool, true, false, not, List, [], Option, none, some, if◌then◌else◌, codes, ltb, Result, ok,
  err, from_code, sys_error, would_block, config_invalid, tls_handshake,
}
use uproxy.Base.Text.{is_empty}
use uproxy.Config.{TlsConfig}
use uproxy.Tls.{TlsHandshakeState, pending, finished}

-- What an `SSL_CTX` was told: the files it has loaded, and whether it has the callback for ALPN.
pub record SslCtx : Type 0 where
  pub cert_file : List ℕ
  pub key_file : List ℕ
  pub selects_alpn : Bool

pub record TlsContext : Type 0 where
  pub server : Bool
  pub cfg : Option TlsConfig
  pub ssl_ctx : Option SslCtx

-- Whether the calls that make a context succeed.
pub record CtxAnswers : Type 0 where
  pub is_new : Bool
  pub cert_loads : List ℕ → Bool
  pub key_loads : List ℕ → Bool
  pub key_fits : Bool

unfoldable pub server : CtxAnswers → TlsConfig → Result TlsContext
server k cfg =
    let loaded : SslCtx = record {
      cert_file = cfg.cert_file;
      key_file = cfg.key_file;
      selects_alpn = true;
    } in
    if not cfg.enabled
    then ok (record { server = true; cfg = some cfg; ssl_ctx = none })
    else if not k.is_new
    then err (from_code sys_error "SSL_CTX_new failed")
    else if not (k.cert_loads cfg.cert_file)
    then err (from_code config_invalid "Failed to load cert_file")
    else if not (k.key_loads cfg.key_file)
    then err (from_code config_invalid "Failed to load key_file")
    else if not k.key_fits
    then err (from_code config_invalid "Private key does not match certificate")
    else ok (record { server = true; cfg = some cfg; ssl_ctx = some loaded })

unfoldable pub client : CtxAnswers → Result TlsContext
client k =
    let plain : SslCtx = record { cert_file = []; key_file = []; selects_alpn = false } in
    if not k.is_new
    then err (from_code sys_error "SSL_CTX_new failed")
    else ok (record { server = false; cfg = none; ssl_ctx = some plain })

-- A connection; `ssl` tells whether it has an `SSL`.
pub record TlsConn : Type 0 where
  pub server : Bool
  pub ssl : Bool
  pub alpn : List ℕ
  pub handshake_done : Bool

abbrev has_ctx : Option TlsContext → Bool
has_ctx none = false
has_ctx (some ctx) = has_ssl ctx.ssl_ctx
  where
    has_ssl : Option SslCtx → Bool
    has_ssl none = false
    has_ssl (some c) = true

unfoldable pub make : Option TlsContext → Bool → TlsConn
make ctx is_server = record {
  server = is_server;
  ssl = has_ctx ctx;
  alpn = codes "http/1.1";
  handshake_done = not is_server;
}

-- What a call of the library comes to: a positive result, SSL_ERROR_WANT_READ or _WANT_WRITE, or
-- another error.
pub data SslResult (A : Type 0) : Type 0 where
  did : A → SslResult A
  wants fails : SslResult A

-- A handshake that is done tells the protocol of `SSL_get0_alpn_selected`.
unfoldable pub shaken : SslResult (Option (List ℕ)) → TlsConn → Result TlsHandshakeState × TlsConn
shaken (did none) c = (ok finished, record c { handshake_done = true })
shaken (did (some alpn)) c = (
  ok finished,
  record c { handshake_done = true; alpn = (if is_empty alpn then c.alpn else alpn) },
)
shaken wants c = (ok pending, c)
shaken fails c = (err (from_code tls_handshake "TLS handshake failed"), c)

unfoldable pub do_handshake :
    SslResult (Option (List ℕ)) → TlsConn → Result TlsHandshakeState × TlsConn
unfolding shaken
do_handshake r c =
    if not c.ssl
    then (ok finished, record c { handshake_done = true })
    else if c.handshake_done
    then (ok finished, c)
    else shaken r c

-- `BIO_write` takes the bytes or fails.
unfoldable pub feed_encrypted : Bool → List ℕ → TlsConn → Result (Unit {0})
feed_encrypted taken bytes c =
    if not c.ssl
    then ok tt
    else if is_empty bytes
    then ok tt
    else if taken
    then ok tt
    else err (from_code sys_error "BIO_write failed")

-- `BIO_read` gives bytes; `wants` is `BIO_should_retry`.
unfoldable pub given : SslResult (List ℕ) → Result (List ℕ)
given (did bytes) = ok bytes
given wants = ok []
given fails = err (from_code sys_error "BIO_read failed")

unfoldable pub take_encrypted : SslResult (List ℕ) → TlsConn → Result (List ℕ)
unfolding given
take_encrypted r c = if not c.ssl then ok [] else given r

unfoldable pub read_with : SslResult (List ℕ) → Result (List ℕ)
read_with (did bytes) = ok bytes
read_with wants = err (from_code would_block "SSL_read would block")
read_with fails = err (from_code sys_error "SSL_read failed")

unfoldable pub read : SslResult (List ℕ) → TlsConn → Result (List ℕ)
unfolding read_with
read r c =
    if not c.ssl
    then err (from_code would_block "no mock data")
    else if not c.handshake_done
    then err (from_code would_block "handshake pending")
    else read_with r

unfoldable pub written_with : SslResult ℕ → Result ℕ
written_with (did n) = ok n
written_with wants = err (from_code would_block "SSL_write would block")
written_with fails = err (from_code sys_error "SSL_write failed")

unfoldable pub write : SslResult ℕ → TlsConn → Result ℕ
unfolding written_with
write r c =
    if not c.ssl
    then err (from_code would_block "no mock data")
    else if not c.handshake_done
    then err (from_code would_block "handshake pending")
    else written_with r

unfoldable pub want_read : TlsConn → Bool
want_read c = true

-- `pending` is `BIO_pending` of the bytes to write.
unfoldable pub want_write : ℕ → TlsConn → Bool
want_write pending_bytes c = if not c.ssl then false else ltb 0 pending_bytes

unfoldable pub alpn_protocol : TlsConn → List ℕ
alpn_protocol c = c.alpn

unfoldable pub shutdown : TlsConn → Result (Unit {0}) × TlsConn
shutdown c = (ok tt, record c { handshake_done = false })
