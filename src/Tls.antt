-- ===== src/Tls.antt =====
-- include/uproxy/tls.h, src/tls.cpp: TLS. Alpn has the choice of the protocol, on which Offers proves
-- its law, Boring the build with BoringSSL, whose calls are answered by the library, and Fallback the
-- build without it. Negotiated and Queue are about these two. A connection here is not moved from.
pub mod Alpn
pub mod Offers
pub mod Boring
pub mod Fallback
pub mod Queue
pub mod Negotiated
mod Tests
use uproxy.Base.{Bool}
use uproxy.Config.{TlsConfig}

pub data TlsHandshakeState : Type 0 where
  pending finished : TlsHandshakeState
