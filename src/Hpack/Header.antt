-- ===== src/Hpack/Header.antt =====
-- include/uproxy/hpack.h, src/hpack.cpp: header fields and the static table.
use uproxy.Base.{ℕ, ◌+◌, Bool, false, List, [], ◌∷◌, String, codes, length}
use uproxy.Base.Text.{any, is_upper}

pub record HpackHeader : Type 0 where
  pub name : List ℕ
  pub value : List ℕ
  pub sensitive : Bool

abbrev pub entry : String → String → HpackHeader
entry n v = record { name = codes n; value = codes v; sensitive = false }

-- `HPACK_STATIC_TABLE`, with its unused entry 0.
unfoldable pub static_table : List HpackHeader
static_table =
    entry "" ""
    ∷ entry ":authority" ""
    ∷ entry ":method" "GET"
    ∷ entry ":method" "POST"
    ∷ entry ":path" "/"
    ∷ entry ":path" "/index.html"
    ∷ entry ":scheme" "http"
    ∷ entry ":scheme" "https"
    ∷ entry ":status" "200"
    ∷ entry ":status" "204"
    ∷ entry ":status" "206"
    ∷ entry ":status" "304"
    ∷ entry ":status" "400"
    ∷ entry ":status" "404"
    ∷ entry ":status" "500"
    ∷ entry "accept-charset" ""
    ∷ entry "accept-encoding" "gzip, deflate"
    ∷ entry "accept-language" ""
    ∷ entry "accept-ranges" ""
    ∷ entry "accept" ""
    ∷ entry "access-control-allow-origin" ""
    ∷ entry "age" ""
    ∷ entry "allow" ""
    ∷ entry "authorization" ""
    ∷ entry "cache-control" ""
    ∷ entry "content-disposition" ""
    ∷ entry "content-encoding" ""
    ∷ entry "content-language" ""
    ∷ entry "content-length" ""
    ∷ entry "content-location" ""
    ∷ entry "content-range" ""
    ∷ entry "content-type" ""
    ∷ entry "cookie" ""
    ∷ entry "date" ""
    ∷ entry "etag" ""
    ∷ entry "expect" ""
    ∷ entry "expires" ""
    ∷ entry "from" ""
    ∷ entry "host" ""
    ∷ entry "if-match" ""
    ∷ entry "if-modified-since" ""
    ∷ entry "if-none-match" ""
    ∷ entry "if-range" ""
    ∷ entry "if-unmodified-since" ""
    ∷ entry "last-modified" ""
    ∷ entry "link" ""
    ∷ entry "location" ""
    ∷ entry "max-forwards" ""
    ∷ entry "proxy-authenticate" ""
    ∷ entry "proxy-authorization" ""
    ∷ entry "range" ""
    ∷ entry "referer" ""
    ∷ entry "refresh" ""
    ∷ entry "retry-after" ""
    ∷ entry "server" ""
    ∷ entry "set-cookie" ""
    ∷ entry "strict-transport-security" ""
    ∷ entry "transfer-encoding" ""
    ∷ entry "user-agent" ""
    ∷ entry "vary" ""
    ∷ entry "via" ""
    ∷ entry "www-authenticate" ""
    ∷ []

abbrev pub static_size : ℕ
static_size = 62

unfoldable pub has_uppercase : List ℕ → Bool
has_uppercase s = any is_upper s

abbrev pub entry_size : HpackHeader → ℕ
entry_size h = length h.name + length h.value + 32
