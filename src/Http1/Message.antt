-- ===== src/Http1/Message.antt =====
-- include/uproxy/http1.h: messages, limits and `ParseResult`.
use uproxy.Base.{ℕ, Bool, List}
use uproxy.Base.Int.{ℤ}

-- `ParseResult::Error` is `malformed`.
pub data ParseResult : Type 0 where
  complete incomplete malformed : ParseResult

pub record HttpHeader : Type 0 where
  pub name : List ℕ
  pub value : List ℕ

pub record HttpRequest : Type 0 where
  pub method : List ℕ
  pub target : List ℕ
  pub version : List ℕ
  pub headers : List HttpHeader
  pub keep_alive : Bool
  pub content_length : ℕ
  pub chunked : Bool
  pub header_bytes : ℕ

pub record HttpResponse : Type 0 where
  pub status : ℤ
  pub reason : List ℕ
  pub headers : List HttpHeader
  pub content_length : ℕ
  pub chunked : Bool
  pub header_bytes : ℕ

abbrev pub max_method_len : ℕ
max_method_len = 16

abbrev pub max_target_len : ℕ
max_target_len = 8192

abbrev pub max_header_name : ℕ
max_header_name = 256

abbrev pub max_header_value : ℕ
max_header_value = 8192

abbrev pub max_header_count : ℕ
max_header_count = 100

abbrev pub max_header_bytes : ℕ
max_header_bytes = 65536
