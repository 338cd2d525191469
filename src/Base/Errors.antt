-- ===== src/Base/Errors.antt =====
-- src/result.cpp: the text of an error. `strerror` is the library's.
use Prim.Native.Nat.{ℕ}
use mathlib.Core.Bool.{Bool, true, false}
use mathlib.Core.List.{List, ◌++◌}
use uproxy.Base.Tests.{if◌then◌else◌}
use uproxy.Base.Bytes.{codes}
use uproxy.Base.Results.{
  ErrCode, ok_code, sys_error, would_block, eof, http_malformed, http2_protocol, hpack_error,
  config_syntax, config_invalid, tls_handshake, tls_io, no_upstream, timeout, Error,
}
use uproxy.Base.Text.{is_empty}

unfoldable pub code_name : ErrCode → List ℕ
code_name ok_code = codes "ok"
code_name sys_error = codes "sys_error"
code_name would_block = codes "would_block"
code_name eof = codes "eof"
code_name http_malformed = codes "http_malformed"
code_name http2_protocol = codes "http2_protocol"
code_name hpack_error = codes "hpack_error"
code_name config_syntax = codes "config_syntax"
code_name config_invalid = codes "config_invalid"
code_name tls_handshake = codes "tls_handshake"
code_name tls_io = codes "tls_io"
code_name no_upstream = codes "no_upstream"
code_name timeout = codes "timeout"

abbrev pub is_sys_error : ErrCode → Bool
is_sys_error sys_error = true
is_sys_error _ = false

unfoldable pub to_string : (ℕ → List ℕ) → Error → List ℕ
unfolding code_name
to_string strerror e =
    let named = code_name e.code in
    let told = if is_empty e.msg then named else named ++ (codes ": " ++ e.msg) in
    if is_sys_error e.code then told ++ (codes ": " ++ strerror e.sys_errno) else told
