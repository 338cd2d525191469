-- ===== src/Http1/Serialize.antt =====
-- src/http1.cpp: the class `Http1Serializer`. The stream `os` is the text so far.
use uproxy.Base.{
  ℕ, zero, suc, ◌+◌, ◌-◌, ◌/◌, ◌%◌, Bool, not, ◌&&◌, ◌||◌, List, [], ◌∷◌, ◌++◌, ltb, leb,
  if◌then◌else◌, length, bytes_eq, codes, Result, ok, ◌>>=◌, fail_if, from_code, http_malformed,
}
use uproxy.Base.Int.{ℤ, pos, negsuc}
use uproxy.Base.Text.{any, to_string}
use uproxy.Buffer.{RingBuffer, append}
use uproxy.Http1.Message.{HttpHeader, HttpRequest, HttpResponse}
use uproxy.Http1.Parse.{crlf, lower, valid_header_value}

-- The hop-by-hop headers that neither message passes on.
abbrev pub hop_by_hop : List (List ℕ)
hop_by_hop =
    codes "connection"
    ∷ codes "keep-alive"
    ∷ codes "proxy-authenticate"
    ∷ codes "proxy-authorization"
    ∷ codes "te"
    ∷ codes "trailers"
    ∷ codes "transfer-encoding"
    ∷ codes "upgrade"
    ∷ []

abbrev pub skipped_in_request : List ℕ → Bool
skipped_in_request lname = bytes_eq lname (codes "host") || any (bytes_eq lname) hop_by_hop

abbrev pub skipped_in_response : List ℕ → Bool
skipped_in_response lname = any (bytes_eq lname) hop_by_hop

abbrev pub header_line : HttpHeader → List ℕ
header_line h = h.name ++ (codes ": " ++ (h.value ++ crlf))

-- The loop of both writers over the headers, with the names that it skips.
unfoldable pub write_fields : (List ℕ → Bool) → List HttpHeader → List ℕ → Result (List ℕ)
unfolding lower valid_header_value
write_fields skipped [] os = ok os
write_fields skipped (h ∷ hs) os =
    let passed = write_fields skipped hs (os ++ header_line h) in
    let rest = write_fields skipped hs os in
    if skipped (lower h.name)
    then rest
    else fail_if (not (valid_header_value h.value))
        (from_code http_malformed "invalid header value") passed

-- `saw_content_length` at the end of the loop of `write_request`.
unfoldable pub names_length : List HttpHeader → Bool
unfolding lower
names_length hs = any (λ h. bytes_eq (lower h.name) (codes "content-length")) hs

abbrev pub via_line : List ℕ
via_line = codes "Via: 1.1 uproxy" ++ (crlf ++ crlf)

unfoldable pub write_request : HttpRequest → List ℕ → RingBuffer → Result RingBuffer
unfolding write_fields names_length to_string
write_request req host buf = do
  os ← write_fields skipped_in_request req.headers (
      req.method
      ++ (32 ∷ req.target ++ (32 ∷ req.version ++ (crlf ++ (codes "Host: " ++ (host ++ crlf))))))
  let length_line =
      if ltb 0 req.content_length && not (names_length req.headers)
      then codes "Content-Length: " ++ (to_string req.content_length ++ crlf)
      else []
  append (os ++ (length_line ++ via_line)) buf

-- `os << resp.status`
abbrev pub status_text : ℤ → List ℕ
status_text (pos n) = to_string n
status_text (negsuc n) = b'-' ∷ to_string (suc n)

unfoldable pub write_response : HttpResponse → RingBuffer → Result RingBuffer
unfolding write_fields to_string
write_response resp buf = do
  os ←
      write_fields skipped_in_response resp.headers
        (codes "HTTP/1.1 " ++ (status_text resp.status ++ (32 ∷ resp.reason ++ crlf)))
  append (os ++ via_line) buf

abbrev hex_digit : ℕ → ℕ
hex_digit d = if ltb d 10 then b'0' + d else b'a' + d - 10

-- `%zx`, one digit a round, the last first.
unfoldable pub hex_loop : ℕ → ℕ → List ℕ → List ℕ
hex_loop zero n out = out
hex_loop (suc fuel) n out =
    let rest = hex_loop fuel (n / 16) (hex_digit (n % 16) ∷ out) in
    if ltb n 16 then hex_digit n ∷ out else rest

-- A `size_t` has sixteen digits at most.
unfoldable pub write_chunk_header : ℕ → RingBuffer → Result RingBuffer
unfolding hex_loop
write_chunk_header chunk_size buf =
    let tmp = hex_loop 16 chunk_size [] ++ crlf in
    fail_if (leb 32 (length tmp)) (from_code http_malformed "chunk too large") (append tmp buf)
