-- ===== src/Http1/Start.antt =====
-- src/http1.cpp: the start lines of `parse_headers`, and the entry points of `Http1Parser`.
use mathlib.Core.Option
use uproxy.Base.{
  ℕ, zero, suc, ◌+◌, ◌-◌, ◌^◌, min, Bool, true, false, not, ◌&&◌, ◌||◌, List, [], ◌∷◌, Option, none,
  some, ltb, ◌==◌, if◌then◌else◌, length, take, drop, bytes_eq, codes,
}
use uproxy.Base.Int.{ℤ, pos, negsuc}
use uproxy.Base.Text.{is_empty, all, starts_with, find, find_from, has_text, from_chars}
use uproxy.Buffer.{RingBuffer, readable, peek, commit_read}
use uproxy.Http1.Message.{
  ParseResult, complete, incomplete, malformed, HttpRequest, HttpResponse, max_method_len,
  max_target_len, max_header_bytes,
}
use uproxy.Http1.Parse.{crlf, is_token_char, Fields, parse_lines, stop, found, header_block}

-- The words of a request line: exactly two blanks part them.
unfoldable pub request_words : List ℕ → Option (List ℕ × List ℕ × List ℕ)
request_words start = elim (find (codes " ") start) [
  | none ↦ none
  | some sp1 ↦ elim (find_from (codes " ") (sp1 + 1) start) [
    | none ↦ none
    | some sp2 ↦
        if has_text (codes " ") (drop (sp2 + 1) start)
        then none
        else some
            (take sp1 start, take (sp2 - sp1 - 1) (drop (sp1 + 1) start), drop (sp2 + 1) start)
  ]
]

-- The start line of a request, stored with the fields that it resets.
unfoldable pub request_start : ℕ → List ℕ → HttpRequest → Option HttpRequest
unfolding request_words is_token_char
request_start header_bytes start req = elim (request_words start) [
  | none ↦ none
  | some (method, target, version) ↦
      if is_empty method || (ltb max_method_len (length method) || not (all is_token_char method))
      then none
      else if is_empty target
          || (ltb max_target_len (length target)
              || (not (bytes_eq version (codes "HTTP/1.1"))
                  && not (bytes_eq version (codes "HTTP/1.0"))))
      then none
      else some (record {
        method = method;
        target = target;
        version = version;
        headers = [];
        keep_alive = bytes_eq version (codes "HTTP/1.1");
        content_length = 0;
        chunked = false;
        header_bytes = header_bytes;
      })
]

-- `std::from_chars` into an `int`, of a text that is too short to overflow it.
unfoldable pub int_from_chars : List ℕ → Option ℤ
int_from_chars [] = none
int_from_chars (c ∷ s) =
    if c == b'-'
    then Option.map (λ n. elim n [ zero ↦ pos 0 | suc m ↦ negsuc m ]) (from_chars 10 (2 ^ 31) s)
    else Option.map pos (from_chars 10 (2 ^ 31) (c ∷ s))

-- The status line of a response.
unfoldable pub response_start : ℕ → List ℕ → HttpResponse → Option HttpResponse
unfolding int_from_chars
response_start header_bytes start resp =
    if not (starts_with (codes "HTTP/") start) || ltb (length start) 12
    then none
    else Option.map
        (λ status. record {
          status = status;
          reason = if ltb 13 (length start) then drop 13 start else [];
          headers = [];
          content_length = 0;
          chunked = false;
          header_bytes = header_bytes;
        })
        (int_from_chars (take 3 (drop 9 start)))

-- No length may stand beside a chunked body.
abbrev pub smuggles : Fields → Bool
smuggles f = f.chunked && f.saw_content_length

abbrev pub no_fields : Bool → Fields
no_fields keep_alive = record {
  headers = [];
  keep_alive = keep_alive;
  chunked = false;
  saw_content_length = false;
  content_length = 0;
}

-- The lines below the start line, and the end of `parse_headers`, of a request.
unfoldable pub request_lines : List ℕ → HttpRequest → ParseResult × HttpRequest
unfolding parse_lines
request_lines block req =
    let (result, f) = parse_lines (length block) true block (no_fields req.keep_alive) in
    let stored : HttpRequest = record req {
      headers = f.headers;
      keep_alive = f.keep_alive;
      chunked = f.chunked;
    } in
    elim result [
      | complete ↦
          if smuggles f
          then (malformed, stored)
          else (complete, record stored { content_length = f.content_length })
      | other ↦ (other, stored)
    ]

unfoldable pub response_lines : List ℕ → HttpResponse → ParseResult × HttpResponse
unfolding parse_lines
response_lines block resp =
    let (result, f) = parse_lines (length block) false block (no_fields true) in
    let stored : HttpResponse = record resp { headers = f.headers; chunked = f.chunked } in
    elim result [
      | complete ↦
          if smuggles f
          then (malformed, stored)
          else (complete, record stored { content_length = f.content_length })
      | other ↦ (other, stored)
    ]

-- `parse_headers` with `req` given.
unfoldable pub parse_request_bytes : List ℕ → HttpRequest → ParseResult × HttpRequest
unfolding header_block request_start request_lines
parse_request_bytes bytes req = elim (header_block bytes) [
  | stop result ↦ (result, req)
  | found end block ↦ elim (find crlf block) [
    | none ↦ (incomplete, req)
    | some line_end ↦ elim (request_start (end + 4) (take line_end block) req) [
      | none ↦ (malformed, req)
      | some req' ↦ request_lines (drop (line_end + 2) block) req'
    ]
  ]
]

-- `parse_headers` with `resp` given.
unfoldable pub parse_response_bytes : List ℕ → HttpResponse → ParseResult × HttpResponse
unfolding header_block response_start response_lines
parse_response_bytes bytes resp = elim (header_block bytes) [
  | stop result ↦ (result, resp)
  | found end block ↦ elim (find crlf block) [
    | none ↦ (incomplete, resp)
    | some line_end ↦ elim (response_start (end + 4) (take line_end block) resp) [
      | none ↦ (malformed, resp)
      | some resp' ↦ response_lines (drop (line_end + 2) block) resp'
    ]
  ]
]

unfoldable pub parse_request : RingBuffer → HttpRequest → ParseResult × HttpRequest
unfolding parse_request_bytes
parse_request buf req =
    parse_request_bytes (peek (min (readable buf) (max_header_bytes + 1)) buf) req

unfoldable pub parse_response : RingBuffer → HttpResponse → ParseResult × HttpResponse
unfolding parse_response_bytes
parse_response buf resp =
    parse_response_bytes (peek (min (readable buf) (max_header_bytes + 1)) buf) resp

-- `parse_chunk_header`; `none` is -1.
unfoldable pub parse_chunk_header : RingBuffer → Option ℕ × RingBuffer
parse_chunk_header buf =
    let sv = peek (min (readable buf) 128) buf in
    elim (find crlf sv) [
      | none ↦ (none, buf)
      | some end ↦
          let line = take end sv in
          let hex : List ℕ = elim (find (codes ";") line) [
            | none ↦ line
            | some semi ↦ take semi line
          ] in
          elim (from_chars 16 (2 ^ 64) hex) [
            | none ↦ (none, buf)
            | some n ↦
                if ltb (2 ^ 63 - 1) n then (none, buf) else (some n, commit_read (end + 2) buf)
          ]
    ]
