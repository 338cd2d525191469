-- ===== src/Http1/Tests.antt =====
-- src/http1.cpp: a request that is accepted, and one with two lengths that is not.
use uproxy.Base.{ℕ, ◌≡◌, refl, true, false, List, [], ◌∷◌, ◌++◌, codes, length}
use uproxy.Buffer.{RingBuffer, peek}
use uproxy.Http1.Message.{complete, malformed, HttpRequest}
use uproxy.Http1.Parse.{crlf}
use uproxy.Http1.Start.{parse_request}
use uproxy.Http1.Sound.{IsRequest, parse_request_lem}

abbrev holding : List ℕ → RingBuffer
holding text = record { bytes = text; read_pos = 0; write_pos = 0; size = length text }

abbrev empty_request : HttpRequest
empty_request = record {
  method = [];
  target = [];
  version = [];
  headers = [];
  keep_alive = true;
  content_length = 0;
  chunked = false;
  header_bytes = 0;
}

abbrev get_line : List ℕ
get_line = codes "GET / HTTP/1.1" ++ crlf

abbrev get_buffer : RingBuffer
get_buffer = holding (get_line ++ (codes "Host: a" ++ (crlf ++ crlf)))

abbrev got : HttpRequest
got = record {
  method = codes "GET";
  target = codes "/";
  version = codes "HTTP/1.1";
  headers = record { name = codes "Host"; value = codes "a" } ∷ [];
  keep_alive = true;
  content_length = 0;
  chunked = false;
  header_bytes = 27;
}

get_complete : parse_request get_buffer empty_request ≡ (complete, got)
unfolding parse_request peek
get_complete = refl

parse_request_lem_example : IsRequest got
parse_request_lem_example = parse_request_lem get_buffer empty_request got get_complete

-- A length beside a chunked body is an error.
both_lengths :
    (parse_request
      (holding (
        get_line
        ++ (codes "Content-Length: 3"
            ++ (crlf ++ (codes "Transfer-Encoding: chunked" ++ (crlf ++ crlf))))))
      empty_request).0
    ≡ malformed
unfolding parse_request peek
both_lengths = refl

-- A header block that is cut off behind its first line is an error too.
cut_off : (parse_request (holding get_line) empty_request).0 ≡ malformed
unfolding parse_request peek
cut_off = refl

abbrev host_lines : List ℕ
host_lines = codes "Host: a" ++ (crlf ++ (codes "Connection: close" ++ crlf))
