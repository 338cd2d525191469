-- ===== src/Proxy/Response.antt =====
-- src/proxy.cpp: `header_name_eq`, `response_complete` and `read_response`. What the system
-- answers is an argument.
use uproxy.Base.{
  ℕ, ◌+◌, ◌*◌, Bool, true, false, not, ◌&&◌, ◌||◌, List, [], ◌∷◌, ◌++◌, Option, none, some, leb,
  ◌==◌, ltb, if◌then◌else◌, codes, ◌⊎◌, inl, inr, Result, ok, err, stuck, from_code, from_errno,
  http_malformed,
}
use uproxy.Base.Int.{ℤ, pos, negsuc}
use uproxy.Base.System.{Returned, eintr, eagain}
use uproxy.Base.Text.{any, to_lower, find_from, has_text}
use uproxy.Buffer.{RingBuffer, readable, peek, append}
use uproxy.Buffer
use uproxy.Http1.Message.{HttpResponse, complete, incomplete, malformed}
use uproxy.Http1.Parse.{crlf}
use uproxy.Http1.Start.{parse_response}
use uproxy.Proxy.System.{Poll, wait_fd}

abbrev pub max_proxy_response_bytes : ℕ
max_proxy_response_bytes = 64 * 1024 * 1024

-- The loop compares byte by byte once the lengths agree.
unfoldable pub header_name_eq : List ℕ → List ℕ → Bool
header_name_eq [] [] = true
header_name_eq [] (y ∷ ys) = false
header_name_eq (x ∷ xs) [] = false
header_name_eq (x ∷ xs) (y ∷ ys) = (to_lower x == to_lower y) && header_name_eq xs ys

abbrev is_status : ℕ → ℤ → Bool
is_status n status = elim status [ pos k ↦ k == n | negsuc k ↦ false ]

abbrev is_found : Option ℕ → Bool
is_found i = elim i [ none ↦ false | some k ↦ true ]

-- Whether the bytes so far are a whole response, and the response as it is parsed.
unfoldable pub response_complete : RingBuffer → HttpResponse → Bool × HttpResponse
unfolding parse_response peek header_name_eq
response_complete response parsed =
    let (status, parsed') = parse_response response parsed in
    let text = peek (readable response) response in
    let whole =
      if parsed'.chunked
      then is_found (find_from (crlf ++ (codes "0" ++ (crlf ++ crlf))) parsed'.header_bytes text)
        || has_text (crlf ++ codes "0;") text
      else if any (λ h. header_name_eq h.name (codes "content-length")) parsed'.headers
      then leb (parsed'.header_bytes + parsed'.content_length) (readable response)
      else is_status 204 parsed'.status || is_status 304 parsed'.status in
    (elim status [ complete ↦ whole | incomplete ↦ false | malformed ↦ false ], parsed')

-- A loop of `read_response` up to `recv`: how it returns, or the answers of `poll` that are left.
unfoldable pub before_recv : RingBuffer → HttpResponse → List Poll → Result (List ℕ) ⊎ List Poll
unfolding wait_fd peek
before_recv response parsed polls =
    let bytes = peek (readable response) response in
    let (waited, polls') = wait_fd "read upstream" polls in
    let ended = ltb 0 parsed.header_bytes && (parsed.content_length == 0 && not parsed.chunked) in
    if leb max_proxy_response_bytes (readable response)
    then inl (err (from_code http_malformed "upstream response too large"))
    else elim waited [
      | ok u ↦ inr polls'
      | err e ↦ inl (if ended then ok bytes else err e)
      | stuck ↦ inl stuck
    ]

-- What follows `recv`: a return, or another round with the buffer. No byte is the end of the
-- stream.
unfoldable pub after_recv : Returned (List ℕ) → RingBuffer → Result (List ℕ) ⊎ RingBuffer
unfolding peek append
after_recv r response = elim r.value [
  | none ↦
      if r.errno == eagain || r.errno == eintr
      then inr response
      else inl (err (from_errno r.errno "read upstream"))
  | some [] ↦ inl (ok (peek (readable response) response))
  | some (b ∷ bytes) ↦ elim (append (b ∷ bytes) response) [
    | ok response' ↦ inr response'
    | err e ↦ inl (err e)
    | stuck ↦ inl stuck
  ]
]

-- The loop of `read_response`, with the answers of `recv` and of `poll`.
unfoldable pub read_loop :
    List (Returned (List ℕ)) → List Poll → RingBuffer → HttpResponse → Result (List ℕ)
unfolding response_complete before_recv after_recv peek
read_loop [] polls response parsed =
    let (whole, parsed') = response_complete response parsed in
    let last : Result (List ℕ) = elim (before_recv response parsed' polls) [
      | inl r ↦ r
      | inr polls' ↦ stuck
    ] in
    if whole then ok (peek (readable response) response) else last
read_loop (r ∷ recvs) polls response parsed =
    let (whole, parsed') = response_complete response parsed in
    let more : Result (List ℕ) = elim (before_recv response parsed' polls) [
      | inl r ↦ r
      | inr polls' ↦ elim (after_recv r response) [
        | inl r ↦ r
        | inr response' ↦ read_loop recvs polls' response' parsed'
      ]
    ] in
    if whole then ok (peek (readable response) response) else more

abbrev pub empty_response : HttpResponse
empty_response = record {
  status = pos 200;
  reason = codes "OK";
  headers = [];
  content_length = 0;
  chunked = false;
  header_bytes = 0;
}

unfoldable pub read_response : List (Returned (List ℕ)) → List Poll → Result (List ℕ)
unfolding read_loop
read_response recvs polls = read_loop recvs polls (Buffer.make 65536) empty_response
