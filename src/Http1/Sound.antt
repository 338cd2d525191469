-- ===== src/Http1/Sound.antt =====
-- src/http1.cpp: what a request that `parse_request` accepts is known to be.
use uproxy.Base.{
  ℕ, ◌+◌, ◌≤◌, ◌<◌, ◌≡◌, ◌≢◌, refl, sym, ap, ◌⊎◌, inl, inr, min, true, false, not, ◌&&◌, ◌||◌, List,
  [], ◌∷◌, ◌++◌, none, some, Option-cases, Bool-cases, arith, ltb, length, take, drop, bytes_eq,
  bytes_eq→eq, codes, All,
}
use uproxy.Base.Text.{all, find, is_empty}
use uproxy.Buffer.{RingBuffer, peek, readable}
use uproxy.Http1.Message.{
  ParseResult, complete, incomplete, malformed, HttpRequest, max_method_len, max_target_len,
  max_header_count, max_header_bytes,
}
use uproxy.Http1.Parse.{crlf, is_token_char, header_block, stop, found, Block, Fields, parse_lines}
use uproxy.Http1.Start.{
  no_fields, smuggles, request_words, request_start, request_lines, parse_request_bytes,
  parse_request,
}
use uproxy.Http1.Fields.{IsHeader, IsFields, parse_lines_lem, guard_some, no_fields-IsFields}

-- A request that is safe to pass on: each part within its limit and of allowed characters, a
-- version that is known, and no length beside a chunked body.
pub record IsRequest (req : HttpRequest) : Type 0 where
  pub method_pos : 0 < length req.method
  pub method_le : length req.method ≤ max_method_len
  pub method_token : all is_token_char req.method ≡ true
  pub target_pos : 0 < length req.target
  pub target_le : length req.target ≤ max_target_len
  pub version_known : (req.version ≡ codes "HTTP/1.1") ⊎ (req.version ≡ codes "HTTP/1.0")
  pub count_le : length req.headers ≤ max_header_count
  pub headers_valid : All IsHeader req.headers
  pub one_length : req.chunked ≡ true → req.content_length ≡ 0

-- The parts of the start line.
pub record IsStart (req : HttpRequest) : Type 0 where
  pub method_pos : 0 < length req.method
  pub method_le : length req.method ≤ max_method_len
  pub method_token : all is_token_char req.method ≡ true
  pub target_pos : 0 < length req.target
  pub target_le : length req.target ≤ max_target_len
  pub version_known : (req.version ≡ codes "HTTP/1.1") ⊎ (req.version ≡ codes "HTTP/1.0")

request_start_lem :
    (header_bytes : ℕ) (start : List ℕ) (req₀ req : HttpRequest)
    → request_start header_bytes start req₀ ≡ some req
    → IsStart req
unfolding request_start
request_start_lem n start req₀ req e = elim (Option-cases (request_words start)) [
  | inl p ↦ absurd (none_some (rw (p, request_start) at e))
  | inr ((method, target, version), p) ↦
      let (b₁, e₁) =
        guard_some
          (is_empty method
            || (ltb max_method_len (length method) || not (all is_token_char method)))
          _ req (rw (p, request_start) at e) in
      let (b₂, e₂) =
        guard_some
          (is_empty target
            || (ltb max_target_len (length target)
                || (not (bytes_eq version (codes "HTTP/1.1"))
                    && not (bytes_eq version (codes "HTTP/1.0")))))
          _ req e₁ in
      let built = injective_some e₂ in
      rw (sym built) (record {
        method_pos = empty_pos method (ground (arith, b₁));
        method_le = ground (arith, b₁);
        method_token = ground (arith, b₁);
        target_pos = empty_pos target (ground (arith, b₂));
        target_le = ground (arith, b₂);
        version_known = known version (ground (arith, b₂));
      })
]
  where
    none_some : none ≢ some req
    none_some = λ q. cc

    injective_some : {a b : HttpRequest} → some a ≡ some b → a ≡ b
    injective_some q = cc

    empty_pos : (s : List ℕ) → is_empty s ≡ false → 0 < length s
    empty_pos [] h = cc
    empty_pos (c ∷ s) h = omega arith

    known :
        (v : List ℕ)
        → (not (bytes_eq v (codes "HTTP/1.1")) && not (bytes_eq v (codes "HTTP/1.0"))) ≡ false
        → (v ≡ codes "HTTP/1.1") ⊎ (v ≡ codes "HTTP/1.0")
    known v h = elim (Bool-cases (bytes_eq v (codes "HTTP/1.1"))) [
      | inl q ↦ inl (bytes_eq→eq v _ q)
      | inr q ↦ inr (bytes_eq→eq v _ (ground (arith, h, q)))
    ]

request_lines_lem :
    (block : List ℕ) (req₀ req : HttpRequest)
    → request_lines block req₀ ≡ (complete, req)
    → IsStart req₀
    → IsRequest req
unfolding request_lines
request_lines_lem block req₀ req e k =
    ended (parse_lines (length block) true block (no_fields req₀.keep_alive)) refl
  where
    ended :
        (rf : ParseResult × Fields)
        → parse_lines (length block) true block (no_fields req₀.keep_alive) ≡ rf
        → IsRequest req
    ended (incomplete, f) p = absurd (cc (rw (request_lines, p) at e))
    ended (malformed, f) p = absurd (cc (rw (request_lines, p) at e))
    ended (complete, f) p = elim (Bool-cases (smuggles f)) [
      | inl q ↦ absurd (cc (rw (request_lines, p, p, q) at e))
      | inr q ↦
          let fields : IsFields f = rw p at (
            parse_lines_lem (length block) true block (no_fields req₀.keep_alive)
              (no_fields-IsFields req₀.keep_alive)) in
          rw (sym (ap (λ (x : ParseResult × HttpRequest). x.1) (rw (request_lines, p, p, q) at e)))
            (record {
              method_pos = k.method_pos;
              method_le = k.method_le;
              method_token = k.method_token;
              target_pos = k.target_pos;
              target_le = k.target_le;
              version_known = k.version_known;
              count_le = fields.count_le;
              headers_valid = fields.valid;
              one_length = λ h. fields.no_length (ground (arith, q, h));
            })
    ]

-- A search that ends in front of the start line has no complete request.
header_block_stop :
    (bytes : List ℕ) (result : ParseResult) → header_block bytes ≡ stop result → result ≢ complete
unfolding header_block
header_block_stop bytes result e q = elim (Option-cases (find (crlf ++ crlf) bytes)) [
  | inl p ↦ (let e' = rw (header_block, p) at e in ground (arith, e', q))
  | inr (end, p) ↦ (let e' = rw (header_block, p) at e in ground (arith, e', q))
]

-- Every request that `parse_request` calls complete is safe to pass on: the method and the at most
-- 100 headers are within their limits and of allowed characters, the target has 1 to 8192 bytes,
-- the version is 1.0 or 1.1, and a chunked request has no content length.
pub parse_request_lem :
    (buf : RingBuffer) (req₀ req : HttpRequest)
    → parse_request buf req₀ ≡ (complete, req)
    → IsRequest req
unfolding parse_request parse_request_bytes
parse_request_lem buf req₀ req e = blocked (header_block bytes) refl
  where
    bytes : List ℕ
    bytes = peek (min (readable buf) (max_header_bytes + 1)) buf

    blocked : (x : Block) → header_block bytes ≡ x → IsRequest req
    blocked (stop result) p = absurd (
        header_block_stop bytes result p (
          ap (λ (x : ParseResult × HttpRequest). x.0)
            (rw (parse_request, parse_request_bytes, p) at e)))
    blocked (found end block) p = elim (Option-cases (find crlf block)) [
      | inl q ↦ absurd (cc (rw (parse_request, parse_request_bytes, p, q) at e))
      | inr (line_end, q) ↦
          elim (Option-cases (request_start (end + 4) (take line_end block) req₀)) [
            | inl s ↦ absurd (cc (rw (parse_request, parse_request_bytes, p, q, s) at e))
            | inr (req₁, s) ↦
                request_lines_lem (drop (line_end + 2) block) req₁ req
                  (rw (parse_request, parse_request_bytes, p, q, s) at e)
                  (request_start_lem (end + 4) (take line_end block) req₀ req₁ s)
          ]
    ]
