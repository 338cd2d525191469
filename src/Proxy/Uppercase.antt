-- ===== src/Proxy/Uppercase.antt =====
-- src/proxy.cpp, src/http2.cpp, src/hpack.cpp: a response of HTTP/2 with a capital letter in the
-- name of a header.
use mathlib.Core.Option
use uproxy.Base.{
  ℕ, ◌≡◌, refl, sym, ap, ◌∙◌, Bool, true, ◌||◌, List, [], ◌∷◌, Option, none, some, inl, inr,
  if◌then◌else◌, Bool-cases, Result-cases,
}
use uproxy.Base.Holds.{Holds, Holds-err, Holds-stuck}
use uproxy.Base.Text.{any}
use uproxy.Buffer
use uproxy.Buffer.{RingBuffer}
use uproxy.Hpack.Header.{HpackHeader, has_uppercase}
use uproxy.Hpack.Table.{DynamicTable, add_to_dynamic}
use uproxy.Hpack.Encode.{is_sensitive, encode_field, encode}
use uproxy.Http2.Conn.{H2Conn, H2Stream, find_stream, consume_body, send_response, pending_output}
use uproxy.Proxy.Http2.{reply_to}

abbrev pub has_capital : List HpackHeader → Bool
has_capital headers = any (λ h. has_uppercase h.name) headers

-- The encoder never accepts such a list.
encode-capital :
    (hs : List HpackHeader) (t : DynamicTable) (out : RingBuffer)
    → has_capital hs ≡ true
    → Holds (λ _. ⊥) (encode hs t out).0
unfolding encode
encode-capital [] t out h = absurd cc
encode-capital (x ∷ hs) t out h = elim (Bool-cases (has_uppercase x.name)) [
  | inl capital ↦ rw capital Holds-err
  | inr small ↦
      let rest : has_capital hs ≡ true = ap (λ b. b || has_capital hs) (sym small) ∙ h in
      let t' = if is_sensitive x then t else add_to_dynamic x t in
      elim (Result-cases (encode_field x out)) [
        | inl (out', e) ↦ rw small (rw e (encode-capital hs t' out' rest))
        | inr (inl (x', e)) ↦ rw small (rw e Holds-err)
        | inr (inr e) ↦ rw small (rw e Holds-stuck)
      ]
]

send_response-capital :
    (stream_id : ℕ) (headers : List HpackHeader) (body : List ℕ) (c : H2Conn)
    → has_capital headers ≡ true
    → (send_response stream_id headers body true c).1.send_buf ≡ c.send_buf
unfolding send_response
send_response-capital stream_id headers body c h =
    elim (Result-cases (encode headers c.hpack_enc (Buffer.make 4096)).0) [
      | inl (out, e) ↦
          absurd ((encode-capital headers c.hpack_enc (Buffer.make 4096) h).holds out e)
      | inr (inl (x, e)) ↦ rw (send_response, e) refl
      | inr (inr e) ↦ rw (send_response, e) refl
    ]

map-send_buf :
    (o : Option H2Stream) (f : H2Stream → H2Conn) (b : RingBuffer) (c' : H2Conn)
    → ((s : H2Stream) → (f s).send_buf ≡ b)
    → Option.map f o ≡ some c'
    → c'.send_buf ≡ b
map-send_buf none f b c' same h = absurd cc
map-send_buf (some s) f b c' same h = ap (λ o. output o) (sym h) ∙ same s
  where
    output : Option H2Conn → RingBuffer
    output none = b
    output (some c) = c.send_buf

consume_body-send_buf :
    (stream_id n : ℕ) (c c' : H2Conn)
    → consume_body stream_id n c ≡ some c'
    → c'.send_buf ≡ c.send_buf
unfolding consume_body
consume_body-send_buf stream_id n c c' h =
    map-send_buf (find_stream stream_id c.streams) _ c.send_buf c' (λ s. refl) h

-- Where a header of the response on a stream that is there has a capital letter in its name, the
-- proxy sends nothing: what the connection has to write is what it was.
pub reply_to-capital :
    (stream_id n : ℕ) (headers : List HpackHeader) (body : List ℕ) (h2 h2' : H2Conn)
    → has_capital headers ≡ true
    → reply_to stream_id n (headers, body) h2 ≡ some h2'
    → pending_output h2' ≡ pending_output h2
unfolding reply_to pending_output
reply_to-capital stream_id n headers body h2 h2' capital h =
    ap (λ b. Buffer.peek (Buffer.readable b) b)
      (consume_body-send_buf stream_id n (send_response stream_id headers body true h2).1 h2' h
        ∙ send_response-capital stream_id headers body h2 capital)
