-- ===== src/Http1/Fields.antt =====
-- src/http1.cpp: the headers that the loop of `parse_headers` accepts.
use mathlib.Core.Option
use uproxy.Base.{
  ℕ, zero, suc, ◌+◌, ◌-◌, ◌^◌, ◌≤◌, ◌<◌, ◌≡◌, ◌≢◌, refl, sym, inl, inr, Bool, true, false, not,
  ◌||◌, List, [], ◌∷◌, ◌++◌, Option, none, some, Option-cases, arith, ltb, leb, ◌==◌, if◌then◌else◌,
  length, take, drop, length-take, length-append, get_or, codes, All,
}
use uproxy.Base.Text.{all, find, from_chars}
use uproxy.Http1.Message.{HttpHeader, max_header_name, max_header_value, max_header_count}
use uproxy.Http1.Parse.{
  crlf, is_blank, is_token_char, trim_ows, lower, valid_header_value, Fields, note_header,
  add_header, parse_field, parse_line, parse_lines,
}
use uproxy.Http1.Start.{no_fields}

-- A header that the parser lets through.
pub record IsHeader (h : HttpHeader) : Type 0 where
  pub name_pos : 0 < length h.name
  pub name_le : length h.name ≤ max_header_name
  pub name_token : all is_token_char h.name ≡ true
  pub value_le : length h.value ≤ max_header_value
  pub value_valid : valid_header_value h.value ≡ true

-- The headers so far, and no length that no header gave.
pub record IsFields (f : Fields) : Type 0 where
  pub count_le : length f.headers ≤ max_header_count
  pub valid : All IsHeader f.headers
  pub no_length : f.saw_content_length ≡ false → f.content_length ≡ 0

All-snoc :
    (hs : List HttpHeader) (h : HttpHeader)
    → All IsHeader hs
    → IsHeader h
    → All IsHeader (hs ++ h ∷ [])
All-snoc [] h a k = (k, tt)
All-snoc (g ∷ hs) h a k = (a.0, All-snoc hs h a.1 k)

map-some {ℓ κ} :
    {A : Type ℓ} {B : Type κ} (k : A → B) (o : Option A) (b : B)
    → Option.map k o ≡ some b
    → (a : A) × (o ≡ some a) × (k a ≡ b)
map-some k none b e = cc
map-some k (some a) b e = (a, refl, cc)

-- What a header's name changes, the headers apart.
note_header_lem :
    (r : Bool) (lname value : List ℕ) (f g : Fields)
    → note_header r lname value f ≡ some g
    → (f.saw_content_length ≡ false → f.content_length ≡ 0)
    → (g.headers ≡ f.headers) × (g.saw_content_length ≡ false → g.content_length ≡ 0)
unfolding note_header
note_header_lem r lname value f g e h = elim (Option-cases (from_chars 10 (2 ^ 64) value)) [
  | inl p ↦ ground (arith, e, p)
  | inr (n, p) ↦ ground (arith, e, p)
]

pub guard_some {ℓ} :
    {A : Type ℓ} (test : Bool) (o : Option A) (a : A)
    → (if test then none else o) ≡ some a
    → (test ≡ false) × (o ≡ some a)
guard_some true o a e = cc
guard_some false o a e = (refl, e)

-- A field that is accepted keeps the invariant.
parse_field_lem :
    (r : Bool) (colon c : ℕ) (cs : List ℕ) (f g : Fields)
    → parse_field r colon (c ∷ cs) f ≡ some g
    → IsFields f
    → IsFields g
unfolding parse_field
parse_field_lem r colon c cs f g e k =
    let name = take colon (c ∷ cs) in
    let value = trim_ows (drop (colon + 1) (c ∷ cs)) in
    let header : HttpHeader = record { name = name; value = value } in
    let (b₁, e₁) = guard_some (colon == 0 || is_blank (get_or (c ∷ cs) (colon - 1) 0)) _ g e in
    let (b₂, e₂) =
      guard_some (ltb max_header_name (length name) || not (all is_token_char name)) _ g e₁ in
    let (b₃, e₃) =
      guard_some (ltb max_header_value (length value) || not (valid_header_value value)) _ g e₂ in
    let (b₄, e₄) = guard_some (leb max_header_count (length f.headers)) _ g e₃ in
    let (f', e₅, added) = map-some (add_header header) (note_header r (lower name) value f) g e₄ in
    let (same, none_known) = note_header_lem r (lower name) value f f' e₅ k.no_length in
    let fine : IsHeader header = record {
      name_pos = ground (arith, length-take colon (c ∷ cs), b₁);
      name_le = ground (arith, b₂);
      name_token = ground (arith, b₂);
      value_le = ground (arith, b₃);
      value_valid = ground (arith, b₃);
    } in
    rw (sym added) (record {
      count_le = rw same (ground (arith, b₄, length-append f.headers (header ∷ [])));
      valid = rw same (All-snoc f.headers header k.valid fine);
      no_length = none_known;
    })

parse_line_lem :
    (r : Bool) (line : List ℕ) (f g : Fields)
    → parse_line r line f ≡ some g
    → IsFields f
    → IsFields g
unfolding parse_line
parse_line_lem r [] f g e k = cc
parse_line_lem r (c ∷ cs) f g e k =
    let (b, e₁) = guard_some (is_blank c) _ g e in
    elim (Option-cases (find (codes ":") (c ∷ cs))) [
      | inl p ↦ absurd (none_some g (rw p at e₁))
      | inr (colon, p) ↦ parse_field_lem r colon c cs f g (rw p at e₁) k
    ]
  where
    none_some : (g : Fields) → none ≢ some g
    none_some g = λ q. cc

-- The loop keeps the invariant, on errors too.
pub parse_lines_lem :
    (fuel : ℕ) (r : Bool) (block : List ℕ) (f : Fields)
    → IsFields f
    → IsFields (parse_lines fuel r block f).1
unfolding parse_lines
parse_lines_lem zero r block f k = k
parse_lines_lem (suc fuel) r block f k = elim (Option-cases (find crlf block)) [
  | inl p ↦ rw (p, parse_lines) k
  | inr (zero, p) ↦ rw (p, parse_lines) k
  | inr (suc n, p) ↦ elim (Option-cases (parse_line r (take (suc n) block) f)) [
    | inl q ↦ rw (p, parse_lines, q) k
    | inr (g, q) ↦
        rw (p, parse_lines, q)
          (parse_lines_lem fuel r (drop (suc n + 2) block) g
            (parse_line_lem r (take (suc n) block) f g q k))
  ]
]

pub no_fields-IsFields : (keep_alive : Bool) → IsFields (no_fields keep_alive)
no_fields-IsFields keep_alive = record { count_le = omega arith; valid = tt; no_length = λ q. refl }
