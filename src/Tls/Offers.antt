-- ===== src/Tls/Offers.antt =====
-- src/tls.cpp: `alpn_select_cb` on the offers of a client.
use mathlib.Core.List.{append_assoc}
use uproxy.Base.{
  ℕ, String, zero, suc, ◌+◌, ◌-◌, ◌≡◌, ◌≤◌, ◌<◌, refl, sym, ap, ap₂, ◌∙◌, arith, Bool, false, true,
  ◌||◌, List, [], ◌∷◌, ◌++◌, some, inl, inr, ltb, Bool-cases, length, take, drop, get_elem?,
  bytes_eq, codes, ok, ◌>>=◌, length-append, length-drop, length-take, take-append-drop,
  take-length-append, drop-length-append, drop-drop,
}
use uproxy.Base.Text.{any}
use uproxy.Tls.Alpn.{select, note, scan_offers, alpn_select_cb}

-- Names as they are offered, each behind its length.
abbrev pub encode : List (List ℕ) → List ℕ
encode [] = []
encode (name ∷ names) = length name ∷ name ++ encode names

-- The end of the list, or an offer that is longer than what is left.
abbrev pub IsCut : List ℕ → Type 0
IsCut [] = Unit
IsCut (len ∷ bytes) = length bytes < len

abbrev pub offers : String → List (List ℕ) → Bool
offers proto names = any (λ name. bytes_eq name (codes proto)) names

module _ {ℓ} {A : Type ℓ} where
  -- The first element behind `n`, and what follows it.
  get_elem?-drop :
      (n : ℕ) (xs : List A) {x : A} {rest : List A} → drop n xs ≡ x ∷ rest → get_elem? xs n ≡ some x
  get_elem?-drop zero [] e = absurd cc
  get_elem?-drop zero (y ∷ ys) e = cc
  get_elem?-drop (suc n) [] e = absurd cc
  get_elem?-drop (suc n) (x ∷ xs) e = get_elem?-drop n xs e

  drop-tail :
      (n : ℕ) (xs : List A) {x : A} {rest : List A} → drop n xs ≡ x ∷ rest → drop (n + 1) xs ≡ rest
  drop-tail n xs e = sym (drop-drop 1 n xs) ∙ ap (λ ys. drop 1 ys) e

abbrev seen_in : List (List ℕ) → Bool × Bool → Bool × Bool
seen_in [] seen = seen
seen_in (name ∷ names) seen = seen_in names (note name seen)

scan_offers-seen :
    (n : ℕ) (bytes : List ℕ) (i : ℕ) (seen : Bool × Bool) (names : List (List ℕ)) (tail : List ℕ)
    → IsCut tail
    → drop i bytes ≡ encode names ++ tail
    → i ≤ length bytes
    → length bytes < n + i
    → scan_offers n bytes i seen ≡ ok (seen_in names seen)
unfolding scan_offers
scan_offers-seen zero bytes i seen names tail cut e within enough = absurd (omega arith)
scan_offers-seen (suc n) bytes i seen [] [] cut e within enough =
    let size : length bytes - i ≡ 0 = sym (length-drop i bytes) ∙ ap length e in
    let over : ltb i (length bytes) ≡ false = ground (arith, size) in rw (scan_offers, over) refl
scan_offers-seen (suc n) bytes i seen [] (len ∷ ys) cut e within enough =
    let size : length bytes - i ≡ suc (length ys) = sym (length-drop i bytes) ∙ ap length e in
    let inside : ltb i (length bytes) ≡ true = ground (arith, size) in
    let long : ltb (length bytes) (i + 1 + len) ≡ true = ground (arith, size, cut) in
    rw (scan_offers, inside, get_elem?-drop i bytes e, long) refl
scan_offers-seen (suc n) bytes i seen (name ∷ names) tail cut e within enough =
    let rest : List ℕ = name ++ (encode names ++ tail) in
    let e' : drop i bytes ≡ length name ∷ rest =
      e ∙ ap (◌∷◌ (length name)) (append_assoc name (encode names) tail) in
    let size : length bytes - i ≡ suc (length rest) = sym (length-drop i bytes) ∙ ap length e' in
    let parts : length rest ≡ length name + length (encode names ++ tail) =
      length-append name (encode names ++ tail) in
    let inside : ltb i (length bytes) ≡ true = ground (arith, size) in
    let fits : ltb (length bytes) (i + 1 + length name) ≡ false = ground (arith, size, parts) in
    let behind : drop (i + 1) bytes ≡ rest = drop-tail i bytes e' in
    let taken : take (length name) (drop (i + 1) bytes) ≡ name =
      ap (take (length name)) behind ∙ take-length-append name (encode names ++ tail) in
    let next : drop (i + 1 + length name) bytes ≡ encode names ++ tail =
      sym (drop-drop (length name) (i + 1) bytes)
      ∙ ap (drop (length name)) behind
      ∙ drop-length-append name (encode names ++ tail) in
    rw (scan_offers, inside, get_elem?-drop i bytes e', fits, taken)
      (scan_offers-seen n bytes (i + 1 + length name) (note name seen) names tail cut next
        (omega (arith, size, parts, within)) (omega (arith, enough)))

or_false : (a : Bool) → a ≡ (a || false)
or_false true = refl
or_false false = refl

or_assoc : (a b c : Bool) → ((a || b) || c) ≡ (a || (b || c))
or_assoc true b c = refl
or_assoc false b c = refl

seen_in-offers :
    (names : List (List ℕ)) (a b : Bool)
    → seen_in names (a, b) ≡ (a || offers "h2" names, b || offers "http/1.1" names)
unfolding note
seen_in-offers [] a b = ap₂ (λ x y. (x, y)) (or_false a) (or_false b)
seen_in-offers (name ∷ names) a b =
    seen_in-offers names _ _ ∙ ap₂ (λ x y. (x, y)) (or_assoc a _ _) (or_assoc b _ _)

-- Any bytes are some offers, up to one that is too long.
read_offers :
    (n : ℕ) (bytes : List ℕ)
    → length bytes ≤ n
    → (names : List (List ℕ)) × (tail : List ℕ) × (bytes ≡ encode names ++ tail) × IsCut tail
read_offers n [] h = ([], [], refl, tt)
read_offers zero (len ∷ ys) h = absurd (omega arith)
read_offers (suc n) (len ∷ ys) h = elim (Bool-cases (ltb (length ys) len)) [
  | inl long ↦ ([], len ∷ ys, refl, ground (arith, long))
  | inr fits ↦
      let (names, tail, e, cut) =
        read_offers n (drop len ys) (let d = length-drop len ys in omega (arith, h, d)) in
      let size : len ≡ length (take len ys) =
        (let t = length-take len ys in ground (arith, t, fits)) in
      let parts : ys ≡ (take len ys ++ encode names) ++ tail =
        sym (take-append-drop len ys)
        ∙ ap (◌++◌ (take len ys)) e
        ∙ sym (append_assoc (take len ys) (encode names) tail) in
      (take len ys ∷ names, tail, ap₂ ◌∷◌ size parts, cut)
]

-- `alpn_select_cb` reads nothing behind the bytes of the client and always ends. They are the
-- encoding of some names, up to the end or to an offer that is longer than what is left; if "h2"
-- is among the names, it is chosen, else "http/1.1" if that is, else nothing.
pub alpn_select_cb_lem :
    (bytes : List ℕ)
    → (names : List (List ℕ)) × (tail : List ℕ) × (bytes ≡ encode names ++ tail)
      × IsCut tail
      × (alpn_select_cb bytes ≡ ok (select (offers "h2" names) (offers "http/1.1" names)))
unfolding alpn_select_cb
alpn_select_cb_lem bytes =
    let (names, tail, e, cut) = read_offers (length bytes) bytes (omega arith) in
    let seen =
      scan_offers-seen (suc (length bytes)) bytes 0 (false, false) names tail cut e (omega arith)
        (omega arith)
      ∙ ap ok (seen_in-offers names false false) in
    (names, tail, e, cut, ap (λ r. r >>= λ (has_h2, has_h1). ok (select has_h2 has_h1)) seen)
