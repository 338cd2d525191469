-- ===== src/Tls/Alpn.antt =====
-- src/tls.cpp: `alpn_select_cb`, which chooses a protocol from those that a client offers. The
-- offers come as one list of bytes, each with its length in front.
use uproxy.Base.{
  ℕ, zero, suc, ◌+◌, Bool, false, true, ◌||◌, List, Option, none, some, ltb, if◌then◌else◌, length,
  take, drop, get_elem?, bytes_eq, codes, Result, ok, stuck, ◌>>=◌,
}

-- `some` name with SSL_TLSEXT_ERR_OK, `none` for SSL_TLSEXT_ERR_NOACK.
unfoldable pub select : Bool → Bool → Option (List ℕ)
select true has_h1 = some (codes "h2")
select false true = some (codes "http/1.1")
select false false = none

-- `has_h2` and `has_h1`, behind one more name.
unfoldable pub note : List ℕ → Bool × Bool → Bool × Bool
note proto (has_h2, has_h1) =
    (has_h2 || bytes_eq proto (codes "h2"), has_h1 || bytes_eq proto (codes "http/1.1"))

-- The loop from position `i`, on fuel. To read behind the end is `stuck`.
unfoldable pub scan_offers : ℕ → List ℕ → ℕ → Bool × Bool → Result (Bool × Bool)
unfolding note
scan_offers zero bytes i seen = stuck
scan_offers (suc n) bytes i seen =
    let round : Result (Bool × Bool) = elim (get_elem? bytes i) [
      | none ↦ stuck
      | some len ↦
          let proto = take len (drop (i + 1) bytes) in
          let rest = scan_offers n bytes (i + 1 + len) (note proto seen) in
          if ltb (length bytes) (i + 1 + len) then ok seen else rest
    ] in
    if ltb i (length bytes) then round else ok seen

-- Each round of the loop takes a byte at least.
unfoldable pub alpn_select_cb : List ℕ → Result (Option (List ℕ))
unfolding select scan_offers
alpn_select_cb bytes =
    scan_offers (suc (length bytes)) bytes 0 (false, false) >>= λ (has_h2, has_h1).
    ok (select has_h2 has_h1)
