-- ===== src/Config/Address.antt =====
-- src/config.cpp: an upstream on the command line is read back from its text.
use uproxy.Base.{
  ℕ, suc, ◌+◌, ◌-◌, ◌<◌, ◌≡◌, ◌≢◌, refl, ap, ◌∙◌, ◌^◌, false, List, [], ◌∷◌, ◌++◌, none, some, ◌==◌,
  arith, length, take, drop, All, codes, ok, take-length-append, drop-append_exact,
}
use uproxy.Base.Text.{find, to_string}
use uproxy.Config.Numbers.{IsDigit, to_string-IsDigit, parse_u32-to_string, parse_port-to_string}
use uproxy.Config.Cli.{named_upstream, parse_weight_option, parse_upstream_cli}

abbrev pub IsNotColon : ℕ → Type 0
IsNotColon c = c ≢ 58

find-none : (xs : List ℕ) → All IsNotColon xs → find (codes ":") xs ≡ none
find-none [] a = refl
find-none (x ∷ xs) a =
    let other : (58 == x) ≡ false = ground (arith, a.0) in
    rw (find, other) (rw (find-none xs a.1) refl)

find-colon :
    (xs ys : List ℕ) → All IsNotColon xs → find (codes ":") (xs ++ 58 ∷ ys) ≡ some (length xs)
find-colon [] ys a = refl
find-colon (x ∷ xs) ys a =
    let other : (58 == x) ≡ false = ground (arith, a.0) in
    rw (find, other) (rw (find-colon xs ys a.1) refl)

All-IsDigit-IsNotColon : (xs : List ℕ) → All IsDigit xs → All IsNotColon xs
All-IsDigit-IsNotColon [] a = tt
All-IsDigit-IsNotColon (x ∷ xs) a = (ground arith, All-IsDigit-IsNotColon xs a.1)

-- `addr:port` is read as the upstream with this address and port, of weight 1.
pub parse_upstream_cli-named :
    (addr : List ℕ) (port : ℕ)
    → All IsNotColon addr
    → 0 < port
    → port < 65536
    → parse_upstream_cli (addr ++ 58 ∷ to_string port) ≡ ok (named_upstream addr port)
unfolding parse_upstream_cli
parse_upstream_cli-named addr port plain positive fits =
    let digits = All-IsDigit-IsNotColon (to_string port) (to_string-IsDigit port) in
    rw (parse_upstream_cli, find-colon addr (to_string port) plain)
      (rw (drop-append_exact 1 addr (58 ∷ to_string port)) (
        rw (find-none (to_string port) digits) (
          rw (drop-append_exact 1 addr (58 ∷ to_string port)) (
            rw (parse_port-to_string port (codes "invalid upstream port") positive fits)
              (rw (take-length-append addr (58 ∷ to_string port)) refl)))))

-- An upstream that is written as `addr:port:weight=w`, with an address that has no colon, a port
-- from 1 to 65535 and a positive weight below 2 ^ 32, is read back with this address, port and
-- weight.
pub parse_upstream_cli-weighted :
    (addr : List ℕ) (port : ℕ)
    → All IsNotColon addr
    → 0 < port
    → port < 65536
    → (w : ℕ) → 0 < w
    → w < 2 ^ 32
    → parse_upstream_cli (addr ++ 58 ∷ (to_string port ++ 58 ∷ (codes "weight=" ++ to_string w)))
      ≡ ok (record (named_upstream addr port) { weight = w })
unfolding parse_upstream_cli parse_weight_option
parse_upstream_cli-weighted addr port plain positive fits w some_weight small =
    let digits = All-IsDigit-IsNotColon (to_string port) (to_string-IsDigit port) in
    let option = codes "weight=" ++ to_string w in
    let tail = to_string port ++ 58 ∷ option in
    let port_text : take (length addr + 1 + length (to_string port) - length addr - 1) tail
        ≡ to_string port =
      ap (λ k. take k tail) (omega arith) ∙ take-length-append (to_string port) (58 ∷ option) in
    let past : length addr + 1 + length (to_string port) + 1
        ≡ length addr + suc (length (to_string port) + 1) =
      omega arith in
    let suffix_text : drop (length addr + 1 + length (to_string port) + 1) (addr ++ 58 ∷ tail)
        ≡ option =
      ap (λ k. drop k (addr ++ 58 ∷ tail)) past
      ∙ drop-append_exact (suc (length (to_string port) + 1)) addr (58 ∷ tail)
      ∙ drop-append_exact 1 (to_string port) (58 ∷ option) in
    let positive_weight : (w == 0) ≡ false = ground arith in
    rw (parse_upstream_cli, find-colon addr tail plain)
      (rw (drop-append_exact 1 addr (58 ∷ tail)) (
        rw (find-colon (to_string port) option digits) (
          rw (drop-append_exact 1 addr (58 ∷ tail)) (
            rw (port_text, suffix_text)
              (rw (parse_port-to_string port (codes "invalid upstream port") positive fits) (
                rw (take-length-append addr (58 ∷ tail)) (
                  rw (parse_u32-to_string w (codes "invalid upstream weight") small)
                    (rw positive_weight refl))))))))
