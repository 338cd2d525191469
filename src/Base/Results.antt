-- ===== src/Base/Results.antt =====
-- include/uproxy/result.h: `ErrCode`, `Error` and `Result<T>` as the modelled code uses them.
use Prim.Native.Nat.{ℕ}
use Prim.Native.String.{String}
use mathlib.Core.List.{List}
use mathlib.Core.Path.{◌≡◌, refl}
use mathlib.Core.Logic.{◌⊎◌, inl, inr}
use mathlib.Core.Bool.{Bool, true, false}
use uproxy.Base.Bytes.{codes}

pub data ErrCode : Type 0 where
  ok_code sys_error would_block eof http_malformed http2_protocol hpack_error : ErrCode
  config_syntax config_invalid tls_handshake tls_io no_upstream timeout : ErrCode

pub record Error : Type 0 where
  pub code : ErrCode
  pub sys_errno : ℕ
  pub msg : List ℕ

-- `Error::from_code` with a text that the program holds.
abbrev pub from_code_text : ErrCode → List ℕ → Error
from_code_text c m = record { code = c; sys_errno = 0; msg = m }

-- `Error::from_code` with a literal.
abbrev pub from_code : ErrCode → String → Error
from_code c m = from_code_text c (codes m)

-- `Error::from_errno`: what `errno` holds is an argument.
abbrev pub from_errno : ℕ → String → Error
from_errno errno ctx = record { code = sys_error; sys_errno = errno; msg = codes ctx }

-- `stuck` is no value of the source: a loop of the model ran out of its fuel, or of the answers of
-- the system that it is given.
pub data Result {ℓ} (A : Type ℓ) : Type ℓ where
  ok : A → Result A
  err : Error → Result A
  stuck : Result A

infixl 5 ◌>>=◌
abbrev pub ◌>>=◌ {ℓ κ} : {A : Type ℓ} {B : Type κ} → Result A → (A → Result B) → Result B
ok a >>= f = f a
err e >>= f = err e
stuck >>= f = stuck

-- `if (test) return err;` in front of the rest.
abbrev pub fail_if {ℓ} : {A : Type ℓ} → Bool → Error → Result A → Result A
fail_if true e r = err e
fail_if false e r = r

-- What a chain and a guard that succeeded went through.
pub bind-eq-ok {ℓ κ} :
    {A : Type ℓ} {B : Type κ} (r : Result A) (f : A → Result B) {b : B}
    → r >>= f ≡ ok b
    → (a : A) × (r ≡ ok a) × (f a ≡ ok b)
bind-eq-ok (ok a) f h = (a, refl, h)
bind-eq-ok (err e) f h = cc
bind-eq-ok stuck f h = cc

pub fail_if-eq-ok {ℓ} :
    {A : Type ℓ} (test : Bool) (e : Error) (r : Result A) {a : A}
    → fail_if test e r ≡ ok a
    → (test ≡ false) × (r ≡ ok a)
fail_if-eq-ok true e r h = cc
fail_if-eq-ok false e r h = (refl, h)

pub Result-cases {ℓ} :
    {A : Type ℓ} (r : Result A)
    → ((a : A) × (r ≡ ok a)) ⊎ (((e : Error) × (r ≡ err e)) ⊎ (r ≡ stuck))
Result-cases (ok a) = inl (a, refl)
Result-cases (err e) = inr (inl (e, refl))
Result-cases stuck = inr (inr refl)
