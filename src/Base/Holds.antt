-- ===== src/Base/Holds.antt =====
-- include/uproxy/result.h: what holds of the value of a `Result`, if it has one.
use mathlib.Core.Path.{◌≡◌, refl, subst}
use mathlib.Core.Bool.{Bool, true, false}
use uproxy.Base.Tests.{if◌then◌else◌}
use uproxy.Base.Results.{Error, Result, ok, err, stuck, ◌>>=◌, fail_if}

pub record Holds {ℓ κ} {A : Type ℓ} (P : A → Type κ) (r : Result A) : Type (ℓ ⊔ κ) where
  pub holds : (a : A) → r ≡ ok a → P a

pub Holds-ok {ℓ κ} : {A : Type ℓ} {P : A → Type κ} {a : A} → P a → Holds P (ok a)
Holds-ok {P} p = record { holds = λ b e. subst P (cc) p }

pub Holds-err {ℓ κ} : {A : Type ℓ} {P : A → Type κ} {e : Error} → Holds P (err e)
Holds-err = record { holds = λ b e. cc }

pub Holds-stuck {ℓ κ} : {A : Type ℓ} {P : A → Type κ} → Holds P stuck
Holds-stuck = record { holds = λ b e. cc }

pub Holds-bind {ℓ κ μ ν} :
    {A : Type ℓ} {B : Type κ} {P : A → Type μ} {Q : B → Type ν} (r : Result A) {f : A → Result B}
    → Holds P r
    → ((a : A) → P a → Holds Q (f a))
    → Holds Q (r >>= f)
Holds-bind (ok a) h k = k a (h.holds a refl)
Holds-bind (err e) h k = Holds-err
Holds-bind stuck h k = Holds-stuck

pub Holds-if {ℓ κ} :
    {A : Type ℓ} {P : A → Type κ} (test : Bool) {r s : Result A}
    → Holds P r
    → Holds P s
    → Holds P (if test then r else s)
Holds-if true p q = p
Holds-if false p q = q

pub Holds-fail_if {ℓ κ} :
    {A : Type ℓ} {P : A → Type κ} (test : Bool) (e : Error) {r : Result A}
    → (test ≡ false → Holds P r)
    → Holds P (fail_if test e r)
Holds-fail_if true e h = Holds-err
Holds-fail_if false e h = h refl

pub Holds-map {ℓ κ μ} :
    {A : Type ℓ} {P : A → Type κ} {Q : A → Type μ} {r : Result A}
    → ((a : A) → P a → Q a)
    → Holds P r
    → Holds Q r
Holds-map f h = record { holds = λ a e. f a (h.holds a e) }
