-- ===== src/Base/Map.antt =====
-- The maps of the sources from numbers (`std::unordered_map`) as association lists. They are
-- compared by what a look-up finds, since the order of the entries is not specified.
use Prim.Native.Nat.{ℕ}
use mathlib.Core.Path.{◌≡◌, refl, sym, ◌∙◌}
use mathlib.Core.Logic.{◌≢◌, ◌⊎◌, inl, inr}
use mathlib.Core.Bool.{Bool, true, false}
use mathlib.Core.List.{List, [], ◌∷◌}
use mathlib.Core.Option.{Option, none, some}
use native.Mathlib.Omega.{arith}
use uproxy.Base.Tests.{if◌then◌else◌, ◌==◌}

module _ {ℓ} {V : Type ℓ} where
  abbrev pub find : ℕ → List (ℕ × V) → Option V
  find k [] = none
  find k ((key, v) ∷ m) = let later = find k m in if k == key then some v else later

  abbrev pub erase : ℕ → List (ℕ × V) → List (ℕ × V)
  erase k [] = []
  erase k ((key, v) ∷ m) = let later = erase k m in if k == key then later else (key, v) ∷ later

  -- `m[k] = v`
  abbrev pub assign : ℕ → V → List (ℕ × V) → List (ℕ × V)
  assign k v m = (k, v) ∷ erase k m

  -- `m.emplace(k, v)`, which keeps an entry that is there.
  abbrev pub emplace : ℕ → V → List (ℕ × V) → List (ℕ × V)
  emplace k v m = elim (find k m) [ none ↦ (k, v) ∷ m | some old ↦ m ]

module _ {ℓ} {V : Type ℓ} where
  pub find-erase :
      (j k : ℕ) (m : List (ℕ × V)) → find j (erase k m) ≡ (if j == k then none else find j m)
  find-erase j k [] = ground arith
  find-erase j k ((key, v) ∷ m) = ground (arith, find-erase j k m)

  pub find-assign :
      (j k : ℕ) (v : V) (m : List (ℕ × V))
      → find j (assign k v m) ≡ (if j == k then some v else find j m)
  find-assign j k v m = ground (arith, find-erase j k m)

  pub find-emplace :
      (j k : ℕ) (v : V) (m : List (ℕ × V))
      → find k m ≡ none
      → find j (emplace k v m) ≡ (if j == k then some v else find j m)
  find-emplace j k v m h = rw (emplace, h) refl

  pub find-erase_ne : {j k : ℕ} (m : List (ℕ × V)) → j ≢ k → find j (erase k m) ≡ find j m
  find-erase_ne {j} {k} m ne = ground (arith, find-erase j k m)

  pub find-erase-some :
      (j k : ℕ) (m : List (ℕ × V)) {v : V}
      → find j (erase k m) ≡ some v
      → (j ≢ k) × (find j m ≡ some v)
  find-erase-some j k m h = ground (arith, find-erase j k m)

  pub find-assign_ne :
      {j k : ℕ} (v : V) (m : List (ℕ × V)) → j ≢ k → find j (assign k v m) ≡ find j m
  find-assign_ne {j} {k} v m ne = ground (arith, find-assign j k v m)

  pub find-assign_self : (k : ℕ) (v : V) (m : List (ℕ × V)) → find k (assign k v m) ≡ some v
  find-assign_self k v m = ground (arith, find-assign k k v m)

  chosen-some :
      (j k : ℕ) (b : Bool) {v w : V} {o : Option V}
      → (j == k) ≡ b
      → (if b then some v else o) ≡ some w
      → ((j ≡ k) × (v ≡ w)) ⊎ ((j ≢ k) × (o ≡ some w))
  chosen-some j k true e h = inl (ground (arith, e), cc)
  chosen-some j k false e h = inr (ground (arith, e), h)

  -- Where a look-up behind a change comes from.
  pub find-assign-some :
      (j k : ℕ) (v : V) (m : List (ℕ × V)) {w : V}
      → find j (assign k v m) ≡ some w
      → ((j ≡ k) × (v ≡ w)) ⊎ ((j ≢ k) × (find j m ≡ some w))
  find-assign-some j k v m h = chosen-some j k (j == k) refl (sym (find-assign j k v m) ∙ h)

  pub find-emplace-some :
      (j k : ℕ) (v : V) (m : List (ℕ × V)) {w : V}
      → find k m ≡ none
      → find j (emplace k v m) ≡ some w
      → ((j ≡ k) × (v ≡ w)) ⊎ ((j ≢ k) × (find j m ≡ some w))
  find-emplace-some j k v m free h =
      chosen-some j k (j == k) refl (sym (find-emplace j k v m free) ∙ h)

  pub find-emplace_ne :
      {j k : ℕ} (v : V) (m : List (ℕ × V))
      → find k m ≡ none
      → j ≢ k
      → find j (emplace k v m) ≡ find j m
  find-emplace_ne {j} {k} v m free ne = ground (arith, find-emplace j k v m free)

  pub find-emplace_self :
      (k : ℕ) (v : V) (m : List (ℕ × V)) → find k m ≡ none → find k (emplace k v m) ≡ some v
  find-emplace_self k v m free = ground (arith, find-emplace k k v m free)
