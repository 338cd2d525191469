-- ===== src/Buffer/Window.antt =====
-- src/buffer.cpp: a circular window of the storage, as a list, under reading and writing.
use mathlib.Core.List.{append-nil, append_assoc}
use native.Mathlib.Nat.{mod-eq_of_lt, mod-eq-sub-mod}
use uproxy.Base.{
  ℕ, ◌+◌, ◌-◌, ◌%◌, ◌≤◌, ◌<◌, ◌≡◌, sym, ap, ◌∙◌, ◌⊎◌, inl, inr, List, ◌++◌, arith, length, take,
  drop, length-append, length-take, length-drop, take-append, drop-append, take_all, drop_all,
  drop-drop, drop-take, dec_lt, take-append_exact, drop-append_exact, take-length-append,
}
use uproxy.Buffer.{store}

module _ {ℓ} {A : Type ℓ} where
  -- The `s` elements of `d` from index `p` on, going round its end.
  abbrev pub window : ℕ → ℕ → List A → List A
  window p s d = take s (drop p d ++ d)

  pub window_split :
      (p s : ℕ) (d : List A) → window p s d ≡ take s (drop p d) ++ take (s - (length d - p)) d
  window_split p s d =
      take-append s (drop p d) d ∙ ap (λ k. take s (drop p d) ++ take (s - k) d) (length-drop p d)

  pub window_straight : (p s : ℕ) (d : List A) → p + s ≤ length d → window p s d ≡ take s (drop p d)
  window_straight p s d h =
      let e : s - (length d - p) ≡ 0 = omega arith in window_split p s d ∙ rw e (append-nil _)

  pub window_round :
      (p s : ℕ) (d : List A)
      → length d ≤ p + s
      → window p s d ≡ drop p d ++ take (s - (length d - p)) d
  window_round p s d h =
      window_split p s d
      ∙ ap (λ k. k ++ take (s - (length d - p)) d)
          (take_all s (drop p d) (omega (arith, length-drop p d)))

  -- Reading `n` elements moves the start of the window round by `n`.
  pub window-drop :
      (p n s : ℕ) (d : List A)
      → p < length d
      → n ≤ s
      → s ≤ length d
      → window ((p + n) % length d) (s - n) d ≡ drop n (window p s d)
  window-drop p n s d hp hn hs = elim (dec_lt (p + n) (length d)) [
    | yes q ↦
        let e : n - (length d - p) ≡ 0 = omega arith in
        rw (mod-eq_of_lt q, drop-take, drop-append, drop-drop, length-drop, e)
    | no q ↦
        let p' = p + n - length d in
        let e : n - (length d - p) ≡ p' = omega arith in
        let m : (p + n) % length d ≡ p' =
          mod-eq-sub-mod {n = p + n} {m = length d} (omega arith)
          ∙ mod-eq_of_lt {n = p'} {m = length d} (omega arith) in
        rw (
          m,
          window_straight p' (s - n) d (omega arith),
          drop-take,
          drop-append,
          drop-drop,
          length-drop,
          e,
          drop_all (p + n) d (omega arith),
        )
  ]

module _ (d c : List ℕ) (w : ℕ) (fits : w + length c ≤ length d) where
  pub length-store : length (store d w c) ≡ length d
  unfolding store
  length-store = omega (
    arith,
    length-append (take w d) (c ++ drop (w + length c) d),
    length-append c (drop (w + length c) d),
    length-take w d,
    length-drop (w + length c) d,
  )

  take-store : take (w + length c) (store d w c) ≡ take w d ++ c
  unfolding store
  take-store =
      let e : length (take w d) ≡ w = omega (arith, length-take w d) in
      ap (λ k. take (k + length c) (take w d ++ (c ++ drop (w + length c) d))) (sym e)
      ∙ take-append_exact (length c) (take w d) (c ++ drop (w + length c) d)
      ∙ ap (λ k. take w d ++ k) (take-length-append c (drop (w + length c) d))

  drop-store : (p : ℕ) → w + length c ≤ p → drop p (store d w c) ≡ drop p d
  unfolding store
  drop-store p h =
      let e : length (take w d) ≡ w = omega (arith, length-take w d) in
      let e₁ : p ≡ length (take w d) + (p - w) = omega arith in
      let e₂ : p - w ≡ length c + (p - w - length c) = omega arith in
      let e₃ : w + length c + (p - w - length c) ≡ p = omega arith in
      ap (λ k. drop k (take w d ++ (c ++ drop (w + length c) d))) e₁
      ∙ drop-append_exact (p - w) (take w d) (c ++ drop (w + length c) d)
      ∙ ap (λ k. drop k (c ++ drop (w + length c) d)) e₂
      ∙ drop-append_exact (p - w - length c) c (drop (w + length c) d)
      ∙ drop-drop (p - w - length c) (w + length c) d
      ∙ ap (λ k. drop k d) e₃

  -- Writing behind a window that does not go round extends it.
  pub window-store_straight :
      (p s : ℕ) → w ≡ p + s → window p (s + length c) (store d w c) ≡ window p s d ++ c
  unfolding store
  window-store_straight p s h =
      let rest = drop (w + length c) d in
      let e : w - p ≡ s = omega arith in
      let z : p - length (take w d) ≡ 0 = omega (arith, length-take w d) in
      let len : length (take s (drop p d)) ≡ s =
        omega (arith, length-take s (drop p d), length-drop p d) in
      window_straight p (s + length c) (store d w c) (omega (arith, length-store))
      ∙ ap (take (s + length c)) (drop-append p (take w d) (c ++ rest))
      ∙ ap (λ k. take (s + length c) (drop p (take w d) ++ drop k (c ++ rest))) z
      ∙ ap (λ k. take (s + length c) (k ++ (c ++ rest))) (drop-take p w d)
      ∙ ap (λ k. take (s + length c) (take k (drop p d) ++ (c ++ rest))) e
      ∙ ap (λ k. take (k + length c) (take s (drop p d) ++ (c ++ rest))) (sym len)
      ∙ take-append_exact (length c) (take s (drop p d)) (c ++ rest)
      ∙ ap (λ k. take s (drop p d) ++ k) (take-length-append c rest)
      ∙ ap (λ k. k ++ c) (sym (window_straight p s d (omega arith)))

  -- So does writing at the front, where the window goes round.
  pub window-store_round :
      (p s : ℕ)
      → p ≤ length d
      → w + length d ≡ p + s
      → s + length c ≤ length d
      → window p (s + length c) (store d w c) ≡ window p s d ++ c
  window-store_round p s hp h hs =
      let e : s - (length d - p) ≡ w = omega arith in
      let e' : s + length c - (length (store d w c) - p) ≡ w + length c =
        omega (arith, length-store) in
      window_round p (s + length c) (store d w c) (omega (arith, length-store))
      ∙ ap (λ k. drop p (store d w c) ++ take k (store d w c)) e'
      ∙ ap (λ k. drop p (store d w c) ++ k) take-store
      ∙ ap (λ k. k ++ (take w d ++ c)) (drop-store p (omega arith))
      ∙ sym (append_assoc (drop p d) (take w d) c)
      ∙ ap (λ k. drop p d ++ take k d ++ c) (sym e)
      ∙ ap (λ k. k ++ c) (sym (window_round p s d (omega arith)))

-- A step of at most one turn from a position of the storage.
pub turn :
    (p n c : ℕ)
    → p < c
    → n ≤ c
    → ((p + n < c) × ((p + n) % c ≡ p + n)) ⊎ ((c ≤ p + n) × ((p + n) % c + c ≡ p + n))
turn p n c hp hn = elim (dec_lt (p + n) c) [
  | yes q ↦ inl (q, mod-eq_of_lt q)
  | no q ↦ inr (
    omega arith,
    omega (
      arith,
      mod-eq-sub-mod {n = p + n} {m = c} (omega arith),
      mod-eq_of_lt {n = p + n - c} {m = c} (omega arith),
    ),
  )
]

pub turn_whole : (p n k c : ℕ) → p < c → p + n ≡ c → k ≡ n → (p + k) % c ≡ 0
turn_whole p n k c hp e q =
    let s : p + k ≡ c = omega arith in
    let m = mod-eq-sub-mod {n = p + k} {m = c} (omega arith) in
    let z : p + k - c ≡ 0 = omega arith in
    m ∙ ap (λ t. t % c) z ∙ mod-eq_of_lt {n = 0} {m = c} (omega arith)
