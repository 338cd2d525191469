-- ===== src/Proxy/Names.antt =====
-- src/proxy.cpp: `header_name_eq`.
use uproxy.Base.{
  ℕ, ◌≡◌, ◌↔◌, refl, sym, ap, ap₂, ◌∙◌, true, false, ◌&&◌, List, [], ◌∷◌, map, ◌==◌, ==_iff,
  Bool-cases, inl, inr,
}
use uproxy.Base.Text.{to_lower}
use uproxy.Proxy.Response.{header_name_eq}

-- Two names are equal for the proxy exactly if they are equal in lower case.
pub header_name_eq_lem :
    (xs ys : List ℕ) → (header_name_eq xs ys ≡ true) ↔ (map to_lower xs ≡ map to_lower ys)
unfolding header_name_eq
header_name_eq_lem [] [] = (λ h. refl, λ h. refl)
header_name_eq_lem [] (y ∷ ys) = (λ h. cc, λ h. cc)
header_name_eq_lem (x ∷ xs) [] = (λ h. cc, λ h. cc)
header_name_eq_lem (x ∷ xs) (y ∷ ys) =
    let (to, from) = header_name_eq_lem xs ys in
    (
      λ h. elim (Bool-cases (to_lower x == to_lower y)) [
        | inl same ↦
            ap₂ ◌∷◌ ((==_iff (to_lower x) (to_lower y)).0 same)
              (to (sym (ap (λ b. b && header_name_eq xs ys) same) ∙ h))
        | inr other ↦ absurd (true≢false (sym h ∙ ap (λ b. b && header_name_eq xs ys) other))
      ],
      λ h. rw ((==_iff (to_lower x) (to_lower y)).1 (head_eq h)) (from (tail_eq h)),
    )
  where
    true≢false : true ≡ false → ⊥
    true≢false h = cc

    head_eq : {a b : ℕ} {xs ys : List ℕ} → a ∷ xs ≡ b ∷ ys → a ≡ b
    head_eq h = cc

    tail_eq : {a b : ℕ} {xs ys : List ℕ} → a ∷ xs ≡ b ∷ ys → xs ≡ ys
    tail_eq h = cc
