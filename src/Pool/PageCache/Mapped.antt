-- ===== src/Pool/PageCache/Mapped.antt =====
-- The loops that enter the pages of a span in the map.
use projects_cpp.Prelude.{
  ℕ, zero, suc, ◌+◌, ◌<◌, ◌≡◌, ◌≢◌, ◌⊎◌, refl, sym, subst, ◌∙◌, Option, some, arith, update_self,
  update_ne, eq_or_ne, inl, inr,
}
use projects_cpp.Pool.PageCache.{map_pages}

pub map_pages_in :
    (m : ℕ → Option ℕ) (first n s i : ℕ) → i < n → map_pages m first n s (first + i) ≡ some s
map_pages_in m first zero s i h = absurd (omega arith)
map_pages_in m first (suc n) s i h = elim (eq_or_ne i n) [
  | inl e ↦
      subst (λ k. map_pages m first (suc n) s (first + k) ≡ some s) (sym e)
        (update_self (map_pages m first n s) (first + n) (some s))
  | inr ne ↦
      update_ne (map_pages m first n s) (first + n) (some s) (λ e. ne (omega arith))
      ∙ map_pages_in m first n s i (omega (arith, ne))
]

pub map_pages_out :
    (m : ℕ → Option ℕ) (first n s p : ℕ)
    → ((i : ℕ) → i < n → p ≢ first + i)
    → map_pages m first n s p ≡ m p
map_pages_out m first zero s p out = refl
map_pages_out m first (suc n) s p out =
    update_ne (map_pages m first n s) (first + n) (some s) (out n (omega arith))
    ∙ map_pages_out m first n s p (λ i h. out i (omega arith))

pub page_cases :
    (p first n : ℕ) → ((i : ℕ) × (i < n) × (p ≡ first + i)) ⊎ ((i : ℕ) → i < n → p ≢ first + i)
page_cases p first zero = inr (λ i h. absurd (omega arith))
page_cases p first (suc n) = elim (eq_or_ne p (first + n)) [
  | inl e ↦ inl (n, omega arith, e)
  | inr ne ↦ elim (page_cases p first n) [
    | inl (i, h, e) ↦ inl (i, omega arith, e)
    | inr out ↦
        inr (λ i h e. elim (eq_or_ne i n) [
          | inl k ↦ ne (omega arith)
          | inr k ↦ out i (omega arith) e
        ])
  ]
]
