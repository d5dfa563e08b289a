-- ===== src/Pool/PageCache/Neighbours.antt =====
-- A span that is being released, and the spans next to it.
use projects_cpp.Prelude.{
  ℕ, suc, ◌+◌, ◌-◌, ◌^◌, ◌≡◌, ◌≢◌, ◌≤◌, ◌<◌, ◌⊎◌, ap, subst, ◌∙◌, some, List, inl, inr, arith,
  eq_or_ne,
}
use projects_cpp.Pool.PageCache.{Span, PageCache}
use projects_cpp.Pool.PageCache.Release.{without}
use projects_cpp.Pool.PageCache.Owned.{Owns}
use projects_cpp.Pool.PageCache.Popped.{Owns-unique, same_owner}
use projects_cpp.Pool.PageCache.Erased.{IsRemoved, without-cases}
use projects_cpp.Pool.PageCache.Joined.{IsBacked}
use projects_cpp.Pool.PageCache.Merging.{IsReleasing}

module _ (c : PageCache) (s : ℕ) (h : IsReleasing c s) where
  pub first_address : h.cur.page_id < 2 ^ 52
  first_address =
      let k = h.maps (h.cur.page_id + 0) s (h.owns.pages 0 h.pages) in omega (arith, k.address)

  -- A mapped page that is none of the span's is another span's.
  pub other_span :
      (q p : ℕ)
      → (k : IsBacked (λ t. t ≡ s) c q p) → (q < h.cur.page_id) ⊎ (h.cur.page_id + h.cur.npage ≤ q)
      → p ≢ s
  other_span q p k away same =
      let (page, size) = Owns-unique (subst (λ u. Owns c u k.own) same k.owns) h.owns in
      elim away [
        | inl before ↦ omega (arith, page, size, k.from, before)
        | inr behind ↦ omega (arith, page, size, k.below, behind)
      ]

  -- An unused neighbour can be erased from the list of its size.
  pub can_erase :
      (q p : ℕ)
      → (k : IsBacked (λ t. t ≡ s) c q p) → p ≢ s
      → k.own.usecount ≡ 0
      → (ys : List ℕ) × (without p (c.spanlist k.own.npage) ≡ some ys)
        × IsRemoved p (c.spanlist k.own.npage) ys
  can_erase q p k ne unused = elim (without-cases p (c.spanlist k.own.npage)) [
    | inr found_it ↦ found_it
    | inl off ↦ elim k.use_of [
      | inl same ↦ absurd (ne same)
      | inr (inl busy) ↦ absurd (busy unused)
      | inr (inr listed) ↦ absurd (listed off)
    ]
  ]

  -- The page that both would own belongs to one of them.
  owned_once :
      (p : ℕ) (own : Span) (i j : ℕ)
      → Owns c p own
      → i < own.npage
      → j < h.cur.npage
      → own.page_id + i ≡ h.cur.page_id + j
      → p ≡ s
  owned_once p own i j o lt lt2 e =
      same_owner (o.pages i lt) (ap c.idspanmap e ∙ h.owns.pages j lt2)

  pub front_adjacent :
      (q p : ℕ)
      → suc q ≡ h.cur.page_id
      → p ≢ s
      → (k : IsBacked (λ t. t ≡ s) c q p) → k.own.page_id + k.own.npage ≡ h.cur.page_id
  front_adjacent q p at ne k = elim (eq_or_ne (k.own.page_id + k.own.npage) h.cur.page_id) [
    | inl e ↦ e
    | inr other ↦ absurd (
        ne (
          owned_once p k.own (h.cur.page_id - k.own.page_id) 0 k.owns
            (omega (arith, other, at, k.below, k.from)) h.pages (omega (arith, at, k.from))))
  ]

  pub behind_adjacent :
      (q p : ℕ)
      → q ≡ h.cur.page_id + h.cur.npage
      → p ≢ s
      → (k : IsBacked (λ t. t ≡ s) c q p) → h.cur.page_id + h.cur.npage ≡ k.own.page_id
  behind_adjacent q p at ne k = elim (eq_or_ne (h.cur.page_id + h.cur.npage) k.own.page_id) [
    | inl e ↦ e
    | inr other ↦ absurd (
        ne (
          owned_once p k.own (q - 1 - k.own.page_id) (h.cur.npage - 1) k.owns
            (omega (arith, other, at, k.below, k.from)) (omega (arith, h.pages))
            (omega (arith, at, other, k.from, h.pages))))
  ]
