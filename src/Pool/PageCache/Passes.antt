-- ===== src/Pool/PageCache/Passes.antt =====
-- The passes of the loops of ReleaseSpanToPageCache, in a cache where each unused span is listed.
use projects_cpp.Prelude.{
  ℕ, suc, ◌+◌, ◌-◌, ◌^◌, ◌≡◌, ◌≢◌, ◌<◌, ◌⊎◌, ◌==◌, refl, sym, ap, subst, ◌∙◌, inl, inr, arith, true,
  false, ltb, leb, if◌then◌else◌, Bool-cases, Option-cases,
}
use projects_cpp.Pool.SizeClass.{npages, sub_size}
use projects_cpp.Pool.PageCache.{PageCache}
use projects_cpp.Pool.PageCache.Release.{
  Pass, stop, again, found, mapped, known, erase_list, erase, merge, merged, back_to, back_from,
  back_pass, forward_to, forward_from, forward_pass,
}
use projects_cpp.Pool.PageCache.Popped.{popped}
use projects_cpp.Pool.PageCache.Joined.{IsBacked}
use projects_cpp.Pool.PageCache.Merging.{
  IsReleasing, KeepsUsed, front-IsReleasing, front-KeepsUsed, front_grows, behind-IsReleasing,
  behind-KeepsUsed, behind_grows,
}
use projects_cpp.Pool.PageCache.Neighbours.{
  first_address, other_span, can_erase, front_adjacent, behind_adjacent,
}

-- A pass leaves the loop, or goes on with a span of more pages that is being released.
abbrev pub IsProgress : (c : PageCache) (s : ℕ) → IsReleasing c s → Pass → Type 0
IsProgress c s h pass =
    (pass ≡ stop)
    ⊎ ((t : ℕ) × (d : PageCache) × (pass ≡ again t d)
        × (k : IsReleasing d t) × (h.cur.npage < k.cur.npage)
        × KeepsUsed c d)

module _ (c : PageCache) (s : ℕ) (h : IsReleasing c s) where
  back_to-IsProgress :
      (q p : ℕ)
      → suc q ≡ h.cur.page_id
      → (k : IsBacked (λ t. t ≡ s) c q p) → IsProgress c s h (back_to s h.cur c (found p k.own))
  back_to-IsProgress q p at k = elim (Bool-cases (k.own.usecount == 0)) [
    | inr busy ↦ inl (ap (λ b. if b then inner else stop) busy)
    | inl free ↦ elim (Bool-cases (ltb (npages - 1) (h.cur.npage + k.own.npage))) [
      | inl large ↦
          inl
            (ap (λ b. if b then inner else stop) free ∙ ap (λ b. if b then stop else joined) large)
      | inr small ↦
          let (ys, e, r) = can_erase c s h q p k ne (unused free) in
          inr (
            p,
            merge p k.own s h.cur (popped c k.own.npage ys),
            ap (λ b. if b then inner else stop) free
                ∙ ap (λ b. if b then stop else joined) small
                ∙ ap (λ o. merged p k.own s h.cur p (erase_list c k.own.npage o)) e,
            front-IsReleasing c s h p k.own k.owns (unused free) ne ys r (fits small)
                (front_adjacent c s h q p at ne k),
            front_grows c s h p k.own k.owns (unused free) ne ys r (fits small)
                (front_adjacent c s h q p at ne k) (omega (arith, k.below, k.from)),
            front-KeepsUsed c s h p k.own k.owns (unused free) ne ys r (fits small)
                (front_adjacent c s h q p at ne k),
          )
    ]
  ]
    where
      joined : Pass
      joined = merged p k.own s h.cur p (erase c k.own.npage p)

      inner : Pass
      inner = if ltb (npages - 1) (h.cur.npage + k.own.npage) then stop else joined

      ne : p ≢ s
      ne = other_span c s h q p k (inl (omega (arith, at)))

      unused : (k.own.usecount == 0) ≡ true → k.own.usecount ≡ 0
      unused free = ground arith

      fits :
          ltb (npages - 1) (h.cur.npage + k.own.npage) ≡ false → h.cur.npage + k.own.npage < npages
      fits small = ground arith

  forward_to-IsProgress :
      (q p : ℕ)
      → q ≡ h.cur.page_id + h.cur.npage
      → (k : IsBacked (λ t. t ≡ s) c q p) → IsProgress c s h (forward_to s h.cur c (found p k.own))
  forward_to-IsProgress q p at k = elim (Bool-cases (k.own.usecount == 0)) [
    | inr busy ↦ inl (ap (λ b. if b then inner else stop) busy)
    | inl free ↦ elim (Bool-cases (leb (npages - 1) (h.cur.npage + k.own.npage))) [
      | inl large ↦
          inl
            (ap (λ b. if b then inner else stop) free ∙ ap (λ b. if b then stop else joined) large)
      | inr small ↦
          let (ys, e, r) = can_erase c s h q p k ne (unused free) in
          inr (
            s,
            merge s h.cur p k.own (popped c k.own.npage ys),
            ap (λ b. if b then inner else stop) free
                ∙ ap (λ b. if b then stop else joined) small
                ∙ ap (λ o. merged s h.cur p k.own s (erase_list c k.own.npage o)) e,
            behind-IsReleasing c s h p k.own k.owns (unused free) ne ys r (fits small)
                (behind_adjacent c s h q p at ne k),
            behind_grows c s h p k.own k.owns (unused free) ne ys r (fits small)
                (behind_adjacent c s h q p at ne k) (omega (arith, k.below, k.from)),
            behind-KeepsUsed c s h p k.own k.owns (unused free) ne ys r (fits small)
                (behind_adjacent c s h q p at ne k),
          )
    ]
  ]
    where
      joined : Pass
      joined = merged s h.cur p k.own s (erase c k.own.npage p)

      inner : Pass
      inner = if leb (npages - 1) (h.cur.npage + k.own.npage) then stop else joined

      ne : p ≢ s
      ne = other_span c s h q p k (inr (omega (arith, at)))

      unused : (k.own.usecount == 0) ≡ true → k.own.usecount ≡ 0
      unused free = ground arith

      fits :
          leb (npages - 1) (h.cur.npage + k.own.npage) ≡ false → h.cur.npage + k.own.npage < npages
      fits small = ground arith

  pub back_pass-IsProgress : IsProgress c s h (back_pass s c)
  unfolding back_pass
  back_pass-IsProgress =
      subst (λ o. IsProgress c s h (back_from s c o)) (sym h.owns.at)
        (elim (Option-cases (c.idspanmap (sub_size h.cur.page_id 1))) [
          | inl nobody_there ↦ inl (ap (λ o. back_to s h.cur c (mapped c o)) nobody_there)
          | inr (p, there) ↦
              let k = h.maps (sub_size h.cur.page_id 1) p there in
              subst (λ o. IsProgress c s h (back_to s h.cur c (mapped c o))) (sym there)
                (subst (λ o. IsProgress c s h (back_to s h.cur c (known p o))) (sym k.owns.at)
                  (back_to-IsProgress (sub_size h.cur.page_id 1) p
                    (previous h.cur.page_id (first_address c s h) k.address) k))
        ])
    where
      previous : (q : ℕ) → q < 2 ^ 52 → sub_size q 1 < 2 ^ 52 → suc (sub_size q 1) ≡ q
      previous q low lt = omega (arith, low, lt)

  pub forward_pass-IsProgress : IsProgress c s h (forward_pass s c)
  unfolding forward_pass
  forward_pass-IsProgress =
      subst (λ o. IsProgress c s h (forward_from s c o)) (sym h.owns.at)
        (elim (Option-cases (c.idspanmap (h.cur.page_id + h.cur.npage))) [
          | inl nobody_there ↦ inl (ap (λ o. forward_to s h.cur c (mapped c o)) nobody_there)
          | inr (p, there) ↦
              let k = h.maps (h.cur.page_id + h.cur.npage) p there in
              subst (λ o. IsProgress c s h (forward_to s h.cur c (mapped c o))) (sym there)
                (subst (λ o. IsProgress c s h (forward_to s h.cur c (known p o))) (sym k.owns.at)
                  (forward_to-IsProgress (h.cur.page_id + h.cur.npage) p refl k))
        ])
