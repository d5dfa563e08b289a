-- ===== src/Pool/PageCache/Released.antt =====
-- ReleaseSpanToPageCache as a whole, in a cache where each unused span is listed.
use projects_cpp.Prelude.{
  ℕ, zero, suc, ◌+◌, ◌≡◌, ◌≤◌, ◌<◌, refl, ap, subst, ◌∙◌, Option, none, some, inl, inr, arith, leb,
  if◌then◌else◌, update, false,
}
use projects_cpp.Pool.SizeClass.{npages}
use projects_cpp.Pool.PageCache.{PageCache, push_front}
use projects_cpp.Pool.PageCache.Release.{
  Pass, stop, fault, again, back_pass, forward_pass, loop, listed_at, to_list, then_forward,
  release_known, release_span_to_page_cache,
}
use projects_cpp.Pool.PageCache.Owned.{Owns, IsSound, Owns-lists, push_front-IsSound}
use projects_cpp.Pool.PageCache.NewSpan.{push_front-IsOffLists}
use projects_cpp.Pool.PageCache.Popped.{Owns-usecount}
use projects_cpp.Pool.PageCache.Merging.{IsReleasing, KeepsUsed}
use projects_cpp.Pool.PageCache.Passes.{IsProgress, back_pass-IsProgress, forward_pass-IsProgress}

-- A loop that is left with a span that is still being released.
abbrev IsLeft : PageCache → Option (ℕ × PageCache) → Type 0
IsLeft c o = (t : ℕ) × (d : PageCache) × (o ≡ some (t, d)) × IsReleasing d t × KeepsUsed c d

-- More passes than pages that can be added are enough.
module _ (pass : ℕ → PageCache → Pass)
    (progress : (c : PageCache) (s : ℕ) (h : IsReleasing c s) → IsProgress c s h (pass s c)) where
  next_of : ℕ → PageCache → ℕ → Pass → Option (ℕ × PageCache)
  next_of s c k p = elim p [ stop ↦ some (s, c) | fault ↦ none | again t d ↦ loop pass k t d ]

  loop-IsLeft :
      (k s : ℕ) (c : PageCache)
      → (h : IsReleasing c s) → npages ≤ k + h.cur.npage
      → IsLeft c (loop pass k s c)
  unfolding next_of
  loop-IsLeft zero s c h enough = absurd (omega (arith, h.small, enough))
  loop-IsLeft (suc k) s c h enough = elim (progress c s h) [
    | inl e ↦ (s, c, ap (next_of s c k) e, h, λ t own off busy o. (o, off))
    | inr (t, d, e, h2, more, keep) ↦
        let (u, f, e2, h3, keep2) = loop-IsLeft k t d h2 (omega (arith, more, enough)) in
        (
          u,
          f,
          ap (next_of s c k) e ∙ e2,
          h3,
          λ v own off busy o. let (o2, off2) = keep v own off busy o in keep2 v own off2 busy o2,
        )
  ]

-- In a cache where every mapped span but `s` is in use or on the list of its size, and where `s` is
-- unused, off the lists and of 1 to 128 pages, the release of `s` returns, leaves the lists sound,
-- and every span in use that was off the lists keeps its pages and stays off the lists.
pub release-KeepsUsed :
    (c : PageCache) (s : ℕ)
    → IsReleasing c s
    → (d : PageCache) × (release_span_to_page_cache s c ≡ some d) × IsSound d × KeepsUsed c d
release-KeepsUsed c s h =
    let (t, d, e, h2, keep) =
      loop-IsLeft back_pass back_pass-IsProgress npages s c h (omega arith) in
    let (u, f, e2, h3, keep2) =
      loop-IsLeft forward_pass forward_pass-IsProgress npages t d h2 (omega arith) in
    (
      push_front f h3.cur.npage u,
      ap (release_known s c) h.owns.at
          ∙ ap
              (λ b.
                if b
                then some (record c {
                  idspanmap = update c.idspanmap h.cur.page_id none;
                  spans = update c.spans s none;
                })
                else to_list (then_forward (loop back_pass npages s c)))
              few
          ∙ ap (λ o. to_list (then_forward o)) e
          ∙ ap to_list e2
          ∙ ap (listed_at u f) h3.owns.at,
      push_front-IsSound f h3.cur.npage u h3.sound
          (record { span = h3.cur; owns = h3.owns; size = refl; free = h3.free }) h3.off,
      λ v own off busy o.
          let (o2, off2) = keep v own off busy o in
          let (o3, off3) = keep2 v own off2 busy o2 in
          (
            Owns-lists (push_front f h3.cur.npage u).spanlist o3,
            push_front-IsOffLists f h3.cur.npage u
                (λ same.
                  busy (Owns-usecount o3 (subst (λ w. Owns f w h3.cur) same h3.owns) ∙ h3.free))
                off3,
          ),
    )
  where
    few : leb npages h.cur.npage ≡ false
    few = few_pages h.cur.npage h.small
      where
        few_pages : (n : ℕ) → n < npages → leb npages n ≡ false
        few_pages n lt = ground arith
