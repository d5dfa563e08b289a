-- ===== src/Pool/PageCache/Merging.antt =====
-- A span that is being released, and one of its neighbours that is merged with it.
use projects_cpp.Prelude.{
  ℕ, ◌+◌, ◌≡◌, ◌≢◌, ◌<◌, ◌⊎◌, sym, subst, ◌∙◌, List, inl, inr, arith, update, eq_or_ne,
}
use projects_cpp.Pool.SizeClass.{npages}
use projects_cpp.Pool.PageCache.{Span, PageCache}
use projects_cpp.Pool.PageCache.Release.{merge}
use projects_cpp.Pool.PageCache.Owned.{Owns, IsOffLists, IsSound, Owns-lists}
use projects_cpp.Pool.PageCache.Popped.{popped, IsTaken, Owns-usecount}
use projects_cpp.Pool.PageCache.Erased.{IsRemoved, erased-IsTaken, IsOffLists-erased, off-erased}
use projects_cpp.Pool.PageCache.Joined.{
  IsMapped, merge-IsSound, merge-Owns, joined-Owns, merge-IsMapped,
}

-- Span `s` is on no list and unused, and every other mapped span is in use or on its list.
pub record IsReleasing (c : PageCache) (s : ℕ) : Type 0 where
  pub sound : IsSound c
  pub off : IsOffLists c s
  pub cur : Span
  pub owns : Owns c s cur
  pub free : cur.usecount ≡ 0
  pub pages : 0 < cur.npage
  pub small : cur.npage < npages
  pub maps : IsMapped (λ t. t ≡ s) c

-- Spans in use that are off the lists keep their pages and stay off the lists.
abbrev pub KeepsUsed : PageCache → PageCache → Type 0
KeepsUsed c d =
    (t : ℕ) (own : Span)
    → IsOffLists c t
    → own.usecount ≢ 0
    → Owns c t own
    → Owns d t own × IsOffLists d t

module _ (c : PageCache) (s : ℕ) (h : IsReleasing c s) (p : ℕ) (own : Span) (o : Owns c p own)
    (unused : own.usecount ≡ 0) (ne : p ≢ s) (ys : List ℕ)
    (r : IsRemoved p (c.spanlist own.npage) ys) (fits : h.cur.npage + own.npage < npages) where
  abbrev pub erased : PageCache
  erased = popped c own.npage ys

  t1 : IsTaken erased own.npage p
  t1 = erased-IsTaken c own.npage p ys h.sound r

  off_s : IsOffLists erased s
  off_s = IsOffLists-erased c own.npage p s ys r h.off

  lifted : (t : ℕ) (a : Span) → Owns c t a → Owns erased t a
  lifted t a k = Owns-lists (update c.spanlist own.npage ys) k

  erased-IsMapped :
      (X : ℕ → Type 0) → ((t : ℕ) → t ≡ s → X t) → ((t : ℕ) → t ≡ p → X t) → IsMapped X erased
  erased-IsMapped X xs xp q t e =
      let k = h.maps q t e in
      record {
        own = k.own;
        owns = lifted t k.own k.owns;
        from = k.from;
        below = k.below;
        address = k.address;
        use_of = elim (eq_or_ne t p) [
          | inl same ↦ inl (xp t same)
          | inr other ↦ elim k.use_of [
            | inl same ↦ inl (xs t same)
            | inr (inl busy) ↦ inr (inl busy)
            | inr (inr listed) ↦ inr (
                inr (λ off.
                  listed (off-erased c own.npage p t ys r (λ e2. other (sym e2)) k.own.npage off)))
          ]
        ];
      }

  -- A span in use is neither of the two.
  used_ne_s : (t : ℕ) (a : Span) → a.usecount ≢ 0 → Owns c t a → t ≢ s
  used_ne_s t a busy k same = busy (Owns-usecount (subst (λ u. Owns c u a) same k) h.owns ∙ h.free)

  used_ne_p : (t : ℕ) (a : Span) → a.usecount ≢ 0 → Owns c t a → t ≢ p
  used_ne_p t a busy k same = busy (Owns-usecount (subst (λ u. Owns c u a) same k) o ∙ unused)

  -- The neighbour is in front of the span.
  module _ (adjacent : (own.page_id + own.npage ≡ h.cur.page_id)) where
    pub front-IsReleasing : IsReleasing (merge p own s h.cur erased) p
    unfolding merge
    front-IsReleasing = record {
      sound =
          merge-IsSound erased p own s h.cur t1.sound t1.off off_s (lifted p own o)
            (lifted s h.cur h.owns) ne adjacent;
      off = t1.off;
      cur = record own { npage = own.npage + h.cur.npage };
      owns =
          joined-Owns erased p own s h.cur t1.sound t1.off off_s (lifted p own o)
            (lifted s h.cur h.owns) ne adjacent;
      free = unused;
      pages = omega (arith, h.pages);
      small = omega (arith, fits);
      maps =
          merge-IsMapped erased p own s h.cur t1.sound t1.off off_s (lifted p own o)
            (lifted s h.cur h.owns) ne adjacent
            (erased-IsMapped (λ t. (t ≡ p) ⊎ (t ≡ s)) (λ t e. inr e) (λ t e. inl e));
    }

    pub front_grows : 0 < own.npage → h.cur.npage < (front-IsReleasing).cur.npage
    unfolding front-IsReleasing
    front_grows some = omega arith

    pub front-KeepsUsed : KeepsUsed c (merge p own s h.cur erased)
    unfolding merge
    front-KeepsUsed t a off busy k = (
      merge-Owns erased p own s h.cur t1.sound t1.off off_s (lifted p own o) (lifted s h.cur h.owns)
          ne adjacent t a (used_ne_p t a busy k) (used_ne_s t a busy k) (lifted t a k),
      IsOffLists-erased c own.npage p t ys r off,
    )

  -- The neighbour is behind the span.
  module _ (adjacent : (h.cur.page_id + h.cur.npage ≡ own.page_id)) where
    pub behind-IsReleasing : IsReleasing (merge s h.cur p own erased) s
    unfolding merge
    behind-IsReleasing = record {
      sound =
          merge-IsSound erased s h.cur p own t1.sound off_s t1.off (lifted s h.cur h.owns)
            (lifted p own o) (λ e. ne (sym e)) adjacent;
      off = off_s;
      cur = record h.cur { npage = h.cur.npage + own.npage };
      owns =
          joined-Owns erased s h.cur p own t1.sound off_s t1.off (lifted s h.cur h.owns)
            (lifted p own o) (λ e. ne (sym e)) adjacent;
      free = h.free;
      pages = omega (arith, h.pages);
      small = fits;
      maps =
          merge-IsMapped erased s h.cur p own t1.sound off_s t1.off (lifted s h.cur h.owns)
            (lifted p own o) (λ e. ne (sym e)) adjacent
            (erased-IsMapped (λ t. (t ≡ s) ⊎ (t ≡ p)) (λ t e. inl e) (λ t e. inr e));
    }

    pub behind_grows : 0 < own.npage → h.cur.npage < (behind-IsReleasing).cur.npage
    unfolding behind-IsReleasing
    behind_grows some = omega arith

    pub behind-KeepsUsed : KeepsUsed c (merge s h.cur p own erased)
    unfolding merge
    behind-KeepsUsed t a off busy k = (
      merge-Owns erased s h.cur p own t1.sound off_s t1.off (lifted s h.cur h.owns) (lifted p own o)
          (λ e. ne (sym e)) adjacent t a (used_ne_s t a busy k) (used_ne_p t a busy k)
          (lifted t a k),
      IsOffLists-erased c own.npage p t ys r off,
    )
