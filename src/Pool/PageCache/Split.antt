-- ===== src/Pool/PageCache/Split.antt =====
-- `_NewSpan` splits a span that was taken from its list.
use projects_cpp.Prelude.{
  ℕ, suc, ◌+◌, ◌-◌, ◌≤◌, ◌<◌, ◌≡◌, ◌≢◌, refl, sym, ap, subst, ◌∙◌, none, some, arith, update,
  update_self, update_ne, inl, inr,
}
use projects_cpp.Pool.PageCache.{Span, PageCache, push_front, map_pages}
use projects_cpp.Pool.PageCache.Owned.{
  Owns, IsHome, IsOffLists, IsSound, IsHome-lists, Keeps, IsSound-Keeps, push_front-IsSound,
  Owns-lists,
}
use projects_cpp.Pool.PageCache.Mapped.{map_pages_in, map_pages_out, page_cases}
use projects_cpp.Pool.PageCache.Popped.{IsTaken, same_owner}
use projects_cpp.Pool.PageCache.NewSpan.{unborn_ne, unborn-IsOffLists, push_front-IsOffLists}

module _ (c : PageCache) (i s n : ℕ) (h : IsTaken c i s) (le : n ≤ i) where
  abbrev span : Span
  span = h.home.span

  abbrev kept : Span
  kept = record span { page_id = span.page_id + n; npage = span.npage - n }

  abbrev taken : Span
  taken = record { page_id = span.page_id; npage = n; objsize = 0; usecount = 0 }

  -- Before the remaining span goes to its list.
  abbrev entered : PageCache
  entered = record c {
    idspanmap = map_pages c.idspanmap span.page_id n c.next_span;
    spans = update (update c.spans c.next_span (some taken)) s (some kept);
    next_span = suc c.next_span;
  }

  size : span.npage ≡ i
  size = h.home.size

  unborn : c.spans c.next_span ≡ none
  unborn = h.sound.unborn c.next_span (omega arith)

  s_ne : s ≢ c.next_span
  s_ne = unborn_ne {c = c} unborn h.home.owns

  its : (j : ℕ) → j < n → c.idspanmap (span.page_id + j) ≡ some s
  its j lt = h.home.owns.pages j (omega (arith, size, le))

  spans_ne : (t : ℕ) → t ≢ s → t ≢ c.next_span → entered.spans t ≡ c.spans t
  spans_ne t ne ne2 =
      update_ne (update c.spans c.next_span (some taken)) s (some kept) ne
      ∙ update_ne c.spans c.next_span (some taken) ne2

  entered-Keeps : Keeps s c entered
  entered-Keeps t own ne o = record {
    at = spans_ne t ne (unborn_ne {c = c} unborn o) ∙ o.at;
    pages = λ j lt. elim (page_cases (own.page_id + j) span.page_id n) [
      | inl (k, below, e) ↦ absurd (ne (same_owner (o.pages j lt) (ap c.idspanmap e ∙ its k below)))
      | inr out ↦
          map_pages_out c.idspanmap span.page_id n c.next_span (own.page_id + j) out ∙ o.pages j lt
    ];
  }

  entered-IsSound : IsSound entered
  entered-IsSound = IsSound-Keeps h.sound h.off entered-Keeps refl (λ t later.
      spans_ne t (born t later) (omega (arith, later)) ∙ h.sound.unborn t (omega (arith, later)))
    where
      born : (t : ℕ) → suc c.next_span ≤ t → t ≢ s
      born t later e =
          unborn_ne {c = c} (h.sound.unborn t (omega (arith, later))) h.home.owns (sym e)

  kept-IsHome : IsHome entered kept.npage s
  kept-IsHome = record {
    span = kept;
    owns = record {
      at = update_self (update c.spans c.next_span (some taken)) s (some kept);
      pages = λ j lt.
          map_pages_out c.idspanmap span.page_id n c.next_span (span.page_id + n + j)
            (λ k below e. absurd (omega arith))
          ∙ subst (λ p. c.idspanmap p ≡ some s) (omega arith)
              (h.home.owns.pages (n + j) (omega (arith, lt, size, le)));
    };
    size = refl;
    free = h.home.free;
  }

  taken-IsHome : IsHome entered n c.next_span
  taken-IsHome = record {
    span = taken;
    owns = record {
      at =
          update_ne (update c.spans c.next_span (some taken)) s (some kept) (λ e. s_ne (sym e))
          ∙ update_self c.spans c.next_span (some taken);
      pages = map_pages_in c.idspanmap span.page_id n c.next_span;
    };
    size = refl;
    free = refl;
  }

  pub split-IsTaken : IsTaken (push_front entered kept.npage s) n c.next_span
  split-IsTaken = record {
    sound = push_front-IsSound entered kept.npage s entered-IsSound kept-IsHome h.off;
    home = IsHome-lists (push_front entered kept.npage s).spanlist taken-IsHome;
    off = push_front-IsOffLists entered kept.npage s s_ne (unborn-IsOffLists h.sound unborn);
  }

  pub split-IsSafe :
      (t : ℕ) (own : Span)
      → t ≢ s
      → IsOffLists c t
      → Owns c t own
      → Owns (push_front entered kept.npage s) t own
        × IsOffLists (push_front entered kept.npage s) t
        × (t ≢ c.next_span)
  split-IsSafe t own ne off o = (
    Owns-lists (push_front entered kept.npage s).spanlist (entered-Keeps t own ne o),
    push_front-IsOffLists entered kept.npage s (λ e. ne (sym e)) off,
    unborn_ne {c = c} unborn o,
  )
