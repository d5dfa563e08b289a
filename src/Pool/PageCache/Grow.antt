-- ===== src/Pool/PageCache/Grow.antt =====
-- The end of `_NewSpan`, where the system adds 128 pages, and `_NewSpan` as a whole.
use projects_cpp.Prelude.{
  ℕ, suc, ◌+◌, ◌-◌, ◌/◌, ◌^◌, ◌<◌, ◌≡◌, refl, sym, ap, subst, ◌∙◌, none, some, List, [], ◌∷◌, arith,
  update, update_self, update_ne, inl, inr, if◌then◌else◌, lt→ltb,
}
use projects_cpp.Pool.SizeClass.{npages, page_shift}
use projects_cpp.Pool.PageCache.{
  Span, PageCache, push_front, map_pages, find_span, grow, new_span_loop, new_span,
}
use projects_cpp.Pool.PageCache.Owned.{
  Owns, IsHome, IsOffLists, IsSound, Keeps, IsSound-Keeps, push_front-IsSound, Owns-lists,
}
use projects_cpp.Pool.PageCache.Mapped.{map_pages_in, map_pages_out, page_cases}
use projects_cpp.Pool.PageCache.NewSpan.{
  none-some, unborn_ne, unborn-IsOffLists, push_front-IsOffLists,
}
use projects_cpp.Pool.PageCache.Given.{Gives, find_span-Gives, find_span-cases}

-- The 128 pages at address `ptr` are new: no span is mapped to them.
abbrev pub IsNewMemory : PageCache → ℕ → Type 0
IsNewMemory c ptr = (j : ℕ) → j < npages - 1 → c.idspanmap (ptr / 2 ^ page_shift + j) ≡ none

module _ (c : PageCache) (ptr : ℕ) (ok : IsSound c) (new : IsNewMemory c ptr) where
  abbrev added : Span
  added = record { page_id = ptr / 2 ^ page_shift; npage = npages - 1; objsize = 0; usecount = 0 }

  abbrev entered : PageCache
  entered = record c {
    idspanmap = map_pages c.idspanmap added.page_id added.npage c.next_span;
    spans = update c.spans c.next_span (some added);
    next_span = suc c.next_span;
  }

  unborn : c.spans c.next_span ≡ none
  unborn = ok.unborn c.next_span (omega arith)

  entered-Keeps : Keeps c.next_span c entered
  entered-Keeps t own ne o = record {
    at = update_ne c.spans c.next_span (some added) ne ∙ o.at;
    pages = λ j lt. elim (page_cases (own.page_id + j) added.page_id added.npage) [
      | inl (k, below, e) ↦ absurd (none-some (new k below) (sym (ap c.idspanmap e) ∙ o.pages j lt))
      | inr out ↦
          map_pages_out c.idspanmap added.page_id added.npage c.next_span (own.page_id + j) out
          ∙ o.pages j lt
    ];
  }

  entered-IsSound : IsSound entered
  entered-IsSound = IsSound-Keeps ok (unborn-IsOffLists ok unborn) entered-Keeps refl (λ t later.
      update_ne c.spans c.next_span (some added) (omega (arith, later))
      ∙ ok.unborn t (omega (arith, later)))

  added-IsHome : IsHome entered (npages - 1) c.next_span
  added-IsHome = record {
    span = added;
    owns = record {
      at = update_self c.spans c.next_span (some added);
      pages = map_pages_in c.idspanmap added.page_id added.npage c.next_span;
    };
    size = refl;
    free = refl;
  }

  pub grow-IsSound : IsSound (grow ptr c)
  unfolding grow
  grow-IsSound =
      push_front-IsSound entered (npages - 1) c.next_span entered-IsSound added-IsHome
        (unborn-IsOffLists ok unborn)

  pub grow-first : (grow ptr c).spanlist (npages - 1) ≡ c.next_span ∷ c.spanlist (npages - 1)
  unfolding grow
  grow-first = update_self c.spanlist (npages - 1) (c.next_span ∷ c.spanlist (npages - 1))

  pub grow-IsSafe :
      (t : ℕ) (own : Span)
      → IsOffLists c t
      → Owns c t own
      → Owns (grow ptr c) t own × IsOffLists (grow ptr c) t
  unfolding grow
  grow-IsSafe t own off o = (
    Owns-lists (push_front entered (npages - 1) c.next_span).spanlist
        (entered-Keeps t own (unborn_ne {c = c} unborn o) o),
    push_front-IsOffLists entered (npages - 1) c.next_span (λ e. unborn_ne {c = c} unborn o (sym e))
        off,
  )

  -- After the growth the second call gives a span.
  grow-Gives : (n : ℕ) → n < npages → Gives c n (find_span n (grow ptr c))
  grow-Gives n lt =
      let (s, d, e, given) =
        find_span-Gives (grow ptr c) n (npages - 1) c.next_span (c.spanlist (npages - 1))
          grow-IsSound (omega arith) (omega arith) grow-first in
      (
        s,
        d,
        e,
        record {
          taken = given.taken;
          safe = λ t own off o.
              given.safe t own (grow-IsSafe t own off o).1 (grow-IsSafe t own off o).0;
        },
      )

new_span_loop-found :
    (ptrs : List ℕ) (n : ℕ) (c : PageCache) {found : ℕ × PageCache}
    → find_span n c ≡ some found
    → new_span_loop ptrs n c ≡ some found
unfolding new_span_loop
new_span_loop-found [] n c e = e
new_span_loop-found (ptr ∷ ptrs) n c {found = found} e =
    subst (λ o. elim o [ none ↦ new_span_loop ptrs n (grow ptr c) | some x ↦ some x ] ≡ some found)
      (sym e) refl

new_span_loop-grown :
    (ptr : ℕ) (ptrs : List ℕ) (n : ℕ) (c : PageCache) {found : ℕ × PageCache}
    → find_span n c ≡ none
    → find_span n (grow ptr c) ≡ some found
    → new_span_loop (ptr ∷ ptrs) n c ≡ some found
unfolding new_span_loop
new_span_loop-grown ptr ptrs n c {found = found} missed e =
    subst (λ o. elim o [ none ↦ new_span_loop ptrs n (grow ptr c) | some x ↦ some x ] ≡ some found)
      (sym missed) (new_span_loop-found ptrs n (grow ptr c) e)

-- If the lists are sound and the system has 128 new pages, a span of `n` pages, `n` at most 128, is
-- given: it is on no list, all of its pages are mapped to it, the lists are sound, and every span
-- that was off the lists before is another one, keeps its pages and stays off the lists.
pub new_span-Gives :
    (c : PageCache) (ptr : ℕ) (ptrs : List ℕ) (n : ℕ)
    → n < npages
    → IsSound c
    → IsNewMemory c ptr
    → Gives c n (new_span (ptr ∷ ptrs) n c)
new_span-Gives c ptr ptrs n lt ok new =
    subst (λ b. Gives c n (if b then new_span_loop (ptr ∷ ptrs) n c else none))
      (sym (lt→ltb n npages lt))
      (elim (find_span-cases c n lt ok) [
        | inl missed ↦
            let (s, d, e, given) = grow-Gives c ptr ok new n lt in
            (s, d, new_span_loop-grown ptr ptrs n c missed e, given)
        | inr (s, d, e, given) ↦ (s, d, new_span_loop-found (ptr ∷ ptrs) n c e, given)
      ])
