-- ===== src/Pool/PageCache/Stale.antt =====
-- Where the map of the page cache keeps a span that `FreeBigPageObj` has deleted.
use projects_cpp.Prelude.{
  ℕ, suc, ◌/◌, ◌*◌, ◌^◌, ◌≤◌, ◌<◌, ◌≡◌, ◌≢◌, refl, sym, ap, subst, ◌∙◌, none, some, [], ◌∷◌, false,
  ltb, if◌then◌else◌, arith, lt→ltb, update, update_self, update_ne,
}
use projects_cpp.Pool.SizeClass.{npages, page_shift, max_bytes, roundup_by}
use projects_cpp.Pool.PageCache.{Span, PageCache, new_span}
use projects_cpp.Pool.PageCache.Release.{release_span_to_page_cache}
use projects_cpp.Pool.PageCache.Big.{
  alloc_big_page_obj, free_known, free_big_page_obj, from_system, sized, with_objsize,
}

-- The pages of a big object
abbrev pub pages_of : ℕ → ℕ
pages_of size = roundup_by size page_shift / 2 ^ page_shift

-- An object of at least 129 pages, whose number of pages is not its first page: after it is
-- allocated and freed, its first page is still mapped to its span, and the span is deleted.
pub freed_big_stays_mapped :
    (c : PageCache) (ptr size : ℕ)
    → max_bytes < size
    → npages ≤ pages_of size
    → ptr / 2 ^ page_shift ≢ pages_of size
    → (s : ℕ) × (given : PageCache) × (freed : PageCache) × (alloc_big_page_obj (ptr ∷ []) size c
        ≡ some (s, given))
      × (free_big_page_obj s given ≡ some freed)
      × (freed.idspanmap (ptr / 2 ^ page_shift) ≡ some s)
      × (freed.spans s ≡ none)
unfolding free_big_page_obj
freed_big_stays_mapped c ptr size big many other = (
  s,
  given,
  freed,
  subst
      (λ b.
        (if b
          then (if ltb (pages_of size) npages
              then sized (roundup_by size page_shift) (new_span (ptr ∷ []) (pages_of size) c)
              else from_system (ptr ∷ []) (pages_of size) c)
          else none)
        ≡ some (s, given))
      (sym (lt→ltb max_bytes size big))
      (subst
        (λ b.
          (if b
            then sized (roundup_by size page_shift) (new_span (ptr ∷ []) (pages_of size) c)
            else from_system (ptr ∷ []) (pages_of size) c)
          ≡ some (s, given))
        (sym large) refl),
  ap (free_known s given) (update_self c.spans s (some span))
      ∙ subst
          (λ n.
            (if ltb n npages
              then release_span_to_page_cache s (with_objsize 0 s given (some span))
              else some (record given {
                idspanmap = update given.idspanmap n none;
                spans = update given.spans s none;
              }))
            ≡ some freed)
          (sym (pages_back (pages_of size)))
          (subst
            (λ b.
              (if b
                then release_span_to_page_cache s (with_objsize 0 s given (some span))
                else some freed)
              ≡ some freed)
            (sym large) refl),
  update_ne given.idspanmap (pages_of size) none other
      ∙ update_self c.idspanmap (ptr / 2 ^ page_shift) (some s),
  update_self given.spans s none,
)
  where
    s : ℕ
    s = c.next_span

    span : Span
    span = record {
      page_id = ptr / 2 ^ page_shift;
      npage = pages_of size;
      objsize = pages_of size * 2 ^ page_shift;
      usecount = 0;
    }

    given : PageCache
    given = record c {
      idspanmap = update c.idspanmap (ptr / 2 ^ page_shift) (some s);
      spans = update c.spans s (some span);
      next_span = suc s;
    }

    freed : PageCache
    freed = record given {
      idspanmap = update given.idspanmap (pages_of size) none;
      spans = update given.spans s none;
    }

    lt_false : (n : ℕ) → npages ≤ n → ltb n npages ≡ false
    lt_false n h = ground arith

    large : ltb (pages_of size) npages ≡ false
    large = lt_false (pages_of size) many

    pages_back : (n : ℕ) → n * 2 ^ page_shift / 2 ^ page_shift ≡ n
    pages_back n = omega arith
