-- ===== src/Pool/PageCache/Big.antt =====
-- Objects above 64 KB: AllocBigPageObj and FreeBigPageObj of
-- ConcurrentMemoryPool/ConcurrentMemoryPool/PageCache.cpp.
use projects_cpp.Prelude.{
  ℕ, suc, ◌/◌, ◌*◌, ◌^◌, Option, none, some, List, [], ◌∷◌, ltb, if◌then◌else◌, update,
}
use projects_cpp.Pool.SizeClass.{npages, page_shift, max_bytes, roundup_by}
use projects_cpp.Pool.PageCache.{Span, PageCache, new_span}
use projects_cpp.Pool.PageCache.Release.{release_span_to_page_cache}

-- A write of `_objsize`
abbrev pub with_objsize : ℕ → ℕ → PageCache → Option Span → PageCache
with_objsize size s c none = c
with_objsize size s c (some span) = record c {
  spans = update c.spans s (some (record span { objsize = size }));
}

abbrev pub sized : ℕ → Option (ℕ × PageCache) → Option (ℕ × PageCache)
sized size none = none
sized size (some (s, c)) = some (s, with_objsize size s c (c.spans s))

-- Pages of the system's own; `none` is `bad_alloc`.
abbrev pub from_system : List ℕ → ℕ → PageCache → Option (ℕ × PageCache)
from_system [] npage c = none
from_system (ptr ∷ ptrs) npage c =
    let span : Span = record {
      page_id = ptr / 2 ^ page_shift;
      npage = npage;
      objsize = npage * 2 ^ page_shift;
      usecount = 0;
    } in
    some (
      c.next_span,
      record c {
        idspanmap = update c.idspanmap span.page_id (some c.next_span);
        spans = update c.spans c.next_span (some span);
        next_span = suc c.next_span;
      },
    )

-- `AllocBigPageObj`; `none` is the failed assertion or no memory left.
abbrev pub alloc_big_page_obj : List ℕ → ℕ → PageCache → Option (ℕ × PageCache)
alloc_big_page_obj ptrs size c =
    let rounded : ℕ = roundup_by size page_shift in
    let npage : ℕ = rounded / 2 ^ page_shift in
    if ltb max_bytes size
    then (if ltb npage npages
        then sized rounded (new_span ptrs npage c)
        else from_system ptrs npage c)
    else none

abbrev pub free_known : ℕ → PageCache → Option Span → Option PageCache
free_known s c none = none
free_known s c (some span) =
    let npage : ℕ = span.objsize / 2 ^ page_shift in
    if ltb npage npages
    then release_span_to_page_cache s (with_objsize 0 s c (some span))
    else some
        (record c { idspanmap = update c.idspanmap npage none; spans = update c.spans s none })

-- `FreeBigPageObj`, where `erase` is given the number of pages.
unfoldable pub free_big_page_obj : ℕ → PageCache → Option PageCache
free_big_page_obj s c = free_known s c (c.spans s)
