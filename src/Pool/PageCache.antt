-- ===== src/Pool/PageCache.antt =====
-- class PageCache of ConcurrentMemoryPool/ConcurrentMemoryPool/PageCache.cpp: `_NewSpan` and
-- `MapObjectToSpan`. A span is a number, `spans` is the heap of spans, and a list of spans is the
-- list of their numbers from the head on. Page numbers are addresses divided by 2^12, so that a
-- page number plus a number of pages does not wrap. The addresses that VirtualAlloc returns are an
-- argument, in their order.
pub mod Owned
pub mod Popped
pub mod Mapped
pub mod NewSpan
pub mod Split
pub mod Given
pub mod Grow
pub mod Release
pub mod Big
pub mod Stale
pub mod Erased
pub mod Joined
pub mod Merging
pub mod Neighbours
pub mod Passes
pub mod Released
use projects_cpp.Prelude.{
  ℕ, zero, suc, ◌+◌, ◌-◌, ◌*◌, ◌/◌, ◌^◌, Option, none, some, List, [], ◌∷◌, Bool, true, false, ltb,
  if◌then◌else◌, update,
}
use projects_cpp.Pool.SizeClass.{npages, page_shift}

-- `_list`, the objects of a span, is the central cache's.
pub record Span : Type 0 where
  pub page_id : ℕ
  pub npage : ℕ
  pub objsize : ℕ
  pub usecount : ℕ

-- `next_span` is the number that the next `new Span` gets.
pub record PageCache : Type 0 where
  pub spanlist : ℕ → List ℕ
  pub idspanmap : ℕ → Option ℕ
  pub spans : ℕ → Option Span
  pub next_span : ℕ

-- The loops that enter the pages `first` … `first + n - 1`.
abbrev pub map_pages : (ℕ → Option ℕ) → ℕ → ℕ → ℕ → ℕ → Option ℕ
map_pages m first zero s = m
map_pages m first (suc n) s = update (map_pages m first n s) (first + n) (some s)

abbrev pub is_empty {ℓ} : {A : Type ℓ} → List A → Bool
is_empty [] = true
is_empty (x ∷ xs) = false

-- `PushFront` on list `n`
abbrev pub push_front : PageCache → ℕ → ℕ → PageCache
push_front c n s = record c { spanlist = update c.spanlist n (s ∷ c.spanlist n) }

abbrev pub pop_list : PageCache → ℕ → List ℕ → Option (ℕ × PageCache)
pop_list c n [] = none
pop_list c n (s ∷ rest) = some (s, record c { spanlist = update c.spanlist n rest })

-- `PopFront` on list `n`; `none` where the code would unlink the head of an empty list.
abbrev pub pop_front : PageCache → ℕ → Option (ℕ × PageCache)
pop_front c n = pop_list c n (c.spanlist n)

-- Span `s` loses its first `n` pages to a new span, which is mapped; `s` goes to its new list.
unfoldable pub split_span : ℕ → ℕ → Span → PageCache → ℕ × PageCache
split_span n s span c =
    let splist : ℕ = c.next_span in
    let kept : Span = record span { page_id = span.page_id + n; npage = span.npage - n } in
    let taken : Span = record { page_id = span.page_id; npage = n; objsize = 0; usecount = 0 } in
    (
      splist,
      push_front
          (record c {
            idspanmap = map_pages c.idspanmap span.page_id n splist;
            spans = update (update c.spans splist (some taken)) s (some kept);
            next_span = suc c.next_span;
          })
          kept.npage s,
    )

abbrev pub split_known : ℕ → ℕ → PageCache → Option Span → Option (ℕ × PageCache)
split_known n s c none = none
split_known n s c (some span) = some (split_span n s span c)

abbrev pub split_popped : ℕ → Option (ℕ × PageCache) → Option (ℕ × PageCache)
split_popped n none = none
split_popped n (some (s, c)) = split_known n s c (c.spans s)

-- The loop over the lists `i`, `i + 1`, …, `k` of them.
abbrev pub from_larger : ℕ → ℕ → ℕ → PageCache → Option (ℕ × PageCache)
from_larger n i zero c = none
from_larger n i (suc k) c =
    let rest = from_larger n (suc i) k c in
    if is_empty (c.spanlist i) then rest else split_popped n (pop_front c i)

-- `_NewSpan` without its last part: a span of list `n`, or one split from a larger span.
abbrev pub find_span : ℕ → PageCache → Option (ℕ × PageCache)
find_span n c =
    if is_empty (c.spanlist n) then from_larger n (suc n) (npages - suc n) c else pop_front c n

-- The last part of `_NewSpan`: 128 pages of the system at address `ptr`.
unfoldable pub grow : ℕ → PageCache → PageCache
grow ptr c =
    let span : Span = record {
      page_id = ptr / 2 ^ page_shift;
      npage = npages - 1;
      objsize = 0;
      usecount = 0;
    } in
    push_front
      (record c {
        idspanmap = map_pages c.idspanmap span.page_id span.npage c.next_span;
        spans = update c.spans c.next_span (some span);
        next_span = suc c.next_span;
      })
      span.npage c.next_span

-- `_NewSpan` behind its assertion, with the addresses that the system gives in turn.
unfoldable pub new_span_loop : List ℕ → ℕ → PageCache → Option (ℕ × PageCache)
new_span_loop [] n c = find_span n c
new_span_loop (ptr ∷ ptrs) n c =
    let rest = new_span_loop ptrs n (grow ptr c) in
    elim (find_span n c) [ none ↦ rest | some found ↦ some found ]

-- `_NewSpan`; `none` is the failed assertion or no memory left.
abbrev pub new_span : List ℕ → ℕ → PageCache → Option (ℕ × PageCache)
new_span ptrs n c = if ltb n npages then new_span_loop ptrs n c else none

-- The cache at the start of the program.
abbrev pub fresh_cache : PageCache
fresh_cache = record { spanlist = λ n. []; idspanmap = λ p. none; spans = λ s. none; next_span = 0 }

-- `MapObjectToSpan`; `none` is the failed assertion.
abbrev pub map_object_to_span : ℕ → PageCache → Option ℕ
map_object_to_span obj c = c.idspanmap (obj / 2 ^ page_shift)
