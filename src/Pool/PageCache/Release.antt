-- ===== src/Pool/PageCache/Release.antt =====
-- `ReleaseSpanToPageCache` of ConcurrentMemoryPool/ConcurrentMemoryPool/PageCache.cpp, which
-- merges a span with its neighbours.
use projects_cpp.Prelude.{
  ℕ, zero, suc, ◌+◌, ◌-◌, Option, none, some, List, [], ◌∷◌, ltb, leb, ◌==◌, if◌then◌else◌, update,
}
use projects_cpp.Pool.SizeClass.{npages, sub_size}
use projects_cpp.Pool.PageCache.{Span, PageCache, map_pages, push_front}

abbrev pub cons_to {ℓ} : {A : Type ℓ} → A → Option (List A) → Option (List A)
cons_to a none = none
cons_to a (some xs) = some (a ∷ xs)

-- A list without one span. `Erase` unlinks a span by its own links, whatever list it is on; the
-- model has no links but the lists of the page cache, so `none`, for a span that is not on the list
-- of its size, is where the model ends and says nothing of the code.
abbrev pub without : ℕ → List ℕ → Option (List ℕ)
without s [] = none
without s (t ∷ ts) = let rest = without s ts in if s == t then some ts else cons_to t rest

abbrev pub erase_list : PageCache → ℕ → Option (List ℕ) → Option PageCache
erase_list c n none = none
erase_list c n (some rest) = some (record c { spanlist = update c.spanlist n rest })

-- `Erase` on list `n`
abbrev pub erase : PageCache → ℕ → ℕ → Option PageCache
erase c n s = erase_list c n (without s (c.spanlist n))

-- `first` takes the pages of `second`, which is deleted.
unfoldable pub merge : ℕ → Span → ℕ → Span → PageCache → PageCache
merge first a second b c = record c {
  idspanmap = map_pages c.idspanmap b.page_id b.npage first;
  spans = update (update c.spans first (some (record a { npage = a.npage + b.npage }))) second none;
}

-- The span that a page is mapped to; `dangling` is one that was deleted.
pub data Neighbour : Type 0 where
  nobody dangling : Neighbour
  found : ℕ → Span → Neighbour

abbrev pub known : ℕ → Option Span → Neighbour
known s none = dangling
known s (some span) = found s span

abbrev pub mapped : PageCache → Option ℕ → Neighbour
mapped c none = nobody
mapped c (some s) = known s (c.spans s)

abbrev pub neighbour : PageCache → ℕ → Neighbour
neighbour c id = mapped c (c.idspanmap id)

-- One pass of a loop: it is left, goes on with a span, or (`fault`) uses a deleted span or a
-- span that is not on the list of its size.
pub data Pass : Type 0 where
  stop fault : Pass
  again : ℕ → PageCache → Pass

abbrev pub merged : ℕ → Span → ℕ → Span → ℕ → Option PageCache → Pass
merged first a second b cur none = fault
merged first a second b cur (some c) = again cur (merge first a second b c)

abbrev pub back_to : ℕ → Span → PageCache → Neighbour → Pass
back_to s cur c nobody = stop
back_to s cur c dangling = fault
back_to s cur c (found p prev) =
    if prev.usecount == 0
    then (if ltb (npages - 1) (cur.npage + prev.npage)
        then stop
        else merged p prev s cur p (erase c prev.npage p))
    else stop

abbrev pub back_from : ℕ → PageCache → Option Span → Pass
back_from s c none = fault
back_from s c (some cur) = back_to s cur c (neighbour c (sub_size cur.page_id 1))

-- A pass of the first loop; page numbers wrap here, at page 0.
unfoldable pub back_pass : ℕ → PageCache → Pass
back_pass s c = back_from s c (c.spans s)

abbrev pub forward_to : ℕ → Span → PageCache → Neighbour → Pass
forward_to s cur c nobody = stop
forward_to s cur c dangling = fault
forward_to s cur c (found n next) =
    if next.usecount == 0
    then (if leb (npages - 1) (cur.npage + next.npage)
        then stop
        else merged s cur n next s (erase c next.npage n))
    else stop

abbrev pub forward_from : ℕ → PageCache → Option Span → Pass
forward_from s c none = fault
forward_from s c (some cur) = forward_to s cur c (neighbour c (cur.page_id + cur.npage))

-- A pass of the second loop.
unfoldable pub forward_pass : ℕ → PageCache → Pass
forward_pass s c = forward_from s c (c.spans s)

-- A `while (1)` loop of such passes, on fuel.
abbrev pub loop : (ℕ → PageCache → Pass) → ℕ → ℕ → PageCache → Option (ℕ × PageCache)
loop pass zero s c = none
loop pass (suc k) s c = elim (pass s c) [
  | stop ↦ some (s, c)
  | fault ↦ none
  | again t d ↦ loop pass k t d
]

abbrev pub listed_at : ℕ → PageCache → Option Span → Option PageCache
listed_at s c none = none
listed_at s c (some cur) = some (push_front c cur.npage s)

abbrev pub to_list : Option (ℕ × PageCache) → Option PageCache
to_list none = none
to_list (some (s, c)) = listed_at s c (c.spans s)

abbrev pub then_forward : Option (ℕ × PageCache) → Option (ℕ × PageCache)
then_forward none = none
then_forward (some (s, c)) = loop forward_pass npages s c

-- A pass that goes on adds the pages of a span, up to 128 in all; a loop has 129 passes.
abbrev pub release_known : ℕ → PageCache → Option Span → Option PageCache
release_known s c none = none
release_known s c (some cur) =
    if leb npages cur.npage
    then some (record c {
      idspanmap = update c.idspanmap cur.page_id none;
      spans = update c.spans s none;
    })
    else to_list (then_forward (loop back_pass npages s c))

-- `ReleaseSpanToPageCache`; `none` where the code uses a deleted span, or unlinks a span that is not
-- on the list of its size.
abbrev pub release_span_to_page_cache : ℕ → PageCache → Option PageCache
release_span_to_page_cache s c = release_known s c (c.spans s)
