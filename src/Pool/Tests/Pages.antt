-- ===== src/Pool/Tests/Pages.antt =====
-- The page cache at some requests.
use projects_cpp.Prelude.{ℕ, ◌/◌, ◌^◌, ◌≡◌, refl, Option, none, some, List, [], ◌∷◌, arith}
use projects_cpp.Pool.PageCache.{
  PageCache, fresh_cache, new_span, new_span_loop, grow, split_span, map_object_to_span,
}
use projects_cpp.Pool.SizeClass.{page_shift}
use projects_cpp.Pool.PageCache.Release.{release_span_to_page_cache, back_pass, forward_pass, merge}
use projects_cpp.Pool.PageCache.Big.{alloc_big_page_obj, free_big_page_obj}
use projects_cpp.Pool.PageCache.Stale.{freed_big_stays_mapped}
use projects_cpp.Pool.PageCache.Owned.{IsSound}
use projects_cpp.Pool.PageCache.Given.{Gives}
use projects_cpp.Pool.PageCache.Grow.{new_span-Gives}

-- Memory at page 1000.
abbrev address : ℕ
address = 4096000

fresh_cache-IsSound : IsSound fresh_cache
fresh_cache-IsSound = record { home = λ n. tt; once = λ n. tt; unborn = λ s h. refl }

given : Option (ℕ × PageCache) → ℕ
given none = 999
given (some (s, c)) = s

owner : Option (ℕ × PageCache) → ℕ → Option ℕ
owner none obj = none
owner (some (s, c)) obj = map_object_to_span obj c

free_of : Option (ℕ × PageCache) → ℕ → List ℕ
free_of none n = []
free_of (some (s, c)) n = c.spanlist n

-- A request of 2 pages splits the 128 new pages.
first_request :
    (given (new_span (address ∷ []) 2 fresh_cache) ≡ 1)
    × (owner (new_span (address ∷ []) 2 fresh_cache) 4100095 ≡ some 1)
    × (owner (new_span (address ∷ []) 2 fresh_cache) 4104192 ≡ some 0)
    × (free_of (new_span (address ∷ []) 2 fresh_cache) 126 ≡ 0 ∷ [])
    × (free_of (new_span (address ∷ []) 2 fresh_cache) 128 ≡ [])
unfolding new_span_loop grow split_span given owner free_of
first_request = (refl, refl, refl, refl, refl)

new_span-Gives_example : Gives fresh_cache 2 (new_span (address ∷ []) 2 fresh_cache)
new_span-Gives_example =
    new_span-Gives fresh_cache address [] 2 (omega arith) fresh_cache-IsSound (λ j h. refl)

freed_big_stays_mapped_example :
    (s : ℕ) × (given : PageCache) × (freed : PageCache) × (alloc_big_page_obj
        (address ∷ [])
        1000000
        fresh_cache
      ≡ some (s, given))
    × (free_big_page_obj s given ≡ some freed)
    × (freed.idspanmap (address / 2 ^ page_shift) ≡ some s)
    × (freed.spans s ≡ none)
freed_big_stays_mapped_example =
    freed_big_stays_mapped fresh_cache address 1000000 (omega arith) (omega arith)
      (λ e. omega arith)

cache_of : Option (ℕ × PageCache) → PageCache
cache_of none = fresh_cache
cache_of (some (s, c)) = c

-- 20 of 128 pages
halves : PageCache
halves = cache_of (new_span (address ∷ []) 20 fresh_cache)

free_after : Option PageCache → ℕ → List ℕ
free_after none n = []
free_after (some c) n = c.spanlist n

-- The released 20 pages do not merge with the 108 pages behind them: the second loop stops at a sum
-- of 128.
halves_stay_apart :
    (free_after (release_span_to_page_cache 1 halves) 20 ≡ 1 ∷ [])
    × (free_after (release_span_to_page_cache 1 halves) 108 ≡ 0 ∷ [])
unfolding new_span_loop grow split_span halves cache_of free_after back_pass forward_pass merge
halves_stay_apart = (refl, refl)
