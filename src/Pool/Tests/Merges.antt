-- ===== src/Pool/Tests/Merges.antt =====
-- A release that merges two spans.
use projects_cpp.Prelude.{
  ℕ, ◌+◌, ◌≡◌, ◌≢◌, ◌<◌, refl, sym, subst, ◌∙◌, Option, none, some, List, [], ◌∷◌, All, arith,
  update, update_ne, inl, inr,
}
use projects_cpp.Pool.PageCache.{Span, PageCache, fresh_cache, map_pages}
use projects_cpp.Pool.PageCache.Release.{release_span_to_page_cache, back_pass, forward_pass, merge}
use projects_cpp.Pool.PageCache.Owned.{Owns, IsHome, IsSound, Distinct}
use projects_cpp.Pool.PageCache.Popped.{popped-lists, same_owner}
use projects_cpp.Pool.PageCache.Mapped.{map_pages_in, map_pages_out, page_cases}
use projects_cpp.Pool.PageCache.Joined.{IsBacked, IsMapped}
use projects_cpp.Pool.PageCache.Merging.{IsReleasing, KeepsUsed}
use projects_cpp.Pool.PageCache.Released.{release-KeepsUsed}

abbrev front : Span
front = record { page_id = 1000; npage = 20; objsize = 0; usecount = 0 }

abbrev behind : Span
behind = record { page_id = 1020; npage = 100; objsize = 0; usecount = 0 }

abbrev behind_map : ℕ → Option ℕ
behind_map = map_pages (λ p. none) 1020 100 0

-- Span 1 of 20 pages is released; span 0 of the 100 pages behind it is free.
abbrev two_spans : PageCache
two_spans = record {
  spanlist = update (λ n. []) 100 (0 ∷ []);
  idspanmap = map_pages behind_map 1000 20 1;
  spans = update (update (λ s. none) 0 (some behind)) 1 (some front);
  next_span = 2;
}

free_spans : Option PageCache → ℕ → List ℕ
free_spans none n = []
free_spans (some c) n = c.spanlist n

one_span : free_spans (release_span_to_page_cache 1 two_spans) 120 ≡ 1 ∷ []
unfolding free_spans back_pass forward_pass merge
one_span = refl

lists_of :
    (P : (n : ℕ) → List ℕ → Type 0)
    → P 100 (0 ∷ [])
    → ((n : ℕ) → P n [])
    → (n : ℕ) → P n (two_spans.spanlist n)
lists_of P here there = popped-lists P fresh_cache 100 (0 ∷ []) here (λ m ne. there m)

behind-Owns : Owns two_spans 0 behind
behind-Owns = record {
  at = refl;
  pages = λ i lt.
      map_pages_out behind_map 1000 20 1 (1020 + i) (λ j below e. omega arith)
      ∙ map_pages_in (λ p. none) 1020 100 0 i lt;
}

front-Owns : Owns two_spans 1 front
front-Owns = record { at = refl; pages = map_pages_in behind_map 1000 20 1 }

two_spans-IsSound : IsSound two_spans
two_spans-IsSound = record {
  home =
      lists_of (λ n xs. All (IsHome two_spans n) xs)
        (record { span = behind; owns = behind-Owns; size = refl; free = refl }, tt) (λ n. tt);
  once = lists_of (λ n xs. Distinct xs) (tt, tt) (λ n. tt);
  unborn = λ s late.
      update_ne (update (λ s. none) 0 (some behind)) 1 (some front) {j = s} (omega (arith, late))
      ∙ update_ne (λ s. none) 0 (some behind) {j = s} (omega (arith, late));
}

two_spans-IsMapped : IsMapped (λ t. t ≡ 1) two_spans
two_spans-IsMapped q t e = elim (page_cases q 1000 20) [
  | inl (i, below, at) ↦
      subst (IsBacked (λ u. u ≡ 1) two_spans q)
        (same_owner
          (subst (λ r. map_pages behind_map 1000 20 1 r ≡ some 1) (sym at)
            (map_pages_in behind_map 1000 20 1 i below))
          e)
        (record {
          own = front;
          owns = front-Owns;
          from = omega (arith, at);
          below = omega (arith, at, below);
          address = omega (arith, at, below);
          use_of = inl refl;
        })
  | inr out ↦ second out
]
  where
    none-some : {o : Option ℕ} → o ≡ none → o ≡ some t → ⊥
    none-some a b = cc

    second : ((i : ℕ) → i < 20 → q ≢ 1000 + i) → IsBacked (λ u. u ≡ 1) two_spans q t
    second out = elim (page_cases q 1020 100) [
      | inl (i, below, at) ↦
          subst (IsBacked (λ u. u ≡ 1) two_spans q)
            (same_owner
              (subst (λ r. behind_map r ≡ some 0) (sym at)
                (map_pages_in (λ p. none) 1020 100 0 i below))
              (sym (map_pages_out behind_map 1000 20 1 q out) ∙ e))
            (record {
              own = behind;
              owns = behind-Owns;
              from = omega (arith, at);
              below = omega (arith, at, below);
              address = omega (arith, at, below);
              use_of = inr (inr (λ off. off.0 refl));
            })
      | inr out2 ↦ absurd (
          none-some (map_pages_out (λ p. none) 1020 100 0 q out2)
            (sym (map_pages_out behind_map 1000 20 1 q out) ∙ e))
    ]

two_spans-IsReleasing : IsReleasing two_spans 1
two_spans-IsReleasing = record {
  sound = two_spans-IsSound;
  off = lists_of (λ n xs. All (λ t. t ≢ 1) xs) ((λ e. omega arith), tt) (λ n. tt);
  cur = front;
  owns = front-Owns;
  free = refl;
  pages = omega arith;
  small = omega arith;
  maps = two_spans-IsMapped;
}

release-KeepsUsed_example :
    (d : PageCache) × (release_span_to_page_cache 1 two_spans ≡ some d)
    × IsSound d
    × KeepsUsed two_spans d
release-KeepsUsed_example = release-KeepsUsed two_spans 1 two_spans-IsReleasing
