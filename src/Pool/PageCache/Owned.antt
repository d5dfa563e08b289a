-- ===== src/Pool/PageCache/Owned.antt =====
-- Whose the pages are in a page cache, and what pushing and popping a list does to it.
use projects_cpp.Prelude.{
  ℕ, ◌+◌, ◌≤◌, ◌<◌, ◌≡◌, ◌≢◌, sym, subst, none, some, List, [], ◌∷◌, All, update, update_self,
  update_ne, eq_or_ne, inl, inr,
}
use projects_cpp.Pool.PageCache.{Span, PageCache, push_front}

-- Span `s` of the heap is `span`, and all of its pages are mapped to it.
pub record Owns (c : PageCache) (s : ℕ) (span : Span) : Type 0 where
  pub at : c.spans s ≡ some span
  pub pages : (i : ℕ) → i < span.npage → c.idspanmap (span.page_id + i) ≡ some s

-- A span of `n` pages that nothing uses.
pub record IsHome (c : PageCache) (n s : ℕ) : Type 0 where
  pub span : Span
  pub owns : Owns c s span
  pub size : span.npage ≡ n
  pub free : span.usecount ≡ 0

abbrev pub IsOffLists : PageCache → ℕ → Type 0
IsOffLists c s = (n : ℕ) → All (λ t. t ≢ s) (c.spanlist n)

abbrev pub Distinct : List ℕ → Type 0
Distinct [] = Unit
Distinct (x ∷ xs) = All (λ t. t ≢ x) xs × Distinct xs

-- The spans of list `n` have `n` pages, which are mapped to them, and stand there once.
pub record IsSound (c : PageCache) : Type 0 where
  pub home : (n : ℕ) → All (IsHome c n) (c.spanlist n)
  pub once : (n : ℕ) → Distinct (c.spanlist n)
  pub unborn : (s : ℕ) → c.next_span ≤ s → c.spans s ≡ none

-- What any span but `s` owns it still owns.
abbrev pub Keeps : ℕ → PageCache → PageCache → Type 0
Keeps s c d = (t : ℕ) (span : Span) → t ≢ s → Owns c t span → Owns d t span

pub All-map {κ} :
    {P Q R : ℕ → Type κ} (f : (t : ℕ) → P t → Q t → R t) (xs : List ℕ)
    → All P xs
    → All Q xs
    → All R xs
All-map f [] p q = tt
All-map f (x ∷ xs) p q = (f x p.0 q.0, All-map f xs p.1 q.1)

pub IsHome-Keeps :
    {c d : PageCache} {s : ℕ} → Keeps s c d → (n t : ℕ) → IsHome c n t → t ≢ s → IsHome d n t
IsHome-Keeps keep n t h ne = record {
  span = h.span;
  owns = keep t h.span ne h.owns;
  size = h.size;
  free = h.free;
}

-- A step that keeps the lists, and touches only a span that is on none of them.
pub IsSound-Keeps :
    {c d : PageCache} {s : ℕ}
    → IsSound c
    → IsOffLists c s
    → Keeps s c d
    → d.spanlist ≡ c.spanlist
    → ((t : ℕ) → d.next_span ≤ t → d.spans t ≡ none)
    → IsSound d
IsSound-Keeps {c = c} {d = d} ok off keep same unborn = record {
  home = λ n.
      subst (λ l. All (IsHome d n) (l n)) (sym same)
        (All-map (IsHome-Keeps keep n) (c.spanlist n) (ok.home n) (off n));
  once = λ n. subst (λ l. Distinct (l n)) (sym same) (ok.once n);
  unborn = unborn;
}

pub Owns-lists :
    {c : PageCache} (lists : ℕ → List ℕ) {t : ℕ} {span : Span}
    → Owns c t span
    → Owns (record c { spanlist = lists }) t span
Owns-lists lists o = record { at = o.at; pages = o.pages }

pub IsHome-lists :
    {c : PageCache} (lists : ℕ → List ℕ) {n t : ℕ}
    → IsHome c n t
    → IsHome (record c { spanlist = lists }) n t
IsHome-lists lists h = record {
  span = h.span;
  owns = Owns-lists lists h.owns;
  size = h.size;
  free = h.free;
}

pub All-mono {κ} : {P R : ℕ → Type κ} (f : (t : ℕ) → P t → R t) (xs : List ℕ) → All P xs → All R xs
All-mono f [] p = tt
All-mono f (x ∷ xs) p = (f x p.0, All-mono f xs p.1)

pub push_front-IsSound :
    (c : PageCache) (n s : ℕ)
    → IsSound c
    → IsHome c n s
    → IsOffLists c s
    → IsSound (push_front c n s)
push_front-IsSound c n s ok home off = record {
  home = λ m.
      All-mono (λ t h. IsHome-lists lists h) (lists m)
        (elim (eq_or_ne m n) [
          | inl e ↦
              subst (λ k. All (IsHome c k) (lists k)) (sym e)
                (subst (All (IsHome c n)) (sym (update_self c.spanlist n (s ∷ c.spanlist n)))
                  (home, ok.home n))
          | inr ne ↦
              subst (All (IsHome c m)) (sym (update_ne c.spanlist n (s ∷ c.spanlist n) ne))
                (ok.home m)
        ]);
  once = λ m. elim (eq_or_ne m n) [
    | inl e ↦
        subst (λ k. Distinct (lists k)) (sym e)
          (subst Distinct (sym (update_self c.spanlist n (s ∷ c.spanlist n))) (off n, ok.once n))
    | inr ne ↦ subst Distinct (sym (update_ne c.spanlist n (s ∷ c.spanlist n) ne)) (ok.once m)
  ];
  unborn = ok.unborn;
}
  where
    lists : ℕ → List ℕ
    lists = update c.spanlist n (s ∷ c.spanlist n)
