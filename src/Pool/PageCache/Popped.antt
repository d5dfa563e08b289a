-- ===== src/Pool/PageCache/Popped.antt =====
-- What `PopFront` of a page cache's list leaves.
use projects_cpp.Prelude.{
  ℕ, ◌≡◌, ◌≢◌, sym, ap, subst, ◌∙◌, Option, none, some, List, ◌∷◌, All, update, update_self,
  update_ne, eq_or_ne, inl, inr,
}
use projects_cpp.Pool.PageCache.{Span, PageCache}
use projects_cpp.Pool.PageCache.Owned.{
  Owns, IsHome, IsOffLists, Distinct, IsSound, All-mono, IsHome-lists,
}

-- A list without its first span.
abbrev pub popped : PageCache → ℕ → List ℕ → PageCache
popped c n rest = record c { spanlist = update c.spanlist n rest }

-- Span `s` was taken from its list: it is on none of them.
pub record IsTaken (c : PageCache) (n s : ℕ) : Type 0 where
  pub sound : IsSound c
  pub home : IsHome c n s
  pub off : IsOffLists c s

npage_of : Option Span → ℕ
npage_of none = 0
npage_of (some span) = span.npage

page_of : Option Span → ℕ
page_of none = 0
page_of (some span) = span.page_id

pub Owns-unique :
    {c : PageCache} {s : ℕ} {a b : Span}
    → Owns c s a
    → Owns c s b
    → (a.page_id ≡ b.page_id) × (a.npage ≡ b.npage)
unfolding page_of npage_of
Owns-unique h k = (ap page_of (sym h.at ∙ k.at), ap npage_of (sym h.at ∙ k.at))

count_of : Option Span → ℕ
count_of none = 0
count_of (some span) = span.usecount

pub Owns-usecount :
    {c : PageCache} {s : ℕ} {a b : Span} → Owns c s a → Owns c s b → a.usecount ≡ b.usecount
unfolding count_of
Owns-usecount h k = ap count_of (sym h.at ∙ k.at)

owner_of : Option ℕ → ℕ
owner_of none = 0
owner_of (some s) = s

pub same_owner : {o : Option ℕ} {s t : ℕ} → o ≡ some s → o ≡ some t → s ≡ t
unfolding owner_of
same_owner h k = ap owner_of (sym h ∙ k)

IsHome-unique : {c : PageCache} {m n s : ℕ} → IsHome c m s → IsHome c n s → m ≡ n
unfolding npage_of
IsHome-unique h k = sym h.size ∙ ap npage_of (sym h.owns.at ∙ k.owns.at) ∙ k.size

-- Every list but list `n` is as it was.
module _ (P : (n : ℕ) → List ℕ → Type 0) (c : PageCache) (n : ℕ) (rest : List ℕ) where
  pub popped-lists :
      P n rest
      → ((m : ℕ) → m ≢ n → P m (c.spanlist m))
      → (m : ℕ) → P m ((popped c n rest).spanlist m)
  popped-lists here there m = elim (eq_or_ne m n) [
    | inl e ↦
        subst (λ k. P k (update c.spanlist n rest k)) (sym e)
          (subst (P n) (sym (update_self c.spanlist n rest)) here)
    | inr ne ↦ subst (P m) (sym (update_ne c.spanlist n rest ne)) (there m ne)
  ]

-- A span that is on no list is on none after a pop.
pub IsOffLists-popped :
    (c : PageCache) (n s t : ℕ) (rest : List ℕ)
    → c.spanlist n ≡ s ∷ rest
    → IsOffLists c t
    → IsOffLists (popped c n rest) t
IsOffLists-popped c n s t rest e off =
    popped-lists (λ m xs. All (λ u. u ≢ t) xs) c n rest (subst (All (λ u. u ≢ t)) e (off n)).1
      (λ m ne. off m)

-- The rest of a list whose spans are distinct, without `s`.
pub remaining-IsTaken :
    (c : PageCache) (n s : ℕ) (rest : List ℕ)
    → IsSound c
    → IsHome c n s
    → All (IsHome c n) rest
    → Distinct rest
    → All (λ t. t ≢ s) rest
    → IsTaken (popped c n rest) n s
remaining-IsTaken c n s rest ok home homes distinct others = record {
  sound = record {
    home = λ m.
        All-mono (λ t h. IsHome-lists (update c.spanlist n rest) h) (update c.spanlist n rest m)
          (popped-lists (λ k xs. All (IsHome c k) xs) c n rest homes (λ k ne. ok.home k) m);
    once = popped-lists (λ k xs. Distinct xs) c n rest distinct (λ k ne. ok.once k);
    unborn = ok.unborn;
  };
  home = IsHome-lists (update c.spanlist n rest) home;
  off =
      popped-lists (λ k xs. All (λ t. t ≢ s) xs) c n rest others
        (λ k ne.
          All-mono (λ t h same. ne (IsHome-unique (subst (IsHome c k) same h) home)) (c.spanlist k)
            (ok.home k));
}

pub popped-IsTaken :
    (c : PageCache) (n s : ℕ) (rest : List ℕ)
    → IsSound c
    → c.spanlist n ≡ s ∷ rest
    → IsTaken (popped c n rest) n s
popped-IsTaken c n s rest ok e =
    remaining-IsTaken c n s rest ok homes.0 homes.1 distinct.1 distinct.0
  where
    homes : All (IsHome c n) (s ∷ rest)
    homes = subst (All (IsHome c n)) e (ok.home n)

    distinct : Distinct (s ∷ rest)
    distinct = subst Distinct e (ok.once n)
