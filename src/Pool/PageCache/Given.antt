-- ===== src/Pool/PageCache/Given.antt =====
-- `_NewSpan` as a whole: the search of the lists, and the memory that the system adds.
use projects_cpp.Prelude.{
  ℕ, zero, suc, ◌+◌, ◌-◌, ◌≤◌, ◌<◌, ◌≡◌, ◌≢◌, refl, sym, ap, subst, ◌∙◌, Option, none, some, List,
  [], ◌∷◌, All, arith, update, eq_or_ne, true, false, ◌⊎◌, if◌then◌else◌, inl, inr,
}
use projects_cpp.Pool.SizeClass.{npages}
use projects_cpp.Pool.PageCache.{
  PageCache, split_span, pop_list, pop_front, split_popped, split_known, is_empty, from_larger,
  find_span,
}
use projects_cpp.Pool.PageCache.Owned.{IsOffLists, IsSound, Owns-lists}
use projects_cpp.Pool.PageCache.Popped.{IsTaken, popped, popped-IsTaken, IsOffLists-popped}
use projects_cpp.Pool.PageCache.NewSpan.{IsGiven}
use projects_cpp.Pool.PageCache.Split.{split-IsTaken, split-IsSafe}

-- A call that returns a span of `n` pages.
abbrev pub Gives : PageCache → ℕ → Option (ℕ × PageCache) → Type 0
Gives c n o = (s : ℕ) × (d : PageCache) × (o ≡ some (s, d)) × IsGiven c d n s

off_ne :
    (c : PageCache) (n s t : ℕ) (rest : List ℕ) → c.spanlist n ≡ s ∷ rest → IsOffLists c t → t ≢ s
off_ne c n s t rest e off same = (subst (All (λ u. u ≢ t)) e (off n)).0 (sym same)

pop_front-Gives :
    (c : PageCache) (n s : ℕ) (rest : List ℕ)
    → IsSound c
    → c.spanlist n ≡ s ∷ rest
    → Gives c n (pop_front c n)
pop_front-Gives c n s rest ok e = (
  s,
  popped c n rest,
  ap (pop_list c n) e,
  record {
    taken = popped-IsTaken c n s rest ok e;
    safe = λ t span off o. (
      Owns-lists (update c.spanlist n rest) o,
      IsOffLists-popped c n s t rest e off,
      off_ne c n s t rest e off,
    );
  },
)

module _ (c : PageCache) (n i s : ℕ) (rest : List ℕ) (ok : IsSound c) (le : n ≤ i)
    (e : c.spanlist i ≡ s ∷ rest) where
  h : IsTaken (popped c i rest) i s
  h = popped-IsTaken c i s rest ok e

  split_popped-Gives : Gives c n (split_popped n (pop_front c i))
  unfolding split_span
  split_popped-Gives = (
    c.next_span,
    (split_span n s h.home.span (popped c i rest)).1,
    ap (λ l. split_popped n (pop_list c i l)) e
        ∙ ap (split_known n s (popped c i rest)) h.home.owns.at,
    record {
      taken = split-IsTaken (popped c i rest) i s n h le;
      safe = λ t own off o.
          split-IsSafe (popped c i rest) i s n h le t own (off_ne c i s t rest e off)
            (IsOffLists-popped c i s t rest e off) (Owns-lists (update c.spanlist i rest) o);
    },
  )

-- A list is empty, or has a first span.
List-cases : (xs : List ℕ) → (is_empty xs ≡ true) ⊎ ((s : ℕ) × (rest : List ℕ) × (xs ≡ s ∷ rest))
List-cases [] = inl refl
List-cases (s ∷ rest) = inr (s, rest, refl)

true-false : true ≡ false → ⊥
true-false p = cc

empty_before :
    (c : PageCache) (i j s : ℕ) (rest : List ℕ)
    → i ≤ j
    → is_empty (c.spanlist i) ≡ true
    → c.spanlist j ≡ s ∷ rest
    → suc i ≤ j
empty_before c i j s rest lo empty e = elim (eq_or_ne i j) [
  | inl same ↦
      absurd (true-false (sym empty ∙ ap (λ l. is_empty (c.spanlist l)) same ∙ ap is_empty e))
  | inr ne ↦ omega (arith, ne, lo)
]

-- Some list from `i` on, `k` of them, is not empty: the loop gives a span.
from_larger-Gives :
    (c : PageCache) (n i k j s : ℕ) (rest : List ℕ)
    → IsSound c
    → n ≤ i
    → i ≤ j
    → j < i + k
    → c.spanlist j ≡ s ∷ rest
    → Gives c n (from_larger n i k c)
from_larger-Gives c n i zero j s rest ok le lo hi e = absurd (omega arith)
from_larger-Gives c n i (suc k) j s rest ok le lo hi e = elim (List-cases (c.spanlist i)) [
  | inl empty ↦
      subst
        (λ b. Gives c n (if b then from_larger n (suc i) k c else split_popped n (pop_front c i)))
        (sym empty)
        (from_larger-Gives c n (suc i) k j s rest ok (omega arith)
          (empty_before c i j s rest lo empty e) (omega arith) e)
  | inr (t, tail, full) ↦
      subst
        (λ l.
          Gives c n
            (if is_empty l then from_larger n (suc i) k c else split_popped n (pop_front c i)))
        (sym full) (split_popped-Gives c n i t tail ok le full)
]

-- A cache with a span of at least `n` pages on its lists gives one of `n` pages.
pub find_span-Gives :
    (c : PageCache) (n j s : ℕ) (rest : List ℕ)
    → IsSound c
    → n ≤ j
    → j < npages
    → c.spanlist j ≡ s ∷ rest
    → Gives c n (find_span n c)
find_span-Gives c n j s rest ok le hi e = elim (List-cases (c.spanlist n)) [
  | inl empty ↦
      subst (λ b. Gives c n (if b then from_larger n (suc n) (npages - suc n) c else pop_front c n))
        (sym empty)
        (from_larger-Gives c n (suc n) (npages - suc n) j s rest ok (omega arith)
          (empty_before c n j s rest le empty e) (omega arith) e)
  | inr (t, tail, full) ↦
      subst
        (λ l.
          Gives c n
            (if is_empty l then from_larger n (suc n) (npages - suc n) c else pop_front c n))
        (sym full) (pop_front-Gives c n t tail ok full)
]

-- The loop gives a span or finds nothing.
from_larger-cases :
    (c : PageCache) (n i k : ℕ)
    → IsSound c
    → n ≤ i
    → (from_larger n i k c ≡ none) ⊎ Gives c n (from_larger n i k c)
from_larger-cases c n i zero ok le = inl refl
from_larger-cases c n i (suc k) ok le = elim (List-cases (c.spanlist i)) [
  | inl empty ↦
      subst
        (λ b.
          let o = if b then from_larger n (suc i) k c else split_popped n (pop_front c i) in
          (o ≡ none) ⊎ Gives c n o)
        (sym empty) (from_larger-cases c n (suc i) k ok (omega arith))
  | inr (t, tail, full) ↦
      inr (from_larger-Gives c n i (suc k) i t tail ok le (omega arith) (omega arith) full)
]

pub find_span-cases :
    (c : PageCache) (n : ℕ)
    → n < npages
    → IsSound c
    → (find_span n c ≡ none) ⊎ Gives c n (find_span n c)
find_span-cases c n lt ok = elim (List-cases (c.spanlist n)) [
  | inl empty ↦
      subst
        (λ b.
          let o = if b then from_larger n (suc n) (npages - suc n) c else pop_front c n in
          (o ≡ none) ⊎ Gives c n o)
        (sym empty) (from_larger-cases c n (suc n) (npages - suc n) ok (omega arith))
  | inr (t, tail, full) ↦ inr (find_span-Gives c n n t tail ok (omega arith) lt full)
]
