-- ===== src/Pool/PageCache/Erased.antt =====
-- What `Erase` of a span from its list leaves.
use projects_cpp.Prelude.{
  ℕ, ◌≡◌, ◌≢◌, ◌⊎◌, ◌==◌, sym, ap, subst, ◌∙◌, some, List, [], ◌∷◌, All, inl, inr, eq_or_ne, arith,
  true, false, if◌then◌else◌,
}
use projects_cpp.Pool.PageCache.{PageCache}
use projects_cpp.Pool.PageCache.Release.{without, cons_to}
use projects_cpp.Pool.PageCache.Owned.{IsHome, IsOffLists, Distinct, IsSound}
use projects_cpp.Pool.PageCache.Popped.{popped, popped-lists, IsTaken, remaining-IsTaken}

-- List `ys` is `xs` without one `p`.
pub record IsRemoved (p : ℕ) (xs ys : List ℕ) : Type 1 where
  pub parts : (P : ℕ → Type 0) → All P xs → P p × All P ys
  pub whole : (P : ℕ → Type 0) → P p → All P ys → All P xs
  pub once : Distinct xs → Distinct ys × All (λ t. t ≢ p) ys

here_IsRemoved : (p : ℕ) (xs : List ℕ) → IsRemoved p (p ∷ xs) xs
here_IsRemoved p xs = record { parts = λ P h. h; whole = λ P h hs. (h, hs); once = λ h. (h.1, h.0) }

there_IsRemoved :
    (p x : ℕ) (xs ys : List ℕ) → x ≢ p → IsRemoved p xs ys → IsRemoved p (x ∷ xs) (x ∷ ys)
there_IsRemoved p x xs ys ne r = record {
  parts = λ P h. ((r.parts P h.1).0, (h.0, (r.parts P h.1).1));
  whole = λ P h hs. (hs.0, r.whole P h hs.1);
  once = λ h. (((r.parts (λ t. t ≢ x) h.0).1, (r.once h.1).0), (ne, (r.once h.1).1));
}

-- A span is not on a list, or can be erased from it.
pub without-cases :
    (p : ℕ) (xs : List ℕ)
    → All (λ t. t ≢ p) xs ⊎ ((ys : List ℕ) × (without p xs ≡ some ys) × IsRemoved p xs ys)
without-cases p [] = inl tt
without-cases p (x ∷ xs) = elim (eq_or_ne x p) [
  | inl e ↦ inr (
    xs,
    ap (λ b. if b then some xs else cons_to x (without p xs)) (eqb e),
    subst (λ y. IsRemoved p (y ∷ xs) xs) (sym e) (here_IsRemoved p xs),
  )
  | inr ne ↦ elim (without-cases p xs) [
    | inl off ↦ inl (ne, off)
    | inr (ys, e, r) ↦ inr (
      x ∷ ys,
      ap (λ b. if b then some xs else cons_to x (without p xs)) (neb ne) ∙ ap (cons_to x) e,
      there_IsRemoved p x xs ys ne r,
    )
  ]
]
  where
    eqb : x ≡ p → (p == x) ≡ true
    eqb e = ground arith

    neb : x ≢ p → (p == x) ≡ false
    neb ne = ground arith

pub erased-IsTaken :
    (c : PageCache) (n p : ℕ) (ys : List ℕ)
    → IsSound c
    → IsRemoved p (c.spanlist n) ys
    → IsTaken (popped c n ys) n p
erased-IsTaken c n p ys ok r =
    let homes = r.parts (IsHome c n) (ok.home n) in
    remaining-IsTaken c n p ys ok homes.0 homes.1 (r.once (ok.once n)).0 (r.once (ok.once n)).1

-- A span that is on no list is on none afterwards; another span that is on no list afterwards was
-- on none.
pub IsOffLists-erased :
    (c : PageCache) (n p t : ℕ) (ys : List ℕ)
    → IsRemoved p (c.spanlist n) ys
    → IsOffLists c t
    → IsOffLists (popped c n ys) t
IsOffLists-erased c n p t ys r off =
    popped-lists (λ m xs. All (λ u. u ≢ t) xs) c n ys (r.parts (λ u. u ≢ t) (off n)).1
      (λ m ne. off m)

-- A span other than the erased one is on the same lists as before.
pub off-erased :
    (c : PageCache) (n p t : ℕ) (ys : List ℕ)
    → IsRemoved p (c.spanlist n) ys
    → p ≢ t
    → (m : ℕ) → All (λ u. u ≢ t) ((popped c n ys).spanlist m)
    → All (λ u. u ≢ t) (c.spanlist m)
off-erased c n p t ys r ne m =
    popped-lists (λ k xs. All (λ u. u ≢ t) xs → All (λ u. u ≢ t) (c.spanlist k)) c n ys
      (r.whole (λ u. u ≢ t) ne) (λ k h off. off) m
