-- ===== src/Pool/PageCache/NewSpan.antt =====
-- `_NewSpan`: the span that is given, and what the spans given before keep.
use projects_cpp.Prelude.{ℕ, ◌≡◌, ◌≢◌, subst, Option, none, some, ◌∷◌, All}
use projects_cpp.Pool.PageCache.{Span, PageCache, push_front}
use projects_cpp.Pool.PageCache.Owned.{Owns, IsOffLists, IsSound, All-mono}
use projects_cpp.Pool.PageCache.Popped.{IsTaken, popped-lists}

-- Span `s` is given, and a span that was given before keeps its pages and stays off the lists.
pub record IsGiven (c d : PageCache) (n s : ℕ) : Type 0 where
  pub taken : IsTaken d n s
  pub safe :
      (t : ℕ) (span : Span)
      → IsOffLists c t
      → Owns c t span
      → Owns d t span × IsOffLists d t × (t ≢ s)

pub none-some : {A : Type 0} {o : Option A} {a : A} → o ≡ none → o ≡ some a → ⊥
none-some e k = cc

pub unborn_ne :
    {c : PageCache} {q : ℕ} → c.spans q ≡ none → {t : ℕ} {span : Span} → Owns c t span → t ≢ q
unborn_ne {c = c} free {span = span} o e =
    none-some free (subst (λ k. c.spans k ≡ some span) e o.at)

-- A span that is not born is on no list.
pub unborn-IsOffLists : {c : PageCache} {q : ℕ} → IsSound c → c.spans q ≡ none → IsOffLists c q
unborn-IsOffLists {c = c} ok free n =
    All-mono (λ t h. unborn_ne free h.owns) (c.spanlist n) (ok.home n)

pub push_front-IsOffLists :
    (c : PageCache) (n s : ℕ) {t : ℕ} → s ≢ t → IsOffLists c t → IsOffLists (push_front c n s) t
push_front-IsOffLists c n s {t = t} ne off =
    popped-lists (λ k xs. All (λ u. u ≢ t) xs) c n (s ∷ c.spanlist n) (ne, off n) (λ k h. off k)
