-- ===== src/Pool/PageCache/Joined.antt =====
-- One span takes the pages of the span behind it or before it.
use projects_cpp.Prelude.{
  ℕ, ◌+◌, ◌^◌, ◌≡◌, ◌≢◌, ◌≤◌, ◌<◌, ◌⊎◌, refl, sym, ap, subst, ◌∙◌, none, some, All, inl, inr, arith,
  update, update_self, update_ne, eq_or_ne, ltb, Bool-cases, ltb→lt, ◌-◌,
}
use projects_cpp.Pool.PageCache.{Span, PageCache, map_pages}
use projects_cpp.Pool.PageCache.Release.{merge}
use projects_cpp.Pool.PageCache.Owned.{Owns, IsOffLists, IsSound, Keeps, IsSound-Keeps}
use projects_cpp.Pool.PageCache.Mapped.{map_pages_in, map_pages_out, page_cases}
use projects_cpp.Pool.PageCache.NewSpan.{unborn_ne}
use projects_cpp.Pool.PageCache.Popped.{Owns-unique, same_owner}

abbrev pub IsListed : PageCache → ℕ → ℕ → Type 0
IsListed c n t = All (λ u. u ≢ t) (c.spanlist n) → ⊥

-- Page `q` is mapped to span `t`, one of its own pages. The span is one of `X`, in use, or on the
-- list of its size.
pub record IsBacked (X : ℕ → Type 0) (c : PageCache) (q t : ℕ) : Type 0 where
  pub own : Span
  pub owns : Owns c t own
  pub from : own.page_id ≤ q
  pub below : q < own.page_id + own.npage
  pub address : q < 2 ^ 52
  pub use_of : X t ⊎ ((own.usecount ≢ 0) ⊎ IsListed c own.npage t)

abbrev pub IsMapped : (ℕ → Type 0) → PageCache → Type 0
IsMapped X c = (q t : ℕ) → c.idspanmap q ≡ some t → IsBacked X c q t

module _ (c : PageCache) (first : ℕ) (a : Span) (second : ℕ) (b : Span) (ok : IsSound c)
    (off1 : IsOffLists c first) (off2 : IsOffLists c second) (own1 : Owns c first a)
    (own2 : Owns c second b) (ne : first ≢ second)
    (adjacent : (a.page_id + a.npage ≡ b.page_id)) where
  abbrev pub joined : Span
  joined = record a { npage = a.npage + b.npage }

  -- The first span has its new size, and no page is mapped anew.
  abbrev grown : PageCache
  grown = record c { spans = update c.spans first (some joined) }

  grown-Keeps : Keeps first c grown
  grown-Keeps t own k o = record {
    at = update_ne c.spans first (some joined) k ∙ o.at;
    pages = o.pages;
  }

  grown-IsSound : IsSound grown
  grown-IsSound = IsSound-Keeps ok off1 grown-Keeps refl (λ t later.
      update_ne c.spans first (some joined)
        (λ e. unborn_ne {c = c} (ok.unborn t later) own1 (sym e))
      ∙ ok.unborn t later)

  second-in-grown : Owns grown second b
  second-in-grown = grown-Keeps second b (λ e. ne (sym e)) own2

  -- From there to the merged state only the second span loses its pages.
  merge-Keeps : Keeps second grown (merge first a second b c)
  unfolding merge
  merge-Keeps t own k o = record {
    at = update_ne grown.spans second none k ∙ o.at;
    pages = λ j lt. elim (page_cases (own.page_id + j) b.page_id b.npage) [
      | inl (i, below, e) ↦
          absurd (k (same_owner (o.pages j lt) (ap c.idspanmap e ∙ own2.pages i below)))
      | inr out ↦
          map_pages_out c.idspanmap b.page_id b.npage first (own.page_id + j) out ∙ o.pages j lt
    ];
  }

  pub merge-IsSound : IsSound (merge first a second b c)
  unfolding merge
  merge-IsSound = IsSound-Keeps grown-IsSound off2 merge-Keeps refl (λ t later.
      update_ne grown.spans second none (λ e. unborn_ne {c = c} (ok.unborn t later) own2 (sym e))
      ∙ grown-IsSound.unborn t later)

  pub merge-Owns :
      (t : ℕ) (own : Span)
      → t ≢ first
      → t ≢ second
      → Owns c t own
      → Owns (merge first a second b c) t own
  merge-Owns t own k l o = merge-Keeps t own l (grown-Keeps t own k o)

  pub joined-Owns : Owns (merge first a second b c) first joined
  unfolding merge
  joined-Owns = record {
    at = update_ne grown.spans second none ne ∙ update_self c.spans first (some joined);
    pages = λ j lt. elim (page_cases (a.page_id + j) b.page_id b.npage) [
      | inl (i, below, e) ↦
          subst (λ q. map_pages c.idspanmap b.page_id b.npage first q ≡ some first) (sym e)
            (map_pages_in c.idspanmap b.page_id b.npage first i below)
      | inr out ↦
          map_pages_out c.idspanmap b.page_id b.npage first (a.page_id + j) out
          ∙ own1.pages j (before j lt out)
    ];
  }
    where
      before :
          (j : ℕ)
          → j < a.npage + b.npage
          → ((i : ℕ) → i < b.npage → a.page_id + j ≢ b.page_id + i)
          → j < a.npage
      before j lt out = elim (Bool-cases (ltb j a.npage)) [
        | inl h ↦ ltb→lt j a.npage h
        | inr h ↦
            let over : a.npage ≤ j = ground arith in
            absurd (out (j - a.npage) (omega (arith, over, lt)) (omega (arith, over, adjacent)))
      ]

  pub merge-IsMapped :
      IsMapped (λ t. (t ≡ first) ⊎ (t ≡ second)) c
      → IsMapped (λ t. t ≡ first) (merge first a second b c)
  unfolding merge
  merge-IsMapped maps q t e = elim (page_cases q b.page_id b.npage) [
    | inl (i, below, at) ↦
        subst (IsBacked (λ u. u ≡ first) (merge first a second b c) q)
          (same_owner
            (ap (map_pages c.idspanmap b.page_id b.npage first) at
              ∙ map_pages_in c.idspanmap b.page_id b.npage first i below)
            e)
          (at_first q (omega (arith, adjacent)) (omega (arith, adjacent))
            (maps q second (ap c.idspanmap at ∙ own2.pages i below)).address)
    | inr out ↦
        outside q t out
          (maps q t (sym (map_pages_out c.idspanmap b.page_id b.npage first q out) ∙ e))
  ]
    where
      at_first :
          (q : ℕ)
          → a.page_id ≤ q
          → q < a.page_id + (a.npage + b.npage)
          → q < 2 ^ 52
          → IsBacked (λ u. u ≡ first) (merge first a second b c) q first
      at_first q from below address = record {
        own = joined;
        owns = joined-Owns;
        from = from;
        below = below;
        address = address;
        use_of = inl refl;
      }

      outside :
          (q t : ℕ)
          → ((i : ℕ) → i < b.npage → q ≢ b.page_id + i)
          → IsBacked (λ u. (u ≡ first) ⊎ (u ≡ second)) c q t
          → IsBacked (λ u. u ≡ first) (merge first a second b c) q t
      outside q t out k = elim (eq_or_ne t second) [
        | inl same ↦
            let (page, size) = Owns-unique (subst (λ u. Owns c u k.own) same k.owns) own2 in
            absurd (
              out (q - b.page_id) (omega (arith, page, size, k.from, k.below))
                (omega (arith, page, size, k.from, k.below)))
        | inr ne2 ↦ elim (eq_or_ne t first) [
          | inl same ↦
              let (page, size) = Owns-unique (subst (λ u. Owns c u k.own) same k.owns) own1 in
              subst (IsBacked (λ u. u ≡ first) (merge first a second b c) q) (sym same) (
                at_first q (omega (arith, page, size, k.from, k.below))
                  (omega (arith, page, size, k.from, k.below)) k.address)
          | inr ne1 ↦ record {
            own = k.own;
            owns = merge-Owns t k.own ne1 ne2 k.owns;
            from = k.from;
            below = k.below;
            address = k.address;
            use_of = elim k.use_of [
              | inl (inl same) ↦ absurd (ne1 same)
              | inl (inr same) ↦ absurd (ne2 same)
              | inr busy ↦ inr busy
            ];
          }
        ]
      ]
