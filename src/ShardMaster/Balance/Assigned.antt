-- ===== src/ShardMaster/Balance/Assigned.antt =====
-- The shards of a configuration after the loads are written into it.
use projects_cpp.Prelude.{
  ℕ, ◌+◌, ◌≡◌, ◌≢◌, ◌≤◌, ◌<◌, refl, sym, ap, subst, ◌∙◌, Option, none, some, List, [], ◌∷◌, length,
  arith, ◌==◌, ltb, eq_or_ne, inl, inr, set, get_elem?, length-set, get_elem?-set_self,
  get_elem?-set_ne,
}
use projects_cpp.Prelude.Int.{ℤ, eqb_ℤ, eqb_ℤ-refl, eqb_ℤ-ne}
use projects_cpp.Prelude.Maps.{keys, IsIn, here, there, DistinctKeys, sum_of, IsIn-unique}
use projects_cpp.ShardMaster.Balance.{WorkLoad, assign_load, assign_all}
use projects_cpp.ShardMaster.Balance.Counts.{
  one_if, count, sum_below, sum_below-eq, length-eq-sum_below,
}

pub length-assign_load :
    (g : ℤ) (s : List ℕ) (xs : List ℤ) → length (assign_load g s xs) ≡ length xs
length-assign_load g [] xs = refl
length-assign_load g (x ∷ s) xs = length-assign_load g s (set xs x g) ∙ length-set xs x g

pub length-assign_all : (m : WorkLoad) (xs : List ℤ) → length (assign_all m xs) ≡ length xs
unfolding assign_all
length-assign_all [] xs = refl
length-assign_all ((g, s) ∷ m) xs =
    length-assign_all m (assign_load g s xs) ∙ length-assign_load g s xs

get_elem?-assign_load_out :
    (g : ℤ) (s : List ℕ) (xs : List ℤ) (i : ℕ)
    → count i s ≡ 0
    → get_elem? (assign_load g s xs) i ≡ get_elem? xs i
get_elem?-assign_load_out g [] xs i h = refl
get_elem?-assign_load_out g (x ∷ s) xs i h =
    get_elem?-assign_load_out g s (set xs x g) i (omega (arith, h))
    ∙ get_elem?-set_ne xs g (apart h)
  where
    apart : one_if (x == i) + count i s ≡ 0 → x ≢ i
    apart e same = ground arith

get_elem?-assign_load_in :
    (g : ℤ) (s : List ℕ) (xs : List ℤ) (i : ℕ)
    → 0 < count i s
    → i < length xs
    → get_elem? (assign_load g s xs) i ≡ some g
get_elem?-assign_load_in g [] xs i h lt = elim h [ ]
get_elem?-assign_load_in g (x ∷ s) xs i h lt = elim (eq_or_ne (count i s) 0) [
  | inr more ↦
      get_elem?-assign_load_in g s (set xs x g) i (omega (arith, more))
        (omega (arith, length-set xs x g, lt))
  | inl last ↦
      get_elem?-assign_load_out g s (set xs x g) i last
      ∙ ap (λ j. get_elem? (set xs j g) i) (this h last)
      ∙ get_elem?-set_self xs i g lt
]
  where
    this : 0 < one_if (x == i) + count i s → count i s ≡ 0 → x ≡ i
    this h last = ground arith

get_elem?-assign_all_out :
    (m : WorkLoad) (xs : List ℤ) (i : ℕ)
    → sum_of (count i) m ≡ 0
    → get_elem? (assign_all m xs) i ≡ get_elem? xs i
unfolding assign_all
get_elem?-assign_all_out [] xs i h = refl
get_elem?-assign_all_out ((g, s) ∷ m) xs i h =
    get_elem?-assign_all_out m (assign_load g s xs) i (omega (arith, h))
    ∙ get_elem?-assign_load_out g s xs i (omega (arith, h))

pub IsIn-le-sum_of :
    (weight : List ℕ → ℕ) {g : ℤ} {s : List ℕ} {m : WorkLoad}
    → IsIn g s m
    → weight s ≤ sum_of weight m
IsIn-le-sum_of weight (here e f) = omega (arith, ap weight f)
IsIn-le-sum_of weight (there r) = omega (arith, IsIn-le-sum_of weight r)

-- A shard that is in one load goes to its group.
pub get_elem?-assign_all :
    {g : ℤ} {s : List ℕ} {m : WorkLoad}
    → IsIn g s m
    → (xs : List ℤ) (i : ℕ) → 0 < count i s
    → sum_of (count i) m ≤ 1
    → i < length xs
    → get_elem? (assign_all m xs) i ≡ some g
unfolding assign_all
get_elem?-assign_all {g = g} {s = s} (here {j = j} {w = w} {m = m} e f) xs i pos_count once lt =
    get_elem?-assign_all_out m (assign_load j w xs) i
      (omega (arith, ap (count i) f, once, pos_count))
    ∙ get_elem?-assign_load_in j w xs i (omega (arith, ap (count i) f, pos_count)) lt
    ∙ ap some (sym e)
get_elem?-assign_all (there {j = j} {w = w} {m = m} r) xs i pos_count once lt =
    get_elem?-assign_all r (assign_load j w xs) i pos_count (omega (arith, once))
      (omega (arith, lt, length-assign_load j w xs))

-- A shard that is counted is in some load.
pub owner :
    (i : ℕ) (m : WorkLoad)
    → 0 < sum_of (count i) m
    → (g : ℤ) × (s : List ℕ) × IsIn g s m × (0 < count i s)
owner i [] h = elim h [ ]
owner i ((g, s) ∷ m) h = elim (eq_or_ne (count i s) 0) [
  | inr more ↦ (g, s, here refl refl, omega (arith, more))
  | inl zero_count ↦
      let (k, t, p, c) = owner i m (omega (arith, zero_count, h)) in (k, t, there p, c)
]

-- How many shards a group has.
abbrev pub shards_of : ℤ → List ℤ → ℕ
shards_of g [] = 0
shards_of g (h ∷ hs) = one_if (eqb_ℤ h g) + shards_of g hs

abbrev pub is_group : ℤ → Option ℤ → ℕ
is_group g none = 0
is_group g (some h) = one_if (eqb_ℤ h g)

shards_of-sum_below :
    (g : ℤ) (xs : List ℤ)
    → shards_of g xs ≡ sum_below (length xs) (λ i. is_group g (get_elem? xs i))
shards_of-sum_below g [] = refl
shards_of-sum_below g (x ∷ xs) = ap (λ n. one_if (eqb_ℤ x g) + n) (shards_of-sum_below g xs)

-- A group has as many shards in the configuration as in the work load.
module _ (m : WorkLoad) (distinct : DistinctKeys (keys m)) (xs : List ℤ)
    (once : (i : ℕ) → sum_of (count i) m ≡ one_if (ltb i (length xs))) where
  here_once : (i : ℕ) → i < length xs → sum_of (count i) m ≡ 1
  here_once i lt = once i ∙ ground arith

  pub shards_of-assign_all :
      (g : ℤ) (s : List ℕ) → IsIn g s m → shards_of g (assign_all m xs) ≡ length s
  shards_of-assign_all g s p =
      shards_of-sum_below g (assign_all m xs)
      ∙ ap (λ n. sum_below n (λ i. is_group g (get_elem? (assign_all m xs) i)))
          (length-assign_all m xs)
      ∙ sum_below-eq (length xs) (λ i. is_group g (get_elem? (assign_all m xs) i)) (λ i. count i s)
          at
      ∙ sym (
          length-eq-sum_below (length xs) s
            (λ a le. omega (arith, IsIn-le-sum_of (count a) p, none_above a le)))
    where
      none_above : (a : ℕ) → length xs ≤ a → sum_of (count a) m ≡ 0
      none_above a le = once a ∙ ground arith

      at : (i : ℕ) → i < length xs → is_group g (get_elem? (assign_all m xs) i) ≡ count i s
      at i lt =
          let (h, t, q, c) = owner i m (omega (arith, here_once i lt)) in
          elim (eq_or_ne (count i s) 0) [
            | inr more ↦
                ap (is_group g) (
                  get_elem?-assign_all p xs i (omega (arith, more)) (omega (arith, here_once i lt))
                    lt)
                ∙ ap one_if (eqb_ℤ-refl g)
                ∙ omega (arith, more, IsIn-le-sum_of (count i) p, here_once i lt)
            | inl none_here ↦
                ap (is_group g) (get_elem?-assign_all q xs i c (omega (arith, here_once i lt)) lt)
                ∙ ap one_if (eqb_ℤ-ne h g (λ e. other h t q c none_here e))
                ∙ sym none_here
          ]
        where
          other : (h : ℤ) (t : List ℕ) → IsIn h t m → 0 < count i t → count i s ≡ 0 → h ≢ g
          other h t q c none_here e = omega (
            arith,
            c,
            none_here,
            ap (count_of i) (IsIn-unique p (subst (λ k. IsIn k t m) e q) distinct),
          )
            where
              count_of : ℕ → Option (List ℕ) → ℕ
              count_of i none = 0
              count_of i (some u) = count i u
