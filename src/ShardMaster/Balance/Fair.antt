-- ===== src/ShardMaster/Balance/Fair.antt =====
-- What `balanceWorkLoad` makes of a configuration whose shards have groups of it or none.
use projects_cpp.Prelude.{
  ℕ, suc, ◌+◌, ◌-◌, ◌%◌, ◌≡◌, ◌≤◌, ◌<◌, refl, sym, ap, ◌∙◌, some, List, [], ◌∷◌, length, arith, All,
  Bool, true, false, ◌==◌, ltb, not, get_elem?,
}
use projects_cpp.Prelude.Int.{ℤ}
use projects_cpp.Prelude.Maps.{keys, IsIn, DistinctKeys, sum_of}
use projects_cpp.ShardMaster.{Config, n_shards}
use projects_cpp.ShardMaster.Balance.{
  WorkLoad, Queues, goes_on, no_load, add_assigned, first_load, divides, balanced_load, with_load,
  assign_all, balance_work_load,
}
use projects_cpp.ShardMaster.Balance.Counts.{one_if, count, triangle, triangle-add}
use projects_cpp.ShardMaster.Balance.Loads.{
  HasKey, HasKey-keys, IsPlaced, Holds, no_load-Holds, add_assigned-Holds, add_unassigned-Holds,
  low_top-some, with_group, with_group_or_none,
}
use projects_cpp.ShardMaster.Balance.Moves.{spread}
use projects_cpp.ShardMaster.Balance.Sizes.{each_once, Holds-sum, up_top-some, balance_loop-ends}
use projects_cpp.ShardMaster.Balance.Assigned.{
  shards_of, shards_of-assign_all, length-assign_all, get_elem?-assign_all, owner,
}

-- Groups are distinct and some, and each of the ten shards has one of them or none.
pub record IsSound (c : Config) : Type 0 where
  pub distinct : DistinctKeys (keys c.groups)
  pub some_group : 0 < length c.groups
  pub size : length c.shards ≡ n_shards
  pub placed : All (IsPlaced c.groups) c.shards

-- `d` is `c` with every shard in one of the groups, and the groups' numbers of shards as close as
-- they can be.
pub record IsBalanced (c d : Config) : Type 0 where
  pub same_num : d.config_num ≡ c.config_num
  pub same_groups : d.groups ≡ c.groups
  pub size : length d.shards ≡ n_shards
  pub placed :
      (i : ℕ) → i < n_shards → (g : ℤ) × (get_elem? d.shards i ≡ some g) × HasKey g c.groups
  pub close :
      (g h : ℤ)
      → HasKey g c.groups
      → HasKey h c.groups
      → shards_of g d.shards ≤ suc (shards_of h d.shards)
  pub equal :
      n_shards % length c.groups ≡ 0
      → (g h : ℤ) → HasKey g c.groups
      → HasKey h c.groups
      → shards_of g d.shards ≡ shards_of h d.shards

spread-le : (m : WorkLoad) → spread m ≤ triangle (sum_of length m)
spread-le [] = omega arith
spread-le ((g, s) ∷ m) = omega (arith, spread-le m, triangle-add (length s) (sum_of length m))

-- Where a loop stops, its tops are close.
tops_close :
    (q : Queues) (even : Bool) (m : WorkLoad) (low : ℤ) (u : List ℕ) (up : ℤ) (v : List ℕ)
    → q.low_top m ≡ some (low, u)
    → q.up_top m ≡ some (up, v)
    → goes_on q even m ≡ false
    → (length v ≤ suc (length u)) × (even ≡ true → length v ≤ length u)
tops_close q false m low u up v top1 top2 off =
    (near (rw (top1, top2) at off), λ e. absurd (differ e))
  where
    near : ltb 1 (length v - length u) ≡ false → length v ≤ suc (length u)
    near e = ground arith

    differ : false ≡ true → ⊥
    differ e = cc
tops_close q true m low u up v top1 top2 off =
    let same = alike (rw (top1, top2) at off) in (omega (arith, same), λ e. omega (arith, same))
  where
    alike : not (length u == length v) ≡ false → length u ≡ length v
    alike e = ground arith

module _ (q : Queues) (c : Config) (sound : IsSound c) where
  -- The load that is written into the configuration.
  pub Fair : Bool → WorkLoad → Type 0
  Fair even m =
      (g : ℤ) (s : List ℕ) (h : ℤ) (t : List ℕ)
      → IsIn g s m
      → IsIn h t m
      → (length s ≤ suc (length t)) × (even ≡ true → length s ≤ length t)

  pub first_load-Holds : (m : WorkLoad) × (first_load q c ≡ some m) × Holds c.groups each_once m
  first_load-Holds =
      let (m, runs, h) =
        add_unassigned-Holds c.groups sound.distinct q c.shards 0 (λ a. 0 + with_group 0 c.shards a)
          (add_assigned 0 c.shards (no_load c.groups)) sound.some_group
          (add_assigned-Holds c.groups sound.distinct c.shards 0 (λ a. 0) (no_load c.groups)
            sound.placed (no_load-Holds c.groups)) in
      (
        m,
        runs,
        record {
          same_keys = h.same_keys;
          totals = λ a.
              omega (arith, h.totals a, with_group_or_none c.shards a)
              ∙ ap (λ n. one_if (ltb a n)) sound.size;
        },
      )

  loop-Fair :
      (even : Bool) (m : WorkLoad)
      → Holds c.groups each_once m
      → goes_on q even m ≡ false
      → Fair even m
  unfolding Fair
  loop-Fair even m held off g s h t p r =
      let (low, u, top1, least) = low_top-some c.groups sound.distinct q m sound.some_group held in
      let (up, v, top2, greatest) = up_top-some c.groups sound.some_group q m held in
      let close = tops_close q even m low u up v top1 top2 off in
      (
        omega (arith, close.0, greatest.1 g s p, least.1 h t r),
        λ e. omega (arith, close.1 e, greatest.1 g s p, least.1 h t r),
      )

  even_if : divides c ≡ true → n_shards % length c.groups ≡ 0
  even_if e = ground arith

  if_even : n_shards % length c.groups ≡ 0 → divides c ≡ true
  if_even e = ground arith

  -- A group's load is as long as its shards are many.
  load_of :
      (m : WorkLoad)
      → Holds c.groups each_once m
      → (g : ℤ) → HasKey g c.groups
      → (s : List ℕ) × IsIn g s m × (shards_of g (assign_all m c.shards) ≡ length s)
  load_of m held g k =
      let (s, p) = HasKey-keys g c.groups m (sym held.same_keys) k in
      (
        s,
        p,
        shards_of-assign_all m (rw held.same_keys sound.distinct) c.shards
            (λ i. held.totals i ∙ ap (λ n. one_if (ltb i n)) (sym sound.size)) g s p,
      )

  assigned-IsBalanced :
      (m : WorkLoad)
      → Holds c.groups each_once m
      → Fair (divides c) m
      → IsBalanced c (record c { shards = assign_all m c.shards })
  unfolding Fair
  assigned-IsBalanced m held fair = record {
    same_num = refl;
    same_groups = refl;
    size = length-assign_all m c.shards ∙ sound.size;
    placed = λ i lt.
        let one : sum_of (count i) m ≡ 1 = held.totals i ∙ below i lt in
        let (g, s, p, k) = owner i m (omega (arith, one)) in
        (
          g,
          get_elem?-assign_all p c.shards i k (omega (arith, one)) (omega (arith, sound.size, lt)),
          HasKey-keys g m c.groups held.same_keys (s, p),
        );
    close = λ g h k l.
        let (s, p, e) = load_of m held g k in
        let (t, r, f) = load_of m held h l in omega (arith, e, f, (fair g s h t p r).0);
    equal = λ whole g h k l.
        let (s, p, e) = load_of m held g k in
        let (t, r, f) = load_of m held h l in
        omega
          (arith, e, f, (fair g s h t p r).1 (if_even whole), (fair h t g s r p).1 (if_even whole));
  }
    where
      below : (i : ℕ) → i < n_shards → one_if (ltb i n_shards) ≡ 1
      below i lt = ground arith

  -- With distinct groups, at least one of them, and ten shards that each have one of the groups or
  -- none, the balancing returns, on more than 55 rounds of fuel and whatever the queues do with
  -- pairs of equal size; then every shard has one of the groups, the numbers of shards of two
  -- groups differ by one at most, and not at all where the number of groups divides ten.
  pub balance_work_load-IsBalanced :
      (fuel : ℕ) → 55 < fuel → (d : Config) × (balance_work_load q fuel c ≡ some d) × IsBalanced c d
  unfolding balance_work_load
  balance_work_load-IsBalanced fuel enough =
      let (m, first, held) = first_load-Holds in
      let (n, runs, held2, off) =
        balance_loop-ends c.groups sound.some_group q sound.distinct (divides c) even_if fuel m held
          (omega (
            arith,
            enough,
            spread-le m,
            ap triangle (Holds-sum c.groups sound.some_group m held),
          )) in
      (
        record c { shards = assign_all n c.shards },
        ap (λ o. with_load c (balanced_load q fuel (divides c) o)) first ∙ ap (with_load c) runs,
        assigned-IsBalanced n held2 (loop-Fair (divides c) n held2 off),
      )
