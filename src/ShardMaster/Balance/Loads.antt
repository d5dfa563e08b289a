-- ===== src/ShardMaster/Balance/Loads.antt =====
-- A work load that holds each shard once, and the loops that build it.
use projects_cpp.Prelude.{
  ℕ, suc, ◌+◌, ◌≡◌, ◌<◌, ◌⊎◌, refl, sym, ap, ◌∙◌, inl, inr, some, List, [], ◌∷◌, length, arith, All,
  false, ◌==◌, if◌then◌else◌, Bool-cases, ltb,
}
use projects_cpp.Prelude.Int.{ℤ, pos, eqb_ℤ, eqb_ℤ→ne}
use projects_cpp.Prelude.Maps.{
  keys, IsIn, here, there, DistinctKeys, sum_of, keys-change, sum_of-change,
}
use projects_cpp.Prelude.Text.{Text}
use projects_cpp.ShardMaster.Balance.{
  WorkLoad, Queues, IsLeast, push_back, push_at, no_load, add_assigned, add_unassigned,
}
use projects_cpp.ShardMaster.Balance.Counts.{one_if, count, count-push_back}

abbrev pub HasKey {ℓ} : {V : Type ℓ} → ℤ → List (ℤ × V) → Type ℓ
HasKey {V = V} k m = (v : V) × IsIn k v m

-- Maps with the same keys.
pub HasKey-keys {ℓ κ} :
    {V : Type ℓ} {W : Type κ} (k : ℤ) (m : List (ℤ × V)) (n : List (ℤ × W))
    → keys m ≡ keys n
    → HasKey k m
    → HasKey k n
HasKey-keys k [] n e (u, p) = elim p [ ]
HasKey-keys k ((i, v) ∷ m) [] e (u, p) = absurd (cons-ne e)
  where
    cons-ne : {i : ℤ} {is : List ℤ} → i ∷ is ≡ [] → ⊥
    cons-ne q = cc
HasKey-keys k ((i, v) ∷ m) ((j, w) ∷ n) e (u, here a b) = (w, here (a ∙ heads e) refl)
  where
    heads : {i j : ℤ} {is js : List ℤ} → i ∷ is ≡ j ∷ js → i ≡ j
    heads q = cc
HasKey-keys k ((i, v) ∷ m) ((j, w) ∷ n) e (u, there p) =
    let (x, q) = HasKey-keys k m n (tails e) (u, p) in (x, there q)
  where
    tails : {i j : ℤ} {is js : List ℤ} → i ∷ is ≡ j ∷ js → is ≡ js
    tails q = cc

-- The load has the groups' keys, and shard `i` stands in it `total i` times.
pub record Holds (groups : List (ℤ × List Text)) (total : ℕ → ℕ) (m : WorkLoad) : Type 0 where
  pub same_keys : keys m ≡ keys groups
  pub totals : (i : ℕ) → sum_of (count i) m ≡ total i

pub no_load-Holds : (groups : List (ℤ × List Text)) → Holds groups (λ i. 0) (no_load groups)
no_load-Holds [] = record { same_keys = refl; totals = λ i. refl }
no_load-Holds ((g, servers) ∷ groups) =
    let h = no_load-Holds groups in
    record { same_keys = ap (λ ks. g ∷ ks) h.same_keys; totals = λ i. omega (arith, h.totals i) }

-- How often shard `a` stands among those from `i` on that have a group, and that have none.
pub with_group : ℕ → List ℤ → ℕ → ℕ
with_group i [] a = 0
with_group i (g ∷ shards) a =
    (if eqb_ℤ g (pos 0) then 0 else one_if (i == a)) + with_group (suc i) shards a

pub with_none : ℕ → List ℤ → ℕ → ℕ
with_none i [] a = 0
with_none i (g ∷ shards) a =
    (if eqb_ℤ g (pos 0) then one_if (i == a) else 0) + with_none (suc i) shards a

abbrev pub IsPlaced : List (ℤ × List Text) → ℤ → Type 0
IsPlaced groups g = (g ≡ pos 0) ⊎ HasKey g groups

module _ (groups : List (ℤ × List Text)) (distinct : DistinctKeys (keys groups)) where
  pub push_at-Holds :
      (total : ℕ → ℕ) (g : ℤ) (j : ℕ) (m : WorkLoad)
      → HasKey g m
      → Holds groups total m
      → Holds groups (λ i. total i + one_if (j == i)) (push_at g j m)
  push_at-Holds total g j m (s, p) h = record {
    same_keys = keys-change [] (push_back j) p ∙ h.same_keys;
    totals = λ i. omega (
      arith,
      h.totals i,
      sum_of-change (count i) [] (push_back j) p (rw h.same_keys distinct),
      count-push_back i j s,
    );
  }

  Holds-eq :
      {t u : ℕ → ℕ} {m : WorkLoad} → ((i : ℕ) → t i ≡ u i) → Holds groups t m → Holds groups u m
  Holds-eq e h = record { same_keys = h.same_keys; totals = λ i. h.totals i ∙ e i }

  pub add_assigned-Holds :
      (shards : List ℤ) (i : ℕ) (total : ℕ → ℕ) (m : WorkLoad)
      → All (IsPlaced groups) shards
      → Holds groups total m
      → Holds groups (λ a. total a + with_group i shards a) (add_assigned i shards m)
  unfolding add_assigned with_group
  add_assigned-Holds [] i total m placed h = Holds-eq (λ a. omega arith) h
  add_assigned-Holds (g ∷ shards) i total m placed h = elim (Bool-cases (eqb_ℤ g (pos 0))) [
    | inl e ↦
        rw e (Holds-eq (λ a. omega arith) (add_assigned-Holds shards (suc i) total m placed.1 h))
    | inr e ↦ rw e (
        Holds-eq (λ a. omega arith)
          (add_assigned-Holds shards (suc i) (λ a. total a + one_if (i == a)) (push_at g i m)
            placed.1
            (push_at-Holds total g i m
              (HasKey-keys g groups m (sym h.same_keys) (has_group placed.0 e)) h)))
  ]
    where
      has_group : IsPlaced groups g → eqb_ℤ g (pos 0) ≡ false → HasKey g groups
      has_group (inr k) e = k
      has_group (inl z) e = absurd (eqb_ℤ→ne g (pos 0) e z)

  -- The top of the queue of a load of some groups.
  pub low_top-some :
      (q : Queues) (m : WorkLoad) {total : ℕ → ℕ}
      → 0 < length groups
      → Holds groups total m
      → (g : ℤ) × (s : List ℕ) × (q.low_top m ≡ some (g, s)) × IsLeast m (g, s)
  low_top-some q [] many h = absurd (no_keys groups many h.same_keys)
    where
      no_keys : (gs : List (ℤ × List Text)) → 0 < length gs → [] ≡ keys gs → ⊥
      no_keys [] lt e = elim lt [ ]
      no_keys (g ∷ gs) lt e = cc
  low_top-some q (p ∷ m) many h = let ((g, s), e, l) = q.low_least p m in (g, s, e, l)

  pub add_unassigned-Holds :
      (q : Queues) (shards : List ℤ) (i : ℕ) (total : ℕ → ℕ) (m : WorkLoad)
      → 0 < length groups
      → Holds groups total m
      → (n : WorkLoad) × (add_unassigned q i shards (some m) ≡ some n)
        × Holds groups (λ a. total a + with_none i shards a) n
  unfolding add_unassigned with_none
  add_unassigned-Holds q [] i total m many h = (m, refl, Holds-eq (λ a. omega arith) h)
  add_unassigned-Holds q (g ∷ shards) i total m many h = elim (Bool-cases (eqb_ℤ g (pos 0))) [
    | inl e ↦
        let (low, s, top, least) = low_top-some q m many h in
        let (n, runs, k) =
          add_unassigned-Holds q shards (suc i) (λ a. total a + one_if (i == a)) (push_at low i m)
            many (push_at-Holds total low i m (s, least.0) h) in
        (n, rw (e, top) runs, rw e (Holds-eq (λ a. omega arith) k))
    | inr e ↦
        let (n, runs, k) = add_unassigned-Holds q shards (suc i) total m many h in
        (n, rw e runs, rw e (Holds-eq (λ a. omega arith) k))
  ]

in_range :
    (shards : List ℤ) (i a : ℕ)
    → with_group i shards a + with_none i shards a
      ≡ (if ltb a i then 0 else one_if (ltb a (i + length shards)))
unfolding with_group with_none
in_range [] i a = ground arith
in_range (g ∷ shards) i a = ground (arith, in_range shards (suc i) a)

-- Each shard has a group or none.
pub with_group_or_none :
    (shards : List ℤ) (a : ℕ)
    → with_group 0 shards a + with_none 0 shards a ≡ one_if (ltb a (length shards))
with_group_or_none shards a = in_range shards 0 a ∙ ground arith
