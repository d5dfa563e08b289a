-- ===== src/ShardMaster/Balance/Ghost.antt =====
-- The balancing where a shard was moved to a group that does not exist.
pub mod Hangs
use projects_cpp.Prelude.{
  ℕ, zero, suc, ◌*◌, ◌%◌, ◌≡◌, ◌≢◌, ◌≤◌, ◌<◌, ◌⊎◌, inl, inr, refl, sym, ap, subst, ◌∙◌, Option,
  none, some, List, [], ◌∷◌, ◌++◌, length, length-append, All, arith, Bool, true, false, not, ◌==◌,
  Bool-cases,
}
use native.Mathlib.Nat.{mul-mod_right, le_antisymm}
use projects_cpp.Prelude.Int.{ℤ, pos, eqb_ℤ, eqb_ℤ-refl, eqb_ℤ-ne, eqb_ℤ→eq, eqb_ℤ→ne}
use projects_cpp.Prelude.Maps.{
  keys, IsIn, here, there, DistinctKeys, sum_of, change, keys-change, IsIn-ne,
}
use projects_cpp.Prelude.Text.{Text}
use projects_cpp.ShardMaster.{Config, n_shards}
use projects_cpp.ShardMaster.Balance.{
  WorkLoad, Queues, push_back, push_at, no_load, add_assigned, add_unassigned, goes_on, move_one,
  balance_loop, first_load, divides, balanced_load, with_load, balance_work_load,
}
use projects_cpp.ShardMaster.Balance.Loads.{
  HasKey, HasKey-keys, IsPlaced, Holds, no_load-Holds, low_top-some,
}
use projects_cpp.ShardMaster.Balance.Moves.{move_one-moves}
use projects_cpp.ShardMaster.Balance.Sizes.{
  each_once, all_ge, all_le, Holds-length, Holds-sum, up_top-some,
}
use projects_cpp.ShardMaster.Balance.Fair.{IsSound, first_load-Holds}

-- `g` is one of the shards' groups.
abbrev pub Occurs : ℤ → List ℤ → Type 0
Occurs g [] = ⊥
Occurs g (h ∷ shards) = (h ≡ g) ⊎ Occurs g shards

module _ (g : ℤ) (nonzero : g ≢ pos 0) where
  abbrev Absent : WorkLoad → Type 0
  Absent m = All (λ k. k ≢ g) (keys m)

  change-Absent :
      (f : List ℕ → List ℕ) (m : WorkLoad) → Absent m → change [] g f m ≡ m ++ (g, f []) ∷ []
  change-Absent f [] h = refl
  change-Absent f ((j, w) ∷ m) h =
      rw (eqb_ℤ-ne j g h.0) (ap (λ l. (j, w) ∷ l) (change-Absent f m h.1))

  change-last :
      (f : List ℕ → List ℕ) (s : List ℕ) (m : WorkLoad)
      → Absent m
      → change [] g f (m ++ (g, s) ∷ []) ≡ m ++ (g, f s) ∷ []
  change-last f s [] h = rw (eqb_ℤ-refl g) refl
  change-last f s ((j, w) ∷ m) h =
      rw (eqb_ℤ-ne j g h.0) (ap (λ l. (j, w) ∷ l) (change-last f s m h.1))

  change-front :
      (f : List ℕ → List ℕ) (r : WorkLoad) {k : ℤ} {s : List ℕ} {m : WorkLoad}
      → IsIn k s m
      → change [] k f (m ++ r) ≡ change [] k f m ++ r
  change-front f r {k = k} (here e q) = rw (sym e, eqb_ℤ-refl k) refl
  change-front f r {k = k} (there {j = j} {w = w} {m = m} p) = elim (Bool-cases (eqb_ℤ j k)) [
    | inl e ↦ rw e refl
    | inr e ↦ rw e (ap (λ l. (j, w) ∷ l) (change-front f r p))
  ]

  -- Each shard has no group, a group of the load, or `g`.
  abbrev pub Known : WorkLoad → ℤ → Type 0
  Known m h = (h ≡ pos 0) ⊎ (HasKey h m ⊎ (h ≡ g))

  Known-keys :
      (m n : WorkLoad) (shards : List ℤ)
      → keys m ≡ keys n
      → All (Known m) shards
      → All (Known n) shards
  Known-keys m n [] e h = tt
  Known-keys m n (x ∷ shards) e h = (
    elim h.0 [
      | inl z ↦ inl z
      | inr (inl k) ↦ inr (inl (HasKey-keys x m n e k))
      | inr (inr same) ↦ inr (inr same)
    ],
    Known-keys m n shards e h.1,
  )

  -- The group that does not exist gets an entry, as if it had been there.
  pub add_assigned-ghost :
      (shards : List ℤ) (i : ℕ) (m : WorkLoad)
      → Absent m
      → All (Known m) shards
      → Occurs g shards
      → add_assigned i shards m ≡ add_assigned i shards (m ++ (g, []) ∷ [])
  unfolding add_assigned
  add_assigned-ghost [] i m away known occurs = elim occurs [ ]
  add_assigned-ghost (x ∷ shards) i m away known occurs = elim (Bool-cases (eqb_ℤ x (pos 0))) [
    | inl e ↦ rw e (
        add_assigned-ghost shards (suc i) m away known.1
          (later (λ same. nonzero (sym same ∙ eqb_ℤ→eq x (pos 0) e)) occurs))
    | inr e ↦ rw e (pushed (add_assigned-ghost shards (suc i) (push_at x i m)) e known.0)
  ]
    where
      later : (x ≢ g) → (x ≡ g) ⊎ Occurs g shards → Occurs g shards
      later ne (inl same) = absurd (ne same)
      later ne (inr o) = o

      pushed :
          (Absent (push_at x i m)
            → All (Known (push_at x i m)) shards
            → Occurs g shards
            → add_assigned (suc i) shards (push_at x i m)
              ≡ add_assigned (suc i) shards (push_at x i m ++ (g, []) ∷ []))
          → eqb_ℤ x (pos 0) ≡ false
          → Known m x
          → add_assigned (suc i) shards (push_at x i m)
            ≡ add_assigned (suc i) shards (push_at x i (m ++ (g, []) ∷ []))
      pushed rest e (inl z) = absurd (eqb_ℤ→ne x (pos 0) e z)
      pushed rest e (inr (inr same)) = ap (add_assigned (suc i) shards) (
          subst (λ y. push_at y i m ≡ push_at y i (m ++ (g, []) ∷ [])) (sym same)
            (change-Absent (push_back i) m away ∙ sym (change-last (push_back i) [] m away)))
      pushed rest e (inr (inl (s, p))) =
          let same_keys = keys-change [] (push_back i) p in
          rest (subst (λ ks. All (λ k. k ≢ g) ks) (sym same_keys) away)
            (Known-keys m (push_at x i m) shards (sym same_keys) known.1)
            (later (IsIn-ne p away) occurs)
          ∙ ap (add_assigned (suc i) shards) (sym (change-front (push_back i) ((g, []) ∷ []) p))

pub no_load-snoc :
    (groups : List (ℤ × List Text)) (g : ℤ)
    → no_load (groups ++ (g, []) ∷ []) ≡ no_load groups ++ (g, []) ∷ []
no_load-snoc [] g = refl
no_load-snoc ((k, v) ∷ groups) g = ap (λ l. (k, []) ∷ l) (no_load-snoc groups g)

-- Loads of ten shards that cannot be of equal size are moved on and on.
pub even_loop-none :
    (q : Queues) (groups : List (ℤ × List Text)) (many : 0 < length groups)
    → DistinctKeys (keys groups)
    → n_shards % length groups ≢ 0
    → (fuel : ℕ) (m : WorkLoad) → Holds groups each_once m
    → balance_loop q true fuel m ≡ none
unfolding balance_loop
even_loop-none q groups many distinct odd zero m h = refl
even_loop-none q groups many distinct odd (suc fuel) m h =
    let (low, s, top1, least) = low_top-some groups distinct q m many h in
    let (up, t, top2, greatest) = up_top-some groups many q m h in
    elim (Bool-cases (goes_on q true m)) [
      | inr off ↦
          let same : length s ≡ length t = alike (rw (top1, top2) at off) in
          let all : sum_of length m ≡ length m * length s =
            le_antisymm (all_le (length s) m (λ g u r. omega (arith, same, greatest.1 g u r)))
              (all_ge (length s) m least.1) in
          absurd (
            odd (
              ap (λ n. n % length groups) (sym (Holds-sum groups many m h) ∙ all)
              ∙ ap (λ n. n * length s % length groups) (Holds-length groups many m h)
              ∙ mul-mod_right (length groups) (length s)))
      | inl on ↦
          let (n, moves, k, less) =
            move_one-moves q groups distinct each_once m h low s up t top1 top2 least.0 greatest.0
              (differ (rw (top1, top2) at on) (least.1 up t greatest.0)) in
          ap (λ b. next b (move_one q m)) on
          ∙ ap (λ o. next true o) moves
          ∙ even_loop-none q groups many distinct odd fuel n k
    ]
  where
    alike : {a b : ℕ} → not (a == b) ≡ false → a ≡ b
    alike e = ground arith

    differ : {a b : ℕ} → not (a == b) ≡ true → a ≤ b → a < b
    differ e le = ground arith

    next : Bool → Option WorkLoad → Option WorkLoad
    next b o = elim b [
      | false ↦ some m
      | true ↦ elim o [ none ↦ none | some n ↦ balance_loop q true fuel n ]
    ]
