-- ===== src/ShardMaster/Balance/Sizes.antt =====
-- The loops of the balancing, and how far apart the loads are behind them.
use projects_cpp.Prelude.{
  ℕ, zero, ◌+◌, ◌-◌, ◌*◌, ◌/◌, ◌%◌, ◌≡◌, ◌≢◌, ◌≤◌, ◌<◌, refl, sym, ap, subst, ◌∙◌, Option, none,
  some, List, [], ◌∷◌, length, arith, Bool, true, false, ◌==◌, ltb, Bool-cases, eq_or_ne, suc, inl,
  inr, not,
}
use native.Mathlib.Nat.{div-add-mod, lt_of_mul-lt-mul_left}
use projects_cpp.Prelude.Int.{ℤ}
use projects_cpp.Prelude.Maps.{keys, IsIn, here, there, DistinctKeys, sum_of}
use projects_cpp.Prelude.Text.{Text}
use projects_cpp.ShardMaster.{n_shards}
use projects_cpp.ShardMaster.Balance.{
  WorkLoad, Queues, IsLeast, IsGreatest, goes_on, move_one, balance_loop,
}
use projects_cpp.ShardMaster.Balance.Counts.{
  one_if, count, sum_below, sum_below-zero, sum_below-add, sum_below-eq, sum_below-one,
  length-eq-sum_below,
}
use projects_cpp.ShardMaster.Balance.Loads.{Holds, low_top-some}
use projects_cpp.ShardMaster.Balance.Moves.{spread, move_one-moves}

-- All sizes at least `a`.
pub all_ge :
    (a : ℕ) (m : WorkLoad)
    → ((g : ℤ) (s : List ℕ) → IsIn g s m → a ≤ length s)
    → length m * a ≤ sum_of length m
all_ge a [] low = omega arith
all_ge a ((g, s) ∷ m) low =
    grind (arith, low g s (here refl refl), all_ge a m (λ h t r. low h t (there r)))

-- All sizes at most `b`.
pub all_le :
    (b : ℕ) (m : WorkLoad)
    → ((g : ℤ) (s : List ℕ) → IsIn g s m → length s ≤ b)
    → sum_of length m ≤ length m * b
all_le b [] up = omega arith
all_le b ((g, s) ∷ m) up =
    grind (arith, up g s (here refl refl), all_le b m (λ h t r. up h t (there r)))

-- The same, where one size is known.
sum_of-ge :
    (a : ℕ) {h : ℤ} {t : List ℕ} {m : WorkLoad}
    → IsIn h t m
    → ((g : ℤ) (s : List ℕ) → IsIn g s m → a ≤ length s)
    → length m * a + length t ≤ sum_of length m + a
sum_of-ge a (here {w = w} {m = m} e f) low =
    grind (arith, ap length f, all_ge a m (λ g s r. low g s (there r)))
sum_of-ge a (there {j = j} {w = w} {m = m} r) low =
    grind (arith, low j w (here refl refl), sum_of-ge a r (λ g s q. low g s (there q)))

sum_of-le :
    (b : ℕ) {h : ℤ} {t : List ℕ} {m : WorkLoad}
    → IsIn h t m
    → ((g : ℤ) (s : List ℕ) → IsIn g s m → length s ≤ b)
    → sum_of length m + b ≤ length m * b + length t
sum_of-le b (here {w = w} {m = m} e f) up =
    grind (arith, ap length f, all_le b m (λ g s r. up g s (there r)))
sum_of-le b (there {j = j} {w = w} {m = m} r) up =
    grind (arith, up j w (here refl refl), sum_of-le b r (λ g s q. up g s (there q)))

no_middle : (n a : ℕ) → n_shards % n ≡ 0 → n * a < n_shards → n_shards < n * (a + 1) → ⊥
no_middle n a e lo hi =
    let whole : n * (n_shards / n) ≡ n_shards = omega (arith, div-add-mod n_shards n, e) in
    let below : a < n_shards / n = lt_of_mul-lt-mul_left n (omega (arith, whole, lo)) in
    let above : n_shards / n < a + 1 = lt_of_mul-lt-mul_left n (omega (arith, whole, hi)) in
    omega (arith, below, above)

-- The shards below `n` once each are `n` shards.
sum_of-length :
    (n : ℕ) (m : WorkLoad)
    → ((a : ℕ) → n ≤ a → sum_of (count a) m ≡ 0)
    → sum_of length m ≡ sum_below n (λ a. sum_of (count a) m)
sum_of-length n [] h = sym (sum_below-zero n)
sum_of-length n ((g, s) ∷ m) h = omega (
  arith,
  sum_below-add n (λ a. count a s) (λ a. sum_of (count a) m),
  length-eq-sum_below n s (λ a le. omega (arith, h a le)),
  sum_of-length n m (λ a le. omega (arith, h a le)),
)

length-keys {ℓ} : {V : Type ℓ} (m : List (ℤ × V)) → length (keys m) ≡ length m
length-keys [] = refl
length-keys ((k, v) ∷ m) = ap suc (length-keys m)

-- Each shard once, and nothing else.
abbrev pub each_once : ℕ → ℕ
each_once a = one_if (ltb a n_shards)

module _ (groups : List (ℤ × List Text)) (many : 0 < length groups) where
  pub Holds-length : (m : WorkLoad) → Holds groups each_once m → length m ≡ length groups
  Holds-length m h = sym (length-keys m) ∙ ap length h.same_keys ∙ length-keys groups

  pub Holds-sum : (m : WorkLoad) → Holds groups each_once m → sum_of length m ≡ n_shards
  Holds-sum m h =
      sum_of-length n_shards m (λ a le. h.totals a ∙ ground arith)
      ∙ sum_below-eq n_shards (λ a. sum_of (count a) m) (λ a. 1) (λ a lt. h.totals a ∙ ground arith)
      ∙ sum_below-one n_shards

  pub up_top-some :
      (q : Queues) (m : WorkLoad)
      → Holds groups each_once m
      → (g : ℤ) × (s : List ℕ) × (q.up_top m ≡ some (g, s)) × IsGreatest m (g, s)
  up_top-some q [] h = absurd (omega (arith, many, Holds-length [] h))
  up_top-some q (p ∷ m) h = let ((g, s), e, l) = q.up_greatest p m in (g, s, e, l)

  -- Where a loop goes on, the greatest load has two shards more than the least.
  gap :
      (q : Queues) (even : Bool)
      → (even ≡ true → n_shards % length groups ≡ 0)
      → (m : WorkLoad) → Holds groups each_once m
      → (low : ℤ) (s : List ℕ) (up : ℤ) (t : List ℕ) → q.low_top m ≡ some (low, s)
      → q.up_top m ≡ some (up, t)
      → IsLeast m (low, s)
      → IsGreatest m (up, t)
      → goes_on q even m ≡ true
      → length s + 2 ≤ length t
  gap q false whole m h low s up t top1 top2 least greatest on = two_more (rw (top1, top2) at on)
    where
      two_more : ltb 1 (length t - length s) ≡ true → length s + 2 ≤ length t
      two_more e = ground arith
  gap q true whole m h low s up t top1 top2 least greatest on =
      elim (eq_or_ne (length t) (suc (length s))) [
        | inr ne ↦ omega (arith, ne, differ (rw (top1, top2) at on), least.1 up t greatest.0)
        | inl e ↦
            let low_sum : length groups * length s + length t ≤ sum_of length m + length s =
              subst (λ n. n * length s + length t ≤ sum_of length m + length s) (Holds-length m h)
                (sum_of-ge (length s) greatest.0 least.1) in
            let up_sum : sum_of length m + (length s + 1)
                ≤ length groups * (length s + 1) + length s =
              subst (λ n. sum_of length m + (length s + 1) ≤ n * (length s + 1) + length s)
                (Holds-length m h)
                (sum_of-le (length s + 1) least.0 (λ g u r. omega (arith, e, greatest.1 g u r))) in
            absurd (
              no_middle (length groups) (length s) (whole refl)
                (omega (arith, e, Holds-sum m h, low_sum)) (omega (arith, Holds-sum m h, up_sum)))
      ]
    where
      differ : not (length s == length t) ≡ true → length s ≢ length t
      differ e same = ground arith

  -- The loop ends, and its test fails then.
  pub balance_loop-ends :
      (q : Queues)
      → DistinctKeys (keys groups)
      → (even : Bool) → (even ≡ true → n_shards % length groups ≡ 0)
      → (fuel : ℕ) (m : WorkLoad) → Holds groups each_once m
      → spread m < fuel
      → (n : WorkLoad) × (balance_loop q even fuel m ≡ some n)
        × Holds groups each_once n
        × (goes_on q even n ≡ false)
  unfolding balance_loop
  balance_loop-ends q distinct even whole zero m h enough = elim enough [ ]
  balance_loop-ends q distinct even whole (suc fuel) m h enough =
      elim (Bool-cases (goes_on q even m)) [
        | inr off ↦ (m, ap (λ b. next b (move_one q m)) off, h, off)
        | inl on ↦
            let (low, s, top1, least) = low_top-some groups distinct q m many h in
            let (up, t, top2, greatest) = up_top-some q m h in
            let two = gap q even whole m h low s up t top1 top2 least greatest on in
            let (n, moves, k, less) =
              move_one-moves q groups distinct each_once m h low s up t top1 top2 least.0 greatest.0
                (omega (arith, two)) in
            let (r, runs, l, off) =
              balance_loop-ends q distinct even whole fuel n k (omega (arith, less two, enough)) in
            (r, ap (λ b. next b (move_one q m)) on ∙ ap (λ o. next true o) moves ∙ runs, l, off)
      ]
    where
      next : Bool → Option WorkLoad → Option WorkLoad
      next b o = elim b [
        | false ↦ some m
        | true ↦ elim o [ none ↦ none | some n ↦ balance_loop q even fuel n ]
      ]
