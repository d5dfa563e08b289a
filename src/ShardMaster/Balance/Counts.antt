-- ===== src/ShardMaster/Balance/Counts.antt =====
-- Counting shards in lists, and sums over the shards below a bound.
use projects_cpp.Prelude.{
  ℕ, zero, suc, ◌+◌, ◌≡◌, ◌≤◌, ◌<◌, refl, ap, inl, inr, some, List, [], ◌∷◌, length, arith, Bool,
  ◌==◌, if◌then◌else◌, ltb, ltb→lt, Bool-cases, sym,
}
use native.Mathlib.Nat.{add-zero, add-suc}
use projects_cpp.ShardMaster.Balance.{push_back, pop_back, back_of}

abbrev pub one_if : Bool → ℕ
one_if b = if b then 1 else 0

abbrev pub count : ℕ → List ℕ → ℕ
count a [] = 0
count a (x ∷ xs) = one_if (x == a) + count a xs

pub count-push_back : (a i : ℕ) (s : List ℕ) → count a (push_back i s) ≡ count a s + one_if (i == a)
count-push_back a i [] = omega arith
count-push_back a i (x ∷ s) = omega (arith, count-push_back a i s)

pub length-push_back : (i : ℕ) (s : List ℕ) → length (push_back i s) ≡ suc (length s)
length-push_back i [] = refl
length-push_back i (x ∷ s) = ap suc (length-push_back i s)

-- The last element, and what the list is without it.
pub record IsLast (s : List ℕ) (i : ℕ) : Type 0 where
  pub last : back_of s ≡ some i
  pub size : suc (length (pop_back s)) ≡ length s
  pub counts : (a : ℕ) → count a (pop_back s) + one_if (i == a) ≡ count a s

pub back_of-some : (x : ℕ) (s : List ℕ) → (i : ℕ) × IsLast (x ∷ s) i
back_of-some x [] = (x, record { last = refl; size = refl; counts = λ a. omega arith })
back_of-some x (y ∷ s) =
    let (i, h) = back_of-some y s in
    (i, record { last = h.last; size = ap suc h.size; counts = λ a. omega (arith, h.counts a) })

-- 0 + 1 + … + n
abbrev pub triangle : ℕ → ℕ
triangle zero = 0
triangle (suc n) = suc n + triangle n

pub triangle-add : (a b : ℕ) → triangle a + triangle b ≤ triangle (a + b)
triangle-add a zero = rw (add-zero a) (omega arith)
triangle-add a (suc b) = rw (add-suc a b) (omega (arith, triangle-add a b))

-- f 0 + … + f (n - 1)
abbrev pub sum_below : ℕ → (ℕ → ℕ) → ℕ
sum_below zero f = 0
sum_below (suc n) f = f 0 + sum_below n (λ i. f (suc i))

pub sum_below-add :
    (n : ℕ) (f g : ℕ → ℕ) → sum_below n (λ i. f i + g i) ≡ sum_below n f + sum_below n g
sum_below-add zero f g = omega arith
sum_below-add (suc n) f g = omega (arith, sum_below-add n (λ i. f (suc i)) (λ i. g (suc i)))

pub sum_below-eq :
    (n : ℕ) (f g : ℕ → ℕ) → ((i : ℕ) → i < n → f i ≡ g i) → sum_below n f ≡ sum_below n g
sum_below-eq zero f g h = refl
sum_below-eq (suc n) f g h = omega (
  arith,
  h 0 (omega arith),
  sum_below-eq n (λ i. f (suc i)) (λ i. g (suc i)) (λ i lt. h (suc i) (omega (arith, lt))),
)

pub sum_below-zero : (n : ℕ) → sum_below n (λ i. 0) ≡ 0
sum_below-zero zero = refl
sum_below-zero (suc n) = omega (arith, sum_below-zero n)

pub sum_below-one : (n : ℕ) → sum_below n (λ i. 1) ≡ n
sum_below-one zero = refl
sum_below-one (suc n) = omega (arith, sum_below-one n)

-- One number below the bound is counted once.
sum_below-point : (n x : ℕ) → x < n → sum_below n (λ i. one_if (x == i)) ≡ 1
sum_below-point zero x h = elim h [ ]
sum_below-point (suc n) zero h = omega (
  arith,
  sum_below-eq n (λ i. one_if (0 == suc i)) (λ i. 0) (λ i lt. ground arith),
  sum_below-zero n,
)
sum_below-point (suc n) (suc x) h = omega (
  arith,
  sum_below-eq n (λ i. one_if (suc x == suc i)) (λ i. one_if (x == i)) (λ i lt. ground arith),
  sum_below-point n x (omega arith),
  not_first,
)
  where
    not_first : one_if (suc x == 0) ≡ 0
    not_first = ground arith

-- A list of numbers below the bound has as many as are counted.
pub length-eq-sum_below :
    (n : ℕ) (s : List ℕ)
    → ((a : ℕ) → n ≤ a → count a s ≡ 0)
    → length s ≡ sum_below n (λ i. count i s)
length-eq-sum_below n [] h = sym (sum_below-zero n)
length-eq-sum_below n (x ∷ s) h = omega (
  arith,
  sum_below-add n (λ i. one_if (x == i)) (λ i. count i s),
  sum_below-point n x below,
  length-eq-sum_below n s (λ a le. omega (arith, h a le)),
)
  where
    below : x < n
    below = elim (Bool-cases (ltb x n)) [
      | inl e ↦ ltb→lt x n e
      | inr e ↦ absurd (some_there (h x (ground arith)))
    ]
      where
        some_there : count x (x ∷ s) ≡ 0 → ⊥
        some_there e = ground arith
