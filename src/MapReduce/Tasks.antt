-- ===== src/MapReduce/Tasks.antt =====
-- Lists of tasks as sets, and their sizes.
use projects_cpp.Prelude.{
  ℕ, zero, suc, ◌≡◌, ◌≢◌, ◌≤◌, ◌<◌, ◌==◌, ==_iff, ◌⊎◌, refl, sym, ap, ◌∙◌, inl, inr, true, false,
  List, [], ◌∷◌, ◌++◌, length, drop, Bool-cases, if◌then◌else◌, arith, get_elem?, some, none-ne,
}
use projects_cpp.MapReduce.{has, reduce_tasks}

pub true-ne-false : true ≡ false → ⊥
true-ne-false e = cc

pub has_self : (x : ℕ) (ys : List ℕ) → has x (x ∷ ys) ≡ true
has_self x ys = rw ((==_iff x x).1 refl) refl

pub has-later : (x y : ℕ) (ys : List ℕ) → has x ys ≡ true → has x (y ∷ ys) ≡ true
has-later x y ys h = elim (Bool-cases (x == y)) [ inl e ↦ rw e refl | inr e ↦ rw e h ]

pub has-cases : (x y : ℕ) (ys : List ℕ) → has x (y ∷ ys) ≡ true → (x ≡ y) ⊎ (has x ys ≡ true)
has-cases x y ys h = elim (Bool-cases (x == y)) [
  | inl e ↦ inl ((==_iff x y).0 e)
  | inr e ↦ inr (rw e at h)
]

-- No task stands twice.
abbrev pub Distinct : List ℕ → Type 0
Distinct [] = Unit
Distinct (x ∷ xs) = (has x xs ≡ false) × Distinct xs

remove : ℕ → List ℕ → List ℕ
remove x [] = []
remove x (y ∷ ys) = if x == y then ys else y ∷ remove x ys

length-remove : (x : ℕ) (ys : List ℕ) → has x ys ≡ true → suc (length (remove x ys)) ≡ length ys
unfolding remove
length-remove x [] h = absurd (true-ne-false (sym h))
length-remove x (y ∷ ys) h = elim (Bool-cases (x == y)) [
  | inl e ↦ rw e refl
  | inr e ↦ rw e (ap suc (length-remove x ys (rw e at h)))
]

has-remove : (x z : ℕ) (ys : List ℕ) → has z ys ≡ true → z ≢ x → has z (remove x ys) ≡ true
unfolding remove
has-remove x z [] h ne = h
has-remove x z (y ∷ ys) h ne = elim (Bool-cases (x == y)) [
  | inl e ↦ rw e (elim (has-cases z y ys h) [
    | inl same ↦ absurd (ne (same ∙ sym ((==_iff x y).0 e)))
    | inr k ↦ k
  ])
  | inr e ↦ rw e (elim (has-cases z y ys h) [
    | inl same ↦ ap (λ u. has u (y ∷ remove x ys)) same ∙ has_self y (remove x ys)
    | inr k ↦ has-later z y (remove x ys) (has-remove x z ys k ne)
  ])
]

pub has-reduce_tasks : (x n : ℕ) → x < n → has x (reduce_tasks n) ≡ true
has-reduce_tasks x zero h = elim h [ ]
has-reduce_tasks x (suc i) h = elim (Bool-cases (x == i)) [
  | inl e ↦ rw e refl
  | inr e ↦ rw e (has-reduce_tasks x i (ground arith))
]

pub reduce_tasks-lt : (x n : ℕ) → has x (reduce_tasks n) ≡ true → x < n
reduce_tasks-lt x zero h = absurd (true-ne-false (sym h))
reduce_tasks-lt x (suc i) h = elim (has-cases x i (reduce_tasks i) h) [
  | inl e ↦ omega (arith, e)
  | inr k ↦ omega (arith, reduce_tasks-lt x i k)
]

pub length-reduce_tasks : (n : ℕ) → length (reduce_tasks n) ≡ n
length-reduce_tasks zero = refl
length-reduce_tasks (suc i) = ap suc (length-reduce_tasks i)

pub reduce_tasks-Distinct : (n : ℕ) → Distinct (reduce_tasks n)
reduce_tasks-Distinct zero = tt
reduce_tasks-Distinct (suc i) =
    (fresh (Bool-cases (has i (reduce_tasks i))), reduce_tasks-Distinct i)
  where
    fresh :
        (has i (reduce_tasks i) ≡ true) ⊎ (has i (reduce_tasks i) ≡ false)
        → has i (reduce_tasks i) ≡ false
    fresh (inl e) = absurd (omega (arith, reduce_tasks-lt i i e))
    fresh (inr e) = e

-- Distinct tasks that all stand in a list are no more than it has.
pub length-le :
    (xs ys : List ℕ)
    → Distinct xs
    → ((z : ℕ) → has z xs ≡ true → has z ys ≡ true)
    → length xs ≤ length ys
length-le [] ys d sub = omega arith
length-le (x ∷ xs) ys d sub = omega (
  arith,
  length-remove x ys (sub x (has_self x xs)),
  length-le xs (remove x ys) d.1
      (λ z h. has-remove x z ys (sub z (has-later z x xs h)) (other z h)),
)
  where
    other : (z : ℕ) → has z xs ≡ true → z ≢ x
    other z h same = true-ne-false (sym h ∙ ap (λ u. has u xs) same ∙ d.0)

pub has-append_left : (x : ℕ) (xs ys : List ℕ) → has x xs ≡ true → has x (xs ++ ys) ≡ true
has-append_left x [] ys h = absurd (true-ne-false (sym h))
has-append_left x (z ∷ xs) ys h = elim (has-cases x z xs h) [
  | inl e ↦ ap (λ u. has u (z ∷ (xs ++ ys))) e ∙ has_self z (xs ++ ys)
  | inr k ↦ has-later x z (xs ++ ys) (has-append_left x xs ys k)
]

pub has-snoc : (x : ℕ) (xs : List ℕ) → has x (xs ++ x ∷ []) ≡ true
has-snoc x [] = has_self x []
has-snoc x (y ∷ xs) = has-later x y (xs ++ x ∷ []) (has-snoc x xs)

pub has-snoc_cases :
    (x y : ℕ) (xs : List ℕ) → has x (xs ++ y ∷ []) ≡ true → (has x xs ≡ true) ⊎ (x ≡ y)
has-snoc_cases x y [] h = elim (has-cases x y [] h) [ inl e ↦ inr e | inr k ↦ inl k ]
has-snoc_cases x y (z ∷ xs) h = elim (has-cases x z (xs ++ y ∷ []) h) [
  | inl e ↦ inl (ap (λ u. has u (z ∷ xs)) e ∙ has_self z xs)
  | inr k ↦ elim (has-snoc_cases x y xs k) [ inl l ↦ inl (has-later x z xs l) | inr e ↦ inr e ]
]

pub has-get_elem? : (x : ℕ) (n : ℕ) (xs : List ℕ) → get_elem? xs n ≡ some x → has x xs ≡ true
has-get_elem? x n [] at = absurd (none-ne at)
has-get_elem? x zero (z ∷ xs) at = ap (λ u. has u (z ∷ xs)) (the_some (sym at)) ∙ has_self z xs
  where
    the_some : some x ≡ some z → x ≡ z
    the_some e = cc
has-get_elem? x (suc n) (z ∷ xs) at = has-later x z xs (has-get_elem? x n xs at)

-- Behind a place within a list stands what it has there and what comes behind.
pub has-drop_cases :
    (x y : ℕ) (n : ℕ) (xs : List ℕ)
    → get_elem? xs n ≡ some y
    → has x (drop n xs) ≡ true
    → (x ≡ y) ⊎ (has x (drop (suc n) xs) ≡ true)
has-drop_cases x y n [] at h = absurd (none-ne at)
has-drop_cases x y zero (z ∷ xs) at h = elim (has-cases x z xs h) [
  | inl e ↦ inl (e ∙ the_some at)
  | inr k ↦ inr k
]
  where
    the_some : some z ≡ some y → z ≡ y
    the_some e = cc
has-drop_cases x y (suc n) (z ∷ xs) at h = has-drop_cases x y n xs at h

pub drop-snoc :
    (n : ℕ) (xs : List ℕ) (x : ℕ) → n ≤ length xs → drop n (xs ++ x ∷ []) ≡ drop n xs ++ x ∷ []
drop-snoc zero xs x h = refl
drop-snoc (suc n) [] x h = elim h [ ]
drop-snoc (suc n) (y ∷ xs) x h = drop-snoc n xs x (omega (arith, h))
