-- ===== src/Raft/Leader/Commit/Sorted.antt =====
-- Sorting the match indices: the numbers from a place of the sorted list on.
use projects_cpp.Prelude.{
  ℕ, zero, suc, ◌+◌, ◌≤◌, ◌≡◌, refl, ap, ◌∙◌, inl, inr, List, [], ◌∷◌, some, arith, length,
  get_elem?, if◌then◌else◌, Bool-cases, All, subst,
}
use mathlib.Core.Option.{some-injective}
use projects_cpp.Prelude.Int.{ℤ, ◌≤ℤ◌, leb_ℤ}
use projects_cpp.Raft.Leader.{insert_sorted, sort}

-- How many of the numbers are at least `v`.
abbrev pub count_from : ℤ → List ℤ → ℕ
count_from v [] = 0
count_from v (x ∷ xs) = (if leb_ℤ v x then 1 else 0) + count_from v xs

-- The numbers rise.
abbrev pub IsRising : List ℤ → Type 0
IsRising [] = Unit
IsRising (x ∷ xs) = All (λ y. x ≤ℤ y) xs × IsRising xs

All-le_trans : (a b : ℤ) (xs : List ℤ) → a ≤ℤ b → All (λ y. b ≤ℤ y) xs → All (λ y. a ≤ℤ y) xs
All-le_trans a b [] h k = tt
All-le_trans a b (x ∷ xs) h k = (omega (arith, k.0), All-le_trans a b xs h k.1)

insert_sorted-All :
    (P : ℤ → Type 0) (x : ℤ) (xs : List ℤ) → P x → All P xs → All P (insert_sorted x xs)
unfolding insert_sorted
insert_sorted-All P x [] h k = (h, tt)
insert_sorted-All P x (y ∷ ys) h k = elim (Bool-cases (leb_ℤ x y)) [
  | inl e ↦ rw e (h, k)
  | inr e ↦ rw e (k.0, insert_sorted-All P x ys h k.1)
]

insert_sorted-IsRising : (x : ℤ) (xs : List ℤ) → IsRising xs → IsRising (insert_sorted x xs)
unfolding insert_sorted
insert_sorted-IsRising x [] h = (tt, tt)
insert_sorted-IsRising x (y ∷ ys) h = elim (Bool-cases (leb_ℤ x y)) [
  | inl e ↦ rw e ((ground arith, All-le_trans x y ys (ground arith) h.0), h)
  | inr e ↦
      rw e
        (insert_sorted-All (λ z. y ≤ℤ z) x ys (ground arith) h.0, insert_sorted-IsRising x ys h.1)
]

pub sort-IsRising : (xs : List ℤ) → IsRising (sort xs)
unfolding sort
sort-IsRising [] = tt
sort-IsRising (x ∷ xs) = insert_sorted-IsRising x (sort xs) (sort-IsRising xs)

count_from-insert_sorted :
    (v x : ℤ) (xs : List ℤ) → count_from v (insert_sorted x xs) ≡ count_from v (x ∷ xs)
unfolding insert_sorted
count_from-insert_sorted v x [] = refl
count_from-insert_sorted v x (y ∷ ys) = elim (Bool-cases (leb_ℤ x y)) [
  | inl e ↦ rw e
  | inr e ↦ rw e (omega (arith, count_from-insert_sorted v x ys))
]

pub count_from-sort : (v : ℤ) (xs : List ℤ) → count_from v (sort xs) ≡ count_from v xs
unfolding sort
count_from-sort v [] = refl
count_from-sort v (x ∷ xs) =
    omega (arith, count_from-insert_sorted v x (sort xs), count_from-sort v xs)

length-insert_sorted : (x : ℤ) (xs : List ℤ) → length (insert_sorted x xs) ≡ suc (length xs)
unfolding insert_sorted
length-insert_sorted x [] = refl
length-insert_sorted x (y ∷ ys) = elim (Bool-cases (leb_ℤ x y)) [
  | inl e ↦ rw e
  | inr e ↦ rw e (ap suc (length-insert_sorted x ys))
]

pub length-sort : (xs : List ℤ) → length (sort xs) ≡ length xs
unfolding sort
length-sort [] = refl
length-sort (x ∷ xs) = length-insert_sorted x (sort xs) ∙ ap suc (length-sort xs)

-- All of a list of numbers from `v` on are counted.
count_from-All : (v : ℤ) (xs : List ℤ) → All (λ y. v ≤ℤ y) xs → count_from v xs ≡ length xs
count_from-All v [] h = refl
count_from-All v (x ∷ xs) h = ground (arith, count_from-All v xs h.1, h.0)

-- In a rising list the numbers from place `i` on are at least the one at that place.
pub count_from-place :
    (v : ℤ) (xs : List ℤ) (i : ℕ)
    → IsRising xs
    → get_elem? xs i ≡ some v
    → length xs ≤ count_from v xs + i
count_from-place v [] i h e = absurd (ground arith)
count_from-place v (x ∷ xs) zero h e =
    let same : x ≡ v = some-injective _ _ e in
    ground (arith, same, count_from-All v xs (subst (λ a. All (λ y. a ≤ℤ y) xs) same h.0))
count_from-place v (x ∷ xs) (suc i) h e = omega (arith, count_from-place v xs i h.1 e)
