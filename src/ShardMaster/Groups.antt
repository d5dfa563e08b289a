-- ===== src/ShardMaster/Groups.antt =====
-- The groups of a configuration as a function from group numbers, under joins and leaves.
use projects_cpp.Prelude.{
  ◌≡◌, ◌≢◌, refl, sym, ap, subst, ◌∙◌, inl, inr, Option, none, some, false, List, [], ◌∷◌, All,
  Bool-cases, if◌then◌else◌, arith,
}
use projects_cpp.Prelude.Int.{ℤ, eqb_ℤ, eqb_ℤ→eq, eqb_ℤ→ne, eqb_ℤ-ne}
use projects_cpp.Prelude.Maps.{
  keys, find, put, erase_key, DistinctKeys, find-of_IsIn, IsIn-of_find, find-put,
}
use projects_cpp.Prelude.Text.{Text}
use projects_cpp.ShardMaster.Balance.Loads.{HasKey, IsPlaced}
use projects_cpp.ShardMaster.Service.{put_all, erase_all, contains, clear_shards}

abbrev pub Groups : Type 0
Groups = List (ℤ × List Text)

find-erase_key :
    (g k : ℤ) (m : Groups) → find g (erase_key k m) ≡ (if eqb_ℤ k g then none else find g m)
find-erase_key g k [] = ground arith
find-erase_key g k ((j, w) ∷ m) = ground (arith, find-erase_key g k m)

find-absent : (g : ℤ) (m : Groups) → All (λ j. j ≢ g) (keys m) → find g m ≡ none
find-absent g [] h = refl
find-absent g ((j, w) ∷ m) h = rw (eqb_ℤ-ne j g h.0) (find-absent g m h.1)

-- The second map where the first has nothing.
abbrev pub or_else : Option (List Text) → Option (List Text) → Option (List Text)
or_else none o = o
or_else (some v) o = some v

-- After a join a group has its new servers, or those it had.
pub find-put_all :
    (g : ℤ) (new m : Groups)
    → DistinctKeys (keys new)
    → find g (put_all new m) ≡ or_else (find g new) (find g m)
find-put_all g [] m d = refl
find-put_all g ((k, v) ∷ new) m d =
    find-put_all g new (put k v m) d.1 ∙ elim (Bool-cases (eqb_ℤ k g)) [
      | inl e ↦
          rw
            (
              find-absent g new (subst (λ j. All (λ i. i ≢ j) (keys new)) (eqb_ℤ→eq k g e) d.0),
              find-put g k v m,
              e,
            )
            refl
      | inr e ↦ rw (find-put g k v m, e) refl
    ]

-- After a leave the groups that left are gone.
pub find-erase_all :
    (g : ℤ) (gids : List ℤ) (m : Groups)
    → find g (erase_all gids m) ≡ (if contains gids g then none else find g m)
find-erase_all g [] m = refl
find-erase_all g (k ∷ gids) m =
    ground (arith, find-erase_all g gids (erase_key k m), find-erase_key g k m)

absent-put :
    (i k : ℤ) (v : List Text) (m : Groups)
    → k ≢ i
    → All (λ j. j ≢ i) (keys m)
    → All (λ j. j ≢ i) (keys (put k v m))
absent-put i k v [] ne h = (ne, tt)
absent-put i k v ((j, w) ∷ m) ne h = elim (Bool-cases (eqb_ℤ j k)) [
  | inl e ↦ rw e h
  | inr e ↦ rw e (h.0, absent-put i k v m ne h.1)
]

pub put-Distinct :
    (k : ℤ) (v : List Text) (m : Groups) → DistinctKeys (keys m) → DistinctKeys (keys (put k v m))
put-Distinct k v [] d = (tt, tt)
put-Distinct k v ((j, w) ∷ m) d = elim (Bool-cases (eqb_ℤ j k)) [
  | inl e ↦ rw e d
  | inr e ↦
      rw e (absent-put j k v m (λ same. eqb_ℤ→ne j k e (sym same)) d.0, put-Distinct k v m d.1)
]

pub put_all-Distinct :
    (new m : Groups) → DistinctKeys (keys m) → DistinctKeys (keys (put_all new m))
put_all-Distinct [] m d = d
put_all-Distinct ((k, v) ∷ new) m d = put_all-Distinct new (put k v m) (put-Distinct k v m d)

absent-erase_key :
    (i k : ℤ) (m : Groups) → All (λ j. j ≢ i) (keys m) → All (λ j. j ≢ i) (keys (erase_key k m))
absent-erase_key i k [] h = tt
absent-erase_key i k ((j, w) ∷ m) h = elim (Bool-cases (eqb_ℤ j k)) [
  | inl e ↦ rw e (absent-erase_key i k m h.1)
  | inr e ↦ rw e (h.0, absent-erase_key i k m h.1)
]

erase_key-Distinct :
    (k : ℤ) (m : Groups) → DistinctKeys (keys m) → DistinctKeys (keys (erase_key k m))
erase_key-Distinct k [] d = tt
erase_key-Distinct k ((j, w) ∷ m) d = elim (Bool-cases (eqb_ℤ j k)) [
  | inl e ↦ rw e (erase_key-Distinct k m d.1)
  | inr e ↦ rw e (absent-erase_key j k m d.0, erase_key-Distinct k m d.1)
]

pub erase_all-Distinct :
    (gids : List ℤ) (m : Groups) → DistinctKeys (keys m) → DistinctKeys (keys (erase_all gids m))
erase_all-Distinct [] m d = d
erase_all-Distinct (k ∷ gids) m d =
    erase_all-Distinct gids (erase_key k m) (erase_key-Distinct k m d)

pub HasKey-of_find : (g : ℤ) (m : Groups) (v : List Text) → find g m ≡ some v → HasKey g m
HasKey-of_find g m v e = (v, IsIn-of_find g v m e)

-- Groups that were there are there after a join.
pub HasKey-put_all :
    (g : ℤ) (new m : Groups)
    → DistinctKeys (keys new)
    → DistinctKeys (keys m)
    → HasKey g m
    → HasKey g (put_all new m)
HasKey-put_all g new m dn dm (v, p) =
    let e = find-put_all g new m dn ∙ ap (or_else (find g new)) (find-of_IsIn p dm) in
    by_new (find g new) e
  where
    by_new :
        (o : Option (List Text))
        → find g (put_all new m) ≡ or_else o (some v)
        → HasKey g (put_all new m)
    by_new none e = HasKey-of_find g (put_all new m) v e
    by_new (some w) e = HasKey-of_find g (put_all new m) w e

pub IsPlaced-put_all :
    (new m : Groups) (shards : List ℤ)
    → DistinctKeys (keys new)
    → DistinctKeys (keys m)
    → All (IsPlaced m) shards
    → All (IsPlaced (put_all new m)) shards
IsPlaced-put_all new m [] dn dm h = tt
IsPlaced-put_all new m (g ∷ shards) dn dm h = (
  elim h.0 [ inl z ↦ inl z | inr k ↦ inr (HasKey-put_all g new m dn dm k) ],
  IsPlaced-put_all new m shards dn dm h.1,
)

-- After a leave the shards have groups that are left, or none.
pub IsPlaced-clear_shards :
    (gids : List ℤ) (m : Groups) (shards : List ℤ)
    → DistinctKeys (keys m)
    → All (IsPlaced m) shards
    → All (IsPlaced (erase_all gids m)) (clear_shards gids shards)
IsPlaced-clear_shards gids m [] d h = tt
IsPlaced-clear_shards gids m (g ∷ shards) d h = (
  elim (Bool-cases (contains gids g)) [ inl e ↦ rw e (inl refl) | inr e ↦ rw e (stays e h.0) ],
  IsPlaced-clear_shards gids m shards d h.1,
)
  where
    stays : contains gids g ≡ false → IsPlaced m g → IsPlaced (erase_all gids m) g
    stays e (inl z) = inl z
    stays e (inr (v, p)) = inr (
        HasKey-of_find g (erase_all gids m) v
          (find-erase_all g gids m ∙ ap (λ b. if b then none else find g m) e ∙ find-of_IsIn p d))
