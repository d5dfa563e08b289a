-- ===== src/Prelude/Maps.antt =====
-- `unordered_map<int, V>` as an association list in the order of its iteration, and sums over one.
use Prim.Native.Nat.{ℕ, ◌+◌}
use mathlib.Core.Path.{◌≡◌, refl, sym, ap, ◌∙◌}
use mathlib.Core.Logic.{◌≢◌, inl, inr}
use mathlib.Core.Option.{Option, none, some}
use mathlib.Core.List.{List, [], ◌∷◌, ◌++◌}
use native.Mathlib.Omega.{arith}
use projects_cpp.Prelude.Tests.{if◌then◌else◌, Bool-cases}
use projects_cpp.Prelude.Lists.{All}
use projects_cpp.Prelude.Int.{ℤ, eqb_ℤ, eqb_ℤ→eq, eqb_ℤ-refl, eqb_ℤ-ne}

module _ {ℓ} {V : Type ℓ} where
  abbrev pub keys : List (ℤ × V) → List ℤ
  keys [] = []
  keys ((k, v) ∷ m) = k ∷ keys m

  -- `m.count(k)`, `m[k]`
  abbrev pub find : ℤ → List (ℤ × V) → Option V
  find k [] = none
  find k ((j, v) ∷ m) = if eqb_ℤ j k then some v else find k m

  -- `m[k] = v`
  abbrev pub put : ℤ → V → List (ℤ × V) → List (ℤ × V)
  put k v [] = (k, v) ∷ []
  put k v ((j, w) ∷ m) = if eqb_ℤ j k then (j, v) ∷ m else (j, w) ∷ put k v m

  -- `m.erase(k)`
  abbrev pub erase_key : ℤ → List (ℤ × V) → List (ℤ × V)
  erase_key k [] = []
  erase_key k ((j, v) ∷ m) = if eqb_ℤ j k then erase_key k m else (j, v) ∷ erase_key k m

  -- A change of `m[k]`, which starts as `start` where there is none.
  abbrev pub change : V → ℤ → (V → V) → List (ℤ × V) → List (ℤ × V)
  change start k f [] = (k, f start) ∷ []
  change start k f ((j, v) ∷ m) = if eqb_ℤ j k then (j, f v) ∷ m else (j, v) ∷ change start k f m

  abbrev pub sum_of : (V → ℕ) → List (ℤ × V) → ℕ
  sum_of w [] = 0
  sum_of w ((k, v) ∷ m) = w v + sum_of w m

-- No key stands twice.
abbrev pub DistinctKeys : List ℤ → Type 0
DistinctKeys [] = Unit
DistinctKeys (k ∷ ks) = All (λ j. j ≢ k) ks × DistinctKeys ks

-- The pair of `k` and `v` is in the map.
pub data IsIn {ℓ} {V : Type ℓ} (k : ℤ) (v : V) : List (ℤ × V) → Type ℓ where
  here : {j : ℤ} {w : V} {m : List (ℤ × V)} → k ≡ j → v ≡ w → IsIn k v ((j, w) ∷ m)
  there : {j : ℤ} {w : V} {m : List (ℤ × V)} → IsIn k v m → IsIn k v ((j, w) ∷ m)

module _ {ℓ} {V : Type ℓ} where
  pub IsIn-ne :
      {k j : ℤ} {v : V} {m : List (ℤ × V)} → IsIn k v m → All (λ i. i ≢ j) (keys m) → k ≢ j
  IsIn-ne (here e f) h same = h.0 (sym e ∙ same)
  IsIn-ne (there r) h same = IsIn-ne r h.1 same

  pub find-of_IsIn :
      {k : ℤ} {v : V} {m : List (ℤ × V)} → IsIn k v m → DistinctKeys (keys m) → find k m ≡ some v
  find-of_IsIn {k = k} (here {j = j} e f) d = rw (sym e, eqb_ℤ-refl k, f) refl
  find-of_IsIn {k = k} (there {j = j} r) d =
      rw (eqb_ℤ-ne j k (λ e. IsIn-ne r d.0 (sym e))) (find-of_IsIn r d.1)

  -- The keys stay where the key is there.
  pub keys-change :
      (start : V) (f : V → V) {k : ℤ} {v : V} {m : List (ℤ × V)}
      → IsIn k v m
      → keys (change start k f m) ≡ keys m
  keys-change start f {k = k} (here {j = j} e q) = rw (sym e, eqb_ℤ-refl k) refl
  keys-change start f {k = k} (there {j = j} {w = w} {m = m} r) = elim (Bool-cases (eqb_ℤ j k)) [
    | inl e ↦ rw e refl
    | inr e ↦ rw e (ap (λ ks. j ∷ ks) (keys-change start f r))
  ]

  -- A change moves a sum by the weight of the changed value.
  pub sum_of-change :
      (weight : V → ℕ) (start : V) (f : V → V) {k : ℤ} {v : V} {m : List (ℤ × V)}
      → IsIn k v m
      → DistinctKeys (keys m)
      → sum_of weight (change start k f m) + weight v ≡ sum_of weight m + weight (f v)
  sum_of-change weight start f {k = k} (here e q) d = rw (sym e, eqb_ℤ-refl k, q) (omega arith)
  sum_of-change weight start f {k = k} (there {j = j} r) d =
      rw (eqb_ℤ-ne j k (λ e. IsIn-ne r d.0 (sym e)))
        (omega (arith, sum_of-change weight start f r d.1))

  -- Other keys keep their values.
  pub IsIn-change_ne :
      (start : V) (k : ℤ) (f : V → V) {j : ℤ} {v : V} {m : List (ℤ × V)}
      → IsIn j v m
      → j ≢ k
      → IsIn j v (change start k f m)
  IsIn-change_ne start k f (here {j = i} e q) ne =
      rw (eqb_ℤ-ne i k (λ same. ne (e ∙ same))) (here e q)
  IsIn-change_ne start k f (there {j = i} {w = w} {m = m} r) ne = elim (Bool-cases (eqb_ℤ i k)) [
    | inl e ↦ rw e (there r)
    | inr e ↦ rw e (there (IsIn-change_ne start k f r ne))
  ]

  pub IsIn-unique :
      {m : List (ℤ × V)} {k : ℤ} {v w : V}
      → IsIn k v m
      → IsIn k w m
      → DistinctKeys (keys m)
      → some v ≡ some w
  IsIn-unique p q d = sym (find-of_IsIn p d) ∙ find-of_IsIn q d

  -- A key of the map has a value.
  pub IsIn-of_find : (k : ℤ) (v : V) (m : List (ℤ × V)) → find k m ≡ some v → IsIn k v m
  IsIn-of_find k v [] h = absurd (none-ne h)
    where
      none-ne : none ≡ some v → ⊥
      none-ne e = cc
  IsIn-of_find k v ((j, w) ∷ m) h = elim (Bool-cases (eqb_ℤ j k)) [
    | inl e ↦ here (sym (eqb_ℤ→eq j k e)) (same (sym (rw e at h)))
    | inr e ↦ there (IsIn-of_find k v m (rw e at h))
  ]
    where
      same : some v ≡ some w → v ≡ w
      same e = cc

module _ {V : Type 0} where
  -- Laws of a write, in if form.
  pub find-put :
      (g k : ℤ) (v : V) (m : List (ℤ × V))
      → find g (put k v m) ≡ (if eqb_ℤ k g then some v else find g m)
  find-put g k v [] = refl
  find-put g k v ((j, w) ∷ m) = ground (arith, find-put g k v m)

  pub find-put_ne : (g k : ℤ) (v : V) (m : List (ℤ × V)) → k ≢ g → find g (put k v m) ≡ find g m
  find-put_ne g k v m ne =
      find-put g k v m ∙ ap (λ b. if b then some v else find g m) (eqb_ℤ-ne k g ne)

  pub find-put_self : (k : ℤ) (v : V) (m : List (ℤ × V)) → find k (put k v m) ≡ some v
  find-put_self k v m = find-put k k v m ∙ ap (λ b. if b then some v else find k m) (eqb_ℤ-refl k)

module _ {V : Type 0} where
  -- A key that is not there is put at the end.
  pub put-absent :
      (k : ℤ) (v : V) (m : List (ℤ × V)) → All (λ j. j ≢ k) (keys m) → put k v m ≡ m ++ (k, v) ∷ []
  put-absent k v [] h = refl
  put-absent k v ((j, w) ∷ m) h =
      rw (eqb_ℤ-ne j k h.0) (ap (λ l. (j, w) ∷ l) (put-absent k v m h.1))

  pub keys-snoc :
      (P : ℤ → Type 0) (m : List (ℤ × V)) (k : ℤ) (v : V)
      → All P (keys m)
      → P k
      → All P (keys (m ++ (k, v) ∷ []))
  keys-snoc P [] k v h p = (p, tt)
  keys-snoc P ((j, w) ∷ m) k v h p = (h.0, keys-snoc P m k v h.1 p)

  -- None of the keys is one of the map.
  abbrev pub AreNew : List (ℤ × V) → List ℤ → Type 0
  AreNew m ks = All (λ k. All (λ j. j ≢ k) (keys m)) ks

  pub AreNew-snoc :
      (m : List (ℤ × V)) (k : ℤ) (v : V) (ks : List ℤ)
      → AreNew m ks
      → All (λ j. j ≢ k) ks
      → AreNew (m ++ (k, v) ∷ []) ks
  AreNew-snoc m k v [] h d = tt
  AreNew-snoc m k v (i ∷ ks) h d =
      (keys-snoc (λ j. j ≢ i) m k v h.0 (λ e. d.0 (sym e)), AreNew-snoc m k v ks h.1 d.1)
