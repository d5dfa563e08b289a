-- ===== src/ShardMaster/Balance/Ghost/Hangs.antt =====
-- `balanceWorkLoad` on a configuration with a shard of a group that does not exist.
use projects_cpp.Prelude.{
  ℕ, suc, ◌%◌, ◌≡◌, ◌≢◌, ◌<◌, ◌⊎◌, inl, inr, refl, sym, ap, subst, ◌∙◌, none, some, List, [], ◌∷◌,
  ◌++◌, length, length-append, All, arith, true,
}
use projects_cpp.Prelude.Int.{ℤ, pos}
use projects_cpp.Prelude.Maps.{keys-snoc, keys, IsIn, here, there, DistinctKeys}
use projects_cpp.Prelude.Text.{Text}
use projects_cpp.ShardMaster.{Config, n_shards}
use projects_cpp.ShardMaster.Balance.{
  Queues, no_load, add_assigned, add_unassigned, balance_loop, first_load, divides, balanced_load,
  with_load, balance_work_load,
}
use projects_cpp.ShardMaster.Balance.Loads.{HasKey-keys, IsPlaced, no_load-Holds}
use projects_cpp.ShardMaster.Balance.Fair.{IsSound, first_load-Holds}
use projects_cpp.ShardMaster.Balance.Ghost.{
  Occurs, Known, add_assigned-ghost, no_load-snoc, even_loop-none,
}

IsIn-append {ℓ} :
    {V : Type ℓ} (r : List (ℤ × V)) {k : ℤ} {v : V} {m : List (ℤ × V)}
    → IsIn k v m
    → IsIn k v (m ++ r)
IsIn-append r (here e f) = here e f
IsIn-append r (there p) = there (IsIn-append r p)

IsIn-last {ℓ} : {V : Type ℓ} (k : ℤ) (v : V) (m : List (ℤ × V)) → IsIn k v (m ++ (k, v) ∷ [])
IsIn-last k v [] = here refl refl
IsIn-last k v (p ∷ m) = there (IsIn-last k v m)

Distinct-snoc :
    (groups : List (ℤ × List Text)) (g : ℤ)
    → DistinctKeys (keys groups)
    → All (λ k. k ≢ g) (keys groups)
    → DistinctKeys (keys (groups ++ (g, []) ∷ []))
Distinct-snoc [] g d h = (tt, tt)
Distinct-snoc ((k, v) ∷ groups) g d h =
    (keys-snoc (λ j. j ≢ k) groups g [] d.0 (λ e. h.0 (sym e)), Distinct-snoc groups g d.1 h.1)

-- A configuration whose groups divide ten, with a shard of one more group `g`, which is not among
-- them.
pub record IsHaunted (c : Config) (g : ℤ) : Type 0 where
  pub distinct : DistinctKeys (keys c.groups)
  pub some_group : 0 < length c.groups
  pub size : length c.shards ≡ n_shards
  pub even : n_shards % length c.groups ≡ 0
  pub odd : n_shards % suc (length c.groups) ≢ 0
  pub nonzero : g ≢ pos 0
  pub unknown : All (λ k. k ≢ g) (keys c.groups)
  pub occurs : Occurs g c.shards
  pub others : All (λ h. IsPlaced c.groups h ⊎ (h ≡ g)) c.shards

module _ (q : Queues) (c : Config) (g : ℤ) (h : IsHaunted c g) where
  abbrev with_ghost : Config
  with_ghost = record c { groups = c.groups ++ (g, []) ∷ [] }

  length-ghost : length (c.groups ++ (g, []) ∷ []) ≡ suc (length c.groups)
  length-ghost = omega (arith, length-append c.groups ((g, []) ∷ []))

  placed :
      (shards : List ℤ)
      → All (λ k. IsPlaced c.groups k ⊎ (k ≡ g)) shards
      → All (IsPlaced with_ghost.groups) shards × All (Known g h.nonzero (no_load c.groups)) shards
  placed [] others = (tt, tt)
  placed (x ∷ shards) others =
      let rest = placed shards others.1 in
      let first = of_one others.0 in ((first.0, rest.0), (first.1, rest.1))
    where
      of_one :
          IsPlaced c.groups x ⊎ (x ≡ g)
          → IsPlaced with_ghost.groups x × Known g h.nonzero (no_load c.groups) x
      of_one (inl (inl z)) = (inl z, inl z)
      of_one (inl (inr (v, p))) = (
        inr (v, IsIn-append ((g, []) ∷ []) p),
        inr (
            inl (
              HasKey-keys x c.groups (no_load c.groups) (sym (no_load-Holds c.groups).same_keys)
                (v, p))),
      )
      of_one (inr same) = (
        inr ([], subst (λ y. IsIn y [] with_ghost.groups) (sym same) (IsIn-last g [] c.groups)),
        inr (inr same),
      )

  same_load : first_load q c ≡ first_load q with_ghost
  same_load =
      ap (λ m. add_unassigned q 0 c.shards (some m))
        (add_assigned-ghost g h.nonzero c.shards 0 (no_load c.groups)
            (subst (λ ks. All (λ k. k ≢ g) ks) (sym (no_load-Holds c.groups).same_keys) h.unknown)
            (placed c.shards h.others).1 h.occurs
          ∙ ap (add_assigned 0 c.shards) (sym (no_load-snoc c.groups g)))

  -- Where the number of groups, at least one and distinct, divides ten and one more does not, and
  -- of the ten shards each has one of the groups, none, or one same group that is not among them,
  -- with at least one of the last kind, the balancing does not return, whatever its fuel.
  pub balance_work_load-hangs : (fuel : ℕ) → balance_work_load q fuel c ≡ none
  unfolding balance_work_load
  balance_work_load-hangs fuel =
      let sound : IsSound with_ghost = record {
        distinct = Distinct-snoc c.groups g h.distinct h.unknown;
        some_group = omega (arith, length-ghost);
        size = h.size;
        placed = (placed c.shards h.others).0;
      } in
      let (m, runs, held) = first_load-Holds q with_ghost sound in
      ap (λ o. with_load c (balanced_load q fuel (divides c) o)) (same_load ∙ runs)
      ∙ ap (λ b. with_load c (balance_loop q b fuel m)) (divides_ten h.even)
      ∙ ap (with_load c) (
          even_loop-none q with_ghost.groups sound.some_group sound.distinct
            (λ e. h.odd (sym (ap (λ n. n_shards % n) length-ghost) ∙ e)) fuel m held)
    where
      divides_ten : n_shards % length c.groups ≡ 0 → divides c ≡ true
      divides_ten e = ground arith
