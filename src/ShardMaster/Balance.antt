-- ===== src/ShardMaster/Balance.antt =====
-- `ShardMaster::balanceWorkLoad` of 6.824/src/shardKv/shardmaster/shardMaster.hpp. A work load is
-- the map from each group to its shards. Each queue always holds the pairs of the map, so its top
-- is a function of the map; which of several equal pairs a queue has on top is a parameter.
pub mod Counts
pub mod Loads
pub mod Moves
pub mod Sizes
pub mod Assigned
pub mod Fair
pub mod Ghost
use projects_cpp.Prelude.{
  ℕ, zero, suc, ◌+◌, ◌-◌, ◌%◌, ◌≤◌, ◌≡◌, Option, none, some, Bool, true, false, not, List, [], ◌∷◌,
  ◌++◌, length, set, ltb, ◌==◌, if◌then◌else◌,
}
use projects_cpp.Prelude.Int.{ℤ, pos, eqb_ℤ}
use projects_cpp.Prelude.Maps.{change, keys, IsIn}
use projects_cpp.Prelude.Text.{Text}
use projects_cpp.ShardMaster.{Config, n_shards}

abbrev pub WorkLoad : Type 0
WorkLoad = List (ℤ × List ℕ)

-- A pair of least or of greatest size.
abbrev pub IsLeast : WorkLoad → ℤ × List ℕ → Type 0
IsLeast m (g, s) = IsIn g s m × ((h : ℤ) (t : List ℕ) → IsIn h t m → length s ≤ length t)

abbrev pub IsGreatest : WorkLoad → ℤ × List ℕ → Type 0
IsGreatest m (g, s) = IsIn g s m × ((h : ℤ) (t : List ℕ) → IsIn h t m → length t ≤ length s)

-- The tops of a `lowSizeQueue` and an `upSizeQueue` that hold the pairs of a map.
pub record Queues : Type 0 where
  pub low_top : WorkLoad → Option (ℤ × List ℕ)
  pub up_top : WorkLoad → Option (ℤ × List ℕ)
  pub low_least :
      (p : ℤ × List ℕ) (m : WorkLoad)
      → (q : ℤ × List ℕ) × (low_top (p ∷ m) ≡ some q) × IsLeast (p ∷ m) q
  pub up_greatest :
      (p : ℤ × List ℕ) (m : WorkLoad)
      → (q : ℤ × List ℕ) × (up_top (p ∷ m) ≡ some q) × IsGreatest (p ∷ m) q

abbrev pub push_back : ℕ → List ℕ → List ℕ
push_back i s = s ++ i ∷ []

abbrev pub pop_back : List ℕ → List ℕ
pop_back [] = []
pop_back (x ∷ []) = []
pop_back (x ∷ y ∷ s) = x ∷ pop_back (y ∷ s)

-- `back`; `none` on an empty vector.
abbrev pub back_of : List ℕ → Option ℕ
back_of [] = none
back_of (x ∷ []) = some x
back_of (x ∷ y ∷ s) = back_of (y ∷ s)

abbrev pub push_at : ℤ → ℕ → WorkLoad → WorkLoad
push_at g i m = change [] g (push_back i) m

-- The first loop: every group, with no shard.
abbrev pub no_load : List (ℤ × List Text) → WorkLoad
no_load [] = []
no_load ((g, servers) ∷ groups) = (g, []) ∷ no_load groups

-- The second loop, from shard `i` on: the shards that have a group.
unfoldable pub add_assigned : ℕ → List ℤ → WorkLoad → WorkLoad
add_assigned i [] m = m
add_assigned i (g ∷ shards) m =
    add_assigned (suc i) shards (if eqb_ℤ g (pos 0) then m else push_at g i m)

-- A loop faults, at the top of an empty queue, or goes on.
abbrev pub push_top : ℕ → WorkLoad → Option (ℤ × List ℕ) → Option WorkLoad
push_top i m none = none
push_top i m (some (g, s)) = some (push_at g i m)

abbrev pub moved : ℤ → ℤ → Option ℕ → WorkLoad → Option WorkLoad
moved low up none m = none
moved low up (some i) m = some (change [] up pop_back (push_at low i m))

abbrev pub moved_between : Option (ℤ × List ℕ) → Option (ℤ × List ℕ) → WorkLoad → Option WorkLoad
moved_between none up m = none
moved_between (some low) none m = none
moved_between (some (low, s)) (some (up, t)) m = moved low up (back_of t) m

abbrev pub size_of : Option (ℤ × List ℕ) → ℕ
size_of none = 0
size_of (some (g, s)) = length s

module _ (q : Queues) where
  -- The third loop: a shard with no group goes to a group of least load.
  unfoldable pub add_unassigned : ℕ → List ℤ → Option WorkLoad → Option WorkLoad
  add_unassigned i [] m = m
  add_unassigned i (g ∷ shards) none = none
  add_unassigned i (g ∷ shards) (some m) =
      add_unassigned (suc i) shards (if eqb_ℤ g (pos 0) then push_top i m (q.low_top m) else some m)

  -- The last shard of the greatest load goes to the least.
  unfoldable pub move_one : WorkLoad → Option WorkLoad
  move_one m = moved_between (q.low_top m) (q.up_top m) m

  -- The test of a loop on the sizes of the two tops. The first is taken where the number of groups
  -- divides that of shards. The greatest is not below the least, so its subtraction does not wrap.
  abbrev pub goes_on : Bool → WorkLoad → Bool
  goes_on true m = not (size_of (q.low_top m) == size_of (q.up_top m))
  goes_on false m = ltb 1 (size_of (q.up_top m) - size_of (q.low_top m))

  -- The two `while` loops, on fuel; `none` is no fuel left, or an access to an empty container.
  unfoldable pub balance_loop : Bool → ℕ → WorkLoad → Option WorkLoad
  balance_loop even zero m = none
  balance_loop even (suc fuel) m = elim (goes_on even m) [
    | false ↦ some m
    | true ↦ elim (move_one m) [ none ↦ none | some n ↦ balance_loop even fuel n ]
  ]

-- `config.shards[idx] = load.first` for the shards of one load, and for all loads.
abbrev pub assign_load : ℤ → List ℕ → List ℤ → List ℤ
assign_load g [] shards = shards
assign_load g (i ∷ is) shards = assign_load g is (set shards i g)

unfoldable pub assign_all : WorkLoad → List ℤ → List ℤ
assign_all [] shards = shards
assign_all ((g, s) ∷ m) shards = assign_all m (assign_load g s shards)

abbrev pub divides : Config → Bool
divides config = (n_shards % length config.groups) == 0

abbrev pub with_load : Config → Option WorkLoad → Option Config
with_load config none = none
with_load config (some m) = some (record config { shards = assign_all m config.shards })

module _ (q : Queues) where
  -- The work load before the shards are moved.
  abbrev pub first_load : Config → Option WorkLoad
  first_load config =
      add_unassigned q 0 config.shards (some (add_assigned 0 config.shards (no_load config.groups)))

  abbrev pub balanced_load : ℕ → Bool → Option WorkLoad → Option WorkLoad
  balanced_load fuel even none = none
  balanced_load fuel even (some m) = balance_loop q even fuel m

  unfoldable pub balance_work_load : ℕ → Config → Option Config
  balance_work_load fuel config =
      with_load config (balanced_load fuel (divides config) (first_load config))
