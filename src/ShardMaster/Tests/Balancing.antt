-- ===== src/ShardMaster/Tests/Balancing.antt =====
-- The balancing and the text forms at some configurations.
use projects_cpp.Prelude.{
  ℕ, ◌≡◌, refl, Option, none, some, List, [], ◌∷◌, All, arith, inl, inr, ◌⊎◌,
}
use projects_cpp.Prelude.Int.{ℤ, pos}
use projects_cpp.Prelude.Maps.{here, there, keys, DistinctKeys}
use projects_cpp.ShardMaster.{Config}
use projects_cpp.ShardMaster.Codec.{get_config, get_string_from_config}
use projects_cpp.ShardMaster.Codec.RoundTrip.{IsName}
use projects_cpp.ShardMaster.Codec.Configs.{get_config-get_string}
use projects_cpp.ShardMaster.Balance.{
  balance_work_load, add_assigned, add_unassigned, balance_loop, move_one, assign_all,
}
use projects_cpp.ShardMaster.Balance.Loads.{IsPlaced}
use projects_cpp.ShardMaster.Balance.Assigned.{shards_of}
use projects_cpp.ShardMaster.Balance.Fair.{IsSound, IsBalanced, balance_work_load-IsBalanced}
use projects_cpp.ShardMaster.Balance.Ghost.Hangs.{IsHaunted, balance_work_load-hangs}
use projects_cpp.ShardMaster.Tests.{first_queues, servers, crowded, pos_ne}

shards_of_config : Option Config → List ℤ
shards_of_config none = []
shards_of_config (some c) = c.shards

-- Four, three and three shards.
crowded_shards :
    (shards_of (pos 1) (shards_of_config (balance_work_load first_queues 56 crowded)) ≡ 4)
    × (shards_of (pos 2) (shards_of_config (balance_work_load first_queues 56 crowded)) ≡ 3)
    × (shards_of (pos 3) (shards_of_config (balance_work_load first_queues 56 crowded)) ≡ 3)
unfolding shards_of_config balance_work_load add_assigned add_unassigned balance_loop move_one
    assign_all
crowded_shards = (refl, refl, refl)

three_distinct : DistinctKeys (keys crowded.groups)
three_distinct = (
  (pos_ne 2 1 (omega arith), (pos_ne 3 1 (omega arith), tt)),
  ((pos_ne 3 2 (omega arith), tt), (tt, tt)),
)

in_first : IsPlaced crowded.groups (pos 1)
in_first = inr (servers, here refl refl)

in_second : IsPlaced crowded.groups (pos 2)
in_second = inr (servers, there (here refl refl))

in_none : IsPlaced crowded.groups (pos 0)
in_none = inl refl

crowded-IsSound : IsSound crowded
crowded-IsSound = record {
  distinct = three_distinct;
  some_group = omega arith;
  size = refl;
  placed = (
    in_first,
    (
      in_first,
      (
        in_first,
        (in_first, (in_first, (in_first, (in_second, (in_second, (in_none, (in_none, tt))))))),
      ),
    ),
  );
}

balance_work_load-IsBalanced_example :
    (d : Config) × (balance_work_load first_queues 56 crowded ≡ some d) × IsBalanced crowded d
balance_work_load-IsBalanced_example =
    balance_work_load-IsBalanced first_queues crowded crowded-IsSound 56 (omega arith)

get_config-get_string_example : get_config (get_string_from_config crowded) ≡ some crowded
get_config-get_string_example =
    get_config-get_string crowded (λ e. cons-ne e) (named, (named, (named, tt))) three_distinct
  where
    cons-ne : {z : ℤ} {zs : List ℤ} → z ∷ zs ≡ [] → ⊥
    cons-ne e = cc

    nil-ne : {c : ℕ} {s : List ℕ} → c ∷ s ≡ [] → ⊥
    nil-ne e = cc

    named : All IsName servers
    named = (((λ e. nil-ne e), omega arith), (((λ e. nil-ne e), omega arith), tt))

-- One shard was moved to group 7, which is none, and then group 2 joined group 1.
abbrev haunted : Config
haunted = record {
  config_num = pos 3;
  shards = pos 7 ∷ pos 1 ∷ pos 1 ∷ pos 1 ∷ pos 1 ∷ pos 1 ∷ pos 1 ∷ pos 1 ∷ pos 1 ∷ pos 1 ∷ [];
  groups = (pos 1, servers) ∷ (pos 2, servers) ∷ [];
}

first_or_ghost : IsPlaced haunted.groups (pos 1) ⊎ (pos 1 ≡ pos 7)
first_or_ghost = inl (inr (servers, here refl refl))

haunted-IsHaunted : IsHaunted haunted (pos 7)
haunted-IsHaunted = record {
  distinct = ((pos_ne 2 1 (omega arith), tt), (tt, tt));
  some_group = omega arith;
  size = refl;
  even = refl;
  odd = λ e. omega arith;
  nonzero = pos_ne 7 0 (omega arith);
  unknown = (pos_ne 1 7 (omega arith), (pos_ne 2 7 (omega arith), tt));
  occurs = inl refl;
  others = (
    inr refl,
    (
      first_or_ghost,
      (
        first_or_ghost,
        (
          first_or_ghost,
          (
            first_or_ghost,
            (
              first_or_ghost,
              (first_or_ghost, (first_or_ghost, (first_or_ghost, (first_or_ghost, tt)))),
            ),
          ),
        ),
      ),
    ),
  );
}

balance_work_load-hangs_example : balance_work_load first_queues 1000 haunted ≡ none
balance_work_load-hangs_example =
    balance_work_load-hangs first_queues haunted (pos 7) haunted-IsHaunted 1000
