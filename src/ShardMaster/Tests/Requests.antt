-- ===== src/ShardMaster/Tests/Requests.antt =====
-- Messages, joins and leaves at a shard master that has just started.
use projects_cpp.Prelude.{
  zero, suc, ◌≡◌, ◌⊎◌, refl, ap, sym, Option, none, some, true, List, [], ◌∷◌, ◌++◌, arith, inl,
  inr, if◌then◌else◌,
}
use projects_cpp.Prelude.Int.{ℤ, pos}
use projects_cpp.Prelude.Maps.{find, here, there}
use projects_cpp.Prelude.Text.{text_eq, Text, to_string, digits, digits_from, scan, atoi, stoi}
use projects_cpp.Raft.Codec.{split_loop}
use projects_cpp.ShardMaster.{Config, empty_config}
use projects_cpp.ShardMaster.Codec.{
  get_servers_shard_info_from_map, get_group_ids_info_from_vector, read_groups,
  get_map_from_servers_shard_info, read_ints, get_vector_of_int_from_string,
}
use projects_cpp.ShardMaster.Balance.{
  balance_work_load, add_assigned, add_unassigned, balance_loop, move_one, assign_all,
}
use projects_cpp.ShardMaster.Balance.Loads.{IsPlaced}
use projects_cpp.ShardMaster.Service.{
  Operation, ApplyMsg, ShardMaster, start_shard_master, join_text, leave_text, get_cmd,
  get_operation, erase_all, contains, do_join_leave_move,
}
use projects_cpp.ShardMaster.Apply.{operation_for, apply_operation, apply_msg}
use projects_cpp.ShardMaster.History.Numbers.{IsNumbered, apply_all, apply_all-IsNumbered}
use projects_cpp.ShardMaster.Groups.{or_else}
use projects_cpp.ShardMaster.Changes.{IsWell, Appends}
use projects_cpp.ShardMaster.Changes.Appended.{join-Appends, leave-Appends}
use projects_cpp.ShardMaster.Tests.{first_queues, servers, pos_ne}

abbrev two_groups : List (ℤ × List Text)
two_groups = (pos 1, servers) ∷ (pos 2, servers) ∷ []

-- Groups 1 and 2 join; group 1 leaves.
unfoldable pub join_both : Operation
join_both = operation_for join_text (get_servers_shard_info_from_map two_groups) (pos 5) (pos 1)

leave_first : Operation
leave_first = operation_for leave_text (get_group_ids_info_from_vector (pos 1 ∷ [])) (pos 5) (pos 2)

message : Operation → ℤ → ApplyMsg
message o index = record { command = get_cmd o; command_index = index; command_term = pos 1 }

abbrev pub or_start : Option ShardMaster → ShardMaster
or_start none = start_shard_master
or_start (some m) = m

after_both : ShardMaster
after_both = or_start (
    apply_all first_queues 56 (message join_both (pos 1) ∷ message leave_first (pos 2) ∷ [])
      start_shard_master)

after_both_runs :
    apply_all first_queues 56
      (message join_both (pos 1) ∷ message leave_first (pos 2) ∷ [])
      start_shard_master
    ≡ some after_both
unfolding after_both message join_both leave_first get_cmd apply_msg apply_operation get_operation
    do_join_leave_move balance_work_load add_assigned add_unassigned balance_loop move_one
    assign_all to_string digits digits_from scan atoi stoi split_loop read_groups
    get_map_from_servers_shard_info read_ints get_vector_of_int_from_string
after_both_runs = refl

start-IsNumbered : IsNumbered start_shard_master.configs
start-IsNumbered zero c e = same e
  where
    same : some empty_config ≡ some c → c.config_num ≡ pos 0
    same q = ap num (sym q)
      where
        num : Option Config → ℤ
        num none = pos 0
        num (some d) = d.config_num
start-IsNumbered (suc i) c e = absurd (none-ne e)
  where
    none-ne : none ≡ some c → ⊥
    none-ne q = cc

apply_all-IsNumbered_example :
    IsNumbered after_both.configs
    × ((more : List Config) × (after_both.configs ≡ start_shard_master.configs ++ more))
apply_all-IsNumbered_example =
    apply_all-IsNumbered first_queues 56
      (message join_both (pos 1) ∷ message leave_first (pos 2) ∷ []) start_shard_master after_both
      start-IsNumbered after_both_runs

nothing : IsPlaced [] (pos 0)
nothing = inl refl

empty-IsWell : IsWell empty_config
empty-IsWell = record {
  distinct = tt;
  size = refl;
  placed = (
    nothing,
    (
      nothing,
      (nothing, (nothing, (nothing, (nothing, (nothing, (nothing, (nothing, (nothing, tt)))))))),
    ),
  );
}

both_parsed : get_map_from_servers_shard_info join_both.args ≡ some two_groups
unfolding join_both to_string digits digits_from scan stoi split_loop read_groups
    get_map_from_servers_shard_info
both_parsed = refl

join_named : text_eq join_both.op join_text ≡ true
unfolding join_both
join_named = refl

join-Appends_example :
    (ds : List Config) × (do_join_leave_move first_queues 56 join_both start_shard_master.configs
      ≡ some ds)
    × Appends start_shard_master.configs empty_config
        (λ g. or_else (find g two_groups) (find g empty_config.groups))
        ds
join-Appends_example =
    join-Appends first_queues 56 (omega arith) start_shard_master.configs empty_config refl
      join_both two_groups empty-IsWell join_named both_parsed (omega arith)

-- Five shards each.
abbrev pub halved : Config
halved = record {
  config_num = pos 1;
  shards = pos 1 ∷ pos 1 ∷ pos 1 ∷ pos 1 ∷ pos 1 ∷ pos 2 ∷ pos 2 ∷ pos 2 ∷ pos 2 ∷ pos 2 ∷ [];
  groups = two_groups;
}

in_first : IsPlaced two_groups (pos 1)
in_first = inr (servers, here refl refl)

in_second : IsPlaced two_groups (pos 2)
in_second = inr (servers, there (here refl refl))

halved-IsWell : IsWell halved
halved-IsWell = record {
  distinct = ((pos_ne 2 1 (omega arith), tt), (tt, tt));
  size = refl;
  placed = (
    in_first,
    (
      in_first,
      (
        in_first,
        (in_first, (in_first, (in_second, (in_second, (in_second, (in_second, (in_second, tt))))))),
      ),
    ),
  );
}

first_parsed : get_vector_of_int_from_string leave_first.args ≡ some (pos 1 ∷ [])
unfolding leave_first to_string digits digits_from scan stoi split_loop read_ints
    get_vector_of_int_from_string
first_parsed = refl

leave_named : text_eq leave_first.op leave_text ≡ true
unfolding leave_first
leave_named = refl

leave-Appends_example :
    (ds : List Config) × (do_join_leave_move first_queues 56 leave_first
        (empty_config ∷ halved ∷ [])
      ≡ some ds)
    × (((erase_all (pos 1 ∷ []) two_groups ≡ []) × (ds ≡ empty_config ∷ halved ∷ []))
        ⊎ Appends
            (empty_config ∷ halved ∷ [])
            halved
            (λ g. if contains (pos 1 ∷ []) g then none else find g two_groups)
            ds)
leave-Appends_example =
    leave-Appends first_queues 56 (omega arith) (empty_config ∷ halved ∷ []) halved refl leave_first
      (pos 1 ∷ []) halved-IsWell leave_named first_parsed
