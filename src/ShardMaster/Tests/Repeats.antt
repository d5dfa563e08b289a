-- ===== src/ShardMaster/Tests/Repeats.antt =====
-- Requests that come a second time.
use projects_cpp.Prelude.{◌≡◌, refl, Option, none, some, true, List, [], ◌∷◌, arith}
use projects_cpp.Prelude.Int.{pos, ◌<ℤ◌}
use projects_cpp.Prelude.Maps.{find}
use projects_cpp.Prelude.Text.{to_string, digits, digits_from, scan, stoi}
use projects_cpp.Raft.Codec.{split_loop}
use projects_cpp.ShardMaster.{Config}
use projects_cpp.ShardMaster.Codec.{
  get_group_ids_info_from_vector, read_groups, get_map_from_servers_shard_info, read_ints,
  get_shard_and_group_id,
}
use projects_cpp.ShardMaster.Balance.{
  balance_work_load, add_assigned, add_unassigned, balance_loop, move_one, assign_all,
}
use projects_cpp.ShardMaster.Service.{
  Operation, ShardMaster, start_shard_master, move_text, do_join_leave_move,
}
use projects_cpp.ShardMaster.Apply.{operation_for, is_change, apply_operation}
use projects_cpp.ShardMaster.Repeats.{repeat_ignored, old_request_repeats}
use projects_cpp.ShardMaster.Tests.{first_queues}
use projects_cpp.ShardMaster.Tests.Requests.{join_both, halved, or_start}

after_join : ShardMaster
after_join = or_start (apply_operation first_queues 56 join_both (pos 1) start_shard_master)

after_join_runs :
    apply_operation first_queues 56 join_both (pos 1) start_shard_master ≡ some after_join
unfolding after_join join_both apply_operation do_join_leave_move balance_work_load add_assigned
    add_unassigned balance_loop move_one assign_all to_string digits digits_from scan stoi
    split_loop read_groups get_map_from_servers_shard_info
after_join_runs = refl

join_changes : is_change join_both ≡ true
unfolding join_both
join_changes = refl

repeat_ignored_example :
    (k : ShardMaster) × (apply_operation first_queues 56 join_both (pos 2) after_join ≡ some k)
    × (k.configs ≡ after_join.configs)
repeat_ignored_example =
    repeat_ignored first_queues 56 join_both (pos 1) (pos 2) start_shard_master after_join
      join_changes after_join_runs

-- The client's second request, a move of shard 0 to group 2, was the last one.
move_first : Operation
move_first =
    operation_for move_text (get_group_ids_info_from_vector (pos 0 ∷ pos 2 ∷ [])) (pos 5) (pos 2)

abbrev moved_on : ShardMaster
moved_on = record { configs = halved ∷ []; client_seq_map = (pos 5, pos 2) ∷ []; request_map = [] }

configs_or_none : Option (List Config) → List Config
configs_or_none none = []
configs_or_none (some cs) = cs

move_runs :
    do_join_leave_move first_queues 56 move_first moved_on.configs
    ≡ some (configs_or_none (do_join_leave_move first_queues 56 move_first moved_on.configs))
unfolding configs_or_none move_first do_join_leave_move to_string digits digits_from scan stoi
    split_loop read_ints get_shard_and_group_id
move_runs = refl

move_changes : is_change move_first ≡ true
unfolding move_first
move_changes = refl

same_client : join_both.client_id ≡ move_first.client_id
unfolding join_both move_first
same_client = refl

join_older : join_both.request_id <ℤ move_first.request_id
unfolding join_both move_first
join_older = omega arith

move_seen : find move_first.client_id moved_on.client_seq_map ≡ some move_first.request_id
unfolding move_first
move_seen = refl

old_request_repeats_example :
    (n : ShardMaster) × (k : ShardMaster) × (apply_operation first_queues 56 join_both
        (pos 7)
        moved_on
      ≡ some n)
    × (n.configs ≡ moved_on.configs)
    × (apply_operation first_queues 56 move_first (pos 8) n ≡ some k)
    × (k.configs ≡ configs_or_none (do_join_leave_move first_queues 56 move_first moved_on.configs))
old_request_repeats_example =
    old_request_repeats first_queues 56 move_first join_both (pos 7) (pos 8) moved_on
      (configs_or_none (do_join_leave_move first_queues 56 move_first moved_on.configs))
      move_changes join_changes same_client join_older move_seen move_runs
