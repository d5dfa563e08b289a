-- ===== src/ShardMaster/Apply.antt =====
-- `applyLoop` and the RPC handlers of 6.824/src/shardKv/shardmaster/shardMaster.hpp, one function
-- for what runs between two waits.
use projects_cpp.Prelude.{
  ℕ, Option, none, some, Bool, true, false, ◌||◌, not, ◌&&◌, List, [], length, get_elem?, leb,
  if◌then◌else◌,
}
use projects_cpp.Prelude.Int.{ℤ, pos, negsuc, ltb_ℤ, eqb_ℤ}
use projects_cpp.Prelude.Maps.{find, put, erase_key}
use projects_cpp.Prelude.Text.{text_eq, Text, to_string, stoi}
use projects_cpp.ShardMaster.{Config, empty_config}
use projects_cpp.ShardMaster.Codec.{get_string_from_config}
use projects_cpp.ShardMaster.Balance.{Queues}
use projects_cpp.ShardMaster.Service.{
  Operation, StartRet, ApplyMsg, OpContext, ShardMaster, join_text, leave_text, move_text,
  query_text, random_text, get_operation, last_config, do_join_leave_move,
}

-- A configuration by its number; a number that is negative or too large gives the last one.
abbrev pub config_at : List Config → ℤ → Option Config
config_at configs (pos n) =
    if leb (length configs) n then last_config configs else get_elem? configs n
config_at configs (negsuc n) = last_config configs

abbrev pub is_change : Operation → Bool
is_change o = text_eq o.op join_text || (text_eq o.op leave_text || text_eq o.op move_text)

-- A request of the client that is newer than the last one seen.
abbrev pub is_new : Option ℤ → ℤ → Bool
is_new none request = true
is_new (some prev) request = ltb_ℤ prev request

-- The context of the request with this index, told that another leader's entry is there.
abbrev pub check_term : Operation → Option OpContext → Option OpContext
check_term o none = none
check_term o (some ctx) =
    some (if eqb_ℤ ctx.op.term o.term then ctx else record ctx { is_wrong_leader = true })

abbrev pub set_configs : ShardMaster → Option (List Config) → Option ShardMaster
set_configs m none = none
set_configs m (some configs) = some (record m { configs = configs })

abbrev pub answer : OpContext → Option Config → Option OpContext
answer ctx none = none
answer ctx (some c) = some (record ctx { config = c })

abbrev pub answer_at : OpContext → List Config → Option ℤ → Option OpContext
answer_at ctx configs none = none
answer_at ctx configs (some num) = answer ctx (config_at configs num)

-- The context goes back to the map, and its pipe is written.
abbrev pub recved : ShardMaster → ℤ → Option OpContext → Option ShardMaster
recved m index none = none
recved m index (some ctx) =
    some (record m { request_map = put index (record ctx { is_recved = true }) m.request_map })

abbrev pub wake : ℤ → Option OpContext → Option ShardMaster → Option ShardMaster
wake index none m = m
wake index (some ctx) none = none
wake index (some ctx) (some m) = recved m index (some ctx)

-- A query answers the context of its request, if there is one.
abbrev pub apply_query : Operation → ℤ → Option OpContext → ShardMaster → Option ShardMaster
apply_query o index none m = some m
apply_query o index (some ctx) m = recved m index (answer_at ctx m.configs (stoi o.args))

module _ (q : Queues) (fuel : ℕ) where
  abbrev pub apply_change : Operation → Option ℤ → ShardMaster → Option ShardMaster
  apply_change o prev m =
      if is_new prev o.request_id
      then set_configs m (do_join_leave_move q fuel o m.configs)
      else some m

  abbrev pub apply_with :
      Operation → ℤ → Option OpContext → Option ℤ → ShardMaster → Option ShardMaster
  apply_with o index ctx prev m =
      if is_change o then wake index ctx (apply_change o prev m) else apply_query o index ctx m

  -- The request id of the client is stored whatever it is.
  unfoldable pub apply_operation : Operation → ℤ → ShardMaster → Option ShardMaster
  apply_operation o index m =
      apply_with o index (check_term o (find index m.request_map))
        (find o.client_id m.client_seq_map)
        (record m { client_seq_map = put o.client_id o.request_id m.client_seq_map })

  abbrev pub apply_parsed : Option Operation → ℤ → ShardMaster → Option ShardMaster
  apply_parsed none index m = none
  apply_parsed (some o) index m = apply_operation o index m

  -- One round of `applyLoop`; `none` is a fault, an exception, or no fuel for the balancing.
  unfoldable pub apply_msg : ApplyMsg → ShardMaster → Option ShardMaster
  apply_msg msg m = apply_parsed (get_operation msg) msg.command_index m

-- The arguments of the four calls, as `Join`, `Leave`, `Move` and `Query` make them.
abbrev pub operation_for : Text → Text → ℤ → ℤ → Operation
operation_for op args client_id request_id = record {
  op = op;
  args = args;
  key = random_text;
  value = random_text;
  client_id = client_id;
  request_id = request_id;
  term = pos 0;
}

abbrev pub query_operation : ℤ → ℤ → ℤ → Operation
query_operation config_num client_id request_id =
    operation_for query_text (to_string config_num) client_id request_id

-- The start of a handler: `none` is the reply of a node that does not lead.
abbrev pub begin_request : Operation → StartRet → ShardMaster → Option (OpContext × ShardMaster)
begin_request o ret m =
    let ctx : OpContext = record {
      op = record o { term = ret.cur_term };
      is_wrong_leader = false;
      config = empty_config;
      is_recved = false;
    } in
    if ret.is_leader
    then some (ctx, record m { request_map = put ret.cmd_index ctx m.request_map })
    else none

-- Its end, with its context and whether two seconds went by before the pipe was read: is the
-- leader wrong?
abbrev pub end_request : OpContext → Bool → ℤ → ShardMaster → Bool × ShardMaster
end_request ctx timed_out index m = (
  if ctx.is_recved && not timed_out then ctx.is_wrong_leader else true,
  record m { request_map = erase_key index m.request_map },
)

-- The text in the reply of a query; empty where the leader is wrong.
abbrev pub query_reply : OpContext → Bool → ℤ → ShardMaster → Text × (Bool × ShardMaster)
query_reply ctx timed_out index m =
    let (wrong, after) = end_request ctx timed_out index m in
    (if wrong then [] else get_string_from_config ctx.config, (wrong, after))

-- `getConfigsSize`
abbrev pub get_configs_size : ShardMaster → ℕ
get_configs_size m = length m.configs
