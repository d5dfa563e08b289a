-- ===== src/ShardMaster/Service.antt =====
-- The data of class ShardMaster of 6.824/src/shardKv/shardmaster/shardMaster.hpp and its changes of
-- the configuration, with Operation and ApplyMsg of raft.hpp beside it. The named pipe of a request
-- is the flag `is_recved` of its context. `Operation::index` and `OpContext::isIgnored`, which
-- nothing reads, are left out.
use projects_cpp.Prelude.{
  ℕ, Option, none, some, Bool, true, false, ◌||◌, List, [], ◌∷◌, ◌++◌, length, set, ltb,
  if◌then◌else◌,
}
use projects_cpp.Prelude.Int.{ℤ, pos, negsuc, succ_ℤ, eqb_ℤ}
use projects_cpp.Prelude.Maps.{put, erase_key}
use projects_cpp.Prelude.Text.{text_eq, Text, to_string, atoi}
use projects_cpp.Raft.Codec.{push_nonempty, split_loop}
use projects_cpp.ShardMaster.{Config, empty_config}
use projects_cpp.ShardMaster.Codec.{
  get_map_from_servers_shard_info, get_vector_of_int_from_string, get_shard_and_group_id,
}
use projects_cpp.ShardMaster.Balance.{Queues, balance_work_load}

pub record Operation : Type 0 where
  pub op : Text
  pub args : Text
  pub key : Text
  pub value : Text
  pub client_id : ℤ
  pub request_id : ℤ
  pub term : ℤ

pub record StartRet : Type 0 where
  pub cmd_index : ℤ
  pub cur_term : ℤ
  pub is_leader : Bool

-- `command`, `commandIndex` and `commandTerm` of an ApplyMsg.
pub record ApplyMsg : Type 0 where
  pub command : Text
  pub command_index : ℤ
  pub command_term : ℤ

pub record OpContext : Type 0 where
  pub op : Operation
  pub is_wrong_leader : Bool
  pub config : Config
  pub is_recved : Bool

pub record ShardMaster : Type 0 where
  pub configs : List Config
  pub client_seq_map : List (ℤ × ℤ)
  pub request_map : List (ℤ × OpContext)

-- `StartShardMaster`
abbrev pub start_shard_master : ShardMaster
start_shard_master = record { configs = empty_config ∷ []; client_seq_map = []; request_map = [] }

abbrev pub join_text : Text
join_text = b'J' ∷ b'o' ∷ b'i' ∷ b'n' ∷ []

abbrev pub leave_text : Text
leave_text = b'L' ∷ b'e' ∷ b'a' ∷ b'v' ∷ b'e' ∷ []

abbrev pub move_text : Text
move_text = b'M' ∷ b'o' ∷ b'v' ∷ b'e' ∷ []

abbrev pub query_text : Text
query_text = b'Q' ∷ b'u' ∷ b'e' ∷ b'r' ∷ b'y' ∷ []

abbrev pub random_text : Text
random_text = b'r' ∷ b'a' ∷ b'n' ∷ b'd' ∷ b'o' ∷ b'm' ∷ []

-- `Operation::getCmd`
unfoldable pub get_cmd : Operation → Text
get_cmd o =
    o.op
    ++ (b' '
        ∷ (o.key
            ++ (b' '
                ∷ (o.value
                    ++ (b' '
                        ∷ (to_string o.client_id
                            ++ (b' ' ∷ (to_string o.request_id ++ (b' ' ∷ o.args)))))))))

-- The parts of a command; with fewer than six the code reads past the end.
abbrev pub operation_of : ℤ → List Text → Option Operation
operation_of term (op ∷ key ∷ value ∷ client ∷ request ∷ args ∷ rest) = some (record {
  op = op;
  args = args;
  key = key;
  value = value;
  client_id = atoi client;
  request_id = atoi request;
  term = term;
})
operation_of term _ = none

-- `ApplyMsg::getOperation`
unfoldable pub get_operation : ApplyMsg → Option Operation
get_operation msg =
    let (strs, tmp) = split_loop b' ' [] [] msg.command in
    operation_of msg.command_term (push_nonempty strs tmp)

-- `configs.back()`
abbrev pub last_config : List Config → Option Config
last_config [] = none
last_config (c ∷ []) = some c
last_config (c ∷ d ∷ cs) = last_config (d ∷ cs)

abbrev pub put_all : List (ℤ × List Text) → List (ℤ × List Text) → List (ℤ × List Text)
put_all [] groups = groups
put_all ((gid, servers) ∷ new) groups = put_all new (put gid servers groups)

abbrev pub erase_all : List ℤ → List (ℤ × List Text) → List (ℤ × List Text)
erase_all [] groups = groups
erase_all (gid ∷ gids) groups = erase_all gids (erase_key gid groups)

abbrev pub contains : List ℤ → ℤ → Bool
contains [] g = false
contains (h ∷ hs) g = eqb_ℤ h g || contains hs g

-- Shards of the groups that left have none.
abbrev pub clear_shards : List ℤ → List ℤ → List ℤ
clear_shards gids [] = []
clear_shards gids (g ∷ shards) = (if contains gids g then pos 0 else g) ∷ clear_shards gids shards

-- `config.shards[shard] = gid`; `none` out of range.
abbrev pub set_shard : ℤ → ℤ → List ℤ → Option (List ℤ)
set_shard (pos i) gid shards = if ltb i (length shards) then some (set shards i gid) else none
set_shard (negsuc i) gid shards = none

abbrev pub is_empty {ℓ} : {A : Type ℓ} → List A → Bool
is_empty [] = true
is_empty (x ∷ xs) = false

-- `configs.push_back(config)`
abbrev pub push_config : List Config → Option Config → Option (List Config)
push_config configs none = none
push_config configs (some c) = some (configs ++ c ∷ [])

module _ (q : Queues) (fuel : ℕ) where
  abbrev pub balance_and_push : List Config → Config → Option (List Config)
  balance_and_push configs c =
      if is_empty c.groups then some configs else push_config configs (balance_work_load q fuel c)

  abbrev pub do_join : List Config → Config → Option (List (ℤ × List Text)) → Option (List Config)
  do_join configs c none = none
  do_join configs c (some new) =
      balance_and_push configs (record c { groups = put_all new c.groups })

  abbrev pub do_leave : List Config → Config → Option (List ℤ) → Option (List Config)
  do_leave configs c none = none
  do_leave configs c (some gids) =
      balance_and_push configs
        (record c { groups = erase_all gids c.groups; shards = clear_shards gids c.shards })

abbrev pub with_shards : List Config → Config → Option (List ℤ) → Option (List Config)
with_shards configs c none = none
with_shards configs c (some shards) = some (configs ++ record c { shards = shards } ∷ [])

abbrev pub do_move : List Config → Config → Option (List ℤ) → Option (List Config)
do_move configs c (some (shard ∷ gid ∷ rest)) = with_shards configs c (set_shard shard gid c.shards)
do_move configs c _ = none

module _ (q : Queues) (fuel : ℕ) where
  -- The branches of `doJoinLeaveMove`, on a copy of the last configuration with the next number.
  abbrev pub do_operation : Operation → List Config → Config → Option (List Config)
  do_operation o configs c =
      if text_eq o.op join_text
      then do_join q fuel configs c (get_map_from_servers_shard_info o.args)
      else if text_eq o.op leave_text
      then do_leave q fuel configs c (get_vector_of_int_from_string o.args)
      else if text_eq o.op move_text
      then do_move configs c (get_shard_and_group_id o.args)
      else some configs

  abbrev pub on_last : Operation → List Config → Option Config → Option (List Config)
  on_last o configs none = none
  on_last o configs (some c) =
      do_operation o configs (record c { config_num = succ_ℤ c.config_num })

  -- `doJoinLeaveMove`; `none` is a fault, an exception, or no fuel for the balancing.
  unfoldable pub do_join_leave_move : Operation → List Config → Option (List Config)
  do_join_leave_move o configs = on_last o configs (last_config configs)
