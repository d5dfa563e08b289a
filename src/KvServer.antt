-- ===== src/KvServer.antt =====
-- The key/value server of 6.824/src/kvRaft/server.cpp: its data, with Operation and ApplyMsg of
-- raft.hpp beside it. What `m_raft.start` returns is an argument of the handlers. The named pipe of a
-- request is the flag `is_recved` of its context, and a time-out is an argument. `Operation::index`,
-- which nothing reads, is left out.
pub mod Snapshot
pub mod Apply
pub mod Agree
pub mod Install
pub mod Contexts
pub mod Reply
mod Tests
use projects_cpp.Prelude.{ℕ, ◌++◌, List, [], ◌∷◌, Option, none, some, Bool, true, false}
use projects_cpp.Prelude.Int.{ℤ, pos}
use projects_cpp.Prelude.Text.{Text, to_string, atoi}
use projects_cpp.Raft.Codec.{push_nonempty, split_loop}

pub record Operation : Type 0 where
  pub op : Text
  pub key : Text
  pub value : Text
  pub client_id : ℤ
  pub request_id : ℤ
  pub term : ℤ

pub record ApplyMsg : Type 0 where
  pub command_valid : Bool
  pub command : Text
  pub command_index : ℤ
  pub command_term : ℤ
  pub last_included_index : ℤ
  pub snap_shot : Text

pub record OpContext : Type 0 where
  pub op : Operation
  pub is_wrong_leader : Bool
  pub is_ignored : Bool
  pub is_key_existed : Bool
  pub value : Text
  pub is_recved : Bool

-- `OpContext::OpContext`
abbrev pub op_context : Operation → OpContext
op_context o = record {
  op = o;
  is_wrong_leader = false;
  is_ignored = false;
  is_key_existed = true;
  value = [];
  is_recved = false;
}

pub record GetReply : Type 0 where
  pub value : Text
  pub is_wrong_leader : Bool
  pub is_key_exist : Bool

pub record KvServer : Type 0 where
  pub max_raft_state : ℤ
  pub last_applied_index : ℤ
  pub database : List (Text × Text)
  pub client_seq_map : List (ℤ × ℤ)
  pub request_map : List (ℤ × OpContext)

-- `StartKvServer`
abbrev pub start_kv_server : ℤ → KvServer
start_kv_server max = record {
  max_raft_state = max;
  last_applied_index = pos 0;
  database = [];
  client_seq_map = [];
  request_map = [];
}

abbrev pub put_op : Text
put_op = b'p' ∷ b'u' ∷ b't' ∷ []

abbrev pub append_op : Text
append_op = b'a' ∷ b'p' ∷ b'p' ∷ b'e' ∷ b'n' ∷ b'd' ∷ []

abbrev pub get_op : Text
get_op = b'g' ∷ b'e' ∷ b't' ∷ []

-- The value of a `get`, which nothing reads.
abbrev pub random_value : Text
random_value = b'r' ∷ b'a' ∷ b'n' ∷ b'd' ∷ b'o' ∷ b'm' ∷ []

-- `Operation::getCmd`
unfoldable pub get_cmd : Operation → Text
get_cmd o =
    o.op
    ++ (b' '
        ∷ (o.key
            ++ (b' '
                ∷ (o.value
                    ++ (b' ' ∷ (to_string o.client_id ++ (b' ' ∷ to_string o.request_id)))))))

-- The parts of a command; with fewer than five the code reads past the end.
abbrev pub operation_of : ℤ → List Text → Option Operation
operation_of term (op ∷ key ∷ value ∷ client ∷ request ∷ rest) = some (record {
  op = op;
  key = key;
  value = value;
  client_id = atoi client;
  request_id = atoi request;
  term = term;
})
operation_of term _ = none

-- `ApplyMsg::getOperation`
unfoldable pub get_operation : ApplyMsg → Option Operation
get_operation msg =
    let (strs, tmp) = split_loop b' ' [] [] msg.command in
    operation_of msg.command_term (push_nonempty strs tmp)
