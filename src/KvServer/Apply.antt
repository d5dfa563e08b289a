-- ===== src/KvServer/Apply.antt =====
-- `applyLoop` and the RPC handlers of 6.824/src/kvRaft/server.cpp, one function for what runs between
-- two waits.
use projects_cpp.Prelude.{
  Option, none, some, Bool, true, false, ◌&&◌, ◌||◌, not, List, [], ◌∷◌, ◌++◌, if◌then◌else◌,
}
use projects_cpp.Prelude.Int.{ℤ, pos, ltb_ℤ, eqb_ℤ}
use projects_cpp.Prelude.Maps.{find, put, erase_key}
use projects_cpp.Prelude.Text.{Text, text_eq}
use projects_cpp.Prelude.TextMaps.{find_text, put_text}
use projects_cpp.Raft.State.{StartRet}
use projects_cpp.KvServer.{
  Operation, ApplyMsg, OpContext, op_context, GetReply, KvServer, put_op, append_op, get_op,
  random_value, get_operation,
}
use projects_cpp.KvServer.Snapshot.{recovery_snap_shot}

abbrev pub is_write : Operation → Bool
is_write o = text_eq o.op put_op || text_eq o.op append_op

-- A request of the client that is newer than the last one seen.
abbrev pub is_new : Option ℤ → ℤ → Bool
is_new none request = true
is_new (some prev) request = ltb_ℤ prev request

abbrev pub append_text : Option Text → Text → Text
append_text none value = value
append_text (some old) value = old ++ value

-- The change of the database by a put or an append.
abbrev pub write : Operation → List (Text × Text) → List (Text × Text)
write o db =
    if text_eq o.op put_op
    then put_text o.key o.value db
    else if text_eq o.op append_op
    then put_text o.key (append_text (find_text o.key db) o.value) db
    else db

-- The context of the request with this index, told that another leader's entry is there.
abbrev pub check_term : Operation → OpContext → OpContext
check_term o ctx = if eqb_ℤ ctx.op.term o.term then ctx else record ctx { is_wrong_leader = true }

abbrev pub ignored : OpContext → OpContext
ignored ctx = record ctx { is_ignored = true }

abbrev pub answered : Option Text → OpContext → OpContext
answered none ctx = record ctx { is_key_existed = false; value = [] }
answered (some v) ctx = record ctx { value = v }

-- The context of the request, if there is one, is changed and its pipe written.
abbrev pub recved :
    ℤ
    → Operation
    → (OpContext → OpContext)
    → Option OpContext
    → List (ℤ × OpContext)
    → List (ℤ × OpContext)
recved index o f none requests = requests
recved index o f (some ctx) requests =
    put index (record (f (check_term o ctx)) { is_recved = true }) requests

-- What a committed operation makes of the database, and of the context of its request.
abbrev pub new_database : Operation → Option ℤ → List (Text × Text) → List (Text × Text)
new_database o prev db =
    if is_write o then (if is_new prev o.request_id then write o db else db) else db

abbrev pub new_context : Operation → Option ℤ → List (Text × Text) → OpContext → OpContext
new_context o prev db ctx =
    if is_write o
    then (if is_new prev o.request_id then ctx else ignored ctx)
    else answered (find_text o.key db) ctx

-- The request id of the client is stored whatever it is.
unfoldable pub apply_operation : Operation → ℤ → KvServer → KvServer
apply_operation o index m =
    let prev = find o.client_id m.client_seq_map in
    record m {
      last_applied_index = index;
      database = new_database o prev m.database;
      client_seq_map = put o.client_id o.request_id m.client_seq_map;
      request_map =
          recved index o (new_context o prev m.database) (find index m.request_map) m.request_map;
    }

abbrev pub apply_parsed : Option Operation → ℤ → KvServer → Option KvServer
apply_parsed none index m = none
apply_parsed (some o) index m = some (apply_operation o index m)

abbrev pub installed : ℤ → Option KvServer → Option KvServer
installed index none = none
installed index (some m) = some (record m { last_applied_index = index })

-- A snapshot from Raft; an empty one clears the maps.
abbrev pub recover : Text → KvServer → Option KvServer
recover [] m = some (record m { database = []; client_seq_map = [] })
recover (c ∷ s) m = recovery_snap_shot (c ∷ s) m

-- One round of `applyLoop`; `none` is a fault.
unfoldable pub apply_msg : ApplyMsg → KvServer → Option KvServer
apply_msg msg m =
    if msg.command_valid
    then apply_parsed (get_operation msg) msg.command_index m
    else installed msg.last_included_index (recover msg.snap_shot m)

-- The operations of the two calls.
abbrev pub get_operation_for : Text → ℤ → ℤ → Operation
get_operation_for key client_id request_id = record {
  op = get_op;
  key = key;
  value = random_value;
  client_id = client_id;
  request_id = request_id;
  term = pos 0;
}

abbrev pub put_append_operation : Text → Text → Text → ℤ → ℤ → Operation
put_append_operation op key value client_id request_id = record {
  op = op;
  key = key;
  value = value;
  client_id = client_id;
  request_id = request_id;
  term = pos 0;
}

-- The start of a handler: `none` is the reply of a node that does not lead.
abbrev pub begin_request : Operation → StartRet → KvServer → Option KvServer
begin_request o ret m =
    if ret.is_leader
    then some (record m {
      request_map = put ret.cmd_index (op_context (record o { term = ret.cur_term })) m.request_map;
    })
    else none

abbrev pub wrong_leader : GetReply
wrong_leader = record { value = []; is_wrong_leader = true; is_key_exist = true }

-- The reply of `get`, from its context and whether two seconds went by before the pipe was read.
abbrev pub get_reply : OpContext → Bool → GetReply
get_reply ctx timed_out =
    if ctx.is_recved && not timed_out
    then (if ctx.is_wrong_leader
        then wrong_leader
        else if ctx.is_key_existed
        then record { value = ctx.value; is_wrong_leader = false; is_key_exist = true }
        else record { value = []; is_wrong_leader = false; is_key_exist = false })
    else wrong_leader

-- The reply of `putAppend`: is the leader wrong?
abbrev pub put_append_reply : OpContext → Bool → Bool
put_append_reply ctx timed_out =
    if ctx.is_recved && not timed_out then ctx.is_wrong_leader else true

-- The end of both.
abbrev pub end_request : ℤ → KvServer → KvServer
end_request index m = record m { request_map = erase_key index m.request_map }
