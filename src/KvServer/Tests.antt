-- ===== src/KvServer/Tests.antt =====
-- A client's requests at a key/value server.
use projects_cpp.Prelude.{
  ◌≡◌, refl, Option, none, some, true, false, ◌&&◌, not, List, [], ◌∷◌, ◌≢◌, All, arith,
  if◌then◌else◌, inr,
}
use projects_cpp.Prelude.Int.{ℤ, pos, eqb_ℤ}
use projects_cpp.Prelude.Maps.{find}
use projects_cpp.Prelude.Text.{Text, to_string, digits, digits_from, scan, atoi}
use projects_cpp.Prelude.TextMaps.{find_text}
use projects_cpp.Raft.State.{StartRet}
use projects_cpp.Raft.Codec.{split_loop}
use projects_cpp.KvServer.{
  Operation, ApplyMsg, OpContext, op_context, KvServer, start_kv_server, put_op, append_op, get_op,
  get_cmd, get_operation,
}
use projects_cpp.KvServer.Snapshot.{get_snap_shot, recovery_snap_shot, snap_shot_round}
use projects_cpp.KvServer.Snapshot.Read.{IsWritable}
use projects_cpp.KvServer.Apply.{
  apply_operation, apply_msg, put_append_operation, get_operation_for, begin_request, get_reply,
  wrong_leader,
}
use projects_cpp.KvServer.Agree.{apply_all, Same, apply_all-agree}
use projects_cpp.KvServer.Install.{snap_shot_msg, snap_shot_replaces_log, recovery_snap_shot-none}
use projects_cpp.KvServer.Contexts.{IsElsewhere}
use projects_cpp.KvServer.Reply.{found, get_reads}

-- Client 5 puts x under a and then appends y.
put_x : Operation
put_x = put_append_operation put_op (b'a' ∷ []) (b'x' ∷ []) (pos 5) (pos 1)

append_y : Operation
append_y = put_append_operation append_op (b'a' ∷ []) (b'y' ∷ []) (pos 5) (pos 2)

-- Client 6 puts z under b.
put_z : Operation
put_z = put_append_operation put_op (b'b' ∷ []) (b'z' ∷ []) (pos 6) (pos 1)

-- Client 5 gets a.
get_a : Operation
get_a = get_operation_for (b'a' ∷ []) (pos 5) (pos 3)

message : Operation → ℤ → ApplyMsg
message o index = record {
  command_valid = true;
  command = get_cmd o;
  command_index = index;
  command_term = pos 1;
  last_included_index = pos 0;
  snap_shot = [];
}

abbrev server_or_start : Option KvServer → KvServer
server_or_start none = start_kv_server (pos 1024)
server_or_start (some m) = m

first_two : List ApplyMsg
first_two = message put_x (pos 1) ∷ message append_y (pos 2) ∷ []

after_two : KvServer
after_two = server_or_start (apply_all first_two (start_kv_server (pos 1024)))

after_two_runs : apply_all first_two (start_kv_server (pos 1024)) ≡ some after_two
unfolding after_two first_two message put_x append_y apply_msg apply_operation get_operation get_cmd
    to_string digits digits_from scan atoi split_loop
after_two_runs = refl

after_two_data : after_two.database ≡ (b'a' ∷ [], b'x' ∷ b'y' ∷ []) ∷ []
unfolding after_two first_two message put_x append_y apply_msg apply_operation get_operation get_cmd
    to_string digits digits_from scan atoi split_loop
after_two_data = refl

after_two_seqs : after_two.client_seq_map ≡ (pos 5, pos 2) ∷ []
unfolding after_two first_two message put_x append_y apply_msg apply_operation get_operation get_cmd
    to_string digits digits_from scan atoi split_loop
after_two_seqs = refl

-- The leader, where the put waits.
leading : KvServer
leading = record (start_kv_server (pos 1024)) { request_map = (pos 1, op_context put_x) ∷ [] }

leading-Same : Same (start_kv_server (pos 1024)) leading
unfolding leading
leading-Same = record { last_applied_index = refl; database = refl; client_seq_map = refl }

apply_all-agree_example : (b : KvServer) × (apply_all first_two leading ≡ some b) × Same after_two b
apply_all-agree_example =
    apply_all-agree first_two (start_kv_server (pos 1024)) leading after_two leading-Same
      after_two_runs

third : List ApplyMsg
third = message put_z (pos 3) ∷ []

after_three : KvServer
after_three = server_or_start (apply_all third after_two)

after_three_runs : apply_all third after_two ≡ some after_three
unfolding after_three third after_two first_two message put_x append_y put_z apply_msg
    apply_operation get_operation get_cmd to_string digits digits_from scan atoi split_loop
after_three_runs = refl

snapped : Text × ℤ
snapped = (get_snap_shot after_two, pos 2)

snapped_made : snap_shot_round true after_two ≡ some snapped
unfolding snapped after_two first_two message put_x append_y apply_msg apply_operation get_operation
    get_cmd to_string digits digits_from scan atoi split_loop
snapped_made = refl

after_two-IsWritable : IsWritable after_two
unfolding after_two first_two message put_x append_y apply_msg apply_operation get_operation get_cmd
    to_string digits digits_from scan atoi split_loop
after_two-IsWritable = record {
  some_data = λ e. cons-ne e;
  some_client = λ e. cons-ne e;
  pairs = omega arith;
  distinct = (tt, tt);
  distinct_clients = (tt, tt);
}
  where
    cons-ne : {A : Type 0} {x : A} {xs : List A} → x ∷ xs ≢ []
    cons-ne e = cc

snap_shot_replaces_log_example :
    (b : KvServer) × (apply_all (snap_shot_msg snapped ∷ third) (start_kv_server (pos 1024))
      ≡ some b)
    × Same after_three b
snap_shot_replaces_log_example =
    snap_shot_replaces_log true after_two (start_kv_server (pos 1024)) after_three snapped third
      after_two-IsWritable refl refl snapped_made after_three_runs

-- A server that has seen one get.
only_get : KvServer
only_get = record (start_kv_server (pos 1024)) { client_seq_map = (pos 5, pos 1) ∷ [] }

only_get_empty : only_get.database ≡ []
unfolding only_get
only_get_empty = refl

recovery_snap_shot-none_example :
    recovery_snap_shot (get_snap_shot only_get) (start_kv_server (pos 1024)) ≡ none
recovery_snap_shot-none_example =
    recovery_snap_shot-none only_get (start_kv_server (pos 1024)) only_get_empty

-- The get begins at index 4 in term 1, before the put at index 3 is applied.
abbrev fourth : StartRet
fourth = record { cmd_index = pos 4; cur_term = pos 1; is_leader = true }

waiting : KvServer
waiting = server_or_start (begin_request get_a fourth after_two)

waiting_begins : begin_request get_a fourth after_two ≡ some waiting
unfolding waiting
waiting_begins = refl

waiting_three : KvServer
waiting_three = server_or_start (apply_all third waiting)

waiting_three_runs : apply_all third waiting ≡ some waiting_three
unfolding waiting_three waiting get_a third after_two first_two message put_x append_y put_z
    apply_msg apply_operation get_operation get_cmd to_string digits digits_from scan atoi
    split_loop
waiting_three_runs = refl

third-AreElsewhere : All (IsElsewhere (pos 4)) third
unfolding third message
third-AreElsewhere = (inr three_ne_four, tt)
  where
    three_ne_four : pos 3 ≢ pos 4
    three_ne_four e = cc

get_again : Operation
get_again = record get_a { term = pos 1 }

get_parsed : get_operation (message get_a (pos 4)) ≡ some get_again
unfolding get_again message get_a get_operation get_cmd to_string digits digits_from scan atoi
    split_loop
get_parsed = refl

message_valid : (message get_a (pos 4)).command_valid ≡ true
unfolding message
message_valid = refl

message_here : (message get_a (pos 4)).command_index ≡ pos 4
unfolding message
message_here = refl

get_again_reads : (get_again.key ≡ b'a' ∷ []) × (get_again.op ≡ get_op)
unfolding get_again get_a
get_again_reads = (refl, refl)

a_begins :
    begin_request (get_operation_for (b'a' ∷ []) (pos 5) (pos 3)) fourth after_two ≡ some waiting
unfolding waiting get_a
a_begins = refl

get_reads_example :
    (m3 : KvServer) × (ctx : OpContext) × (apply_msg (message get_a (pos 4)) waiting_three
      ≡ some m3)
    × (find (pos 4) m3.request_map ≡ some ctx)
    × (get_reply ctx false ≡ (
        if not false && eqb_ℤ (pos 1) get_again.term
        then found (find_text (b'a' ∷ []) waiting_three.database)
        else wrong_leader))
get_reads_example =
    get_reads (b'a' ∷ []) (pos 5) (pos 3) fourth after_two waiting waiting_three third
      (message get_a (pos 4)) get_again false a_begins third-AreElsewhere waiting_three_runs
      message_valid message_here get_parsed (λ e. get_again_reads)
