-- ===== src/KvServer/Reply.antt =====
-- What a client's `get` is told.
use projects_cpp.Prelude.{
  none-ne, ◌≡◌, refl, sym, ap, ◌∙◌, inl, inr, Option, none, some, Bool, true, false, ◌&&◌, not,
  List, [], All, if◌then◌else◌, Bool-cases,
}
use projects_cpp.Prelude.Int.{ℤ, eqb_ℤ, eqb_ℤ-refl, eqb_ℤ→eq}
use projects_cpp.Prelude.Maps.{find, put, find-put_self}
use projects_cpp.Prelude.Text.{Text}
use projects_cpp.Prelude.TextMaps.{find_text}
use projects_cpp.Raft.State.{StartRet}
use projects_cpp.KvServer.{
  Operation, ApplyMsg, OpContext, op_context, GetReply, KvServer, get_operation, get_op,
}
use projects_cpp.KvServer.Apply.{
  check_term, recved, new_context, apply_operation, apply_parsed, apply_msg, get_operation_for,
  is_write, is_new, ignored, begin_request, wrong_leader, get_reply, answered,
}
use projects_cpp.KvServer.Agree.{apply_all}
use projects_cpp.KvServer.Contexts.{IsElsewhere, apply_msg-command, apply_all-Keeps}

-- The reply for what the database has under a key.
abbrev pub found : Option Text → GetReply
found none = record { value = []; is_wrong_leader = false; is_key_exist = false }
found (some v) = record { value = v; is_wrong_leader = false; is_key_exist = true }

-- The context behind the round that wakes it.
abbrev woken : Operation → Option ℤ → List (Text × Text) → OpContext → OpContext
woken p prev db ctx = record (new_context p prev db (check_term p ctx)) { is_recved = true }

answered_reply :
    (v : Option Text) (p : Operation)
    → get_reply (record (answered v (op_context p)) { is_recved = true }) false ≡ found v
answered_reply none p = refl
answered_reply (some v) p = refl

-- A context that was told of another leader stays so.
wrong-answered :
    (v : Option Text) (ctx : OpContext) → (answered v ctx).is_wrong_leader ≡ ctx.is_wrong_leader
wrong-answered none ctx = refl
wrong-answered (some v) ctx = refl

wrong-new_context :
    (p : Operation) (prev : Option ℤ) (db : List (Text × Text)) (ctx : OpContext)
    → (new_context p prev db ctx).is_wrong_leader ≡ ctx.is_wrong_leader
wrong-new_context p prev db ctx = by_tests (is_write p) (is_new prev p.request_id)
  where
    by_tests :
        (b c : Bool)
        → (if b
            then (if c then ctx else ignored ctx)
            else answered (find_text p.key db) ctx).is_wrong_leader
          ≡ ctx.is_wrong_leader
    by_tests true true = refl
    by_tests true false = refl
    by_tests false c = wrong-answered (find_text p.key db) ctx

wrong_reply :
    (ctx : OpContext) (timed_out : Bool)
    → ctx.is_wrong_leader ≡ true
    → get_reply ctx timed_out ≡ wrong_leader
wrong_reply ctx timed_out wrong = rw wrong (by_test (ctx.is_recved && not timed_out))
  where
    by_test : (b : Bool) → (if b then wrong_leader else wrong_leader) ≡ wrong_leader
    by_test true = refl
    by_test false = refl

late_reply : (ctx : OpContext) → get_reply ctx true ≡ wrong_leader
late_reply ctx = by_test ctx.is_recved
  where
    by_test : (b : Bool) → get_reply (record ctx { is_recved = b }) true ≡ wrong_leader
    by_test true = refl
    by_test false = refl

module _ (key : Text) (o p : Operation) (prev : Option ℤ) (db : List (Text × Text)) where
  get_woken :
      p.term ≡ o.term
      → p.key ≡ key
      → p.op ≡ get_op
      → get_reply (woken p prev db (op_context o)) false ≡ found (find_text key db)
  get_woken same_term same_key reads =
      rw (same_term, eqb_ℤ-refl o.term, reads, same_key) (answered_reply (find_text key db) o)

  other_woken :
      (timed_out : Bool)
      → eqb_ℤ o.term p.term ≡ false
      → get_reply (woken p prev db (op_context o)) timed_out ≡ wrong_leader
  other_woken timed_out other = wrong_reply (woken p prev db (op_context o)) timed_out (
      wrong-new_context p prev db (check_term p (op_context o))
      ∙ ap
          (λ b.
            (if b
              then op_context o
              else record (op_context o) { is_wrong_leader = true }).is_wrong_leader)
          other)

  woken_reply :
      (timed_out : Bool)
      → (p.term ≡ o.term → (p.key ≡ key) × (p.op ≡ get_op))
      → get_reply (woken p prev db (op_context o)) timed_out
        ≡ (if not timed_out && eqb_ℤ o.term p.term then found (find_text key db) else wrong_leader)
  woken_reply true matches = late_reply (woken p prev db (op_context o))
  woken_reply false matches = elim (Bool-cases (eqb_ℤ o.term p.term)) [
    | inl e ↦
        let same = sym (eqb_ℤ→eq o.term p.term e) in
        get_woken same (matches same).0 (matches same).1
        ∙ ap (λ b. if b then found (find_text key db) else wrong_leader) (sym e)
    | inr e ↦
        other_woken false e ∙ ap (λ b. if b then found (find_text key db) else wrong_leader) (sym e)
  ]

-- The round of the message at the index of a waiting request.
woken_by :
    (msg : ApplyMsg) (p : Operation) (m : KvServer) (ctx : OpContext)
    → msg.command_valid ≡ true
    → get_operation msg ≡ some p
    → find msg.command_index m.request_map ≡ some ctx
    → (n : KvServer) × (apply_msg msg m ≡ some n)
      × (find msg.command_index n.request_map
          ≡ some (woken p (find p.client_id m.client_seq_map) m.database ctx))
unfolding apply_operation
woken_by msg p m ctx valid parsed waits = (
  apply_operation p msg.command_index m,
  apply_msg-command msg m valid ∙ ap (λ o. apply_parsed o msg.command_index m) parsed,
  ap
        (λ c. find msg.command_index (
          recved msg.command_index p (new_context p (find p.client_id m.client_seq_map) m.database)
            c m.request_map))
        waits
      ∙ find-put_self msg.command_index (woken p (find p.client_id m.client_seq_map) m.database ctx)
          m.request_map,
)

begun :
    (o : Operation) (ret : StartRet) (m n : KvServer)
    → begin_request o ret m ≡ some n
    → find ret.cmd_index n.request_map ≡ some (op_context (record o { term = ret.cur_term }))
begun o ret m n e = by_test ret.is_leader e
  where
    waiting : KvServer
    waiting = record m {
      request_map = put ret.cmd_index (op_context (record o { term = ret.cur_term })) m.request_map;
    }

    by_test :
        (b : Bool)
        → (if b then some waiting else none) ≡ some n
        → find ret.cmd_index n.request_map ≡ some (op_context (record o { term = ret.cur_term }))
    by_test true e =
        ap (λ k. find ret.cmd_index k.request_map) (sym (the_some e))
        ∙ find-put_self ret.cmd_index (op_context (record o { term = ret.cur_term })) m.request_map
      where
        the_some : some waiting ≡ some n → waiting ≡ n
        the_some e = cc
    by_test false e = absurd (none-ne e)

-- A get of a key begins at a leader, messages for other requests and snapshots are applied without
-- a fault, and then comes the message at the index of the get, which holds the get if it has its
-- term. The round returns, and the get is answered with what the database has under the key then;
-- but where two seconds have gone by, or the message has another term, the reply is that the leader
-- is wrong.
pub get_reads :
    (key : Text) (client_id request_id : ℤ) (ret : StartRet) (m m1 m2 : KvServer)
    (before : List ApplyMsg) (msg : ApplyMsg) (p : Operation) (timed_out : Bool)
    → begin_request (get_operation_for key client_id request_id) ret m ≡ some m1
    → All (IsElsewhere ret.cmd_index) before
    → apply_all before m1 ≡ some m2
    → msg.command_valid ≡ true
    → msg.command_index ≡ ret.cmd_index
    → get_operation msg ≡ some p
    → (p.term ≡ ret.cur_term → (p.key ≡ key) × (p.op ≡ get_op))
    → (m3 : KvServer) × (ctx : OpContext) × (apply_msg msg m2 ≡ some m3)
      × (find ret.cmd_index m3.request_map ≡ some ctx)
      × (get_reply ctx timed_out ≡ (
          if not timed_out && eqb_ℤ ret.cur_term p.term
          then found (find_text key m2.database)
          else wrong_leader))
get_reads key client_id request_id ret m m1 m2 before msg p timed_out begins elsewhere runs valid
      here parsed matches =
    let o : Operation = record (get_operation_for key client_id request_id) {
      term = ret.cur_term;
    } in
    let waits =
      apply_all-Keeps ret.cmd_index before m1 m2 elsewhere runs
      ∙ begun (get_operation_for key client_id request_id) ret m m1 begins in
    let (m3, round, wakes) =
      woken_by msg p m2 (op_context o) valid parsed
        (ap (λ i. find i m2.request_map) here ∙ waits) in
    let prev = find p.client_id m2.client_seq_map in
    (
      m3,
      woken p prev m2.database (op_context o),
      round,
      ap (λ i. find i m3.request_map) (sym here) ∙ wakes,
      woken_reply key o p prev m2.database timed_out matches,
    )
