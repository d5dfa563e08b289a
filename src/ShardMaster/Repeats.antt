-- ===== src/ShardMaster/Repeats.antt =====
-- Requests that `applyLoop` has seen before.
use projects_cpp.Prelude.{
  Ensures, Ensures-some, Ensures-if, ℕ, ◌≡◌, refl, ap, ◌∙◌, Option, none, some, true, false, List,
  arith, if◌then◌else◌,
}
use projects_cpp.Prelude.Int.{ℤ, ltb_ℤ, ◌<ℤ◌}
use projects_cpp.Prelude.Maps.{find, put, find-put_self}
use projects_cpp.Prelude.Text.{stoi}
use projects_cpp.ShardMaster.{Config}
use projects_cpp.ShardMaster.Balance.{Queues}
use projects_cpp.ShardMaster.Service.{Operation, OpContext, ShardMaster, do_join_leave_move}
use projects_cpp.ShardMaster.Apply.{
  is_change, is_new, check_term, set_configs, wake, apply_query, apply_change, apply_with,
  apply_operation, answer_at, recved,
}

-- The state that `doJoinLeaveMove` is given.
abbrev pub noted : Operation → ShardMaster → ShardMaster
noted o m = record m { client_seq_map = put o.client_id o.request_id m.client_seq_map }

-- `n` has the configurations `cs` and the requests of `m` with `o` as its client's last one.
pub record IsAfter (o : Operation) (m : ShardMaster) (cs : List Config) (n : ShardMaster)
    : Type 0 where
  pub configs : n.configs ≡ cs
  pub seq : n.client_seq_map ≡ put o.client_id o.request_id m.client_seq_map

module _ (q : Queues) (fuel : ℕ) (o : Operation) (index : ℤ) (m : ShardMaster)
    (change : is_change o ≡ true) where
  woken :
      (ctx : Option OpContext) (cs : List Config)
      → (n : ShardMaster) × (wake index ctx (some (record (noted o m) { configs = cs })) ≡ some n)
        × IsAfter o m cs n
  woken none cs = (record (noted o m) { configs = cs }, refl, record { configs = refl; seq = refl })
  woken (some ctx) cs = (
    record (noted o m) {
      configs = cs;
      request_map = put index (record ctx { is_recved = true }) m.request_map;
    },
    refl,
    record { configs = refl; seq = refl },
  )

  -- What the change makes, the round keeps.
  pub apply_operation-IsAfter :
      (cs : List Config)
      → apply_change q fuel o (find o.client_id m.client_seq_map) (noted o m)
        ≡ some (record (noted o m) { configs = cs })
      → (n : ShardMaster) × (apply_operation q fuel o index m ≡ some n) × IsAfter o m cs n
  unfolding apply_operation
  apply_operation-IsAfter cs e =
      let ctx = check_term o (find index m.request_map) in
      let (n, runs, after) = woken ctx cs in
      (
        n,
        ap
              (λ b.
                if b
                then wake index ctx
                    (apply_change q fuel o (find o.client_id m.client_seq_map) (noted o m))
                else apply_query o index ctx (noted o m))
              change
            ∙ ap (wake index ctx) e
            ∙ runs,
        after,
      )

  -- A request that is not newer than the last one of its client changes no configuration.
  pub old_request :
      (prev : ℤ)
      → find o.client_id m.client_seq_map ≡ some prev
      → ltb_ℤ prev o.request_id ≡ false
      → (n : ShardMaster) × (apply_operation q fuel o index m ≡ some n) × IsAfter o m m.configs n
  old_request prev seen old = apply_operation-IsAfter m.configs (
      ap (λ p. apply_change q fuel o p (noted o m)) seen
      ∙ ap
          (λ b.
            if b
            then set_configs (noted o m) (do_join_leave_move q fuel o m.configs)
            else some (noted o m))
          old)

  -- A newer one is executed.
  pub new_request :
      (prev : ℤ) (cs : List Config)
      → find o.client_id m.client_seq_map ≡ some prev
      → ltb_ℤ prev o.request_id ≡ true
      → do_join_leave_move q fuel o m.configs ≡ some cs
      → (n : ShardMaster) × (apply_operation q fuel o index m ≡ some n) × IsAfter o m cs n
  new_request prev cs seen new runs = apply_operation-IsAfter cs (
      ap (λ p. apply_change q fuel o p (noted o m)) seen
      ∙ ap
          (λ b.
            if b
            then set_configs (noted o m) (do_join_leave_move q fuel o m.configs)
            else some (noted o m))
          new
      ∙ ap (set_configs (noted o m)) runs)

not_before_itself : (z : ℤ) → ltb_ℤ z z ≡ false
not_before_itself z = ground arith

-- Whatever a round does, it notes the request.
module _ (q : Queues) (fuel : ℕ) (seq : List (ℤ × ℤ)) where
  abbrev HasSeq : ShardMaster → Type 0
  HasSeq n = n.client_seq_map ≡ seq

  recved-HasSeq :
      (m : ShardMaster) (index : ℤ) (ctx : Option OpContext)
      → HasSeq m
      → Ensures HasSeq (recved m index ctx)
  recved-HasSeq m index none h = tt
  recved-HasSeq m index (some ctx) h = h

  wake-HasSeq :
      (index : ℤ) (ctx : Option OpContext) (o : Option ShardMaster)
      → Ensures HasSeq o
      → Ensures HasSeq (wake index ctx o)
  wake-HasSeq index none o h = h
  wake-HasSeq index (some ctx) none h = tt
  wake-HasSeq index (some ctx) (some m) h = h

  set_configs-HasSeq :
      (m : ShardMaster) (o : Option (List Config)) → HasSeq m → Ensures HasSeq (set_configs m o)
  set_configs-HasSeq m none h = tt
  set_configs-HasSeq m (some cs) h = h

  apply_query-HasSeq :
      (o : Operation) (index : ℤ) (ctx : Option OpContext) (m : ShardMaster)
      → HasSeq m
      → Ensures HasSeq (apply_query o index ctx m)
  apply_query-HasSeq o index none m h = h
  apply_query-HasSeq o index (some ctx) m h =
      recved-HasSeq m index (answer_at ctx m.configs (stoi o.args)) h

  apply_with-HasSeq :
      (o : Operation) (index : ℤ) (ctx : Option OpContext) (prev : Option ℤ) (m : ShardMaster)
      → HasSeq m
      → Ensures HasSeq (apply_with q fuel o index ctx prev m)
  apply_with-HasSeq o index ctx prev m h =
      Ensures-if HasSeq (is_change o) _ _
        (wake-HasSeq index ctx (apply_change q fuel o prev m) (
          Ensures-if HasSeq (is_new prev o.request_id) _ _
            (set_configs-HasSeq m (do_join_leave_move q fuel o m.configs) h) h))
        (apply_query-HasSeq o index ctx m h)

noted-seq :
    (q : Queues) (fuel : ℕ) (o : Operation) (index : ℤ) (m n : ShardMaster)
    → apply_operation q fuel o index m ≡ some n
    → n.client_seq_map ≡ put o.client_id o.request_id m.client_seq_map
unfolding apply_operation
noted-seq q fuel o index m n e =
    Ensures-some (λ k. k.client_seq_map ≡ put o.client_id o.request_id m.client_seq_map)
      (apply_with q fuel o index (check_term o (find index m.request_map))
        (find o.client_id m.client_seq_map) (noted o m))
      (apply_with-HasSeq q fuel (put o.client_id o.request_id m.client_seq_map) o index
        (check_term o (find index m.request_map)) (find o.client_id m.client_seq_map) (noted o m)
        refl)
      e

-- A join, leave or move that is applied without a fault and a second time right after, at whatever
-- index, is applied without a fault then too and leaves the configurations as they are.
pub repeat_ignored :
    (q : Queues) (fuel : ℕ) (o : Operation) (index index2 : ℤ) (m n : ShardMaster)
    → is_change o ≡ true
    → apply_operation q fuel o index m ≡ some n
    → (k : ShardMaster) × (apply_operation q fuel o index2 n ≡ some k) × (k.configs ≡ n.configs)
repeat_ignored q fuel o index index2 m n change applied =
    let (k, runs, after) =
      old_request q fuel o index2 n change o.request_id
        (ap (find o.client_id) (noted-seq q fuel o index m n applied)
          ∙ find-put_self o.client_id o.request_id m.client_seq_map)
        (not_before_itself o.request_id) in
    (k, runs, after.configs)

-- Where a join, leave or move is the last request of its client, and executing it on the
-- configurations gives others without a fault, an older one of that client changes no
-- configuration, and the last one after it is executed once more.
pub old_request_repeats :
    (q : Queues) (fuel : ℕ) (o old : Operation) (index index2 : ℤ) (m : ShardMaster)
    (cs : List Config)
    → is_change o ≡ true
    → is_change old ≡ true
    → old.client_id ≡ o.client_id
    → old.request_id <ℤ o.request_id
    → find o.client_id m.client_seq_map ≡ some o.request_id
    → do_join_leave_move q fuel o m.configs ≡ some cs
    → (n : ShardMaster) × (k : ShardMaster) × (apply_operation q fuel old index m ≡ some n)
      × (n.configs ≡ m.configs)
      × (apply_operation q fuel o index2 n ≡ some k)
      × (k.configs ≡ cs)
old_request_repeats q fuel o old index index2 m cs change change2 client older seen runs =
    let (n, first, after) =
      old_request q fuel old index m change2 o.request_id
        (ap (λ c. find c m.client_seq_map) client ∙ seen)
        (not_newer old.request_id o.request_id older) in
    let (k, second, after2) =
      new_request q fuel o index2 n change old.request_id cs
        (ap (find o.client_id) after.seq
          ∙ ap (λ c. find o.client_id (put c old.request_id m.client_seq_map)) client
          ∙ find-put_self o.client_id old.request_id m.client_seq_map)
        (newer old.request_id o.request_id older)
        (ap (do_join_leave_move q fuel o) after.configs ∙ runs) in
    (n, k, first, after.configs, second, after2.configs)
  where
    not_newer : (a b : ℤ) → a <ℤ b → ltb_ℤ b a ≡ false
    not_newer a b h = ground arith

    newer : (a b : ℤ) → a <ℤ b → ltb_ℤ a b ≡ true
    newer a b h = ground arith
