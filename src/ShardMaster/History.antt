-- ===== src/ShardMaster/History.antt =====
-- The list of configurations over a history of messages.
pub mod Numbers
use projects_cpp.Prelude.{
  Ensures, Ensures-some, Ensures-if, ℕ, zero, suc, ◌+◌, ◌≡◌, ◌≢◌, ◌≤◌, ◌<◌, ◌⊎◌, inl, inr, refl,
  sym, ap, subst, ◌∙◌, Option, none, some, Bool, true, false, List, [], ◌∷◌, ◌++◌, append-nil,
  append_assoc, length, get_elem?, arith, Bool-cases, if◌then◌else◌, eq_or_ne,
}
use projects_cpp.Prelude.Int.{ℤ, pos, succ_ℤ}
use projects_cpp.Prelude.Maps.{find, put}
use projects_cpp.Prelude.Text.{text_eq, Text, stoi}
use projects_cpp.ShardMaster.{Config, empty_config}
use projects_cpp.ShardMaster.Codec.{
  get_map_from_servers_shard_info, get_vector_of_int_from_string, get_shard_and_group_id,
}
use projects_cpp.ShardMaster.Balance.{
  Queues, first_load, balanced_load, with_load, divides, balance_work_load,
}
use projects_cpp.ShardMaster.Service.{
  Operation, ApplyMsg, OpContext, ShardMaster, join_text, leave_text, move_text, get_operation,
  last_config, is_empty, push_config, balance_and_push, do_join, put_all, erase_all, clear_shards,
  do_leave, set_shard, with_shards, do_move, do_operation, on_last, do_join_leave_move,
}
use projects_cpp.ShardMaster.Apply.{
  is_change, is_new, check_term, set_configs, answer_at, recved, wake, apply_query, apply_change,
  apply_with, apply_operation, apply_parsed, apply_msg,
}

-- `ds` is `cs`, or `cs` with one more configuration, of the next number.
abbrev pub IsNext : List Config → List Config → Type 0
IsNext cs ds =
    (ds ≡ cs)
    ⊎ ((c : Config) × (d : Config) × (last_config cs ≡ some c)
        × (ds ≡ cs ++ d ∷ [])
        × (d.config_num ≡ succ_ℤ c.config_num))

balance-num :
    (q : Queues) (fuel : ℕ) (c : Config)
    → Ensures (λ d. d.config_num ≡ c.config_num) (balance_work_load q fuel c)
unfolding balance_work_load
balance-num q fuel c = by_load (balanced_load q fuel (divides c) (first_load q c))
  where
    by_load :
        (o : Option (List (ℤ × List ℕ)))
        → Ensures (λ d. d.config_num ≡ c.config_num) (with_load c o)
    by_load none = tt
    by_load (some m) = refl

module _ (q : Queues) (fuel : ℕ) (cs : List Config) (c : Config)
    (last : last_config cs ≡ some c) where
  abbrev NextNum : Config → Type 0
  NextNum d = d.config_num ≡ succ_ℤ c.config_num

  pushed-IsNext : (o : Option Config) → Ensures NextNum o → Ensures (IsNext cs) (push_config cs o)
  pushed-IsNext none h = tt
  pushed-IsNext (some d) h = inr (c, d, last, refl, h)

  balanced-IsNext : (d : Config) → NextNum d → Ensures (IsNext cs) (balance_and_push q fuel cs d)
  balanced-IsNext d h = Ensures-if (IsNext cs) (is_empty d.groups) _ _ (inl refl) (
      pushed-IsNext (balance_work_load q fuel d)
        (also (balance_work_load q fuel d) (balance-num q fuel d)))
    where
      also : (o : Option Config) → Ensures (λ e. e.config_num ≡ d.config_num) o → Ensures NextNum o
      also none k = tt
      also (some e) k = k ∙ h

  abbrev next : Config
  next = record c { config_num = succ_ℤ c.config_num }

  do_join-IsNext :
      (o : Option (List (ℤ × List Text))) → Ensures (IsNext cs) (do_join q fuel cs next o)
  do_join-IsNext none = tt
  do_join-IsNext (some new) =
      balanced-IsNext (record next { groups = put_all new next.groups }) refl

  do_leave-IsNext : (o : Option (List ℤ)) → Ensures (IsNext cs) (do_leave q fuel cs next o)
  do_leave-IsNext none = tt
  do_leave-IsNext (some gids) =
      balanced-IsNext
        (record next {
          groups = erase_all gids next.groups;
          shards = clear_shards gids next.shards;
        })
        refl

  with_shards-IsNext : (o : Option (List ℤ)) → Ensures (IsNext cs) (with_shards cs next o)
  with_shards-IsNext none = tt
  with_shards-IsNext (some shards) = inr (c, record next { shards = shards }, last, refl, refl)

  do_move-IsNext : (o : Option (List ℤ)) → Ensures (IsNext cs) (do_move cs next o)
  do_move-IsNext none = tt
  do_move-IsNext (some []) = tt
  do_move-IsNext (some (shard ∷ [])) = tt
  do_move-IsNext (some (shard ∷ gid ∷ rest)) = with_shards-IsNext (set_shard shard gid next.shards)

  do_operation-IsNext : (o : Operation) → Ensures (IsNext cs) (do_operation q fuel o cs next)
  do_operation-IsNext o =
      Ensures-if (IsNext cs) (text_eq o.op join_text) _ _
        (do_join-IsNext (get_map_from_servers_shard_info o.args))
        (Ensures-if (IsNext cs) (text_eq o.op leave_text) _ _
          (do_leave-IsNext (get_vector_of_int_from_string o.args))
          (Ensures-if (IsNext cs) (text_eq o.op move_text) _ _
            (do_move-IsNext (get_shard_and_group_id o.args)) (inl refl)))

module _ (q : Queues) (fuel : ℕ) where
  do_join_leave_move-IsNext :
      (o : Operation) (cs : List Config) → Ensures (IsNext cs) (do_join_leave_move q fuel o cs)
  unfolding do_join_leave_move
  do_join_leave_move-IsNext o cs = by_last (last_config cs) refl
    where
      by_last :
          (l : Option Config) → last_config cs ≡ l → Ensures (IsNext cs) (on_last q fuel o cs l)
      by_last none e = tt
      by_last (some c) e = do_operation-IsNext q fuel cs c e o

  set_configs-IsNext :
      (m : ShardMaster) (o : Option (List Config))
      → Ensures (IsNext m.configs) o
      → Ensures (λ n. IsNext m.configs n.configs) (set_configs m o)
  set_configs-IsNext m none h = tt
  set_configs-IsNext m (some ds) h = h

  recved-IsNext :
      (cs : List Config) (m : ShardMaster) (index : ℤ) (ctx : Option OpContext)
      → IsNext cs m.configs
      → Ensures (λ n. IsNext cs n.configs) (recved m index ctx)
  recved-IsNext cs m index none h = tt
  recved-IsNext cs m index (some ctx) h = h

  wake-IsNext :
      (cs : List Config) (index : ℤ) (ctx : Option OpContext) (o : Option ShardMaster)
      → Ensures (λ n. IsNext cs n.configs) o
      → Ensures (λ n. IsNext cs n.configs) (wake index ctx o)
  wake-IsNext cs index none o h = h
  wake-IsNext cs index (some ctx) none h = tt
  wake-IsNext cs index (some ctx) (some m) h = recved-IsNext cs m index (some ctx) h

  apply_query-IsNext :
      (o : Operation) (index : ℤ) (ctx : Option OpContext) (m : ShardMaster)
      → Ensures (λ n. IsNext m.configs n.configs) (apply_query o index ctx m)
  apply_query-IsNext o index none m = inl refl
  apply_query-IsNext o index (some ctx) m =
      recved-IsNext m.configs m index (answer_at ctx m.configs (stoi o.args)) (inl refl)

  apply_with-IsNext :
      (o : Operation) (index : ℤ) (ctx : Option OpContext) (prev : Option ℤ) (m : ShardMaster)
      → Ensures (λ n. IsNext m.configs n.configs) (apply_with q fuel o index ctx prev m)
  apply_with-IsNext o index ctx prev m =
      Ensures-if (λ n. IsNext m.configs n.configs) (is_change o) _ _
        (wake-IsNext m.configs index ctx (apply_change q fuel o prev m) (
          Ensures-if (λ n. IsNext m.configs n.configs) (is_new prev o.request_id) _ _
            (set_configs-IsNext m (do_join_leave_move q fuel o m.configs)
              (do_join_leave_move-IsNext o m.configs))
            (inl refl)))
        (apply_query-IsNext o index ctx m)

  pub apply_msg-IsNext :
      (msg : ApplyMsg) (m : ShardMaster)
      → Ensures (λ n. IsNext m.configs n.configs) (apply_msg q fuel msg m)
  unfolding apply_msg apply_operation
  apply_msg-IsNext msg m = by_operation (get_operation msg)
    where
      by_operation :
          (o : Option Operation)
          → Ensures (λ n. IsNext m.configs n.configs) (apply_parsed q fuel o msg.command_index m)
      by_operation none = tt
      by_operation (some o) =
          apply_with-IsNext o msg.command_index
            (check_term o (find msg.command_index m.request_map))
            (find o.client_id m.client_seq_map)
            (record m { client_seq_map = put o.client_id o.request_id m.client_seq_map })
