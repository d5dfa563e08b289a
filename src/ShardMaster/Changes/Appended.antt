-- ===== src/ShardMaster/Changes/Appended.antt =====
-- What a join and a leave append to the configurations.
use projects_cpp.Prelude.{
  ℕ, suc, ◌≡◌, ◌<◌, refl, ap, ◌∙◌, ◌⊎◌, inl, inr, Option, none, some, true, false, List, [], ◌∷◌,
  ◌++◌, length, if◌then◌else◌, arith,
}
use projects_cpp.Prelude.Int.{ℤ, succ_ℤ}
use projects_cpp.Prelude.Maps.{find}
use projects_cpp.Prelude.Text.{text_eq, Text}
use projects_cpp.ShardMaster.{Config}
use projects_cpp.ShardMaster.Codec.{get_map_from_servers_shard_info, get_vector_of_int_from_string}
use projects_cpp.ShardMaster.Balance.{Queues}
use projects_cpp.ShardMaster.Balance.Fair.{IsSound, balance_work_load-IsBalanced}
use projects_cpp.ShardMaster.Service.{
  Operation, join_text, leave_text, last_config, put_all, erase_all, contains, clear_shards,
  balance_and_push, do_join_leave_move,
}
use projects_cpp.ShardMaster.Groups.{
  or_else, find-put_all, find-erase_all, put_all-Distinct, erase_all-Distinct, IsPlaced-put_all,
  IsPlaced-clear_shards,
}
use projects_cpp.ShardMaster.Changes.{
  IsWell, IsBalanced-IsWell, get_map-Distinct, put_all-some, not_empty, IsBalanced-IsSpread,
  Appends,
}

leave_not_join : (s : Text) → text_eq s leave_text ≡ true → text_eq s join_text ≡ false
leave_not_join [] e = refl
leave_not_join (c ∷ s) e = ground arith

module _ (q : Queues) (fuel : ℕ) (enough : 55 < fuel) (cs : List Config) (c : Config)
    (last : last_config cs ≡ some c) where
  -- A changed copy of the last configuration is balanced and appended.
  balance_and_push-Appends :
      (d : Config) (view : ℤ → Option (List Text))
      → IsSound d
      → d.config_num ≡ succ_ℤ c.config_num
      → ((g : ℤ) → find g d.groups ≡ view g)
      → (ds : List Config) × (balance_and_push q fuel cs d ≡ some ds) × Appends cs c view ds
  balance_and_push-Appends d view sound num groups =
      let (e, runs, b) = balance_work_load-IsBalanced q d sound fuel enough in
      (
        cs ++ e ∷ [],
        rw (not_empty d.groups sound.some_group, runs) refl,
        record {
          new_config = e;
          appended = refl;
          num = b.same_num ∙ num;
          groups = λ g. ap (find g) b.same_groups ∙ groups g;
          spread = IsBalanced-IsSpread b;
          well = IsBalanced-IsWell sound.distinct b;
        },
      )

  -- If the last configuration has distinct groups and ten shards that each have one of the groups
  -- or none, a join of at least one group returns, on more than 55 rounds of fuel, and appends the
  -- next configuration: its groups are the new ones with their servers and the others with theirs,
  -- and its shards are spread over them as evenly as they can be.
  pub join-Appends :
      (o : Operation) (new : List (ℤ × List Text))
      → IsWell c
      → text_eq o.op join_text ≡ true
      → get_map_from_servers_shard_info o.args ≡ some new
      → 0 < length new
      → (ds : List Config) × (do_join_leave_move q fuel o cs ≡ some ds)
        × Appends cs c (λ g. or_else (find g new) (find g c.groups)) ds
  unfolding do_join_leave_move
  join-Appends o new well join parsed many =
      let once = get_map-Distinct o.args new parsed in
      let next : Config = record c {
        config_num = succ_ℤ c.config_num;
        groups = put_all new c.groups;
      } in
      let (ds, runs, a) =
        balance_and_push-Appends next (λ g. or_else (find g new) (find g c.groups))
          (record {
            distinct = put_all-Distinct new c.groups well.distinct;
            some_group = put_all-some new c.groups many;
            size = well.size;
            placed = IsPlaced-put_all new c.groups c.shards once well.distinct well.placed;
          })
          refl (λ g. find-put_all g new c.groups once) in
      (ds, rw (last, join, parsed) runs, a)

  -- If the last configuration has distinct groups and ten shards that each have one of the groups
  -- or none, a leave returns, on more than 55 rounds of fuel: where groups are left, it appends the
  -- next configuration, with the groups that did not leave and the shards spread over them as
  -- evenly as they can be; where none is left, it changes nothing.
  pub leave-Appends :
      (o : Operation) (gids : List ℤ)
      → IsWell c
      → text_eq o.op leave_text ≡ true
      → get_vector_of_int_from_string o.args ≡ some gids
      → (ds : List Config) × (do_join_leave_move q fuel o cs ≡ some ds)
        × (((erase_all gids c.groups ≡ []) × (ds ≡ cs))
            ⊎ Appends cs c (λ g. if contains gids g then none else find g c.groups) ds)
  unfolding do_join_leave_move
  leave-Appends o gids well leave parsed = elim (empty_or_not (erase_all gids c.groups)) [
    | inl none_left ↦ (
      cs,
      rw (last, leave_not_join o.op leave, leave, parsed, none_left) refl,
      inl (none_left, refl),
    )
    | inr some_left ↦
        let (ds, runs, a) =
          balance_and_push-Appends
            (record c {
              config_num = succ_ℤ c.config_num;
              groups = erase_all gids c.groups;
              shards = clear_shards gids c.shards;
            })
            (λ g. if contains gids g then none else find g c.groups)
            (record {
              distinct = erase_all-Distinct gids c.groups well.distinct;
              some_group = some_left;
              size = length-clear_shards gids c.shards ∙ well.size;
              placed = IsPlaced-clear_shards gids c.groups c.shards well.distinct well.placed;
            })
            refl (λ g. find-erase_all g gids c.groups) in
        (ds, rw (last, leave_not_join o.op leave, leave, parsed) runs, inr a)
  ]
    where
      empty_or_not : (m : List (ℤ × List Text)) → (m ≡ []) ⊎ (0 < length m)
      empty_or_not [] = inl refl
      empty_or_not (p ∷ m) = inr (omega arith)

      length-clear_shards :
          (gids shards : List ℤ) → length (clear_shards gids shards) ≡ length shards
      length-clear_shards gids [] = refl
      length-clear_shards gids (g ∷ shards) = ap suc (length-clear_shards gids shards)
