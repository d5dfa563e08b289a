-- ===== src/ShardMaster/Changes.antt =====
-- `doJoinLeaveMove` against the groups as a function: what a join and a leave append.
pub mod Appended
use projects_cpp.Prelude.{
  Ensures, Ensures-some, ℕ, zero, suc, ◌+◌, ◌%◌, ◌≡◌, ◌≢◌, ◌≤◌, ◌<◌, refl, sym, ap, subst, ◌∙◌, ◌⊎◌,
  ◌↔◌, inl, inr, Option, none, some, Bool, true, false, List, [], ◌∷◌, ◌++◌, All, length, get_elem?,
  Bool-cases, if◌then◌else◌, arith,
}
use projects_cpp.Prelude.Int.{ℤ, pos, succ_ℤ}
use projects_cpp.Prelude.Maps.{keys, find, put, DistinctKeys}
use projects_cpp.Prelude.Text.{text_eq, Text, stoi}
use projects_cpp.Raft.Codec.{split_loop}
use projects_cpp.ShardMaster.{Config, n_shards}
use projects_cpp.ShardMaster.Codec.{
  put_group, with_servers, read_groups, get_map_from_servers_shard_info,
  get_vector_of_int_from_string,
}
use projects_cpp.ShardMaster.Balance.{Queues, balance_work_load}
use projects_cpp.ShardMaster.Balance.Assigned.{shards_of}
use projects_cpp.ShardMaster.Balance.Loads.{HasKey, IsPlaced}
use projects_cpp.ShardMaster.Balance.Fair.{IsSound, IsBalanced, balance_work_load-IsBalanced}
use projects_cpp.ShardMaster.Service.{
  Operation, join_text, leave_text, last_config, put_all, erase_all, contains, clear_shards,
  is_empty, push_config, balance_and_push, do_join, do_leave, do_operation, on_last,
  do_join_leave_move,
}
use projects_cpp.ShardMaster.Groups.{
  or_else, find-put_all, find-erase_all, put-Distinct, put_all-Distinct, erase_all-Distinct,
  IsPlaced-put_all, IsPlaced-clear_shards,
}

-- A configuration that only joins, leaves and moves to its own groups make: groups are distinct,
-- and each of the ten shards has one of them or none.
pub record IsWell (c : Config) : Type 0 where
  pub distinct : DistinctKeys (keys c.groups)
  pub size : length c.shards ≡ n_shards
  pub placed : All (IsPlaced c.groups) c.shards

All-of_get_elem? {ℓ} :
    {A : Type ℓ} (P : A → Type 0) (xs : List A)
    → ((i : ℕ) → i < length xs → (a : A) × (get_elem? xs i ≡ some a) × P a)
    → All P xs
All-of_get_elem? P [] h = tt
All-of_get_elem? {A = A} P (x ∷ xs) h =
    let (a, e, p) = h 0 (omega arith) in
    (subst P (same (sym e)) p, All-of_get_elem? P xs (λ i lt. h (suc i) (omega (arith, lt))))
  where
    same : {a b : A} → some a ≡ some b → a ≡ b
    same q = cc

pub IsBalanced-IsWell : {c d : Config} → DistinctKeys (keys c.groups) → IsBalanced c d → IsWell d
IsBalanced-IsWell {c = c} {d = d} distinct h = record {
  distinct = subst (λ gs. DistinctKeys (keys gs)) (sym h.same_groups) distinct;
  size = h.size;
  placed =
      subst (λ gs. All (IsPlaced gs) d.shards) (sym h.same_groups)
        (All-of_get_elem? (IsPlaced c.groups) d.shards
          (λ i lt. let (g, e, k) = h.placed i (omega (arith, lt, h.size)) in (g, e, inr k)));
}

-- The map that is read has each group once.
read_groups-Distinct :
    (tmp : Text) (strs : List Text) (o : Option (List (ℤ × List Text)))
    → Ensures (λ m. DistinctKeys (keys m)) o
    → Ensures (λ m. DistinctKeys (keys m)) (read_groups tmp strs o)
unfolding read_groups
read_groups-Distinct tmp strs none h = tt
read_groups-Distinct tmp [] (some m) h = h
read_groups-Distinct tmp (s ∷ strs) (some m) h =
    read_groups-Distinct (split_loop b':' [] tmp s).1 strs
      (put_group (split_loop b':' [] tmp s).0 m) (put_once (split_loop b':' [] tmp s).0)
  where
    with_once :
        (o : Option ℤ) (servers : List Text)
        → Ensures (λ n. DistinctKeys (keys n)) (with_servers o servers m)
    with_once none servers = tt
    with_once (some gid) servers = put-Distinct gid servers m h

    put_once : (info : List Text) → Ensures (λ n. DistinctKeys (keys n)) (put_group info m)
    put_once [] = tt
    put_once (number ∷ servers) = with_once (stoi number) servers

pub get_map-Distinct :
    (text : Text) (new : List (ℤ × List Text))
    → get_map_from_servers_shard_info text ≡ some new
    → DistinctKeys (keys new)
unfolding get_map_from_servers_shard_info
get_map-Distinct text new e =
    Ensures-some (λ m. DistinctKeys (keys m))
      (read_groups [] (split_loop b'|' [] [] text).0 (some []))
      (read_groups-Distinct [] (split_loop b'|' [] [] text).0 (some []) tt) e

length-put :
    (k : ℤ) (v : List Text) (m : List (ℤ × List Text))
    → (0 < length (put k v m)) × (length m ≤ length (put k v m))
length-put k v [] = omega arith
length-put k v ((j, w) ∷ m) = ground (arith, length-put k v m)

length-put_all : (new m : List (ℤ × List Text)) → length m ≤ length (put_all new m)
length-put_all [] m = omega arith
length-put_all ((k, v) ∷ new) m =
    omega (arith, (length-put k v m).1, length-put_all new (put k v m))

pub put_all-some : (new m : List (ℤ × List Text)) → 0 < length new → 0 < length (put_all new m)
put_all-some [] m h = elim h [ ]
put_all-some ((k, v) ∷ new) m h =
    omega (arith, (length-put k v m).0, length-put_all new (put k v m))

pub not_empty : (m : List (ℤ × List Text)) → 0 < length m → is_empty m ≡ false
not_empty [] h = elim h [ ]
not_empty (p ∷ m) h = refl

-- Every shard has one of the groups, whose numbers of shards are as close as they can be.
pub record IsSpread (d : Config) : Type 0 where
  pub placed :
      (i : ℕ) → i < n_shards → (g : ℤ) × (get_elem? d.shards i ≡ some g) × HasKey g d.groups
  pub close :
      (g h : ℤ)
      → HasKey g d.groups
      → HasKey h d.groups
      → shards_of g d.shards ≤ suc (shards_of h d.shards)
  pub equal :
      n_shards % length d.groups ≡ 0
      → (g h : ℤ) → HasKey g d.groups
      → HasKey h d.groups
      → shards_of g d.shards ≡ shards_of h d.shards

pub IsBalanced-IsSpread : {c d : Config} → IsBalanced c d → IsSpread d
IsBalanced-IsSpread {c = c} {d = d} b = record {
  placed = λ i lt. let (g, e, k) = b.placed i lt in (g, e, back_to g k);
  close = λ g h k l. b.close g h (there_to g k) (there_to h l);
  equal = λ e g h k l.
      b.equal (subst (λ gs. n_shards % length gs ≡ 0) b.same_groups e) g h (there_to g k)
        (there_to h l);
}
  where
    back_to : (g : ℤ) → HasKey g c.groups → HasKey g d.groups
    back_to g k = subst (λ gs. HasKey g gs) (sym b.same_groups) k

    there_to : (g : ℤ) → HasKey g d.groups → HasKey g c.groups
    there_to g k = subst (λ gs. HasKey g gs) b.same_groups k

-- `ds` is `cs` and one more configuration: the next number, the groups that `view` tells, and the
-- shards spread over them.
pub record Appends (cs : List Config) (c : Config) (view : ℤ → Option (List Text))
    (ds : List Config) : Type 0 where
  pub new_config : Config
  pub appended : ds ≡ cs ++ new_config ∷ []
  pub num : new_config.config_num ≡ succ_ℤ c.config_num
  pub groups : (g : ℤ) → find g new_config.groups ≡ view g
  pub spread : IsSpread new_config
  pub well : IsWell new_config
