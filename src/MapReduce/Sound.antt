-- ===== src/MapReduce/Sound.antt =====
-- Where the tasks of a phase are, and what the steps of the RPC thread and the reports keep.
use projects_cpp.Prelude.{
  ◌+◌, ◌≡◌, ◌<◌, ℕ, ◌⊎◌, refl, sym, ap, ◌∙◌, subst, inl, inr, true, List, [], ◌∷◌, ◌++◌, length,
  drop, Bool-cases, if◌then◌else◌, arith, length-append, Option, some, none, none-ne,
}
use projects_cpp.MapReduce.{
  Phase, start_phase, is_done, take_back, assign_task, wait_task, has, set_stat,
}
use projects_cpp.MapReduce.Tasks.{
  true-ne-false, has_self, has-later, has-cases, has-reduce_tasks, Distinct, has-append_left,
  has-snoc, drop-snoc, reduce_tasks-lt, has-snoc_cases,
}

-- In the queue, held by the RPC thread, running with a wait that has not ended, or finished.
abbrev pub Somewhere : ℕ → Phase → Type 0
Somewhere x p =
    (has x p.queue ≡ true)
    ⊎ ((p.held ≡ some x) ⊎ ((has x (drop p.cur p.running) ≡ true) ⊎ (has x p.finished ≡ true)))

-- What every step keeps.
pub record IsSound (n : ℕ) (p : Phase) : Type 0 where
  pub indices : p.cur + p.timers ≡ length p.running
  pub kept : (x : ℕ) → x < n → Somewhere x p
  pub distinct : Distinct p.finished
  pub known : (x : ℕ) → has x p.finished ≡ true → x < n
  pub queued_known : (x : ℕ) → has x p.queue ≡ true → x < n
  pub held_known : (x : ℕ) → p.held ≡ some x → x < n
  pub running_known : (x : ℕ) → has x p.running ≡ true → x < n
  pub size : p.total ≡ n

pub start_phase-IsSound : (n : ℕ) → IsSound n (start_phase n)
start_phase-IsSound n = record {
  indices = refl;
  kept = λ x h. inl (has-reduce_tasks x n h);
  distinct = tt;
  known = λ x h. absurd (true-ne-false (sym h));
  queued_known = λ x h. reduce_tasks-lt x n h;
  held_known = λ x e. absurd (none-ne e);
  running_known = λ x h. absurd (true-ne-false (sym h));
  size = refl;
}

module _ (n : ℕ) (p : Phase) (h : IsSound n p) where
  take_back-IsSound :
      (queue : List ℕ) {x : ℕ} {q : Phase}
      → p.queue ≡ queue
      → p.held ≡ none
      → take_back p queue ≡ some (x, q)
      → IsSound n q
  take_back-IsSound [] same free e = absurd (none-ne e)
  take_back-IsSound (y ∷ queue) {x = x} {q = q} same free e =
      subst (IsSound n) (the_phase e) (record {
        indices = h.indices;
        kept = λ z k. moved z (h.kept z k);
        distinct = h.distinct;
        known = h.known;
        queued_known = λ z k. h.queued_known z (there z k);
        held_known = λ z e. h.queued_known z (first z (the_task e));
        running_known = h.running_known;
        size = h.size;
      })
    where
      there : (z : ℕ) → has z queue ≡ true → has z p.queue ≡ true
      there z k = ap (has z) same ∙ has-later z y queue k

      first : (z : ℕ) → y ≡ z → has z p.queue ≡ true
      first z e = ap (has z) same ∙ ap (λ u. has u (y ∷ queue)) (sym e) ∙ has_self y queue

      the_task : {z : ℕ} → some y ≡ some z → y ≡ z
      the_task e = cc

      taken : Phase
      taken = record p { queue = queue; held = some y }

      the_phase : ◌≡◌ {A = Option (ℕ × Phase)} (some (y, taken)) (some (x, q)) → taken ≡ q
      the_phase e = cc

      moved : (z : ℕ) → Somewhere z p → Somewhere z taken
      moved z (inl k) = elim (has-cases z y queue (subst (λ l. has z l ≡ true) same k)) [
        | inl e ↦ inr (inl (ap some (sym e)))
        | inr l ↦ inl l
      ]
      moved z (inr (inl k)) = absurd (none-ne (sym free ∙ k))
      moved z (inr (inr k)) = inr (inr k)

  pub assign_task-IsSound :
      {x : ℕ} {q : Phase} → p.held ≡ none → assign_task p ≡ some (x, q) → IsSound n q
  assign_task-IsSound free e = elim (Bool-cases (is_done p)) [
    | inl d ↦ absurd (none-ne (rw d at e))
    | inr d ↦ take_back-IsSound p.queue refl free (rw d at e)
  ]

  pub wait_task-IsSound : {x : ℕ} → p.held ≡ some x → IsSound n (wait_task x p)
  wait_task-IsSound {x = x} held = record {
    indices = omega (arith, h.indices, length-append p.running (x ∷ []));
    kept = λ z k. moved z (h.kept z k);
    distinct = h.distinct;
    known = h.known;
    queued_known = h.queued_known;
    held_known = λ z e. absurd (none-ne e);
    running_known = λ z k. ran z (has-snoc_cases z x p.running k);
    size = h.size;
  }
    where
      ran : (z : ℕ) → (has z p.running ≡ true) ⊎ (z ≡ x) → z < n
      ran z (inl k) = h.running_known z k
      ran z (inr e) = subst (λ u. u < n) (sym e) (h.held_known x held)

      the_some : {z : ℕ} → some x ≡ some z → x ≡ z
      the_some e = cc

      behind : drop p.cur (p.running ++ x ∷ []) ≡ drop p.cur p.running ++ x ∷ []
      behind = drop-snoc p.cur p.running x (omega (arith, h.indices))

      moved : (z : ℕ) → Somewhere z p → Somewhere z (wait_task x p)
      moved z (inl k) = inl k
      moved z (inr (inl k)) = inr (
          inr (
            inl (
              ap (has z) behind
              ∙ subst (λ u. has u (drop p.cur p.running ++ x ∷ []) ≡ true) (the_some (sym held ∙ k))
                  (has-snoc x (drop p.cur p.running)))))
      moved z (inr (inr (inl k))) =
          inr (inr (inl (ap (has z) behind ∙ has-append_left z (drop p.cur p.running) (x ∷ []) k)))
      moved z (inr (inr (inr k))) = inr (inr (inr k))

  pub set_stat-IsSound : (x : ℕ) → x < n → IsSound n (set_stat x p)
  set_stat-IsSound x is_task = elim (Bool-cases (has x p.finished)) [
    | inl e ↦
        subst (λ l. IsSound n (record p { finished = l }))
          (sym (ap (λ b. if b then p.finished else x ∷ p.finished) e)) h
    | inr e ↦
        subst (λ l. IsSound n (record p { finished = l }))
          (sym (ap (λ b. if b then p.finished else x ∷ p.finished) e))
          (record {
            indices = h.indices;
            kept = λ z k. moved z (h.kept z k);
            distinct = (e, h.distinct);
            known = λ z k. known z (has-cases z x p.finished k);
            queued_known = h.queued_known;
            held_known = h.held_known;
            running_known = h.running_known;
            size = h.size;
          })
  ]
    where
      moved : (z : ℕ) → Somewhere z p → Somewhere z (record p { finished = x ∷ p.finished })
      moved z (inl k) = inl k
      moved z (inr (inl k)) = inr (inl k)
      moved z (inr (inr (inl k))) = inr (inr (inl k))
      moved z (inr (inr (inr k))) = inr (inr (inr (has-later z x p.finished k)))

      known : (z : ℕ) → (z ≡ x) ⊎ (has z p.finished ≡ true) → z < n
      known z (inl e) = subst (λ u. u < n) (sym e) is_task
      known z (inr k) = h.known z k
