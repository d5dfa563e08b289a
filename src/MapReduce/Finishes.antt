-- ===== src/MapReduce/Finishes.antt =====
-- The end of a phase, once its waits have ended.
use projects_cpp.Prelude.{
  ℕ, zero, suc, ◌≡◌, ◌<◌, subst, ◌⊎◌, refl, sym, ap, ◌∙◌, inl, inr, true, List, [], ◌∷◌, length,
  drop-eq-nil, Bool-cases, if◌then◌else◌, arith, ==_iff, none-ne, some, none,
}
use projects_cpp.MapReduce.{
  Phase, reduce_tasks, start_phase, is_done, take_back, wait_task, has, set_stat, after_assign,
  tasks_done, Steps,
}
use projects_cpp.MapReduce.Tasks.{
  true-ne-false, has_self, has-later, has-cases, Distinct, length-le, has-reduce_tasks,
  reduce_tasks-lt, reduce_tasks-Distinct, length-reduce_tasks,
}
use projects_cpp.MapReduce.Sound.{Somewhere, IsSound}
use projects_cpp.MapReduce.Lost.{reached-IsSound}

module _ (n : ℕ) where
  -- Each task waits in the queue or is finished.
  record IsQuiet (p : Phase) : Type 0 where
    waiting : (x : ℕ) → x < n → (has x p.queue ≡ true) ⊎ (has x p.finished ≡ true)
    queued_known : (x : ℕ) → has x p.queue ≡ true → x < n
    finished_known : (x : ℕ) → has x p.finished ≡ true → x < n
    finished_distinct : Distinct p.finished
    size : p.total ≡ n

  -- With an empty queue all tasks are finished.
  empty-done : (p : Phase) → IsQuiet p → p.queue ≡ [] → is_done p ≡ true
  empty-done p h empty = (==_iff (length p.finished) p.total).1 (
      omega (
        arith,
        h.size,
        length-reduce_tasks n,
        length-le p.finished (reduce_tasks n) h.finished_distinct
            (λ z k. has-reduce_tasks z n (h.finished_known z k)),
        length-le (reduce_tasks n) p.finished (reduce_tasks-Distinct n)
            (λ x k. all_finished x (h.waiting x (reduce_tasks-lt x n k))),
      ))
    where
      all_finished :
          (x : ℕ) → (has x p.queue ≡ true) ⊎ (has x p.finished ≡ true) → has x p.finished ≡ true
      all_finished x (inl k) = absurd (true-ne-false (sym k ∙ ap (has x) empty))
      all_finished x (inr k) = k

  done-stays : (k : ℕ) (p : Phase) → is_done p ≡ true → tasks_done k p ≡ p
  done-stays zero p d = refl
  done-stays (suc k) p d =
      ap (tasks_done k) (ap (λ b. after_assign p (if b then none else take_back p p.queue)) d)
      ∙ done-stays k p d

  -- A round with a task at the back of the queue finishes it.
  finish : ℕ → List ℕ → Phase → Phase
  finish x queue p = set_stat x (wait_task x (record p { queue = queue; held = some x }))

  finish-IsQuiet :
      (x : ℕ) (queue : List ℕ) (p : Phase)
      → IsQuiet p
      → p.queue ≡ x ∷ queue
      → IsQuiet (finish x queue p)
  unfolding finish
  finish-IsQuiet x queue p h same = record {
    waiting = λ z k. moved z (h.waiting z k);
    queued_known = λ z k. h.queued_known z (ap (has z) same ∙ has-later z x queue k);
    finished_known = λ z k. known z k;
    finished_distinct = more;
    size = h.size;
  }
    where
      x_known : x < n
      x_known = h.queued_known x (ap (has x) same ∙ has_self x queue)

      finished : List ℕ
      finished = if has x p.finished then p.finished else x ∷ p.finished

      known : (z : ℕ) → has z finished ≡ true → z < n
      known z k = elim (Bool-cases (has x p.finished)) [
        | inl e ↦ h.finished_known z (rw e at k)
        | inr e ↦ elim (has-cases z x p.finished (rw e at k)) [
          | inl alike ↦ subst (λ u. u < n) (sym alike) x_known
          | inr l ↦ h.finished_known z l
        ]
      ]

      more : Distinct finished
      more = elim (Bool-cases (has x p.finished)) [
        | inl e ↦ rw e h.finished_distinct
        | inr e ↦ rw e (e, h.finished_distinct)
      ]

      grown : (z : ℕ) → (z ≡ x) ⊎ (has z p.finished ≡ true) → has z finished ≡ true
      grown z (inl alike) = elim (Bool-cases (has x p.finished)) [
        | inl e ↦ rw e (ap (λ u. has u p.finished) alike ∙ e)
        | inr e ↦ rw e (ap (λ u. has u (x ∷ p.finished)) alike ∙ has_self x p.finished)
      ]
      grown z (inr k) = elim (Bool-cases (has x p.finished)) [
        | inl e ↦ rw e k
        | inr e ↦ rw e (has-later z x p.finished k)
      ]

      moved :
          (z : ℕ)
          → (has z p.queue ≡ true) ⊎ (has z p.finished ≡ true)
          → (has z queue ≡ true) ⊎ (has z finished ≡ true)
      moved z (inl k) = elim (has-cases z x queue (sym (ap (has z) same) ∙ k)) [
        | inl alike ↦ inr (grown z (inl alike))
        | inr l ↦ inl l
      ]
      moved z (inr k) = inr (grown z (inr k))

  quiet-done :
      (queue : List ℕ) (p : Phase)
      → IsQuiet p
      → p.queue ≡ queue
      → is_done (tasks_done (length queue) p) ≡ true
  unfolding finish
  quiet-done [] p h same = empty-done p h same
  quiet-done (x ∷ queue) p h same = elim (Bool-cases (is_done p)) [
    | inl d ↦ ap is_done (done-stays (suc (length queue)) p d) ∙ d
    | inr d ↦
        ap (λ q. is_done (tasks_done (length queue) q))
          (ap (λ b. after_assign p (if b then none else take_back p p.queue)) d
            ∙ ap (λ l. after_assign p (take_back p l)) same)
        ∙ quiet-done queue (finish x queue p) (finish-IsQuiet x queue p h same) refl
  ]

  -- After every sequence of assignments, ends of waits and reports of tasks in which all waits have
  -- ended and the RPC thread holds no task, workers that finish each task they are given end the
  -- reduce phase, with one task for each place of the queue at most.
  pub phase_ends :
      (p : Phase)
      → Steps n (start_phase n) p
      → p.held ≡ none
      → p.timers ≡ 0
      → is_done (tasks_done (length p.queue) p) ≡ true
  phase_ends p steps free ended =
      let h = reached-IsSound n p steps in
      quiet-done p.queue p
        (record {
          waiting = λ x k. waits h x (h.kept x k);
          queued_known = h.queued_known;
          finished_known = h.known;
          finished_distinct = h.distinct;
          size = h.size;
        })
        refl
    where
      waits :
          IsSound n p → (x : ℕ) → Somewhere x p → (has x p.queue ≡ true) ⊎ (has x p.finished ≡ true)
      waits h x (inl k) = inl k
      waits h x (inr (inl k)) = absurd (none-ne (sym free ∙ k))
      waits h x (inr (inr (inl k))) = absurd (
          true-ne-false
            (sym k ∙ ap (has x) (drop-eq-nil p.cur p.running (omega (arith, h.indices, ended)))))
      waits h x (inr (inr (inr k))) = inr k
