-- ===== src/MapReduce/Lost.antt =====
-- What every sequence of assignments, ends of waits and reports keeps.
use projects_cpp.Prelude.{
  ℕ, suc, ◌-◌, ◌≡◌, ◌<◌, sym, ap, ◌∙◌, subst, inl, inr, true, ◌∷◌, Bool-cases, if◌then◌else◌, arith,
  get_elem?, get_elem?-some, some,
}
use projects_cpp.MapReduce.{
  Phase, start_phase, has, timed_out, wait_ends, Step, picks, waits, ends, reports, Steps, stop,
  next,
}
use projects_cpp.MapReduce.Tasks.{has_self, has-later, has-cases, has-drop_cases, has-get_elem?}
use projects_cpp.MapReduce.Sound.{
  Somewhere, IsSound, start_phase-IsSound, assign_task-IsSound, wait_task-IsSound, set_stat-IsSound,
}

module _ (n : ℕ) (p : Phase) (h : IsSound n p) where
  -- A wait that ends looks within the running tasks.
  wait_ends-IsSound :
      {t : ℕ} → p.timers ≡ suc t → (q : Phase) × (wait_ends p ≡ some q) × IsSound n q
  wait_ends-IsSound {t = t} some_timer =
      let (x, at) = get_elem?-some p.running p.cur (omega (arith, h.indices, some_timer)) in
      (
        ended x,
        ap (timed_out p) at,
        record {
          indices = omega (arith, h.indices, some_timer);
          kept = λ z k. moved x at z (h.kept z k);
          distinct = h.distinct;
          known = h.known;
          queued_known = λ z k. queued_again x at z k;
          held_known = h.held_known;
          running_known = h.running_known;
          size = h.size;
        },
      )
    where
      ended : ℕ → Phase
      ended x = record p {
        queue = if has x p.finished then p.queue else x ∷ p.queue;
        cur = suc p.cur;
        timers = p.timers - 1;
      }

      queued_again :
          (x : ℕ)
          → get_elem? p.running p.cur ≡ some x
          → (z : ℕ) → has z (ended x).queue ≡ true
          → z < n
      queued_again x at z k = elim (Bool-cases (has x p.finished)) [
        | inl e ↦ h.queued_known z (rw e at k)
        | inr e ↦ elim (has-cases z x p.queue (rw e at k)) [
          | inl same ↦
              subst (λ u. u < n) (sym same) (h.running_known x (has-get_elem? x p.cur p.running at))
          | inr l ↦ h.queued_known z l
        ]
      ]

      still : (x z : ℕ) → has z p.queue ≡ true → has z (ended x).queue ≡ true
      still x z k = elim (Bool-cases (has x p.finished)) [
        | inl e ↦ rw e k
        | inr e ↦ rw e (has-later z x p.queue k)
      ]

      moved :
          (x : ℕ)
          → get_elem? p.running p.cur ≡ some x
          → (z : ℕ) → Somewhere z p
          → Somewhere z (ended x)
      moved x at z (inl k) = inl (still x z k)
      moved x at z (inr (inl k)) = inr (inl k)
      moved x at z (inr (inr (inl k))) = elim (has-drop_cases z x p.cur p.running at k) [
        | inl e ↦ elim (Bool-cases (has x p.finished)) [
          | inl f ↦ inr (inr (inr (ap (λ u. has u p.finished) e ∙ f)))
          | inr f ↦ inl (rw f (ap (λ u. has u (x ∷ p.queue)) e ∙ has_self x p.queue))
        ]
        | inr l ↦ inr (inr (inl l))
      ]
      moved x at z (inr (inr (inr k))) = inr (inr (inr k))

Step-IsSound : (n : ℕ) {p q : Phase} → Step n p q → IsSound n p → IsSound n q
Step-IsSound n (picks {p = p} free e) h = assign_task-IsSound n p h free e
Step-IsSound n (waits {p = p} held) h = wait_task-IsSound n p h held
Step-IsSound n (ends {p = p} some_timer e) h =
    let (k, runs, sound) = wait_ends-IsSound n p h some_timer in
    subst (IsSound n) (the_phase (sym runs ∙ e)) sound
  where
    the_phase : {a b : Phase} → some a ≡ some b → a ≡ b
    the_phase e = cc
Step-IsSound n (reports {p = p} x is_task) h = set_stat-IsSound n p h x is_task

Steps-IsSound : (n : ℕ) {p q : Phase} → Steps n p q → IsSound n p → IsSound n q
Steps-IsSound n stop h = h
Steps-IsSound n (next s rest) h = Steps-IsSound n rest (Step-IsSound n s h)

pub reached-IsSound : (n : ℕ) (p : Phase) → Steps n (start_phase n) p → IsSound n p
reached-IsSound n p steps = Steps-IsSound n steps (start_phase-IsSound n)
