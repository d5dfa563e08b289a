-- ===== src/MapReduce/Tests.antt =====
-- Three reduce tasks.
use projects_cpp.Prelude.{◌≡◌, refl, none, some, true, [], ◌∷◌, length}
use projects_cpp.MapReduce.{
  Phase, start_phase, is_done, wait_task, tasks_done, Steps, picks, waits, ends, stop, next,
}
use projects_cpp.MapReduce.Finishes.{phase_ends}

abbrev picked : Phase
picked = record (start_phase 3) { queue = 1 ∷ 0 ∷ []; held = some 2 }

-- Task 2 is given out, and its wait ends before a worker reports it.
abbrev late : Phase
late = record {
  queue = 2 ∷ 1 ∷ 0 ∷ [];
  held = none;
  running = 2 ∷ [];
  cur = 1;
  timers = 0;
  finished = [];
  total = 3;
}

late-Steps : Steps 3 (start_phase 3) late
late-Steps = next (picks {p = start_phase 3} {q = picked} {x = 2} refl refl) (
    next (waits {p = picked} {x = 2} refl)
      (next (ends {p = wait_task 2 picked} {q = late} {t = 0} refl refl) stop))

phase_ends_example : is_done (tasks_done (length late.queue) late) ≡ true
phase_ends_example = phase_ends 3 late late-Steps refl refl
