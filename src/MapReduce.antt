-- ===== src/MapReduce.antt =====
-- The reduce phase of class Master of 6.824/src/MapReduce/master.cpp. Its tasks are the numbers below
-- `m_reduceNum`; the constructor throws where that is not positive. `timers` is the number of threads
-- that wait in `waitReduceTask`. The RPC server is one thread; `held` is the task it has taken from
-- the queue and not yet noted as running. The printing, which reads `m_list`, is left out, and so is
-- the map phase: its queue holds pointers to the text of strings in a vector, which moves them.
pub mod Tasks
pub mod Sound
pub mod Lost
pub mod Finishes
mod Tests
use projects_cpp.Prelude.{
  ℕ, zero, suc, ◌-◌, ◌≡◌, ◌⊎◌, Option, none, some, Bool, true, false, List, [], ◌∷◌, ◌++◌, length,
  get_elem?, ◌==◌, ◌<◌, if◌then◌else◌,
}

-- The members `reduceIndex`, with its back in front, `runningReduceWork`, `curReduceIndex`, the keys
-- of `finishedReduceTask` and `m_reduceNum`.
pub record Phase : Type 0 where
  pub queue : List ℕ
  pub held : Option ℕ
  pub running : List ℕ
  pub cur : ℕ
  pub timers : ℕ
  pub finished : List ℕ
  pub total : ℕ

-- `emplace_back` of 0, 1, … in the constructor.
abbrev pub reduce_tasks : ℕ → List ℕ
reduce_tasks zero = []
reduce_tasks (suc i) = i ∷ reduce_tasks i

-- The constructor, for a number of reduce tasks.
abbrev pub start_phase : ℕ → Phase
start_phase n = record {
  queue = reduce_tasks n;
  held = none;
  running = [];
  cur = 0;
  timers = 0;
  finished = [];
  total = n;
}

-- `Done`
abbrev pub is_done : Phase → Bool
is_done p = length p.finished == p.total

abbrev pub take_back : Phase → List ℕ → Option (ℕ × Phase)
take_back p [] = none
take_back p (x ∷ queue) = some (x, record p { queue = queue; held = some x })

-- `assignReduceTask` up to the call of `waitReduce`; `none` is the reply -1.
abbrev pub assign_task : Phase → Option (ℕ × Phase)
assign_task p = if is_done p then none else take_back p p.queue

-- `waitReduce`: the task is noted as running, and a thread waits for it.
abbrev pub wait_task : ℕ → Phase → Phase
wait_task x p = record p { held = none; running = p.running ++ x ∷ []; timers = suc p.timers }

-- `count` of a map, by its keys.
abbrev pub has : ℕ → List ℕ → Bool
has x [] = false
has x (y ∷ ys) = if x == y then true else has x ys

-- `setReduceStat`
abbrev pub set_stat : ℕ → Phase → Phase
set_stat x p = record p { finished = if has x p.finished then p.finished else x ∷ p.finished }

abbrev pub timed_out : Phase → Option ℕ → Option (Phase)
timed_out p none = none
timed_out p (some x) = some (record p {
  queue = if has x p.finished then p.queue else x ∷ p.queue;
  cur = suc p.cur;
  timers = p.timers - 1;
})

-- `waitReduceTask` behind its wait, which looks at the running task that is next, whichever it was
-- started for; `none` is an index out of range.
abbrev pub wait_ends : Phase → Option (Phase)
wait_ends p = timed_out p (get_elem? p.running p.cur)

-- One task from its assignment to its end.
abbrev pub after_assign : Phase → Option (ℕ × Phase) → Phase
after_assign p none = p
after_assign p (some (x, q)) = set_stat x (wait_task x q)

abbrev pub one_task : Phase → Phase
one_task p = after_assign p (assign_task p)

abbrev pub tasks_done : ℕ → Phase → Phase
tasks_done zero p = p
tasks_done (suc n) p = tasks_done n (one_task p)

-- What can come next: the RPC thread's steps, the end of a wait, and a worker's report of a task.
pub data Step (n : ℕ) : Phase → Phase → Type 0 where
  picks : {p q : Phase} {x : ℕ} → p.held ≡ none → assign_task p ≡ some (x, q) → Step n p q
  waits : {p : Phase} {x : ℕ} → p.held ≡ some x → Step n p (wait_task x p)
  ends : {p q : Phase} {t : ℕ} → p.timers ≡ suc t → wait_ends p ≡ some q → Step n p q
  reports : {p : Phase} (x : ℕ) → x < n → Step n p (set_stat x p)

pub data Steps (n : ℕ) : Phase → Phase → Type 0 where
  stop : {p : Phase} → Steps n p p
  next : {p q r : Phase} → Step n p q → Steps n q r → Steps n p r
