-- ===== src/Sched.antt =====
-- src/sched.c as it is built, with MLQ_SCHED: the multi-level queue scheduler.
-- A process is named by its pointer, a number; the functions that read `proc->prio` take it as an
-- argument. A slot is counted down only where it is positive, so it is a natural number.
-- The mutex makes each function one step of the state.
pub mod Invariant
pub mod Priority
pub mod Running
pub mod Occupancy
pub mod Start
use simple_os_simulator.Prelude.{
  ℕ, zero, suc, ◌-◌, ◌^◌, Bool, true, false, ◌&&◌, not, Option, none, some, List, [], ◌∷◌, ltb,
  if◌then◌else◌, get_or, set, replicate,
}
use simple_os_simulator.Queue.{Queue, max_queue_size, empty, enqueue, dequeue, purgequeue}

abbrev pub max_prio : ℕ
max_prio = 140

-- The static variables of sched.c.
pub record Sched : Type 0 where
  pub ready_queue : Queue
  pub run_queue : Queue
  pub running_list : Queue
  pub mlq_ready_queue : List Queue
  pub slot : List ℕ

abbrev pub no_procs : Queue
no_procs = record { proc = replicate max_queue_size 0; size = 0 }

abbrev pub queue_at : Sched → ℕ → Queue
queue_at s prio = get_or s.mlq_ready_queue prio no_procs

abbrev pub slot_at : Sched → ℕ → ℕ
slot_at s prio = get_or s.slot prio 0

-- `for (prio = i; prio < i + n; prio++) if (test) break;`
unfoldable pub first_from : (ℕ → Bool) → ℕ → ℕ → Option ℕ
first_from test zero i = none
first_from test (suc n) i = let rest = first_from test n (suc i) in if test i then some i else rest

abbrev pub is_filled : Sched → ℕ → Bool
is_filled s prio = not (empty (queue_at s prio))

abbrev pub is_eligible : Sched → ℕ → Bool
is_eligible s prio = ltb 0 (slot_at s prio) && is_filled s prio

-- The value is an `int` pattern, -1 where an MLQ queue holds a process.
queue_empty : Sched → ℕ
unfolding first_from empty
queue_empty s = elim (first_from (is_filled s) max_prio 0) [
  | some prio ↦ 2 ^ 32 - 1
  | none ↦ if empty s.ready_queue && empty s.run_queue then 1 else 0
]

-- `for (i = 0; i < MAX_PRIO; i++) slot[i] = MAX_PRIO - i`, from `i` on.
unfoldable pub budgets : ℕ → ℕ → List ℕ
budgets zero i = []
budgets (suc n) i = (max_prio - i) ∷ budgets n (suc i)

unfoldable pub emptied : Queue → Queue
emptied q = record q { size = 0 }

unfoldable pub empty_all : List Queue → List Queue
empty_all [] = []
empty_all (q ∷ qs) = emptied q ∷ empty_all qs

unfoldable pub init_scheduler : Sched → Sched
unfolding budgets emptied empty_all
init_scheduler s = record {
  ready_queue = emptied s.ready_queue;
  run_queue = emptied s.run_queue;
  running_list = emptied s.running_list;
  mlq_ready_queue = empty_all s.mlq_ready_queue;
  slot = budgets max_prio 0;
}

-- `proc = dequeue(&mlq_ready_queue[prio]); slot[prio]--;`
unfoldable pub serve : Sched → ℕ → Option ℕ × Sched
serve s prio =
    let (proc, q) = dequeue (queue_at s prio) in
    (
      proc,
      record s {
        mlq_ready_queue = set s.mlq_ready_queue prio q;
        slot = set s.slot prio (slot_at s prio - 1);
      },
    )

-- Reset all slot budgets and try again.
unfoldable pub retry : Sched → Option ℕ × Sched
retry s =
    let s' = record s { slot = budgets max_prio 0 } in
    elim (first_from (is_filled s') max_prio 0) [ none ↦ (none, s') | some prio ↦ serve s' prio ]

unfoldable pub choose : Sched → Option ℕ × Sched
choose s = elim (first_from (is_eligible s) max_prio 0) [
  | some prio ↦ serve s prio
  | none ↦ elim (first_from (is_filled s) max_prio 0) [ none ↦ (none, s) | some _ ↦ retry s ]
]

-- `get_proc`, which is `get_mlq_proc`.
unfoldable pub get_mlq_proc : Sched → Option ℕ × Sched
get_mlq_proc s =
    let (proc, s') = choose s in (proc, record s' { running_list = enqueue s'.running_list proc })

-- `enqueue(&mlq_ready_queue[prio], proc)`
abbrev pub enqueue_at : Sched → ℕ → ℕ → Sched
enqueue_at s proc prio = record s {
  mlq_ready_queue = set s.mlq_ready_queue prio (enqueue (queue_at s prio) (some proc));
}

-- `put_proc`, which is `put_mlq_proc`; `none` where `mlq_ready_queue[proc->prio]` is out of range.
unfoldable pub put_mlq_proc : Sched → ℕ → ℕ → Option Sched
put_mlq_proc s proc prio = if ltb prio max_prio then some (enqueue_at s proc prio) else none

-- `add_proc`, which is `add_mlq_proc`: the same body.
unfoldable pub add_mlq_proc : Sched → ℕ → ℕ → Option Sched
add_mlq_proc s proc prio = if ltb prio max_prio then some (enqueue_at s proc prio) else none

unfoldable pub remove_proc : Sched → ℕ → Sched
remove_proc s proc = record s { running_list = (purgequeue s.running_list (some proc)).1 }
