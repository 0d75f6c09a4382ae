-- ===== src/Tests/Queues.antt =====
-- Concrete queues and schedulers for src/queue.c and src/sched.c.
use simple_os_simulator.Prelude.{
  ℕ, ◌<◌, ◌≡◌, ◌↔◌, refl, arith, none, some, [], ◌∷◌, replicate, get_or-replicate, length-replicate,
}
use simple_os_simulator.Queue.{Queue, enqueue, dequeue, empty}
use simple_os_simulator.Queue.Laws.{IsValid as IsQueue}
use simple_os_simulator.Queue.Laws.{contents}
use simple_os_simulator.Sched.{
  Sched, max_prio, no_procs, budgets, queue_at, enqueue_at, get_mlq_proc, choose, serve, first_from,
}
use simple_os_simulator.Sched.Invariant.{
  IsValid, length-budgets, get_or-budgets_le, enqueue_at-IsValid,
}
use simple_os_simulator.Sched.Priority.{Turn, get_mlq_proc-Turn, get_mlq_proc-none_iff}
use simple_os_simulator.Sched.Running.{running}

abbrev two_procs : Queue
two_procs = record { proc = 7 ∷ 9 ∷ replicate 48 0; size = 2 }

two_procs-IsValid : IsQueue two_procs
two_procs-IsValid = record { slots = refl; bounded = omega arith }

-- Nothing is ready, and `running` stands in the running list.
abbrev pub waiting : Queue → Sched
waiting running = record {
  ready_queue = no_procs;
  run_queue = no_procs;
  running_list = running;
  mlq_ready_queue = replicate max_prio no_procs;
  slot = budgets max_prio 0;
}

pub waiting-IsValid : (running : Queue) → IsQueue running → IsValid (waiting running)
waiting-IsValid running v = record {
  levels = length-replicate {A = Queue} max_prio no_procs;
  slots = length-budgets max_prio 0;
  queues = λ j.
      rw (get_or-replicate max_prio j no_procs) (record { slots = refl; bounded = omega arith });
  within = λ j. omega (arith, get_or-budgets_le max_prio 0 j);
  running = v;
}

-- Process 7 is ready at priority 3, and stands in the running list.
abbrev one_ready : Sched
one_ready = enqueue_at (waiting two_procs) 7 3

one_ready-IsValid : IsValid one_ready
one_ready-IsValid =
    enqueue_at-IsValid (waiting two_procs) 7 3 (waiting-IsValid two_procs two_procs-IsValid)

one_ready-gives : (get_mlq_proc one_ready).0 ≡ some 7
unfolding get_mlq_proc choose serve first_from dequeue empty enqueue budgets
one_ready-gives = refl

get_mlq_proc-Turn_example : Turn one_ready (get_mlq_proc one_ready)
get_mlq_proc-Turn_example = get_mlq_proc-Turn one_ready one_ready-IsValid

get_mlq_proc-none_iff_example :
    ((get_mlq_proc one_ready).0 ≡ none)
    ↔ ((j : ℕ) → j < max_prio → contents (queue_at one_ready j) ≡ [])
get_mlq_proc-none_iff_example = get_mlq_proc-none_iff one_ready one_ready-IsValid

-- Fifty copies of a process that has finished fill the running list.
abbrev fifty : Queue
fifty = record { proc = replicate 50 9; size = 50 }

abbrev crowded : Sched
crowded = enqueue_at (waiting fifty) 7 3

crowded-IsValid : IsValid crowded
crowded-IsValid =
    enqueue_at-IsValid (waiting fifty) 7 3
      (waiting-IsValid fifty (record { slots = refl; bounded = omega arith }))

crowded-gives : (get_mlq_proc crowded).0 ≡ some 7
unfolding get_mlq_proc choose serve first_from dequeue empty enqueue budgets
crowded-gives = refl
