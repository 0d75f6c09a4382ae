-- ===== src/Sched/Start.antt =====
-- What `init_scheduler` of src/sched.c establishes.
use simple_os_simulator.Prelude.{
  ℕ, zero, suc, ◌≡◌, refl, ap, ◌∙◌, arith, List, [], ◌∷◌, get_or, length, times, length-replicate,
  total_zero,
}
use simple_os_simulator.Queue.{Queue, max_queue_size}
use simple_os_simulator.Queue.Laws.{contents}
use simple_os_simulator.Queue.Laws.{IsValid as IsQueue}
use simple_os_simulator.Sched.{
  Sched, max_prio, no_procs, queue_at, emptied, empty_all, init_scheduler,
}
use simple_os_simulator.Sched.Invariant.{IsValid, length-budgets, get_or-budgets_le}
use simple_os_simulator.Sched.Occupancy.{queued}

length-empty_all : (qs : List Queue) → length (empty_all qs) ≡ length qs
unfolding empty_all
length-empty_all [] = refl
length-empty_all (q ∷ qs) = ap suc (length-empty_all qs)

-- An array of 50 slots, whatever the size field says.
abbrev IsArray : Queue → Type 0
IsArray q = length q.proc ≡ max_queue_size

emptied-IsValid : (q : Queue) → IsArray q → IsQueue (emptied q)
unfolding emptied
emptied-IsValid q a = record { slots = a; bounded = omega arith }

empty_all-IsValid :
    (qs : List Queue) (j : ℕ)
    → ((i : ℕ) → IsArray (get_or qs i no_procs))
    → IsQueue (get_or (empty_all qs) j no_procs)
unfolding empty_all
empty_all-IsValid [] j a = record {
  slots = length-replicate {A = ℕ} max_queue_size 0;
  bounded = omega arith;
}
empty_all-IsValid (q ∷ qs) zero a = emptied-IsValid q (a 0)
empty_all-IsValid (q ∷ qs) (suc j) a = empty_all-IsValid qs j (λ i. a (suc i))

empty_all_empty : (qs : List Queue) (j : ℕ) → (get_or (empty_all qs) j no_procs).size ≡ 0
unfolding empty_all emptied
empty_all_empty [] j = refl
empty_all_empty (q ∷ qs) zero = refl
empty_all_empty (q ∷ qs) (suc j) = empty_all_empty qs j

-- From arrays of the right lengths with any contents: the scheduler's invariant, ...
pub init_scheduler-IsValid :
    (s : Sched)
    → length s.mlq_ready_queue ≡ max_prio
    → ((j : ℕ) → IsArray (queue_at s j))
    → IsArray s.running_list
    → IsValid (init_scheduler s)
unfolding init_scheduler
init_scheduler-IsValid s levels arrays running = record {
  levels = length-empty_all s.mlq_ready_queue ∙ levels;
  slots = length-budgets max_prio 0;
  queues = λ j. empty_all-IsValid s.mlq_ready_queue j arrays;
  within = λ j. omega (arith, get_or-budgets_le max_prio 0 j);
  running = emptied-IsValid s.running_list running;
}

-- ... and no process in a queue.
pub init_scheduler_empty : (s : Sched) (p : ℕ) → queued (init_scheduler s) p ≡ 0
unfolding init_scheduler queued
init_scheduler_empty s p =
    total_zero (λ j. times p (contents (queue_at (init_scheduler s) j))) max_prio
      (λ j lt. rw (empty_all_empty s.mlq_ready_queue j) refl)
