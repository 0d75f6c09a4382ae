-- ===== src/Sched/Invariant.antt =====
-- The representation invariant of src/sched.c: array lengths, queue sizes and slot budgets.
use simple_os_simulator.Prelude.{
  ℕ, zero, suc, ◌+◌, ◌-◌, ◌≤◌, ◌<◌, ◌≡◌, refl, ap, ◌∙◌, subst, inl, inr, some, List, [], ◌∷◌, arith,
  get_or, set, length, length-set, Option-cases,
}
use simple_os_simulator.Queue.{Queue}
use simple_os_simulator.Queue.Laws.{IsValid as IsQueue}
use simple_os_simulator.Queue.Laws.{enqueue-IsValid, dequeue-IsValid, purgequeue-IsValid}
use simple_os_simulator.Sched.{
  Sched, max_prio, no_procs, queue_at, slot_at, budgets, serve, retry, choose, get_mlq_proc,
  enqueue_at, put_mlq_proc, add_mlq_proc, remove_proc, first_from, is_filled, is_eligible,
}

pub record IsValid (s : Sched) : Type 0 where
  pub levels : length s.mlq_ready_queue ≡ max_prio
  pub slots : length s.slot ≡ max_prio
  pub queues : (j : ℕ) → IsQueue (queue_at s j)
  pub within : (j : ℕ) → slot_at s j ≤ max_prio - j
  pub running : IsQueue s.running_list

pub length-budgets : (n i : ℕ) → length (budgets n i) ≡ n
unfolding budgets
length-budgets zero i = refl
length-budgets (suc n) i = ap suc (length-budgets n (suc i))

get_or-budgets : (n i j : ℕ) → j < n → get_or (budgets n i) j 0 ≡ max_prio - (i + j)
unfolding budgets
get_or-budgets zero i j h = absurd (omega arith)
get_or-budgets (suc n) i zero h = omega arith
get_or-budgets (suc n) i (suc j) h = omega (arith, get_or-budgets n (suc i) j (omega arith))

pub get_or-budgets_le : (n i j : ℕ) → get_or (budgets n i) j 0 ≤ max_prio - (i + j)
unfolding budgets
get_or-budgets_le zero i j = omega arith
get_or-budgets_le (suc n) i zero = omega arith
get_or-budgets_le (suc n) i (suc j) = omega (arith, get_or-budgets_le n (suc i) j)

set-IsQueue :
    (qs : List Queue) (i : ℕ) (q : Queue) (j : ℕ)
    → IsQueue (get_or qs j no_procs)
    → IsQueue q
    → IsQueue (get_or (set qs i q) j no_procs)
set-IsQueue [] i q j v w = v
set-IsQueue (x ∷ qs) zero q zero v w = w
set-IsQueue (x ∷ qs) zero q (suc j) v w = v
set-IsQueue (x ∷ qs) (suc i) q zero v w = v
set-IsQueue (x ∷ qs) (suc i) q (suc j) v w = set-IsQueue qs i q j v w

get_or-set_le :
    (xs : List ℕ) (i j x b : ℕ) → get_or xs j 0 ≤ b → (i ≡ j → x ≤ b) → get_or (set xs i x) j 0 ≤ b
get_or-set_le [] i j x b h k = h
get_or-set_le (y ∷ xs) zero zero x b h k = k refl
get_or-set_le (y ∷ xs) zero (suc j) x b h k = h
get_or-set_le (y ∷ xs) (suc i) zero x b h k = h
get_or-set_le (y ∷ xs) (suc i) (suc j) x b h k = get_or-set_le xs i j x b h (λ e. k (ap suc e))

serve-IsValid : (s : Sched) (p : ℕ) → IsValid s → IsValid (serve s p).1
unfolding serve
serve-IsValid s p v = record {
  levels = length-set s.mlq_ready_queue p _ ∙ v.levels;
  slots = length-set s.slot p _ ∙ v.slots;
  queues = λ j. set-IsQueue s.mlq_ready_queue p _ j (v.queues j) (dequeue-IsValid _ (v.queues p));
  within = λ j. get_or-set_le s.slot p j _ _ (v.within j) (λ e. omega (arith, v.within p));
  running = v.running;
}

-- The slot budgets of a new round.
abbrev pub fresh : Sched → Sched
fresh s = record s { slot = budgets max_prio 0 }

pub reset-IsValid : (s : Sched) → IsValid s → IsValid (fresh s)
reset-IsValid s v = record {
  levels = v.levels;
  slots = length-budgets max_prio 0;
  queues = v.queues;
  within = λ j. omega (arith, get_or-budgets_le max_prio 0 j);
  running = v.running;
}

retry-IsValid : (s : Sched) → IsValid s → IsValid (retry s).1
unfolding retry
retry-IsValid s v = elim (Option-cases (first_from (is_filled (fresh s)) max_prio 0)) [
  | inl e ↦ rw (e, retry) (reset-IsValid s v)
  | inr (p, e) ↦ rw (e, retry) (serve-IsValid (fresh s) p (reset-IsValid s v))
]

choose-IsValid : (s : Sched) → IsValid s → IsValid (choose s).1
unfolding choose
choose-IsValid s v = elim (Option-cases (first_from (is_eligible s) max_prio 0)) [
  | inr (p, e) ↦ rw (e, choose) (serve-IsValid s p v)
  | inl e ↦ elim (Option-cases (first_from (is_filled s) max_prio 0)) [
    | inl f ↦ rw (e, f, choose) v
    | inr (p, f) ↦ rw (e, f, choose) (retry-IsValid s v)
  ]
]

-- get_proc keeps the invariant of the scheduler: array lengths, queue sizes within their arrays,
-- and slots within their budgets.
pub get_mlq_proc-IsValid : (s : Sched) → IsValid s → IsValid (get_mlq_proc s).1
unfolding get_mlq_proc
get_mlq_proc-IsValid s v =
    let w : IsValid (choose s).1 = choose-IsValid s v in
    record {
      levels = w.levels;
      slots = w.slots;
      queues = w.queues;
      within = w.within;
      running = enqueue-IsValid _ _ w.running;
    }

pub enqueue_at-IsValid : (s : Sched) (proc prio : ℕ) → IsValid s → IsValid (enqueue_at s proc prio)
enqueue_at-IsValid s proc prio v = record {
  levels = length-set s.mlq_ready_queue prio _ ∙ v.levels;
  slots = v.slots;
  queues = λ j.
      set-IsQueue s.mlq_ready_queue prio _ j (v.queues j) (enqueue-IsValid _ _ (v.queues prio));
  within = v.within;
  running = v.running;
}

-- So do `put_proc` and `add_proc`, ...
pub put_mlq_proc-IsValid :
    (s t : Sched) (proc prio : ℕ) → IsValid s → put_mlq_proc s proc prio ≡ some t → IsValid t
unfolding put_mlq_proc
put_mlq_proc-IsValid s t proc prio v e =
    let same : enqueue_at s proc prio ≡ t = ground arith in
    subst IsValid same (enqueue_at-IsValid s proc prio v)

add_mlq_proc-IsValid :
    (s t : Sched) (proc prio : ℕ) → IsValid s → add_mlq_proc s proc prio ≡ some t → IsValid t
unfolding add_mlq_proc
add_mlq_proc-IsValid s t proc prio v e =
    let same : enqueue_at s proc prio ≡ t = ground arith in
    subst IsValid same (enqueue_at-IsValid s proc prio v)

-- ... and `remove_proc`.
pub remove_proc-IsValid : (s : Sched) (proc : ℕ) → IsValid s → IsValid (remove_proc s proc)
unfolding remove_proc
remove_proc-IsValid s proc v = record {
  levels = v.levels;
  slots = v.slots;
  queues = v.queues;
  within = v.within;
  running = purgequeue-IsValid _ _ v.running;
}
