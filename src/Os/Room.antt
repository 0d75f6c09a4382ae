-- ===== src/Os/Room.antt =====
-- The lengths of the ready queues of src/sched.c against the number of processes of the system.
use simple_os_simulator.Prelude.{
  ℕ, ◌<◌, ◌≤◌, ◌≡◌, ap, arith, Option, none, some, length, get_elem?_past, times, total, total_le,
  total_lt, total-times,
}
use mathlib.Core.Option
use simple_os_simulator.Queue.Laws.{contents}
use simple_os_simulator.Sched.{Sched, max_prio, queue_at}
use simple_os_simulator.Sched.Occupancy.{queued, times-queue_le}
use simple_os_simulator.Krnl.{Krnl}
use simple_os_simulator.Krnl.Labels.{Label, label, label_at}
use simple_os_simulator.Os.Occupancy.{one_if, present}

pub one_if_le : (o : Option Label) → one_if o ≤ 1
one_if_le none = omega arith
one_if_le (some i) = omega arith

pub present_past : (k : Krnl) (p : ℕ) → length k.procs ≤ p → present k p ≡ 0
present_past k p past = ap one_if (ap (Option.map label) (get_elem?_past k.procs p past))

module _ (s : Sched) (k : Krnl) (once : (q : ℕ) → queued s q ≤ present k q) (prio : ℕ)
    (lt : prio < max_prio) where
  counted :
      total (λ q. times q (contents (queue_at s prio))) (length k.procs)
      ≡ length (contents (queue_at s prio))
  counted =
      total-times (contents (queue_at s prio)) (length k.procs)
        (λ q past. omega (arith, times-queue_le s q prio lt, once q, present_past k q past))

  at_most_once : (q : ℕ) → times q (contents (queue_at s prio)) ≤ 1
  at_most_once q = omega (arith, times-queue_le s q prio lt, once q, one_if_le (label_at k q))

  -- A queue is as long as there are processes at most, ...
  pub contents_le : length (contents (queue_at s prio)) ≤ length k.procs
  contents_le = omega (
    arith,
    counted,
    total_le (λ q. times q (contents (queue_at s prio))) (length k.procs) at_most_once,
  )

  -- ... and shorter where a process is in none.
  pub contents_lt :
      (p : ℕ)
      → p < length k.procs
      → queued s p ≡ 0
      → length (contents (queue_at s prio)) < length k.procs
  contents_lt p inside absent =
      let out : times p (contents (queue_at s prio)) ≡ 0 =
        omega (arith, times-queue_le s p prio lt, absent) in
      omega (
        arith,
        counted,
        total_lt (λ q. times q (contents (queue_at s prio))) (length k.procs) p at_most_once inside
            out,
      )
