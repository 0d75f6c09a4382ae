-- ===== src/Sched/Occupancy.antt =====
-- How often a process stands in the ready queues of src/sched.c, and how each operation changes it.
use simple_os_simulator.Prelude.{
  ℕ, ◌+◌, ◌<◌, ◌≤◌, ◌≡◌, refl, ap, sym, arith, Option, none, some, List, [], ◌∷◌, ◌++◌, ◌∙◌, ◌==◌,
  if◌then◌else◌, times, times-append, get_or-set_self, get_or-set_ne, total, total_same,
  total_change, length, le_total,
}
use simple_os_simulator.Queue.{max_queue_size, enqueue}
use simple_os_simulator.Queue.Laws.{contents, contents-enqueue, pop_front}
use simple_os_simulator.Sched.{Sched, max_prio, no_procs, queue_at, enqueue_at, get_mlq_proc}
use simple_os_simulator.Sched.Invariant.{IsValid, fresh}
use simple_os_simulator.Sched.Priority.{Turn, idle, next, renewed, Served, get_mlq_proc-Turn}

abbrev pub held : ℕ → Option ℕ → ℕ
held p none = 0
held p (some q) = if q == p then 1 else 0

-- In the ready queues all together.
unfoldable pub queued : Sched → ℕ → ℕ
queued s p = total (λ j. times p (contents (queue_at s j))) max_prio

times-pop_front :
    (p : ℕ) (xs : List ℕ) → times p (pop_front xs).1 + held p (pop_front xs).0 ≡ times p xs
unfolding pop_front
times-pop_front p [] = refl
times-pop_front p (x ∷ xs) = omega arith

times-enqueue_le :
    (s : Sched) (p q prio : ℕ)
    → IsValid s
    → times p (contents (enqueue (queue_at s prio) (some q)))
      ≤ times p (contents (queue_at s prio)) + held p (some q)
times-enqueue_le s p q prio v =
    let after = contents-enqueue (queue_at s prio) q (v.queues prio) in
    rw after (ground (arith, times-append p (contents (queue_at s prio)) (q ∷ [])))

-- The count changes as the count of the one queue does.
queued-enqueue_at_change :
    (s : Sched) (p q prio : ℕ)
    → IsValid s
    → prio < max_prio
    → queued (enqueue_at s q prio) p + times p (contents (queue_at s prio))
      ≡ queued s p + times p (contents (enqueue (queue_at s prio) (some q)))
unfolding queued
queued-enqueue_at_change s p q prio v lt =
    let t = enqueue_at s q prio in
    let self =
      get_or-set_self s.mlq_ready_queue prio (enqueue (queue_at s prio) (some q)) no_procs
        (rw v.levels lt) in
    let change =
      total_change (λ j. times p (contents (queue_at s j))) (λ j. times p (contents (queue_at t j)))
        max_prio prio lt
        (λ j ne.
          ap (λ w. times p (contents w))
            (get_or-set_ne s.mlq_ready_queue prio j _ no_procs (λ e. ne (sym e)))) in
    let at : times p (contents (queue_at t prio))
        ≡ times p (contents (enqueue (queue_at s prio) (some q))) =
      ap (λ w. times p (contents w)) self in
    omega (arith, change, at)

-- A process that is put into a queue is counted once more at most, ...
pub queued-enqueue_at_le :
    (s : Sched) (p q prio : ℕ)
    → IsValid s
    → prio < max_prio
    → queued (enqueue_at s q prio) p ≤ queued s p + held p (some q)
queued-enqueue_at_le s p q prio v lt =
    omega (arith, queued-enqueue_at_change s p q prio v lt, times-enqueue_le s p q prio v)

-- ... and exactly once more where the queue has room.
pub queued-enqueue_at :
    (s : Sched) (p q prio : ℕ)
    → IsValid s
    → prio < max_prio
    → length (contents (queue_at s prio)) < max_queue_size
    → queued (enqueue_at s q prio) p ≡ queued s p + held p (some q)
queued-enqueue_at s p q prio v lt room =
    let after = contents-enqueue (queue_at s prio) q (v.queues prio) in
    let longer : contents (enqueue (queue_at s prio) (some q))
        ≡ contents (queue_at s prio) ++ q ∷ [] =
      after ∙ ground (arith, room) in
    let at : times p (contents (enqueue (queue_at s prio) (some q)))
        ≡ times p (contents (queue_at s prio) ++ q ∷ []) =
      ap (times p) longer in
    ground (
      arith,
      queued-enqueue_at_change s p q prio v lt,
      at,
      times-append p (contents (queue_at s prio)) (q ∷ []),
    )

-- A queue holds a process at most as often as all of them.
pub times-queue_le :
    (s : Sched) (p prio : ℕ) → prio < max_prio → times p (contents (queue_at s prio)) ≤ queued s p
unfolding queued
times-queue_le s p prio lt = le_total (λ j. times p (contents (queue_at s j))) max_prio prio lt

queued-Served :
    (s : Sched) (p prio : ℕ) (r : Option ℕ × Sched)
    → prio < max_prio
    → Served s prio r
    → queued r.1 p + held p r.0 ≡ queued s p
unfolding queued
queued-Served s p prio r lt served =
    let change =
      total_change (λ j. times p (contents (queue_at s j)))
        (λ j. times p (contents (queue_at r.1 j))) max_prio prio lt
        (λ j ne. ap (λ w. times p (contents w)) (served.queues j (λ e. ne (sym e)))) in
    let front = times-pop_front p (contents (queue_at s prio)) in
    let proc : held p r.0 ≡ held p (pop_front (contents (queue_at s prio))).0 =
      ap (λ t. held p t.0) served.oldest in
    let rest : times p (contents (queue_at r.1 prio))
        ≡ times p (pop_front (contents (queue_at s prio))).1 =
      ap (λ t. times p t.1) served.oldest in
    omega (arith, change, front, proc, rest)

queued-Turn :
    (s : Sched) (p : ℕ) (r : Option ℕ × Sched) → Turn s r → queued r.1 p + held p r.0 ≡ queued s p
unfolding queued
queued-Turn s p r (idle e h k) =
    let same =
      total_same (λ j. times p (contents (queue_at r.1 j))) (λ j. times p (contents (queue_at s j)))
        max_prio (λ j lt. ap (λ w. times p (contents w)) (k j).0) in
    omega (arith, same, ap (held p) e)
queued-Turn s p r (next prio a b c d w) = queued-Served s p prio r a w
queued-Turn s p r (renewed prio a b c d w) = queued-Served (fresh s) p prio r a w

-- The process that `get_proc` gives is counted once less in the queues, every other as before.
pub queued-get_mlq_proc :
    (s : Sched) (p : ℕ)
    → IsValid s
    → queued (get_mlq_proc s).1 p + held p (get_mlq_proc s).0 ≡ queued s p
queued-get_mlq_proc s p v = queued-Turn s p (get_mlq_proc s) (get_mlq_proc-Turn s v)
