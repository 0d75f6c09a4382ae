-- ===== src/Os/Dispatch.antt =====
-- The dispatch of a CPU thread of src/os.c over the scheduler of src/sched.c.
use simple_os_simulator.Prelude.{
  ℕ, ◌<◌, ◌≡◌, ◌≢◌, ap, sym, ◌∙◌, inl, inr, arith, some, [], ◌∷◌, length, get_elem?,
  get_or-set_self, length-append, Option-cases,
}
use simple_os_simulator.Queue.{enqueue}
use simple_os_simulator.Queue.Laws.{contents, contents-enqueue}
use simple_os_simulator.Sched.{
  Sched, max_prio, no_procs, queue_at, enqueue_at, get_mlq_proc, put_mlq_proc,
}
use simple_os_simulator.Sched.Invariant.{IsValid, put_mlq_proc-IsValid}
use simple_os_simulator.Sched.Priority.{get_mlq_proc-none_iff}
use simple_os_simulator.Krnl.{Pcb}
use simple_os_simulator.Os.{leave, ask, Sys, Cpu, get_proc, put_proc, next_proc}

-- A queue that was just given a process is not empty, even where it was full.
enqueue_at_filled :
    (s : Sched) (p prio : ℕ)
    → IsValid s
    → prio < max_prio
    → contents (queue_at (enqueue_at s p prio) prio) ≢ []
enqueue_at_filled s p prio v h e =
    let self =
      get_or-set_self s.mlq_ready_queue prio (enqueue (queue_at s prio) (some p)) no_procs
        (rw v.levels h) in
    let after = contents-enqueue (queue_at s prio) p (v.queues prio) in
    let nothing : contents (enqueue (queue_at s prio) (some p)) ≡ [] = sym (ap contents self) ∙ e in
    let size : length (contents (enqueue (queue_at s prio) (some p))) ≡ 0 = ap length nothing in
    ground (arith, after, size, length-append (contents (queue_at s prio)) (p ∷ []))

get_mlq_proc-some :
    (s : Sched) (prio : ℕ)
    → IsValid s
    → prio < max_prio
    → contents (queue_at s prio) ≢ []
    → (q : ℕ) × ((get_mlq_proc s).0 ≡ some q)
get_mlq_proc-some s prio v h filled = elim (Option-cases (get_mlq_proc s).0) [
  | inl nothing ↦ absurd (filled ((get_mlq_proc-none_iff s v).0 nothing prio h))
  | inr (q, e) ↦ (q, e)
]

-- In a valid state a CPU whose process has used its slot up, has not finished and has a priority
-- below 140 always gets a process for the next round, the one that the scheduler gives after that
-- process was queued.
pub next_proc_preempted :
    (cpu : Cpu) (sys : Sys) (p : ℕ) (pcb : Pcb)
    → IsValid sys.sched
    → cpu.proc ≡ some p
    → get_elem? sys.krnl.procs p ≡ some pcb
    → pcb.pc ≢ length pcb.code
    → cpu.time_left ≡ 0
    → pcb.prio < max_prio
    → (q : ℕ) × (sys' : Sys) × (next_proc cpu sys ≡ some (record cpu { proc = some q }, sys'))
      × ((get_mlq_proc (enqueue_at sys.sched p pcb.prio)).0 ≡ some q)
unfolding next_proc leave ask put_proc get_proc put_mlq_proc
next_proc_preempted cpu sys p pcb v on here unfinished over prio =
    let s : Sched = enqueue_at sys.sched p pcb.prio in
    let put : put_mlq_proc sys.sched p pcb.prio ≡ some s = ground (arith, prio) in
    let valid = put_mlq_proc-IsValid sys.sched s p pcb.prio v put in
    let (q, e) =
      get_mlq_proc-some s pcb.prio valid prio (enqueue_at_filled sys.sched p pcb.prio v prio) in
    let readied : Sys = record sys {
      sched = s;
      krnl = record sys.krnl { running_list = some s.running_list };
    } in
    (q, (get_proc readied).1, ground (arith, on, here, unfinished, over, prio, e), e)
