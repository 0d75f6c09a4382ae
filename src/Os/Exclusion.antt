-- ===== src/Os/Exclusion.antt =====
-- The interleavings of src/os.c: the invariant of the reached states, and what follows for the CPUs, the
-- processes and the scheduler.
use simple_os_simulator.Prelude.{
  ℕ, ◌+◌, ◌-◌, ◌^◌, ◌<◌, ◌≤◌, ◌≡◌, ◌≢◌, refl, ap, subst, inl, inr, arith, none, some, Option-cases,
  length, get_elem?-within, update, update_self, update_ne, total_change, le_total, le_total_two,
  total_zero, get_elem?,
}
use mathlib.Core.Option
use native.Mathlib.Decide.{ℕ_discrete, dec_lt}
use simple_os_simulator.Memphy.{Memphy}
use simple_os_simulator.Sched.{put_mlq_proc}
use simple_os_simulator.Sched.Invariant.{IsValid}
use simple_os_simulator.Sched.Occupancy.{held, queued}
use simple_os_simulator.Sched.Start.{init_scheduler_empty}
use simple_os_simulator.Krnl.{Krnl, Pcb}
use simple_os_simulator.Krnl.Labels.{label, label_at}
use simple_os_simulator.Cpu.{Junk, run}
use simple_os_simulator.Cpu.Isolation.{Ran, run-Ran, next_pc}
use simple_os_simulator.Os.{Sys, Cpu, alloc_mm, leave, put_proc, exec_proc}
use simple_os_simulator.Os.Leave.{leave-Left}
use simple_os_simulator.Os.System.{
  Thread, System, Step, Setup, leaving, fetching, checking, allocating, initialising, owning,
  entering, running, loading, closing, Reach, zeroed, boot, start, later,
}
use simple_os_simulator.Os.Occupancy.{
  one_if, present, places, IsSound, Kept, Kept-refl, leave-Kept, ask-Kept, enter-Kept, exec-Kept,
}
use simple_os_simulator.Os.Setup.{Quiet, alloc_mm-Quiet, init_krnl_mm-Quiet, IsSound-Quiet}
use simple_os_simulator.Os.Room.{one_if_le, present_past}
use simple_os_simulator.Os.Admission.{ready_proc-Joined, boot-IsSound}

-- The shared state is sound, and a process of the system is in one place at most, anything else in none.
pub record Inv (n : ℕ) (s : System) : Type 0 where
  pub sound : IsSound s.avail_pid s.sys
  pub once : (p : ℕ) → places n s p ≤ present s.sys.krnl p

boot-Inv : (n : ℕ) (mram active_mswp : Memphy) → Inv n (boot mram active_mswp)
boot-Inv n mram active_mswp = record {
  sound = boot-IsSound mram active_mswp;
  once = λ p.
      let none_run = total_zero (λ i. 0) n (λ i lt. refl) in
      omega (arith, init_scheduler_empty zeroed p, none_run);
}

-- A step of one thread that keeps what it should keeps the invariant.
Kept-Inv :
    (n : ℕ) (s : System) (i : ℕ) (t : Thread) (sys : Sys)
    → i < n
    → Inv n s
    → Kept s.avail_pid (s.threads i).cpu s.sys (t.cpu, sys)
    → Inv n (record s { sys = sys; threads = update s.threads i t })
Kept-Inv n s i t sys lt inv kept = record {
  sound = kept.sound;
  once = λ p.
      let change =
        total_change (λ j. held p (s.threads j).cpu.proc)
          (λ j. held p (update s.threads i t j).cpu.proc) n i lt
          (λ j ne. ap (λ u. held p u.cpu.proc) (update_ne s.threads i t j ne)) in
      let here : held p (update s.threads i t i).cpu.proc ≡ held p t.cpu.proc =
        ap (λ u. held p u.cpu.proc) (update_self s.threads i t) in
      let same : present sys.krnl p ≡ present s.sys.krnl p = ap one_if (kept.idents p) in
      omega (arith, change, here, same, kept.fewer p, inv.once p);
}

-- A step that leaves the scheduler and the labels keeps it too.
Quiet-Inv :
    (n : ℕ) (s : System) (sys : Sys) (l : Setup)
    → Quiet s.sys sys
    → Inv n s
    → Inv n (record s { sys = sys; loader = l })
Quiet-Inv n s sys l quiet inv = record {
  sound = IsSound-Quiet s.avail_pid s.sys sys quiet inv.sound;
  once = λ p.
      let waits = ap (λ q. queued q p) quiet.sched in
      let same : present sys.krnl p ≡ present s.sys.krnl p = ap one_if (quiet.labels p) in
      omega (arith, waits, same, inv.once p);
}

pub Step-Inv : {n time_slot : ℕ} {s t : System} → Step n time_slot s t → Inv n s → Inv n t
Step-Inv {n} {s = s} (leaving i asks cpu sys lt at e) inv =
    Kept-Inv n s i _ sys lt inv (
      leave-Kept s.avail_pid (s.threads i).cpu cpu s.sys sys asks inv.sound
        (leave-Left _ _ _ _ _ e))
Step-Inv {n} {s = s} (fetching i lt at) inv =
    Kept-Inv n s i _ _ lt inv (ask-Kept s.avail_pid (s.threads i).cpu s.sys inv.sound)
Step-Inv {n} {s = s} (entering i p sys lt at on e) inv =
    Kept-Inv n s i _ sys lt inv
      (enter-Kept s.avail_pid (s.threads i).cpu s.sys sys p _ inv.sound on e)
Step-Inv {n} {s = s} (running i p junk cpu sys lt at on e) inv =
    Kept-Inv n s i _ sys lt inv
      (exec-Kept s.avail_pid (s.threads i).cpu cpu s.sys sys junk p _ inv.sound on e)
Step-Inv {n} {s = s} (checking i lt at) inv =
    Kept-Inv n s i _ s.sys lt inv (Kept-refl s.avail_pid (s.threads i).cpu s.sys inv.sound)
Step-Inv {n} {s = s} (allocating at) inv =
    Quiet-Inv n s (alloc_mm s.sys) Setup.allocated (alloc_mm-Quiet s.sys) inv
Step-Inv {n} {s = s} (initialising symrgtbl sys at e) inv =
    Quiet-Inv n s sys Setup.initialised (init_krnl_mm-Quiet symrgtbl s.sys sys e) inv
Step-Inv (owning own_mm at e) inv = record { sound = inv.sound; once = inv.once }
Step-Inv {n} {s = s} (loading own_mm pcb prio sys at fresh small e) inv =
    let joined = ready_proc-Joined s.avail_pid own_mm s.sys sys pcb prio inv.sound fresh e in
    record { sound = joined.sound; once = λ p. omega (arith, joined.fewer p, inv.once p) }
Step-Inv closing inv = record {
  sound = record {
    sched = inv.sound.sched;
    one_list = inv.sound.one_list;
    pids = inv.sound.pids;
    prios = inv.sound.prios;
    unique = inv.sound.unique;
  };
  once = inv.once;
}

present_lt : (k : Krnl) (p : ℕ) → present k p ≡ 1 → p < length k.procs
present_lt k p h = elim (dec_lt p (length k.procs)) [
  | yes lt ↦ lt
  | no past ↦ absurd (omega (arith, h, present_past k p (omega (arith, past))))
]

-- The part of a round before `get_proc` is defined on a process of the system.
leave_defined :
    (a : ℕ) (cpu : Cpu) (sys : Sys)
    → IsSound a sys
    → ((p : ℕ) → cpu.proc ≡ some p → p < length sys.krnl.procs)
    → leave cpu sys ≢ none
unfolding leave put_proc put_mlq_proc
leave_defined a cpu sys sound on e = elim (Option-cases cpu.proc) [
  | inl h ↦ ground (arith, e, h)
  | inr (p, h) ↦ elim (Option-cases (get_elem? sys.krnl.procs p)) [
    | inl gone ↦ absurd (get_elem?-within sys.krnl.procs p (on p h) gone)
    | inr (pcb, here) ↦
        let small = sound.prios p (label pcb) (ap (Option.map label) here) in
        ground (arith, e, h, here, small)
  ]
]

pub exec_proc-Ran :
    (a : ℕ) (junk : Junk) (p time_left : ℕ) (cpu : Cpu) (sys sys' : Sys)
    → IsSound a sys
    → exec_proc junk p time_left sys ≡ some (cpu, sys')
    → Ran p sys.krnl sys'.krnl × (sys'.sched ≡ sys.sched)
unfolding exec_proc
exec_proc-Ran a junk p time_left cpu sys sys' sound e = elim (Option-cases (run junk p sys.krnl)) [
  | inl h ↦ absurd (ground (arith, e, h))
  | inr ((st, k), h) ↦
      let ran =
        run-Ran p junk sys.krnl st k (λ i j q hp hq same. sound.unique p q i j hp hq same) h in
      (subst (Ran p sys.krnl) (ground (arith, e, h)) ran, ground (arith, e, h))
]

pub Reach-Inv :
    {n time_slot : ℕ} {mram active_mswp : Memphy} {s : System}
    → Reach n time_slot mram active_mswp s
    → Inv n s
Reach-Inv {n} {mram = mram} {active_mswp = active_mswp} start = boot-Inv n mram active_mswp
Reach-Inv (later r st) = Step-Inv st (Reach-Inv r)

module _ {n time_slot : ℕ} {mram active_mswp : Memphy} {s : System}
    (r : Reach n time_slot mram active_mswp s) where
  -- In a state that any interleaving of n CPUs and the loader reaches, as long as no two processes
  -- get one memory, two CPUs below n that have the same process are the same CPU.
  pub one_cpu :
      (i j p : ℕ)
      → i < n
      → j < n
      → (s.threads i).cpu.proc ≡ some p
      → (s.threads j).cpu.proc ≡ some p
      → i ≡ j
  one_cpu i j p hi hj on_i on_j = elim (ℕ_discrete i j) [
    | yes e ↦ e
    | no ne ↦ absurd (
        grind (
          arith,
          le_total_two (λ k. held p (s.threads k).cpu.proc) n i j hi hj ne,
          (Reach-Inv r).once p,
          one_if_le (label_at s.sys.krnl p),
          ap (held p) on_i,
          ap (held p) on_j,
        ))
  ]

  -- In a state that any interleaving of n CPUs and the loader reaches, as long as no two processes
  -- get one memory, a process that a CPU below n has stands in no ready queue and is a process of
  -- the system.
  pub running_unqueued :
      (i p : ℕ)
      → i < n
      → (s.threads i).cpu.proc ≡ some p
      → (queued s.sys.sched p ≡ 0) × (p < length s.sys.krnl.procs)
  running_unqueued i p lt on =
      let most = one_if_le (label_at s.sys.krnl p) in
      let least = le_total (λ k. held p (s.threads k).cpu.proc) n i lt in
      (
        grind (arith, most, least, (Reach-Inv r).once p, ap (held p) on),
        present_lt s.sys.krnl p (grind (arith, most, least, (Reach-Inv r).once p, ap (held p) on)),
      )

  -- In a state that any interleaving of n CPUs and the loader reaches, as long as no two processes
  -- get one memory, the part of a round of a CPU below n before get_proc is defined: no control
  -- block and no queue outside its array is read.
  pub reached-leave : (i : ℕ) → i < n → leave (s.threads i).cpu s.sys ≢ none
  reached-leave i lt =
      leave_defined s.avail_pid (s.threads i).cpu s.sys (Reach-Inv r).sound
        (λ p on. (running_unqueued i p lt on).1)

  -- In a state that any interleaving of n CPUs and the loader reaches, as long as no two processes
  -- get one memory, the scheduler's invariant holds (array lengths, queue sizes within their
  -- arrays, slots within their budgets), and two processes with the same pid are the same process.
  pub reached_sound :
      IsValid s.sys.sched
      × ((p q : ℕ) (pcb pcb' : Pcb)
          → get_elem? s.sys.krnl.procs p ≡ some pcb
          → get_elem? s.sys.krnl.procs q ≡ some pcb'
          → pcb'.pid ≡ pcb.pid
          → q ≡ p)
  reached_sound = (
    (Reach-Inv r).sound.sched,
    λ p q pcb pcb' hp hq e.
        (Reach-Inv r).sound.unique p q (label pcb) (label pcb') (ap (Option.map label) hp)
          (ap (Option.map label) hq) e,
  )

  -- In a state that any interleaving of n CPUs and the loader reaches, as long as no two processes
  -- get one memory, an instruction that a CPU executes for a process that is not at the end of its
  -- code, of less than 2 ^ 32 instructions, brings it one instruction nearer to the end, whatever
  -- the instruction does.
  pub exec_advances :
      (junk : Junk) (p time_left : ℕ) (cpu : Cpu) (sys : Sys) (pcb : Pcb)
      → exec_proc junk p time_left s.sys ≡ some (cpu, sys)
      → get_elem? s.sys.krnl.procs p ≡ some pcb
      → pcb.pc < length pcb.code
      → length pcb.code < 2 ^ 32
      → (pcb' : Pcb) × (get_elem? sys.krnl.procs p ≡ some pcb')
        × (length pcb'.code - pcb'.pc + 1 ≡ length pcb.code - pcb.pc)
        × (pcb'.pc ≤ length pcb'.code)
  exec_advances junk p time_left cpu sys pcb e here inside small =
      let (ran, same) =
        exec_proc-Ran s.avail_pid junk p time_left cpu s.sys sys (Reach-Inv r).sound e in
      let (pcb', there, pc, code) = ran.counted pcb here in
      let next : next_pc pcb ≡ pcb.pc + 1 = elim (Option-cases (get_elem? pcb.code pcb.pc)) [
        | inl gone ↦ absurd (get_elem?-within pcb.code pcb.pc inside gone)
        | inr (ins, at) ↦ rw (next_pc, at) (omega (arith, inside, small))
      ] in
      let long = ap length code in
      (pcb', there, omega (arith, pc, next, long, inside), omega (arith, pc, next, long, inside))
