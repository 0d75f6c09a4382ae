-- ===== src/Tests/Simulation.antt =====
-- A run of two CPUs of src/os.c: the loader readies a process, and the first CPU takes it.
use simple_os_simulator.Prelude.{
  ℕ, ◌+◌, ◌-◌, ◌^◌, ◌≡◌, ◌≢◌, ◌<◌, ◌≤◌, ◌⊎◌, refl, arith, true, none, some, [], get_elem?, length,
}
use simple_os_simulator.Krnl.{Pcb}
use simple_os_simulator.Sched.{
  add_mlq_proc, get_mlq_proc, choose, serve, first_from, budgets, emptied, empty_all,
  init_scheduler,
}
use simple_os_simulator.Queue.{max_queue_size, empty, enqueue, dequeue}
use simple_os_simulator.Sched.Invariant.{IsValid}
use simple_os_simulator.Sched.Occupancy.{queued}
use simple_os_simulator.Cpu.{Junk, run, execute}
use simple_os_simulator.Os.{
  Sys, Cpu, leave, enter_proc, exec_proc, get_proc, ask, init_krnl_mm, take_mm, ready_proc,
  add_proc,
}
use simple_os_simulator.Os.System.{
  System, Reach, start, later, leaving, fetching, allocating, initialising, owning, loading,
  checking, entering,
}
use simple_os_simulator.Os.Exclusion.{
  one_cpu, running_unqueued, reached-leave, reached_sound, exec_advances,
}
use simple_os_simulator.Os.Conservation.{process_kept}
use simple_os_simulator.Tests.Dispatch.{busy}
use simple_os_simulator.Tests.Samples.{ram, region}

abbrev loaded : Pcb
loaded = record busy { pid = 1 }

-- A reached state in which the first CPU runs the process.
record Dispatched : Type 1 where
  state : System
  reach : Reach 2 4 (ram []) (ram []) state
  taken : (state.threads 0).cpu.proc ≡ some 0
  pcb : Pcb
  here : get_elem? state.sys.krnl.procs 0 ≡ some pcb
  unfinished : pcb.pc < length pcb.code
  short : length pcb.code < 2 ^ 32
  few : length state.sys.krnl.procs ≤ max_queue_size

unfoldable dispatched : Dispatched
unfolding init_krnl_mm take_mm ready_proc add_proc add_mlq_proc leave ask get_proc get_mlq_proc
    choose serve first_from budgets emptied empty_all init_scheduler empty enqueue dequeue
dispatched = record {
  state = _;
  reach =
      later
        (later
          (later
            (later (later (later start (allocating refl)) (initialising [] _ refl refl))
              (owning _ refl refl))
            (loading _ loaded 3 _ refl refl (omega arith) refl))
          (leaving 0 true _ _ (omega arith) refl refl))
        (fetching 0 (omega arith) refl);
  taken = refl;
  pcb = _;
  here = refl;
  unfinished = omega arith;
  short = omega arith;
  few = omega arith;
}

-- The other CPU stores its process between the loader's first two steps: the loader makes that process's
-- memory anew, and would next give it to the process it loads too.
record Raced : Type 1 where
  state : System
  reach : Reach 2 4 (ram []) (ram []) state
  other : state.sys.krnl.mm ≡ some 0
  shared : take_mm state.sys ≡ none

raced : Raced
unfolding dispatched init_krnl_mm take_mm ready_proc add_proc add_mlq_proc leave ask get_proc
    get_mlq_proc choose serve first_from budgets emptied empty_all init_scheduler empty enqueue
    dequeue enter_proc
raced = record {
  state = _;
  reach =
      later
        (later (later (later dispatched.reach (checking 0 (omega arith) refl)) (allocating refl))
          (entering 0 0 _ (omega arith) refl refl refl))
        (initialising [] _ refl refl);
  other = refl;
  shared = refl;
}

one_cpu_example : ◌≡◌ {A = ℕ} 0 0
one_cpu_example =
    one_cpu dispatched.reach 0 0 0 (omega arith) (omega arith) dispatched.taken dispatched.taken

running_unqueued_example :
    (queued dispatched.state.sys.sched 0 ≡ 0) × (0 < length dispatched.state.sys.krnl.procs)
running_unqueued_example = running_unqueued dispatched.reach 0 0 (omega arith) dispatched.taken

reached-leave_example : leave (dispatched.state.threads 0).cpu dispatched.state.sys ≢ none
reached-leave_example = reached-leave dispatched.reach 0 (omega arith)

reached_sound_example :
    IsValid dispatched.state.sys.sched
    × ((p q : ℕ) (pcb pcb' : Pcb)
        → get_elem? dispatched.state.sys.krnl.procs p ≡ some pcb
        → get_elem? dispatched.state.sys.krnl.procs q ≡ some pcb'
        → pcb'.pid ≡ pcb.pid
        → q ≡ p)
reached_sound_example = reached_sound dispatched.reach

abbrev pub junk : Junk
junk = record { buffer = 0; rgnode = region 0 0; addr = 0; data_ptr = 0; byte = 0 }

-- The process executes its instruction.
record Executed : Type 0 where
  cpu : Cpu
  sys : Sys
  executed : exec_proc junk 0 4 dispatched.state.sys ≡ some (cpu, sys)

executed : Executed
unfolding exec_proc run execute dispatched init_krnl_mm take_mm ready_proc add_proc add_mlq_proc
    leave ask get_proc
executed = record { cpu = _; sys = _; executed = refl }

process_kept_example :
    (0 < queued dispatched.state.sys.sched 0)
    ⊎ ((i : ℕ) × (i < 2) × ((dispatched.state.threads i).cpu.proc ≡ some 0))
    ⊎ (dispatched.pcb.pc ≡ length dispatched.pcb.code)
process_kept_example = process_kept dispatched.reach dispatched.few 0 dispatched.pcb dispatched.here

exec_advances_example :
    (pcb' : Pcb) × (get_elem? executed.sys.krnl.procs 0 ≡ some pcb')
    × (length pcb'.code - pcb'.pc + 1 ≡ length dispatched.pcb.code - dispatched.pcb.pc)
    × (pcb'.pc ≤ length pcb'.code)
exec_advances_example =
    exec_advances dispatched.reach junk 0 4 executed.cpu executed.sys dispatched.pcb
      executed.executed dispatched.here dispatched.unfinished dispatched.short
