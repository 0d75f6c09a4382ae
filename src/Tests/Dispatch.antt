-- ===== src/Tests/Dispatch.antt =====
-- A CPU of src/os.c at a concrete state.
use simple_os_simulator.Prelude.{ℕ, ◌≡◌, refl, arith, false, some, [], ◌∷◌}
use simple_os_simulator.PageTable.{calloc_table}
use simple_os_simulator.Krnl.{Pcb, Opcode}
use simple_os_simulator.Sched.{get_mlq_proc, enqueue_at}
use simple_os_simulator.Os.{Sys, Cpu, next_proc}
use simple_os_simulator.Os.Dispatch.{next_proc_preempted}
use simple_os_simulator.Tests.Queues.{waiting, waiting-IsValid}
use simple_os_simulator.Tests.Samples.{memory, process, listing, kernel, listing-IsValid}

-- The process has one instruction to go.
abbrev pub busy : Pcb
busy = record (process (memory calloc_table [])) {
  code = record { opcode = Opcode.calc; arg_0 = 0; arg_1 = 0; arg_2 = 0; arg_3 = 0 } ∷ [];
}

abbrev sys : Sys
sys = record {
  sched = waiting listing;
  krnl = record (kernel (memory calloc_table []) listing) { procs = busy ∷ [] };
  done = false;
}

abbrev cpu : Cpu
cpu = record { time_left = 0; proc = some 0 }

next_proc_preempted_example :
    (q : ℕ) × (sys' : Sys) × (next_proc cpu sys ≡ some (record cpu { proc = some q }, sys'))
    × ((get_mlq_proc (enqueue_at sys.sched 0 3)).0 ≡ some q)
next_proc_preempted_example =
    next_proc_preempted cpu sys 0 busy (waiting-IsValid listing listing-IsValid) refl refl
      (omega arith) refl (omega arith)
