-- ===== src/Os/System.antt =====
-- The simulator of src/os.c as a step relation: `n` CPU threads and the loader over the shared state,
-- interleaved in any order. A CPU thread's round has the steps before `get_proc`, `get_proc`, the read of
-- `done`, the store to `krnl->mm`, and `run`; a step of `run` is one instruction, and steps of two threads
-- do not overlap. The loader makes a process in four steps, each of which finds `krnl->mm` as a CPU may
-- have left it: `init_mm` may overwrite the memory of a process that a CPU has stored there. An interleaving
-- is followed until the loader would give two processes one memory: its third step is possible only where
-- `krnl->mm` is the memory that it made. The order that the timer imposes on the threads is not used: what
-- holds of all interleavings holds of those.
use simple_os_simulator.Prelude.{
  ℕ, ◌+◌, ◌^◌, ◌<◌, ◌≡◌, Bool, true, false, none, some, List, [], if◌then◌else◌, replicate, update,
}
use simple_os_simulator.Sched.{Sched, max_prio, no_procs, init_scheduler}
use simple_os_simulator.Memphy.{Memphy}
use simple_os_simulator.Mm.{Mm, Rg}
use simple_os_simulator.Krnl.{Pcb}
use simple_os_simulator.Cpu.{Junk}
use simple_os_simulator.Os.{
  Sys, Cpu, leave, ask, slot_of, enter_proc, exec_proc, alloc_mm, init_krnl_mm, take_mm, ready_proc,
}

-- Where a CPU thread stands: at the head of the loop, before `get_proc`, before it reads `done`, before the
-- store to `krnl->mm`, before `run`, or past the loop.
pub data Phase : Type 0 where
  top asking fetched picked entered gone : Phase

pub record Thread : Type 0 where
  pub cpu : Cpu
  pub phase : Phase

-- Where the loader stands: before it makes a memory, before `init_mm`, before it takes `krnl->mm` for the
-- process, or before `add_proc`.
pub data Setup : Type 0 where
  waiting allocated initialised : Setup
  owned : Mm → Setup

-- `avail_pid` of src/loader.c is the pid of the next process.
pub record System : Type 0 where
  pub sys : Sys
  pub threads : ℕ → Thread
  pub loader : Setup
  pub avail_pid : ℕ

-- The thread after it has read `done`: without a process it goes on, or stops if the loader is done.
abbrev pub asked : Cpu → Bool → Thread
asked cpu done = record {
  cpu = cpu;
  phase = elim cpu.proc [ none ↦ if done then Phase.gone else Phase.top | some _ ↦ Phase.picked ];
}

pub data Step (n time_slot : ℕ) (s : System) : System → Type 0 where
  leaving :
      (i : ℕ) (asks : Bool) (cpu : Cpu) (sys : Sys)
      → i < n
      → (s.threads i).phase ≡ Phase.top
      → leave (s.threads i).cpu s.sys ≡ some (asks, cpu, sys)
      → Step n time_slot s (record s {
        sys = sys;
        threads =
            update s.threads i
              (record { cpu = cpu; phase = if asks then Phase.asking else Phase.picked });
      })
  fetching :
      (i : ℕ)
      → i < n
      → (s.threads i).phase ≡ Phase.asking
      → Step n time_slot s (record s {
        sys = (ask (s.threads i).cpu s.sys).1;
        threads =
            update s.threads i
              (record { cpu = (ask (s.threads i).cpu s.sys).0; phase = Phase.fetched });
      })
  checking :
      (i : ℕ)
      → i < n
      → (s.threads i).phase ≡ Phase.fetched
      → Step n time_slot s
          (record s { threads = update s.threads i (asked (s.threads i).cpu s.sys.done) })
  entering :
      (i p : ℕ) (sys : Sys)
      → i < n
      → (s.threads i).phase ≡ Phase.picked
      → (s.threads i).cpu.proc ≡ some p
      → enter_proc p s.sys ≡ some sys
      → Step n time_slot s (record s {
        sys = sys;
        threads = update s.threads i (record {
          cpu = record { time_left = slot_of time_slot (s.threads i).cpu; proc = some p };
          phase = Phase.entered;
        });
      })
  running :
      (i p : ℕ) (junk : Junk) (cpu : Cpu) (sys : Sys)
      → i < n
      → (s.threads i).phase ≡ Phase.entered
      → (s.threads i).cpu.proc ≡ some p
      → exec_proc junk p (s.threads i).cpu.time_left s.sys ≡ some (cpu, sys)
      → Step n time_slot s (record s {
        sys = sys;
        threads = update s.threads i (record { cpu = cpu; phase = Phase.top });
      })
  allocating :
      s.loader ≡ Setup.waiting
      → Step n time_slot s (record s { sys = alloc_mm s.sys; loader = Setup.allocated })
  initialising :
      (symrgtbl : List Rg) (sys : Sys)
      → s.loader ≡ Setup.allocated
      → init_krnl_mm symrgtbl s.sys ≡ some sys
      → Step n time_slot s (record s { sys = sys; loader = Setup.initialised })
  owning :
      (own_mm : Mm)
      → s.loader ≡ Setup.initialised
      → take_mm s.sys ≡ some own_mm
      → Step n time_slot s (record s { loader = Setup.owned own_mm })
  loading :
      (own_mm : Mm) (pcb : Pcb) (prio : ℕ) (sys : Sys)
      → s.loader ≡ Setup.owned own_mm
      → pcb.pid ≡ s.avail_pid
      → s.avail_pid + 1 < 2 ^ 32
      → ready_proc own_mm s.sys pcb prio ≡ some sys
      → Step n time_slot s
          (record s { sys = sys; loader = Setup.waiting; avail_pid = s.avail_pid + 1 })
  closing : Step n time_slot s (record s { sys = record s.sys { done = true } })

-- The static variables of src/sched.c before `init_scheduler`.
abbrev pub zeroed : Sched
zeroed = record {
  ready_queue = no_procs;
  run_queue = no_procs;
  running_list = no_procs;
  mlq_ready_queue = replicate max_prio no_procs;
  slot = replicate max_prio 0;
}

-- `main` before it starts the threads.
abbrev pub boot : Memphy → Memphy → System
boot mram active_mswp = record {
  sys = record {
    sched = init_scheduler zeroed;
    krnl = record {
      procs = [];
      running_list = none;
      mm = none;
      fresh = none;
      mram = mram;
      active_mswp = active_mswp;
    };
    done = false;
  };
  threads = λ _. record { cpu = record { time_left = 0; proc = none }; phase = Phase.top };
  loader = Setup.waiting;
  avail_pid = 1;
}

pub data Reach (n time_slot : ℕ) (mram active_mswp : Memphy) : System → Type 0 where
  start : Reach n time_slot mram active_mswp (boot mram active_mswp)
  later :
      {s t : System}
      → Reach n time_slot mram active_mswp s
      → Step n time_slot s t
      → Reach n time_slot mram active_mswp t
