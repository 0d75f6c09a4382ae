-- ===== src/Os.antt =====
-- src/os.c: the body of a CPU thread, `cpu_routine`, one round of its loop at a time, and the parts of
-- `ld_routine` that ready a loaded process. Each call of the scheduler and of `run` is one
-- step, and printing and the barrier with the timer are left out. The scheduler's `running_list` and
-- the kernel's are the same object once a process was added: `linked` copies it.
pub mod Dispatch
pub mod System
pub mod Leave
pub mod Occupancy
pub mod Admission
pub mod Exclusion
pub mod Room
pub mod Setup
pub mod Stays
pub mod Conservation
pub mod Loading
pub mod Config
pub mod Main
use simple_os_simulator.Prelude.{
  ℕ, ◌+◌, ◌-◌, ◌^◌, Bool, true, false, Option, none, some, List, ◌++◌, [], ◌∷◌, ltb, ◌==◌,
  if◌then◌else◌, length, get_elem?, set,
}
use simple_os_simulator.Prelude.Word.{u32}
use simple_os_simulator.Sched.{Sched, get_mlq_proc, put_mlq_proc, add_mlq_proc, remove_proc}
use simple_os_simulator.Mm.{Mm, Rg, init_mm}
use simple_os_simulator.Krnl.{Krnl, Pcb}
use simple_os_simulator.Cpu.{Junk, run}

-- The globals that the threads share.
pub record Sys : Type 0 where
  pub sched : Sched
  pub krnl : Krnl
  pub done : Bool

-- The locals of a CPU thread; `time_left` is an `int` pattern.
pub record Cpu : Type 0 where
  pub time_left : ℕ
  pub proc : Option ℕ

-- How a round of the loop ends: with `break`, with `continue`, or after `run`.
data Round : Type 0 where
  stopped idle ran : Round

-- `krnl->running_list` is `&running_list`, or NULL as long as no process was added.
abbrev pub linked : Sched → Krnl → Krnl
linked s k = record k {
  running_list = elim k.running_list [ none ↦ none | some _ ↦ some s.running_list ];
}

unfoldable pub get_proc : Sys → Option ℕ × Sys
get_proc sys =
    let (p, s) = get_mlq_proc sys.sched in (p, record sys { sched = s; krnl = linked s sys.krnl })

unfoldable pub put_proc : Sys → ℕ → ℕ → Option Sys
put_proc sys p prio = elim (put_mlq_proc sys.sched p prio) [
  | none ↦ none
  | some s ↦
      some (record sys { sched = s; krnl = record sys.krnl { running_list = some s.running_list } })
]

unfoldable pub add_proc : Sys → ℕ → ℕ → Option Sys
add_proc sys p prio = elim (add_mlq_proc sys.sched p prio) [
  | none ↦ none
  | some s ↦
      some (record sys { sched = s; krnl = record sys.krnl { running_list = some s.running_list } })
]

unfoldable pub drop_proc : Sys → ℕ → Sys
drop_proc sys p =
    let s = remove_proc sys.sched p in record sys { sched = s; krnl = linked s sys.krnl }

-- The part of the loop before `get_proc`: a process that has finished is removed, and one whose slot is
-- over is put back. `true` means that `proc = get_proc()` follows; until then `proc` is not read.
unfoldable pub leave : Cpu → Sys → Option (Bool × Cpu × Sys)
leave cpu sys = elim cpu.proc [
  | none ↦ some (true, cpu, sys)
  | some p ↦ elim (get_elem? sys.krnl.procs p) [
    | none ↦ none
    | some pcb ↦
        if pcb.pc == length pcb.code
        then some (true, record { time_left = 0; proc = none }, drop_proc sys p)
        else if cpu.time_left == 0
        then elim (put_proc sys p pcb.prio) [
          | none ↦ none
          | some sys' ↦ some (true, record cpu { proc = none }, sys')
        ]
        else some (false, cpu, sys)
  ]
]

-- `proc = get_proc()`
unfoldable pub ask : Cpu → Sys → Cpu × Sys
ask cpu sys = let (p, sys') = get_proc sys in (record cpu { proc = p }, sys')

-- The process for this round. `none` is undefined behaviour.
unfoldable pub next_proc : Cpu → Sys → Option (Cpu × Sys)
next_proc cpu sys = elim (leave cpu sys) [
  | none ↦ none
  | some (asks, cpu', sys') ↦ if asks then some (ask cpu' sys') else some (cpu', sys')
]

-- "Dispatched": a new slot.
abbrev pub slot_of : ℕ → Cpu → ℕ
slot_of time_slot cpu = if cpu.time_left == 0 then time_slot else cpu.time_left

-- `proc->krnl->mm = proc->own_mm`, where the process has a memory.
unfoldable pub enter_proc : ℕ → Sys → Option Sys
enter_proc p sys = elim (get_elem? sys.krnl.procs p) [
  | none ↦ none
  | some pcb ↦ some (elim pcb.own_mm [
    | none ↦ sys
    | some _ ↦ record sys { krnl = record sys.krnl { mm = some p } }
  ])
]

-- `run(proc); time_left--;`
unfoldable pub exec_proc : Junk → ℕ → ℕ → Sys → Option (Cpu × Sys)
exec_proc junk p time_left sys = elim (run junk p sys.krnl) [
  | none ↦ none
  | some (_, k') ↦ some (
    record { time_left = u32 (time_left + (2 ^ 32 - 1)); proc = some p },
    record sys { krnl = k' },
  )
]

unfoldable run_proc : Junk → ℕ → ℕ → Sys → Option (Cpu × Sys)
run_proc junk p time_left sys = elim (enter_proc p sys) [
  | none ↦ none
  | some sys' ↦ exec_proc junk p time_left sys'
]

-- One round of the loop of `cpu_routine`.
unfoldable cpu_round : Junk → ℕ → Cpu → Sys → Option (Round × Cpu × Sys)
cpu_round junk time_slot cpu sys = elim (next_proc cpu sys) [
  | none ↦ none
  | some (cpu', sys') ↦ elim cpu'.proc [
    | none ↦ some (if sys'.done then Round.stopped else Round.idle, cpu', sys')
    | some p ↦ elim (run_proc junk p (slot_of time_slot cpu') sys') [
      | none ↦ none
      | some (cpu'', sys'') ↦ some (Round.ran, cpu'', sys'')
    ]
  ]
]

-- `krnl->mm = malloc(...)` of `ld_routine`, for the process that is to join; nothing is written there yet.
abbrev pub alloc_mm : Sys → Sys
alloc_mm sys = record sys {
  krnl = record sys.krnl { mm = some (length sys.krnl.procs); fresh = none };
}

-- `init_mm(krnl->mm, proc)`, wherever `krnl->mm` points by then: to the new memory, or to that of a
-- process that a CPU has stored meanwhile, which is overwritten. `symrgtbl` is what `malloc` left there.
unfoldable pub init_krnl_mm : List Rg → Sys → Option Sys
init_krnl_mm symrgtbl sys = elim sys.krnl.mm [
  | none ↦ none
  | some c ↦
      if c == length sys.krnl.procs
      then some (record sys { krnl = record sys.krnl { fresh = some (init_mm symrgtbl) } })
      else elim (get_elem? sys.krnl.procs c) [
        | none ↦ none
        | some pcb ↦ elim pcb.own_mm [
          | none ↦ none
          | some mm ↦ some (record sys {
            krnl = record sys.krnl {
              procs = set sys.krnl.procs c (record pcb { own_mm = some (init_mm mm.symrgtbl) });
            };
          })
        ]
      ]
]

-- `proc->own_mm = krnl->mm`, as far as the model goes: `some` where that is the new memory. Where a CPU
-- has stored the memory of another process, the two would share it, and the model ends.
unfoldable pub take_mm : Sys → Option Mm
take_mm sys = elim sys.krnl.mm [
  | none ↦ none
  | some c ↦ if c == length sys.krnl.procs then sys.krnl.fresh else none
]

-- `add_proc(proc)`, with the priority and the memory that `proc` has got.
unfoldable pub ready_proc : Mm → Sys → Pcb → ℕ → Option Sys
ready_proc own_mm sys pcb prio =
    let pcb' = record pcb { prio = prio; own_mm = some own_mm } in
    add_proc (record sys { krnl = record sys.krnl { procs = sys.krnl.procs ++ (pcb' ∷ []) } })
      (length sys.krnl.procs) prio

-- The four one after another, with no other thread between them.
unfoldable pub admit : List Rg → Sys → Pcb → ℕ → Option Sys
admit symrgtbl sys pcb prio = elim (init_krnl_mm symrgtbl (alloc_mm sys)) [
  | none ↦ none
  | some sys' ↦ elim (take_mm sys') [ none ↦ none | some own_mm ↦ ready_proc own_mm sys' pcb prio ]
]
