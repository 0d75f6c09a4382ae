-- ===== src/Krnl.antt =====
-- The kernel state that the system calls and the memory library work on: `krnl_t`, `pcb_t` and
-- `inst_t` of include/common.h. A process is named by its pointer, the position of its control
-- block; control blocks are never freed. A function of the C code is a state transformer that ends
-- in `none` where the code has undefined behaviour.
pub mod Confined
pub mod Labels
use simple_os_simulator.Prelude.{ℕ, Option, none, some, List, get_elem?, set}
use simple_os_simulator.Queue.{Queue}
use simple_os_simulator.Memphy.{Memphy}
use simple_os_simulator.Mm.{Mm}

-- `ins_opcode_t`
pub data Opcode : Type 0 where
  calc alloc free read write kmalloc : Opcode
  kmem_cache_create kmem_cache_alloc copy_from_user copy_to_user syscall : Opcode

-- `inst_t`
pub record Inst : Type 0 where
  pub opcode : Opcode
  pub arg_0 : ℕ
  pub arg_1 : ℕ
  pub arg_2 : ℕ
  pub arg_3 : ℕ

-- `pcb_t`. `path`, `page_table`, `bp` and `regs` belong to the old memory of src/mem.c; `krnl` is the
-- one kernel.
pub record Pcb : Type 0 where
  pub pid : ℕ
  pub priority : ℕ
  pub prio : ℕ
  pub pc : ℕ
  pub code : List Inst
  pub own_mm : Option Mm

-- `krnl_t`. `mm` names the process whose `own_mm` it points to; the
-- number of processes names the memory that `ld_routine` makes for the next one, which is `fresh` once
-- `init_mm` has written it. `ld_routine` sets `mram` and
-- `active_mswp` before the first process is ready, so they are not NULL. `running_list` is NULL until
-- the scheduler is first given a process.
pub record Krnl : Type 0 where
  pub procs : List Pcb
  pub running_list : Option Queue
  pub mm : Option ℕ
  pub fresh : Option Mm
  pub mram : Memphy
  pub active_mswp : Memphy

abbrev pub M : Type 0 → Type 0
M A = Krnl → Option (A × Krnl)

abbrev pub ret : {A : Type 0} → A → M A
ret a k = some (a, k)

abbrev pub fault : {A : Type 0} → M A
fault k = none

infixl 5 ◌>>=◌ ◌>>◌
abbrev pub ◌>>=◌ : {A B : Type 0} → M A → (A → M B) → M B
◌>>=◌ m f k = elim (m k) [ none ↦ none | some (a, k') ↦ f a k' ]

abbrev pub ◌>>◌ : {A B : Type 0} → M A → M B → M B
m >> n = m >>= λ _. n

-- `*caller`
abbrev pub get_pcb : ℕ → M Pcb
get_pcb c k = elim (get_elem? k.procs c) [ none ↦ none | some pcb ↦ some (pcb, k) ]

abbrev pub put_pcb : ℕ → Pcb → M (Unit {0})
put_pcb c pcb k = some (tt, record k { procs = set k.procs c pcb })

-- `caller->own_mm`
abbrev pub get_own_mm : ℕ → M (Option Mm)
get_own_mm c k = elim (get_elem? k.procs c) [ none ↦ none | some pcb ↦ some (pcb.own_mm, k) ]

-- `*caller->own_mm`, which is not to be NULL.
abbrev pub get_mm : ℕ → M Mm
get_mm c k = elim (get_elem? k.procs c) [
  | none ↦ none
  | some pcb ↦ elim pcb.own_mm [ none ↦ none | some mm ↦ some (mm, k) ]
]

abbrev pub put_mm : ℕ → Mm → M (Unit {0})
put_mm c mm k = elim (get_elem? k.procs c) [
  | none ↦ none
  | some pcb ↦ some (tt, record k { procs = set k.procs c (record pcb { own_mm = some mm }) })
]
