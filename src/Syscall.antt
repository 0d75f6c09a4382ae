-- ===== src/Syscall.antt =====
-- The system calls: src/syscall.c with src/syscall.tbl, src/sys_mem.c, src/sys_listsyscall.c and
-- src/libstd.c. `junk` is what the local `value` and the copy buffer hold before they are read into.
pub mod Caller
pub mod Isolation
use simple_os_simulator.Prelude.{
  ℕ, zero, suc, ◌+◌, ◌-◌, ◌^◌, Bool, true, false, Option, none, some, List, ltb, ◌==◌,
  if◌then◌else◌, get_elem?, get_or, Status, success, failure,
}
use simple_os_simulator.Prelude.Word.{u8, u32, int_pos, int_to_u64}
use simple_os_simulator.Queue.{Queue}
use simple_os_simulator.Memphy.{Memphy, read, write}
use simple_os_simulator.Vm.{vmap_pgd_memset, inc_vma_limit, mm_swap_page}
use simple_os_simulator.Krnl.{
  Krnl, Pcb, M, ret, fault, ◌>>=◌, ◌>>◌, get_pcb, get_own_mm, get_mm, put_mm,
}

-- `sc_regs`; `a4` to `a6`, `orig_ax` and `flags` are not used.
pub record ScRegs : Type 0 where
  pub a1 : ℕ
  pub a2 : ℕ
  pub a3 : ℕ

-- One round of the search: the process at hand if it has the pid, else what the rest finds. `none`
-- is a pointer to no control block.
unfoldable pub this_or : Option Pcb → ℕ → ℕ → Option (Option ℕ) → Option (Option ℕ)
this_or none pid proc rest = none
this_or (some pcb) pid proc rest = if pcb.pid == pid then some (some proc) else rest

-- The loop of `__sys_memmap` over the running list from position `i` on: the first process with
-- that pid.
unfoldable pub find_from : ℕ → ℕ → List ℕ → List Pcb → ℕ → Option (Option ℕ)
find_from zero i rl procs pid = some none
find_from (suc n) i rl procs pid =
    this_or (get_elem? procs (get_or rl i 0)) pid (get_or rl i 0) (find_from n (suc i) rl procs pid)

unfoldable pub find_caller : ℕ → M (Option ℕ)
find_caller pid k = elim k.running_list [
  | none ↦ some (none, k)
  | some rl ↦ elim (find_from rl.size 0 rl.proc k.procs pid) [ none ↦ none | some c ↦ some (c, k) ]
]

-- SYSMEM_MAP_OP; without a memory the first entry is a write through NULL.
unfoldable pub map_op : ℕ → ScRegs → M (Unit {0})
map_op caller regs = do
  own ← get_own_mm caller
  elim own [
    | none ↦ if int_pos regs.a3 == 0 then ret tt else fault
    | some mm ↦ put_mm caller (vmap_pgd_memset mm regs.a2 regs.a3)
  ]

-- SYSMEM_INC_OP, with the number of the area as an `int`; the return value of `inc_vma_limit` is not looked at.
unfoldable pub inc_op : ℕ → ScRegs → M (Unit {0})
inc_op caller regs = do
  own ← get_own_mm caller
  elim own [
    | none ↦ ret tt
    | some mm ↦ λ k.
        let (_, mm', mram') = inc_vma_limit mm k.mram (int_to_u64 regs.a2) regs.a3 in
        put_mm caller mm' (record k { mram = mram' })
  ]

-- SYSMEM_SWP_OP
unfoldable pub swp_op : ℕ → ScRegs → M (Unit {0})
swp_op junk regs k = elim (mm_swap_page junk k.mram k.active_mswp regs.a2 regs.a3) [
  | none ↦ none
  | some (mram', mswp') ↦ some (tt, record k { mram = mram'; active_mswp = mswp' })
]

-- A BYTE is a signed char; this is its conversion to `arg_t`.
abbrev byte_to_arg : ℕ → ℕ
byte_to_arg byte = if ltb byte 128 then byte else byte + (2 ^ 64 - 2 ^ 8)

-- SYSMEM_IO_READ: the byte comes back in `a3`.
unfoldable pub io_read : ℕ → ScRegs → M ScRegs
io_read junk regs k = elim (read k.mram regs.a2 junk) [
  | none ↦ none
  | some (_, byte, mram') ↦ some (record regs { a3 = byte_to_arg byte }, record k { mram = mram' })
]

-- SYSMEM_IO_WRITE
unfoldable pub io_write : ScRegs → M (Unit {0})
io_write regs k = elim (write k.mram regs.a2 (u8 regs.a3)) [
  | none ↦ none
  | some (_, mram') ↦ some (tt, record k { mram = mram' })
]

-- The switch of `__sys_memmap`.
unfoldable pub memop : ℕ → ℕ → ScRegs → M ScRegs
memop junk caller regs =
    let op = u32 regs.a1 in
    if op == 1
    then (map_op caller regs >> ret regs)
    else if op == 2
    then (inc_op caller regs >> ret regs)
    else if op == 3
    then (swp_op junk regs >> ret regs)
    else if op == 4
    then io_read junk regs
    else if op == 5
    then (io_write regs >> ret regs)
    else ret regs

-- The return value, and `*regs` afterwards.
unfoldable pub sys_memmap : ℕ → ℕ → ScRegs → M (Status × ScRegs)
sys_memmap junk pid regs = do
  found ← find_caller pid
  elim found [
    | none ↦ ret (failure, regs)
    | some caller ↦ do regs' ← memop junk caller regs; ret (success, regs')
  ]

-- It prints the table of system calls, and leaves the state.
unfoldable pub sys_listsyscall : ScRegs → M (Status × ScRegs)
sys_listsyscall regs = ret (success, regs)

unfoldable pub sys_ni_syscall : ScRegs → M (Status × ScRegs)
sys_ni_syscall regs = ret (success, regs)

-- `_syscall`, with the numbers of syscall.tbl.
unfoldable pub syscall : ℕ → ℕ → ℕ → ScRegs → M (Status × ScRegs)
syscall junk pid nr regs =
    if nr == 0
    then sys_listsyscall regs
    else if nr == 17
    then sys_memmap junk pid regs
    else sys_ni_syscall regs

-- `libsyscall`
unfoldable pub libsyscall : ℕ → ℕ → ℕ → ℕ → ℕ → ℕ → M Status
libsyscall junk caller syscall_idx a1 a2 a3 = do
  pcb ← get_pcb caller
  result ← syscall junk pcb.pid syscall_idx (record { a1 = a1; a2 = a2; a3 = a3 })
  ret result.0
