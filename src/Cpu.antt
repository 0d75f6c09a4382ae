-- ===== src/Cpu.antt =====
-- src/cpu.c: `run` executes one instruction of a process, and `calc` is the whole of a CALC. The
-- kernel memory calls of src/libmem.c have no body: they return 0 or 1 and do nothing. The functions
-- `alloc`, `free_data`, `read` and `write` of src/cpu.c are compiled out or never called.
pub mod Isolation
use simple_os_simulator.Prelude.{ℕ, ◌+◌, ◌-◌, ◌^◌, none, some, get_elem?, Status, success, failure}
use simple_os_simulator.Prelude.Word.{u32, u8}
use simple_os_simulator.Mm.{Rg}
use simple_os_simulator.Krnl.{Inst, Opcode, M, ret, ◌>>=◌, ◌>>◌, get_pcb, put_pcb}
use simple_os_simulator.Syscall.{libsyscall}
use simple_os_simulator.LibMem.{liballoc, libfree, libread, libwrite}

-- What the uninitialised locals of the calls hold: the copy buffer, `rgnode` and `addr` of the
-- allocation, and the address and the first content of `data`.
pub record Junk : Type 0 where
  pub buffer : ℕ
  pub rgnode : Rg
  pub addr : ℕ
  pub data_ptr : ℕ
  pub byte : ℕ

-- A return code as an `int` pattern.
abbrev status_int : Status → ℕ
status_int success = 0
status_int failure = 2 ^ 32 - 1

abbrev as_int : M Status → M ℕ
as_int m = m >>= λ st. ret (status_int st)

unfoldable pub libkmem_malloc : ℕ → ℕ → ℕ → M ℕ
libkmem_malloc caller size reg_index = ret 0

unfoldable pub libkmem_cache_pool_create : ℕ → ℕ → ℕ → ℕ → M ℕ
libkmem_cache_pool_create caller size align cache_pool_id = ret 0

unfoldable pub libkmem_cache_alloc : ℕ → ℕ → ℕ → M ℕ
libkmem_cache_alloc proc cache_pool_id reg_index = ret 0

unfoldable pub libkmem_copy_from_user : ℕ → ℕ → ℕ → ℕ → ℕ → M ℕ
libkmem_copy_from_user caller source destination offset size = ret 0

unfoldable pub libkmem_copy_to_user : ℕ → ℕ → ℕ → ℕ → ℕ → M ℕ
libkmem_copy_to_user caller source destination offset size = ret 1

-- The accesses that they are to use; nothing calls these, and they store nothing.
unfoldable read_kernel_mem : ℕ → ℕ → ℕ → ℕ → M ℕ
read_kernel_mem caller vmaid rgid offset = ret 0

unfoldable write_kernel_mem : ℕ → ℕ → ℕ → ℕ → ℕ → M ℕ
write_kernel_mem caller vmaid rgid offset value = ret 0

unfoldable read_user_mem : ℕ → ℕ → ℕ → ℕ → M ℕ
read_user_mem caller vmaid rgid offset = ret 0

unfoldable write_user_mem : ℕ → ℕ → ℕ → ℕ → ℕ → M ℕ
write_user_mem caller vmaid rgid offset value = ret 0

-- The switch of `run`. A register index and the arguments of the kernel memory calls become 32-bit
-- numbers, a size and an offset keep 64 bits.
unfoldable pub execute : Junk → ℕ → Inst → M ℕ
execute junk proc ins = elim ins.opcode [
  | Opcode.calc ↦ ret 0
  | Opcode.alloc ↦
      as_int (liballoc junk.buffer junk.rgnode junk.addr proc ins.arg_0 (u32 ins.arg_1))
  | Opcode.kmalloc ↦ libkmem_malloc proc (u32 ins.arg_0) (u32 ins.arg_1)
  | Opcode.kmem_cache_create ↦
      libkmem_cache_pool_create proc (u32 ins.arg_0) (u32 ins.arg_1) (u32 ins.arg_2)
  | Opcode.kmem_cache_alloc ↦ libkmem_cache_alloc proc (u32 ins.arg_0) (u32 ins.arg_1)
  | Opcode.copy_from_user ↦
      libkmem_copy_from_user proc (u32 ins.arg_0) (u32 ins.arg_1) (u32 ins.arg_2) (u32 ins.arg_3)
  | Opcode.copy_to_user ↦
      libkmem_copy_to_user proc (u32 ins.arg_0) (u32 ins.arg_1) (u32 ins.arg_2) (u32 ins.arg_3)
  | Opcode.free ↦ as_int (libfree proc (u32 ins.arg_0))
  | Opcode.read ↦
      as_int (
        libread junk.buffer junk.data_ptr junk.byte proc (u32 ins.arg_0) ins.arg_1 >>= λ r. ret r.0)
  | Opcode.write ↦ as_int (libwrite junk.buffer proc (u8 ins.arg_0) (u32 ins.arg_1) ins.arg_2)
  | Opcode.syscall ↦
      as_int (libsyscall junk.buffer proc (u32 ins.arg_0) ins.arg_1 ins.arg_2 ins.arg_3)
]

-- `run`: past the end of the code it returns 1.
unfoldable pub run : Junk → ℕ → M ℕ
run junk proc = do
  pcb ← get_pcb proc
  elim (get_elem? pcb.code pcb.pc) [
    | none ↦ ret 1
    | some ins ↦ do put_pcb proc (record pcb { pc = u32 (pcb.pc + 1) }); execute junk proc ins
  ]
