-- ===== src/Loader/Meaning.antt =====
-- The instructions that src/loader.c makes of lines, as src/cpu.c executes them.
use simple_os_simulator.Prelude.{ℕ, zero, suc, ◌<◌, ◌≡◌, refl, arith, List, [], ◌∷◌, length, get_or}
use simple_os_simulator.Krnl.{Inst, Opcode}
use simple_os_simulator.Cpu.{Junk, execute}
use simple_os_simulator.Loader.Written.{IsWritten, meant}

get_or-within : (ns : List ℕ) (i a b : ℕ) → i < length ns → get_or ns i a ≡ get_or ns i b
get_or-within [] i a b lt = absurd (omega (arith, lt))
get_or-within (n ∷ ns) zero a b lt = refl
get_or-within (n ∷ ns) (suc i) a b lt = get_or-within ns i a b (omega (arith, lt))

-- What an instruction does that was read from a line with as many numbers as it takes, all below 2
-- ^ 64, does not depend on the memory that it was put in.
pub execute-meant :
    (junk : Junk) (proc : ℕ) (opcode : Opcode) (args : List ℕ) (blank blank' : Inst)
    → IsWritten (record { opcode = opcode; args = args })
    → execute junk proc (meant (record { opcode = opcode; args = args }) blank)
      ≡ execute junk proc (meant (record { opcode = opcode; args = args }) blank')
unfolding execute
execute-meant junk proc Opcode.calc ns b b' (fits, all) = refl
execute-meant junk proc Opcode.copy_from_user ns b b' (fits, all) = refl
execute-meant junk proc Opcode.copy_to_user ns b b' (fits, all) = refl
execute-meant junk proc Opcode.syscall ns b b' (fits, all) = refl
execute-meant junk proc Opcode.alloc ns b b' (fits, all) =
    rw
      (
        get_or-within ns 0 b.arg_0 b'.arg_0 (omega (arith, fits)),
        get_or-within ns 1 b.arg_1 b'.arg_1 (omega (arith, fits)),
      )
      refl
execute-meant junk proc Opcode.kmalloc ns b b' (fits, all) =
    rw
      (
        get_or-within ns 0 b.arg_0 b'.arg_0 (omega (arith, fits)),
        get_or-within ns 1 b.arg_1 b'.arg_1 (omega (arith, fits)),
      )
      refl
execute-meant junk proc Opcode.kmem_cache_alloc ns b b' (fits, all) =
    rw
      (
        get_or-within ns 0 b.arg_0 b'.arg_0 (omega (arith, fits)),
        get_or-within ns 1 b.arg_1 b'.arg_1 (omega (arith, fits)),
      )
      refl
execute-meant junk proc Opcode.kmem_cache_create ns b b' (fits, all) =
    rw
      (
        get_or-within ns 0 b.arg_0 b'.arg_0 (omega (arith, fits)),
        get_or-within ns 1 b.arg_1 b'.arg_1 (omega (arith, fits)),
        get_or-within ns 2 b.arg_2 b'.arg_2 (omega (arith, fits)),
      )
      refl
execute-meant junk proc Opcode.free ns b b' (fits, all) =
    rw (get_or-within ns 0 b.arg_0 b'.arg_0 (omega (arith, fits))) refl
execute-meant junk proc Opcode.read ns b b' (fits, all) =
    rw
      (
        get_or-within ns 0 b.arg_0 b'.arg_0 (omega (arith, fits)),
        get_or-within ns 1 b.arg_1 b'.arg_1 (omega (arith, fits)),
      )
      refl
execute-meant junk proc Opcode.write ns b b' (fits, all) =
    rw
      (
        get_or-within ns 0 b.arg_0 b'.arg_0 (omega (arith, fits)),
        get_or-within ns 1 b.arg_1 b'.arg_1 (omega (arith, fits)),
        get_or-within ns 2 b.arg_2 b'.arg_2 (omega (arith, fits)),
      )
      refl
