-- ===== src/Loader/Written.antt =====
-- The program files of src/input/proc as src/loader.c is to read them: what the lines are, and what each
-- means.
use Prim.Native.String.{String}
use simple_os_simulator.Prelude.{ℕ, ◌+◌, ◌≤◌, ◌≡◌, List, [], ◌∷◌, map, length, get_or}
use simple_os_simulator.Krnl.{Inst, Opcode}
use simple_os_simulator.Stdio.{Field, name, num, Below}
use simple_os_simulator.Loader.{Arguments, nothing, fixed, rest_of_line}

-- A line of a program: an instruction and its numbers.
pub record Written : Type 0 where
  pub opcode : Opcode
  pub args : List ℕ

abbrev pub opcode_name : Opcode → String
opcode_name Opcode.calc = "calc"
opcode_name Opcode.alloc = "alloc"
opcode_name Opcode.free = "free"
opcode_name Opcode.read = "read"
opcode_name Opcode.write = "write"
opcode_name Opcode.kmalloc = "kmalloc"
opcode_name Opcode.kmem_cache_create = "kmem_cache_create"
opcode_name Opcode.kmem_cache_alloc = "kmem_cache_alloc"
opcode_name Opcode.copy_from_user = "copy_from_user"
opcode_name Opcode.copy_to_user = "copy_to_user"
opcode_name Opcode.syscall = "syscall"

abbrev pub line : Written → List Field
line w = name (opcode_name w.opcode) ∷ map num w.args

-- The file: the priority and the number of instructions, then the instructions.
abbrev pub program : ℕ → List Written → List (List Field)
program priority ws = (num priority ∷ num (length ws) ∷ []) ∷ map line ws

-- The arguments of the instructions, as src/cpu.c uses them.
abbrev pub takes : Opcode → Arguments
takes Opcode.calc = nothing
takes Opcode.alloc = fixed 2
takes Opcode.free = fixed 1
takes Opcode.read = fixed 3
takes Opcode.write = fixed 3
takes Opcode.kmalloc = fixed 2
takes Opcode.kmem_cache_create = fixed 3
takes Opcode.kmem_cache_alloc = fixed 2
takes Opcode.copy_from_user = rest_of_line
takes Opcode.copy_to_user = rest_of_line
takes Opcode.syscall = rest_of_line

-- As many numbers as the instruction has arguments; where the rest of the line is read, up to four.
abbrev pub Fits : Arguments → ℕ → Type 0
Fits nothing n = n ≡ 0
Fits (fixed k) n = n ≡ k
Fits rest_of_line n = n ≤ 4

abbrev pub IsWritten : Written → Type 0
IsWritten w = Fits (takes w.opcode) (length w.args) × Below 64 w.args

abbrev pub AllWritten : List Written → Type 0
AllWritten [] = Unit {0}
AllWritten (w ∷ ws) = IsWritten w × AllWritten ws

-- The instruction: an argument that is not written is 0 where the rest of the line is read, and has no
-- value of its own elsewhere.
abbrev pub cleared : Arguments → Inst → Inst
cleared nothing ins = ins
cleared (fixed k) ins = ins
cleared rest_of_line ins = record ins { arg_0 = 0; arg_1 = 0; arg_2 = 0; arg_3 = 0 }

abbrev pub meant : Written → Inst → Inst
meant w blank =
    let ins = cleared (takes w.opcode) (record blank { opcode = w.opcode }) in
    record ins {
      arg_0 = get_or w.args 0 ins.arg_0;
      arg_1 = get_or w.args 1 ins.arg_1;
      arg_2 = get_or w.args 2 ins.arg_2;
      arg_3 = get_or w.args 3 ins.arg_3;
    }

-- The instructions of a program, on memory from `i` on.
abbrev pub code_of : List Written → (ℕ → Inst) → ℕ → List Inst
code_of [] text i = []
code_of (w ∷ ws) text i = meant w (text i) ∷ code_of ws text (i + 1)
