-- ===== src/Loader.antt =====
-- src/loader.c: `load` reads a program file and makes the control block of its process. The order of the
-- calls of the C library is the code's; their interface is that of Stdio. `exit(1)` and undefined
-- behaviour are results; `malloc` does not fail, and what it leaves in memory is a parameter.
-- `proc->path`, `page_table`, `bp` and `own_mm` are not read before `ld_routine` sets the last one.
pub mod Written
pub mod RoundTrip
pub mod Meaning
use Prim.Native.String.{String, len}
use text.Mathlib.Text.{◌==◌}
use simple_os_simulator.Prelude.{
  ℕ, zero, suc, ◌+◌, ◌≡◌, refl, none, some, Option, List, [], ◌∷◌, if◌then◌else◌, ltb, get_or,
}
use simple_os_simulator.Prelude.Word.{u32}
use simple_os_simulator.Krnl.{Pcb, Inst, Opcode}
use simple_os_simulator.Stdio.{Stdio, numbers, numbers_line}

-- How a call ends.
pub data Ending (A : Type 0) : Type 0 where
  returned : A → Ending A
  exited undefined : Ending A

infixl 5 ◌>>=◌
abbrev pub ◌>>=◌ : {A B : Type 0} → Ending A → (A → Ending B) → Ending B
m >>= k = elim m [ exited ↦ exited | undefined ↦ undefined | returned a ↦ k a ]

-- What was returned came through both halves.
pub returned-bind :
    {A B : Type 0} (m : Ending A) (k : A → Ending B) (b : B)
    → (m >>= k) ≡ returned b
    → (a : A) × (m ≡ returned a) × (k a ≡ returned b)
returned-bind (returned a) k b e = (a, refl, e)
returned-bind exited k b e = cc
returned-bind undefined k b e = cc

-- NULL where `exit(1)` follows, and a variable that has to be initialised.
abbrev pub or_exit : {A : Type 0} → Option A → Ending A
or_exit o = elim o [ none ↦ exited | some a ↦ returned a ]

abbrev pub initialised : {A : Type 0} → Option A → Ending A
initialised o = elim o [ none ↦ undefined | some a ↦ returned a ]

pub initialised-returned :
    {A : Type 0} (o : Option A) (a : A) → initialised o ≡ returned a → o ≡ some a
initialised-returned none a e = cc
initialised-returned (some b) a e = cc

unfoldable pub get_opcode : String → Option Opcode
get_opcode opt =
    if opt == "calc"
    then some Opcode.calc
    else if opt == "alloc"
    then some Opcode.alloc
    else if opt == "free"
    then some Opcode.free
    else if opt == "read"
    then some Opcode.read
    else if opt == "write"
    then some Opcode.write
    else if opt == "kmalloc"
    then some Opcode.kmalloc
    else if opt == "kmem_cache_create"
    then some Opcode.kmem_cache_create
    else if opt == "kmem_cache_alloc"
    then some Opcode.kmem_cache_alloc
    else if opt == "copy_from_user"
    then some Opcode.copy_from_user
    else if opt == "copy_to_user"
    then some Opcode.copy_to_user
    else if opt == "syscall"
    then some Opcode.syscall
    else none

-- How the switch of `load` reads the arguments of an instruction: not at all, with one `fscanf` of so
-- many numbers, or with `sscanf` of up to four from the rest of the line.
pub data Arguments : Type 0 where
  nothing : Arguments
  fixed : ℕ → Arguments
  rest_of_line : Arguments

abbrev pub arguments : Opcode → Arguments
arguments Opcode.calc = nothing
arguments Opcode.kmem_cache_alloc = fixed 2
arguments Opcode.kmalloc = fixed 2
arguments Opcode.alloc = fixed 2
arguments Opcode.free = fixed 1
arguments Opcode.kmem_cache_create = fixed 3
arguments Opcode.read = fixed 3
arguments Opcode.write = fixed 3
arguments Opcode.copy_from_user = rest_of_line
arguments Opcode.copy_to_user = rest_of_line
arguments Opcode.syscall = rest_of_line

-- The stores of a format: a conversion that was not reached leaves its argument as it was.
abbrev pub store : List ℕ → Inst → Inst
store ns ins = record ins {
  arg_0 = get_or ns 0 ins.arg_0;
  arg_1 = get_or ns 1 ins.arg_1;
  arg_2 = get_or ns 2 ins.arg_2;
  arg_3 = get_or ns 3 ins.arg_3;
}

-- What `malloc` and the stack hold before the code writes there: `priority`, `size`, `prio` and the text.
pub record Memory : Type 0 where
  pub priority : ℕ
  pub size : ℕ
  pub prio : ℕ
  pub text : ℕ → Inst

module _ (io : Stdio) where
  -- The open file, and the locals `opcode` and `buf`; `none` until they are first written.
  pub record Reader : Type 0 where
    pub file : io.File
    pub opcode : Option String
    pub buf : Option io.File

  -- The switch of `load`. A call of `fgets` that fails leaves the buffer as it was.
  unfoldable pub read_args : Arguments → Reader → Inst → Ending (Inst × Reader)
  read_args nothing r ins = returned (ins, r)
  read_args (fixed k) r ins =
      let (ns, f) = numbers_line io 64 k r.file in returned (store ns ins, record r { file = f })
  read_args rest_of_line r ins =
      let (line, f) = io.fgets 200 r.file in
      let buf : Option io.File = elim line [ none ↦ r.buf | some b ↦ some b ] in
      let zeroed = record ins { arg_0 = 0; arg_1 = 0; arg_2 = 0; arg_3 = 0 } in
      initialised buf >>= λ b.
      returned (store (numbers io 64 4 b).0 zeroed, record r { file = f; buf = buf })

  -- One round of the loop of `load`, on an uninitialised instruction. Without a word in the file, `opcode`
  -- keeps its text; a word of 32 bytes or more overflows it.
  unfoldable pub read_inst : Reader → Inst → Ending (Inst × Reader)
  read_inst r blank =
      let (word, f) = io.word r.file in
      let opcode : Option String = elim word [ none ↦ r.opcode | some w ↦ some w ] in
      initialised opcode >>= λ text.
      if ltb 31 (len text)
      then undefined
      else (or_exit (get_opcode text) >>= λ op.
          read_args (arguments op) (record r { file = f; opcode = opcode })
            (record blank { opcode = op }))

  -- The loop from `i` on, with so many rounds left.
  unfoldable pub read_code : ℕ → (ℕ → Inst) → ℕ → Reader → Ending (List Inst)
  read_code zero text i r = returned []
  read_code (suc n) text i r = read_inst r (text i) >>= λ (ins, r').
      read_code n text (i + 1) r' >>= λ code. returned (ins ∷ code)

  -- With the value of `avail_pid` before, and after.
  unfoldable pub load : String → Memory → ℕ → Ending (Pcb × ℕ)
  load path memory avail_pid = or_exit (io.fopen path) >>= λ file.
      let (ns, f) = numbers io 32 2 file in
      let size = get_or ns 1 memory.size in
      read_code size memory.text 0 (record { file = f; opcode = none; buf = none }) >>= λ code.
      returned (
        record {
          pid = avail_pid;
          priority = get_or ns 0 memory.priority;
          prio = memory.prio;
          pc = 0;
          code = code;
          own_mm = none;
        },
        u32 (avail_pid + 1),
      )
