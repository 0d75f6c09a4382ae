-- ===== src/Tests/Loading.antt =====
-- A program file of src/input/proc, loaded.
use Prim.Native.String.{String}
use simple_os_simulator.Prelude.{ℕ, get_or, ◌+◌, ◌≡◌, refl, arith, none, some, List, [], ◌∷◌}
use simple_os_simulator.Prelude.Word.{u32}
use simple_os_simulator.Krnl.{Inst, Opcode}
use simple_os_simulator.Cpu.{execute}
use simple_os_simulator.Stdio.{Stdio}
use simple_os_simulator.Loader.{returned, Memory, Reader, load, read_inst}
use simple_os_simulator.Loader.Written.{Written, AllWritten, program, meant, code_of}
use simple_os_simulator.Loader.RoundTrip.{load-program, read_inst_past}
use simple_os_simulator.Loader.Meaning.{execute-meant}
use simple_os_simulator.Timer.System.{Reach as TimerReach}
use simple_os_simulator.Os.System.{System, Reach}
use simple_os_simulator.Os.Loading.{Fresh, Given, AllFiles, processes, ld_routine}
use simple_os_simulator.Os.Config.{read_config}
use simple_os_simulator.Os.Config.Plan.{
  Plan, IsPlan, config_text, config_of, entry_of, read_config-plan,
}
use simple_os_simulator.Os.Main.{
  Leftover, Started, device, start_up, main, ids_from, start_up-timer, main-processes,
}
use simple_os_simulator.Tests.Files.{Lines, files, files_text}
use simple_os_simulator.Tests.Simulation.{junk}

abbrev written : Opcode → List ℕ → Written
written op args = record { opcode = op; args = args }

-- A program of five instructions, in the order of sc2 of src/input/proc, and a CALC.
abbrev instructions : List Written
instructions =
    written Opcode.alloc (100 ∷ 1 ∷ [])
    ∷ written Opcode.write (80 ∷ 1 ∷ 0 ∷ [])
    ∷ written Opcode.calc []
    ∷ written Opcode.write (48 ∷ 1 ∷ 1 ∷ [])
    ∷ written Opcode.syscall (101 ∷ 1 ∷ [])
    ∷ []

abbrev pub source : Lines
source = program 20 instructions

-- A configuration of one CPU and one process, without a line of sizes.
abbrev plan : Plan
plan = record { time_slot = 2; num_cpus = 1; sizes = none; runs = (1, "sc2", 15) ∷ [] }

abbrev directory : List (String × Lines)
directory = ("input/proc/sc2", source) ∷ ("input/os_sc", config_text plan) ∷ []

abbrev pub io : Stdio
io = files directory

abbrev left_over : Inst
left_over = record { opcode = Opcode.calc; arg_0 = 7; arg_1 = 8; arg_2 = 9; arg_3 = 10 }

abbrev pub memory : Memory
memory = record { priority = 5; size = 6; prio = 7; text = λ i. left_over }

all_written : AllWritten instructions
all_written = (
  (refl, (omega arith, (omega arith, tt))),
  (
    (refl, (omega arith, (omega arith, (omega arith, tt)))),
    (
      (refl, tt),
      (
        (refl, (omega arith, (omega arith, (omega arith, tt)))),
        ((omega arith, (omega arith, (omega arith, tt))), tt),
      ),
    ),
  ),
)

load-program_example :
    load io "input/proc/sc2" memory 3
    ≡ returned (
      record {
        pid = 3;
        priority = 20;
        prio = 7;
        pc = 0;
        code = code_of instructions memory.text 0;
        own_mm = none;
      },
      u32 (3 + 1),
    )
load-program_example =
    load-program (files_text directory) "input/proc/sc2" source memory 3 20 instructions refl refl
      (omega arith) (omega arith) all_written

-- The arguments that a program does not give.
loaded_syscall :
    meant (written Opcode.syscall (101 ∷ 1 ∷ [])) left_over
    ≡ record { opcode = Opcode.syscall; arg_0 = 101; arg_1 = 1; arg_2 = 0; arg_3 = 0 }
loaded_syscall = refl

abbrev zeroed : Inst
zeroed = record { opcode = Opcode.calc; arg_0 = 0; arg_1 = 0; arg_2 = 0; arg_3 = 0 }

execute-meant_example :
    execute junk 0 (meant (written Opcode.alloc (100 ∷ 1 ∷ [])) left_over)
    ≡ execute junk 0 (meant (written Opcode.alloc (100 ∷ 1 ∷ [])) zeroed)
execute-meant_example =
    execute-meant junk 0 Opcode.alloc (100 ∷ 1 ∷ []) left_over zeroed
      (refl, (omega arith, (omega arith, tt)))

abbrev ended : Reader io
ended = record { file = []; opcode = some "free"; buf = none }

read_inst_past_example :
    (r' : Reader io) × (read_inst io ended left_over
      ≡ returned (record left_over { opcode = Opcode.free }, r'))
read_inst_past_example =
    read_inst_past (files_text directory) ended Opcode.free 0 left_over refl refl refl

plan_fits : IsPlan plan
plan_fits = record {
  time_slot = omega arith;
  num_cpus = omega arith;
  num_processes = omega arith;
  sizes = omega arith;
  runs = ((omega arith, omega arith, omega arith), tt);
}

abbrev blank : ℕ → ℕ × ℕ
blank i = (77, 88)

read_config-plan_example : read_config io "input/os_sc" blank ≡ returned (config_of plan)
read_config-plan_example =
    read_config-plan (files_text directory) "input/os_sc" (config_text plan) blank plan refl refl
      plan_fits

abbrev leftover : Leftover
leftover = record { frames = []; cursor = 0 }

abbrev fresh : ℕ → Fresh
fresh i = record { memory = memory; symrgtbl = [] }

abbrev given : Given
given = record { entry = entry_of (1, "sc2", 15); priority = 20; program = instructions }

all_files : AllFiles (files_text directory) (given ∷ [])
all_files = ((source, refl, refl, omega arith, omega arith, all_written, omega arith), tt)

start_up-timer_example :
    let st = start_up leftover leftover (config_of plan) in
    (st.cpus ≡ ids_from 1 0) × (st.ld ≡ some 1) × TimerReach st.timer × (st.timer.attached ≡ 1 + 1)
start_up-timer_example = start_up-timer leftover leftover (config_of plan)

main-processes_example :
    (st : Started) × (t : System) × (main io blank leftover leftover "os_sc" ≡ returned st)
    × (ld_routine io fresh 0 st.config.ld_processes st.system ≡ returned t)
    × Reach 1 2
        (device leftover st.config.memramsz)
        (device leftover (get_or st.config.memswpsz 0 0))
        t
    × (t.sys.krnl.procs ≡ processes fresh 0 1 (given ∷ []))
main-processes_example =
    main-processes (files_text directory) blank leftover leftover fresh "os_sc" (config_text plan)
      plan (given ∷ []) (omega arith) refl refl plan_fits refl all_files (omega arith)
