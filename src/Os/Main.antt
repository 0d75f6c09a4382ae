-- ===== src/Os/Main.antt =====
-- src/os.c: `main` up to the start of its threads, which attaches the CPUs and the loader to the timer and
-- makes the memories. Its other devices, `mswp[1]` to `mswp[3]`, are made and not used.
use Prim.Native.String.{String, len}
use Prim.Native.String.{◌++◌ as ◌+++◌}
use simple_os_simulator.Prelude.{
  ℕ, zero, suc, ◌+◌, ◌^◌, ◌<◌, ◌≤◌, ◌≡◌, refl, ap, ap₂, sym, ◌∙◌, arith, false, Option, some, List,
  [], ◌∷◌, map, length, get_or, ltb, if◌then◌else◌,
}
use simple_os_simulator.Memphy.{Memphy, init_memphy}
use simple_os_simulator.Timer.{Timer, attach_event, start_timer}
use simple_os_simulator.Timer.System.{init, attaching, starting}
use simple_os_simulator.Timer.System.{
  Reach as TimerReach, start as timer_start, later as timer_later,
}
use simple_os_simulator.Stdio.{Stdio, IsStdio}
use simple_os_simulator.Loader.{Ending, returned, undefined, ◌>>=◌}
use simple_os_simulator.Os.System.{System, Reach, start, boot}
use simple_os_simulator.Os.Loading.{
  Fresh, Given, AllFiles, processes, ld_routine, ld_routine-Reach, ld_routine-processes,
}
use simple_os_simulator.Os.Config.{Config, read_config}
use simple_os_simulator.Os.Config.Plan.{
  Plan, IsPlan, config_text, config_of, entry_of, read_config-plan,
}

-- The calls of `attach_event` for the CPUs, in order; NULL is `none`.
unfoldable pub attach_all : ℕ → Timer → List (Option ℕ) × Timer
attach_all zero s = ([], s)
attach_all (suc n) s =
    let (id, s') = attach_event s in let (ids, s'') = attach_all n s' in (id ∷ ids, s'')

-- What `malloc` leaves in a device: the list that a lone frame leads to, and the cursor.
pub record Leftover : Type 0 where
  pub frames : List ℕ
  pub cursor : ℕ

-- A device of random access, as `main` makes it.
abbrev pub device : Leftover → ℕ → Memphy
device left max_size = init_memphy left.frames left.cursor max_size 1

-- What `main` has set up when it starts the threads: the timer's containers, and the globals.
pub record Started : Type 0 where
  pub config : Config
  pub cpus : List (Option ℕ)
  pub ld : Option ℕ
  pub timer : Timer
  pub system : System

unfoldable pub start_up : Leftover → Leftover → Config → Started
start_up ram swp config =
    let (cpus, attached) = attach_all config.num_cpus init in
    let (ld, all) = attach_event attached in
    record {
      config = config;
      cpus = cpus;
      ld = ld;
      timer = start_timer all;
      system = boot (device ram config.memramsz) (device swp (get_or config.memswpsz 0 0));
    }

-- `main` on the name of a configuration; `path` has 100 bytes.
unfoldable pub main : Stdio → (ℕ → ℕ × ℕ) → Leftover → Leftover → String → Ending Started
main io blank ram swp name =
    if ltb 93 (len name)
    then undefined
    else (read_config io ("input/" +++ name) blank >>= λ config. returned (start_up ram swp config))

abbrev pub ids_from : ℕ → ℕ → List (Option ℕ)
ids_from zero i = []
ids_from (suc n) i = some i ∷ ids_from n (i + 1)

attach_event_early :
    (s : Timer)
    → s.timer_started ≡ false
    → ((attach_event s).0 ≡ some s.attached)
      × ((attach_event s).1.attached ≡ s.attached + 1)
      × ((attach_event s).1.timer_started ≡ false)
unfolding attach_event
attach_event_early s early = (ground (arith, early), ground (arith, early), ground (arith, early))

attach_all-ids :
    (n : ℕ) (s : Timer)
    → TimerReach s
    → s.timer_started ≡ false
    → ((attach_all n s).0 ≡ ids_from n s.attached)
      × TimerReach (attach_all n s).1
      × ((attach_all n s).1.timer_started ≡ false)
      × ((attach_all n s).1.attached ≡ s.attached + n)
unfolding attach_all
attach_all-ids zero s r early = (refl, r, early, omega arith)
attach_all-ids (suc n) s r early =
    let (id, more, still) = attach_event_early s early in
    let (ids, reached, yet, all) =
      attach_all-ids n (attach_event s).1 (timer_later r attaching) still in
    (ap₂ (λ a is. a ∷ is) id (ids ∙ ap (ids_from n) more), reached, yet, omega (arith, all, more))

-- Main gives each CPU and the loader a container of the timer of its own, none of them NULL, in
-- the order 0, 1, 2, ..., and starts a timer that is in a reachable state with one device for each
-- CPU and one for the loader.
pub start_up-timer :
    (ram swp : Leftover) (config : Config)
    → let st = start_up ram swp config in
      (st.cpus ≡ ids_from config.num_cpus 0)
      × (st.ld ≡ some config.num_cpus)
      × TimerReach st.timer
      × (st.timer.attached ≡ config.num_cpus + 1)
unfolding start_up start_timer
start_up-timer ram swp config =
    let (ids, reached, early, attached) = attach_all-ids config.num_cpus init timer_start refl in
    let (id, more, still) = attach_event_early (attach_all config.num_cpus init).1 early in
    (
      ids,
      id ∙ ap some (omega (arith, attached)),
      timer_later (timer_later reached attaching) (starting still),
      omega (arith, more, attached),
    )

length-map : {A B : Type 0} (f : A → B) (xs : List A) → length (map f xs) ≡ length xs
length-map f [] = refl
length-map f (x ∷ xs) = ap suc (length-map f xs)

-- Where the argument of main has at most 93 bytes and names a file that is written as a
-- configuration within its bounds, and each of its processes, fewer than 2 ^ 32 - 1, names a file
-- with a program within its bounds and has a priority below 140, main starts its threads; the loop
-- of ld_routine, run from there, returns a state that the interleavings of the CPUs and the loader
-- reach, whose processes are those of the programs, in the order of the configuration, with the
-- pids 1, 2, 3, ....
pub main-processes :
    {io : Stdio} (text : IsStdio io) (blank : ℕ → ℕ × ℕ) (ram swp : Leftover) (fresh : ℕ → Fresh)
    (name : String) (file : io.File) (plan : Plan) (gs : List Given)
    → len name ≤ 93
    → io.fopen ("input/" +++ name) ≡ some file
    → text.Shows file (config_text plan)
    → IsPlan plan
    → map (λ g. g.entry) gs ≡ map entry_of plan.runs
    → AllFiles text gs
    → 1 + length gs < 2 ^ 32
    → (st : Started) × (t : System) × (main io blank ram swp name ≡ returned st)
      × (ld_routine io fresh 0 st.config.ld_processes st.system ≡ returned t)
      × Reach plan.num_cpus plan.time_slot
          (device ram st.config.memramsz)
          (device swp (get_or st.config.memswpsz 0 0))
          t
      × (t.sys.krnl.procs ≡ processes fresh 0 1 gs)
unfolding main start_up
main-processes {io} text blank ram swp fresh name file plan gs short opened shows fit named files
      few =
    let config = config_of plan in
    let read = read_config-plan text ("input/" +++ name) file blank plan opened shows fit in
    let st = start_up ram swp config in
    let fits : ltb 93 (len name) ≡ false = ground (arith, short) in
    let (t, loaded, procs, ended) = ld_routine-processes text fresh 0 gs st.system files few in
    let runs : ld_routine io fresh 0 config.ld_processes st.system ≡ returned t =
      ap (λ es. ld_routine io fresh 0 es st.system) (sym named) ∙ loaded in
    let pids : st.system.avail_pid + length config.ld_processes < 2 ^ 32 =
      omega (arith, few, ap length named, length-map (λ (g : Given). g.entry) gs) in
    (
      st,
      t,
      rw (fits, read) refl,
      runs,
      (ld_routine-Reach io fresh 0 config.ld_processes st.system t start refl pids runs).0,
      procs,
    )
