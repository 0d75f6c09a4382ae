-- ===== src/Os/Loading.antt =====
-- src/os.c: what `ld_routine` does with the entries of the configuration, one after another. The wait for
-- the start time of an entry is left out: it is `next_slot` of Timer until the time has come.
use Prim.Native.String.{String}
use simple_os_simulator.Prelude.{
  ℕ, ◌+◌, ◌^◌, ◌<◌, ◌≡◌, refl, sym, subst, ◌∙◌, arith, true, none, some, List, [], ◌∷◌, ◌++◌,
  length, map, ap₂, Option-cases, inl, inr,
}
use mathlib.Core.List.{append_assoc, append-nil}
use simple_os_simulator.Prelude.Word.{u32}
use simple_os_simulator.Memphy.{Memphy}
use simple_os_simulator.Sched.{max_prio, add_mlq_proc, enqueue_at}
use simple_os_simulator.Mm.{Mm, Rg, init_mm}
use simple_os_simulator.Krnl.{Pcb}
use simple_os_simulator.Stdio.{Stdio, IsStdio}
use simple_os_simulator.Loader.{
  Ending, returned, returned-bind, ◌>>=◌, Memory, or_exit, initialised, initialised-returned,
  read_code, load,
}
use simple_os_simulator.Loader.Written.{Written, program, AllWritten, code_of}
use simple_os_simulator.Loader.RoundTrip.{load-program}
use simple_os_simulator.Os.{Sys, alloc_mm, init_krnl_mm, take_mm, ready_proc, admit, add_proc}
use simple_os_simulator.Os.System.{
  System, Setup, allocating, initialising, owning, loading, closing, Reach, later,
}

-- An element of `ld_processes`.
pub record Entry : Type 0 where
  pub path : String
  pub start_time : ℕ
  pub prio : ℕ

-- What `malloc` leaves in the control block and in the symbol table of a process.
pub record Fresh : Type 0 where
  pub memory : Memory
  pub symrgtbl : List Rg

-- One round of the loop of `ld_routine`; `prio` of the control block has 32 bits.
unfoldable pub load_entry : Stdio → Fresh → Entry → System → Ending System
load_entry io fresh entry s = load io entry.path fresh.memory s.avail_pid >>= λ (pcb, next).
    initialised (admit fresh.symrgtbl s.sys pcb (u32 entry.prio)) >>= λ sys.
    returned (record s { sys = sys; avail_pid = next })

-- The loop from entry `i` on, and `done = 1`.
unfoldable pub ld_routine : Stdio → (ℕ → Fresh) → ℕ → List Entry → System → Ending System
ld_routine io fresh i [] s = returned (record s { sys = record s.sys { done = true } })
ld_routine io fresh i (entry ∷ entries) s =
    load_entry io (fresh i) entry s >>= λ s'. ld_routine io fresh (i + 1) entries s'

-- The four calls that `admit` is made of.
admit-steps :
    (symrgtbl : List Rg) (sys t : Sys) (pcb : Pcb) (prio : ℕ)
    → admit symrgtbl sys pcb prio ≡ some t
    → (made : Sys) × (own_mm : Mm) × (init_krnl_mm symrgtbl (alloc_mm sys) ≡ some made)
      × (take_mm made ≡ some own_mm)
      × (ready_proc own_mm made pcb prio ≡ some t)
unfolding admit
admit-steps symrgtbl sys t pcb prio e = elim (Option-cases (init_krnl_mm symrgtbl (alloc_mm sys))) [
  | inl h ↦ absurd (ground (arith, e, h))
  | inr (made, h) ↦ elim (Option-cases (take_mm made)) [
    | inl h' ↦ absurd (ground (arith, e, h, h'))
    | inr (mm, h') ↦ (made, mm, h, h', ground (arith, e, h, h'))
  ]
]

load_pid :
    (io : Stdio) (path : String) (memory : Memory) (a next : ℕ) (pcb : Pcb)
    → load io path memory a ≡ returned (pcb, next)
    → (pcb.pid ≡ a) × (next ≡ u32 (a + 1))
unfolding load
load_pid io path memory a next pcb e =
    let (file, opened, e₁) = returned-bind (or_exit (io.fopen path)) _ _ e in
    let (code, read, e₂) = returned-bind (read_code io _ memory.text 0 _) _ _ e₁ in
    (ground (arith, e₂), ground (arith, e₂))

-- An entry of the configuration that is loaded is four steps of the loader, with no other thread's between
-- them.
load_entry-Reach :
    {n time_slot : ℕ} {mram active_mswp : Memphy} (io : Stdio) (fresh : Fresh) (entry : Entry)
    (s t : System)
    → Reach n time_slot mram active_mswp s
    → s.loader ≡ Setup.waiting
    → s.avail_pid + 1 < 2 ^ 32
    → load_entry io fresh entry s ≡ returned t
    → Reach n time_slot mram active_mswp t
      × (t.loader ≡ Setup.waiting)
      × (t.avail_pid ≡ s.avail_pid + 1)
unfolding load_entry
load_entry-Reach {n} {time_slot} {mram} {active_mswp} io fresh entry s t r waits small e =
    let ((pcb, next), read, e₁) =
      returned-bind (load io entry.path fresh.memory s.avail_pid) _ _ e in
    let (sys, joins, e₂) =
      returned-bind (initialised (admit fresh.symrgtbl s.sys pcb (u32 entry.prio))) _ _ e₁ in
    let (pid, next_pid) = load_pid io entry.path fresh.memory s.avail_pid next pcb read in
    let counted : s.avail_pid + 1 ≡ next = omega (arith, next_pid, small) in
    let after : System = record s { sys = sys; loader = Setup.waiting; avail_pid = next } in
    let same : after ≡ t = ground (arith, e₂, waits) in
    let (made, mm, inits, takes, readies) =
      admit-steps fresh.symrgtbl s.sys sys pcb (u32 entry.prio)
        (initialised-returned _ sys joins) in
    let ready : Reach n time_slot mram active_mswp
        (record s { sys = sys; loader = Setup.waiting; avail_pid = s.avail_pid + 1 }) =
      later
        (later (later (later r (allocating waits)) (initialising fresh.symrgtbl made refl inits))
          (owning mm refl takes))
        (loading mm pcb (u32 entry.prio) sys refl pid small readies) in
    subst
      (λ t.
        Reach n time_slot mram active_mswp t
        × (t.loader ≡ Setup.waiting)
        × (t.avail_pid ≡ s.avail_pid + 1))
      same
      (subst
        (λ a.
          Reach n time_slot mram active_mswp
            (record s { sys = sys; loader = Setup.waiting; avail_pid = a })
          × (Setup.waiting ≡ Setup.waiting)
          × (a ≡ s.avail_pid + 1))
        counted (ready, refl, refl))

module _ {n time_slot : ℕ} {mram active_mswp : Memphy} where
  -- In any state that the simulator reaches and the loader waits in, the loop of ld_routine, where it returns, leaves a
  -- state that the simulator reaches, in which done is set, as long as the pids fit 32 bits.
  pub ld_routine-Reach :
      (io : Stdio) (fresh : ℕ → Fresh) (i : ℕ) (entries : List Entry) (s t : System)
      → Reach n time_slot mram active_mswp s
      → s.loader ≡ Setup.waiting
      → s.avail_pid + length entries < 2 ^ 32
      → ld_routine io fresh i entries s ≡ returned t
      → Reach n time_slot mram active_mswp t × (t.sys.done ≡ true)
  unfolding ld_routine
  ld_routine-Reach io fresh i [] s t r waits small e =
      let ended : System = record s { sys = record s.sys { done = true } } in
      let same : ended ≡ t = ground (arith, e) in
      subst (λ t. Reach n time_slot mram active_mswp t × (t.sys.done ≡ true)) same
        (later r closing, refl)
  ld_routine-Reach io fresh i (entry ∷ entries) s t r waits small e =
      let (s', loaded, rest) = returned-bind (load_entry io (fresh i) entry s) _ _ e in
      let (reached, idle, pids) =
        load_entry-Reach io (fresh i) entry s s' r waits (omega (arith, small)) loaded in
      ld_routine-Reach io fresh (i + 1) entries s' t reached idle (omega (arith, small, pids)) rest

-- An entry, and the program in the file that it names.
pub record Given : Type 0 where
  pub entry : Entry
  pub priority : ℕ
  pub program : List Written

abbrev pub AllFiles : {io : Stdio} → IsStdio io → List Given → Type 0
AllFiles text [] = Unit {0}
AllFiles {io} text (g ∷ gs) =
    ((file : io.File) × (io.fopen g.entry.path ≡ some file)
      × text.Shows file (program g.priority g.program)
      × (g.priority < 2 ^ 32)
      × (length g.program < 2 ^ 32)
      × AllWritten g.program
      × (g.entry.prio < max_prio))
    × AllFiles text gs

-- The control block of an entry, once it is loaded.
abbrev process_of : Fresh → ℕ → Given → Pcb
process_of fresh a g = record {
  pid = a;
  priority = g.priority;
  prio = g.entry.prio;
  pc = 0;
  code = code_of g.program fresh.memory.text 0;
  own_mm = some (init_mm fresh.symrgtbl);
}

abbrev pub processes : (ℕ → Fresh) → ℕ → ℕ → List Given → List Pcb
processes fresh i a [] = []
processes fresh i a (g ∷ gs) = process_of (fresh i) a g ∷ processes fresh (i + 1) (a + 1) gs

admit_defined :
    (symrgtbl : List Rg) (sys : Sys) (pcb : Pcb) (prio : ℕ)
    → prio < max_prio
    → (t : Sys) × (admit symrgtbl sys pcb prio ≡ some t)
      × (t.krnl.procs
          ≡ sys.krnl.procs ++ (record pcb { prio = prio; own_mm = some (init_mm symrgtbl) } ∷ []))
unfolding admit init_krnl_mm take_mm ready_proc add_proc add_mlq_proc
admit_defined symrgtbl sys pcb prio lt =
    let p = length sys.krnl.procs in
    let t : Sys = record sys {
      sched = enqueue_at sys.sched p prio;
      krnl = record sys.krnl {
        procs =
            sys.krnl.procs ++ (record pcb { prio = prio; own_mm = some (init_mm symrgtbl) } ∷ []);
        mm = some p;
        fresh = some (init_mm symrgtbl);
        running_list = some sys.sched.running_list;
      };
    } in
    (t, ground (arith, lt), refl)

load_entry-program :
    {io : Stdio} (text : IsStdio io) (fresh : Fresh) (g : Given) (gs : List Given) (s : System)
    → AllFiles text (g ∷ gs)
    → s.avail_pid + 1 < 2 ^ 32
    → (t : System) × (load_entry io fresh g.entry s ≡ returned t)
      × (t.sys.krnl.procs ≡ s.sys.krnl.procs ++ (process_of fresh s.avail_pid g ∷ []))
      × (t.avail_pid ≡ s.avail_pid + 1)
unfolding load_entry
load_entry-program {io} text fresh g gs s ((file, opened, shows, prios, few, written, prio), files)
      small =
    let read =
      load-program text g.entry.path file fresh.memory s.avail_pid g.priority g.program opened shows
        prios few written in
    let pcb : Pcb = record (process_of fresh s.avail_pid g) {
      prio = fresh.memory.prio;
      own_mm = none;
    } in
    let (sys, joins, procs) = admit_defined fresh.symrgtbl s.sys pcb g.entry.prio prio in
    let same : u32 g.entry.prio ≡ g.entry.prio = omega (arith, prio) in
    let next : u32 (s.avail_pid + 1) ≡ s.avail_pid + 1 = omega (arith, small) in
    (
      record s { sys = sys; avail_pid = s.avail_pid + 1 },
      rw (read, same, joins, next) refl,
      procs,
      refl,
    )

-- Where each entry names a file with a program and has a priority below 140, the loop of
-- ld_routine returns, the processes are those of the programs, in order, after the ones there
-- were, and done is set, as long as the pids fit 32 bits.
pub ld_routine-processes :
    {io : Stdio} (text : IsStdio io) (fresh : ℕ → Fresh) (i : ℕ) (gs : List Given) (s : System)
    → AllFiles text gs
    → s.avail_pid + length gs < 2 ^ 32
    → (t : System) × (ld_routine io fresh i (map (λ g. g.entry) gs) s ≡ returned t)
      × (t.sys.krnl.procs ≡ s.sys.krnl.procs ++ processes fresh i s.avail_pid gs)
      × (t.sys.done ≡ true)
unfolding ld_routine
ld_routine-processes text fresh i [] s files small =
    (record s { sys = record s.sys { done = true } }, refl, sym (append-nil s.sys.krnl.procs), refl)
ld_routine-processes {io} text fresh i (g ∷ gs) s files small =
    let (s', loaded, joined, pids) =
      load_entry-program text (fresh i) g gs s files (omega (arith, small)) in
    let (t, rest, procs, ended) =
      ld_routine-processes text fresh (i + 1) gs s' files.1 (omega (arith, small, pids)) in
    let more : t.sys.krnl.procs ≡ s.sys.krnl.procs ++ processes fresh i s.avail_pid (g ∷ gs) =
      procs
      ∙ ap₂ (λ ps a. ps ++ processes fresh (i + 1) a gs) joined pids
      ∙ append_assoc s.sys.krnl.procs _ _ in
    (t, rw loaded rest, more, ended)
