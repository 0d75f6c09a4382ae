-- ===== src/Os/Setup.antt =====
-- The steps of `ld_routine` in src/os.c that make the memory of a process, before it joins: what they leave
-- of the processes there are, wherever `krnl->mm` points.
use simple_os_simulator.Prelude.{
  ℕ, ◌≡◌, refl, ap, sym, ◌∙◌, subst, inl, inr, arith, some, Option-cases, List, length, get_elem?,
  set, get_elem?-set_self, get_elem?-set_ne, lt-length_of_get_elem?,
}
use native.Mathlib.Decide.{ℕ_discrete}
use simple_os_simulator.Sched.Invariant.{IsValid}
use simple_os_simulator.Mm.{Rg, init_mm}
use simple_os_simulator.Krnl.{Krnl, Pcb}
use simple_os_simulator.Krnl.Labels.{label_at}
use simple_os_simulator.Cpu.Isolation.{Leaves-set}
use simple_os_simulator.Os.{Sys, alloc_mm, init_krnl_mm}
use simple_os_simulator.Os.Occupancy.{IsSound, IsSound-krnl}
use simple_os_simulator.Os.Stays.{IsFinished}

-- The scheduler, the labels and the finished processes are as they were.
pub record Quiet (sys t : Sys) : Type 0 where
  pub sched : t.sched ≡ sys.sched
  pub same_list : t.krnl.running_list ≡ sys.krnl.running_list
  pub labels : (q : ℕ) → label_at t.krnl q ≡ label_at sys.krnl q
  pub finished : (q : ℕ) → IsFinished sys.krnl q → IsFinished t.krnl q

pub alloc_mm-Quiet : (sys : Sys) → Quiet sys (alloc_mm sys)
alloc_mm-Quiet sys = record {
  sched = refl;
  same_list = refl;
  labels = λ q. refl;
  finished = λ q h. h;
}

-- Another memory for a process.
Quiet-set :
    (sys : Sys) (p : ℕ) (pcb : Pcb) (symrgtbl : List Rg)
    → get_elem? sys.krnl.procs p ≡ some pcb
    → let pcb' = record pcb { own_mm = some (init_mm symrgtbl) } in
      Quiet sys (record sys { krnl = record sys.krnl { procs = set sys.krnl.procs p pcb' } })
Quiet-set sys p pcb symrgtbl here =
    let pcb' : Pcb = record pcb { own_mm = some (init_mm symrgtbl) } in
    let k' : Krnl = record sys.krnl { procs = set sys.krnl.procs p pcb' } in
    let there =
      get_elem?-set_self sys.krnl.procs p pcb' (lt-length_of_get_elem? sys.krnl.procs p here) in
    record {
      sched = refl;
      same_list = refl;
      labels = (Leaves-set p sys.krnl pcb pcb' here refl).labels;
      finished = λ q (b, at, ended). elim (ℕ_discrete p q) [
        | no ne ↦ (b, get_elem?-set_ne sys.krnl.procs p q pcb' ne ∙ at, ended)
        | yes e ↦
            let at_p = ap (get_elem? sys.krnl.procs) e ∙ at in
            let same : pcb ≡ b = ground (arith, here, at_p) in
            subst (IsFinished k') e
              (pcb', there, subst (λ (c : Pcb). c.pc ≡ length c.code) (sym same) ended)
      ];
    }

pub init_krnl_mm-Quiet :
    (symrgtbl : List Rg) (sys t : Sys) → init_krnl_mm symrgtbl sys ≡ some t → Quiet sys t
unfolding init_krnl_mm
init_krnl_mm-Quiet symrgtbl sys t e = elim (Option-cases sys.krnl.mm) [
  | inl h ↦ absurd (ground (arith, e, h))
  | inr (c, h) ↦ elim (ℕ_discrete c (length sys.krnl.procs)) [
    | yes new ↦
        let made : Sys = record sys {
          krnl = record sys.krnl { fresh = some (init_mm symrgtbl) };
        } in
        let same : made ≡ t = ground (arith, e, h, new) in
        subst (Quiet sys) same
          (record { sched = refl; same_list = refl; labels = λ q. refl; finished = λ q h. h })
    | no old ↦ elim (Option-cases (get_elem? sys.krnl.procs c)) [
      | inl gone ↦ absurd (ground (arith, e, h, old, gone))
      | inr (pcb, here) ↦ elim (Option-cases pcb.own_mm) [
        | inl bare ↦ absurd (ground (arith, e, h, old, here, bare))
        | inr (mm, has) ↦
            subst (Quiet sys) (ground (arith, e, h, old, here, has))
              (Quiet-set sys c pcb mm.symrgtbl here)
      ]
    ]
  ]
]

pub IsSound-Quiet : (a : ℕ) (sys t : Sys) → Quiet sys t → IsSound a sys → IsSound a t
IsSound-Quiet a sys t quiet sound =
    let other = IsSound-krnl a sys t.krnl quiet.labels quiet.same_list sound in
    record {
      sched = subst IsValid (sym quiet.sched) sound.sched;
      one_list = rw (quiet.same_list, quiet.sched) sound.one_list;
      pids = other.pids;
      prios = other.prios;
      unique = other.unique;
    }
