-- ===== src/Os/Stays.antt =====
-- What a step of a CPU leaves of the places of a process, for a process that has not finished.
use simple_os_simulator.Prelude.{
  ℕ, ◌+◌, ◌<◌, ◌≤◌, ◌≡◌, ap, subst, ◌∙◌, ◌⊎◌, inl, inr, arith, Bool, none, some, Option-cases,
  length, get_elem?, lt-length_of_get_elem?,
}
use native.Mathlib.Decide.{ℕ_discrete}
use simple_os_simulator.Queue.{max_queue_size}
use simple_os_simulator.Sched.Occupancy.{held, queued, queued-enqueue_at, queued-get_mlq_proc}
use simple_os_simulator.Krnl.{Krnl, Pcb}
use simple_os_simulator.Krnl.Labels.{Leaves, label_at}
use simple_os_simulator.Cpu.{Junk, run}
use simple_os_simulator.Os.{Sys, Cpu, get_proc, put_proc, drop_proc, ask, enter_proc, exec_proc}
use simple_os_simulator.Os.Occupancy.{present, IsSound, put_proc-some, queued-remove_proc}
use simple_os_simulator.Os.Leave.{Left, free, finished, over, going}
use simple_os_simulator.Os.Room.{one_if_le, contents_lt}

-- The process has no instruction left.
abbrev pub IsFinished : Krnl → ℕ → Type 0
IsFinished k q = (pcb : Pcb) × (get_elem? k.procs q ≡ some pcb) × (pcb.pc ≡ length pcb.code)

-- No process loses a place of the queues or of this CPU unless it has finished, and one that has finished
-- stays so or is on this CPU.
pub record Stays (cpu : Cpu) (sys : Sys) (r : Cpu × Sys) : Type 0 where
  pub more :
      (q : ℕ)
      → (queued sys.sched q + held q cpu.proc ≤ queued r.1.sched q + held q r.0.proc)
        ⊎ IsFinished r.1.krnl q
  pub ended : (q : ℕ) → IsFinished sys.krnl q → (0 < held q r.0.proc) ⊎ IsFinished r.1.krnl q

pub Stays-refl : (cpu : Cpu) (sys : Sys) → Stays cpu sys (cpu, sys)
Stays-refl cpu sys = record { more = λ q. inl (omega arith); ended = λ q h. inr h }

Stays-drop_proc :
    (cpu : Cpu) (sys : Sys) (p : ℕ)
    → cpu.proc ≡ some p
    → IsFinished sys.krnl p
    → Stays cpu sys (record { time_left = 0; proc = none }, drop_proc sys p)
unfolding drop_proc
Stays-drop_proc cpu sys p on last = record {
  more = λ q. elim (ℕ_discrete p q) [
    | yes e ↦ inr (subst (IsFinished sys.krnl) e last)
    | no ne ↦ inl (grind (arith, queued-remove_proc sys.sched p q, ap (held q) on, ne))
  ];
  ended = λ q h. inr h;
}

Stays-put_proc :
    (cpu : Cpu) (sys t : Sys) (p prio : ℕ)
    → cpu.proc ≡ some p
    → ((q : ℕ) → queued sys.sched q + held q cpu.proc ≤ present sys.krnl q)
    → length sys.krnl.procs ≤ max_queue_size
    → p < length sys.krnl.procs
    → (a : ℕ) → IsSound a sys
    → put_proc sys p prio ≡ some t
    → Stays cpu sys (record cpu { proc = none }, t)
Stays-put_proc cpu sys t p prio on once few inside a sound e =
    let (small, same) = put_proc-some sys t p prio e in
    let absent : queued sys.sched p ≡ 0 =
      grind (arith, once p, ap (held p) on, one_if_le (label_at sys.krnl p)) in
    let room =
      contents_lt sys.sched sys.krnl (λ q. omega (arith, once q)) prio small p inside absent in
    subst (λ t. Stays cpu sys (record cpu { proc = none }, t)) same
      (record {
        more = λ q. inl (
            omega (
              arith,
              queued-enqueue_at sys.sched q p prio sound.sched small (omega (arith, room, few)),
              ap (held q) on,
            ));
        ended = λ q h. inr h;
      })

pub leave-Stays :
    (a : ℕ) (cpu cpu' : Cpu) (sys sys' : Sys) (asks : Bool)
    → IsSound a sys
    → ((q : ℕ) → queued sys.sched q + held q cpu.proc ≤ present sys.krnl q)
    → length sys.krnl.procs ≤ max_queue_size
    → Left cpu sys asks cpu' sys'
    → Stays cpu sys (cpu', sys')
leave-Stays a cpu cpu' sys sys' asks sound once few (free h) = Stays-refl cpu sys
leave-Stays a cpu cpu' sys sys' asks sound once few (finished p pcb on here ended) =
    Stays-drop_proc cpu sys p on (pcb, here, ended)
leave-Stays a cpu cpu' sys sys' asks sound once few (over p pcb t on here put) =
    Stays-put_proc cpu sys sys' p pcb.prio on once few
      (lt-length_of_get_elem? sys.krnl.procs p here) a sound put
leave-Stays a cpu cpu' sys sys' asks sound once few (going p on) = Stays-refl cpu sys

pub ask-Stays :
    (a : ℕ) (cpu : Cpu) (sys : Sys) → IsSound a sys → cpu.proc ≡ none → Stays cpu sys (ask cpu sys)
unfolding ask get_proc
ask-Stays a cpu sys sound idle = record {
  more = λ q. inl (omega (arith, queued-get_mlq_proc sys.sched q sound.sched, ap (held q) idle));
  ended = λ q h. inr h;
}

enter_proc_same :
    (sys sys' : Sys) (p : ℕ)
    → enter_proc p sys ≡ some sys'
    → (sys'.sched ≡ sys.sched) × (sys'.krnl.procs ≡ sys.krnl.procs)
unfolding enter_proc
enter_proc_same sys sys' p e = elim (Option-cases (get_elem? sys.krnl.procs p)) [
  | inl h ↦ absurd (ground (arith, e, h))
  | inr (pcb, here) ↦ elim (Option-cases pcb.own_mm) [
    | inl h ↦ (ground (arith, e, here, h), ground (arith, e, here, h))
    | inr (mm, h) ↦ (ground (arith, e, here, h), ground (arith, e, here, h))
  ]
]

pub enter-Stays :
    (cpu cpu' : Cpu) (sys sys' : Sys) (p : ℕ)
    → cpu.proc ≡ some p
    → cpu'.proc ≡ some p
    → enter_proc p sys ≡ some sys'
    → Stays cpu sys (cpu', sys')
enter-Stays cpu cpu' sys sys' p on on' e =
    let (s, k) = enter_proc_same sys sys' p e in
    record {
      more = λ q. inl (omega (arith, ap (λ t. queued t q) s, ap (held q) on, ap (held q) on'));
      ended = λ q (pcb, here, ended). inr (pcb, ap (λ ps. get_elem? ps q) k ∙ here, ended);
    }

pub exec_proc_on :
    (junk : Junk) (p time_left : ℕ) (sys sys' : Sys) (cpu' : Cpu)
    → exec_proc junk p time_left sys ≡ some (cpu', sys')
    → cpu'.proc ≡ some p
unfolding exec_proc
exec_proc_on junk p time_left sys sys' cpu' e = elim (Option-cases (run junk p sys.krnl)) [
  | inl h ↦ absurd (ground (arith, e, h))
  | inr (_, h) ↦ ground (arith, e, h)
]

pub exec-Stays :
    (cpu cpu' : Cpu) (sys sys' : Sys) (p : ℕ)
    → cpu.proc ≡ some p
    → cpu'.proc ≡ some p
    → Leaves p sys.krnl sys'.krnl × (sys'.sched ≡ sys.sched)
    → Stays cpu sys (cpu', sys')
exec-Stays cpu cpu' sys sys' p on on' (touched, s) = record {
  more = λ q. inl (omega (arith, ap (λ t. queued t q) s, ap (held q) on, ap (held q) on'));
  ended = λ q (pcb, here, ended). elim (ℕ_discrete q p) [
    | yes e ↦ inl (ground (arith, ap (held q) on', e))
    | no ne ↦ inr (pcb, touched.others q ne ∙ here, ended)
  ];
}
