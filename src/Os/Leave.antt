-- ===== src/Os/Leave.antt =====
-- The ways in which a CPU of src/os.c leaves the part of its round before `get_proc`.
use simple_os_simulator.Prelude.{
  ℕ, ◌≡◌, refl, subst, inl, inr, arith, Bool, true, false, Option, none, some, length, get_elem?,
  Option-cases,
}
use native.Mathlib.Decide.{ℕ_discrete}
use simple_os_simulator.Krnl.{Pcb}
use simple_os_simulator.Os.{Sys, Cpu, put_proc, drop_proc, leave}

-- Without a process, with one that has finished, with one whose slot is over, and with one that goes on.
pub data Left (cpu : Cpu) (sys : Sys) : Bool → Cpu → Sys → Type 0 where
  free : cpu.proc ≡ none → Left cpu sys true cpu sys
  finished :
      (p : ℕ) (pcb : Pcb)
      → cpu.proc ≡ some p
      → get_elem? sys.krnl.procs p ≡ some pcb
      → pcb.pc ≡ length pcb.code
      → Left cpu sys true (record { time_left = 0; proc = none }) (drop_proc sys p)
  over :
      (p : ℕ) (pcb : Pcb) (sys' : Sys)
      → cpu.proc ≡ some p
      → get_elem? sys.krnl.procs p ≡ some pcb
      → put_proc sys p pcb.prio ≡ some sys'
      → Left cpu sys true (record cpu { proc = none }) sys'
  going : (p : ℕ) → cpu.proc ≡ some p → Left cpu sys false cpu sys

pub leave-Left :
    (cpu cpu' : Cpu) (sys sys' : Sys) (asks : Bool)
    → leave cpu sys ≡ some (asks, cpu', sys')
    → Left cpu sys asks cpu' sys'
unfolding leave
leave-Left cpu cpu' sys sys' asks e = elim (Option-cases cpu.proc) [
  | inl h ↦ is true cpu sys (ground (arith, e, h)) (free h)
  | inr (p, on) ↦ elim (Option-cases (get_elem? sys.krnl.procs p)) [
    | inl h ↦ absurd (ground (arith, e, on, h))
    | inr (pcb, here) ↦ elim (ℕ_discrete pcb.pc (length pcb.code)) [
      | yes ended ↦ is true _ _ (ground (arith, e, on, here, ended)) (finished p pcb on here ended)
      | no unfinished ↦ elim (ℕ_discrete cpu.time_left 0) [
        | no more ↦ is false cpu sys (ground (arith, e, on, here, unfinished, more)) (going p on)
        | yes up ↦ elim (Option-cases (put_proc sys p pcb.prio)) [
          | inl h ↦ absurd (ground (arith, e, on, here, unfinished, up, h))
          | inr (t, put) ↦
              is true _ _ (ground (arith, e, on, here, unfinished, up, put))
                (over p pcb t on here put)
        ]
      ]
    ]
  ]
]
  where
    is :
        (b : Bool) (c : Cpu) (t : Sys)
        → ◌≡◌ {A = Option (Bool × Cpu × Sys)} (some (b, c, t)) (some (asks, cpu', sys'))
        → Left cpu sys b c t
        → Left cpu sys asks cpu' sys'
    is b c t same left =
        let pair : ◌≡◌ {A = Bool × Cpu × Sys} (b, c, t) (asks, cpu', sys') = ground (arith, same) in
        subst (λ r. Left cpu sys r.0 r.1 r.2) pair left

-- A CPU that asks for a process has none.
pub asks_free :
    (cpu cpu' : Cpu) (sys sys' : Sys) (asks : Bool)
    → Left cpu sys asks cpu' sys'
    → asks ≡ true
    → cpu'.proc ≡ none
asks_free cpu cpu' sys sys' asks (free h) e = h
asks_free cpu cpu' sys sys' asks (finished p pcb on here ended) e = refl
asks_free cpu cpu' sys sys' asks (over p pcb t on here put) e = refl
asks_free cpu cpu' sys sys' asks (going p on) e = cc
