-- ===== src/Syscall/Isolation.antt =====
-- The process that a system call acts for, and what it touches of the others.
use simple_os_simulator.Prelude.{
  ℕ, zero, suc, ◌≡◌, ap, subst, ◌⊎◌, arith, Option-cases, inl, inr, Option, none, some, List,
  get_elem?, get_or, ◌==◌, if◌then◌else◌, Status,
}
use mathlib.Core.Option
use native.Mathlib.Decide.{ℕ_discrete}
use simple_os_simulator.Memphy.{read, write}
use simple_os_simulator.Mm.{Mm}
use simple_os_simulator.Vm.{vmap_pgd_memset, inc_vma_limit, mm_swap_page}
use simple_os_simulator.Prelude.Word.{u8, int_pos, int_to_u64}
use simple_os_simulator.Krnl.{Krnl, Pcb, M, ret, ◌>>=◌, get_pcb, put_mm}
use simple_os_simulator.Krnl.Confined.{
  Touches, Touches-refl, Touches-trans, Touches-devices, OwnPid, OwnPid-Touches, ident, Confined,
  Confined-ret, Confined-fault, Confined-bind, Confined-then, Confined-if, Confined-get_own_mm,
  Confined-put_mm,
}
use simple_os_simulator.Syscall.{
  ScRegs, this_or, find_from, find_caller, map_op, inc_op, swp_op, io_read, io_write, memop,
  sys_memmap, sys_listsyscall, sys_ni_syscall, syscall, libsyscall,
}

map_op-Confined : (p : ℕ) (regs : ScRegs) → Confined p (map_op p regs)
unfolding map_op
map_op-Confined p regs = Confined-bind p _ _ (Confined-get_own_mm p p) own
  where
    own :
        (o : Option Mm)
        → Confined p (elim o [
          | none ↦ if int_pos regs.a3 == 0 then ret tt else (λ k. none)
          | some mm ↦ put_mm p (vmap_pgd_memset mm regs.a2 regs.a3)
        ])
    own none = Confined-if p _ _ _ (Confined-ret p tt) (Confined-fault p)
    own (some mm) = Confined-put_mm p _

inc_op-Confined : (p : ℕ) (regs : ScRegs) → Confined p (inc_op p regs)
unfolding inc_op
inc_op-Confined p regs = Confined-bind p _ _ (Confined-get_own_mm p p) own
  where
    own :
        (o : Option Mm)
        → Confined p {A = Unit {0}} (elim o [
          | none ↦ ret tt
          | some mm ↦ λ k.
              let (_, mm', mram') = inc_vma_limit mm k.mram (int_to_u64 regs.a2) regs.a3 in
              put_mm p mm' (record k { mram = mram' })
        ])
    own none = Confined-ret p tt
    own (some mm) = record {
      at = λ k a k' own e.
          let grown = inc_vma_limit mm k.mram (int_to_u64 regs.a2) regs.a3 in
          let dev = Touches-devices p k grown.2 k.active_mswp in
          Touches-trans p k (record k { mram = grown.2 }) k' dev
            ((Confined-put_mm p grown.1).at (record k { mram = grown.2 }) a k' own e);
    }

swp_op-Confined : (p junk : ℕ) (regs : ScRegs) → Confined p (swp_op junk regs)
unfolding swp_op
swp_op-Confined p junk regs = record {
  at = λ k a k' own e.
      elim (Option-cases (mm_swap_page junk k.mram k.active_mswp regs.a2 regs.a3)) [
        | inl h ↦ absurd (ground (arith, e, h))
        | inr ((mram, mswp), h) ↦
            subst (Touches p k) (ground (arith, e, h)) (Touches-devices p k mram mswp)
      ];
}

io_read-Confined : (p junk : ℕ) (regs : ScRegs) → Confined p (io_read junk regs)
unfolding io_read
io_read-Confined p junk regs = record {
  at = λ k a k' own e. elim (Option-cases (read k.mram regs.a2 junk)) [
    | inl h ↦ absurd (ground (arith, e, h))
    | inr ((st, byte, mram), h) ↦
        subst (Touches p k) (ground (arith, e, h)) (Touches-devices p k mram k.active_mswp)
  ];
}

io_write-Confined : (p : ℕ) (regs : ScRegs) → Confined p (io_write regs)
unfolding io_write
io_write-Confined p regs = record {
  at = λ k a k' own e. elim (Option-cases (write k.mram regs.a2 (u8 regs.a3))) [
    | inl h ↦ absurd (ground (arith, e, h))
    | inr ((st, mram), h) ↦
        subst (Touches p k) (ground (arith, e, h)) (Touches-devices p k mram k.active_mswp)
  ];
}

memop-Confined : (p junk : ℕ) (regs : ScRegs) → Confined p (memop junk p regs)
unfolding memop
memop-Confined p junk regs =
    let done = Confined-ret p regs in
    Confined-if p _ _ _ (Confined-then p _ _ (map_op-Confined p regs) done) (
      Confined-if p _ _ _ (Confined-then p _ _ (inc_op-Confined p regs) done) (
        Confined-if p _ _ _ (Confined-then p _ _ (swp_op-Confined p junk regs) done) (
          Confined-if p _ _ _ (io_read-Confined p junk regs)
            (Confined-if p _ _ _ (Confined-then p _ _ (io_write-Confined p regs) done) done))))

-- The search finds a process with the pid.
find_from_pid :
    (n i : ℕ) (a : List ℕ) (procs : List Pcb) (pid c : ℕ)
    → find_from n i a procs pid ≡ some (some c)
    → (pcb : Pcb) × (get_elem? procs c ≡ some pcb) × (pcb.pid ≡ pid)
unfolding find_from this_or
find_from_pid zero i a procs pid c e = absurd (ground (arith, e))
find_from_pid (suc n) i a procs pid c e = elim (Option-cases (get_elem? procs (get_or a i 0))) [
  | inl h ↦ absurd (ground (arith, e, h))
  | inr (pcb, h) ↦ elim (ℕ_discrete pcb.pid pid) [
    | yes same ↦
        let at : get_or a i 0 ≡ c = ground (arith, e, h, same) in
        (pcb, subst (λ q. get_elem? procs q ≡ some pcb) at h, same)
    | no other ↦ find_from_pid n (suc i) a procs pid c (ground (arith, e, h, other))
  ]
]

-- What the search of `__sys_memmap` gives for the pid of `p`: `p` or nothing, in the same state.
find_caller_own :
    (k : Krnl) (p : ℕ) (pcb : Pcb) (c : Option ℕ) (k' : Krnl)
    → OwnPid k p
    → get_elem? k.procs p ≡ some pcb
    → find_caller pcb.pid k ≡ some (c, k')
    → (k ≡ k') × ((c ≡ none) ⊎ (c ≡ some p))
unfolding find_caller
find_caller_own k p pcb c k' own here e = elim (Option-cases k.running_list) [
  | inl h ↦ (ground (arith, e, h), inl (ground (arith, e, h)))
  | inr (rl, h) ↦ elim (Option-cases (find_from rl.size 0 rl.proc k.procs pcb.pid)) [
    | inl n ↦ absurd (ground (arith, e, h, n))
    | inr (none, f) ↦ (ground (arith, e, h, f), inl (ground (arith, e, h, f)))
    | inr (some q, f) ↦
        let (x, at_q, same) = find_from_pid rl.size 0 rl.proc k.procs pcb.pid q f in
        let me : q ≡ p =
          own (ident pcb) (ident x) q (ap (Option.map ident) here) (ap (Option.map ident) at_q)
            same in
        (ground (arith, e, h, f), inr (ground (arith, e, h, f, me)))
  ]
]

sys_memmap-Touches :
    (k : Krnl) (p : ℕ) (pcb : Pcb) (junk : ℕ) (regs : ScRegs) (a : Status × ScRegs) (k' : Krnl)
    → OwnPid k p
    → get_elem? k.procs p ≡ some pcb
    → sys_memmap junk pcb.pid regs k ≡ some (a, k')
    → Touches p k k'
unfolding sys_memmap
sys_memmap-Touches k p pcb junk regs a k' own here e = elim (Option-cases (find_caller pcb.pid k)) [
  | inl h ↦ absurd (ground (arith, e, h))
  | inr ((c, k₁), h) ↦
      let (same, found) = find_caller_own k p pcb c k₁ own here h in
      elim found [
        | inl nobody ↦
            let stays : k ≡ k' = ground (arith, e, h, nobody, same) in
            subst (Touches p k) stays (Touches-refl p k)
        | inr mine ↦ elim (Option-cases (memop junk p regs k)) [
          | inl n ↦ absurd (ground (arith, e, h, mine, same, n))
          | inr ((regs', k₂), m) ↦
              let ends : k₂ ≡ k' = ground (arith, e, h, mine, same, m) in
              subst (Touches p k) ends ((memop-Confined p junk regs).at k regs' k₂ own m)
        ]
      ]
]

-- A system call for the pid of `p` touches only `p`.
syscall-Touches :
    (k : Krnl) (p : ℕ) (pcb : Pcb) (junk nr : ℕ) (regs : ScRegs) (a : Status × ScRegs) (k' : Krnl)
    → OwnPid k p
    → get_elem? k.procs p ≡ some pcb
    → syscall junk pcb.pid nr regs k ≡ some (a, k')
    → Touches p k k'
unfolding syscall sys_listsyscall sys_ni_syscall
syscall-Touches k p pcb junk nr regs a k' own here e = elim (ℕ_discrete nr 17) [
  | yes memmap ↦ sys_memmap-Touches k p pcb junk regs a k' own here (ground (arith, e, memmap))
  | no other ↦
      let stays : k ≡ k' = ground (arith, e, other) in subst (Touches p k) stays (Touches-refl p k)
]

-- `syscall` with the pid that a control block holds, as the memory library calls it.
pub Confined-call :
    {B : Type 0} (p junk nr : ℕ) (regs : ScRegs) (f : Status × ScRegs → M B)
    → ((r : Status × ScRegs) → Confined p (f r))
    → Confined p (get_pcb p >>= λ pcb. syscall junk pcb.pid nr regs >>= f)
Confined-call p junk nr regs f cf = record {
  at = λ k b k' own e. elim (Option-cases (get_elem? k.procs p)) [
    | inl h ↦ absurd (ground (arith, e, h))
    | inr (pcb, h) ↦ elim (Option-cases (syscall junk pcb.pid nr regs k)) [
      | inl n ↦ absurd (ground (arith, e, h, n))
      | inr ((r, k₁), m) ↦
          let t = syscall-Touches k p pcb junk nr regs r k₁ own h m in
          Touches-trans p k k₁ k' t
            ((cf r).at k₁ b k' (OwnPid-Touches p p k k₁ t own) (ground (arith, e, h, m)))
    ]
  ];
}

pub libsyscall-Confined : (p junk nr a1 a2 a3 : ℕ) → Confined p (libsyscall junk p nr a1 a2 a3)
unfolding libsyscall
libsyscall-Confined p junk nr a1 a2 a3 = Confined-call p junk nr _ _ (λ r. Confined-ret p r.0)
