-- ===== src/Cpu/Isolation.antt =====
-- What an instruction of src/cpu.c touches of the other processes.
use simple_os_simulator.Prelude.{
  ℕ, ◌+◌, ◌≡◌, refl, ap, sym, ◌∙◌, subst, arith, none, some, get_elem?-set_self, get_elem?-set_ne,
  lt-length_of_get_elem?, Option-cases, inl, inr, get_elem?, set, Status,
}
use simple_os_simulator.Prelude.Word.{u32}
use simple_os_simulator.Krnl.{Krnl, Pcb, Inst, Opcode, M}
use simple_os_simulator.Krnl.Confined.{ident, Touches-refl, Confined, Confined-ret, Confined-bind}
use simple_os_simulator.Krnl.Labels.{
  label, label_at, Leaves, Leaves-Touches, Leaves-trans, IsAlone, OwnPid-IsAlone, IsAlone-Leaves,
  of_ident,
}
use mathlib.Core.Option
use native.Mathlib.Decide.{ℕ_discrete}
use simple_os_simulator.Syscall.Isolation.{libsyscall-Confined}
use simple_os_simulator.LibMem.Isolation.{
  liballoc-Confined, libfree-Confined, libread-Confined, libwrite-Confined,
}
use simple_os_simulator.Cpu.{
  Junk, as_int, libkmem_malloc, libkmem_cache_pool_create, libkmem_cache_alloc,
  libkmem_copy_from_user, libkmem_copy_to_user, execute, run,
}

as_int-Confined : (p : ℕ) (m : M Status) → Confined p m → Confined p (as_int m)
as_int-Confined p m c = Confined-bind p m _ c λ st. Confined-ret p _

execute-Confined : (p : ℕ) (junk : Junk) (ins : Inst) → Confined p (execute junk p ins)
unfolding execute libkmem_malloc libkmem_cache_pool_create libkmem_cache_alloc
    libkmem_copy_from_user libkmem_copy_to_user
execute-Confined p junk ins = by_opcode ins.opcode ins.arg_0 ins.arg_1 ins.arg_2 ins.arg_3
  where
    by_opcode :
        (op : Opcode) (a b c d : ℕ)
        → Confined p
            (execute junk p (record { opcode = op; arg_0 = a; arg_1 = b; arg_2 = c; arg_3 = d }))
    by_opcode Opcode.calc a b c d = Confined-ret p 0
    by_opcode Opcode.alloc a b c d = as_int-Confined p _ (liballoc-Confined p _ _ _ _ _)
    by_opcode Opcode.free a b c d = as_int-Confined p _ (libfree-Confined p _)
    by_opcode Opcode.read a b c d =
        as_int-Confined p _
          (Confined-bind p _ _ (libread-Confined p _ _ _ _ _) λ r. Confined-ret p _)
    by_opcode Opcode.write a b c d = as_int-Confined p _ (libwrite-Confined p _ _ _ _)
    by_opcode Opcode.kmalloc a b c d = Confined-ret p 0
    by_opcode Opcode.kmem_cache_create a b c d = Confined-ret p 0
    by_opcode Opcode.kmem_cache_alloc a b c d = Confined-ret p 0
    by_opcode Opcode.copy_from_user a b c d = Confined-ret p 0
    by_opcode Opcode.copy_to_user a b c d = Confined-ret p 1
    by_opcode Opcode.syscall a b c d = as_int-Confined p _ (libsyscall-Confined p _ _ _ _ _)

-- Advancing `pc` of `p`.
pub Leaves-set :
    (p : ℕ) (k : Krnl) (pcb pcb' : Pcb)
    → get_elem? k.procs p ≡ some pcb
    → label pcb' ≡ label pcb
    → Leaves p k (record k { procs = set k.procs p pcb' })
Leaves-set p k pcb pcb' here same = record {
  others = λ q h. get_elem?-set_ne k.procs p q pcb' (λ e. h (sym e));
  labels = λ q. elim (ℕ_discrete p q) [
    | yes e ↦
        subst (λ j. label_at (record k { procs = set k.procs p pcb' }) j ≡ label_at k j) e
          (ap (Option.map label)
              (get_elem?-set_self k.procs p pcb' (lt-length_of_get_elem? k.procs p here))
            ∙ ap some same
            ∙ sym (ap (Option.map label) here))
    | no h ↦ ap (Option.map label) (get_elem?-set_ne k.procs p q pcb' h)
  ];
  same_list = refl;
  same_mm = refl;
  same_fresh = refl;
}

-- What `run` makes of the control block: past the end of its code nothing, and else `pc` is one more.
abbrev pub next_pc : Pcb → ℕ
next_pc pcb = elim (get_elem? pcb.code pcb.pc) [ none ↦ pcb.pc | some ins ↦ u32 (pcb.pc + 1) ]

-- The control block of `p` advances from `k` to `k'`.
abbrev Counts : ℕ → Krnl → Krnl → Pcb → Type 0
Counts p k k' pcb =
    (pcb' : Pcb) × (get_elem? k'.procs p ≡ some pcb')
    × (pcb'.pc ≡ next_pc pcb)
    × (pcb'.code ≡ pcb.code)

pub record Ran (p : ℕ) (k k' : Krnl) : Type 0 where
  pub leaves : Leaves p k k'
  pub counted : (pcb : Pcb) → get_elem? k.procs p ≡ some pcb → Counts p k k' pcb

Ran-one :
    (p : ℕ) (k k' : Krnl) (pcb : Pcb)
    → get_elem? k.procs p ≡ some pcb
    → Leaves p k k'
    → Counts p k k' pcb
    → Ran p k k'
Ran-one p k k' pcb h leaves counts = record {
  leaves = leaves;
  counted =
      λ pcb₀ h₀. let same : pcb ≡ pcb₀ = ground (arith, h, h₀) in subst (Counts p k k') same counts;
}

-- Where no other process has the pid of `p`, an instruction that `p` executes leaves every other
-- process's control block as it was, with its registers, areas, free regions and page table, and every
-- process's pid, priorities and code; the running list, the kernel's current memory and the one that
-- the loader makes stay. What the frames of the RAM and of the swap hold is not part of it. The
-- process's pc is one more, unless it was at the end of the code.
pub run-Ran :
    (p : ℕ) (junk : Junk) (k : Krnl) (a : ℕ) (k' : Krnl)
    → IsAlone k p
    → run junk p k ≡ some (a, k')
    → Ran p k k'
unfolding run
run-Ran p junk k a k' alone e = elim (Option-cases (get_elem? k.procs p)) [
  | inl h ↦ absurd (ground (arith, e, h))
  | inr (pcb, h) ↦ elim (Option-cases (get_elem? pcb.code pcb.pc)) [
    | inl n ↦
        let stays : k ≡ k' = ground (arith, e, h, n) in
        subst (Ran p k) stays (
          Ran-one p k k pcb h (Leaves-Touches p k k (Touches-refl p k))
            (pcb, h, rw (next_pc, n) refl, refl))
    | inr (ins, i) ↦
        let pcb' : Pcb = record pcb { pc = u32 (pcb.pc + 1) } in
        let k₁ : Krnl = record k { procs = set k.procs p pcb' } in
        let l = Leaves-set p k pcb pcb' h refl in
        let own = OwnPid-IsAlone k₁ p (IsAlone-Leaves p p k k₁ l alone) in
        let t = (execute-Confined p junk ins).at k₁ a k' own (ground (arith, e, h, i)) in
        let there = get_elem?-set_self k.procs p pcb' (lt-length_of_get_elem? k.procs p h) in
        let (after, now, same) =
          of_ident (get_elem? k'.procs p) (ident pcb') (t.idents p ∙ ap (Option.map ident) there) in
        Ran-one p k k' pcb h (Leaves-trans p k k₁ k' l (Leaves-Touches p k₁ k' t))
          (after, now, ap (λ x. x.pc) same ∙ rw (next_pc, i) refl, ap (λ x. x.code) same)
  ]
]
