-- ===== src/Krnl/Confined.antt =====
-- A kernel step that acts for one process and leaves the others alone: the rules by which the steps
-- of src/libmem.c, src/sys_mem.c and src/cpu.c are shown to be such.
use simple_os_simulator.Prelude.{
  Option-cases, inl, inr, Bool, true, false, if◌then◌else◌, Status, success, failure, ℕ, ◌≡◌, ◌≢◌,
  refl, ap, subst, sym, ◌∙◌, Option, none, some, List, get_elem?, set, get_elem?-set_self,
  get_elem?-set_ne, lt-length_of_get_elem?, arith,
}
use native.Mathlib.Decide.{ℕ_discrete}
use mathlib.Core.Option
use simple_os_simulator.Memphy.{Memphy}
use simple_os_simulator.Mm.{Mm}
use simple_os_simulator.Krnl.{
  Krnl, Pcb, Inst, M, ret, fault, ◌>>=◌, ◌>>◌, get_pcb, get_own_mm, get_mm, put_mm,
}

-- What no step of the kernel changes of a control block while it executes an instruction.
pub record Ident : Type 0 where
  pub pid : ℕ
  pub priority : ℕ
  pub prio : ℕ
  pub pc : ℕ
  pub code : List Inst

abbrev pub ident : Pcb → Ident
ident pcb = record {
  pid = pcb.pid;
  priority = pcb.priority;
  prio = pcb.prio;
  pc = pcb.pc;
  code = pcb.code;
}

abbrev pub ident_at : Krnl → ℕ → Option Ident
ident_at k q = Option.map ident (get_elem? k.procs q)

-- No other process has the pid of `p`.
abbrev pub OwnPid : Krnl → ℕ → Type 0
OwnPid k p =
    (i j : Ident) (q : ℕ) → ident_at k p ≡ some i → ident_at k q ≡ some j → j.pid ≡ i.pid → q ≡ p

-- From `k` to `k'` only the process `p` is touched, and not its identity; the running list,
-- the current memory and the one that the loader makes are the same.
pub record Touches (p : ℕ) (k k' : Krnl) : Type 0 where
  pub others : (q : ℕ) → q ≢ p → get_elem? k'.procs q ≡ get_elem? k.procs q
  pub idents : (q : ℕ) → ident_at k' q ≡ ident_at k q
  pub same_list : k'.running_list ≡ k.running_list
  pub same_mm : k'.mm ≡ k.mm
  pub same_fresh : k'.fresh ≡ k.fresh

pub Touches-refl : (p : ℕ) (k : Krnl) → Touches p k k
Touches-refl p k = record {
  others = λ q h. refl;
  idents = λ q. refl;
  same_list = refl;
  same_mm = refl;
  same_fresh = refl;
}

pub Touches-trans : (p : ℕ) (a b c : Krnl) → Touches p a b → Touches p b c → Touches p a c
Touches-trans p a b c s t = record {
  others = λ q h. t.others q h ∙ s.others q h;
  idents = λ q. t.idents q ∙ s.idents q;
  same_list = t.same_list ∙ s.same_list;
  same_mm = t.same_mm ∙ s.same_mm;
  same_fresh = t.same_fresh ∙ s.same_fresh;
}

pub OwnPid-Touches : (p r : ℕ) (k k' : Krnl) → Touches p k k' → OwnPid k r → OwnPid k' r
OwnPid-Touches p r k k' t own i j q hp hq e =
    own i j q (sym (t.idents r) ∙ hp) (sym (t.idents q) ∙ hq) e

-- Whatever the step returns, it touched only `p`.
pub record Confined (p : ℕ) {A : Type 0} (m : M A) : Type 0 where
  pub at : (k : Krnl) (a : A) (k' : Krnl) → OwnPid k p → m k ≡ some (a, k') → Touches p k k'

pub Confined-ret : {A : Type 0} (p : ℕ) (a : A) → Confined p (ret a)
Confined-ret p a = record {
  at = λ k b k' own e. (let same : k ≡ k' = cc in subst (Touches p k) same (Touches-refl p k));
}

pub Confined-fault : {A : Type 0} (p : ℕ) → Confined p (fault {A = A})
Confined-fault p = record { at = λ k b k' own e. cc }

pub Confined-bind :
    {A B : Type 0} (p : ℕ) (m : M A) (f : A → M B)
    → Confined p m
    → ((a : A) → Confined p (f a))
    → Confined p (m >>= f)
Confined-bind {A} {B} p m f cm cf = record { at = λ k b k' own e. go k b k' own (m k) refl e }
  where
    go :
        (k : Krnl) (b : B) (k' : Krnl)
        → OwnPid k p
        → (o : Option (A × Krnl)) → m k ≡ o
        → (elim o [ none ↦ none | some (a, k₁) ↦ f a k₁ ]) ≡ some (b, k')
        → Touches p k k'
    go k b k' own none h e = cc
    go k b k' own (some (a, k₁)) h e =
        let t = cm.at k a k₁ own h in
        Touches-trans p k k₁ k' t ((cf a).at k₁ b k' (OwnPid-Touches p p k k₁ t own) e)

pub Confined-then :
    {A B : Type 0} (p : ℕ) (m : M A) (n : M B) → Confined p m → Confined p n → Confined p (m >> n)
Confined-then p m n cm cn = Confined-bind p m (λ _. n) cm (λ _. cn)

pub Confined-if :
    {A : Type 0} (p : ℕ) (b : Bool) (m n : M A)
    → Confined p m
    → Confined p n
    → Confined p (if b then m else n)
Confined-if p true m n cm cn = cm
Confined-if p false m n cm cn = cn

-- A new control block of `p` with the same identity.
Touches-set :
    (p : ℕ) (k : Krnl) (pcb pcb' : Pcb)
    → get_elem? k.procs p ≡ some pcb
    → ident pcb' ≡ ident pcb
    → Touches p k (record k { procs = set k.procs p pcb' })
Touches-set p k pcb pcb' here same = record {
  others = λ q h. get_elem?-set_ne k.procs p q pcb' (λ e. h (sym e));
  idents = λ q. elim (ℕ_discrete p q) [
    | yes e ↦
        subst (λ j. ident_at (record k { procs = set k.procs p pcb' }) j ≡ ident_at k j) e
          (ap (Option.map ident)
              (get_elem?-set_self k.procs p pcb' (lt-length_of_get_elem? k.procs p here))
            ∙ ap some same
            ∙ sym (ap (Option.map ident) here))
    | no h ↦ ap (Option.map ident) (get_elem?-set_ne k.procs p q pcb' h)
  ];
  same_list = refl;
  same_mm = refl;
  same_fresh = refl;
}

-- A step that leaves the state as it is.
Confined-same :
    {A : Type 0} (p : ℕ) (m : M A)
    → ((k : Krnl) (a : A) (k' : Krnl) → m k ≡ some (a, k') → k ≡ k')
    → Confined p m
Confined-same p m h = record {
  at = λ k a k' own e. subst (Touches p k) (h k a k' e) (Touches-refl p k);
}

Confined-get_pcb : (p q : ℕ) → Confined p (get_pcb q)
Confined-get_pcb p q = Confined-same p (get_pcb q) (λ k a k' e. ground arith)

pub Confined-get_own_mm : (p q : ℕ) → Confined p (get_own_mm q)
Confined-get_own_mm p q = Confined-same p (get_own_mm q) (λ k a k' e. ground arith)

pub Confined-get_mm : (p q : ℕ) → Confined p (get_mm q)
Confined-get_mm p q = Confined-same p (get_mm q) (λ k a k' e. ground arith)

pub Confined-put_mm : (p : ℕ) (mm : Mm) → Confined p (put_mm p mm)
Confined-put_mm p mm = record {
  at = λ k a k' own e. elim (Option-cases (get_elem? k.procs p)) [
    | inl h ↦ absurd (ground (arith, h))
    | inr (pcb, h) ↦
        (let pcb' : Pcb = record pcb { own_mm = some mm } in
          let same : record k { procs = set k.procs p pcb' } ≡ k' = ground (arith, h) in
          subst (Touches p k) same (Touches-set p k pcb pcb' h refl))
  ];
}

-- Other contents of the devices.
pub Touches-devices :
    (p : ℕ) (k : Krnl) (mram active_mswp : Memphy)
    → Touches p k (record k { mram = mram; active_mswp = active_mswp })
Touches-devices p k mram active_mswp = record {
  others = λ q h. refl;
  idents = λ q. refl;
  same_list = refl;
  same_mm = refl;
  same_fresh = refl;
}

pub Confined-option :
    {A B : Type 0} (p : ℕ) (o : Option A) (m : M B) (f : A → M B)
    → Confined p m
    → ((a : A) → Confined p (f a))
    → Confined p (elim o [ none ↦ m | some a ↦ f a ])
Confined-option p none m f cm cf = cm
Confined-option p (some a) m f cm cf = cf a

pub Confined-status :
    {B : Type 0} (p : ℕ) (st : Status) (m n : M B)
    → Confined p m
    → Confined p n
    → Confined p (elim st [ success ↦ m | failure ↦ n ])
Confined-status p success m n cm cn = cm
Confined-status p failure m n cm cn = cn
