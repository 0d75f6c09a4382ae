-- ===== src/Krnl/Labels.antt =====
-- The part of a control block that is set when a process is loaded, and the relation of two states of the
-- kernel between which one process ran.
use simple_os_simulator.Prelude.{
  ℕ, ◌≡◌, ◌≢◌, refl, ap, sym, ◌∙◌, Option, none, some, List, get_elem?,
}
use mathlib.Core.Option
use simple_os_simulator.Krnl.{Krnl, Pcb, Inst}
use simple_os_simulator.Krnl.Confined.{Ident, ident, ident_at, OwnPid, Touches}

pub record Label : Type 0 where
  pub pid : ℕ
  pub priority : ℕ
  pub prio : ℕ
  pub code : List Inst

abbrev pub label : Pcb → Label
label pcb = record { pid = pcb.pid; priority = pcb.priority; prio = pcb.prio; code = pcb.code }

abbrev pub label_at : Krnl → ℕ → Option Label
label_at k q = Option.map label (get_elem? k.procs q)

-- From `k` to `k'` only the process `p` is touched, and not its label; the running list, the
-- current memory and the one that the loader makes are the same.
pub record Leaves (p : ℕ) (k k' : Krnl) : Type 0 where
  pub others : (q : ℕ) → q ≢ p → get_elem? k'.procs q ≡ get_elem? k.procs q
  pub labels : (q : ℕ) → label_at k' q ≡ label_at k q
  pub same_list : k'.running_list ≡ k.running_list
  pub same_mm : k'.mm ≡ k.mm
  pub same_fresh : k'.fresh ≡ k.fresh

abbrev label_of : Ident → Label
label_of i = record { pid = i.pid; priority = i.priority; prio = i.prio; code = i.code }

label_at-ident : (k : Krnl) (q : ℕ) → Option.map label_of (ident_at k q) ≡ label_at k q
label_at-ident k q = of (get_elem? k.procs q)
  where
    of : (o : Option Pcb) → Option.map label_of (Option.map ident o) ≡ Option.map label o
    of none = refl
    of (some pcb) = refl

pub Leaves-Touches : (p : ℕ) (k k' : Krnl) → Touches p k k' → Leaves p k k'
Leaves-Touches p k k' t = record {
  others = t.others;
  labels =
      λ q. sym (label_at-ident k' q) ∙ ap (Option.map label_of) (t.idents q) ∙ label_at-ident k q;
  same_list = t.same_list;
  same_mm = t.same_mm;
  same_fresh = t.same_fresh;
}

pub Leaves-trans : (p : ℕ) (a b c : Krnl) → Leaves p a b → Leaves p b c → Leaves p a c
Leaves-trans p a b c s t = record {
  others = λ q h. t.others q h ∙ s.others q h;
  labels = λ q. t.labels q ∙ s.labels q;
  same_list = t.same_list ∙ s.same_list;
  same_mm = t.same_mm ∙ s.same_mm;
  same_fresh = t.same_fresh ∙ s.same_fresh;
}

-- No other process has the pid of `p`.
abbrev pub IsAlone : Krnl → ℕ → Type 0
IsAlone k p =
    (i j : Label) (q : ℕ) → label_at k p ≡ some i → label_at k q ≡ some j → j.pid ≡ i.pid → q ≡ p

pub OwnPid-IsAlone : (k : Krnl) (p : ℕ) → IsAlone k p → OwnPid k p
OwnPid-IsAlone k p alone i j q hp hq e =
    alone (label_of i) (label_of j) q (sym (label_at-ident k p) ∙ ap (Option.map label_of) hp)
      (sym (label_at-ident k q) ∙ ap (Option.map label_of) hq) e

pub IsAlone-Leaves : (p r : ℕ) (k k' : Krnl) → Leaves p k k' → IsAlone k r → IsAlone k' r
IsAlone-Leaves p r k k' l alone i j q hp hq e =
    alone i j q (sym (l.labels r) ∙ hp) (sym (l.labels q) ∙ hq) e

-- The control block with an identity.
pub of_ident :
    (o : Option Pcb) (i : Ident)
    → Option.map ident o ≡ some i
    → (pcb : Pcb) × (o ≡ some pcb) × (ident pcb ≡ i)
of_ident none i e = cc
of_ident (some pcb) i e = (pcb, refl, cc)
