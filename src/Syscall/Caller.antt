-- ===== src/Syscall/Caller.antt =====
-- Who a system call acts for: `__sys_memmap` looks the caller up by its pid in the running list.
use simple_os_simulator.Prelude.{
  ℕ, zero, suc, ◌≤◌, ◌≡◌, ◌≢◌, refl, subst, sym, ◌∙◌, arith, true, false, none, some, List, [], ◌∷◌,
  if◌then◌else◌, get_elem?, set, get_elem?-set_self, get_elem?-set_ne, lt-length_of_get_elem?,
  length, take, success, failure,
}
use native.Mathlib.Decide.{ℕ_discrete}
use simple_os_simulator.Queue.{Queue}
use simple_os_simulator.Queue.Laws.{IsValid as IsQueue}
use simple_os_simulator.Queue.Laws.{contents, member}
use simple_os_simulator.Krnl.{Krnl, Pcb}
use simple_os_simulator.Syscall.{ScRegs, this_or, find_from, find_caller, sys_memmap, memop}

-- Every pointer of a list points to a control block.
abbrev pub Known : List Pcb → List ℕ → Type 0
Known procs [] = Unit {0}
Known procs (p ∷ ps) = ((pcb : Pcb) × (get_elem? procs p ≡ some pcb)) × Known procs ps

find_from-cons :
    (n i x : ℕ) (a : List ℕ) (procs : List Pcb) (pid : ℕ)
    → find_from n (suc i) (x ∷ a) procs pid ≡ find_from n i a procs pid
unfolding find_from
find_from-cons zero i x a procs pid = refl
find_from-cons (suc n) i x a procs pid = rw (find_from-cons n (suc i) x a procs pid)

-- Only the process `p` has the pid.
abbrev pub OnlyPid : List Pcb → ℕ → ℕ → Type 0
OnlyPid procs pid p =
    ((pcb : Pcb) → get_elem? procs p ≡ some pcb → pcb.pid ≡ pid)
    × ((q : ℕ) (pcb : Pcb) → get_elem? procs q ≡ some pcb → pcb.pid ≡ pid → q ≡ p)

-- A store to one control block that keeps its pid.
module _ (procs : List Pcb) (p : ℕ) (pcb pcb' : Pcb) (here : get_elem? procs p ≡ some pcb) where
  get_set : get_elem? (set procs p pcb') p ≡ some pcb'
  get_set = get_elem?-set_self procs p pcb' (lt-length_of_get_elem? procs p here)

  pub Known-set : (ps : List ℕ) → Known procs ps → Known (set procs p pcb') ps
  Known-set [] known = tt
  Known-set (q ∷ ps) ((x, e), known) = (
    elim (ℕ_discrete p q) [
      | yes same ↦ (pcb', subst (λ j. get_elem? (set procs p pcb') j ≡ some pcb') same get_set)
      | no other ↦ (x, get_elem?-set_ne procs p q pcb' other ∙ e)
    ],
    Known-set ps known,
  )

  pub OnlyPid-set :
      (pid : ℕ) → pcb'.pid ≡ pcb.pid → OnlyPid procs pid p → OnlyPid (set procs p pcb') pid p
  OnlyPid-set pid same_pid (mine, others) = (
    λ x e. (let hit = get_set in ground (arith, hit, e, same_pid, mine pcb here)),
    λ q x e m. elim (ℕ_discrete p q) [
      | yes same ↦ sym same
      | no other ↦ others q x (sym (get_elem?-set_ne procs p q pcb' other) ∙ e) m
    ],
  )

find_from_lem :
    (n : ℕ) (a : List ℕ) (procs : List Pcb) (pid p : ℕ)
    → n ≤ length a
    → Known procs (take n a)
    → OnlyPid procs pid p
    → find_from n 0 a procs pid ≡ some (if member p (take n a) then some p else none)
unfolding find_from this_or
find_from_lem zero a procs pid p h known only = refl
find_from_lem (suc n) [] procs pid p h known only = absurd (omega arith)
find_from_lem (suc n) (x ∷ a) procs pid p h ((pcb, e), known) only =
    rw (find_from-cons, find_from_lem n a procs pid p (omega arith) known only)
      (elim (ℕ_discrete x p) [
        | yes same ↦ let mine = only.0 pcb (rw same at e) in ground (arith, e, mine, same)
        | no other ↦
            let not_mine : pcb.pid ≢ pid = λ m. other (only.1 x pcb e m) in
            ground (arith, e, not_mine, other)
      ])

module _ (k : Krnl) (rl : Queue) (pid p : ℕ) (linked : k.running_list ≡ some rl)
    (valid : IsQueue rl) (known : Known k.procs (contents rl)) (only : OnlyPid k.procs pid p) where
  -- Where only one process has the pid and the running list is valid and points to control blocks,
  -- the search of __sys_memmap finds that process exactly when its pointer stands in the running
  -- list, and changes nothing.
  find_caller_lem : find_caller pid k ≡ some ((if member p (contents rl) then some p else none), k)
  unfolding find_caller
  find_caller_lem =
      ground (arith, linked, find_from_lem rl.size rl.proc k.procs pid p (omega arith) known only)

  -- Where only one process has the pid and it is not in the running list, which is valid and
  -- points to control blocks, __sys_memmap returns -1 for every operation and changes neither the
  -- registers nor the state.
  pub sys_memmap_unlisted :
      (junk : ℕ) (regs : ScRegs)
      → member p (contents rl) ≡ false
      → sys_memmap junk pid regs k ≡ some ((failure, regs), k)
  unfolding sys_memmap
  sys_memmap_unlisted junk regs out = ground (arith, find_caller_lem, out)

  -- A process that is in the list gets its call carried out on itself.
  pub sys_memmap_listed :
      (junk : ℕ) (regs : ScRegs)
      → member p (contents rl) ≡ true
      → sys_memmap junk pid regs k ≡ (elim (memop junk p regs k) [
        | none ↦ none
        | some (regs', k') ↦ some ((success, regs'), k')
      ])
  unfolding sys_memmap
  sys_memmap_listed junk regs in_list = ground (arith, find_caller_lem, in_list)
