-- ===== src/Tests/Samples.antt =====
-- A kernel with one process, for the tests of the memory library.
use simple_os_simulator.Prelude.{
  ℕ, zero, suc, ◌≡◌, refl, ap, sym, arith, none, some, List, [], ◌∷◌, replicate, get_elem?,
}
use simple_os_simulator.Queue.{Queue}
use simple_os_simulator.Queue.Laws.{contents}
use simple_os_simulator.Queue.Laws.{IsValid as IsQueue}
use simple_os_simulator.Memphy.{Memphy}
use simple_os_simulator.PageTable.{Pgd}
use simple_os_simulator.Mm.{Mm, Vma, Rg}
use simple_os_simulator.Krnl.{Krnl, Pcb}
use simple_os_simulator.Syscall.Caller.{Known, OnlyPid}

abbrev pub region : ℕ → ℕ → Rg
region a b = record { rg_start = a; rg_end = b }

-- The area of the process, with its free regions.
abbrev pub heap : List Rg → Vma
heap rgs = record { vm_id = 0; vm_start = 0; vm_end = 512; sbrk = 512; vm_freerg_list = rgs }

-- Register 2 holds the second page.
abbrev pub memory : Pgd → List Rg → Mm
memory pgd rgs = record {
  pgd = pgd;
  mmap = heap rgs ∷ [];
  symrgtbl = region 0 0 ∷ region 0 0 ∷ region 256 512 ∷ replicate 27 (region 0 0);
  fifo_pgn = 1 ∷ 0 ∷ [];
}

abbrev pub process : Mm → Pcb
process mm = record { pid = 1; priority = 0; prio = 3; pc = 0; code = []; own_mm = some mm }

-- A device of two frames, with the given ones free.
abbrev pub ram : List ℕ → Memphy
ram free = record {
  storage = replicate 512 5;
  maxsz = 512;
  rdmflg = 1;
  cursor = 0;
  free_fp_list = free;
  used_fp_list = [];
}

abbrev pub listing : Queue
listing = record { proc = replicate 50 0; size = 1 }

abbrev pub nobody : Queue
nobody = record { proc = replicate 50 0; size = 0 }

abbrev pub kernel : Mm → Queue → Krnl
kernel mm rl = record {
  procs = process mm ∷ [];
  running_list = some rl;
  mm = some 0;
  fresh = none;
  mram = ram (0 ∷ 1 ∷ []);
  active_mswp = ram (0 ∷ 1 ∷ []);
}

pub listing-IsValid : IsQueue listing
listing-IsValid = record { slots = refl; bounded = omega arith }

pub nobody-IsValid : IsQueue nobody
nobody-IsValid = record { slots = refl; bounded = omega arith }

pub listing-Known : (mm : Mm) → Known (process mm ∷ []) (contents listing)
listing-Known mm = ((process mm, refl), tt)

pub process-OnlyPid : (mm : Mm) → OnlyPid (process mm ∷ []) 1 0
process-OnlyPid mm =
    (λ pcb e. (let same : process mm ≡ pcb = cc in sym (ap (λ q. q.pid) same)), other)
  where
    other : (q : ℕ) (pcb : Pcb) → get_elem? (process mm ∷ []) q ≡ some pcb → pcb.pid ≡ 1 → q ≡ 0
    other zero pcb e f = refl
    other (suc q) pcb e f = cc
