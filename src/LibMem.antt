-- ===== src/LibMem.antt =====
-- src/libmem.c: the memory library of a process, over the system calls. `mmvm_lock` makes each
-- function one step. `junk` is what a buffer on the stack holds before it is read into. A register
-- index is an `int` pattern.
pub mod Regions
pub mod Alloc
pub mod Grow
pub mod Paging
pub mod Access
pub mod Isolation
pub mod Replace
use simple_os_simulator.Prelude.{
  ℕ, zero, suc, ◌+◌, ◌-◌, ◌*◌, ◌^◌, Bool, true, false, ◌&&◌, ◌||◌, not, Option, none, some, List,
  [], ◌∷◌, ltb, leb, ◌==◌, if◌then◌else◌, get_elem?, set, length, Status, success, failure,
}
use simple_os_simulator.Prelude.Word.{u8, u32, u64, int_to_u64}
use simple_os_simulator.Memphy.{Memphy, get_freefp, put_freefp}
use simple_os_simulator.Pte.{page_present, paging_fpn, paging_swp, paging_pgn, paging_offst}
use simple_os_simulator.PageTable.{pte_get_entry, pte_set_swap, pte_set_fpn}
use simple_os_simulator.Mm.{Mm, Rg, Vma, enlist_pgn_node}
use simple_os_simulator.Vm.{minus_one, get_vma_by_num, swap_cp_page}
use simple_os_simulator.Krnl.{
  Krnl, Pcb, M, ret, fault, ◌>>=◌, ◌>>◌, get_pcb, get_own_mm, get_mm, put_mm,
}
use simple_os_simulator.Syscall.{ScRegs, syscall}

-- `mm->mmap` is the first area. The new region goes to the head of its list.
unfoldable pub enlist_vm_freerg_list : Mm → Rg → Status × Mm
enlist_vm_freerg_list mm rg = if leb rg.rg_end rg.rg_start then (failure, mm) else elim mm.mmap [
  | [] ↦ (failure, mm)
  | vma ∷ vmas ↦
      (success, record mm { mmap = record vma { vm_freerg_list = rg ∷ vma.vm_freerg_list } ∷ vmas })
]

-- `rgid < 0 || rgid > PAGING_MAX_SYMTBL_SZ`
abbrev is_bad_rgid : ℕ → Bool
is_bad_rgid rgid = leb (2 ^ 31) (u32 rgid) || ltb 30 (u32 rgid)

-- The pointer that `get_symrg_byid` returns, as an index of `symrgtbl`; `none` is NULL.
unfoldable pub get_symrg_byid : ℕ → Option ℕ
get_symrg_byid rgid = if is_bad_rgid rgid then none else some (u32 rgid)

-- The search of `get_free_vmrg_area`: the region that is cut off, and the list that is left.
unfoldable pub first_fit : List Rg → ℕ → Option (Rg × List Rg)
first_fit [] size = none
first_fit (rg ∷ rgs) size =
    let rest = first_fit rgs size in
    let end = u64 (rg.rg_start + size) in
    if leb end rg.rg_end
    then some (
      record { rg_start = rg.rg_start; rg_end = end },
      if ltb end rg.rg_end then (record rg { rg_start = end } ∷ rgs) else rgs,
    )
    else elim rest [ none ↦ none | some (new, left) ↦ some (new, rg ∷ left) ]

abbrev set_freerg_list : Mm → ℕ → Vma → List Rg → Mm
set_freerg_list mm i vma rgs = record mm {
  mmap = set mm.mmap i (record vma { vm_freerg_list = rgs });
}

-- `*newrg` goes in and out. A region that begins at -1 counts as not found.
unfoldable pub get_free_vmrg_area : Mm → ℕ → ℕ → Rg → Status × Rg × Mm
get_free_vmrg_area mm vmaid size newrg = elim (get_vma_by_num mm.mmap vmaid) [
  | none ↦ (failure, newrg, mm)
  | some (i, vma) ↦ elim vma.vm_freerg_list [
    | [] ↦ (failure, newrg, mm)
    | _ ∷ _ ↦ elim (first_fit vma.vm_freerg_list (int_to_u64 size)) [
      | none ↦ (failure, record { rg_start = minus_one; rg_end = minus_one }, mm)
      | some (new, rgs) ↦ (
        if new.rg_start == minus_one then failure else success,
        new,
        set_freerg_list mm i vma rgs,
      )
    ]
  ]
]

-- A store to `mm->symrgtbl[rgid]`; outside the table it is undefined.
unfoldable pub store_symrg : ℕ → ℕ → Rg → M (Unit {0})
store_symrg caller rgid rg = do
  mm ← get_mm caller
  elim (get_elem? mm.symrgtbl (u32 rgid)) [
    | none ↦ fault
    | some _ ↦ put_mm caller (record mm { symrgtbl = set mm.symrgtbl (u32 rgid) rg })
  ]

-- "Save the orphaned memory back to the free list", where the call gave more than the size.
unfoldable pub save_leftover : ℕ → ℕ → ℕ → ℕ → M (Unit {0})
save_leftover caller old_sbrk size a3 =
    if ltb size a3
    then (do
      mm ← get_mm caller
      put_mm caller
          (enlist_vm_freerg_list mm
            (record { rg_start = u64 (old_sbrk + size); rg_end = u64 (old_sbrk + a3) })).1)
    else ret tt

-- The part of `__alloc` that grows the area: the call of SYSMEM_INC_OP, and what follows it
-- whatever the call did.
unfoldable pub alloc_grow : ℕ → ℕ → ℕ → ℕ → ℕ → Vma → M (Status × ℕ)
alloc_grow junk caller vmaid rgid size cur_vma = do
  let old_sbrk = int_to_u64 cur_vma.sbrk
  pcb ← get_pcb caller
  result ← syscall junk pcb.pid 17 (record { a1 = 2; a2 = vmaid; a3 = size })
  store_symrg caller rgid (record { rg_start = old_sbrk; rg_end = u64 (old_sbrk + size) })
  save_leftover caller old_sbrk size result.1.a3
  ret (success, old_sbrk)

-- The return value and `*alloc_addr`; `addr` is what stands there before.
unfoldable pub alloc : ℕ → Rg → ℕ → ℕ → ℕ → ℕ → ℕ → M (Status × ℕ)
alloc junk newrg addr caller vmaid rgid size = do
  own ← get_own_mm caller
  elim own [
    | none ↦ ret (failure, addr)
    | some mm ↦ elim (get_vma_by_num mm.mmap vmaid) [
      | none ↦ ret (failure, addr)
      | some (_, cur_vma) ↦ do
        let area = get_free_vmrg_area mm vmaid size newrg
        put_mm caller area.2
        elim area.0 [
          | success ↦ do store_symrg caller rgid area.1; ret (success, area.1.rg_start)
          | failure ↦ alloc_grow junk caller vmaid rgid size cur_vma
        ]
    ]
  ]

abbrev pub no_rg : Rg
no_rg = record { rg_start = 0; rg_end = 0 }

-- `__free`: the register is cleared, and its region goes to the free list.
unfoldable pub free : ℕ → ℕ → M Status
free caller rgid = do
  own ← get_own_mm caller
  elim (get_symrg_byid rgid) [
    | none ↦ ret failure
    | some i ↦ elim own [
      | none ↦ ret failure
      | some mm ↦ elim (get_elem? mm.symrgtbl i) [
        | none ↦ fault
        | some rg ↦ if rg.rg_start == 0 && rg.rg_end == 0 then ret failure else (do
          put_mm caller
              (enlist_vm_freerg_list (record mm { symrgtbl = set mm.symrgtbl i no_rg }) rg).1
          ret success)
      ]
    ]
  ]

unfoldable pub liballoc : ℕ → Rg → ℕ → ℕ → ℕ → ℕ → M Status
liballoc junk newrg addr proc size reg_index = do
  result ← alloc junk newrg addr proc 0 reg_index size
  ret result.0

unfoldable pub libfree : ℕ → ℕ → M Status
libfree proc reg_index = free proc reg_index

-- The walk to the last node: its page, and the list without it.
unfoldable pub split_last : ℕ → List ℕ → ℕ × List ℕ
split_last x [] = (x, [])
split_last x (y ∷ ys) = let (last, init) = split_last y ys in (last, x ∷ init)

unfoldable pub find_victim_page : Mm → Option ℕ × Mm
find_victim_page mm = elim mm.fifo_pgn [
  | [] ↦ (none, mm)
  | x ∷ xs ↦ (let (last, init) = split_last x xs in (some last, record mm { fifo_pgn = init }))
]

-- `pte_get_entry(caller, pgn)`, with the tables that the walk allocates.
unfoldable pub get_entry : ℕ → ℕ → M ℕ
get_entry caller pgn = do
  mm ← get_mm caller
  let result = pte_get_entry mm.pgd pgn
  put_mm caller (record mm { pgd = result.1 })
  ret result.0

unfoldable pub take_victim : ℕ → M (Option ℕ)
take_victim caller = do
  mm ← get_mm caller
  let result = find_victim_page mm
  put_mm caller result.1
  ret result.0

-- `MEMPHY_get_freefp(caller->krnl->active_mswp, &swpfpn)`
unfoldable pub take_swap_frame : M (Option ℕ)
take_swap_frame k =
    let (fpn, mswp) = get_freefp k.active_mswp in some (fpn, record k { active_mswp = mswp })

-- Step 6 of `pg_getpage`: the target comes back from its swap frame, which becomes free.
unfoldable pub swap_in : ℕ → ℕ → ℕ → M (Unit {0})
swap_in junk tgtswpfpn vicfpn k = elim (swap_cp_page junk k.active_mswp tgtswpfpn k.mram vicfpn) [
  | none ↦ none
  | some (mswp, mram) ↦ some (tt, record k { mram = mram; active_mswp = put_freefp mswp tgtswpfpn })
]

-- Steps 3 to 8 of `pg_getpage`, with a victim and a swap frame for it.
unfoldable pub replace : ℕ → ℕ → ℕ → ℕ → ℕ → ℕ → M Status
replace junk caller pgn pte vicpgn swpfpn = do
  vicpte ← get_entry caller vicpgn
  let vicfpn = paging_fpn vicpte
  pcb ← get_pcb caller
  _ ← syscall junk pcb.pid 17 (record { a1 = 3; a2 = vicfpn; a3 = swpfpn })
  mm ← get_mm caller
  put_mm caller (record mm { pgd = pte_set_swap mm.pgd vicpgn 0 swpfpn })
  if pte == 0 then ret tt else swap_in junk (paging_swp pte) vicfpn
  mm ← get_mm caller
  put_mm caller (record mm {
    pgd = pte_set_fpn mm.pgd pgn vicfpn;
    fifo_pgn = enlist_pgn_node mm.fifo_pgn pgn;
  })
  ret success

-- The swap cycle of `pg_getpage` for a page that is not present.
unfoldable pub bring_in : ℕ → ℕ → ℕ → ℕ → M Status
bring_in junk caller pgn pte = do
  victim ← take_victim caller
  elim victim [
    | none ↦ ret failure
    | some vicpgn ↦ do
      slot ← take_swap_frame
      elim slot [ none ↦ ret failure | some swpfpn ↦ replace junk caller pgn pte vicpgn swpfpn ]
  ]

-- `pg_getpage`: the frame of the page, or `none` for -1.
unfoldable pub pg_getpage : ℕ → ℕ → ℕ → M (Option ℕ)
pg_getpage junk caller pgn = do
  pte ← get_entry caller pgn
  stat ← if page_present pte then ret success else bring_in junk caller pgn pte
  elim stat [
    | failure ↦ ret none
    | success ↦ do now ← get_entry caller pgn; ret (some (paging_fpn now))
  ]

-- `pg_getval`: the return value and `*data`. The byte comes back in a register of the call, and
-- `*data` stays; `data_ptr` is the pointer that is passed in that register.
unfoldable pub pg_getval : ℕ → ℕ → ℕ → ℕ → ℕ → M (Status × ℕ)
pg_getval junk data_ptr caller addr byte = do
  page ← pg_getpage junk caller (paging_pgn addr)
  elim page [
    | none ↦ ret (failure, byte)
    | some fpn ↦ do
      pcb ← get_pcb caller
      _ ←
          syscall junk pcb.pid 17
            (record { a1 = 4; a2 = fpn * 2 ^ 8 + paging_offst addr; a3 = data_ptr })
      ret (success, byte)
  ]

unfoldable pub pg_setval : ℕ → ℕ → ℕ → ℕ → M Status
pg_setval junk caller addr value = do
  page ← pg_getpage junk caller (paging_pgn addr)
  elim page [
    | none ↦ ret failure
    | some fpn ↦ do
      pcb ← get_pcb caller
      _ ←
          syscall junk pcb.pid 17
            (record { a1 = 5; a2 = fpn * 2 ^ 8 + paging_offst addr; a3 = value })
      ret success
  ]

-- `*caller->krnl->mm`, which is not to be NULL: a process's memory, or the one that `ld_routine` makes.
unfoldable pub get_krnl_mm : M Mm
get_krnl_mm k = elim k.mm [
  | none ↦ none
  | some c ↦
      if c == length k.procs
      then elim k.fresh [ none ↦ none | some mm ↦ some (mm, k) ]
      else get_mm c k
]

-- `__read`: the register is looked up in the kernel's current memory, the page in the caller's.
unfoldable pub read : ℕ → ℕ → ℕ → ℕ → ℕ → ℕ → M (Status × ℕ)
read junk data_ptr caller rgid offset byte = do
  own ← get_own_mm caller
  elim own [
    | none ↦ ret (failure, byte)
    | some _ ↦ elim (get_symrg_byid rgid) [
      | none ↦ ret (failure, byte)
      | some i ↦ do
        mm ← get_krnl_mm
        elim (get_elem? mm.symrgtbl i) [
          | none ↦ fault
          | some rg ↦ do
            result ← pg_getval junk data_ptr caller (u64 (rg.rg_start + offset)) byte
            ret (success, result.1)
        ]
    ]
  ]

-- `libread`: the return value and `*destination`. `byte` is what the local `data` holds at first.
unfoldable pub libread : ℕ → ℕ → ℕ → ℕ → ℕ → ℕ → M (Status × ℕ)
libread junk data_ptr byte proc source offset = read junk data_ptr proc source offset byte

-- `__write`
unfoldable pub write : ℕ → ℕ → ℕ → ℕ → ℕ → ℕ → M Status
write junk caller vmaid rgid offset value = do
  own ← get_own_mm caller
  elim own [
    | none ↦ ret failure
    | some mm ↦ elim (get_symrg_byid rgid) [
      | none ↦ ret failure
      | some i ↦ elim (get_vma_by_num mm.mmap vmaid) [
        | none ↦ ret failure
        | some _ ↦ elim (get_elem? mm.symrgtbl i) [
          | none ↦ fault
          | some rg ↦ do
            _ ← pg_setval junk caller (u64 (rg.rg_start + offset)) (u8 value)
            ret success
        ]
      ]
    ]
  ]

unfoldable pub libwrite : ℕ → ℕ → ℕ → ℕ → ℕ → M Status
libwrite junk proc byte destination offset = write junk proc 0 destination offset byte
