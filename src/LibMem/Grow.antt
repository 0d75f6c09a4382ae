-- ===== src/LibMem/Grow.antt =====
-- `__alloc` of src/libmem.c where no free region is large enough: the area grows, or is meant to.
use simple_os_simulator.Prelude.{
  ℕ, ◌+◌, ◌^◌, ◌<◌, ◌≡◌, refl, ap, sym, ◌∙◌, arith, true, false, none, some, Status, success,
  failure, get_elem?, set,
}
use simple_os_simulator.Prelude.Word.{u32, u64, int_to_u64}
use simple_os_simulator.Queue.{Queue}
use simple_os_simulator.Queue.Laws.{contents, member}
use simple_os_simulator.Queue.Laws.{IsValid as IsQueue}
use simple_os_simulator.Memphy.{Memphy}
use simple_os_simulator.Mm.{Mm, Rg, Vma}
use simple_os_simulator.Vm.{get_vma_by_num, inc_vma_limit}
use simple_os_simulator.Krnl.{Krnl, Pcb}
use simple_os_simulator.Syscall.{ScRegs, syscall, sys_memmap, memop, inc_op}
use simple_os_simulator.Syscall.Caller.{Known, OnlyPid, sys_memmap_unlisted, sys_memmap_listed}
use simple_os_simulator.LibMem.{save_leftover, alloc_grow, alloc, get_free_vmrg_area, first_fit}
use simple_os_simulator.LibMem.Alloc.{
  with_mm, get_after, with_mm_same, with_mm_twice, store_symrg_lem,
}

-- A process `p` that asks for `size` bytes, which no free region of the area has.
module _ (k : Krnl) (p : ℕ) (pcb : Pcb) (mm : Mm) (here : get_elem? k.procs p ≡ some pcb)
    (own : pcb.own_mm ≡ some mm) (vmaid rgid size i : ℕ) (vma : Vma) (old : Rg)
    (found : get_vma_by_num mm.mmap vmaid ≡ some (i, vma)) (small : size < 2 ^ 31)
    (no_fit : first_fit vma.vm_freerg_list size ≡ none) where
  abbrev new_rg : Rg
  new_rg = record { rg_start = int_to_u64 vma.sbrk; rg_end = u64 (int_to_u64 vma.sbrk + size) }

  misses :
      (newrg : Rg)
      → get_free_vmrg_area mm vmaid size newrg
        ≡ (failure, (get_free_vmrg_area mm vmaid size newrg).1, mm)
  unfolding get_free_vmrg_area
  misses newrg = ground (arith, found, no_fit)

  grows :
      (junk addr : ℕ) (newrg : Rg)
      → alloc junk newrg addr p vmaid rgid size k ≡ alloc_grow junk p vmaid rgid size vma k
  unfolding alloc
  grows junk addr newrg =
      ground (arith, here, own, found, misses newrg, with_mm_same k p pcb mm here own)

  -- The call of SYSMEM_INC_OP leaves `k'`, where the process has the memory `mm'`.
  grow_after :
      (junk : ℕ) (st : Status) (mm' : Mm) (k' : Krnl)
      → get_elem? k'.procs p ≡ some (record pcb { own_mm = some mm' })
      → get_elem? mm'.symrgtbl (u32 rgid) ≡ some old
      → sys_memmap junk pcb.pid (record { a1 = 2; a2 = vmaid; a3 = size }) k
        ≡ some ((st, record { a1 = 2; a2 = vmaid; a3 = size }), k')
      → alloc_grow junk p vmaid rgid size vma k
        ≡ some (
          (success, int_to_u64 vma.sbrk),
          with_mm k' p
              (record pcb { own_mm = some mm' })
              (record mm' { symrgtbl = set mm'.symrgtbl (u32 rgid) new_rg }),
        )
  unfolding alloc_grow syscall save_leftover
  grow_after junk st mm' k' here' held called = ground (
    arith,
    here,
    called,
    store_symrg_lem k' p (record pcb { own_mm = some mm' }) mm' here' refl rgid new_rg old held,
  )

  module _ (rl : Queue) (linked : k.running_list ≡ some rl) (valid : IsQueue rl)
      (known : Known k.procs (contents rl)) (only : OnlyPid k.procs pcb.pid p)
      (held : get_elem? mm.symrgtbl (u32 rgid) ≡ some old) where
    here_mm : get_elem? k.procs p ≡ some (record pcb { own_mm = some mm })
    here_mm = rw (sym own) here

    memop_grow :
        (junk : ℕ) (st : Status) (mm' : Mm) (mram' : Memphy)
        → inc_vma_limit mm k.mram (int_to_u64 vmaid) size ≡ (st, mm', mram')
        → memop junk p (record { a1 = 2; a2 = vmaid; a3 = size }) k
          ≡ some (
            record { a1 = 2; a2 = vmaid; a3 = size },
            with_mm (record k { mram = mram' }) p pcb mm',
          )
    unfolding memop inc_op
    memop_grow junk st mm' mram' grown = ground (arith, here, own, grown)

    -- For a process that is not in the running list, whose pid no other process has, a register in
    -- the table, and a size below 2 ^ 31 that no free region of the area has, __alloc returns 0
    -- with the old sbrk, which does not move: only the register changes.
    pub alloc_unlisted :
        (junk addr : ℕ) (newrg : Rg)
        → member p (contents rl) ≡ false
        → alloc junk newrg addr p vmaid rgid size k
          ≡ some (
            (success, int_to_u64 vma.sbrk),
            with_mm k p pcb (record mm { symrgtbl = set mm.symrgtbl (u32 rgid) new_rg }),
          )
    alloc_unlisted junk addr newrg out =
        grows junk addr newrg
        ∙ (grow_after junk failure mm k here_mm held (
            sys_memmap_unlisted k rl pcb.pid p linked valid known only junk
              (record { a1 = 2; a2 = vmaid; a3 = size }) out))

    -- For a process of the running list, whose pid no other process has, a register in the table,
    -- and a size below 2 ^ 31 that no free region of the area has, where inc_vma_limit keeps the
    -- registers, __alloc returns 0 with the old sbrk and a register for the region of the size
    -- there, whatever inc_vma_limit returns, and the memory is otherwise as inc_vma_limit leaves
    -- it: no leftover is saved.
    pub alloc_listed :
        (junk addr : ℕ) (newrg : Rg) (st : Status) (mm' : Mm) (mram' : Memphy)
        → member p (contents rl) ≡ true
        → inc_vma_limit mm k.mram (int_to_u64 vmaid) size ≡ (st, mm', mram')
        → mm'.symrgtbl ≡ mm.symrgtbl
        → alloc junk newrg addr p vmaid rgid size k
          ≡ some (
            (success, int_to_u64 vma.sbrk),
            with_mm
                (record k { mram = mram' })
                p
                pcb
                (record mm' { symrgtbl = set mm.symrgtbl (u32 rgid) new_rg }),
          )
    alloc_listed junk addr newrg st mm' mram' in_list grown same =
        let k₁ : Krnl = record k { mram = mram' } in
        let regs : ScRegs = record { a1 = 2; a2 = vmaid; a3 = size } in
        let called =
          sys_memmap_listed k rl pcb.pid p linked valid known only junk regs in_list
          ∙ rw (memop_grow junk st mm' mram' grown) refl in
        grows junk addr newrg
        ∙ grow_after junk success mm' (with_mm k₁ p pcb mm') (get_after k₁ p pcb mm here own mm')
            (rw same held) called
        ∙ ap (λ s. some ((success, int_to_u64 vma.sbrk), s))
            (with_mm_twice k₁ p pcb mm here own mm'
                (record mm' { symrgtbl = set mm'.symrgtbl (u32 rgid) new_rg })
              ∙ ap (λ t. with_mm k₁ p pcb (record mm' { symrgtbl = set t (u32 rgid) new_rg })) same)
