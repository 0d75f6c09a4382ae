-- ===== src/LibMem/Alloc.antt =====
-- `__alloc` and `__free` of src/libmem.c on the kernel state: what becomes of a register and its
-- region.
use simple_os_simulator.Prelude.{
  ℕ, ◌+◌, ◌-◌, ◌^◌, ◌<◌, ◌≡◌, refl, ap, sym, ◌∙◌, arith, none, some, List, ◌∷◌, success, failure,
  length, get_elem?, set, set-set_self, set_same, get_elem?-set_self, get_elem?_past,
  lt-length_of_get_elem?,
}
use simple_os_simulator.Prelude.Word.{u32}
use simple_os_simulator.Mm.{Mm, Rg, Vma}
use simple_os_simulator.Vm.{get_vma_by_num}
use simple_os_simulator.Krnl.{Krnl, Pcb, ◌>>=◌}
use simple_os_simulator.LibMem.{
  no_rg, get_symrg_byid, store_symrg, alloc, free, enlist_vm_freerg_list, get_free_vmrg_area,
}
use simple_os_simulator.LibMem.Regions.{IsRegion, get_free_vmrg_area-enlist}

-- The kernel after `*caller->own_mm` became `mm`.
abbrev pub with_mm : Krnl → ℕ → Pcb → Mm → Krnl
with_mm k p pcb mm = record k { procs = set k.procs p (record pcb { own_mm = some mm }) }

-- A process `p` with its memory.
module _ (k : Krnl) (p : ℕ) (pcb : Pcb) (mm : Mm) (here : get_elem? k.procs p ≡ some pcb)
    (own : pcb.own_mm ≡ some mm) where
  pub get_after :
      (mm' : Mm) → get_elem? (with_mm k p pcb mm').procs p ≡ some (record pcb { own_mm = some mm' })
  get_after mm' = get_elem?-set_self k.procs p _ (lt-length_of_get_elem? k.procs p here)

  pub with_mm_same : with_mm k p pcb mm ≡ k
  with_mm_same = rw (sym own) (rw (set_same k.procs p pcb here) refl)

  pub with_mm_twice :
      (a b : Mm)
      → with_mm (with_mm k p pcb a) p (record pcb { own_mm = some a }) b ≡ with_mm k p pcb b
  with_mm_twice a b =
      rw (set-set_self k.procs p (record pcb { own_mm = some a }) (record pcb { own_mm = some b }))
        refl

  pub store_symrg_lem :
      (rgid : ℕ) (new old : Rg)
      → get_elem? mm.symrgtbl (u32 rgid) ≡ some old
      → store_symrg p rgid new k
        ≡ some (tt, with_mm k p pcb (record mm { symrgtbl = set mm.symrgtbl (u32 rgid) new }))
  unfolding store_symrg
  store_symrg_lem rgid new old held = ground (arith, here, own, held)

module _ (k : Krnl) (p : ℕ) (pcb : Pcb) (mm : Mm) (here : get_elem? k.procs p ≡ some pcb)
    (own : pcb.own_mm ≡ some mm) where
  store_after :
      (rgid : ℕ) (left : Mm) (new old : Rg)
      → get_elem? left.symrgtbl (u32 rgid) ≡ some old
      → store_symrg p rgid new (with_mm k p pcb left)
        ≡ some (tt, with_mm k p pcb (record left { symrgtbl = set left.symrgtbl (u32 rgid) new }))
  store_after rgid left new old held =
      store_symrg_lem (with_mm k p pcb left) p (record pcb { own_mm = some left }) left
        (get_after k p pcb mm here own left) refl rgid new old held
      ∙ ap (λ s. some (tt, s))
          (with_mm_twice k p pcb mm here own left
            (record left { symrgtbl = set left.symrgtbl (u32 rgid) new }))

  -- The allocation that finds a free region.
  alloc_hit :
      (junk vmaid rgid size addr i : ℕ) (vma : Vma) (newrg new old : Rg) (left : Mm)
      → get_vma_by_num mm.mmap vmaid ≡ some (i, vma)
      → get_free_vmrg_area mm vmaid size newrg ≡ (success, new, left)
      → get_elem? left.symrgtbl (u32 rgid) ≡ some old
      → alloc junk newrg addr p vmaid rgid size k
        ≡ some (
          (success, new.rg_start),
          with_mm k p pcb (record left { symrgtbl = set left.symrgtbl (u32 rgid) new }),
        )
  unfolding alloc
  alloc_hit junk vmaid rgid size addr i vma newrg new old left found hit held =
      ground (arith, here, own, found, hit, store_after rgid left new old held)

module _ (k : Krnl) (p : ℕ) (pcb : Pcb) (mm : Mm) (here : get_elem? k.procs p ≡ some pcb)
    (own : pcb.own_mm ≡ some mm) where
  -- With a table of 30 registers, freeing register 30 passes the check of get_symrg_byid and reads
  -- behind the table, which is undefined.
  free_off_by_one : length mm.symrgtbl ≡ 30 → free p 30 k ≡ none
  unfolding free get_symrg_byid
  free_off_by_one thirty = ground (arith, here, own, get_elem?_past mm.symrgtbl 30 (omega arith))

  module _ (vma : Vma) (vmas : List Vma) (rgid : ℕ) (rg : Rg) (first : mm.mmap ≡ vma ∷ vmas)
      (in_table : u32 rgid < 30) (held : get_elem? mm.symrgtbl (u32 rgid) ≡ some rg)
      (valid : IsRegion rg) where
    pub freed : Mm
    unfolding enlist_vm_freerg_list
    freed = (enlist_vm_freerg_list (record mm { symrgtbl = set mm.symrgtbl (u32 rgid) no_rg }) rg).1

    free_held : free p rgid k ≡ some (success, with_mm k p pcb freed)
    unfolding free get_symrg_byid freed
    free_held = ground (arith, here, own, held, first)

    -- After a register below 30 with a well-formed region was freed, where the memory has an area,
    -- freeing it again returns -1 and does nothing.
    free_twice : (free p rgid >>= λ _. free p rgid) k ≡ some (failure, with_mm k p pcb freed)
    unfolding free get_symrg_byid freed enlist_vm_freerg_list
    free_twice = ground (
      arith,
      free_held,
      get_after k p pcb mm here own freed,
      first,
      get_elem?-set_self mm.symrgtbl (u32 rgid) no_rg
          (lt-length_of_get_elem? mm.symrgtbl (u32 rgid) held),
    )

    module _ (id : vma.vm_id ≡ 0) (short : rg.rg_end < rg.rg_start + 2 ^ 31) where
      cleared : Mm
      cleared = record mm { symrgtbl = set mm.symrgtbl (u32 rgid) no_rg }

      found_freed : (i : ℕ) × (v : Vma) × (get_vma_by_num freed.mmap 0 ≡ some (i, v))
      unfolding freed enlist_vm_freerg_list get_vma_by_num
      found_freed =
          (0, record vma { vm_freerg_list = rg ∷ vma.vm_freerg_list }, ground (arith, first, id))

      hit_freed :
          (newrg : Rg)
          → get_free_vmrg_area freed 0 (rg.rg_end - rg.rg_start) newrg ≡ (success, rg, cleared)
      unfolding freed cleared
      hit_freed newrg =
          rw id at (get_free_vmrg_area-enlist cleared vma vmas rg newrg first valid short)

      restored : record mm { symrgtbl = set cleared.symrgtbl (u32 rgid) rg } ≡ mm
      unfolding cleared
      restored =
          rw (set-set_self mm.symrgtbl (u32 rgid) no_rg rg, set_same mm.symrgtbl (u32 rgid) rg held)
            refl

      -- Where the first area has number 0, freeing a register below 30 that holds a well-formed
      -- region of less than 2 ^ 31 bytes and allocating that size for it again gives the same
      -- address and leaves the whole kernel state as it was before the two calls.
      pub free-alloc :
          (junk : ℕ) (newrg : Rg) (addr : ℕ)
          → (free p rgid >>= λ _. alloc junk newrg addr p 0 rgid (rg.rg_end - rg.rg_start)) k
            ≡ some ((success, rg.rg_start), k)
      unfolding cleared
      free-alloc junk newrg addr =
          let pcb' : Pcb = record pcb { own_mm = some freed } in
          let k' : Krnl = with_mm k p pcb freed in
          let (i, v, found) = found_freed in
          let in_len = lt-length_of_get_elem? mm.symrgtbl (u32 rgid) held in
          let again =
            alloc_hit k' p pcb' freed (get_after k p pcb mm here own freed) refl junk 0 rgid
              (rg.rg_end - rg.rg_start) addr i v newrg rg no_rg cleared found (hit_freed newrg)
              (get_elem?-set_self mm.symrgtbl (u32 rgid) no_rg in_len) in
          let back =
            with_mm_twice k p pcb mm here own freed
              (record mm { symrgtbl = set cleared.symrgtbl (u32 rgid) rg })
            ∙ ap (with_mm k p pcb) restored
            ∙ with_mm_same k p pcb mm here own in
          rw (free_held, ◌>>=◌) (again ∙ ap (λ s. some ((success, rg.rg_start), s)) back)
