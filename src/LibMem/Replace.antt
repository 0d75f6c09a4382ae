-- ===== src/LibMem/Replace.antt =====
-- The swap cycle of `pg_getpage` of src/libmem.c, for a page that was never mapped: its victim goes to
-- the swap device, and the page gets the victim's frame.
use simple_os_simulator.Prelude.{
  ℕ, ◌%◌, ◌^◌, ◌<◌, ◌≡◌, ◌≢◌, refl, ap, sym, ◌∙◌, arith, true, false, some, List, [], ◌∷◌, ◌++◌,
  success, get_elem?, set-set_self, get_elem?-set_self, lt-length_of_get_elem?,
}
use simple_os_simulator.Prelude.Word.{u32}
use simple_os_simulator.Queue.{Queue}
use simple_os_simulator.Queue.Laws.{contents, member}
use simple_os_simulator.Queue.Laws.{IsValid as IsQueue}
use simple_os_simulator.Memphy.{Memphy, get_freefp}
use simple_os_simulator.Pte.{page_present, paging_fpn, paging_swp}
use simple_os_simulator.Pte.Fields.{paging_fpn-mod}
use simple_os_simulator.PageTable.{pte_set_swap, pte_set_fpn}
use simple_os_simulator.PageTable.Laws.{IsPgd, entry, pte_set_swap_lem, pte_set_fpn_lem}
use simple_os_simulator.Mm.{Mm, enlist_pgn_node}
use simple_os_simulator.Vm.{mm_swap_page}
use simple_os_simulator.Krnl.{Krnl, Pcb, get_mm, put_mm, get_pcb}
use simple_os_simulator.Syscall.{ScRegs, syscall, memop, swp_op}
use simple_os_simulator.Syscall.Caller.{Known, OnlyPid, Known-set, OnlyPid-set, sys_memmap_listed}
use simple_os_simulator.LibMem.{
  take_victim, take_swap_frame, get_entry, replace, bring_in, pg_getpage,
}
use simple_os_simulator.LibMem.Alloc.{with_mm}
use simple_os_simulator.LibMem.Paging.{
  SameMemory, looked, looked-SameMemory, pte_of, get_entry_lem, find_victim_page_lem,
}

page_present_zero : page_present 0 ≡ false
unfolding page_present
page_present_zero = refl

-- The steps of the cycle on the memory of a process.
module _ (k : Krnl) (p : ℕ) (pcb : Pcb) (here : get_elem? k.procs p ≡ some pcb) (m : Mm) where
  at_p : get_elem? (with_mm k p pcb m).procs p ≡ some (record pcb { own_mm = some m })
  at_p = get_elem?-set_self k.procs p _ (lt-length_of_get_elem? k.procs p here)

  mm_of : get_mm p (with_mm k p pcb m) ≡ some (m, with_mm k p pcb m)
  mm_of = ground (arith, at_p)

  pcb_of : get_pcb p (with_mm k p pcb m) ≡ some (record pcb { own_mm = some m }, with_mm k p pcb m)
  pcb_of = ground (arith, at_p)

  put_of : (m' : Mm) → put_mm p m' (with_mm k p pcb m) ≡ some (tt, with_mm k p pcb m')
  put_of m' = ground (
    arith,
    at_p,
    set-set_self k.procs p (record pcb { own_mm = some m }) (record pcb { own_mm = some m' }),
  )

  entry_of :
      (pgn : ℕ)
      → get_entry p pgn (with_mm k p pcb m) ≡ some (pte_of m pgn, with_mm k p pcb (looked m pgn))
  entry_of pgn =
      get_entry_lem (with_mm k p pcb m) p (record pcb { own_mm = some m }) m at_p refl pgn
      ∙ ap (λ s. some (pte_of m pgn, s))
          (ap (λ l. record k { procs = l })
            (set-set_self k.procs p (record pcb { own_mm = some m })
              (record pcb { own_mm = some (looked m pgn) })))

  victim_of :
      (xs : List ℕ) (v : ℕ)
      → m.fifo_pgn ≡ xs ++ (v ∷ [])
      → take_victim p (with_mm k p pcb m)
        ≡ some (some v, with_mm k p pcb (record m { fifo_pgn = xs }))
  unfolding take_victim
  victim_of xs v e =
      ground (arith, mm_of, find_victim_page_lem m xs v e, put_of (record m { fifo_pgn = xs }))

-- The memory at the end: the page is in the frame that was the victim's, the victim's entry holds the
-- swap frame, and the page is the one to be given up last.
pub record Replaced (mm : Mm) (pgn v swpfpn : ℕ) (xs : List ℕ) (mm' : Mm) : Type 0 where
  pub present : page_present (entry mm'.pgd pgn) ≡ true
  pub frame : paging_fpn (entry mm'.pgd pgn) ≡ paging_fpn (pte_of mm v)
  pub swapped : paging_swp (entry mm'.pgd v) ≡ swpfpn % 2 ^ 21
  pub others : (n : ℕ) → n < 2 ^ 45 → n ≢ pgn → n ≢ v → entry mm'.pgd n ≡ entry mm.pgd n
  pub tables : IsPgd mm'.pgd
  pub queued : mm'.fifo_pgn ≡ pgn ∷ xs
  pub same_areas : mm'.mmap ≡ mm.mmap
  pub same_symbols : mm'.symrgtbl ≡ mm.symrgtbl

-- The memory before the victim's entry is changed, after the two stores, and at the end.
module _ (mm : Mm) (pgn v swpfpn : ℕ) (xs : List ℕ) where
  abbrev chosen : Mm
  chosen = record (looked mm pgn) { fifo_pgn = xs }

  abbrev frame_of : ℕ
  frame_of = paging_fpn (pte_of chosen v)

  abbrev swapped_out : Mm
  swapped_out = record (looked chosen v) { pgd = pte_set_swap (looked chosen v).pgd v 0 swpfpn }

  abbrev brought_in : Mm
  brought_in = record swapped_out {
    pgd = pte_set_fpn swapped_out.pgd pgn frame_of;
    fifo_pgn = pgn ∷ xs;
  }

  module _ (w : IsPgd mm.pgd) (pgn_small : pgn < 2 ^ 45) (v_small : v < 2 ^ 45)
      (differ : v ≢ pgn) where
    look₁ : SameMemory mm (looked mm pgn)
    look₁ = looked-SameMemory mm pgn w pgn_small

    frame_same : frame_of ≡ paging_fpn (pte_of mm v)
    frame_same = ap (λ e. paging_fpn (u32 e)) (look₁.entries v v_small)

    small_frame : (pte : ℕ) → paging_fpn pte % 2 ^ 13 ≡ paging_fpn pte
    small_frame pte = omega (arith, paging_fpn-mod pte)

    brought_in-Replaced : Replaced mm pgn v swpfpn xs (looked brought_in pgn)
    brought_in-Replaced =
        let look₂ = looked-SameMemory chosen v look₁.tables v_small in
        let (swp, _, _, swap_others, tables₄) =
          pte_set_swap_lem (looked chosen v).pgd v 0 swpfpn look₂.tables v_small in
        let (present, fpn, fpn_others, tables₅) =
          pte_set_fpn_lem swapped_out.pgd pgn frame_of tables₄ pgn_small in
        let look₃ = looked-SameMemory brought_in pgn tables₅ pgn_small in
        record {
          present = rw (look₃.entries pgn pgn_small) present;
          frame =
              rw (look₃.entries pgn pgn_small) (fpn ∙ small_frame (pte_of chosen v) ∙ frame_same);
          swapped = rw (look₃.entries v v_small ∙ fpn_others v v_small (λ e. differ (sym e))) swp;
          others = λ n hn np nv.
              look₃.entries n hn
              ∙ fpn_others n hn (λ e. np (sym e))
              ∙ swap_others n hn (λ e. nv (sym e))
              ∙ look₂.entries n hn
              ∙ look₁.entries n hn;
          tables = look₃.tables;
          queued = refl;
          same_areas = refl;
          same_symbols = refl;
        }

    frame_read : paging_fpn (pte_of brought_in pgn) ≡ paging_fpn (pte_of mm v)
    frame_read =
        let look₂ = looked-SameMemory chosen v look₁.tables v_small in
        let tables₄ = (pte_set_swap_lem (looked chosen v).pgd v 0 swpfpn look₂.tables v_small).4 in
        let fpn = (pte_set_fpn_lem swapped_out.pgd pgn frame_of tables₄ pgn_small).1 in
        let e = entry brought_in.pgd pgn in
        let cut : paging_fpn (u32 e) ≡ paging_fpn e =
          omega (arith, paging_fpn-mod (u32 e), paging_fpn-mod e) in
        cut ∙ fpn ∙ small_frame (pte_of chosen v) ∙ frame_same

-- A process of the running list, whose oldest page is `v`, and a swap device with a free frame.
module _ (k : Krnl) (p : ℕ) (pcb : Pcb) (mm : Mm) (here : get_elem? k.procs p ≡ some pcb)
    (own : pcb.own_mm ≡ some mm) (rl : Queue) (linked : k.running_list ≡ some rl)
    (valid : IsQueue rl) (known : Known k.procs (contents rl)) (only : OnlyPid k.procs pcb.pid p)
    (in_list : member p (contents rl) ≡ true) (junk pgn v swpfpn : ℕ) (xs fs : List ℕ)
    (oldest : mm.fifo_pgn ≡ xs ++ (v ∷ [])) (slot : k.active_mswp.free_fp_list ≡ swpfpn ∷ fs)
    (mram' mswp' : Memphy) where
  -- The swap device after its first free frame was taken.
  abbrev pub taken : Memphy
  taken = record k.active_mswp {
    free_fp_list = fs;
    used_fp_list = swpfpn ∷ k.active_mswp.used_fp_list;
  }

  abbrev swapping : Krnl
  swapping = record k { active_mswp = taken }

  abbrev after_swap : Krnl
  after_swap = record k { mram = mram'; active_mswp = mswp' }

  slot_of :
      (m : Mm) → take_swap_frame (with_mm k p pcb m) ≡ some (some swpfpn, with_mm swapping p pcb m)
  unfolding take_swap_frame get_freefp
  slot_of m = ground (arith, slot)

  module _
      (swap : mm_swap_page junk k.mram taken
          (paging_fpn (pte_of (chosen mm pgn v swpfpn xs) v))
          swpfpn
        ≡ some (mram', mswp')) where
    abbrev regs : ScRegs
    regs = record { a1 = 3; a2 = frame_of mm pgn v swpfpn xs; a3 = swpfpn }

    call_of :
        (m : Mm)
        → syscall junk pcb.pid 17 regs (with_mm swapping p pcb m)
          ≡ some ((success, regs), with_mm after_swap p pcb m)
    unfolding syscall memop swp_op
    call_of m =
        let pcb' : Pcb = record pcb { own_mm = some m } in
        let listed =
          sys_memmap_listed (with_mm swapping p pcb m) rl pcb.pid p linked valid
            (Known-set k.procs p pcb pcb' here (contents rl) known)
            (OnlyPid-set k.procs p pcb pcb' here pcb.pid refl only) junk regs in_list in
        ground (arith, listed, swap)

    replace_run :
        replace junk p pgn 0 v swpfpn (with_mm swapping p pcb (chosen mm pgn v swpfpn xs))
        ≡ some (success, with_mm after_swap p pcb (brought_in mm pgn v swpfpn xs))
    unfolding replace enlist_pgn_node
    replace_run =
        let m₂ : Mm = looked (chosen mm pgn v swpfpn xs) v in
        let m₃ : Mm = swapped_out mm pgn v swpfpn xs in
        ground (
          arith,
          entry_of swapping p pcb here (chosen mm pgn v swpfpn xs) v,
          pcb_of swapping p pcb here m₂,
          call_of m₂,
          mm_of after_swap p pcb here m₂,
          put_of after_swap p pcb here m₂ m₃,
          mm_of after_swap p pcb here m₃,
          put_of after_swap p pcb here m₃ (brought_in mm pgn v swpfpn xs),
        )

  -- For a process of the running list, whose pid no other process has, with a well-formed table, a
  -- page that was never mapped and a different victim that is the oldest page, both below 2 ^ 45,
  -- with a free swap frame and a copy of the victim's frame that succeeds, pg_getpage gives the
  -- page the victim's frame, notes the swap frame in the victim's entry, queues the page, and
  -- changes no other entry, area or register.
  pub pg_getpage_replaces :
      IsPgd mm.pgd
      → pgn < 2 ^ 45
      → v < 2 ^ 45
      → v ≢ pgn
      → pte_of mm pgn ≡ 0
      → mm_swap_page junk k.mram taken (paging_fpn (pte_of mm v)) swpfpn ≡ some (mram', mswp')
      → (mm' : Mm) × (pg_getpage junk p pgn k
          ≡ some (some (paging_fpn (pte_of mm v)), with_mm after_swap p pcb mm'))
        × Replaced mm pgn v swpfpn xs mm'
  unfolding pg_getpage bring_in
  pg_getpage_replaces w h hv differ fresh swap =
      let done : Mm = brought_in mm pgn v swpfpn xs in
      let swap' : mm_swap_page junk k.mram taken (frame_of mm pgn v swpfpn xs) swpfpn
          ≡ some (mram', mswp') =
        rw (frame_same mm pgn v swpfpn xs w h hv differ) swap in
      (
        looked done pgn,
        ground (
          arith,
          get_entry_lem k p pcb mm here own pgn,
          fresh,
          page_present_zero,
          victim_of k p pcb here (looked mm pgn) xs v oldest,
          slot_of (chosen mm pgn v swpfpn xs),
          replace_run swap',
          entry_of after_swap p pcb here done pgn,
          frame_read mm pgn v swpfpn xs w h hv differ,
        ),
        brought_in-Replaced mm pgn v swpfpn xs w h hv differ,
      )
