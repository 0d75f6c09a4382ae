-- ===== src/LibMem/Access.antt =====
-- `pg_getval` and `pg_setval` of src/libmem.c for a page that is present.
use simple_os_simulator.Prelude.{
  ℕ, ◌+◌, ◌*◌, ◌^◌, ◌≡◌, refl, arith, true, none, some, Status, success, get_elem?,
}
use simple_os_simulator.Prelude.Word.{u8}
use simple_os_simulator.Queue.{Queue}
use simple_os_simulator.Queue.Laws.{contents, member}
use simple_os_simulator.Queue.Laws.{IsValid as IsQueue}
use simple_os_simulator.Memphy.{Memphy, read, write}
use simple_os_simulator.Pte.{page_present, paging_fpn, paging_pgn, paging_offst}
use simple_os_simulator.Pte.Fields.{pgn_offst}
use simple_os_simulator.PageTable.Laws.{IsPgd}
use simple_os_simulator.Mm.{Mm}
use simple_os_simulator.Krnl.{Krnl, Pcb}
use simple_os_simulator.Syscall.{ScRegs, syscall, sys_memmap, memop, io_read, io_write}
use simple_os_simulator.Syscall.Caller.{Known, OnlyPid, Known-set, OnlyPid-set, sys_memmap_listed}
use simple_os_simulator.LibMem.{pg_getval, pg_setval}
use simple_os_simulator.LibMem.Alloc.{with_mm, get_after}
use simple_os_simulator.LibMem.Paging.{SameMemory, pte_of, pg_getpage_present}

-- A process of the running list, and an address whose page is present.
module _ (k : Krnl) (p : ℕ) (pcb : Pcb) (mm : Mm) (here : get_elem? k.procs p ≡ some pcb)
    (own : pcb.own_mm ≡ some mm) (w : IsPgd mm.pgd) (rl : Queue) (linked : k.running_list ≡ some rl)
    (valid : IsQueue rl) (known : Known k.procs (contents rl)) (only : OnlyPid k.procs pcb.pid p)
    (in_list : member p (contents rl) ≡ true) (addr : ℕ)
    (present : page_present (pte_of mm (paging_pgn addr)) ≡ true) where
  -- Where the byte of the address lies in RAM.
  abbrev phyaddr : ℕ
  phyaddr = paging_fpn (pte_of mm (paging_pgn addr)) * 2 ^ 8 + paging_offst addr

  calls :
      (junk : ℕ) (regs : ScRegs) (mm' : Mm)
      → sys_memmap junk pcb.pid regs (with_mm k p pcb mm')
        ≡ (elim (memop junk p regs (with_mm k p pcb mm')) [
          | none ↦ none
          | some (regs', k') ↦ some ((success, regs'), k')
        ])
  calls junk regs mm' =
      let pcb' : Pcb = record pcb { own_mm = some mm' } in
      sys_memmap_listed (with_mm k p pcb mm') rl pcb.pid p linked valid
        (Known-set k.procs p pcb pcb' here (contents rl) known)
        (OnlyPid-set k.procs p pcb pcb' here pcb.pid refl only) junk regs in_list

  -- For a process of the running list, whose pid no other process has, with a well-formed table
  -- and an address whose page is present, where the device takes the byte, pg_setval returns 0 and
  -- the low 8 bits of the value are stored in the page's frame at the offset of the address; the
  -- process's memory is the same.
  pub pg_setval_present :
      (junk value : ℕ) (st : Status) (mram' : Memphy)
      → write k.mram phyaddr (u8 value) ≡ some (st, mram')
      → (mm' : Mm) × (pg_setval junk p addr value k
          ≡ some (success, with_mm (record k { mram = mram' }) p pcb mm'))
        × SameMemory mm mm'
  unfolding pg_setval syscall memop io_write
  pg_setval_present junk value st mram' written =
      let (mm', run, same) =
        pg_getpage_present k p pcb mm here own w junk (paging_pgn addr)
          (omega (arith, pgn_offst addr)) present in
      (
        mm',
        ground (
          arith,
          run,
          get_after k p pcb mm here own mm',
          calls junk (record { a1 = 5; a2 = phyaddr; a3 = value }) mm',
          written,
        ),
        same,
      )

  -- For a process of the running list, whose pid no other process has, with a well-formed table
  -- and an address whose page is present, where the device gives a byte, pg_getval returns 0 and
  -- *data is what it was before: the byte does not reach it; the process's memory is the same.
  pub pg_getval_present :
      (junk data_ptr byte : ℕ) (st : Status) (got : ℕ) (mram' : Memphy)
      → read k.mram phyaddr junk ≡ some (st, got, mram')
      → (mm' : Mm) × (pg_getval junk data_ptr p addr byte k
          ≡ some ((success, byte), with_mm (record k { mram = mram' }) p pcb mm'))
        × SameMemory mm mm'
  unfolding pg_getval syscall memop io_read
  pg_getval_present junk data_ptr byte st got mram' fetched =
      let (mm', run, same) =
        pg_getpage_present k p pcb mm here own w junk (paging_pgn addr)
          (omega (arith, pgn_offst addr)) present in
      (
        mm',
        ground (
          arith,
          run,
          get_after k p pcb mm here own mm',
          calls junk (record { a1 = 4; a2 = phyaddr; a3 = data_ptr }) mm',
          fetched,
        ),
        same,
      )
