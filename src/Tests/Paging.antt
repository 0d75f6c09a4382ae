-- ===== src/Tests/Paging.antt =====
-- Pages that are present, swapped and replaced: src/libmem.c at concrete inputs.
use simple_os_simulator.Prelude.{
  ℕ, ◌+◌, ◌*◌, ◌^◌, ◌<◌, ◌≡◌, refl, arith, true, some, [], ◌∷◌, success,
}
use simple_os_simulator.Memphy.{Memphy, read, write}
use simple_os_simulator.Memphy.Laws.{read-write}
use simple_os_simulator.Pte.Fields.{fpn_entry_fields, pgn_offst, paging_fpn-mod}
use simple_os_simulator.Pte.{fpn_entry, page_present, paging_fpn, paging_pgn, paging_offst}
use simple_os_simulator.PageTable.{
  peek, get_pd_from_pagenum, calloc_table, pte_set_fpn, pte_set_swap,
}
use simple_os_simulator.PageTable.Laws.{
  IsPgd, entry, calloc-IsPgd, pte_set_fpn_lem, pte_set_fpn-update, entry-update_self,
}
use simple_os_simulator.Mm.{Mm}
use simple_os_simulator.Krnl.{Krnl}
use simple_os_simulator.Vm.{mm_swap_page, swap_cp_page}
use simple_os_simulator.Vm.Copy.{Copied, swap_cp_page-Copied}
use simple_os_simulator.LibMem.{pg_getpage, pg_getval, pg_setval}
use simple_os_simulator.LibMem.Alloc.{with_mm}
use simple_os_simulator.LibMem.Paging.{SameMemory, pte_of, pg_getpage_swapped}
use simple_os_simulator.LibMem.Access.{pg_setval_present, pg_getval_present}
use simple_os_simulator.LibMem.Replace.{Replaced, pg_getpage_replaces}
use simple_os_simulator.Tests.Samples.{
  memory, process, ram, listing, kernel, listing-IsValid, listing-Known, process-OnlyPid,
}

-- Page 1 in frame 1.
abbrev mm : Mm
mm = memory (pte_set_fpn calloc_table 1 1) []

abbrev blank : Mm
blank = memory calloc_table []

mm-IsPgd : IsPgd mm.pgd
mm-IsPgd = (pte_set_fpn_lem calloc_table 1 1 calloc-IsPgd (omega arith)).3

word : pte_of mm 1 ≡ fpn_entry (entry calloc_table 1) 1
word =
    rw
      (
        pte_set_fpn-update calloc_table 1 1,
        entry-update_self calloc_table 1 (λ pte. fpn_entry pte 1) calloc-IsPgd,
      )
      (omega (arith, fpn_entry_fields (entry calloc_table 1) 1))

present : page_present (pte_of mm 1) ≡ true
present = rw word (fpn_entry_fields (entry calloc_table 1) 1).0

frame : paging_fpn (pte_of mm 1) ≡ 1
frame = rw word (fpn_entry_fields (entry calloc_table 1) 1).2

abbrev evicted : Mm
evicted = memory (pte_set_swap calloc_table 1 0 9) []

pg_getpage_swapped_example :
    (mm' : Mm) × (pg_getpage 0 0 1 (kernel evicted listing)
      ≡ some (some 288, with_mm (kernel evicted listing) 0 (process evicted) mm'))
    × SameMemory evicted mm'
pg_getpage_swapped_example =
    pg_getpage_swapped (kernel evicted listing) 0 (process evicted) evicted refl refl 0 1 9
      calloc_table calloc-IsPgd (omega arith) refl

-- The page of address 300, and the byte of RAM that the address stands for.
page_300 : paging_pgn 300 ≡ 1
page_300 = omega (arith, pgn_offst 300)

present_300 : page_present (pte_of mm (paging_pgn 300)) ≡ true
present_300 = rw page_300 present

abbrev spot : ℕ
spot = paging_fpn (pte_of mm (paging_pgn 300)) * 2 ^ 8 + paging_offst 300

spot_small : spot < 512
spot_small =
    let f : paging_fpn (pte_of mm (paging_pgn 300)) ≡ 1 = rw page_300 frame in
    omega (arith, f, pgn_offst 300)

stored :
    (mp' : Memphy) × (write (ram (0 ∷ 1 ∷ [])) spot 77 ≡ some (success, mp'))
    × ((v : ℕ) → read mp' spot v ≡ some (success, 77, mp'))
stored =
    let (mp', w, r, _, _) = read-write (ram (0 ∷ 1 ∷ [])) spot 77 (omega arith) spot_small in
    (mp', w, r)

pg_setval_present_example :
    (mm' : Mm) × (pg_setval 0 0 300 77 (kernel mm listing)
      ≡ some (success, with_mm (record (kernel mm listing) { mram = stored.0 }) 0 (process mm) mm'))
    × SameMemory mm mm'
pg_setval_present_example =
    pg_setval_present (kernel mm listing) 0 (process mm) mm refl refl mm-IsPgd listing refl
      listing-IsValid (listing-Known mm) (process-OnlyPid mm) refl 300 present_300 0 77 success
      stored.0 stored.1

abbrev written : Krnl
written = record (kernel mm listing) { mram = stored.0 }

pg_getval_present_example :
    (mm' : Mm) × (pg_getval 0 0 0 300 4 written
      ≡ some ((success, 4), with_mm (record written { mram = stored.0 }) 0 (process mm) mm'))
    × SameMemory mm mm'
pg_getval_present_example =
    pg_getval_present written 0 (process mm) mm refl refl mm-IsPgd listing refl listing-IsValid
      (listing-Known mm) (process-OnlyPid mm) refl 300 present_300 0 0 4 success 77 stored.0
      (stored.2 0)

blank_0 : pte_of blank 0 ≡ 0
unfolding entry peek get_pd_from_pagenum
blank_0 = refl

blank_5 : pte_of blank 5 ≡ 0
unfolding entry peek get_pd_from_pagenum
blank_5 = refl

copied :
    Copied 0 0 0
      (ram (0 ∷ 1 ∷ []))
      (omega arith)
      (omega arith)
      (omega arith)
      0
      (record (ram (1 ∷ [])) { used_fp_list = 0 ∷ [] })
      (swap_cp_page 0 (ram (0 ∷ 1 ∷ [])) 0 (record (ram (1 ∷ [])) { used_fp_list = 0 ∷ [] }) 0)
copied =
    swap_cp_page-Copied 0 0 0 (ram (0 ∷ 1 ∷ [])) (omega arith) (omega arith) (omega arith)
      (record (ram (1 ∷ [])) { used_fp_list = 0 ∷ [] }) (omega arith) (omega arith) (omega arith)

frame_0 : paging_fpn (pte_of blank 0) ≡ 0
frame_0 = rw blank_0 (paging_fpn-mod 0)

swapped :
    mm_swap_page 0
      (ram (0 ∷ 1 ∷ []))
      (record (ram (1 ∷ [])) { used_fp_list = 0 ∷ [] })
      (paging_fpn (pte_of blank 0))
      0
    ≡ some (ram (0 ∷ 1 ∷ []), copied.out)
unfolding mm_swap_page
swapped = rw frame_0 copied.returns

-- Page 5 takes the frame of page 0, which goes to swap frame 0.
pg_getpage_replaces_example :
    (mm' : Mm) × (pg_getpage 0 0 5 (kernel blank listing)
      ≡ some (
        some (paging_fpn (pte_of blank 0)),
        with_mm (record (kernel blank listing) { active_mswp = copied.out }) 0 (process blank) mm',
      ))
    × Replaced blank 5 0 0 (1 ∷ []) mm'
pg_getpage_replaces_example =
    pg_getpage_replaces (kernel blank listing) 0 (process blank) blank refl refl listing refl
      listing-IsValid (listing-Known blank) (process-OnlyPid blank) refl 0 5 0 0 (1 ∷ []) (1 ∷ [])
      refl refl (ram (0 ∷ 1 ∷ [])) copied.out calloc-IsPgd (omega arith) (omega arith) (omega arith)
      blank_5 swapped
