-- ===== src/Tests/FlatPages.antt =====
-- Runs of src/mm.c.
use simple_os_simulator.Prelude.{
  ℕ, ◌≡◌, ◌≢◌, ◌+◌, ◌%◌, ◌^◌, refl, arith, Bool, not, some, List, [], ◌∷◌, ◌==◌, bit_and, success,
  get_elem?, replicate, length-replicate, true,
}
use simple_os_simulator.Pte.{swapped_mask, paging_pgn, paging_fpn}
use simple_os_simulator.Memphy.{Memphy}
use simple_os_simulator.Mm
use simple_os_simulator.Flat.{FlatMm, vm_map_range, init_mm}
use simple_os_simulator.Flat.Trace.{Call, flat_run, tree_run}
use simple_os_simulator.Flat.Equivalence.{flat_run-tree_run}
use simple_os_simulator.Flat.Exhaustion.{vm_map_range_exhausts}
use simple_os_simulator.Flat.Access.{FlatKrnl, flat_read, flat_write}
use simple_os_simulator.Flat.Teardown.{
  free_pcb_memph, freed, ram_frames, swap_frames, free_pcb_memph-lists,
}
use simple_os_simulator.Flat.Reread.{flat_read-flat_write}
use simple_os_simulator.Tests.Samples.{ram}

-- A page is mapped, read, swapped out, and read again.
abbrev calls : List Call
calls = Call.set_fpn 300 7 ∷ Call.get_entry 300 ∷ Call.set_swap 300 0 9 ∷ Call.get_entry 300 ∷ []

flat_run-tree_run_example : flat_run init_mm.pgd calls ≡ some (tree_run (Mm.init_mm []).pgd calls)
flat_run-tree_run_example =
    flat_run-tree_run calls (omega arith, (omega arith, (omega arith, (omega arith, tt))))

-- Page 0 is in frame 1.
abbrev one_page : FlatMm
one_page = record { pgd = (2 ^ 31 + 1) ∷ []; mmap = []; symrgtbl = []; fifo_pgn = 0 ∷ [] }

vm_map_range_exhausts_example :
    (mram' : Memphy) × (vm_map_range one_page (ram (0 ∷ [])) 0 2
      ≡ some (record { rg_start = 0; rg_end = 512 }, one_page, mram'))
    × (mram'.free_fp_list ≡ [])
vm_map_range_exhausts_example =
    vm_map_range_exhausts one_page (ram (0 ∷ [])) 0 2 (omega arith) (omega arith)

abbrev krnl : FlatKrnl
krnl = record { mm = one_page; mram = ram []; mswp = ram [] }

abbrev tests_swapped : ℕ → Bool
tests_swapped pte = not (bit_and pte swapped_mask == 0)

abbrev low_byte : ℕ → ℕ
low_byte addr = addr % 256

flat_read-flat_write_example :
    (k' : FlatKrnl) × (flat_write tests_swapped low_byte 0 5 77 krnl ≡ some (success, k'))
    × ((old : ℕ) → flat_read tests_swapped low_byte 0 old 5 k' ≡ some (success, 77, k'))
    × ((q : ℕ) → q ≢ paging_pgn 5 → get_elem? k'.mm.pgd q ≡ get_elem? krnl.mm.pgd q)
unfolding paging_pgn paging_fpn
flat_read-flat_write_example =
    flat_read-flat_write tests_swapped low_byte 0 (λ pte. refl) 5 77 (2 ^ 31 + 1) krnl refl
      (omega arith) refl (omega arith) (omega arith)

-- The first page is in frame 1, and no other was ever mapped.
abbrev full : FlatKrnl
full = record krnl { mm = record one_page { pgd = (2 ^ 31 + 1) ∷ replicate 16383 0 } }

free_pcb_memph-lists_example :
    free_pcb_memph true full
    ≡ some (success, freed (ram_frames full.mm.pgd) (swap_frames full.mm.pgd) full)
free_pcb_memph-lists_example =
    free_pcb_memph-lists full (omega (arith, length-replicate {A = ℕ} 16383 0))
