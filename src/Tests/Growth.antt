-- ===== src/Tests/Growth.antt =====
-- Growing an area: src/mm-vm.c at concrete inputs.
use simple_os_simulator.Prelude.{◌≡◌, refl, arith, some, [], ◌∷◌, success}
use simple_os_simulator.Memphy.{Memphy}
use simple_os_simulator.PageTable.{calloc_table}
use simple_os_simulator.PageTable.Laws.{calloc-IsPgd}
use simple_os_simulator.Mm.{Mm}
use simple_os_simulator.Vm.{get_vma_by_num, inc_vma_limit, commit}
use simple_os_simulator.Vm.Map.{Mapped}
use simple_os_simulator.Vm.Grow.{inc_vma_limit_maps, inc_vma_limit_exhausts}
use simple_os_simulator.Tests.Samples.{heap, memory, ram}

abbrev mm : Mm
mm = memory calloc_table []

found : get_vma_by_num mm.mmap 0 ≡ some (0, heap [])
unfolding get_vma_by_num
found = refl

inc_vma_limit_maps_example :
    (mm' : Mm) × (mram' : Memphy) × (inc_vma_limit mm (ram (0 ∷ 1 ∷ [])) 0 300
      ≡ (success, commit mm' 0 (heap []) 1024, mram'))
    × Mapped 2 (0 ∷ 1 ∷ []) mm mm'
    × (mram'.free_fp_list ≡ [])
inc_vma_limit_maps_example =
    inc_vma_limit_maps mm (ram (0 ∷ 1 ∷ [])) 0 300 0 (heap []) found (omega arith) (omega arith)
      calloc-IsPgd refl (omega arith)

inc_vma_limit_exhausts_example :
    (mram' : Memphy) × (inc_vma_limit mm (ram (0 ∷ [])) 0 300
      ≡ (success, commit mm 0 (heap []) 812, mram'))
    × (mram'.free_fp_list ≡ [])
inc_vma_limit_exhausts_example =
    inc_vma_limit_exhausts mm (ram (0 ∷ [])) 0 300 0 (heap []) found (omega arith) (omega arith)
      (omega arith)
