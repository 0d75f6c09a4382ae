-- ===== src/Tests/Calls.antt =====
-- Regions, requests and system calls: src/libmem.c and src/sys_mem.c at concrete inputs.
use simple_os_simulator.Prelude.{◌≡◌, refl, arith, none, some, [], ◌∷◌, success, set}
use simple_os_simulator.Memphy.{Memphy}
use simple_os_simulator.PageTable.{calloc_table}
use simple_os_simulator.Mm.{Mm}
use simple_os_simulator.Vm.{get_vma_by_num, inc_vma_limit, commit}
use simple_os_simulator.Vm.Grow.{inc_vma_limit_exhausts}
use simple_os_simulator.Krnl.{◌>>=◌}
use simple_os_simulator.Syscall.{ScRegs}
use simple_os_simulator.LibMem.{first_fit, alloc, free}
use simple_os_simulator.LibMem.Alloc.{with_mm, freed, free-alloc}
use simple_os_simulator.LibMem.Grow.{alloc_unlisted, alloc_listed}
use simple_os_simulator.Tests.Samples.{
  region, heap, memory, process, ram, listing, nobody, kernel, listing-IsValid, nobody-IsValid,
  listing-Known, process-OnlyPid,
}

abbrev mm : Mm
mm = memory calloc_table []

abbrev call : ScRegs
call = record { a1 = 2; a2 = 0; a3 = 300 }

abbrev freed_2 : Mm
freed_2 =
    freed (kernel mm listing) 0 (process mm) mm refl refl (heap []) [] 2 (region 256 512) refl
      (omega arith) refl (omega arith, omega arith)

free-alloc_example :
    (free 0 2 >>= λ _. alloc 0 (region 1 1) 0 0 0 2 256) (kernel mm listing)
    ≡ some ((success, 256), kernel mm listing)
free-alloc_example =
    free-alloc (kernel mm listing) 0 (process mm) mm refl refl (heap []) [] 2 (region 256 512) refl
      (omega arith) refl (omega arith, omega arith) refl (omega arith) 0 (region 1 1) 0

found : get_vma_by_num mm.mmap 0 ≡ some (0, heap [])
unfolding get_vma_by_num
found = refl

no_fit : first_fit [] 300 ≡ none
unfolding first_fit
no_fit = refl

alloc_unlisted_example :
    alloc 0 (region 1 1) 0 0 0 4 300 (kernel mm nobody)
    ≡ some (
      (success, 512),
      with_mm
          (kernel mm nobody)
          0
          (process mm)
          (record mm { symrgtbl = set mm.symrgtbl 4 (region 512 812) }),
    )
alloc_unlisted_example =
    alloc_unlisted (kernel mm nobody) 0 (process mm) mm refl refl 0 4 300 0 (heap []) (region 0 0)
      found (omega arith) no_fit nobody refl nobody-IsValid tt (process-OnlyPid mm) refl 0 0
      (region 1 1) refl

-- A request of ten pages, for which there are two frames.
huge :
    (mram' : Memphy) × (inc_vma_limit mm (ram (0 ∷ 1 ∷ [])) 0 2560
      ≡ (success, commit mm 0 (heap []) 3072, mram'))
    × (mram'.free_fp_list ≡ [])
huge =
    inc_vma_limit_exhausts mm (ram (0 ∷ 1 ∷ [])) 0 2560 0 (heap []) found (omega arith)
      (omega arith) (omega arith)

no_fit_huge : first_fit [] 2560 ≡ none
unfolding first_fit
no_fit_huge = refl

alloc_listed_example :
    alloc 0 (region 1 1) 0 0 0 4 2560 (kernel mm listing)
    ≡ some (
      (success, 512),
      with_mm
          (record (kernel mm listing) { mram = huge.0 })
          0
          (process mm)
          (record (commit mm 0 (heap []) 3072) { symrgtbl = set mm.symrgtbl 4 (region 512 3072) }),
    )
alloc_listed_example =
    alloc_listed (kernel mm listing) 0 (process mm) mm refl refl 0 4 2560 0 (heap []) (region 0 0)
      found (omega arith) no_fit_huge listing refl listing-IsValid (listing-Known mm)
      (process-OnlyPid mm) refl 0 0 (region 1 1) success (commit mm 0 (heap []) 3072) huge.0 refl
      huge.1 refl
