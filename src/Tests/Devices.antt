-- ===== src/Tests/Devices.antt =====
-- Concrete devices for src/mm-memphy.c and the copy of a page of src/mm64.c.
use simple_os_simulator.Prelude.{ℕ, ◌<◌, ◌≤◌, ◌⊎◌, arith, [], ◌∷◌, replicate}
use simple_os_simulator.Memphy.{Memphy}
use simple_os_simulator.Vm.{swap_cp_page, minus_3000, alloc_pages_range}
use simple_os_simulator.Vm.Map.{Allocated, alloc_pages_range-Allocated}
use simple_os_simulator.Vm.Copy.{Copied, swap_cp_page-Copied}

-- Two frames of RAM, or of a serial device.
abbrev device : ℕ → Memphy
device flag = record {
  storage = replicate 512 5;
  maxsz = 512;
  rdmflg = flag;
  cursor = 0;
  free_fp_list = 0 ∷ 1 ∷ [];
  used_fp_list = [];
}

alloc_pages_range-Allocated_example :
    ((3 ≤ 2) × Allocated 0 (0 ∷ 1 ∷ []) [] (device 1) (alloc_pages_range (device 1) 3))
    ⊎ ((2 < 3) × Allocated minus_3000 (0 ∷ 1 ∷ []) [] (device 1) (alloc_pages_range (device 1) 3))
alloc_pages_range-Allocated_example = alloc_pages_range-Allocated (device 1) 3 (omega arith)

swap_cp_page-Copied_example :
    Copied 0 1 0
      (device 1)
      (omega arith)
      (omega arith)
      (omega arith)
      0
      (device 1)
      (swap_cp_page 0 (device 1) 1 (device 1) 0)
swap_cp_page-Copied_example =
    swap_cp_page-Copied 0 1 0 (device 1) (omega arith) (omega arith) (omega arith) (device 1)
      (omega arith) (omega arith) (omega arith)
