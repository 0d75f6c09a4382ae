-- ===== src/Mm.antt =====
-- The memory of a process: the structs of include/os-mm.h, and the list functions and `init_mm` of
-- src/mm64.c. A linked list is a list; every list here has one owner. `rg.vmaid`, `vma.vm_mm`,
-- the kernel cache pools and the spare directory pointers of `mm_struct` are left out: nothing that
-- is modelled reads them.
use simple_os_simulator.Prelude.{ℕ, List, [], ◌∷◌}
use simple_os_simulator.PageTable.{Pgd, calloc_table}

-- `vm_rg_struct`
pub record Rg : Type 0 where
  pub rg_start : ℕ
  pub rg_end : ℕ

-- `vm_area_struct`
pub record Vma : Type 0 where
  pub vm_id : ℕ
  pub vm_start : ℕ
  pub vm_end : ℕ
  pub sbrk : ℕ
  pub vm_freerg_list : List Rg

-- `mm_struct`
pub record Mm : Type 0 where
  pub pgd : Pgd
  pub mmap : List Vma
  pub symrgtbl : List Rg
  pub fifo_pgn : List ℕ

abbrev max_symtbl_sz : ℕ
max_symtbl_sz = 30

unfoldable init_vm_rg : ℕ → ℕ → Rg
init_vm_rg rg_start rg_end = record { rg_start = rg_start; rg_end = rg_end }

unfoldable enlist_vm_rg_node : List Rg → Rg → List Rg
enlist_vm_rg_node rglist rgnode = rgnode ∷ rglist

unfoldable pub enlist_pgn_node : List ℕ → ℕ → List ℕ
enlist_pgn_node plist pgn = pgn ∷ plist

-- `symrgtbl` keeps what `malloc` left in it.
unfoldable pub init_mm : List Rg → Mm
unfolding init_vm_rg enlist_vm_rg_node
init_mm symrgtbl = record {
  pgd = calloc_table;
  mmap =
      record {
        vm_id = 0;
        vm_start = 0;
        vm_end = 0;
        sbrk = 0;
        vm_freerg_list = enlist_vm_rg_node [] (init_vm_rg 0 0);
      }
      ∷ [];
  symrgtbl = symrgtbl;
  fifo_pgn = [];
}
