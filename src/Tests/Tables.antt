-- ===== src/Tests/Tables.antt =====
-- Concrete page tables and entries for src/mm64.c.
use simple_os_simulator.Prelude.{ℕ, ◌^◌, ◌<◌, ◌≡◌, ◌≢◌, arith, true}
use simple_os_simulator.Pte.{page_present, paging_fpn, paging_swp}
use simple_os_simulator.PageTable.{Pgd, calloc_table, pte_set_fpn, pte_set_swap}
use simple_os_simulator.PageTable.Laws.{
  IsPgd, entry, calloc-IsPgd, pte_set_fpn_lem, pte_set_swap_lem,
}

abbrev table : Pgd
table = calloc_table

pte_set_fpn_lem_example :
    let pgd' = pte_set_fpn table 3 7 in
    (page_present (entry pgd' 3) ≡ true)
    × (paging_fpn (entry pgd' 3) ≡ 7)
    × ((n : ℕ) → n < 2 ^ 45 → 3 ≢ n → entry pgd' n ≡ entry table n)
    × IsPgd pgd'
pte_set_fpn_lem_example = pte_set_fpn_lem table 3 7 calloc-IsPgd (omega arith)

pte_set_swap_lem_example :
    let pgd' = pte_set_swap table 3 0 9 in
    (paging_swp (entry pgd' 3) ≡ 9)
    × (page_present (entry pgd' 3) ≡ true)
    × (paging_fpn (entry pgd' 3) ≡ 288)
    × ((n : ℕ) → n < 2 ^ 45 → 3 ≢ n → entry pgd' n ≡ entry table n)
    × IsPgd pgd'
pte_set_swap_lem_example = pte_set_swap_lem table 3 0 9 calloc-IsPgd (omega arith)
