-- ===== src/PageTable.antt =====
-- The five-level page table of src/mm64.c: `get_pd_from_address`, `get_pd_from_pagenum`, `get_pte`
-- and the functions that go through it.
-- A table is an array of 512 entries. An entry of an upper level is a pointer to a table of the
-- next level that no other entry holds, so a table owns the tables below it: `none` is a zero
-- entry, and `calloc` gives a table of zeros, never NULL.
pub mod Index
pub mod Lens
pub mod Laws
use simple_os_simulator.Prelude.{
  ℕ, ◌-◌, ◌*◌, ◌/◌, ◌%◌, ◌^◌, ◌+◌, Option, none, some, List, get_or, set, replicate, bit_and,
}
use simple_os_simulator.Prelude.Word.{u32, u64, ◌<<<◌, ◌>>>◌}
use simple_os_simulator.Pte.{fpn_entry, swap_entry}

-- `GENMASK64(h, l)`
abbrev genmask64 : ℕ → ℕ → ℕ
genmask64 h l = bit_and (u64 ((2 ^ 64 - 1) <<< l)) ((2 ^ 64 - 1) >>> (63 - h))

-- The indices of the five levels.
pub record Path5 : Type 0 where
  pub pgd : ℕ
  pub p4d : ℕ
  pub pud : ℕ
  pub pmd : ℕ
  pub pt : ℕ

unfoldable get_pd_from_address : ℕ → Path5
get_pd_from_address addr = record {
  pgd = bit_and addr (genmask64 56 48) >>> 48;
  p4d = bit_and addr (genmask64 47 39) >>> 39;
  pud = bit_and addr (genmask64 38 30) >>> 30;
  pmd = bit_and addr (genmask64 29 21) >>> 21;
  pt = bit_and addr (genmask64 20 12) >>> 12;
}

unfoldable pub get_pd_from_pagenum : ℕ → Path5
unfolding get_pd_from_address
get_pd_from_pagenum pgn = get_pd_from_address (u64 (pgn <<< 12))

abbrev pub pgtbl_entries : ℕ
pgtbl_entries = 512

abbrev Pt : Type 0
Pt = List ℕ

abbrev pub Pmd : Type 0
Pmd = List (Option Pt)

abbrev pub Pud : Type 0
Pud = List (Option Pmd)

abbrev pub P4d : Type 0
P4d = List (Option Pud)

abbrev pub Pgd : Type 0
Pgd = List (Option P4d)

-- `calloc(PAGING64_PGTBL_ENTRIES, sizeof(addr_t))`
abbrev pub calloc_pt : Pt
calloc_pt = replicate pgtbl_entries 0

abbrev pub calloc_table {ℓ} : {A : Type ℓ} → List (Option A)
calloc_table = replicate pgtbl_entries none

-- The table that an entry points to, after `if (table[i] == 0) table[i] = calloc(...)`.
abbrev pub entry_or {ℓ} : {A : Type ℓ} → A → List (Option A) → ℕ → A
entry_or fresh table i = elim (get_or table i none) [ none ↦ fresh | some child ↦ child ]

-- The walk of `get_pte`, then an update of the entry that it ends at.
unfoldable pub walk : Pgd → Path5 → (ℕ → ℕ) → Pgd
walk pgd path f =
    let p4d = entry_or calloc_table pgd path.pgd in
    let pud = entry_or calloc_table p4d path.p4d in
    let pmd = entry_or calloc_table pud path.pud in
    let pt = entry_or calloc_pt pmd path.pmd in
    let pt' = set pt path.pt (f (get_or pt path.pt 0)) in
    let pmd' = set pmd path.pmd (some pt') in
    let pud' = set pud path.pud (some pmd') in
    let p4d' = set p4d path.p4d (some pud') in set pgd path.pgd (some p4d')

-- What `*get_pte(caller, pgn)` reads.
unfoldable pub peek : Pgd → Path5 → ℕ
peek pgd path =
    let p4d = entry_or calloc_table pgd path.pgd in
    let pud = entry_or calloc_table p4d path.p4d in
    let pmd = entry_or calloc_table pud path.pud in
    let pt = entry_or calloc_pt pmd path.pmd in get_or pt path.pt 0

-- `get_pte` alone: the tables on the way are there afterwards.
unfoldable pub get_pte : Pgd → ℕ → Pgd
unfolding walk
get_pte pgd pgn = walk pgd (get_pd_from_pagenum pgn) (λ pte. pte)

unfoldable pub pte_get_entry : Pgd → ℕ → ℕ × Pgd
unfolding get_pte peek
pte_get_entry pgd pgn = (u32 (peek pgd (get_pd_from_pagenum pgn)), get_pte pgd pgn)

unfoldable pub pte_set_entry : Pgd → ℕ → ℕ → Pgd
unfolding walk
pte_set_entry pgd pgn pte_val = walk pgd (get_pd_from_pagenum pgn) (λ _. u32 pte_val)

unfoldable pub pte_set_swap : Pgd → ℕ → ℕ → ℕ → Pgd
unfolding walk
pte_set_swap pgd pgn swptyp swpoff =
    walk pgd (get_pd_from_pagenum pgn) (λ pte. swap_entry pte swptyp swpoff)

unfoldable pub pte_set_fpn : Pgd → ℕ → ℕ → Pgd
unfolding walk
pte_set_fpn pgd pgn fpn = walk pgd (get_pd_from_pagenum pgn) (λ pte. fpn_entry pte fpn)
