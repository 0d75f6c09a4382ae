-- ===== src/Flat.antt =====
-- src/mm.c, the mapping functions of the build without MM64: the page table is one array of
-- PAGING_MAX_PGN words of 32 bits, and addr_t has 32 bits. `none` is an access outside the array.
pub mod Access
pub mod Reread
pub mod Trace
pub mod Equivalence
pub mod Exhaustion
pub mod Teardown
pub mod Print
use simple_os_simulator.Prelude.{
  ℕ, zero, suc, ◌+◌, ◌-◌, ◌*◌, ◌^◌, Bool, true, false, Option, none, some, List, [], ◌∷◌, ltb, ◌==◌,
  if◌then◌else◌, get_elem?, set, replicate, bit_and, bit_or, Status, success, failure,
}
use simple_os_simulator.Prelude.Word.{u32, int_pos, ◌<<<◌}
use simple_os_simulator.Pte.{
  setbit, clrbit, present_mask, swapped_mask, dirty_mask, fpn_mask, swptyp_mask, swpoff_mask,
  paging_pgn,
}
use simple_os_simulator.Memphy.{Memphy, paging_pagesz, get_freefp}
use simple_os_simulator.Mm.{Rg, Vma, enlist_pgn_node}

-- `PAGING_MAX_PGN`
abbrev pub max_pgn : ℕ
max_pgn = 16384

-- `mm_struct` without MM64.
pub record FlatMm : Type 0 where
  pub pgd : List ℕ
  pub mmap : List Vma
  pub symrgtbl : List Rg
  pub fifo_pgn : List ℕ

-- SETVAL on words of 32 bits.
abbrev pub setval : ℕ → ℕ → ℕ → ℕ → ℕ
setval v value mask offst = bit_or (clrbit v mask) (bit_and (u32 (value <<< offst)) mask)

-- What `pte_set_swap` and `pte_set_fpn` do with `*pte`.
abbrev pub swap_word : ℕ → ℕ → ℕ → ℕ
swap_word pte swptyp swpoff =
    setval (setval (setbit (setbit pte present_mask) swapped_mask) swptyp swptyp_mask 0) swpoff
      swpoff_mask 5

abbrev pub fpn_word : ℕ → ℕ → ℕ
fpn_word pte fpn = setval (clrbit (setbit pte present_mask) swapped_mask) fpn fpn_mask 0

-- The words that `init_pte` leaves, with its return value.
unfoldable init_pte : ℕ → Bool → ℕ → Bool → ℕ → ℕ → Status × ℕ
init_pte pte pre fpn swp swptyp swpoff =
    let online = clrbit (clrbit (setbit pte present_mask) swapped_mask) dirty_mask in
    let swapped = clrbit (setbit (setbit pte present_mask) swapped_mask) dirty_mask in
    if pre
    then (if swp
        then (success, setval (setval swapped swptyp swptyp_mask 0) swpoff swpoff_mask 5)
        else (if fpn == 0 then (failure, pte) else (success, setval online fpn fpn_mask 0)))
    else (success, pte)

-- `pte = &krnl->mm->pgd[pgn]`, and a change of `*pte`.
abbrev pub at : List ℕ → ℕ → (ℕ → ℕ) → Option (List ℕ)
at pgd pgn f = elim (get_elem? pgd pgn) [ none ↦ none | some pte ↦ some (set pgd pgn (f pte)) ]

unfoldable pub pte_set_swap : List ℕ → ℕ → ℕ → ℕ → Option (List ℕ)
pte_set_swap pgd pgn swptyp swpoff = at pgd pgn (λ pte. swap_word pte swptyp swpoff)

unfoldable pub pte_set_fpn : List ℕ → ℕ → ℕ → Option (List ℕ)
pte_set_fpn pgd pgn fpn = at pgd pgn (λ pte. fpn_word pte fpn)

unfoldable pub pte_get_entry : List ℕ → ℕ → Option ℕ
pte_get_entry pgd pgn = elim (get_elem? pgd pgn) [ none ↦ none | some pte ↦ some (u32 pte) ]

unfoldable pub pte_set_entry : List ℕ → ℕ → ℕ → Option (List ℕ)
pte_set_entry pgd pgn pte_val = at pgd pgn (λ _. u32 pte_val)

-- The loop of `vmap_pgd_memset`, for the rounds that are left.
unfoldable blank_pages : ℕ → ℕ → List ℕ → Option (List ℕ)
blank_pages zero pgn pgd = some pgd
blank_pages (suc n) pgn pgd = elim (pte_set_fpn pgd (u32 pgn) 0) [
  | none ↦ none
  | some pgd' ↦ blank_pages n (suc pgn) pgd'
]

unfoldable vmap_pgd_memset : FlatMm → ℕ → ℕ → Option FlatMm
vmap_pgd_memset mm addr pgnum = elim (blank_pages (int_pos pgnum) (paging_pgn addr) mm.pgd) [
  | none ↦ none
  | some pgd ↦ some (record mm { pgd = pgd })
]

-- The loop of `alloc_pages_range`, with the list at `head`. The result is 0 or -1, an `addr_t`.
unfoldable pub alloc_frames : ℕ → List ℕ → Memphy → ℕ × List ℕ × Memphy
alloc_frames zero head mram = (0, head, mram)
alloc_frames (suc n) head mram =
    let (got, mram') = get_freefp mram in
    elim got [ none ↦ (2 ^ 32 - 1, head, mram') | some fpn ↦ alloc_frames n (fpn ∷ head) mram' ]

-- `*frm_lst` is written where all the frames were found.
unfoldable pub alloc_pages_range : Memphy → ℕ → List ℕ → ℕ × List ℕ × Memphy
alloc_pages_range mram req_pgnum frm_lst =
    let (ret, head, mram') = alloc_frames (int_pos req_pgnum) [] mram in
    (ret, (if ret == 0 then head else frm_lst), mram')

-- The loop of `vmap_page_range`, for the rounds that are left.
unfoldable pub map_pages : ℕ → ℕ → List ℕ → FlatMm → Option FlatMm
map_pages zero pgn frames mm = some mm
map_pages (suc n) pgn [] mm = some mm
map_pages (suc n) pgn (fpn ∷ frames) mm = elim (pte_set_fpn mm.pgd (u32 pgn) fpn) [
  | none ↦ none
  | some pgd ↦
      map_pages n (suc pgn) frames
        (record mm { pgd = pgd; fifo_pgn = enlist_pgn_node mm.fifo_pgn (u32 pgn) })
]

-- `*ret_rg` and the memory; the return value is 0.
unfoldable pub vmap_page_range : FlatMm → ℕ → ℕ → List ℕ → Option (Rg × FlatMm)
vmap_page_range mm addr pgnum frames =
    elim (map_pages (int_pos pgnum) (paging_pgn addr) frames mm) [
      | none ↦ none
      | some mm' ↦
          some (record { rg_start = addr; rg_end = u32 (addr + u32 (pgnum * paging_pagesz)) }, mm')
    ]

-- Both tests of `vm_map_range` are made on an unsigned value and never hold. The return value is 0.
unfoldable pub vm_map_range : FlatMm → Memphy → ℕ → ℕ → Option (Rg × FlatMm × Memphy)
vm_map_range mm mram mapstart incpgnum =
    let (_, frm_lst, mram') = alloc_pages_range mram incpgnum [] in
    elim (vmap_page_range mm mapstart incpgnum frm_lst) [
      | none ↦ none
      | some (rg, mm') ↦ some (rg, mm', mram')
    ]

unfoldable pub init_mm : FlatMm
init_mm = record {
  pgd = replicate max_pgn 0;
  mmap = record { vm_id = 0; vm_start = 0; vm_end = 0; sbrk = 0; vm_freerg_list = [] } ∷ [];
  symrgtbl = replicate 30 (record { rg_start = 0; rg_end = 0 });
  fifo_pgn = [];
}

unfoldable pub is_in_fifo : List ℕ → ℕ → Bool
is_in_fifo [] pgn = false
is_in_fifo (x ∷ head) pgn = let rest = is_in_fifo head pgn in if x == pgn then true else rest
