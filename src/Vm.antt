-- ===== src/Vm.antt =====
-- Virtual memory: the mapping functions of src/mm64.c and all of src/mm-vm.c, on the memory of the
-- calling process and the RAM device. The caller and its memory are not NULL here; the system calls
-- test that. `int` counts are patterns.
pub mod Map
pub mod Grow
pub mod Copy
use simple_os_simulator.Prelude.{
  ℕ, zero, suc, ◌+◌, ◌-◌, ◌*◌, ◌/◌, ◌%◌, ◌^◌, Bool, true, false, ◌&&◌, not, Option, none, some,
  List, [], ◌∷◌, ◌++◌, ltb, leb, ◌==◌, if◌then◌else◌, get_elem?, set, Status, success, failure,
}
use simple_os_simulator.Prelude.Word.{u32, u64, int_pos, int_to_u64}
use simple_os_simulator.Memphy.{Memphy, paging_pagesz, get_freefp, read, write}
use simple_os_simulator.PageTable.{Pgd, walk, get_pd_from_pagenum, pte_set_fpn}
use simple_os_simulator.Mm.{Mm, Rg, Vma, enlist_pgn_node}

-- -1 and -3000 as an `addr_t`
abbrev pub minus_one : ℕ
minus_one = 2 ^ 64 - 1

abbrev pub minus_3000 : ℕ
minus_3000 = 2 ^ 64 - 3000

-- The loop of `vmap_pgd_memset`, for the rounds that are left: the entries from `pgn` on become 0.
unfoldable clear_entries : ℕ → ℕ → Pgd → Pgd
clear_entries zero pgn pgd = pgd
clear_entries (suc n) pgn pgd =
    clear_entries n (suc pgn) (walk pgd (get_pd_from_pagenum (u64 pgn)) (λ _. 0))

unfoldable pub vmap_pgd_memset : Mm → ℕ → ℕ → Mm
unfolding clear_entries
vmap_pgd_memset mm addr pgnum = record mm {
  pgd = clear_entries (int_pos pgnum) (addr / paging_pagesz) mm.pgd;
}

-- The loop of `vmap_page_range`, for the rounds that are left, from page `pgn` on.
unfoldable pub map_pages : ℕ → ℕ → List ℕ → Mm → ℕ × Mm
map_pages zero pgn frames mm = (0, mm)
map_pages (suc n) pgn [] mm = (minus_one, mm)
map_pages (suc n) pgn (fpn ∷ frames) mm = map_pages n (suc pgn) frames (record mm {
  pgd = pte_set_fpn mm.pgd (u64 pgn) fpn;
  fifo_pgn = enlist_pgn_node mm.fifo_pgn (u64 pgn);
})

-- The return value, `*ret_rg` and the memory.
unfoldable pub vmap_page_range : Mm → ℕ → ℕ → List ℕ → ℕ × Rg × Mm
unfolding map_pages
vmap_page_range mm addr pgnum frames =
    let (ret, mm') = map_pages (int_pos pgnum) (addr / paging_pagesz) frames mm in
    (ret, record { rg_start = addr; rg_end = u64 (addr + int_to_u64 (pgnum * paging_pagesz)) }, mm')

-- The loop of `alloc_pages_range`: `frames` is the list from `head` to `tail`.
unfoldable pub alloc_frames : ℕ → List ℕ → Memphy → ℕ × List ℕ × Memphy
alloc_frames zero frames mram = (0, frames, mram)
alloc_frames (suc n) frames mram =
    let (got, mram') = get_freefp mram in
    elim got [
      | none ↦ (minus_3000, frames, mram')
      | some fpn ↦ alloc_frames n (frames ++ fpn ∷ []) mram'
    ]

unfoldable pub alloc_pages_range : Memphy → ℕ → ℕ × List ℕ × Memphy
unfolding alloc_frames
alloc_pages_range mram req_pgnum = alloc_frames (int_pos req_pgnum) [] mram

-- The tests are made on an unsigned value, as in C: `ret_alloc < 0` never holds.
unfoldable pub vm_map_ram : Mm → Memphy → ℕ → ℕ → Rg → ℕ × Rg × Mm × Memphy
unfolding alloc_pages_range vmap_page_range
vm_map_ram mm mram mapstart incpgnum ret_rg =
    let (ret_alloc, frm_lst, mram') = alloc_pages_range mram incpgnum in
    if ltb ret_alloc 0 && not (ret_alloc == minus_3000)
    then (minus_one, ret_rg, mm, mram')
    else if ret_alloc == minus_3000
    then (minus_one, ret_rg, mm, mram')
    else (let (ret, rg, mm') = vmap_page_range mm mapstart incpgnum frm_lst in (0, rg, mm', mram'))

-- `__swap_cp_page`, for the cells that are left. `junk` is what the local `data` holds before the
-- read; the return values are not looked at. `none` is an access outside a device.
unfoldable pub copy_cells : ℕ → ℕ → ℕ → Memphy → ℕ → Memphy → ℕ → Option (Memphy × Memphy)
copy_cells zero cellidx junk mpsrc srcfpn mpdst dstfpn = some (mpsrc, mpdst)
copy_cells (suc n) cellidx junk mpsrc srcfpn mpdst dstfpn =
    elim (read mpsrc (u64 (srcfpn * paging_pagesz + cellidx)) junk) [
      | none ↦ none
      | some (_, byte, mpsrc') ↦ elim (write mpdst (u64 (dstfpn * paging_pagesz + cellidx)) byte) [
        | none ↦ none
        | some (_, mpdst') ↦ copy_cells n (suc cellidx) junk mpsrc' srcfpn mpdst' dstfpn
      ]
    ]

unfoldable pub swap_cp_page : ℕ → Memphy → ℕ → Memphy → ℕ → Option (Memphy × Memphy)
unfolding copy_cells
swap_cp_page junk mpsrc srcfpn mpdst dstfpn =
    copy_cells paging_pagesz 0 junk mpsrc srcfpn mpdst dstfpn

-- `__mm_swap_page`: a RAM frame goes to a swap frame; the RAM and the swap device afterwards.
unfoldable pub mm_swap_page : ℕ → Memphy → Memphy → ℕ → ℕ → Option (Memphy × Memphy)
unfolding swap_cp_page
mm_swap_page junk mram active_mswp vicfpn swpfpn = swap_cp_page junk mram vicfpn active_mswp swpfpn

-- Area `vmaid` as its position in the list, and the area.
unfoldable pub get_vma_by_num : List Vma → ℕ → Option (ℕ × Vma)
get_vma_by_num [] vmaid = none
get_vma_by_num (vma ∷ vmas) vmaid =
    let rest = get_vma_by_num vmas vmaid in
    if ltb vma.vm_id vmaid
    then elim rest [ none ↦ none | some (i, found) ↦ some (suc i, found) ]
    else (if vma.vm_id == vmaid then some (0, vma) else none)

unfoldable pub get_vm_area_node_at_brk : Mm → ℕ → ℕ → Option Rg
get_vm_area_node_at_brk mm vmaid size = elim (get_vma_by_num mm.mmap vmaid) [
  | none ↦ none
  | some (i, vma) ↦ some (record { rg_start = vma.sbrk; rg_end = u64 (vma.sbrk + size) })
]

-- `OVERLAP(x1, x2, y1, y2)` is `(0)`.
abbrev overlap : ℕ → ℕ → ℕ → ℕ → Bool
overlap x1 x2 y1 y2 = false

-- The loop of `validate_overlap_vm_area` over the areas from position `i` on.
unfoldable pub overlap_any : List Vma → ℕ → ℕ → Vma → Bool
overlap_any [] i cur cur_area = false
overlap_any (vma ∷ vmas) i cur cur_area =
    let rest = overlap_any vmas (suc i) cur cur_area in
    if not (i == cur) && overlap cur_area.vm_start cur_area.vm_end vma.vm_start vma.vm_end
    then true
    else rest

unfoldable pub validate_overlap_vm_area : Mm → ℕ → ℕ → ℕ → Status
unfolding overlap_any
validate_overlap_vm_area mm vmaid vmastart vmaend =
    if leb vmaend vmastart then failure else elim (get_vma_by_num mm.mmap vmaid) [
      | none ↦ failure
      | some (cur, area) ↦ if overlap_any mm.mmap 0 cur area then failure else success
    ]

-- `PAGING_PAGE_ALIGNSZ(sz)`
abbrev pub page_alignsz : ℕ → ℕ
page_alignsz sz = u64 (u64 (sz + paging_pagesz - 1) / paging_pagesz * paging_pagesz)

-- The commit of `inc_vma_limit` at position `i` of the list of areas.
abbrev pub commit : Mm → ℕ → Vma → ℕ → Mm
commit mm i vma rg_end = record mm {
  mmap = set mm.mmap i (record vma { vm_end = rg_end; sbrk = rg_end });
}

-- `vm_map_ram(...) < 0` is a test of an unsigned value too.
unfoldable pub inc_vma_limit : Mm → Memphy → ℕ → ℕ → Status × Mm × Memphy
inc_vma_limit mm mram vmaid inc_sz =
    let inc_amt = page_alignsz inc_sz in
    let incnumpage = u32 (inc_amt / paging_pagesz) in
    elim (get_vm_area_node_at_brk mm vmaid inc_sz) [
      | none ↦ (failure, mm, mram)
      | some area ↦ elim (get_vma_by_num mm.mmap vmaid) [
        | none ↦ (failure, mm, mram)
        | some (i, cur_vma) ↦ elim (validate_overlap_vm_area mm vmaid area.rg_start area.rg_end) [
          | failure ↦ (failure, mm, mram)
          | success ↦
              let (ret, area', mm', mram') = vm_map_ram mm mram area.rg_start incnumpage area in
              if ltb ret 0
              then (failure, mm', mram')
              else (success, commit mm' i cur_vma area'.rg_end, mram')
        ]
      ]
    ]
