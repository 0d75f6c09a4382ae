-- ===== src/Flat/Access.antt =====
-- src/mm.c: the access to a byte through the array of entries. PAGING_PAGE_SWAPPED and PAGING_OFF,
-- which the functions use and no file defines, are the parameters `page_swapped` and `paging_off`;
-- `junk` is what the local `data` of `__swap_cp_page` holds before it is read.
use simple_os_simulator.Prelude.{
  ℕ, zero, suc, ◌+◌, ◌*◌, Bool, ◌||◌, not, Option, none, some, List, [], ◌∷◌, ◌==◌, if◌then◌else◌,
  Status, success, failure,
}
use simple_os_simulator.Prelude.Word.{u32}
use simple_os_simulator.Pte.{setbit, dirty_mask, page_present, paging_fpn, paging_swp, paging_pgn}
use simple_os_simulator.Memphy.{Memphy, paging_pagesz, get_freefp, read, write}
use simple_os_simulator.Mm.{enlist_pgn_node}
use simple_os_simulator.LibMem.{split_last}
use simple_os_simulator.Flat.{
  FlatMm, pte_set_swap, pte_set_fpn, pte_get_entry, pte_set_entry, is_in_fifo,
}

-- What a caller reaches: `krnl->mm`, `krnl->mram` and `krnl->mswp[0]`.
pub record FlatKrnl : Type 0 where
  pub mm : FlatMm
  pub mram : Memphy
  pub mswp : Memphy

-- The loop of `__swap_cp_page`, for the cells that are left: the source and the target afterwards.
unfoldable pub copy_cells : ℕ → ℕ → ℕ → Memphy → ℕ → Memphy → ℕ → Option (Memphy × Memphy)
copy_cells zero cellidx junk mpsrc srcfpn mpdst dstfpn = some (mpsrc, mpdst)
copy_cells (suc n) cellidx junk mpsrc srcfpn mpdst dstfpn =
    elim (read mpsrc (u32 (srcfpn * paging_pagesz + cellidx)) junk) [
      | none ↦ none
      | some (_, byte, mpsrc') ↦ elim (write mpdst (u32 (dstfpn * paging_pagesz + cellidx)) byte) [
        | none ↦ none
        | some (_, mpdst') ↦ copy_cells n (suc cellidx) junk mpsrc' srcfpn mpdst' dstfpn
      ]
    ]

unfoldable pub swap_cp_page : ℕ → Memphy → ℕ → Memphy → ℕ → Option (Memphy × Memphy)
swap_cp_page junk mpsrc srcfpn mpdst dstfpn =
    copy_cells paging_pagesz 0 junk mpsrc srcfpn mpdst dstfpn

-- The address in RAM.
abbrev pub phyaddr : (ℕ → ℕ) → ℕ → ℕ → ℕ
phyaddr paging_off pte addr = u32 (paging_fpn pte * paging_pagesz + paging_off addr)

module _ (page_swapped : ℕ → Bool) (paging_off : ℕ → ℕ) (junk : ℕ) where
  -- The part of `swap_out_victim` after its tests.
  unfoldable pub evict : ℕ → ℕ → ℕ → List ℕ → FlatKrnl → Option (Option ℕ × FlatKrnl)
  evict victim_pgn victim_fpn swpfpn front k =
      elim (swap_cp_page junk k.mram victim_fpn k.mswp swpfpn) [
        | none ↦ none
        | some (mram, mswp) ↦ elim (pte_set_swap k.mm.pgd victim_pgn 0 swpfpn) [
          | none ↦ none
          | some pgd ↦ some (
            some victim_fpn,
            record { mm = record k.mm { pgd = pgd; fifo_pgn = front }; mram = mram; mswp = mswp },
          )
        ]
      ]

  -- `*ret_fpn`, or `none` where it returns -1.
  unfoldable pub swap_out_victim : FlatKrnl → Option (Option ℕ × FlatKrnl)
  swap_out_victim k = elim k.mm.fifo_pgn [
    | [] ↦ some (none, k)
    | x ∷ xs ↦
        let (victim_pgn, front) = split_last x xs in
        elim (pte_get_entry k.mm.pgd victim_pgn) [
          | none ↦ none
          | some pte ↦
              if not (page_present pte) || page_swapped pte
              then some (none, k)
              else (let (got, mswp') = get_freefp k.mswp in
                  elim got [
                    | none ↦ some (none, k)
                    | some swpfpn ↦
                        evict victim_pgn (paging_fpn pte) swpfpn front (record k { mswp = mswp' })
                  ])
        ]
  ]

  -- A frame for the page that comes back: a free one, or a victim's.
  unfoldable pub new_frame : FlatKrnl → Option (Option ℕ × FlatKrnl)
  new_frame k =
      let (got, mram') = get_freefp k.mram in
      elim got [
        | none ↦ swap_out_victim k
        | some newfpn ↦ some (some newfpn, record k { mram = mram' })
      ]

  -- The page is copied to its new frame, and its entry and the list are set; the new entry.
  unfoldable pub load_page : ℕ → ℕ → ℕ → FlatKrnl → Option (ℕ × FlatKrnl)
  load_page pgn swpoff newfpn k = elim (swap_cp_page junk k.mswp swpoff k.mram newfpn) [
    | none ↦ none
    | some (mswp, mram) ↦ elim (pte_set_fpn k.mm.pgd pgn newfpn) [
      | none ↦ none
      | some pgd ↦
          let fifo =
            if is_in_fifo k.mm.fifo_pgn pgn
            then k.mm.fifo_pgn
            else enlist_pgn_node k.mm.fifo_pgn pgn in
          elim (pte_get_entry pgd pgn) [
            | none ↦ none
            | some pte ↦ some (
              pte,
              record { mm = record k.mm { pgd = pgd; fifo_pgn = fifo }; mram = mram; mswp = mswp },
            )
          ]
    ]
  ]

  -- The part that `__read` and `__write` share: the entry of a page that is in RAM by now.
  unfoldable pub page_in : ℕ → FlatKrnl → Option (Option ℕ × FlatKrnl)
  page_in pgn k = elim (pte_get_entry k.mm.pgd pgn) [
    | none ↦ none
    | some pte ↦
        if pte == 0
        then some (none, k)
        else if page_swapped pte
        then elim (new_frame k) [
          | none ↦ none
          | some (none, k') ↦ some (none, k')
          | some (some newfpn, k') ↦ elim (load_page pgn (paging_swp pte) newfpn k') [
            | none ↦ none
            | some (pte', k'') ↦ some (some pte', k'')
          ]
        ]
        else some (some pte, k)
  ]

  -- `__read`, with `*data`, which `old` is before.
  unfoldable pub flat_read : ℕ → ℕ → FlatKrnl → Option (Status × ℕ × FlatKrnl)
  flat_read old addr k = elim (page_in (paging_pgn addr) k) [
    | none ↦ none
    | some (none, k') ↦ some (failure, old, k')
    | some (some pte, k') ↦ elim (read k'.mram (phyaddr paging_off pte addr) old) [
      | none ↦ none
      | some (_, byte, mram) ↦ some (success, byte, record k' { mram = mram })
    ]
  ]

  -- `__write`: the byte, and the dirty bit.
  unfoldable pub flat_write : ℕ → ℕ → FlatKrnl → Option (Status × FlatKrnl)
  flat_write addr byte k = elim (page_in (paging_pgn addr) k) [
    | none ↦ none
    | some (none, k') ↦ some (failure, k')
    | some (some pte, k') ↦ elim (write k'.mram (phyaddr paging_off pte addr) byte) [
      | none ↦ none
      | some (_, mram) ↦ elim (pte_get_entry k'.mm.pgd (paging_pgn addr)) [
        | none ↦ none
        | some newpte ↦
            elim (pte_set_entry k'.mm.pgd (paging_pgn addr) (setbit newpte dirty_mask)) [
              | none ↦ none
              | some pgd ↦
                  some (success, record k' { mm = record k'.mm { pgd = pgd }; mram = mram })
            ]
      ]
    ]
  ]
