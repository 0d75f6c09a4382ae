-- ===== src/Flat/Reread.antt =====
-- `__write` of src/mm.c followed by `__read`, for a page in RAM.
use simple_os_simulator.Prelude.{
  ℕ, ◌+◌, ◌*◌, ◌<◌, ◌≡◌, ◌≢◌, refl, ap, subst, sym, ◌∙◌, arith, Bool, not, some, List, ◌==◌,
  get_elem?, set, get_elem?-set_self, get_elem?-set_ne, length, success, bit_and,
  lt-length_of_get_elem?,
}
use simple_os_simulator.Prelude.Word.{u32}
use simple_os_simulator.Pte.{setbit, dirty_mask, swapped_mask, paging_fpn, paging_pgn}
use simple_os_simulator.Pte.Masks.{and-fpn, and-swapped, set-dirty}
use simple_os_simulator.Memphy.{Memphy, read, write}
use simple_os_simulator.Memphy.Laws.{read-write}
use simple_os_simulator.Flat.{pte_get_entry, pte_set_entry}
use simple_os_simulator.Flat.Access.{FlatKrnl, page_in, phyaddr, flat_read, flat_write}

-- The word with the dirty bit, as the array stores it and as it is read again.
abbrev dirty : ℕ → ℕ
dirty pte = u32 (setbit (u32 pte) dirty_mask)

-- The dirty bit leaves the frame and the swapped bit of a word.
dirty-fpn : (pte : ℕ) → paging_fpn (u32 (dirty pte)) ≡ paging_fpn (u32 pte)
unfolding paging_fpn
dirty-fpn pte = omega (arith, set-dirty (u32 pte), and-fpn (u32 (dirty pte)), and-fpn (u32 pte))

dirty-swapped : (pte : ℕ) → bit_and (u32 (dirty pte)) swapped_mask ≡ bit_and (u32 pte) swapped_mask
dirty-swapped pte =
    omega (arith, set-dirty (u32 pte), and-swapped (u32 (dirty pte)), and-swapped (u32 pte))

dirty_ne_zero : (pte : ℕ) → u32 (dirty pte) ≢ 0
dirty_ne_zero pte e = omega (arith, set-dirty (u32 pte), e)

module _ (page_swapped : ℕ → Bool) (paging_off : ℕ → ℕ) (junk : ℕ)
    (tests : (pte : ℕ) → page_swapped pte ≡ not (bit_and pte swapped_mask == 0)) where
  -- A page whose entry is there and not swapped needs no work.
  page_in_present :
      (pgn pte : ℕ) (k : FlatKrnl)
      → get_elem? k.mm.pgd pgn ≡ some pte
      → u32 pte ≢ 0
      → bit_and (u32 pte) swapped_mask ≡ 0
      → page_in page_swapped paging_off junk pgn k ≡ some (some (u32 pte), k)
  unfolding page_in pte_get_entry
  page_in_present pgn pte k here listed online =
      ground (arith, here, listed, online, tests (u32 pte))

  write_present :
      (addr byte word : ℕ) (k : FlatKrnl) (mram : Memphy) (pgd : List ℕ)
      → page_in page_swapped paging_off junk (paging_pgn addr) k ≡ some (some word, k)
      → write k.mram (phyaddr paging_off word addr) byte ≡ some (success, mram)
      → pte_get_entry k.mm.pgd (paging_pgn addr) ≡ some word
      → pte_set_entry k.mm.pgd (paging_pgn addr) (setbit word dirty_mask) ≡ some pgd
      → flat_write page_swapped paging_off junk addr byte k
        ≡ some (success, record k { mm = record k.mm { pgd = pgd }; mram = mram })
  unfolding flat_write
  write_present addr byte word k mram pgd found stored read_again written =
      rw (found, stored, read_again, written, flat_write) refl

  read_present :
      (old addr byte word : ℕ) (k : FlatKrnl)
      → page_in page_swapped paging_off junk (paging_pgn addr) k ≡ some (some word, k)
      → read k.mram (phyaddr paging_off word addr) old ≡ some (success, byte, k.mram)
      → flat_read page_swapped paging_off junk old addr k ≡ some (success, byte, k)
  unfolding flat_read
  read_present old addr byte word k found back = rw (found, back, flat_read) refl

  -- Where PAGING_PAGE_SWAPPED tests the bit of PAGING_PTE_SWAPPED_MASK, the page of the address
  -- has an entry that is not 0 and not swapped, and its frame lies in a random access RAM, __write
  -- of src/mm.c succeeds, a __read of the address then returns the byte and changes nothing, and
  -- no other entry is changed by the write.
  pub flat_read-flat_write :
      (addr byte pte : ℕ) (k : FlatKrnl)
      → get_elem? k.mm.pgd (paging_pgn addr) ≡ some pte
      → u32 pte ≢ 0
      → bit_and (u32 pte) swapped_mask ≡ 0
      → k.mram.rdmflg ≢ 0
      → phyaddr paging_off (u32 pte) addr < length k.mram.storage
      → (k' : FlatKrnl) × (flat_write page_swapped paging_off junk addr byte k ≡ some (success, k'))
        × ((old : ℕ)
            → flat_read page_swapped paging_off junk old addr k' ≡ some (success, byte, k'))
        × ((q : ℕ) → q ≢ paging_pgn addr → get_elem? k'.mm.pgd q ≡ get_elem? k.mm.pgd q)
  unfolding pte_get_entry pte_set_entry
  flat_read-flat_write addr byte pte k here listed online random inside =
      let pgn = paging_pgn addr in
      let (mram, stored, back, _, _) =
        read-write k.mram (phyaddr paging_off (u32 pte) addr) byte random inside in
      let pgd : List ℕ = set k.mm.pgd pgn (dirty pte) in
      let k' : FlatKrnl = record k { mm = record k.mm { pgd = pgd }; mram = mram } in
      let again : get_elem? pgd pgn ≡ some (dirty pte) =
        get_elem?-set_self k.mm.pgd pgn (dirty pte) (lt-length_of_get_elem? k.mm.pgd pgn here) in
      let first = page_in_present pgn pte k here listed online in
      let second =
        page_in_present pgn (dirty pte) k' again (dirty_ne_zero pte) (dirty-swapped pte ∙ online) in
      let place : phyaddr paging_off (u32 (dirty pte)) addr ≡ phyaddr paging_off (u32 pte) addr =
        ap (λ f. u32 (f * 256 + paging_off addr)) (dirty-fpn pte) in
      (
        k',
        write_present addr byte (u32 pte) k mram pgd first stored (ground (arith, here))
            (ground (arith, here)),
        λ old.
            read_present old addr byte (u32 (dirty pte)) k' second
              (subst (λ a. read mram a old ≡ some (success, byte, mram)) (sym place) (back old)),
        λ q ne. get_elem?-set_ne k.mm.pgd pgn q (dirty pte) (λ e. ne (sym e)),
      )
