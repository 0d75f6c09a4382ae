-- ===== src/Pte/Fields.antt =====
-- What the fields of an entry are after `pte_set_fpn`, `pte_set_swap` and `init_pte`.
use simple_os_simulator.Prelude.{
  ℕ, ◌+◌, ◌*◌, ◌/◌, ◌%◌, ◌^◌, ◌<◌, ◌≡◌, ◌≢◌, arith, true, false, bit_and, bit_or,
}
use simple_os_simulator.Pte.{
  paging_pgn, paging_offst, dirty_mask, fpn_entry, swap_entry, init_pte, page_present, paging_fpn,
  paging_swp, setbit, clrbit, swapped_mask, present_mask, fpn_mask, swptyp_mask, swpoff_mask,
}
use simple_os_simulator.Pte.Masks.{
  and-swapped, and-pgn, and-offst, and-present, and-fpn, and-swpoff, and-swptyp, clear-fpn,
  clear-swptyp, clear-swpoff, clear-swapped, clear-dirty, set-present, set-swapped, or-below,
  or-swpoff,
}

-- `pte_set_fpn` as arithmetic: PRESENT on, SWAPPED off, the frame number cut to 13 bits, the bits
-- from 13 to 29 as they were, the upper half cleared.
fpn_entry-sum :
    (pte fpn : ℕ) → fpn_entry pte fpn ≡ 2 ^ 31 + pte % 2 ^ 30 / 2 ^ 13 * 2 ^ 13 + fpn % 2 ^ 13
unfolding fpn_entry
fpn_entry-sum pte fpn =
    let present = setbit pte present_mask in
    let online = clrbit present swapped_mask in
    let kept = clrbit online fpn_mask in
    let field = bit_and (fpn * 2 ^ 0 % 2 ^ 64) fpn_mask in
    let kept_eq : kept ≡ (2 ^ 18 + pte % 2 ^ 30 / 2 ^ 13) * 2 ^ 13 =
      omega (arith, set-present pte, clear-swapped present, clear-fpn online) in
    let field_eq : field ≡ fpn % 2 ^ 13 = omega (arith, and-fpn (fpn * 2 ^ 0 % 2 ^ 64)) in
    omega (
      arith,
      kept_eq,
      field_eq,
      or-below 13 (2 ^ 18 + pte % 2 ^ 30 / 2 ^ 13) kept field kept_eq (omega (arith, field_eq)),
    )

-- `pte_set_swap` as arithmetic: PRESENT and SWAPPED on, the type cut to 5 bits and the offset to 21,
-- the bits from 26 to 29 as they were, the upper half cleared.
swap_entry-sum :
    (pte typ off : ℕ)
    → swap_entry pte typ off
      ≡ 2 ^ 31 + 2 ^ 30 + pte % 2 ^ 30 / 2 ^ 26 * 2 ^ 26 + off % 2 ^ 21 * 2 ^ 5 + typ % 2 ^ 5
unfolding swap_entry
swap_entry-sum pte typ off =
    let flags = 2 ^ 5 + 2 ^ 4 + pte % 2 ^ 30 / 2 ^ 26 in
    let swapped = setbit (setbit pte present_mask) swapped_mask in
    let upper = clrbit swapped swptyp_mask in
    let typ_field = bit_and (typ * 2 ^ 0 % 2 ^ 64) swptyp_mask in
    let typed = bit_or upper typ_field in
    let kept = clrbit typed swpoff_mask in
    let off_field = bit_and (off * 2 ^ 5 % 2 ^ 64) swpoff_mask in
    let upper_eq : upper ≡ swapped / 2 ^ 5 % 2 ^ 27 * 2 ^ 5 = clear-swptyp swapped in
    let typ_eq : typ_field ≡ typ % 2 ^ 5 = omega (arith, and-swptyp (typ * 2 ^ 0 % 2 ^ 64)) in
    let typed_eq : typed ≡ upper + typ_field =
      or-below 5 (swapped / 2 ^ 5 % 2 ^ 27) upper typ_field upper_eq (omega (arith, typ_eq)) in
    let kept_eq : kept ≡ flags * 2 ^ 26 + typ % 2 ^ 5 = omega (
      arith,
      set-present pte,
      set-swapped (setbit pte present_mask),
      upper_eq,
      typ_eq,
      typed_eq,
      clear-swpoff typed,
    ) in
    let off_eq : off_field ≡ off % 2 ^ 21 * 2 ^ 5 =
      omega (arith, and-swpoff (off * 2 ^ 5 % 2 ^ 64)) in
    omega (
      arith,
      kept_eq,
      off_eq,
      or-swpoff flags (off % 2 ^ 21) (typ % 2 ^ 5) kept off_field kept_eq off_eq (omega arith)
          (omega arith),
    )

present_iff : (pte : ℕ) → pte / 2 ^ 31 % 2 ≡ 1 → page_present pte ≡ true
unfolding page_present
present_iff pte h = ground (arith, and-present pte)

pub paging_fpn-mod : (pte : ℕ) → paging_fpn pte ≡ pte % 2 ^ 13
unfolding paging_fpn
paging_fpn-mod pte = omega (arith, and-fpn pte)

paging_swp-field : (pte : ℕ) → paging_swp pte ≡ pte / 2 ^ 5 % 2 ^ 21
unfolding paging_swp
paging_swp-field pte = omega (arith, and-swpoff pte)

-- After pte_set_fpn the entry is present, not swapped, gives back the frame number cut to 13 bits,
-- and fits 32 bits.
pub fpn_entry_fields :
    (pte fpn : ℕ)
    → (page_present (fpn_entry pte fpn) ≡ true)
      × (bit_and (fpn_entry pte fpn) swapped_mask ≡ 0)
      × (paging_fpn (fpn_entry pte fpn) ≡ fpn % 2 ^ 13)
      × (fpn_entry pte fpn < 2 ^ 32)
fpn_entry_fields pte fpn =
    let e = fpn_entry pte fpn in
    let sum = fpn_entry-sum pte fpn in
    (
      present_iff e (omega (arith, sum)),
      omega (arith, sum, and-swapped e),
      omega (arith, sum, paging_fpn-mod e),
      omega (arith, sum),
    )

-- After pte_set_swap the entry gives back the swap frame cut to 21 bits, has SWAPPED on, is
-- present all the same with a frame number that is a piece of the swap frame's, and fits 32 bits.
pub swap_entry_fields :
    (pte typ off : ℕ)
    → (paging_swp (swap_entry pte typ off) ≡ off % 2 ^ 21)
      × (bit_and (swap_entry pte typ off) swapped_mask ≡ 2 ^ 30)
      × (page_present (swap_entry pte typ off) ≡ true)
      × (paging_fpn (swap_entry pte typ off) ≡ off % 2 ^ 8 * 2 ^ 5 + typ % 2 ^ 5)
      × (swap_entry pte typ off < 2 ^ 32)
swap_entry_fields pte typ off =
    let e = swap_entry pte typ off in
    let sum = swap_entry-sum pte typ off in
    (
      omega (arith, sum, paging_swp-field e),
      omega (arith, sum, and-swapped e),
      present_iff e (omega (arith, sum)),
      omega (arith, sum, paging_fpn-mod e),
      omega (arith, sum),
    )

-- PAGING_PGN and PAGING_OFFST split the low 22 bits of an address into a page below 2 ^ 14 and an
-- offset below 256.
pub pgn_offst :
    (addr : ℕ)
    → (paging_pgn addr * 256 + paging_offst addr ≡ addr % 2 ^ 22)
      × (paging_pgn addr < 2 ^ 14)
      × (paging_offst addr < 256)
unfolding paging_pgn paging_offst
pgn_offst addr = (
  omega (arith, and-pgn (addr % 2 ^ 32), and-offst (addr % 2 ^ 32)),
  omega (arith, and-pgn (addr % 2 ^ 32)),
  omega (arith, and-offst (addr % 2 ^ 32)),
)

init_pte-online :
    (pte fpn typ off : ℕ)
    → fpn ≢ 0
    → (init_pte pte true fpn false typ off).1
      ≡ 2 ^ 31 + pte % 2 ^ 30 / 2 ^ 29 * 2 ^ 29 + pte % 2 ^ 28 / 2 ^ 13 * 2 ^ 13 + fpn % 2 ^ 13
unfolding init_pte
init_pte-online pte fpn typ off ne =
    let present = setbit pte present_mask in
    let online = clrbit present swapped_mask in
    let clean = clrbit online dirty_mask in
    let kept = clrbit clean fpn_mask in
    let field = bit_and (fpn * 2 ^ 0 % 2 ^ 64) fpn_mask in
    let flags = 2 ^ 18 + pte % 2 ^ 30 / 2 ^ 29 * 2 ^ 16 + pte % 2 ^ 28 / 2 ^ 13 in
    let kept_eq : kept ≡ flags * 2 ^ 13 =
      omega (arith, set-present pte, clear-swapped present, clear-dirty online, clear-fpn clean) in
    let field_eq : field ≡ fpn % 2 ^ 13 = omega (arith, and-fpn (fpn * 2 ^ 0 % 2 ^ 64)) in
    ground
      (arith, kept_eq, field_eq, or-below 13 flags kept field kept_eq (omega (arith, field_eq)))
