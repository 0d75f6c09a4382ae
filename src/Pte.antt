-- ===== src/Pte.antt =====
-- Page table entries: the macros of include/bitops.h and include/mm.h on words, and `init_pte`,
-- `pte_set_fpn` and `pte_set_swap` of src/mm64.c on the entry that they find. An entry is an
-- `addr_t` of 64 bits; the masks are `unsigned int`, so `~mask` has 32 bits and clears the
-- upper half of an entry.
pub mod Masks
pub mod Fields
use simple_os_simulator.Prelude.{
  ℕ, ◌+◌, ◌-◌, ◌*◌, ◌/◌, ◌%◌, ◌^◌, ◌<◌, Bool, true, false, not, ◌==◌, if◌then◌else◌, bit_and,
  bit_or, Status, success, failure,
}
use simple_os_simulator.Prelude.Word.{u32, u64, ◌<<<◌, ◌>>>◌}

-- `BIT(nr)`
abbrev bit : ℕ → ℕ
bit nr = u32 (1 <<< nr)

-- `GENMASK(h, l)` with BITS_PER_LONG 32.
abbrev pub genmask : ℕ → ℕ → ℕ
genmask h l = bit_and (u32 ((2 ^ 32 - 1) <<< l)) ((2 ^ 32 - 1) >>> (31 - h))

-- `NBITS(n)`, the position of the highest bit that is set.
abbrev nbits2 : ℕ → ℕ
nbits2 n = if bit_and n 2 == 0 then 0 else 1

abbrev nbits4 : ℕ → ℕ
nbits4 n = if bit_and n 0xC == 0 then nbits2 n else 2 + nbits2 (n >>> 2)

abbrev nbits8 : ℕ → ℕ
nbits8 n = if bit_and n 0xF0 == 0 then nbits4 n else 4 + nbits4 (n >>> 4)

abbrev nbits16 : ℕ → ℕ
nbits16 n = if bit_and n 0xFF00 == 0 then nbits8 n else 8 + nbits8 (n >>> 8)

abbrev nbits32 : ℕ → ℕ
nbits32 n = if bit_and n 0xFFFF0000 == 0 then nbits16 n else 16 + nbits16 (n >>> 16)

abbrev pub nbits : ℕ → ℕ
nbits n = if n == 0 then 0 else nbits32 n

abbrev not32 : ℕ → ℕ
not32 mask = 2 ^ 32 - 1 - mask

-- SETBIT, CLRBIT, SETVAL and GETVAL
abbrev pub setbit : ℕ → ℕ → ℕ
setbit v mask = bit_or v mask

abbrev pub clrbit : ℕ → ℕ → ℕ
clrbit v mask = bit_and v (not32 mask)

abbrev setval : ℕ → ℕ → ℕ → ℕ → ℕ
setval v value mask offst = bit_or (bit_and v (not32 mask)) (bit_and (u64 (value <<< offst)) mask)

abbrev getval : ℕ → ℕ → ℕ → ℕ
getval v mask offst = bit_and v mask >>> offst

abbrev pub present_mask : ℕ
present_mask = bit 31

abbrev pub swapped_mask : ℕ
swapped_mask = bit 30

abbrev pub dirty_mask : ℕ
dirty_mask = bit 28

abbrev pub fpn_mask : ℕ
fpn_mask = genmask 12 0

abbrev pub swptyp_mask : ℕ
swptyp_mask = genmask 4 0

abbrev pub swpoff_mask : ℕ
swpoff_mask = genmask 25 5

-- `PAGING_PAGE_PRESENT`, as a truth value
unfoldable pub page_present : ℕ → Bool
page_present pte = not (bit_and pte present_mask == 0)

-- `PAGING_FPN`
unfoldable pub paging_fpn : ℕ → ℕ
paging_fpn pte = getval pte fpn_mask 0

-- `PAGING_SWP`
unfoldable pub paging_swp : ℕ → ℕ
paging_swp pte = bit_and pte swpoff_mask >>> 5

-- `PAGING_PGN` and `PAGING_OFFST` of an address; the argument is an `int` pattern.
unfoldable pub paging_pgn : ℕ → ℕ
paging_pgn addr = getval (u32 addr) (genmask 21 (nbits 256)) (nbits 256)

unfoldable pub paging_offst : ℕ → ℕ
paging_offst addr = getval (u32 addr) (genmask (nbits 256 - 1) 0) 0

-- The words that `init_pte` leaves, with its return value. The flags are truth values.
unfoldable pub init_pte : ℕ → Bool → ℕ → Bool → ℕ → ℕ → Status × ℕ
init_pte pte pre fpn swp swptyp swpoff =
    let online =
      setval (clrbit (clrbit (setbit pte present_mask) swapped_mask) dirty_mask) fpn fpn_mask 0 in
    let swapped = clrbit (setbit (setbit pte present_mask) swapped_mask) dirty_mask in
    if pre
    then (if swp
        then (success, setval (setval swapped swptyp swptyp_mask 0) swpoff swpoff_mask 5)
        else (if fpn == 0 then (failure, pte) else (success, online)))
    else (success, pte)

-- What `pte_set_swap` does with `*pte`.
unfoldable pub swap_entry : ℕ → ℕ → ℕ → ℕ
swap_entry pte swptyp swpoff =
    setval (setval (setbit (setbit pte present_mask) swapped_mask) swptyp swptyp_mask 0) swpoff
      swpoff_mask 5

-- What `pte_set_fpn` does with `*pte`.
unfoldable pub fpn_entry : ℕ → ℕ → ℕ
fpn_entry pte fpn = setval (clrbit (setbit pte present_mask) swapped_mask) fpn fpn_mask 0
