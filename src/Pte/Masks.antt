-- ===== src/Pte/Masks.antt =====
-- The masks of include/mm.h as arithmetic on a word.
use simple_os_simulator.Prelude.{
  ℕ, zero, suc, ◌+◌, ◌-◌, ◌*◌, ◌/◌, ◌%◌, ◌^◌, ◌<◌, ◌≡◌, refl, arith, bit_and, bit_or,
}
use native.Mathlib.Nat.{one-le-pow}
use simple_os_simulator.Prelude.Bits.{
  bit_and_split, bit_and_ones, bit_and-zero, bit_or-zero, bit_or_parts, zero-bit_or,
}
use simple_os_simulator.Pte.{
  genmask, nbits, present_mask, swapped_mask, dirty_mask, fpn_mask, swptyp_mask, swpoff_mask,
  setbit, clrbit,
}

-- The bits from `lo` on, `width` of them.
bit_and_field :
    (lo width a : ℕ) → bit_and a ((2 ^ width - 1) * 2 ^ lo) ≡ a / 2 ^ lo % 2 ^ width * 2 ^ lo
bit_and_field lo width a = ground (
  arith,
  bit_and_split lo a (2 ^ width - 1) 0,
  bit_and_ones width (a / 2 ^ lo),
  bit_and-zero (a % 2 ^ lo),
  one-le-pow lo 2,
)

pub and-present : (a : ℕ) → bit_and a present_mask ≡ a / 2 ^ 31 % 2 * 2 ^ 31
and-present a = bit_and_field 31 1 a

pub and-swapped : (a : ℕ) → bit_and a swapped_mask ≡ a / 2 ^ 30 % 2 * 2 ^ 30
and-swapped a = bit_and_field 30 1 a

-- The masks of a page number and of an offset in an address.
pub and-pgn : (a : ℕ) → bit_and a (genmask 21 (nbits 256)) ≡ a / 2 ^ 8 % 2 ^ 14 * 2 ^ 8
and-pgn a = bit_and_field 8 14 a

pub and-offst : (a : ℕ) → bit_and a (genmask (nbits 256 - 1) 0) ≡ a % 2 ^ 8
and-offst a = bit_and_ones 8 a

pub and-fpn : (a : ℕ) → bit_and a fpn_mask ≡ a % 2 ^ 13
and-fpn a = bit_and_ones 13 a

pub and-swpoff : (a : ℕ) → bit_and a swpoff_mask ≡ a / 2 ^ 5 % 2 ^ 21 * 2 ^ 5
and-swpoff a = bit_and_field 5 21 a

pub and-swptyp : (a : ℕ) → bit_and a swptyp_mask ≡ a % 2 ^ 5
and-swptyp a = bit_and_ones 5 a

pub clear-fpn : (a : ℕ) → clrbit a fpn_mask ≡ a / 2 ^ 13 % 2 ^ 19 * 2 ^ 13
clear-fpn a = bit_and_field 13 19 a

pub clear-swptyp : (a : ℕ) → clrbit a swptyp_mask ≡ a / 2 ^ 5 % 2 ^ 27 * 2 ^ 5
clear-swptyp a = bit_and_field 5 27 a

pub clear-swpoff : (a : ℕ) → clrbit a swpoff_mask ≡ a / 2 ^ 26 % 2 ^ 6 * 2 ^ 26 + a % 2 ^ 5
clear-swpoff a = omega (
  arith,
  bit_and_split 26 a 63 31 (omega arith),
  bit_and_ones 6 (a / 2 ^ 26),
  bit_and_ones 5 (a % 2 ^ 26),
)

pub clear-swapped : (a : ℕ) → clrbit a swapped_mask ≡ a / 2 ^ 31 % 2 * 2 ^ 31 + a % 2 ^ 30
clear-swapped a = omega (
  arith,
  bit_and_split 31 a 1 (2 ^ 30 - 1) (omega arith),
  bit_and_ones 1 (a / 2 ^ 31),
  bit_and_ones 30 (a % 2 ^ 31),
)

pub clear-dirty : (a : ℕ) → clrbit a dirty_mask ≡ a / 2 ^ 29 % 8 * 2 ^ 29 + a % 2 ^ 28
clear-dirty a = omega (
  arith,
  bit_and_split 29 a 7 (2 ^ 28 - 1) (omega arith),
  bit_and_ones 3 (a / 2 ^ 29),
  bit_and_ones 28 (a % 2 ^ 29),
)

bit_or_low_bit : (a : ℕ) → bit_or a 1 ≡ a / 2 * 2 + 1
bit_or_low_bit a = omega (
  arith,
  bit_or_parts 1 a 1 (a / 2) 0 (a % 2) 1 (omega arith) refl (omega arith) (omega arith),
  bit_or-zero (a / 2),
  one (a % 2) (omega arith),
)
  where
    one : (r : ℕ) → r < 2 → bit_or r 1 ≡ 1
    one zero h = refl
    one (suc zero) h = refl
    one (suc (suc r)) h = absurd (omega arith)

pub set-present : (a : ℕ) → setbit a present_mask ≡ a / 2 ^ 32 * 2 ^ 32 + 2 ^ 31 + a % 2 ^ 31
set-present a = omega (
  arith,
  bit_or_parts 31 a present_mask (a / 2 ^ 31) 1 (a % 2 ^ 31) 0 (omega arith) refl (omega arith)
      (omega arith),
  bit_or_low_bit (a / 2 ^ 31),
  bit_or-zero (a % 2 ^ 31),
)

pub set-swapped : (a : ℕ) → setbit a swapped_mask ≡ a / 2 ^ 31 * 2 ^ 31 + 2 ^ 30 + a % 2 ^ 30
set-swapped a = omega (
  arith,
  bit_or_parts 30 a swapped_mask (a / 2 ^ 30) 1 (a % 2 ^ 30) 0 (omega arith) refl (omega arith)
      (omega arith),
  bit_or_low_bit (a / 2 ^ 30),
  bit_or-zero (a % 2 ^ 30),
)

pub set-dirty : (a : ℕ) → setbit a dirty_mask ≡ a / 2 ^ 29 * 2 ^ 29 + 2 ^ 28 + a % 2 ^ 28
set-dirty a = omega (
  arith,
  bit_or_parts 28 a dirty_mask (a / 2 ^ 28) 1 (a % 2 ^ 28) 0 (omega arith) refl (omega arith)
      (omega arith),
  bit_or_low_bit (a / 2 ^ 28),
  bit_or-zero (a % 2 ^ 28),
)

-- A low field goes into the zeros that are left for it.
pub or-below : (k q a r : ℕ) → a ≡ q * 2 ^ k → r < 2 ^ k → bit_or a r ≡ a + r
or-below k q a r e h =
    ground (arith, one-le-pow k 2, bit_or_parts k a r q 0 0 r, bit_or-zero q, zero-bit_or r)

-- The swap offset goes between the type below it and the flags above it.
pub or-swpoff :
    (flags off typ a b : ℕ)
    → a ≡ flags * 2 ^ 26 + typ
    → b ≡ off * 2 ^ 5
    → off < 2 ^ 21
    → typ < 2 ^ 5
    → bit_or a b ≡ a + b
or-swpoff flags off typ a b ea eb h k = omega (
  arith,
  bit_or_parts 5 a b (flags * 2 ^ 21) off typ 0 (omega arith) (omega arith) k (omega arith),
  or-below 21 flags (flags * 2 ^ 21) off refl h,
  bit_or-zero typ,
)
