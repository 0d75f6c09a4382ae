-- ===== src/PageTable/Index.antt =====
-- The indices that a page number is cut into.
use simple_os_simulator.Prelude.{ℕ, ◌+◌, ◌-◌, ◌*◌, ◌/◌, ◌%◌, ◌^◌, ◌<◌, ◌≡◌, arith, bit_and}
use native.Mathlib.Nat.{one-le-pow}
use simple_os_simulator.Prelude.Bits.{bit_and_split, bit_and_ones, bit_and-zero}
use simple_os_simulator.PageTable.{get_pd_from_pagenum}

field_9 : (lo a : ℕ) → bit_and a ((2 ^ 9 - 1) * 2 ^ lo) ≡ a / 2 ^ lo % 2 ^ 9 * 2 ^ lo
field_9 lo a = ground (
  arith,
  one-le-pow lo 2,
  bit_and_split lo a (2 ^ 9 - 1) 0,
  bit_and_ones 9 (a / 2 ^ lo),
  bit_and-zero (a % 2 ^ lo),
)

-- The five indices of get_pd_from_pagenum lie below 512 and are the digits in base 512 of the page
-- number modulo 2 ^ 45.
pub get_pd_from_pagenum_digits :
    (pgn : ℕ)
    → let d = get_pd_from_pagenum pgn in
      ((((d.pgd * 512 + d.p4d) * 512 + d.pud) * 512 + d.pmd) * 512 + d.pt ≡ pgn % 2 ^ 45)
      × (d.pgd < 512)
      × (d.p4d < 512)
      × (d.pud < 512)
      × (d.pmd < 512)
      × (d.pt < 512)
unfolding get_pd_from_pagenum
get_pd_from_pagenum_digits pgn =
    let a = pgn * 2 ^ 12 % 2 ^ 64 in
    omega (arith, field_9 48 a, field_9 39 a, field_9 30 a, field_9 21 a, field_9 12 a)
