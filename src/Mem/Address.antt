-- ===== src/Mem/Address.antt =====
-- The parts of an address in src/mem.c, and the accesses to it.
use simple_os_simulator.Prelude.{ℕ, zero, suc, ◌+◌, ◌*◌, ◌^◌, ◌<◌, ◌≡◌, refl, arith, none, some}
use simple_os_simulator.Prelude.Bits.{bit_and_ones}
use simple_os_simulator.Mem.{
  Mem, get_offset, get_first_lv, get_second_lv, get_trans_table, translate, read_mem, write_mem,
}

-- The two indices and the offset are the parts of an address, the lower two within 5 and 10 bits.
address_parts :
    (addr : ℕ)
    → addr < 2 ^ 64
    → (addr ≡ get_first_lv addr * 2 ^ 15 + get_second_lv addr * 2 ^ 10 + get_offset addr)
      × (get_second_lv addr < 2 ^ 5)
      × (get_offset addr < 2 ^ 10)
unfolding get_first_lv get_second_lv get_offset
address_parts addr small = (
  omega (arith, bit_and_ones 10 addr, small),
  omega (arith, small),
  omega (arith, bit_and_ones 10 addr),
)

get_trans_table-none : (size index : ℕ) → get_trans_table size index ≡ none
unfolding get_trans_table
get_trans_table-none zero index = refl
get_trans_table-none (suc size) index = get_trans_table-none size index

translate-zero : (size addr : ℕ) → translate size addr ≡ 0
unfolding translate
translate-zero size addr = ground (arith, get_trans_table-none size (get_first_lv addr))

-- No address can be read or written, and nothing is changed.
accesses_refused :
    (junk size : ℕ) (mem : Mem) (addr byte : ℕ)
    → (read_mem junk size mem addr byte ≡ some (1, byte))
      × (write_mem junk size mem addr byte ≡ some (1, mem))
unfolding read_mem write_mem
accesses_refused junk size mem addr byte =
    (ground (arith, translate-zero size addr), ground (arith, translate-zero size addr))
