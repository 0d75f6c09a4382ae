-- ===== src/Mem.antt =====
-- src/mem.c, the memory of the build without MM_PAGING, as far as it is written: the search of the tables
-- finds nothing and no page is ever handed out. A table is given by its number of rows.
pub mod Address
use simple_os_simulator.Prelude.{
  ℕ, zero, suc, ◌+◌, ◌-◌, ◌*◌, ◌/◌, ◌%◌, ◌^◌, Option, none, some, List, [], ◌∷◌, ◌==◌,
  if◌then◌else◌, bit_and, replicate, get_elem?, ltb, length, set,
}
use simple_os_simulator.Prelude.Word.{u32, u64, ◌<<<◌, ◌>>>◌}

-- ADDRESS_SIZE, OFFSET_LEN and PAGE_LEN of include/common.h
abbrev address_size : ℕ
address_size = 20

abbrev offset_len : ℕ
offset_len = 10

abbrev page_len : ℕ
page_len = 5

-- A row of `_mem_stat`; `next` is an `int` pattern.
pub record Stat : Type 0 where
  pub proc : ℕ
  pub index : ℕ
  pub next : ℕ

pub record Mem : Type 0 where
  pub ram : List ℕ
  pub mem_stat : List Stat

unfoldable init_mem : Mem
init_mem = record {
  ram = replicate (2 ^ address_size) 0;
  mem_stat = replicate (2 ^ (address_size - offset_len)) (record { proc = 0; index = 0; next = 0 });
}

unfoldable pub get_offset : ℕ → ℕ
get_offset addr = bit_and addr (2 ^ 32 - 1 - u32 ((2 ^ 32 - 1) <<< offset_len))

unfoldable pub get_first_lv : ℕ → ℕ
get_first_lv addr = addr >>> (offset_len + page_len)

-- The difference of two `addr_t` of 64 bits.
unfoldable pub get_second_lv : ℕ → ℕ
unfolding get_first_lv
get_second_lv addr = u64 ((addr >>> offset_len) + (2 ^ 64 - u64 (get_first_lv addr <<< page_len)))

-- The loop over the rows, which does nothing; the row of the second level that it returns, or NULL.
unfoldable get_trans_table : ℕ → ℕ → Option (List ℕ)
get_trans_table zero index = none
get_trans_table (suc size) index = get_trans_table size index

-- The loop over the rows of the second level, given by their `v_index`.
unfoldable has_row : List ℕ → ℕ → ℕ
has_row [] second_lv = 0
has_row (v_index ∷ rows) second_lv =
    let rest = has_row rows second_lv in if v_index == second_lv then 1 else rest

-- 1 where the address is found; `*physical_addr` is never written.
unfoldable pub translate : ℕ → ℕ → ℕ
unfolding get_trans_table has_row get_first_lv get_second_lv
translate size virtual_addr = elim (get_trans_table size (get_first_lv virtual_addr)) [
  | none ↦ 0
  | some rows ↦ has_row rows (get_second_lv virtual_addr)
]

-- The number of pages, and the return value with the break pointer: `mem_avail` is 0.
unfoldable alloc_mem : ℕ → ℕ → ℕ × ℕ
alloc_mem size bp =
    let page_size = 2 ^ offset_len in
    let num_pages = if size % page_size == 0 then size / page_size + 1 else size / page_size in
    let mem_avail : ℕ = 0 in
    if mem_avail == 0 then (0, bp) else (bp, u32 (bp + num_pages * page_size))

unfoldable free_mem : ℕ → ℕ
free_mem address = 0

-- The return value and `*data`, which `old` is before; `junk` is the local `physical_addr`. `none` is an
-- access outside `_ram`.
unfoldable pub read_mem : ℕ → ℕ → Mem → ℕ → ℕ → Option (ℕ × ℕ)
read_mem junk size mem address old =
    if translate size address == 0
    then some (1, old)
    else elim (get_elem? mem.ram junk) [ none ↦ none | some byte ↦ some (0, byte) ]

unfoldable pub write_mem : ℕ → ℕ → Mem → ℕ → ℕ → Option (ℕ × Mem)
write_mem junk size mem address byte =
    if translate size address == 0
    then some (1, mem)
    else if ltb junk (length mem.ram)
    then some (0, record mem { ram = set mem.ram junk byte })
    else none
