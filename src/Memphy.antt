-- ===== src/Memphy.antt =====
-- src/mm-memphy.c: a physical memory device, RAM or swap. A byte is its pattern, a number below
-- 256. `none` stands for undefined behaviour: an access outside `storage`.
pub mod Laws
pub mod Frames
use simple_os_simulator.Prelude.{
  ℕ, zero, suc, ◌+◌, ◌-◌, ◌*◌, ◌/◌, ◌%◌, ◌^◌, Bool, true, false, not, Option, none, some, List, [],
  ◌∷◌, ltb, ◌==◌, if◌then◌else◌, get_elem?, set, length, replicate, min, Status, success, failure,
}
use simple_os_simulator.Prelude.Word.{u32, int_pos}

abbrev pub paging_pagesz : ℕ
paging_pagesz = 256

-- `maxsz` is an `int` pattern. A list of frames is a list of their numbers, and `owner` is left
-- out, since nothing reads or writes it.
pub record Memphy : Type 0 where
  pub storage : List ℕ
  pub maxsz : ℕ
  pub rdmflg : ℕ
  pub cursor : ℕ
  pub free_fp_list : List ℕ
  pub used_fp_list : List ℕ

-- The loop of `MEMPHY_mv_csr`, for the number of rounds that are left.
unfoldable pub steps : ℕ → ℕ → ℕ → ℕ
steps zero maxsz cursor = cursor
steps (suc n) maxsz cursor = steps n maxsz ((cursor + 1) % maxsz)

unfoldable pub mv_csr : Memphy → ℕ → Memphy
mv_csr mp offset = record mp { cursor = steps (min offset (int_pos mp.maxsz)) (int_pos mp.maxsz) 0 }

-- `*value` goes in and out: a read that is refused leaves it.
unfoldable pub seq_read : Memphy → ℕ → ℕ → Option (Status × ℕ × Memphy)
seq_read mp addr value =
    if mp.rdmflg == 0 then some (failure, value, mp) else elim (get_elem? mp.storage addr) [
      | none ↦ none
      | some byte ↦ some (success, byte, mv_csr mp addr)
    ]

unfoldable pub read : Memphy → ℕ → ℕ → Option (Status × ℕ × Memphy)
read mp addr value =
    if mp.rdmflg == 0
    then seq_read mp addr value
    else elim (get_elem? mp.storage addr) [ none ↦ none | some byte ↦ some (success, byte, mp) ]

-- A store of one byte.
unfoldable pub store : Memphy → ℕ → ℕ → Option Memphy
store mp addr byte =
    if ltb addr (length mp.storage)
    then some (record mp { storage = set mp.storage addr byte })
    else none

unfoldable pub seq_write : Memphy → ℕ → ℕ → Option (Status × Memphy)
seq_write mp addr value =
    if mp.rdmflg == 0
    then some (failure, mp)
    else elim (store (mv_csr mp addr) addr value) [ none ↦ none | some mp' ↦ some (success, mp') ]

unfoldable pub write : Memphy → ℕ → ℕ → Option (Status × Memphy)
write mp addr byte =
    if mp.rdmflg == 0
    then seq_write mp addr byte
    else elim (store mp addr byte) [ none ↦ none | some mp' ↦ some (success, mp') ]

-- The nodes numbered `i` and on, linked in that order.
unfoldable pub frames_from : ℕ → ℕ → List ℕ
frames_from zero i = []
frames_from (suc n) i = i ∷ frames_from n (suc i)

-- `fst->fp_next` is set by the loop only, so with one frame the list goes on with whatever the
-- fresh node's `fp_next` holds: `junk` is the list that it leads to.
unfoldable pub format : List ℕ → Memphy → ℕ → Status × Memphy
unfolding frames_from
format junk mp pagesz =
    let numfp = int_pos mp.maxsz / pagesz in
    if numfp == 0
    then (failure, mp)
    else if numfp == 1
    then (success, record mp { free_fp_list = 0 ∷ junk })
    else (success, record mp { free_fp_list = frames_from numfp 0 })

unfoldable pub get_freefp : Memphy → Option ℕ × Memphy
get_freefp mp = elim mp.free_fp_list [
  | [] ↦ (none, mp)
  | fpn ∷ rest ↦ (some fpn, record mp { free_fp_list = rest; used_fp_list = fpn ∷ mp.used_fp_list })
]

unfoldable pub put_freefp : Memphy → ℕ → Memphy
put_freefp mp fpn = record mp { free_fp_list = fpn ∷ mp.free_fp_list }

-- `cursor` is set for a serial device only; `cursor` here is what `malloc` left there.
unfoldable pub init_memphy : List ℕ → ℕ → ℕ → ℕ → Memphy
unfolding format
init_memphy junk cursor max_size randomflg =
    let blank : Memphy = record {
      storage = replicate max_size 0;
      maxsz = u32 max_size;
      rdmflg = 0;
      cursor = cursor;
      free_fp_list = [];
      used_fp_list = [];
    } in
    let formatted = (format junk blank paging_pagesz).1 in
    if randomflg == 0
    then record formatted { rdmflg = 0; cursor = 0 }
    else record formatted { rdmflg = 1 }

-- The lines of `MEMPHY_dump`, address and byte: every byte that is not zero.
unfoldable dump_from : List ℕ → ℕ → ℕ → Option (List (ℕ × ℕ))
dump_from storage zero i = some []
dump_from storage (suc n) i =
    let rest = dump_from storage n (suc i) in
    elim (get_elem? storage i) [
      | none ↦ none
      | some byte ↦ elim rest [
        | none ↦ none
        | some lines ↦ some (if byte == 0 then lines else ((i, byte) ∷ lines))
      ]
    ]

unfoldable dump : Memphy → Option (List (ℕ × ℕ))
unfolding dump_from
dump mp = dump_from mp.storage (int_pos mp.maxsz) 0
