-- ===== src/Memphy/Laws.antt =====
-- Reads and writes of src/mm-memphy.c.
use simple_os_simulator.Prelude.{
  ℕ, zero, suc, ◌+◌, ◌%◌, ◌<◌, ◌≡◌, ◌≢◌, ap, sym, ◌∙◌, some, arith, ltb, if◌then◌else◌, set, length,
  min, success, failure, length-set, get_elem?-set_self, get_elem?-set_ne,
}
use native.Mathlib.Nat.{mod-eq_of_lt, mod-add-mod, add-zero, mod_self}
use native.Mathlib.Decide.{dec_lt}
use simple_os_simulator.Prelude.Word.{int_pos}
use simple_os_simulator.Memphy.{Memphy, steps, mv_csr, seq_read, seq_write, read, write, store}

-- On a random access device a byte that is written within the storage is read back there, every
-- other address reads as before, and the size stays.
pub read-write :
    (mp : Memphy) (addr byte : ℕ)
    → mp.rdmflg ≢ 0
    → addr < length mp.storage
    → (mp' : Memphy) × (write mp addr byte ≡ some (success, mp'))
      × ((v : ℕ) → read mp' addr v ≡ some (success, byte, mp'))
      × ((a b v : ℕ)
          → a ≢ addr
          → read mp a v ≡ some (success, b, mp)
          → read mp' a v ≡ some (success, b, mp'))
      × (length mp'.storage ≡ length mp.storage)
unfolding read write store
read-write mp addr byte random inside = (
  record mp { storage = set mp.storage addr byte },
  ground arith,
  λ v. ground (arith, get_elem?-set_self mp.storage addr byte inside),
  λ a b v ne h. ground (arith, get_elem?-set_ne mp.storage addr a byte),
  length-set mp.storage addr byte,
)

-- A device that is not random access refuses every read and every write, and stays as it is.
serial_refuses :
    (mp : Memphy) (addr byte : ℕ)
    → mp.rdmflg ≡ 0
    → (read mp addr byte ≡ some (failure, byte, mp)) × (write mp addr byte ≡ some (failure, mp))
unfolding read write seq_read seq_write
serial_refuses mp addr byte serial = (ground arith, ground arith)

steps-mod : (n maxsz c : ℕ) → c < maxsz → steps n maxsz c ≡ (c + n) % maxsz
unfolding steps
steps-mod zero maxsz c h = rw add-zero (sym (mod-eq_of_lt h))
steps-mod (suc n) maxsz c h =
    steps-mod n maxsz ((c + 1) % maxsz) (omega arith)
    ∙ rw mod-add-mod (ap (λ k. k % maxsz) (omega arith))

-- On a device that is not empty MEMPHY_mv_csr ends at the offset, and at 0 where that is not below
-- the size.
cursor-mv_csr :
    (mp : Memphy) (offset : ℕ)
    → 0 < int_pos mp.maxsz
    → (mv_csr mp offset).cursor ≡ (if ltb offset (int_pos mp.maxsz) then offset else 0)
unfolding mv_csr
cursor-mv_csr mp offset h =
    steps-mod (min offset (int_pos mp.maxsz)) (int_pos mp.maxsz) 0 h ∙ at_end (int_pos mp.maxsz) h
  where
    at_end : (m : ℕ) → 0 < m → (0 + min offset m) % m ≡ (if ltb offset m then offset else 0)
    at_end m pos = elim (dec_lt offset m) [
      | yes lt ↦ ground (arith, mod-eq_of_lt lt)
      | no ge ↦ ground (arith, mod_self m)
    ]
