-- ===== src/Memphy/Frames.antt =====
-- The frame lists of src/mm-memphy.c.
use simple_os_simulator.Prelude.{
  ℕ, zero, suc, ◌+◌, ◌*◌, ◌/◌, ◌^◌, ◌≤◌, ◌<◌, ◌≡◌, refl, ap, ◌∙◌, some, List, [], ◌∷◌, arith,
  get_elem?, length, length-replicate,
}
use native.Mathlib.Nat.{zero-add}
use simple_os_simulator.Memphy.{paging_pagesz, frames_from, format, init_memphy}

length-frames_from : (n i : ℕ) → length (frames_from n i) ≡ n
unfolding frames_from
length-frames_from zero i = refl
length-frames_from (suc n) i = ap suc (length-frames_from n (suc i))

get_elem?-frames_from : (n i j : ℕ) → j < n → get_elem? (frames_from n i) j ≡ some (i + j)
unfolding frames_from
get_elem?-frames_from zero i j h = absurd (omega arith)
get_elem?-frames_from (suc n) i zero h = ap some (omega arith)
get_elem?-frames_from (suc n) i (suc j) h =
    get_elem?-frames_from n (suc i) j (omega arith) ∙ ap some (omega arith)

-- Every frame of a list lies within the storage.
abbrev Within : List ℕ → ℕ → Type 0
Within [] bytes = Unit {0}
Within (f ∷ fs) bytes = (f * paging_pagesz + paging_pagesz ≤ bytes) × Within fs bytes

Within-frames_from :
    (n i bytes : ℕ) → (i + n) * paging_pagesz ≤ bytes → Within (frames_from n i) bytes
unfolding frames_from
Within-frames_from zero i bytes h = tt
Within-frames_from (suc n) i bytes h =
    (omega arith, Within-frames_from n (suc i) bytes (omega arith))

module _ (junk : List ℕ) (cursor max_size flag : ℕ) where
  free-init_memphy :
      max_size < 2 ^ 31
      → 2 * paging_pagesz ≤ max_size
      → (init_memphy junk cursor max_size flag).free_fp_list
        ≡ frames_from (max_size / paging_pagesz) 0
  unfolding init_memphy format
  free-init_memphy small two = ground arith

  length-init_memphy : length (init_memphy junk cursor max_size flag).storage ≡ max_size
  unfolding init_memphy format
  length-init_memphy = ground (arith, length-replicate {A = ℕ} max_size 0)

  used-init_memphy : (init_memphy junk cursor max_size flag).used_fp_list ≡ []
  unfolding init_memphy format
  used-init_memphy = ground arith

-- A device of at least two pages and less than 2 ^ 31 bytes starts with the frames 0, 1, 2, ...
-- free, one for each whole page of its storage, every one within the storage, and with none in
-- use.
init_memphy_frames :
    (junk : List ℕ) (cursor max_size flag : ℕ)
    → max_size < 2 ^ 31
    → 2 * paging_pagesz ≤ max_size
    → let mp = init_memphy junk cursor max_size flag in
      (length mp.free_fp_list ≡ max_size / paging_pagesz)
      × ((j : ℕ) → j < max_size / paging_pagesz → get_elem? mp.free_fp_list j ≡ some j)
      × Within mp.free_fp_list (length mp.storage)
      × (mp.used_fp_list ≡ [])
unfolding init_memphy
init_memphy_frames junk cursor max_size flag small two =
    let free = free-init_memphy junk cursor max_size flag small two in
    let n = max_size / paging_pagesz in
    (
      rw free (length-frames_from n 0),
      λ j h. rw free (get_elem?-frames_from n 0 j h ∙ ap some (zero-add j)),
      rw (free, length-init_memphy) (Within-frames_from n 0 max_size (omega arith)),
      used-init_memphy junk cursor max_size flag,
    )
