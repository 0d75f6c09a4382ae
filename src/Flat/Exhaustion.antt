-- ===== src/Flat/Exhaustion.antt =====
-- `vm_map_range` of src/mm.c where the RAM has too few free frames.
use simple_os_simulator.Prelude.{
  ℕ, zero, suc, ◌+◌, ◌-◌, ◌*◌, ◌^◌, ◌<◌, ◌≡◌, refl, ap, sym, subst, arith, some, List, [], ◌∷◌,
  length, inl, inr, ◌⊎◌,
}
use simple_os_simulator.Prelude.Word.{u32, int_pos}
use simple_os_simulator.Pte.{paging_pgn}
use simple_os_simulator.Memphy.{Memphy, paging_pagesz, get_freefp}
use simple_os_simulator.Flat.{
  FlatMm, alloc_frames, alloc_pages_range, map_pages, vmap_page_range, vm_map_range,
}

List-cases : (xs : List ℕ) → (xs ≡ []) ⊎ ((x : ℕ) × (ys : List ℕ) × (xs ≡ x ∷ ys))
List-cases [] = inl refl
List-cases (x ∷ ys) = inr (x, ys, refl)

-- The loop ends with -1, and no frame is left.
alloc_frames_short :
    (n : ℕ) (head : List ℕ) (mram : Memphy)
    → length mram.free_fp_list < n
    → ((alloc_frames n head mram).0 ≡ 2 ^ 32 - 1) × ((alloc_frames n head mram).2.free_fp_list ≡ [])
unfolding alloc_frames get_freefp
alloc_frames_short zero head mram h = absurd (omega (arith, h))
alloc_frames_short (suc n) head mram h = elim (List-cases mram.free_fp_list) [
  | inl e ↦ (ground (arith, e), ground (arith, e))
  | inr (f, fs, e) ↦
      (let mram' : Memphy = record mram {
        free_fp_list = fs;
        used_fp_list = f ∷ mram.used_fp_list;
      } in
        let next : alloc_frames (suc n) head mram ≡ alloc_frames n (f ∷ head) mram' =
          ground (arith, e) in
        let rest = alloc_frames_short n (f ∷ head) mram' (omega (arith, h, ap length e)) in
        subst (λ r. (r.0 ≡ 2 ^ 32 - 1) × (r.2.free_fp_list ≡ [])) (sym next) rest)
]

map_pages_none : (n pgn : ℕ) (mm : FlatMm) → map_pages n pgn [] mm ≡ some mm
unfolding map_pages
map_pages_none zero pgn mm = refl
map_pages_none (suc n) pgn mm = refl

vmap_page_range_none :
    (mm : FlatMm) (addr pgnum : ℕ)
    → vmap_page_range mm addr pgnum []
      ≡ some (record { rg_start = addr; rg_end = u32 (addr + u32 (pgnum * paging_pagesz)) }, mm)
unfolding vmap_page_range
vmap_page_range_none mm addr pgnum =
    ground (arith, map_pages_none (int_pos pgnum) (paging_pgn addr) mm)

-- With fewer free frames than the number of pages asked for, which is below 2 ^ 31, vm_map_range
-- of src/mm.c reports the region as mapped, changes no entry and no page list, and takes all the
-- free frames.
pub vm_map_range_exhausts :
    (mm : FlatMm) (mram : Memphy) (mapstart incpgnum : ℕ)
    → incpgnum < 2 ^ 31
    → length mram.free_fp_list < incpgnum
    → (mram' : Memphy) × (vm_map_range mm mram mapstart incpgnum
        ≡ some (
          record { rg_start = mapstart; rg_end = u32 (mapstart + u32 (incpgnum * paging_pagesz)) },
          mm,
          mram',
        ))
      × (mram'.free_fp_list ≡ [])
unfolding vm_map_range alloc_pages_range
vm_map_range_exhausts mm mram mapstart incpgnum small short =
    let pos : int_pos incpgnum ≡ incpgnum = grind (arith, small) in
    let run = alloc_frames_short (int_pos incpgnum) [] mram (rw pos short) in
    (
      (alloc_frames (int_pos incpgnum) [] mram).2,
      ground (arith, run.0, vmap_page_range_none mm mapstart incpgnum),
      run.1,
    )
