-- ===== src/Vm/Grow.antt =====
-- `inc_vma_limit` of src/mm-vm.c: with frames enough, and without.
use simple_os_simulator.Prelude.{
  ℕ, suc, ◌+◌, ◌*◌, ◌/◌, ◌%◌, ◌^◌, ◌≤◌, ◌<◌, ◌≡◌, refl, subst, ◌∙◌, inl, inr, arith, false, some,
  List, [], ◌∷◌, length, take, length-take, success, ltb,
}
use simple_os_simulator.Prelude.Word.{u32, u64, int_pos, int_to_u64}
use simple_os_simulator.Memphy.{Memphy, paging_pagesz}
use simple_os_simulator.Mm.{Mm, Vma, Rg}
use simple_os_simulator.PageTable.Laws.{IsPgd}
use simple_os_simulator.Vm.{
  minus_one, minus_3000, alloc_pages_range, vmap_page_range, vm_map_ram, get_vma_by_num,
  get_vm_area_node_at_brk, validate_overlap_vm_area, overlap_any, inc_vma_limit, commit,
  page_alignsz, map_pages,
}
use simple_os_simulator.Vm.Map.{
  Allocated, alloc_pages_range-Allocated, drop, Mapped, map_pages-Mapped,
}

-- The pages that a request of `size` bytes takes.
abbrev pages : ℕ → ℕ
pages size = (size + 255) / 256

-- No area ever overlaps another: the macro says so.
overlap_any-false : (vmas : List Vma) (i cur : ℕ) (area : Vma) → overlap_any vmas i cur area ≡ false
unfolding overlap_any
overlap_any-false [] i cur area = refl
overlap_any-false (v ∷ vmas) i cur area = ground (arith, overlap_any-false vmas (suc i) cur area)

not_negative : (n : ℕ) → ltb n 0 ≡ false
not_negative n = ground arith

-- The parts of `inc_vma_limit` for a request that is not 0 at an area that is there.
module _ (mm : Mm) (mram : Memphy) (vmaid size i : ℕ) (vma : Vma)
    (found : get_vma_by_num mm.mmap vmaid ≡ some (i, vma)) (some_bytes : 0 < size)
    (small : vma.sbrk + size < 2 ^ 30) where
  abbrev pub area : Rg
  area = record { rg_start = vma.sbrk; rg_end = vma.sbrk + size }

  node : get_vm_area_node_at_brk mm vmaid size ≡ some area
  unfolding get_vm_area_node_at_brk
  node =
      let word : u64 (vma.sbrk + size) ≡ vma.sbrk + size = omega arith in
      rw (found, get_vm_area_node_at_brk, word)

  no_overlap : validate_overlap_vm_area mm vmaid vma.sbrk (vma.sbrk + size) ≡ success
  unfolding validate_overlap_vm_area
  no_overlap = ground (arith, found, overlap_any-false mm.mmap 0 i vma)

  count : u32 (page_alignsz size / paging_pagesz) ≡ pages size
  count = omega arith

  -- For a request of at least one byte, with an area of that number, `inc_vma_limit` returns 0 and
  -- commits the region that `vm_map_ram` leaves in `area`, whatever `vm_map_ram` returns: the test
  -- for an error is made on an unsigned value.
  inc_vma_limit-commit :
      let (ret, rg, mm', mram') = vm_map_ram mm mram vma.sbrk (pages size) area in
      inc_vma_limit mm mram vmaid size ≡ (success, commit mm' i vma rg.rg_end, mram')
  unfolding inc_vma_limit
  inc_vma_limit-commit =
      rw (node, inc_vma_limit, found, no_overlap, count)
        (rw (not_negative (vm_map_ram mm mram vma.sbrk (pages size) area).0))

  vm_map_ram_enough :
      (frames : List ℕ)
      → Allocated 0 frames
          (drop (pages size) mram.free_fp_list)
          mram
          (alloc_pages_range mram (pages size))
      → vm_map_ram mm mram vma.sbrk (pages size) area ≡ (
        0,
        record { rg_start = vma.sbrk; rg_end = vma.sbrk + pages size * 256 },
        (map_pages (pages size) (vma.sbrk / 256) frames mm).1,
        (alloc_pages_range mram (pages size)).2,
      )
  unfolding vm_map_ram vmap_page_range
  vm_map_ram_enough frames a =
      let rounds : int_pos (pages size) ≡ pages size = ground arith in
      let top : u64 (vma.sbrk + int_to_u64 (pages size * paging_pagesz))
          ≡ vma.sbrk + pages size * 256 =
        ground arith in
      rw (a.returns, vm_map_ram) (rw (a.taken, top, rounds))

  vm_map_ram_short :
      Allocated minus_3000 mram.free_fp_list [] mram (alloc_pages_range mram (pages size))
      → vm_map_ram mm mram vma.sbrk (pages size) area
        ≡ (minus_one, area, mm, (alloc_pages_range mram (pages size)).2)
  unfolding vm_map_ram
  vm_map_ram_short a = rw (a.returns, vm_map_ram)

  -- For a request of at least one byte at an area that is there, whose sbrk is on a page boundary
  -- and ends below 2 ^ 30 with the request, with a well-formed table and frames enough,
  -- inc_vma_limit returns 0, takes as many frames off the front of the free list as the request
  -- has pages, makes the pages present, each with the number of its frame cut to the 13 bits of
  -- the entry's field, so that the number is the frame's only below 2 ^ 13, queues them, moves
  -- sbrk past them, and changes no page outside them below 2 ^ 45, no other area and no register.
  pub inc_vma_limit_maps :
      IsPgd mm.pgd
      → vma.sbrk % 256 ≡ 0
      → pages size ≤ length mram.free_fp_list
      → (mm' : Mm) × (mram' : Memphy) × (inc_vma_limit mm mram vmaid size
          ≡ (success, commit mm' i vma (vma.sbrk + pages size * 256), mram'))
        × Mapped (vma.sbrk / 256) (take (pages size) mram.free_fp_list) mm mm'
        × (mram'.free_fp_list ≡ drop (pages size) mram.free_fp_list)
  inc_vma_limit_maps w aligned enough =
      let n = pages size in
      let frames = take n mram.free_fp_list in
      let full : length frames ≡ n = omega (arith, length-take n mram.free_fp_list) in
      elim (alloc_pages_range-Allocated mram n (omega arith)) [
        | inr (short, a) ↦ absurd (omega arith)
        | inl (_, a) ↦ (
          (map_pages n (vma.sbrk / 256) frames mm).1,
          (alloc_pages_range mram n).2,
          inc_vma_limit-commit ∙ rw (vm_map_ram_enough frames a),
          subst (λ k. Mapped (vma.sbrk / 256) frames mm (map_pages k (vma.sbrk / 256) frames mm).1)
              full (map_pages-Mapped frames (vma.sbrk / 256) mm w (omega arith)).1,
          a.left,
        )
      ]

  -- For a request of at least one byte at an area that is there, whose sbrk with the request stays
  -- below 2 ^ 30, with too few free frames, inc_vma_limit returns 0 all the same: sbrk moves by
  -- the bytes of the request, no page is mapped, and every free frame is lost.
  pub inc_vma_limit_exhausts :
      length mram.free_fp_list < pages size
      → (mram' : Memphy) × (inc_vma_limit mm mram vmaid size
          ≡ (success, commit mm i vma (vma.sbrk + size), mram'))
        × (mram'.free_fp_list ≡ [])
  inc_vma_limit_exhausts short =
      elim (alloc_pages_range-Allocated mram (pages size) (omega arith)) [
        | inl (enough, a) ↦ absurd (omega arith)
        | inr (_, a) ↦ (
          (alloc_pages_range mram (pages size)).2,
          inc_vma_limit-commit ∙ rw (vm_map_ram_short a),
          a.left,
        )
      ]
