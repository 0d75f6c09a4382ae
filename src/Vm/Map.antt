-- ===== src/Vm/Map.antt =====
-- Frames for pages: `alloc_pages_range`, `vmap_page_range` and `vm_map_ram` of src/mm64.c.
use simple_os_simulator.Prelude.{
  ℕ, zero, suc, ◌+◌, ◌%◌, ◌^◌, ◌≤◌, ◌<◌, ◌≡◌, refl, sym, ◌∙◌, ◌⊎◌, inl, inr, arith, true, none,
  some, List, [], ◌∷◌, ◌++◌, length, take,
}
use mathlib.Core.List.{append-nil, append_assoc}
use native.Mathlib.Decide.{dec_lt}
use simple_os_simulator.Prelude.Word.{u64, int_pos}
use simple_os_simulator.Memphy.{Memphy, get_freefp}
use simple_os_simulator.Mm.{Mm, enlist_pgn_node}
use simple_os_simulator.Pte.{page_present, paging_fpn}
use simple_os_simulator.PageTable.{Pgd, pte_set_fpn}
use simple_os_simulator.PageTable.Laws.{IsPgd, entry, pte_set_fpn_lem}
use simple_os_simulator.Vm.{minus_3000, alloc_frames, alloc_pages_range, map_pages}

-- The frames that are left after the first `n`.
abbrev pub drop : ℕ → List ℕ → List ℕ
drop zero xs = xs
drop (suc n) [] = []
drop (suc n) (x ∷ xs) = drop n xs

get_freefp-cons :
    (mram : Memphy) (f : ℕ) (free : List ℕ)
    → mram.free_fp_list ≡ f ∷ free
    → get_freefp mram
      ≡ (some f, record mram { free_fp_list = free; used_fp_list = f ∷ mram.used_fp_list })
unfolding get_freefp
get_freefp-cons mram f free e = rw (e, get_freefp)

get_freefp-nil : (mram : Memphy) → mram.free_fp_list ≡ [] → get_freefp mram ≡ (none, mram)
unfolding get_freefp
get_freefp-nil mram e = ground arith

-- What `alloc_pages_range` returns: the code, the frames in order, and the frames still free.
pub record Allocated (code : ℕ) (frames free : List ℕ) (mram : Memphy) (r : ℕ × List ℕ × Memphy)
    : Type 0 where
  pub returns : r.0 ≡ code
  pub taken : r.1 ≡ frames
  pub left : r.2.free_fp_list ≡ free
  pub same_storage : r.2.storage ≡ mram.storage

alloc_frames_enough :
    (n : ℕ) (got free : List ℕ) (mram : Memphy)
    → mram.free_fp_list ≡ free
    → n ≤ length free
    → Allocated 0 (got ++ take n free) (drop n free) mram (alloc_frames n got mram)
unfolding alloc_frames
alloc_frames_enough zero got free mram e h = record {
  returns = refl;
  taken = sym (append-nil got);
  left = e;
  same_storage = refl;
}
alloc_frames_enough (suc n) got [] mram e h = absurd (omega arith)
alloc_frames_enough (suc n) got (f ∷ free) mram e h =
    let rest = record mram { free_fp_list = free; used_fp_list = f ∷ mram.used_fp_list } in
    let ih = alloc_frames_enough n (got ++ f ∷ []) free rest refl (omega arith) in
    rw (get_freefp-cons mram f free e, alloc_frames, get_freefp-cons mram f free e)
      (record {
        returns = ih.returns;
        taken = ih.taken ∙ append_assoc got (f ∷ []) (take n free);
        left = ih.left;
        same_storage = ih.same_storage;
      })

alloc_frames_short :
    (n : ℕ) (got free : List ℕ) (mram : Memphy)
    → mram.free_fp_list ≡ free
    → length free < n
    → Allocated minus_3000 (got ++ free) [] mram (alloc_frames n got mram)
unfolding alloc_frames
alloc_frames_short zero got free mram e h = absurd (omega arith)
alloc_frames_short (suc n) got [] mram e h =
    rw (get_freefp-nil mram e, alloc_frames, get_freefp-nil mram e)
      (record { returns = refl; taken = sym (append-nil got); left = e; same_storage = refl })
alloc_frames_short (suc n) got (f ∷ free) mram e h =
    let rest = record mram { free_fp_list = free; used_fp_list = f ∷ mram.used_fp_list } in
    let ih = alloc_frames_short n (got ++ f ∷ []) free rest refl (omega arith) in
    rw (get_freefp-cons mram f free e, alloc_frames, get_freefp-cons mram f free e)
      (record {
        returns = ih.returns;
        taken = ih.taken ∙ append_assoc got (f ∷ []) free;
        left = ih.left;
        same_storage = ih.same_storage;
      })

-- alloc_pages_range takes the first free frames where there are enough for the number, which is
-- below 2 ^ 31; where there are not, it returns -3000 with every free frame taken.
pub alloc_pages_range-Allocated :
    (mram : Memphy) (n : ℕ)
    → n < 2 ^ 31
    → ((n ≤ length mram.free_fp_list)
        × Allocated 0
            (take n mram.free_fp_list)
            (drop n mram.free_fp_list)
            mram
            (alloc_pages_range mram n))
      ⊎ ((length mram.free_fp_list < n)
          × Allocated minus_3000 mram.free_fp_list [] mram (alloc_pages_range mram n))
unfolding alloc_pages_range
alloc_pages_range-Allocated mram n h =
    let rounds : int_pos n ≡ n = ground arith in
    elim (dec_lt (length mram.free_fp_list) n) [
      | yes short ↦ inr (short, rw rounds (alloc_frames_short n [] _ mram refl short))
      | no enough ↦
          inl (omega arith, rw rounds (alloc_frames_enough n [] _ mram refl (omega arith)))
    ]

-- The pages from `pgn` on are present in the frames of the list, one after the other.
abbrev InFrames : Pgd → ℕ → List ℕ → Type 0
InFrames pgd pgn [] = Unit {0}
InFrames pgd pgn (f ∷ fs) =
    (page_present (entry pgd pgn) ≡ true)
    × (paging_fpn (entry pgd pgn) ≡ f % 2 ^ 13)
    × InFrames pgd (suc pgn) fs

-- The pages of a range, the last one first, as they go into the FIFO list.
abbrev enlisted : ℕ → ℕ → List ℕ → List ℕ
enlisted zero pgn fifo = fifo
enlisted (suc n) pgn fifo = enlisted n (suc pgn) (pgn ∷ fifo)

-- What `vmap_page_range` does to the memory.
pub record Mapped (pgn : ℕ) (frames : List ℕ) (mm mm' : Mm) : Type 0 where
  pub tables : IsPgd mm'.pgd
  pub present : InFrames mm'.pgd pgn frames
  pub others :
      (k : ℕ)
      → k < 2 ^ 45
      → (k < pgn) ⊎ (pgn + length frames ≤ k)
      → entry mm'.pgd k ≡ entry mm.pgd k
  pub queued : mm'.fifo_pgn ≡ enlisted (length frames) pgn mm.fifo_pgn
  pub same_areas : mm'.mmap ≡ mm.mmap
  pub same_symbols : mm'.symrgtbl ≡ mm.symrgtbl

-- In a well-formed table, the loop of vmap_page_range over pages below 2 ^ 45 makes them present
-- with the numbers of the list's frames one after the other, each cut to 13 bits, queues them, and
-- changes nothing else of the memory.
pub map_pages-Mapped :
    (frames : List ℕ) (pgn : ℕ) (mm : Mm)
    → IsPgd mm.pgd
    → pgn + length frames < 2 ^ 45
    → ((map_pages (length frames) pgn frames mm).0 ≡ 0)
      × Mapped pgn frames mm (map_pages (length frames) pgn frames mm).1
unfolding map_pages enlist_pgn_node
map_pages-Mapped [] pgn mm w h = (
  refl,
  record {
    tables = w;
    present = tt;
    others = λ k _ _. refl;
    queued = refl;
    same_areas = refl;
    same_symbols = refl;
  },
)
map_pages-Mapped (f ∷ fs) pgn mm w h =
    let first = pte_set_fpn_lem mm.pgd pgn f w (omega arith) in
    let mm1 : Mm = record mm { pgd = pte_set_fpn mm.pgd pgn f; fifo_pgn = pgn ∷ mm.fifo_pgn } in
    let ih = map_pages-Mapped fs (suc pgn) mm1 first.3 (omega arith) in
    let here = ih.1.others pgn (omega arith) (inl (omega arith)) in
    let word : u64 pgn ≡ pgn = omega arith in
    rw (word, map_pages)
      (
        ih.0,
        record {
          tables = ih.1.tables;
          present = (rw here first.0, rw here first.1, ih.1.present);
          others = λ k hk out. ih.1.others k hk (omega arith) ∙ first.2 k hk (omega arith);
          queued = ih.1.queued;
          same_areas = ih.1.same_areas;
          same_symbols = ih.1.same_symbols;
        },
      )
