-- ===== src/LibMem/Paging.antt =====
-- `pg_getpage`, `pg_getval` and `pg_setval` of src/libmem.c for a page that is present, and the order
-- in which `find_victim_page` gives pages up.
use simple_os_simulator.Prelude.{
  ℕ, ◌*◌, ◌%◌, ◌^◌, ◌<◌, ◌≡◌, refl, ap₂, ◌∙◌, arith, true, some, List, [], ◌∷◌, ◌++◌, get_elem?,
}
use simple_os_simulator.Prelude.Word.{u32}
use simple_os_simulator.Pte.{page_present, paging_fpn, swap_entry}
use simple_os_simulator.Pte.Fields.{swap_entry_fields}
use simple_os_simulator.PageTable.{Pgd, get_pte, pte_set_swap}
use simple_os_simulator.PageTable.Laws.{
  IsPgd, entry, get_pte_silent, pte_get_entry_lem, entry-update_self, update-IsPgd,
  pte_set_swap-update,
}
use simple_os_simulator.Mm.{Mm}
use simple_os_simulator.Krnl.{Krnl, Pcb}
use simple_os_simulator.LibMem.{split_last, find_victim_page, get_entry, pg_getpage}
use simple_os_simulator.LibMem.Alloc.{with_mm, get_after, with_mm_twice}

split_last_lem : (x : ℕ) (xs : List ℕ) (v : ℕ) → split_last x (xs ++ (v ∷ [])) ≡ (v, x ∷ xs)
unfolding split_last
split_last_lem x [] v = refl
split_last_lem x (y ∷ ys) v = rw (split_last_lem y ys v) refl

-- The victim is the last page of the list, the one that was enlisted first; it leaves the list,
-- and the others stay in order.
pub find_victim_page_lem :
    (mm : Mm) (xs : List ℕ) (v : ℕ)
    → mm.fifo_pgn ≡ xs ++ (v ∷ [])
    → find_victim_page mm ≡ (some v, record mm { fifo_pgn = xs })
unfolding find_victim_page split_last
find_victim_page_lem mm [] v e = rw e refl
find_victim_page_lem mm (x ∷ xs) v e = rw e (rw (split_last_lem x xs v) refl)

-- The tables may have been allocated further; nothing else is different.
pub record SameMemory (mm mm' : Mm) : Type 0 where
  pub entries : (n : ℕ) → n < 2 ^ 45 → entry mm'.pgd n ≡ entry mm.pgd n
  pub tables : IsPgd mm'.pgd
  pub same_areas : mm'.mmap ≡ mm.mmap
  pub same_symbols : mm'.symrgtbl ≡ mm.symrgtbl
  pub same_fifo : mm'.fifo_pgn ≡ mm.fifo_pgn

-- The memory after a look at the entry of a page.
abbrev pub looked : Mm → ℕ → Mm
looked mm pgn = record mm { pgd = get_pte mm.pgd pgn }

pub looked-SameMemory :
    (mm : Mm) (pgn : ℕ) → IsPgd mm.pgd → pgn < 2 ^ 45 → SameMemory mm (looked mm pgn)
looked-SameMemory mm pgn w h = record {
  entries = λ n hn. (get_pte_silent mm.pgd pgn n w h hn).0;
  tables = (get_pte_silent mm.pgd pgn pgn w h h).1;
  same_areas = refl;
  same_symbols = refl;
  same_fifo = refl;
}

SameMemory-trans : (a b c : Mm) → SameMemory a b → SameMemory b c → SameMemory a c
SameMemory-trans a b c s t = record {
  entries = λ n hn. t.entries n hn ∙ s.entries n hn;
  tables = t.tables;
  same_areas = t.same_areas ∙ s.same_areas;
  same_symbols = t.same_symbols ∙ s.same_symbols;
  same_fifo = t.same_fifo ∙ s.same_fifo;
}

-- The word that the code reads for a page.
abbrev pub pte_of : Mm → ℕ → ℕ
pte_of mm pgn = u32 (entry mm.pgd pgn)

module _ (k : Krnl) (p : ℕ) (pcb : Pcb) (mm : Mm) (here : get_elem? k.procs p ≡ some pcb)
    (own : pcb.own_mm ≡ some mm) where
  pub get_entry_lem :
      (pgn : ℕ) → get_entry p pgn k ≡ some (pte_of mm pgn, with_mm k p pcb (looked mm pgn))
  unfolding get_entry
  get_entry_lem pgn = ground (arith, here, own, pte_get_entry_lem mm.pgd pgn)

module _ (k : Krnl) (p : ℕ) (pcb : Pcb) (mm : Mm) (here : get_elem? k.procs p ≡ some pcb)
    (own : pcb.own_mm ≡ some mm) (w : IsPgd mm.pgd) where
  twice : ℕ → Mm
  twice pgn = looked (looked mm pgn) pgn

  twice-SameMemory : (pgn : ℕ) → pgn < 2 ^ 45 → SameMemory mm (twice pgn)
  unfolding twice
  twice-SameMemory pgn h =
      let once = looked-SameMemory mm pgn w h in
      SameMemory-trans mm (looked mm pgn) (looked (looked mm pgn) pgn) once
        (looked-SameMemory (looked mm pgn) pgn once.tables h)

  get_entry_again :
      (pgn : ℕ)
      → pgn < 2 ^ 45
      → get_entry p pgn (with_mm k p pcb (looked mm pgn))
        ≡ some (pte_of mm pgn, with_mm k p pcb (twice pgn))
  unfolding twice
  get_entry_again pgn h =
      get_entry_lem (with_mm k p pcb (looked mm pgn)) p
        (record pcb { own_mm = some (looked mm pgn) }) (looked mm pgn)
        (get_after k p pcb mm here own (looked mm pgn)) refl pgn
      ∙ ap₂ (λ e s. some (u32 e, s)) ((looked-SameMemory mm pgn w h).entries pgn h)
          (with_mm_twice k p pcb mm here own (looked mm pgn) (looked (looked mm pgn) pgn))

  -- In a well-formed table a page below 2 ^ 45 whose entry is present is found in the frame that
  -- its entry names, and no entry, area, register or queued page changes.
  pub pg_getpage_present :
      (junk pgn : ℕ)
      → pgn < 2 ^ 45
      → page_present (pte_of mm pgn) ≡ true
      → (mm' : Mm) × (pg_getpage junk p pgn k
          ≡ some (some (paging_fpn (pte_of mm pgn)), with_mm k p pcb mm'))
        × SameMemory mm mm'
  unfolding pg_getpage
  pg_getpage_present junk pgn h present = (
    twice pgn,
    ground (arith, get_entry_lem k p pcb mm here own pgn, get_entry_again pgn h, present),
    twice-SameMemory pgn h,
  )

module _ (k : Krnl) (p : ℕ) (pcb : Pcb) (mm : Mm) (here : get_elem? k.procs p ≡ some pcb)
    (own : pcb.own_mm ≡ some mm) where
  -- A page below 2 ^ 45 that pte_set_swap has marked in a well-formed table is not brought back:
  -- pg_getpage takes it for present and returns the frame number made of the low 8 bits of the
  -- swap frame's number, with the devices and the queue of victims unchanged.
  pub pg_getpage_swapped :
      (junk pgn off : ℕ) (pgd : Pgd)
      → IsPgd pgd
      → pgn < 2 ^ 45
      → mm.pgd ≡ pte_set_swap pgd pgn 0 off
      → (mm' : Mm) × (pg_getpage junk p pgn k
          ≡ some (some (off % 2 ^ 8 * 2 ^ 5), with_mm k p pcb mm'))
        × SameMemory mm mm'
  pg_getpage_swapped junk pgn off pgd w h swapped =
      let old = entry pgd pgn in
      let fields = swap_entry_fields old 0 off in
      let at : entry mm.pgd pgn ≡ swap_entry old 0 off =
        rw (swapped, pte_set_swap-update pgd pgn 0 off)
          (entry-update_self pgd pgn (λ pte. swap_entry pte 0 off) w) in
      let pte : pte_of mm pgn ≡ swap_entry old 0 off = omega (arith, at, fields) in
      let tables : IsPgd mm.pgd =
        rw (swapped, pte_set_swap-update pgd pgn 0 off)
          (update-IsPgd pgd pgn (λ pte. swap_entry pte 0 off) w) in
      let frame : paging_fpn (pte_of mm pgn) ≡ off % 2 ^ 8 * 2 ^ 5 =
        rw pte (omega (arith, fields)) in
      let (mm', run, same) =
        pg_getpage_present k p pcb mm here own tables junk pgn h (rw pte fields.2) in
      (mm', rw frame at run, same)
