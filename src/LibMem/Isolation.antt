-- ===== src/LibMem/Isolation.antt =====
-- What the functions of src/libmem.c touch of the processes that do not call.
use simple_os_simulator.Prelude.{
  ℕ, ◌≡◌, length, subst, arith, Option-cases, inl, inr, get_elem?, success,
}
use native.Mathlib.Decide.{ℕ_discrete}
use simple_os_simulator.Memphy.{get_freefp, put_freefp}
use simple_os_simulator.Pte.{page_present}
use simple_os_simulator.Mm.{Rg, Vma}
use simple_os_simulator.Vm.{swap_cp_page, get_vma_by_num}
use simple_os_simulator.Krnl.Confined.{
  Touches, Touches-refl, Touches-devices, Confined, Confined-ret, Confined-fault, Confined-bind,
  Confined-then, Confined-if, Confined-option, Confined-status, Confined-get_own_mm,
  Confined-get_mm, Confined-put_mm,
}
use simple_os_simulator.Syscall.Isolation.{Confined-call}
use simple_os_simulator.LibMem.{
  store_symrg, save_leftover, alloc_grow, alloc, free, get_symrg_byid, get_entry, take_victim,
  take_swap_frame, swap_in, replace, bring_in, pg_getpage, pg_getval, pg_setval, get_krnl_mm, read,
  write, liballoc, libfree, libread, libwrite,
}

store_symrg-Confined : (p rgid : ℕ) (rg : Rg) → Confined p (store_symrg p rgid rg)
unfolding store_symrg
store_symrg-Confined p rgid rg =
    Confined-bind p _ _ (Confined-get_mm p p)
      λ mm. Confined-option p _ _ _ (Confined-fault p) λ _. Confined-put_mm p _

save_leftover-Confined : (p old_sbrk size a3 : ℕ) → Confined p (save_leftover p old_sbrk size a3)
unfolding save_leftover
save_leftover-Confined p old_sbrk size a3 =
    Confined-if p _ _ _ (Confined-bind p _ _ (Confined-get_mm p p) λ mm. Confined-put_mm p _)
      (Confined-ret p tt)

alloc_grow-Confined :
    (p junk vmaid rgid size : ℕ) (vma : Vma) → Confined p (alloc_grow junk p vmaid rgid size vma)
unfolding alloc_grow
alloc_grow-Confined p junk vmaid rgid size vma = Confined-call p junk 17 _ _ λ r.
    Confined-then p _ _ (store_symrg-Confined p rgid _)
      (Confined-then p _ _ (save_leftover-Confined p _ size _) (Confined-ret p _))

alloc-Confined :
    (p junk : ℕ) (newrg : Rg) (addr vmaid rgid size : ℕ)
    → Confined p (alloc junk newrg addr p vmaid rgid size)
unfolding alloc
alloc-Confined p junk newrg addr vmaid rgid size =
    Confined-bind p _ _ (Confined-get_own_mm p p) λ own.
      Confined-option p own _ _ (Confined-ret p _) λ mm.
        Confined-option p _ _ _ (Confined-ret p _) λ found.
          Confined-then p _ _ (Confined-put_mm p _) (
            Confined-status p _ _ _
              (Confined-then p _ _ (store_symrg-Confined p rgid _) (Confined-ret p _))
              (alloc_grow-Confined p junk vmaid rgid size _))

free-Confined : (p rgid : ℕ) → Confined p (free p rgid)
unfolding free
free-Confined p rgid = Confined-bind p _ _ (Confined-get_own_mm p p) λ own.
    Confined-option p (get_symrg_byid rgid) _ _ (Confined-ret p _) λ i.
      Confined-option p own _ _ (Confined-ret p _) λ mm.
        Confined-option p (get_elem? mm.symrgtbl i) _ _ (Confined-fault p) λ rg.
          Confined-if p _ _ _ (Confined-ret p _)
            (Confined-then p _ _ (Confined-put_mm p _) (Confined-ret p _))

get_entry-Confined : (p pgn : ℕ) → Confined p (get_entry p pgn)
unfolding get_entry
get_entry-Confined p pgn =
    Confined-bind p _ _ (Confined-get_mm p p)
      λ mm. Confined-then p _ _ (Confined-put_mm p _) (Confined-ret p _)

take_victim-Confined : (p : ℕ) → Confined p (take_victim p)
unfolding take_victim
take_victim-Confined p =
    Confined-bind p _ _ (Confined-get_mm p p)
      λ mm. Confined-then p _ _ (Confined-put_mm p _) (Confined-ret p _)

take_swap_frame-Confined : (p : ℕ) → Confined p take_swap_frame
unfolding take_swap_frame
take_swap_frame-Confined p = record {
  at = λ k a k' own e.
      subst (Touches p k) (ground (arith, e))
        (Touches-devices p k k.mram (get_freefp k.active_mswp).1);
}

swap_in-Confined : (p junk tgtswpfpn vicfpn : ℕ) → Confined p (swap_in junk tgtswpfpn vicfpn)
unfolding swap_in
swap_in-Confined p junk tgtswpfpn vicfpn = record {
  at = λ k a k' own e.
      elim (Option-cases (swap_cp_page junk k.active_mswp tgtswpfpn k.mram vicfpn)) [
        | inl h ↦ absurd (ground (arith, e, h))
        | inr ((mswp, mram), h) ↦
            subst (Touches p k) (ground (arith, e, h))
              (Touches-devices p k mram (put_freefp mswp tgtswpfpn))
      ];
}

replace-Confined :
    (p junk pgn pte vicpgn swpfpn : ℕ) → Confined p (replace junk p pgn pte vicpgn swpfpn)
unfolding replace
replace-Confined p junk pgn pte vicpgn swpfpn =
    Confined-bind p _ _ (get_entry-Confined p vicpgn) λ vicpte. Confined-call p junk 17 _ _ λ r.
      Confined-bind p _ _ (Confined-get_mm p p) λ mm. Confined-then p _ _ (Confined-put_mm p _) (
        Confined-then p _ _ (Confined-if p _ _ _ (Confined-ret p tt) (swap_in-Confined p junk _ _))
          (Confined-bind p _ _ (Confined-get_mm p p)
            λ mm'. Confined-then p _ _ (Confined-put_mm p _) (Confined-ret p _)))

bring_in-Confined : (p junk pgn pte : ℕ) → Confined p (bring_in junk p pgn pte)
unfolding bring_in
bring_in-Confined p junk pgn pte = Confined-bind p _ _ (take_victim-Confined p) λ victim.
    Confined-option p victim _ _ (Confined-ret p _) λ vicpgn.
      Confined-bind p _ _ (take_swap_frame-Confined p) λ slot.
        Confined-option p slot _ _ (Confined-ret p _)
          λ swpfpn. replace-Confined p junk pgn pte vicpgn swpfpn

pg_getpage-Confined : (p junk pgn : ℕ) → Confined p (pg_getpage junk p pgn)
unfolding pg_getpage
pg_getpage-Confined p junk pgn = Confined-bind p _ _ (get_entry-Confined p pgn) λ pte.
    Confined-bind p _ _
      (Confined-if p (page_present pte) _ _ (Confined-ret p success)
        (bring_in-Confined p junk pgn pte))
      λ stat.
        Confined-status p stat _ _
          (Confined-bind p _ _ (get_entry-Confined p pgn) λ now. Confined-ret p _)
          (Confined-ret p _)

pg_getval-Confined :
    (p junk data_ptr addr byte : ℕ) → Confined p (pg_getval junk data_ptr p addr byte)
unfolding pg_getval
pg_getval-Confined p junk data_ptr addr byte =
    Confined-bind p _ _ (pg_getpage-Confined p junk _) λ page.
      Confined-option p page _ _ (Confined-ret p _)
        λ fpn. Confined-call p junk 17 _ _ λ r. Confined-ret p _

pg_setval-Confined : (p junk addr value : ℕ) → Confined p (pg_setval junk p addr value)
unfolding pg_setval
pg_setval-Confined p junk addr value = Confined-bind p _ _ (pg_getpage-Confined p junk _) λ page.
    Confined-option p page _ _ (Confined-ret p _)
      λ fpn. Confined-call p junk 17 _ _ λ r. Confined-ret p _

get_krnl_mm-Confined : (p : ℕ) → Confined p get_krnl_mm
unfolding get_krnl_mm
get_krnl_mm-Confined p = record {
  at = λ k a k' own e. elim (Option-cases k.mm) [
    | inl h ↦ absurd (ground (arith, e, h))
    | inr (c, h) ↦ elim (ℕ_discrete c (length k.procs)) [
      | no old ↦ (Confined-get_mm p c).at k a k' own (ground (arith, e, h, old))
      | yes new ↦ elim (Option-cases k.fresh) [
        | inl gone ↦ absurd (ground (arith, e, h, new, gone))
        | inr (mm, made) ↦
            let same : k ≡ k' = ground (arith, e, h, new, made) in
            subst (Touches p k) same (Touches-refl p k)
      ]
    ]
  ];
}

read-Confined :
    (p junk data_ptr rgid offset byte : ℕ) → Confined p (read junk data_ptr p rgid offset byte)
unfolding read
read-Confined p junk data_ptr rgid offset byte =
    Confined-bind p _ _ (Confined-get_own_mm p p) λ own.
      Confined-option p own _ _ (Confined-ret p _) λ mm.
        Confined-option p (get_symrg_byid rgid) _ _ (Confined-ret p _) λ i.
          Confined-bind p _ _ (get_krnl_mm-Confined p) λ mm'.
            Confined-option p (get_elem? mm'.symrgtbl i) _ _ (Confined-fault p) λ rg.
              Confined-bind p _ _ (pg_getval-Confined p junk data_ptr _ byte) λ r. Confined-ret p _

write-Confined :
    (p junk vmaid rgid offset value : ℕ) → Confined p (write junk p vmaid rgid offset value)
unfolding write
write-Confined p junk vmaid rgid offset value = Confined-bind p _ _ (Confined-get_own_mm p p) λ own.
    Confined-option p own _ _ (Confined-ret p _) λ mm.
      Confined-option p (get_symrg_byid rgid) _ _ (Confined-ret p _) λ i.
        Confined-option p (get_vma_by_num mm.mmap vmaid) _ _ (Confined-ret p _) λ area.
          Confined-option p (get_elem? mm.symrgtbl i) _ _ (Confined-fault p)
            λ rg. Confined-bind p _ _ (pg_setval-Confined p junk _ _) λ r. Confined-ret p _

pub liballoc-Confined :
    (p junk : ℕ) (newrg : Rg) (addr size reg_index : ℕ)
    → Confined p (liballoc junk newrg addr p size reg_index)
unfolding liballoc
liballoc-Confined p junk newrg addr size reg_index =
    Confined-bind p _ _ (alloc-Confined p junk newrg addr 0 reg_index size) λ r. Confined-ret p _

pub libfree-Confined : (p reg_index : ℕ) → Confined p (libfree p reg_index)
unfolding libfree
libfree-Confined = free-Confined

pub libread-Confined :
    (p junk data_ptr byte source offset : ℕ)
    → Confined p (libread junk data_ptr byte p source offset)
unfolding libread
libread-Confined p junk data_ptr byte source offset =
    read-Confined p junk data_ptr source offset byte

pub libwrite-Confined :
    (p junk byte destination offset : ℕ) → Confined p (libwrite junk p byte destination offset)
unfolding libwrite
libwrite-Confined p junk byte destination offset = write-Confined p junk 0 destination offset byte
