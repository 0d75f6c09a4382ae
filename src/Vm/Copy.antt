-- ===== src/Vm/Copy.antt =====
-- `__swap_cp_page` of src/mm64.c copies a page.
use simple_os_simulator.Prelude.{
  ℕ, zero, suc, ◌+◌, ◌*◌, ◌^◌, ◌≤◌, ◌<◌, ◌≡◌, ◌≢◌, refl, subst, ◌∙◌, ◌⊎◌, arith, Option, some,
  get_or, set, length, length-set, get_elem?-eq-get_or, get_or-set_self, get_or-set_ne,
}
use native.Mathlib.Decide.{ℕ_discrete}
use simple_os_simulator.Memphy.{Memphy, paging_pagesz, read, write, store}
use simple_os_simulator.Vm.{copy_cells, swap_cp_page}

abbrev byte_at : Memphy → ℕ → ℕ
byte_at mp addr = get_or mp.storage addr 0

module _ (junk srcfpn dstfpn : ℕ) (src : Memphy) (random : src.rdmflg ≢ 0)
    (src_fits : srcfpn * paging_pagesz + paging_pagesz ≤ length src.storage)
    (src_small : length src.storage ≤ 2 ^ 64) where
  -- The cells from `lo` on to the end of the page are copied, all else is as it was.
  pub record Copied (lo : ℕ) (dst : Memphy) (r : Option (Memphy × Memphy)) : Type 0 where
    pub out : Memphy
    pub returns : r ≡ some (src, out)
    pub same : out ≡ record dst { storage = out.storage }
    pub same_length : length out.storage ≡ length dst.storage
    pub inside :
        (k : ℕ)
        → lo ≤ k
        → k < paging_pagesz
        → byte_at out (dstfpn * paging_pagesz + k) ≡ byte_at src (srcfpn * paging_pagesz + k)
    pub outside :
        (a : ℕ)
        → (a < dstfpn * paging_pagesz + lo) ⊎ (dstfpn * paging_pagesz + paging_pagesz ≤ a)
        → byte_at out a ≡ byte_at dst a

  copy_step :
      (n cell : ℕ) (dst : Memphy)
      → dst.rdmflg ≢ 0
      → cell < paging_pagesz
      → dstfpn * paging_pagesz + paging_pagesz ≤ length dst.storage
      → length dst.storage ≤ 2 ^ 64
      → copy_cells (suc n) cell junk src srcfpn dst dstfpn
        ≡ copy_cells n
            (suc cell)
            junk
            src
            srcfpn
            (record dst {
              storage =
                  set dst.storage
                    (dstfpn * paging_pagesz + cell)
                    (byte_at src (srcfpn * paging_pagesz + cell));
            })
            dstfpn
  unfolding copy_cells read write store
  copy_step n cell dst h lt fits small =
      ground (arith, get_elem?-eq-get_or src.storage (srcfpn * paging_pagesz + cell) 0)

  copy_cells-Copied :
      (n cell : ℕ) (dst : Memphy)
      → n + cell ≡ paging_pagesz
      → dst.rdmflg ≢ 0
      → dstfpn * paging_pagesz + paging_pagesz ≤ length dst.storage
      → length dst.storage ≤ 2 ^ 64
      → Copied cell dst (copy_cells n cell junk src srcfpn dst dstfpn)
  copy_cells-Copied zero cell dst e h fits small = record {
    out = dst;
    returns = unfold copy_cells in refl;
    same = refl;
    same_length = refl;
    inside = λ k lo hi. absurd (omega arith);
    outside = λ a p. refl;
  }
  copy_cells-Copied (suc n) cell dst e h fits small =
      let at = dstfpn * paging_pagesz + cell in
      let byte = byte_at src (srcfpn * paging_pagesz + cell) in
      let dst1 : Memphy = record dst { storage = set dst.storage at byte } in
      let same = length-set dst.storage at byte in
      let ih =
        copy_cells-Copied n (suc cell) dst1 (omega arith) h (omega (arith, same))
          (omega (arith, same)) in
      rw (copy_step n cell dst h (omega arith) fits small) (record {
        out = ih.out;
        returns = ih.returns;
        same = ih.same;
        same_length = ih.same_length ∙ same;
        inside = λ k lo hi. elim (ℕ_discrete cell k) [
          | yes here ↦
              subst
                (λ j.
                  byte_at ih.out (dstfpn * paging_pagesz + j)
                  ≡ byte_at src (srcfpn * paging_pagesz + j))
                here
                (ih.outside at (omega arith) ∙ get_or-set_self dst.storage at byte 0 (omega arith))
          | no later ↦ ih.inside k (omega arith) hi
        ];
        outside =
            λ a p. ih.outside a (omega arith) ∙ get_or-set_ne dst.storage at a byte 0 (omega arith);
      })

  -- Between two random access devices of at most 2 ^ 64 bytes __swap_cp_page copies the 256 bytes
  -- of a frame within the one to a frame within the other, and changes nothing else of either: the
  -- source is as it was, and of the target only the bytes of that frame differ.
  pub swap_cp_page-Copied :
      (dst : Memphy)
      → dst.rdmflg ≢ 0
      → dstfpn * paging_pagesz + paging_pagesz ≤ length dst.storage
      → length dst.storage ≤ 2 ^ 64
      → Copied 0 dst (swap_cp_page junk src srcfpn dst dstfpn)
  unfolding swap_cp_page
  swap_cp_page-Copied dst h fits small = copy_cells-Copied paging_pagesz 0 dst refl h fits small
