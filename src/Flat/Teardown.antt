-- ===== src/Flat/Teardown.antt =====
-- src/libmem.c: `free_pcb_memph`, in the build without MM64. Nothing calls it. In the build with MM64 the
-- table has 512 pointers, and the loop over PAGING_MAX_PGN entries runs past its end.
use simple_os_simulator.Prelude.{
  ℕ, zero, suc, ◌+◌, ◌<◌, ◌≡◌, refl, ap, ap₂, subst, sym, ◌∙◌, inl, inr, arith, Bool, Bool-cases,
  true, Option, none, some, List, [], ◌∷◌, ◌++◌, length, get_elem?, Status, success, failure,
  if◌then◌else◌,
}
use mathlib.Core.List.{append_assoc}
use simple_os_simulator.Pte.{page_present, paging_fpn, paging_swp}
use simple_os_simulator.Memphy.{put_freefp}
use simple_os_simulator.Flat.{max_pgn}
use simple_os_simulator.Flat.Access.{FlatKrnl}

-- The body of the loop, for one entry.
abbrev free_entry : ℕ → FlatKrnl → FlatKrnl
free_entry pte k =
    if page_present pte
    then record k { mram = put_freefp k.mram (paging_fpn pte) }
    else record k { mswp = put_freefp k.mswp (paging_swp pte) }

-- The loop from `pagenum` on, with so many rounds left.
unfoldable pub free_entries : ℕ → ℕ → FlatKrnl → Option FlatKrnl
free_entries zero pagenum k = some k
free_entries (suc n) pagenum k = elim (get_elem? k.mm.pgd pagenum) [
  | none ↦ none
  | some pte ↦ free_entries n (pagenum + 1) (free_entry pte k)
]

-- `own_mm` is NULL, or the `mm` of the state.
unfoldable pub free_pcb_memph : Bool → FlatKrnl → Option (Status × FlatKrnl)
free_pcb_memph own_mm k =
    if own_mm
    then elim (free_entries max_pgn 0 k) [ none ↦ none | some k' ↦ some (success, k') ]
    else some (failure, k)

-- The frame numbers that go to the RAM, and to the swap device: of the last page first.
abbrev pub ram_frames : List ℕ → List ℕ
ram_frames [] = []
ram_frames (pte ∷ pgd) = ram_frames pgd ++ (if page_present pte then paging_fpn pte ∷ [] else [])

abbrev pub swap_frames : List ℕ → List ℕ
swap_frames [] = []
swap_frames (pte ∷ pgd) = swap_frames pgd ++ (if page_present pte then [] else paging_swp pte ∷ [])

-- The state with these numbers in front of its free lists.
abbrev pub freed : List ℕ → List ℕ → FlatKrnl → FlatKrnl
freed ram swap k = record k {
  mram = record k.mram { free_fp_list = ram ++ k.mram.free_fp_list };
  mswp = record k.mswp { free_fp_list = swap ++ k.mswp.free_fp_list };
}

-- One entry after those of `pgd`.
freed-free_entry :
    (pte : ℕ) (pgd : List ℕ) (k : FlatKrnl)
    → freed (ram_frames pgd) (swap_frames pgd) (free_entry pte k)
      ≡ freed (ram_frames (pte ∷ pgd)) (swap_frames (pte ∷ pgd)) k
unfolding put_freefp
freed-free_entry pte pgd k =
    let Lists : List ℕ → List ℕ → FlatKrnl = λ a b. record k {
      mram = record k.mram { free_fp_list = a };
      mswp = record k.mswp { free_fp_list = b };
    } in
    let joined : (xs ys zs : List ℕ) → xs ++ (ys ++ zs) ≡ (xs ++ ys) ++ zs =
      λ xs ys zs. sym (append_assoc xs ys zs) in
    elim (Bool-cases (page_present pte)) [
      | inl on ↦ rw on (ap₂ Lists (joined (ram_frames pgd) _ _) (joined (swap_frames pgd) [] _))
      | inr off ↦ rw off (ap₂ Lists (joined (ram_frames pgd) [] _) (joined (swap_frames pgd) _ _))
    ]

-- The loop over the rest of the table.
free_entries-lists :
    (pgd : List ℕ) (pagenum : ℕ) (k : FlatKrnl)
    → ((j : ℕ) → j < length pgd → get_elem? k.mm.pgd (pagenum + j) ≡ get_elem? pgd j)
    → free_entries (length pgd) pagenum k ≡ some (freed (ram_frames pgd) (swap_frames pgd) k)
unfolding free_entries
free_entries-lists [] pagenum k rest = refl
free_entries-lists (pte ∷ pgd) pagenum k rest =
    let here : get_elem? k.mm.pgd pagenum ≡ some pte =
      ap (get_elem? k.mm.pgd) (omega arith) ∙ rest 0 (omega arith) in
    let same : (free_entry pte k).mm ≡ k.mm = elim (Bool-cases (page_present pte)) [
      | inl on ↦ rw on refl
      | inr off ↦ rw off refl
    ] in
    let loop = free_entries-lists pgd (pagenum + 1) (free_entry pte k) (λ j lt.
      ap₂ get_elem? (ap (λ mm. mm.pgd) same) (omega arith) ∙ rest (suc j) (omega (arith, lt))) in
    rw (free_entries, here) (loop ∙ ap some (freed-free_entry pte pgd k))

-- With a table of 16384 entries free_pcb_memph returns 0 and puts, for each entry and the last one
-- first, the frame number onto the free list of the RAM if the entry is marked present, and the
-- swap offset onto that of the swap device if it is not, also where the page was never mapped;
-- nothing else changes.
pub free_pcb_memph-lists :
    (k : FlatKrnl)
    → length k.mm.pgd ≡ max_pgn
    → free_pcb_memph true k ≡ some (success, freed (ram_frames k.mm.pgd) (swap_frames k.mm.pgd) k)
unfolding free_pcb_memph
free_pcb_memph-lists k full =
    let all = freed (ram_frames k.mm.pgd) (swap_frames k.mm.pgd) k in
    let loop : free_entries max_pgn 0 k ≡ some all =
      subst (λ n. free_entries n 0 k ≡ some all) full
        (free_entries-lists k.mm.pgd 0 k (λ j lt. ap (get_elem? k.mm.pgd) (omega arith))) in
    rw loop refl
