-- ===== src/Flat/Print.antt =====
-- src/mm.c: the printing functions, what each prints and returns. PAGING_PAGE_SWAPPED, which no file
-- defines, is the parameter `page_swapped`. Field widths are left out.
use Prim.Native.String.{String}
use simple_os_simulator.Prelude.{
  ℕ, zero, suc, ◌+◌, ◌-◌, ◌^◌, ◌%◌, ◌≤◌, ◌≡◌, ◌≢◌, ◌&&◌, not, arith, Bool, Option, Option-cases,
  inl, inr, none, some, List, [], ◌∷◌, ◌++◌, Status, success, get_elem?, get_elem?-within, length,
  ◌==◌, if◌then◌else◌,
}
use simple_os_simulator.Pte.{page_present, paging_fpn, paging_swp}
use simple_os_simulator.Mm.{Rg, Vma}
use simple_os_simulator.Print.{Piece, text, number, each}
use simple_os_simulator.Flat.{max_pgn}

-- On one line, ended by NULL.
abbrev chain : {A : Type 0} → String → (A → List Piece) → List A → Status × List Piece
chain heading item xs = (success, text heading ∷ (each item xs ++ text " NULL\n" ∷ []))

unfoldable print_list_fp : List ℕ → Status × List Piece
print_list_fp ifp = chain "print_list_fp:" (λ fpn. text " [fpn=" ∷ number fpn ∷ text "]->" ∷ []) ifp

unfoldable print_list_rg : List Rg → Status × List Piece
print_list_rg irg =
    chain "print_list_rg:"
      (λ rg. text " [rg=" ∷ number rg.rg_start ∷ text "-" ∷ number rg.rg_end ∷ text "]->" ∷ []) irg

unfoldable print_list_vma : List Vma → Status × List Piece
print_list_vma ivma =
    chain "print_list_vma:"
      (λ vma.
        text " [id="
        ∷ number vma.vm_id
        ∷ text " start="
        ∷ number vma.vm_start
        ∷ text " end="
        ∷ number vma.vm_end
        ∷ text " sbrk="
        ∷ number vma.sbrk
        ∷ text "]->"
        ∷ [])
      ivma

unfoldable print_list_pgn : List ℕ → Status × List Piece
print_list_pgn ip = chain "print_list_pgn:" (λ pgn. text " [pgn=" ∷ number pgn ∷ text "]->" ∷ []) ip

module _ (page_swapped : ℕ → Bool) where
  -- A page whose entry is not 0.
  abbrev page_line : ℕ → ℕ → List Piece
  page_line i pte =
      if page_present pte && not (page_swapped pte)
      then text "  page "
        ∷ number i
        ∷ text " -> frame "
        ∷ number (paging_fpn pte)
        ∷ text "  (RAM)\n"
        ∷ []
      else text "  page "
        ∷ number i
        ∷ text " -> swpoff "
        ∷ number (paging_swp pte)
        ∷ text "  (SWAP)\n"
        ∷ []

  -- The loop from `i` on, with so many rounds left; `none` is a read behind the table.
  unfoldable print_entries : List ℕ → ℕ → ℕ → Option (List Piece)
  print_entries pgd zero i = some []
  print_entries pgd (suc n) i = elim (get_elem? pgd i) [
    | none ↦ none
    | some pte ↦ elim (print_entries pgd n (i + 1)) [
      | none ↦ none
      | some rest ↦ some (if pte == 0 then rest else page_line i pte ++ rest)
    ]
  ]

  unfoldable print_pgtbl : List ℕ → ℕ → ℕ → Option (Status × List Piece)
  print_pgtbl pgd start end =
      let last = if end == 2 ^ 32 - 1 then max_pgn else end in
      elim (print_entries pgd (last - start) start) [
        | none ↦ none
        | some lines ↦ some (
          success,
          text "print_pgtbl [page "
              ∷ number start
              ∷ text " .. "
              ∷ number ((last + (2 ^ 64 - 1)) % 2 ^ 64)
              ∷ text "]:\n"
              ∷ lines,
        )
      ]

  print_entries_defined :
      (pgd : List ℕ) (n i : ℕ) → i + n ≤ length pgd → print_entries pgd n i ≢ none
  unfolding print_entries
  print_entries_defined pgd zero i le = ground arith
  print_entries_defined pgd (suc n) i le = elim (Option-cases (get_elem? pgd i)) [
    | inl gone ↦ absurd (get_elem?-within pgd i (omega (arith, le)) gone)
    | inr (pte, here) ↦ elim (Option-cases (print_entries pgd n (i + 1))) [
      | inl gone ↦ absurd (print_entries_defined pgd n (i + 1) (omega (arith, le)) gone)
      | inr (rest, done) ↦ ground (arith, here, done)
    ]
  ]

  -- Printing the whole of a table of 16384 entries reads nothing behind it.
  print_pgtbl_defined :
      (pgd : List ℕ) → length pgd ≡ max_pgn → print_pgtbl pgd 0 (2 ^ 32 - 1) ≢ none
  unfolding print_pgtbl
  print_pgtbl_defined pgd full = elim (Option-cases (print_entries pgd max_pgn 0)) [
    | inl gone ↦ absurd (print_entries_defined pgd max_pgn 0 (omega (arith, full)) gone)
    | inr (lines, done) ↦ ground (arith, done)
  ]
