-- ===== src/Print.antt =====
-- The printing functions of src/mm64.c: what each prints and returns. `print_pgtbl` prints addresses that
-- `malloc` chose and is left out.
use Prim.Native.String.{String}
use mathlib.Core.List.{append-nil}
use simple_os_simulator.Prelude.{
  ℕ, ◌≡◌, refl, ap, ◌∙◌, List, [], ◌∷◌, ◌++◌, Status, success, failure,
}
use simple_os_simulator.Mm.{Rg, Vma}

-- A piece of output: text of a format, or a converted number.
pub data Piece : Type 0 where
  text : String → Piece
  number : ℕ → Piece

-- The loops of the functions, over what is printed for an element.
abbrev pub each : {A B : Type 0} → (A → List B) → List A → List B
each item [] = []
each item (x ∷ xs) = item x ++ each item xs

-- A heading, then the elements in lines of their own; -1 where there are none.
abbrev print_list : {A : Type 0} → String → (A → List Piece) → List A → Status × List Piece
print_list heading item [] = (failure, text heading ∷ text "NULL list\n" ∷ [])
print_list heading item (x ∷ xs) =
    (success, text heading ∷ text "\n" ∷ (each item (x ∷ xs) ++ text "\n" ∷ []))

abbrev frame_line : ℕ → List Piece
frame_line fpn = text "fp[" ∷ number fpn ∷ text "]\n" ∷ []

abbrev rg_line : Rg → List Piece
rg_line rg = text "rg[" ∷ number rg.rg_start ∷ text "->" ∷ number rg.rg_end ∷ text "]\n" ∷ []

abbrev vma_line : Vma → List Piece
vma_line vma = text "va[" ∷ number vma.vm_start ∷ text "->" ∷ number vma.vm_end ∷ text "]\n" ∷ []

abbrev pgn_line : ℕ → List Piece
pgn_line pgn = text "va[" ∷ number pgn ∷ text "]-\n" ∷ []

unfoldable print_list_fp : List ℕ → Status × List Piece
print_list_fp ifp = print_list "print_list_fp: " frame_line ifp

unfoldable print_list_rg : List Rg → Status × List Piece
print_list_rg irg = print_list "print_list_rg: " rg_line irg

unfoldable print_list_vma : List Vma → Status × List Piece
print_list_vma ivma = print_list "print_list_vma: " vma_line ivma

unfoldable print_list_pgn : List ℕ → Status × List Piece
print_list_pgn ip = print_list "print_list_pgn: " pgn_line ip

-- The numbers of an output.
abbrev numbers_of : List Piece → List ℕ
numbers_of [] = []
numbers_of (text t ∷ ps) = numbers_of ps
numbers_of (number n ∷ ps) = n ∷ numbers_of ps

numbers_of-append : (ps qs : List Piece) → numbers_of (ps ++ qs) ≡ numbers_of ps ++ numbers_of qs
numbers_of-append [] qs = refl
numbers_of-append (text t ∷ ps) qs = numbers_of-append ps qs
numbers_of-append (number n ∷ ps) qs = ap (λ ns. n ∷ ns) (numbers_of-append ps qs)

numbers_of-each :
    {A : Type 0} (item : A → List Piece) (xs : List A)
    → numbers_of (each item xs) ≡ each (λ x. numbers_of (item x)) xs
numbers_of-each item [] = refl
numbers_of-each item (x ∷ xs) =
    numbers_of-append (item x) (each item xs)
    ∙ ap (λ ns. numbers_of (item x) ++ ns) (numbers_of-each item xs)

numbers_of-print_list :
    {A : Type 0} (heading : String) (item : A → List Piece) (xs : List A)
    → numbers_of (print_list heading item xs).1 ≡ each (λ x. numbers_of (item x)) xs
numbers_of-print_list heading item [] = refl
numbers_of-print_list heading item (x ∷ xs) =
    numbers_of-append (each item (x ∷ xs)) (text "\n" ∷ [])
    ∙ append-nil (numbers_of (each item (x ∷ xs)))
    ∙ numbers_of-each item (x ∷ xs)

-- The lists of frames and pages are printed whole and in order.
printed_frames : (fpns : List ℕ) → numbers_of (print_list_fp fpns).1 ≡ each (λ fpn. fpn ∷ []) fpns
unfolding print_list_fp
printed_frames fpns = numbers_of-print_list _ frame_line fpns

printed_pages : (pgns : List ℕ) → numbers_of (print_list_pgn pgns).1 ≡ each (λ pgn. pgn ∷ []) pgns
unfolding print_list_pgn
printed_pages pgns = numbers_of-print_list _ pgn_line pgns

printed_regions :
    (rgs : List Rg)
    → numbers_of (print_list_rg rgs).1 ≡ each (λ rg. rg.rg_start ∷ rg.rg_end ∷ []) rgs
unfolding print_list_rg
printed_regions rgs = numbers_of-print_list _ rg_line rgs

printed_areas :
    (vmas : List Vma)
    → numbers_of (print_list_vma vmas).1 ≡ each (λ v. v.vm_start ∷ v.vm_end ∷ []) vmas
unfolding print_list_vma
printed_areas vmas = numbers_of-print_list _ vma_line vmas
