-- ===== src/Flat/Trace.antt =====
-- Calls of the entry functions that src/mm.c and src/mm64.c both have, as a list, and what the two do.
use simple_os_simulator.Prelude.{ℕ, ◌<◌, Option, none, some, List, [], ◌∷◌}
use simple_os_simulator.PageTable.{Pgd}
use simple_os_simulator.PageTable
use simple_os_simulator.Flat.{pte_set_fpn, pte_set_swap, pte_set_entry, pte_get_entry, max_pgn}

pub data Call : Type 0 where
  set_fpn : (pgn fpn : ℕ) → Call
  set_swap : (pgn swptyp swpoff : ℕ) → Call
  set_entry : (pgn pte_val : ℕ) → Call
  get_entry : (pgn : ℕ) → Call

abbrev pub page : Call → ℕ
page (Call.set_fpn pgn fpn) = pgn
page (Call.set_swap pgn swptyp swpoff) = pgn
page (Call.set_entry pgn pte_val) = pgn
page (Call.get_entry pgn) = pgn

-- The values that the calls of `pte_get_entry` return in src/mm64.c, oldest first, ...
unfoldable pub tree_run : Pgd → List Call → List ℕ
tree_run pgd [] = []
tree_run pgd (Call.set_fpn pgn fpn ∷ calls) = tree_run (PageTable.pte_set_fpn pgd pgn fpn) calls
tree_run pgd (Call.set_swap pgn swptyp swpoff ∷ calls) =
    tree_run (PageTable.pte_set_swap pgd pgn swptyp swpoff) calls
tree_run pgd (Call.set_entry pgn pte_val ∷ calls) =
    tree_run (PageTable.pte_set_entry pgd pgn pte_val) calls
tree_run pgd (Call.get_entry pgn ∷ calls) =
    let (pte, pgd') = PageTable.pte_get_entry pgd pgn in pte ∷ tree_run pgd' calls

-- ... and in src/mm.c.
unfoldable pub flat_run : List ℕ → List Call → Option (List ℕ)
flat_run pgd [] = some []
flat_run pgd (Call.set_fpn pgn fpn ∷ calls) = elim (pte_set_fpn pgd pgn fpn) [
  | none ↦ none
  | some pgd' ↦ flat_run pgd' calls
]
flat_run pgd (Call.set_swap pgn swptyp swpoff ∷ calls) = elim (pte_set_swap pgd pgn swptyp swpoff) [
  | none ↦ none
  | some pgd' ↦ flat_run pgd' calls
]
flat_run pgd (Call.set_entry pgn pte_val ∷ calls) = elim (pte_set_entry pgd pgn pte_val) [
  | none ↦ none
  | some pgd' ↦ flat_run pgd' calls
]
flat_run pgd (Call.get_entry pgn ∷ calls) = elim (pte_get_entry pgd pgn) [
  | none ↦ none
  | some pte ↦ elim (flat_run pgd calls) [ none ↦ none | some ptes ↦ some (pte ∷ ptes) ]
]

abbrev pub AllPages : List Call → Type 0
AllPages [] = Unit
AllPages (c ∷ calls) = (page c < max_pgn) × AllPages calls
