-- ===== src/Flat/Equivalence.antt =====
-- The array of src/mm.c against the five levels of src/mm64.c.
use simple_os_simulator.Prelude.{
  ℕ, zero, suc, ◌*◌, ◌/◌, ◌%◌, ◌<◌, ◌≡◌, refl, ap, subst, sym, ◌∙◌, arith, Option, none, some, List,
  [], ◌∷◌, get_elem?, set, get_elem?-set_self, get_elem?-set_ne, length, length-set,
  length-replicate, replicate, bit_and, bit_or,
}
use simple_os_simulator.Prelude.Bits.{bit_and_ones, bit_and_split, bit_and-zero}
use simple_os_simulator.Prelude.Word.{u32, u64}
use native.Mathlib.Decide.{ℕ_discrete}
use simple_os_simulator.Pte.{
  setbit, clrbit, present_mask, swapped_mask, swap_entry, fpn_entry, swptyp_mask,
}
use simple_os_simulator.PageTable.{Pgd, get_pte, calloc_table}
use simple_os_simulator.PageTable.Laws.{
  IsPgd, entry, update, update-IsPgd, entry-update_self, entry-update_ne, get_pte_silent,
  pte_set_fpn-update, pte_set_swap-update, pte_set_entry-update, pte_get_entry_lem, calloc-IsPgd,
  entry-calloc,
}
use simple_os_simulator.Mm
use simple_os_simulator.Flat.{
  init_mm, max_pgn, swap_word, fpn_word, at, pte_set_fpn, pte_set_swap, pte_set_entry,
  pte_get_entry,
}
use simple_os_simulator.Flat.Trace.{Call, tree_run, flat_run, AllPages}

-- The fields of an entry read the same bits of a shifted word of 32 or 64 bits.
frame_bits : (v : ℕ) → bit_and (u32 v) 8191 ≡ bit_and (u64 v) 8191
frame_bits v = omega (arith, bit_and_ones 13 (u32 v), bit_and_ones 13 (u64 v))

type_bits : (v : ℕ) → bit_and (u32 v) 31 ≡ bit_and (u64 v) 31
type_bits v = omega (arith, bit_and_ones 5 (u32 v), bit_and_ones 5 (u64 v))

offset_bits : (v : ℕ) → bit_and (u32 v) 67108832 ≡ bit_and (u64 v) 67108832
offset_bits v = omega (
  arith,
  bit_and_split 5 (u32 v) 2097151 0 (omega arith),
  bit_and_split 5 (u64 v) 2097151 0 (omega arith),
  bit_and_ones 21 (u32 v / 32),
  bit_and_ones 21 (u64 v / 32),
  bit_and-zero (u32 v % 32),
  bit_and-zero (u64 v % 32),
)

fpn_word_lem : (pte fpn : ℕ) → fpn_word pte fpn ≡ fpn_entry pte fpn
unfolding fpn_entry
fpn_word_lem pte fpn = ap (bit_or _) (frame_bits (fpn * 1))

swap_word_lem : (pte swptyp swpoff : ℕ) → swap_word pte swptyp swpoff ≡ swap_entry pte swptyp swpoff
unfolding swap_entry
swap_word_lem pte swptyp swpoff =
    let kept = clrbit (setbit (setbit pte present_mask) swapped_mask) swptyp_mask in
    ap (λ t. bit_or (bit_and (bit_or kept t) 4227858463) (bit_and (u32 (swpoff * 32)) 67108832))
      (type_bits (swptyp * 1))
    ∙ ap (bit_or _) (offset_bits (swpoff * 32))

-- The array and the five levels hold the same entries.
record IsSame (flat : List ℕ) (pgd : Pgd) : Type 0 where
  full : length flat ≡ max_pgn
  table : IsPgd pgd
  entries : (n : ℕ) → n < max_pgn → get_elem? flat n ≡ some (entry pgd n)

update-IsSame :
    (flat : List ℕ) (pgd : Pgd) (m : ℕ) (f : ℕ → ℕ)
    → m < max_pgn
    → IsSame flat pgd
    → IsSame (set flat m (f (entry pgd m))) (update pgd m f)
update-IsSame flat pgd m f small same = record {
  full = length-set flat m _ ∙ same.full;
  table = update-IsPgd pgd m f same.table;
  entries = λ n lt. elim (ℕ_discrete m n) [
    | yes e ↦
        subst (λ k. get_elem? (set flat m (f (entry pgd m))) k ≡ some (entry (update pgd m f) k)) e
          (get_elem?-set_self flat m _ (omega (arith, same.full, small))
            ∙ ap some (sym (entry-update_self pgd m f same.table)))
    | no ne ↦
        get_elem?-set_ne flat m n _ ne
        ∙ same.entries n lt
        ∙ ap some (
            sym
              (entry-update_ne pgd m f same.table n (omega (arith, small)) (omega (arith, lt)) ne))
  ];
}

-- A change of the array's word that is the change of the entry.
at_same :
    (flat : List ℕ) (pgd : Pgd) (m : ℕ) (f g : ℕ → ℕ)
    → m < max_pgn
    → IsSame flat pgd
    → ((pte : ℕ) → f pte ≡ g pte)
    → at flat m f ≡ some (set flat m (g (entry pgd m)))
at_same flat pgd m f g small same agree = ground (arith, same.entries m small, agree (entry pgd m))

get_pte-IsSame :
    (flat : List ℕ) (pgd : Pgd) (m : ℕ)
    → m < max_pgn
    → IsSame flat pgd
    → IsSame flat (get_pte pgd m)
get_pte-IsSame flat pgd m small same = record {
  full = same.full;
  table = (get_pte_silent pgd m 0 same.table (omega (arith, small)) (omega arith)).1;
  entries = λ n lt.
      same.entries n lt
      ∙ ap some
          (sym (get_pte_silent pgd m n same.table (omega (arith, small)) (omega (arith, lt))).0);
}

-- Equal arrays go on equally.
then_run :
    (o : Option (List ℕ)) (flat : List ℕ) (calls : List Call) (r : Option (List ℕ))
    → o ≡ some flat
    → flat_run flat calls ≡ r
    → (elim o [ none ↦ none | some pgd ↦ flat_run pgd calls ]) ≡ r
then_run o flat calls r e h = rw (e) h

then_read :
    (o : Option ℕ) (r : Option (List ℕ)) (pte : ℕ) (ptes : List ℕ)
    → o ≡ some pte
    → r ≡ some ptes
    → (elim o [ none ↦ none | some p ↦ elim r [ none ↦ none | some ps ↦ some (p ∷ ps) ] ])
      ≡ some (pte ∷ ptes)
then_read o r pte ptes e h = rw (e, h) refl

runs_agree :
    (calls : List Call) (flat : List ℕ) (pgd : Pgd)
    → IsSame flat pgd
    → AllPages calls
    → flat_run flat calls ≡ some (tree_run pgd calls)
unfolding flat_run tree_run pte_set_fpn pte_set_swap pte_set_entry pte_get_entry
runs_agree [] flat pgd same all = refl
runs_agree (Call.set_fpn pgn fpn ∷ calls) flat pgd same (small, all) =
    then_run _ _ calls _
      (at_same flat pgd pgn _ (λ pte. fpn_entry pte fpn) small same (λ pte. fpn_word_lem pte fpn))
      (rw (pte_set_fpn-update pgd pgn fpn)
        (runs_agree calls _ _ (update-IsSame flat pgd pgn _ small same) all))
runs_agree (Call.set_swap pgn swptyp swpoff ∷ calls) flat pgd same (small, all) =
    then_run _ _ calls _
      (at_same flat pgd pgn _ (λ pte. swap_entry pte swptyp swpoff) small same
        (λ pte. swap_word_lem pte swptyp swpoff))
      (rw (pte_set_swap-update pgd pgn swptyp swpoff)
        (runs_agree calls _ _ (update-IsSame flat pgd pgn _ small same) all))
runs_agree (Call.set_entry pgn pte_val ∷ calls) flat pgd same (small, all) =
    then_run _ _ calls _ (at_same flat pgd pgn _ (λ _. u32 pte_val) small same (λ pte. refl)) (
      rw (pte_set_entry-update pgd pgn pte_val)
        (runs_agree calls _ _ (update-IsSame flat pgd pgn _ small same) all))
runs_agree (Call.get_entry pgn ∷ calls) flat pgd same (small, all) =
    let rest =
      runs_agree calls flat (get_pte pgd pgn) (get_pte-IsSame flat pgd pgn small same) all in
    let here : pte_get_entry flat pgn ≡ some (u32 (entry pgd pgn)) =
      ground (arith, same.entries pgn small) in
    rw (pte_get_entry_lem pgd pgn)
      (then_read _ _ (u32 (entry pgd pgn)) (tree_run (get_pte pgd pgn) calls) here rest)

get_elem?-replicate : (n i a : ℕ) → i < n → get_elem? (replicate n a) i ≡ some a
get_elem?-replicate zero i a h = absurd (omega (arith, h))
get_elem?-replicate (suc n) zero a h = refl
get_elem?-replicate (suc n) (suc i) a h = get_elem?-replicate n i a (omega (arith, h))

start-IsSame : IsSame (replicate max_pgn 0) calloc_table
start-IsSame = record {
  full = length-replicate {A = ℕ} max_pgn 0;
  table = calloc-IsPgd;
  entries = λ n lt. get_elem?-replicate max_pgn n 0 lt ∙ ap some (sym (entry-calloc n));
}

-- From the table that init_mm makes, every sequence of calls of pte_set_fpn, pte_set_swap,
-- pte_set_entry and pte_get_entry on pages below 2 ^ 14 stays within the array of src/mm.c, and
-- its reads return the same words as those of the five-level table of src/mm64.c.
pub flat_run-tree_run :
    (calls : List Call)
    → AllPages calls
    → flat_run init_mm.pgd calls ≡ some (tree_run (Mm.init_mm []).pgd calls)
unfolding init_mm Mm.init_mm
flat_run-tree_run calls all = runs_agree calls (replicate max_pgn 0) calloc_table start-IsSame all
