-- ===== src/PageTable/Laws.antt =====
-- What the five-level table of src/mm64.c promises: an array of entries, one for each page number
-- below 2 ^ 45.
use simple_os_simulator.Prelude.{
  ℕ, ◌+◌, ◌*◌, ◌%◌, ◌^◌, ◌<◌, ◌≡◌, ◌≢◌, refl, ap, subst, arith, true, ◌∙◌, Option, none, some,
  get_or, get_or-replicate,
}
use native.Mathlib.Decide.{ℕ_discrete}
use simple_os_simulator.Prelude.Word.{u32}
use simple_os_simulator.Pte.{fpn_entry, swap_entry, page_present, paging_fpn, paging_swp}
use simple_os_simulator.PageTable.{
  pgtbl_entries, entry_or, Pgd, P4d, Pud, Pmd, Path5, get_pd_from_pagenum, calloc_pt, calloc_table,
  walk, peek, get_pte, pte_get_entry, pte_set_entry, pte_set_swap, pte_set_fpn,
}
use simple_os_simulator.Pte.Fields.{fpn_entry_fields, swap_entry_fields}
use simple_os_simulator.PageTable.Index.{get_pd_from_pagenum_digits}
use simple_os_simulator.PageTable.Lens.{
  Lens, InTable, InLevel, IsPt, IsTable, IsPt-Lens, get_pt, put_pt, get_level, put_level,
  IsTable-Lens, calloc-IsTable,
}

-- Every table of the tree has 512 entries.
abbrev IsPmd : Pmd → Type 0
IsPmd = IsTable calloc_pt IsPt

abbrev IsPud : Pud → Type 0
IsPud = IsTable calloc_table IsPmd

abbrev IsP4d : P4d → Type 0
IsP4d = IsTable calloc_table IsPud

abbrev pub IsPgd : Pgd → Type 0
IsPgd = IsTable calloc_table IsP4d

abbrev Place : Type 0
Place = ℕ × (ℕ × (ℕ × (ℕ × ℕ)))

place : Path5 → Place
place d = (d.pgd, (d.p4d, (d.pud, (d.pmd, d.pt))))

abbrev InPgd : Place → Type 0
InPgd = InLevel (InLevel (InLevel (InLevel InTable)))

abbrev get_pgd : Pgd → Place → ℕ
get_pgd =
    get_level calloc_table
      (get_level calloc_table (get_level calloc_table (get_level calloc_pt get_pt)))

abbrev put_pgd : Pgd → Place → (ℕ → ℕ) → Pgd
put_pgd =
    put_level calloc_table
      (put_level calloc_table (put_level calloc_table (put_level calloc_pt put_pt)))

IsPgd-Lens : Lens IsPgd InPgd get_pgd put_pgd
IsPgd-Lens =
    IsTable-Lens calloc_table
      (IsTable-Lens calloc_table (IsTable-Lens calloc_table (IsTable-Lens calloc_pt IsPt-Lens)))

-- `init_mm` allocates an empty table that is well formed.
pub calloc-IsPgd : IsPgd calloc_table
calloc-IsPgd =
    let pmd : IsPmd calloc_table = calloc-IsTable calloc_pt IsPt refl in
    let pud : IsPud calloc_table = calloc-IsTable {A = Pmd} calloc_table IsPmd pmd in
    let p4d : IsP4d calloc_table = calloc-IsTable {A = Pud} calloc_table IsPud pud in
    calloc-IsTable {A = P4d} calloc_table IsP4d p4d

-- The entry of a page number.
unfoldable pub entry : Pgd → ℕ → ℕ
entry pgd pgn = peek pgd (get_pd_from_pagenum pgn)

entry_or-calloc : {A : Type 0} (fresh : A) (i : ℕ) → entry_or fresh (calloc_table {A = A}) i ≡ fresh
entry_or-calloc {A} fresh i =
    ap (λ c. elim c [ none ↦ fresh | some child ↦ child ])
      (get_or-replicate {A = Option A} pgtbl_entries i none)

-- A fresh table has no entry.
pub entry-calloc : (pgn : ℕ) → entry calloc_table pgn ≡ 0
unfolding entry peek
entry-calloc pgn =
    let d = get_pd_from_pagenum pgn in
    ap
      (λ t.
        get_or
          (entry_or calloc_pt (entry_or calloc_table (entry_or calloc_table t d.p4d) d.pud) d.pmd)
          d.pt 0)
      (entry_or-calloc calloc_table d.pgd)
    ∙ ap (λ t. get_or (entry_or calloc_pt (entry_or calloc_table t d.pud) d.pmd) d.pt 0)
        (entry_or-calloc calloc_table d.p4d)
    ∙ ap (λ t. get_or (entry_or calloc_pt t d.pmd) d.pt 0) (entry_or-calloc calloc_table d.pud)
    ∙ ap (λ t. get_or t d.pt 0) (entry_or-calloc calloc_pt d.pmd)
    ∙ get_or-replicate {A = ℕ} pgtbl_entries d.pt 0

-- An update of the entry that `get_pte` finds.
pub update : Pgd → ℕ → (ℕ → ℕ) → Pgd
update pgd pgn f = walk pgd (get_pd_from_pagenum pgn) f

entry-place : (pgd : Pgd) (pgn : ℕ) → entry pgd pgn ≡ get_pgd pgd (place (get_pd_from_pagenum pgn))
unfolding entry peek place
entry-place pgd pgn = refl

update-place :
    (pgd : Pgd) (pgn : ℕ) (f : ℕ → ℕ)
    → update pgd pgn f ≡ put_pgd pgd (place (get_pd_from_pagenum pgn)) f
unfolding update walk place
update-place pgd pgn f = refl

place-InPgd : (pgn : ℕ) → InPgd (place (get_pd_from_pagenum pgn))
unfolding place
place-InPgd pgn = let d = get_pd_from_pagenum_digits pgn in (d.1, (d.2, (d.3, (d.4, d.5))))

place_injective :
    (m n : ℕ)
    → m < 2 ^ 45
    → n < 2 ^ 45
    → place (get_pd_from_pagenum m) ≡ place (get_pd_from_pagenum n)
    → m ≡ n
unfolding place
place_injective m n hm hn e = omega (
  arith,
  get_pd_from_pagenum_digits m,
  get_pd_from_pagenum_digits n,
  ap (λ t. t.0) e,
  ap (λ t. t.1.0) e,
  ap (λ t. t.1.1.0) e,
  ap (λ t. t.1.1.1.0) e,
  ap (λ t. t.1.1.1.1) e,
)

module _ (pgd : Pgd) (m : ℕ) (f : ℕ → ℕ) (w : IsPgd pgd) where
  pub update-IsPgd : IsPgd (update pgd m f)
  update-IsPgd = rw (update-place pgd m f) (IsPgd-Lens.keep pgd _ f w)

  pub entry-update_self : entry (update pgd m f) m ≡ f (entry pgd m)
  entry-update_self =
      rw (entry-place pgd m, entry-place (update pgd m f) m, update-place pgd m f)
        (IsPgd-Lens.same pgd _ f w (place-InPgd m))

  pub entry-update_ne :
      (n : ℕ) → m < 2 ^ 45 → n < 2 ^ 45 → m ≢ n → entry (update pgd m f) n ≡ entry pgd n
  entry-update_ne n hm hn ne =
      rw (entry-place pgd n, entry-place (update pgd m f) n, update-place pgd m f)
        (IsPgd-Lens.other pgd _ _ f w (place-InPgd m) (λ e. ne (place_injective m n hm hn e)))

-- The tables that get_pte allocates on its way change no entry below 2 ^ 45 and keep the table
-- well formed.
pub get_pte_silent :
    (pgd : Pgd) (m n : ℕ)
    → IsPgd pgd
    → m < 2 ^ 45
    → n < 2 ^ 45
    → (entry (get_pte pgd m) n ≡ entry pgd n) × IsPgd (get_pte pgd m)
get_pte_silent pgd m n w hm hn =
    unfold get_pte in (at (ℕ_discrete m n), unfold update in update-IsPgd pgd m (λ pte. pte) w)
  where
    at : Dec (m ≡ n) → entry (get_pte pgd m) n ≡ entry pgd n
    at (yes e) =
        unfold get_pte in
        subst (λ k. entry (get_pte pgd m) k ≡ entry pgd k) e
          (unfold update in entry-update_self pgd m (λ pte. pte) w)
    at (no ne) = unfold get_pte in unfold update in entry-update_ne pgd m (λ pte. pte) w n hm hn ne

pub pte_set_fpn-update :
    (pgd : Pgd) (m fpn : ℕ) → pte_set_fpn pgd m fpn ≡ update pgd m (λ pte. fpn_entry pte fpn)
unfolding pte_set_fpn update
pte_set_fpn-update pgd m fpn = refl

pub pte_set_swap-update :
    (pgd : Pgd) (m typ off : ℕ)
    → pte_set_swap pgd m typ off ≡ update pgd m (λ pte. swap_entry pte typ off)
unfolding pte_set_swap update
pte_set_swap-update pgd m typ off = refl

pub pte_set_entry-update :
    (pgd : Pgd) (m val : ℕ) → pte_set_entry pgd m val ≡ update pgd m (λ _. u32 val)
unfolding pte_set_entry update
pte_set_entry-update pgd m val = refl

pte_get_entry-entry : (pgd : Pgd) (m : ℕ) → (pte_get_entry pgd m).0 ≡ u32 (entry pgd m)
unfolding pte_get_entry entry
pte_get_entry-entry pgd m = refl

-- In a well-formed table pte_set_fpn makes a page below 2 ^ 45 present in the frame, cut to 13
-- bits, changes no other entry below 2 ^ 45, and keeps the table well formed.
pub pte_set_fpn_lem :
    (pgd : Pgd) (m fpn : ℕ)
    → IsPgd pgd
    → m < 2 ^ 45
    → let pgd' = pte_set_fpn pgd m fpn in
      (page_present (entry pgd' m) ≡ true)
      × (paging_fpn (entry pgd' m) ≡ fpn % 2 ^ 13)
      × ((n : ℕ) → n < 2 ^ 45 → m ≢ n → entry pgd' n ≡ entry pgd n)
      × IsPgd pgd'
pte_set_fpn_lem pgd m fpn w hm =
    let f = λ (pte : ℕ). fpn_entry pte fpn in
    let self = entry-update_self pgd m f w in
    let fields = fpn_entry_fields (entry pgd m) fpn in
    rw (pte_set_fpn-update pgd m fpn) (
      rw self fields.0,
      rw self fields.2,
      λ n hn ne. entry-update_ne pgd m f w n hm hn ne,
      update-IsPgd pgd m f w,
    )

-- In a well-formed table pte_set_swap notes the swap frame, cut to 21 bits, in the entry of a page
-- below 2 ^ 45, leaves the page present with a frame number made of the swap frame's low 8 bits,
-- changes no other entry below 2 ^ 45, and keeps the table well formed.
pub pte_set_swap_lem :
    (pgd : Pgd) (m typ off : ℕ)
    → IsPgd pgd
    → m < 2 ^ 45
    → let pgd' = pte_set_swap pgd m typ off in
      (paging_swp (entry pgd' m) ≡ off % 2 ^ 21)
      × (page_present (entry pgd' m) ≡ true)
      × (paging_fpn (entry pgd' m) ≡ off % 2 ^ 8 * 2 ^ 5 + typ % 2 ^ 5)
      × ((n : ℕ) → n < 2 ^ 45 → m ≢ n → entry pgd' n ≡ entry pgd n)
      × IsPgd pgd'
pte_set_swap_lem pgd m typ off w hm =
    let f = λ (pte : ℕ). swap_entry pte typ off in
    let self = entry-update_self pgd m f w in
    let fields = swap_entry_fields (entry pgd m) typ off in
    rw (pte_set_swap-update pgd m typ off) (
      rw self fields.0,
      rw self fields.2,
      rw self fields.3,
      λ n hn ne. entry-update_ne pgd m f w n hm hn ne,
      update-IsPgd pgd m f w,
    )

-- What `pte_get_entry` reads is the entry that `pte_set_entry` wrote, cut to 32 bits.
pte_get_entry-pte_set_entry :
    (pgd : Pgd) (m val : ℕ)
    → IsPgd pgd
    → m < 2 ^ 45
    → (pte_get_entry (pte_set_entry pgd m val) m).0 ≡ u32 val
pte_get_entry-pte_set_entry pgd m val w hm =
    rw (pte_get_entry-entry (pte_set_entry pgd m val) m, pte_set_entry-update pgd m val)
      (rw (entry-update_self pgd m (λ _. u32 val) w) (omega arith))

pub pte_get_entry_lem :
    (pgd : Pgd) (m : ℕ) → pte_get_entry pgd m ≡ (u32 (entry pgd m), get_pte pgd m)
unfolding pte_get_entry entry get_pte
pte_get_entry_lem pgd m = refl
