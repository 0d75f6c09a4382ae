-- ===== src/PageTable/Lens.antt =====
-- A table over tables that can be read and updated can be read and updated itself.
use simple_os_simulator.Prelude.{
  zero, suc, subst, [], ◌∷◌, ℕ, ◌<◌, ◌≡◌, ◌≢◌, refl, ap₂, ◌∙◌, arith, Option, none, some, List,
  get_or, set, length, length-set, get_or-replicate, get_or-set_self, get_or-set_ne,
}
use native.Mathlib.Decide.{ℕ_discrete}
use simple_os_simulator.PageTable.{pgtbl_entries, entry_or, calloc_table}

-- `get` and `put` at a place `q`, on the values that satisfy `P` and at the places that satisfy `R`.
pub record Lens {A Q : Type 0} (P : A → Type 0) (R : Q → Type 0) (get : A → Q → ℕ)
    (put : A → Q → (ℕ → ℕ) → A) : Type 0 where
  pub same : (a : A) (q : Q) (f : ℕ → ℕ) → P a → R q → get (put a q f) q ≡ f (get a q)
  pub other : (a : A) (q r : Q) (f : ℕ → ℕ) → P a → R q → q ≢ r → get (put a q f) r ≡ get a r
  pub keep : (a : A) (q : Q) (f : ℕ → ℕ) → P a → P (put a q f)

abbrev pub InTable : ℕ → Type 0
InTable i = i < pgtbl_entries

-- The last level, an array of entries.
abbrev pub IsPt : List ℕ → Type 0
IsPt pt = length pt ≡ pgtbl_entries

abbrev pub get_pt : List ℕ → ℕ → ℕ
get_pt pt i = get_or pt i 0

abbrev pub put_pt : List ℕ → ℕ → (ℕ → ℕ) → List ℕ
put_pt pt i f = set pt i (f (get_or pt i 0))

pub IsPt-Lens : Lens IsPt InTable get_pt put_pt
IsPt-Lens = record {
  same = λ a i f w h. get_or-set_self a i _ 0 (omega arith);
  other = λ a i j f w h ne. get_or-set_ne a i j _ 0 ne;
  keep = λ a i f w. length-set a i _ ∙ w;
}

abbrev pub InLevel : {Q : Type 0} → (Q → Type 0) → ℕ × Q → Type 0
InLevel R (i, q) = InTable i × R q

module _ {A : Type 0} (zeros : A) where
  abbrev pub IsTable : (A → Type 0) → List (Option A) → Type 0
  IsTable P t = (length t ≡ pgtbl_entries) × ((i : ℕ) → P (entry_or zeros t i))

  abbrev pub get_level : {Q : Type 0} → (A → Q → ℕ) → List (Option A) → ℕ × Q → ℕ
  get_level get t (i, q) = get (entry_or zeros t i) q

  abbrev pub put_level :
      {Q : Type 0} → (A → Q → (ℕ → ℕ) → A) → List (Option A) → ℕ × Q → (ℕ → ℕ) → List (Option A)
  put_level put t (i, q) f = set t i (some (put (entry_or zeros t i) q f))

  entry_or-set_self :
      (t : List (Option A)) (i : ℕ) (a : A) → i < length t → entry_or zeros (set t i (some a)) i ≡ a
  entry_or-set_self t i a h = rw (get_or-set_self t i (some a) none h, entry_or)

  entry_or-set_ne :
      (t : List (Option A)) (i j : ℕ) (a : A)
      → i ≢ j
      → entry_or zeros (set t i (some a)) j ≡ entry_or zeros t j
  entry_or-set_ne t i j a ne = rw (get_or-set_ne t i j (some a) none ne, entry_or)

  entry_or-set_keep :
      (P : A → Type 0) (t : List (Option A)) (i j : ℕ) (a : A)
      → P a
      → P (entry_or zeros t j)
      → P (entry_or zeros (set t i (some a)) j)
  entry_or-set_keep P [] i j a h k = k
  entry_or-set_keep P (x ∷ t) zero zero a h k = h
  entry_or-set_keep P (x ∷ t) zero (suc j) a h k = k
  entry_or-set_keep P (x ∷ t) (suc i) zero a h k = k
  entry_or-set_keep P (x ∷ t) (suc i) (suc j) a h k = entry_or-set_keep P t i j a h k

  pub calloc-IsTable : (P : A → Type 0) → P zeros → IsTable P calloc_table
  calloc-IsTable P z =
      (refl, λ i. rw (get_or-replicate {A = Option A} pgtbl_entries i none, entry_or) z)

module _ {A Q : Type 0} (zeros : A) {P : A → Type 0} {R : Q → Type 0} {get : A → Q → ℕ}
    {put : A → Q → (ℕ → ℕ) → A} (below : Lens P R get put) where
  level-same :
      (t : List (Option A)) (q : ℕ × Q) (f : ℕ → ℕ)
      → IsTable zeros P t
      → InLevel R q
      → get_level zeros get (put_level zeros put t q f) q ≡ f (get_level zeros get t q)
  level-same t (i, q) f w h =
      rw (entry_or-set_self zeros t i (put (entry_or zeros t i) q f) (omega arith))
        (below.same (entry_or zeros t i) q f (w.1 i) h.1)

  level-other :
      (t : List (Option A)) (q r : ℕ × Q) (f : ℕ → ℕ)
      → IsTable zeros P t
      → InLevel R q
      → q ≢ r
      → get_level zeros get (put_level zeros put t q f) r ≡ get_level zeros get t r
  level-other t (i, q) (j, r) f w h ne = elim (ℕ_discrete i j) [
    | yes e ↦
        subst (λ k. get (entry_or zeros (set t i (some new)) k) r ≡ get (entry_or zeros t k) r) e
          (rw (entry_or-set_self zeros t i new (omega arith))
            (below.other old q r f (w.1 i) h.1 (λ d. ne (ap₂ (λ a b. (a, b)) e d))))
    | no d ↦ rw (entry_or-set_ne zeros t i j new d)
  ]
    where
      old : A
      old = entry_or zeros t i

      new : A
      new = put (entry_or zeros t i) q f

  level-keep :
      (t : List (Option A)) (q : ℕ × Q) (f : ℕ → ℕ)
      → IsTable zeros P t
      → IsTable zeros P (put_level zeros put t q f)
  level-keep t (i, q) f w = (
    length-set t i _ ∙ w.0,
    λ j. entry_or-set_keep zeros P t i j _ (below.keep _ q f (w.1 i)) (w.1 j),
  )

  pub IsTable-Lens : Lens (IsTable zeros P) (InLevel R) (get_level zeros get) (put_level zeros put)
  IsTable-Lens = record { same = level-same; other = level-other; keep = level-keep }
