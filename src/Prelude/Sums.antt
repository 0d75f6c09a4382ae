-- ===== src/Prelude/Sums.antt =====
-- Families over the numbers below a bound: an update at one index, and the sum of the values; and how
-- often a number stands in a list.
use Prim.Native.Nat.{ℕ, zero, suc, ◌+◌, ◌≤◌, ◌<◌}
use mathlib.Core.Path.{◌≡◌, refl, subst}
use mathlib.Core.Logic.{◌≢◌}
use mathlib.Core.List.{List, [], ◌∷◌, ◌++◌}
use native.Mathlib.Decide.{ℕ_discrete, dec_lt}
use native.Mathlib.Omega.{arith}
use simple_os_simulator.Prelude.Lists.{length}
use simple_os_simulator.Prelude.Tests.{◌==◌, if◌then◌else◌}

abbrev pub update {ℓ} : {A : Type ℓ} → (ℕ → A) → ℕ → A → ℕ → A
update f i a j = if j == i then a else f j

pub update_self {ℓ} : {A : Type ℓ} (f : ℕ → A) (i : ℕ) (a : A) → update f i a i ≡ a
update_self f i a = ground arith

pub update_ne {ℓ} : {A : Type ℓ} (f : ℕ → A) (i : ℕ) (a : A) (j : ℕ) → j ≢ i → update f i a j ≡ f j
update_ne f i a j h = ground arith

unfoldable pub total : (ℕ → ℕ) → ℕ → ℕ
total f zero = 0
total f (suc n) = total f n + f n

-- Families that agree below the bound have the same sum.
pub total_same : (f g : ℕ → ℕ) (n : ℕ) → ((i : ℕ) → i < n → f i ≡ g i) → total f n ≡ total g n
unfolding total
total_same f g zero h = refl
total_same f g (suc n) h =
    omega (arith, total_same f g n (λ i lt. h i (omega arith)), h n (omega arith))

-- A change at one index changes the sum by as much.
pub total_change :
    (f g : ℕ → ℕ) (n j : ℕ)
    → j < n
    → ((i : ℕ) → i ≢ j → g i ≡ f i)
    → total g n + f j ≡ total f n + g j
unfolding total
total_change f g zero j lt h = absurd (omega arith)
total_change f g (suc n) j lt h = elim (ℕ_discrete n j) [
  | yes here ↦
      let below = total_same g f n (λ i small. h i (omega arith)) in
      subst (λ k. total g n + g n + f k ≡ total f n + f n + g k) here (omega (arith, below))
  | no other ↦ omega (arith, total_change f g n j (omega arith) h, h n other)
]

pub le_total : (f : ℕ → ℕ) (n j : ℕ) → j < n → f j ≤ total f n
unfolding total
le_total f zero j lt = absurd (omega arith)
le_total f (suc n) j lt = elim (ℕ_discrete n j) [
  | yes here ↦ subst (λ k. f k ≤ total f n + f n) here (omega arith)
  | no other ↦ omega (arith, le_total f n j (omega arith))
]

-- Two indices count twice.
pub le_total_two : (f : ℕ → ℕ) (n i j : ℕ) → i < n → j < n → i ≢ j → f i + f j ≤ total f n
unfolding total
le_total_two f zero i j hi hj ne = absurd (omega arith)
le_total_two f (suc n) i j hi hj ne = elim (ℕ_discrete n i) [
  | yes e ↦ subst (λ k. f k + f j ≤ total f n + f n) e (omega (arith, le_total f n j (omega arith)))
  | no ni ↦ elim (ℕ_discrete n j) [
    | yes e ↦
        subst (λ k. f i + f k ≤ total f n + f n) e (omega (arith, le_total f n i (omega arith)))
    | no nj ↦ omega (arith, le_total_two f n i j (omega arith) (omega arith) ne)
  ]
]

pub total_zero : (f : ℕ → ℕ) (n : ℕ) → ((i : ℕ) → i < n → f i ≡ 0) → total f n ≡ 0
unfolding total
total_zero f zero h = refl
total_zero f (suc n) h =
    omega (arith, total_zero f n (λ i lt. h i (omega arith)), h n (omega arith))

-- How often a number stands in a list.
abbrev pub times : ℕ → List ℕ → ℕ
times p [] = 0
times p (x ∷ xs) = (if x == p then 1 else 0) + times p xs

pub times-append : (p : ℕ) (xs ys : List ℕ) → times p (xs ++ ys) ≡ times p xs + times p ys
times-append p [] ys = omega arith
times-append p (x ∷ xs) ys = omega (arith, times-append p xs ys)

total_add : (f g : ℕ → ℕ) (n : ℕ) → total (λ i. f i + g i) n ≡ total f n + total g n
unfolding total
total_add f g zero = omega arith
total_add f g (suc n) = omega (arith, total_add f g n)

-- A sum that is not 0 has a summand that is not.
pub total_positive : (f : ℕ → ℕ) (n : ℕ) → 0 < total f n → (i : ℕ) × (i < n) × (0 < f i)
unfolding total
total_positive f zero h = absurd (omega (arith, h))
total_positive f (suc n) h = elim (ℕ_discrete (f n) 0) [
  | yes e ↦
      (let (i, lt, pos) = total_positive f n (omega (arith, h, e)) in (i, omega (arith, lt), pos))
  | no ne ↦ (n, omega arith, omega (arith, ne))
]

pub total_le : (f : ℕ → ℕ) (n : ℕ) → ((i : ℕ) → f i ≤ 1) → total f n ≤ n
unfolding total
total_le f zero h = omega arith
total_le f (suc n) h = omega (arith, h n, total_le f n h)

total_only : (n x : ℕ) → x < n → total (λ i. if x == i then 1 else 0) n ≡ 1
unfolding total
total_only zero x lt = absurd (omega (arith, lt))
total_only (suc n) x lt = elim (ℕ_discrete x n) [
  | yes e ↦
      let before =
        total_zero (λ i. if x == i then 1 else 0) n (λ i small. grind (arith, e, small)) in
      grind (arith, before, e)
  | no ne ↦ grind (arith, total_only n x (omega (arith, lt, ne)), ne)
]

-- Summands of 0 or 1, one of them 0.
pub total_lt : (f : ℕ → ℕ) (n j : ℕ) → ((i : ℕ) → f i ≤ 1) → j < n → f j ≡ 0 → total f n < n
unfolding total
total_lt f zero j h lt e = absurd (omega (arith, lt))
total_lt f (suc n) j h lt e = elim (ℕ_discrete j n) [
  | yes here ↦
      (let last : f n ≡ 0 = subst (λ k. f k ≡ 0) here e in omega (arith, last, total_le f n h))
  | no other ↦ omega (arith, h n, total_lt f n j h (omega (arith, lt, other)) e)
]

-- A list of numbers below a bound is as long as the numbers stand in it.
pub total-times :
    (xs : List ℕ) (n : ℕ)
    → ((i : ℕ) → n ≤ i → times i xs ≡ 0)
    → total (λ i. times i xs) n ≡ length xs
total-times [] n h = total_zero (λ i. 0) n (λ i lt. refl)
total-times (x ∷ xs) n h =
    let inside : x < n = elim (dec_lt x n) [
      | yes lt ↦ lt
      | no past ↦ absurd (grind (arith, h x (omega (arith, past))))
    ] in
    let rest = total-times xs n (λ i le. omega (arith, h i le)) in
    let once = total_only n x inside in
    omega (arith, total_add (λ i. if x == i then 1 else 0) (λ i. times i xs) n, rest, once)
