-- ===== src/Prelude/Bits.antt =====
-- `&` and `|` at variables: they work on the bits above and below any position apart.
use Prim.Native.Nat.{digits, bit_and-bitwise, bit_or-bitwise}
use Prim.Native.Nat.{
  ℕ, zero, suc, ◌+◌, ◌-◌, ◌*◌, ◌/◌, ◌%◌, ◌^◌, ◌≤◌, ◌<◌, min, max, bit_and, bit_or,
}
use mathlib.Core.Path.{◌≡◌, refl, ap}
use native.Mathlib.Nat.{pow-suc, one-le-pow}
use native.Mathlib.Omega.{arith}

-- The recursion on digits gives the same with any fuel that covers the first number.
module _ (rest : ℕ → ℕ) (f : ℕ → ℕ → ℕ) where
  digits_enough : (n m a b : ℕ) → a ≤ n → a ≤ m → digits rest f n a b ≡ digits rest f m a b
  digits_enough zero zero a b p q = refl
  digits_enough zero (suc m) zero b p q = refl
  digits_enough zero (suc m) (suc a) b p q = absurd (omega arith)
  digits_enough (suc n) zero zero b p q = refl
  digits_enough (suc n) zero (suc a) b p q = absurd (omega arith)
  digits_enough (suc n) (suc m) zero b p q = refl
  digits_enough (suc n) (suc m) (suc a) b p q =
      ap (λ t. t * 2 + f (suc a % 2) (b % 2))
        (digits_enough n m (suc a / 2) (b / 2) (omega arith) (omega arith))

zero-bit_and : (b : ℕ) → bit_and 0 b ≡ 0
zero-bit_and b = bit_and-bitwise 0 b

pub zero-bit_or : (b : ℕ) → bit_or 0 b ≡ b
zero-bit_or b = bit_or-bitwise 0 b

bit_and_low : (a b : ℕ) → bit_and a b ≡ bit_and (a / 2) (b / 2) * 2 + min (a % 2) (b % 2)
bit_and_low zero b = omega (arith, zero-bit_and b, zero-bit_and (b / 2))
bit_and_low (suc a) b = omega (
  arith,
  bit_and-bitwise (suc a) b,
  bit_and-bitwise (suc a / 2) (b / 2),
  digits_enough (λ x. 0) min a (suc a / 2) (suc a / 2) (b / 2) (omega arith) (omega arith),
)

bit_or_low : (a b : ℕ) → bit_or a b ≡ bit_or (a / 2) (b / 2) * 2 + max (a % 2) (b % 2)
bit_or_low zero b = omega (arith, zero-bit_or b, zero-bit_or (b / 2))
bit_or_low (suc a) b = omega (
  arith,
  bit_or-bitwise (suc a) b,
  bit_or-bitwise (suc a / 2) (b / 2),
  digits_enough (λ x. x) max a (suc a / 2) (suc a / 2) (b / 2) (omega arith) (omega arith),
)

double-mul-pow : (q k : ℕ) → q * 2 ^ suc k ≡ 2 * (q * 2 ^ k)
double-mul-pow q k = omega (arith, ap (λ (t : ℕ). q * t) (pow-suc 2 k))

pub bit_and-zero : (a : ℕ) → bit_and a 0 ≡ 0
bit_and-zero a = halving a a (omega arith)
  where
    halving : (n b : ℕ) → b ≤ n → bit_and b 0 ≡ 0
    halving n zero h = refl
    halving zero (suc b) h = absurd (omega arith)
    halving (suc n) (suc b) h =
        omega (arith, bit_and_low (suc b) 0, halving n (suc b / 2) (omega arith))

pub bit_or-zero : (a : ℕ) → bit_or a 0 ≡ a
bit_or-zero a = halving a a (omega arith)
  where
    halving : (n b : ℕ) → b ≤ n → bit_or b 0 ≡ b
    halving n zero h = refl
    halving zero (suc b) h = absurd (omega arith)
    halving (suc n) (suc b) h =
        omega (arith, bit_or_low (suc b) 0, halving n (suc b / 2) (omega arith))

-- The bits from position `k` on, and those below it, do not mix.
bit_and_concat :
    (k p q r s : ℕ)
    → r < 2 ^ k
    → s < 2 ^ k
    → bit_and (p * 2 ^ k + r) (q * 2 ^ k + s) ≡ bit_and p q * 2 ^ k + bit_and r s
bit_and_concat zero p q r s hr hs = ground (arith, bit_and-zero 0)
bit_and_concat (suc k) p q r s hr hs = ground (
  arith,
  bit_and_low (p * 2 ^ suc k + r) (q * 2 ^ suc k + s),
  bit_and_low r s,
  double-mul-pow p k,
  double-mul-pow q k,
  double-mul-pow (bit_and p q) k,
  pow-suc 2 k,
  bit_and_concat k p q (r / 2) (s / 2) (omega (arith, pow-suc 2 k)) (omega (arith, pow-suc 2 k)),
)

bit_or_concat :
    (k p q r s : ℕ)
    → r < 2 ^ k
    → s < 2 ^ k
    → bit_or (p * 2 ^ k + r) (q * 2 ^ k + s) ≡ bit_or p q * 2 ^ k + bit_or r s
bit_or_concat zero p q r s hr hs = ground (arith, bit_or-zero 0)
bit_or_concat (suc k) p q r s hr hs = ground (
  arith,
  bit_or_low (p * 2 ^ suc k + r) (q * 2 ^ suc k + s),
  bit_or_low r s,
  double-mul-pow p k,
  double-mul-pow q k,
  double-mul-pow (bit_or p q) k,
  pow-suc 2 k,
  bit_or_concat k p q (r / 2) (s / 2) (omega (arith, pow-suc 2 k)) (omega (arith, pow-suc 2 k)),
)

-- The same at two words that are given in two parts.
pub bit_or_parts :
    (k a b p q r s : ℕ)
    → a ≡ p * 2 ^ k + r
    → b ≡ q * 2 ^ k + s
    → r < 2 ^ k
    → s < 2 ^ k
    → bit_or a b ≡ bit_or p q * 2 ^ k + bit_or r s
bit_or_parts k a b p q r s ea eb hr hs = rw (ea, eb) (bit_or_concat k p q r s hr hs)

-- A mask in two parts cuts a word in the same two parts.
pub bit_and_split :
    (k a q s : ℕ)
    → s < 2 ^ k
    → bit_and a (q * 2 ^ k + s) ≡ bit_and (a / 2 ^ k) q * 2 ^ k + bit_and (a % 2 ^ k) s
bit_and_split k a q s h =
    ground (arith, one-le-pow k 2, bit_and_concat k (a / 2 ^ k) q (a % 2 ^ k) s)

bit_and-ones_of_lt : (k a : ℕ) → a < 2 ^ k → bit_and a (2 ^ k - 1) ≡ a
bit_and-ones_of_lt zero a h = omega (arith, bit_and-zero a)
bit_and-ones_of_lt (suc k) a h = ground (
  arith,
  one-le-pow k 2,
  pow-suc 2 k,
  bit_and_low a (2 ^ suc k - 1),
  bit_and-ones_of_lt k (a / 2),
)

-- A mask of `k` ones keeps the remainder by `2 ^ k`.
pub bit_and_ones : (k a : ℕ) → bit_and a (2 ^ k - 1) ≡ a % 2 ^ k
bit_and_ones k a = ground (
  arith,
  one-le-pow k 2,
  bit_and_split k a 0 (2 ^ k - 1),
  bit_and-zero (a / 2 ^ k),
  bit_and-ones_of_lt k (a % 2 ^ k),
)
