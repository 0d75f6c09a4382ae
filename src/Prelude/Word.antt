-- ===== src/Prelude/Word.antt =====
-- Words of C: `uint32_t` and `uint64_t` are numbers below 2 ^ 32 and 2 ^ 64, an `int` is its
-- 32-bit pattern.
use Prim.Native.Nat.{ℕ, ◌+◌, ◌-◌, ◌*◌, ◌/◌, ◌%◌, ◌^◌}
use simple_os_simulator.Prelude.Tests.{ltb, if◌then◌else◌}

abbrev pub u8 : ℕ → ℕ
u8 n = n % 2 ^ 8

abbrev pub u32 : ℕ → ℕ
u32 n = n % 2 ^ 32

abbrev pub u64 : ℕ → ℕ
u64 n = n % 2 ^ 64

-- An `int` pattern where it is positive, and 0 where it is not.
abbrev pub int_pos : ℕ → ℕ
int_pos w = if ltb (u32 w) (2 ^ 31) then u32 w else 0

-- The conversion of a value to `int` and then to `uint64_t`: sign extension.
abbrev pub int_to_u64 : ℕ → ℕ
int_to_u64 w = if ltb (u32 w) (2 ^ 31) then u32 w else u32 w + (2 ^ 64 - 2 ^ 32)

infixl 75 ◌<<<◌ ◌>>>◌
abbrev pub ◌<<<◌ : ℕ → ℕ → ℕ
x <<< k = x * 2 ^ k

abbrev pub ◌>>>◌ : ℕ → ℕ → ℕ
x >>> k = x / 2 ^ k
