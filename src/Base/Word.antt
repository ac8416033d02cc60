-- ===== src/Base/Word.antt =====
-- Machine words: C's 32-bit `unsigned int` and 64-bit `unsigned long` as numbers below a power
-- of two, and the signed value that a bit pattern stands for.
use Prim.Native.Nat.{ℕ, ◌+◌, ◌-◌, ◌%◌, ◌^◌, bit_and}
use mathlib.Core.Bool.{Bool, not}
use tinyalsa.Base.Tests.{ltb, ◌==◌, if◌then◌else◌}
use tinyalsa.Base.Int.{ℤ, pos, negsuc}

abbrev pub u32_mod : ℕ
u32_mod = 2 ^ 32

abbrev pub u64_mod : ℕ
u64_mod = 2 ^ 64

abbrev pub u32 : ℕ → ℕ
u32 n = n % 2 ^ 32

abbrev pub u64 : ℕ → ℕ
u64 n = n % 2 ^ 64

abbrev pub sub32 : ℕ → ℕ → ℕ
sub32 a b = (a + 2 ^ 32 - b) % 2 ^ 32

abbrev pub sub64 : ℕ → ℕ → ℕ
sub64 a b = (a + 2 ^ 64 - b) % 2 ^ 64

-- A 32-bit pattern as an `int`.
abbrev pub int32 : ℕ → ℤ
int32 w = if ltb w (2 ^ 31) then pos w else negsuc (2 ^ 32 - w - 1)

-- An integer converted to `unsigned int`.
abbrev pub to_u32 : ℤ → ℕ
to_u32 (pos n) = n % 2 ^ 32
to_u32 (negsuc n) = 2 ^ 32 - 1 - n % 2 ^ 32

-- An integer converted to `int`.
abbrev pub to_int32 : ℤ → ℤ
to_int32 z = int32 (to_u32 z)

-- `flags & mask`, as a test.
abbrev pub has : ℕ → ℕ → Bool
has flags mask = not (bit_and flags mask == 0)
