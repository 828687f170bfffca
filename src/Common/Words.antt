-- ===== src/Common/Words.antt =====
-- Fixed-width integers of C as natural numbers: the conversions wrap.
use Prim.Native.Nat.{ℕ, ◌+◌, ◌-◌, ◌%◌}
use mathlib.Core.Bool.{Bool}
use uwb_core.Common.Tests.{ltb}

abbrev pub u8 : ℕ → ℕ
u8 n = n % 256

abbrev pub u16 : ℕ → ℕ
u16 n = n % 65536

abbrev pub u32 : ℕ → ℕ
u32 n = n % 4294967296

-- `uint32_t` subtraction
abbrev pub sub32 : ℕ → ℕ → ℕ
sub32 a b = (a + 4294967296 - u32 b) % 4294967296

-- `(int32_t)a < (int32_t)b` on the bit patterns `a` and `b`
abbrev pub slt32 : ℕ → ℕ → Bool
slt32 a b = ltb ((a + 2147483648) % 4294967296) ((b + 2147483648) % 4294967296)
