-- ===== src/Base/Words.antt =====
-- `size_t` and `uint64_t`: arithmetic modulo 2 ^ 64.
use Prim.Native.Nat.{ℕ, ◌+◌, ◌-◌, ◌%◌, ◌^◌}

abbrev pub u64 : ℕ
u64 = 2 ^ 64

infixl 65 ◌+u64◌ ◌-u64◌
unfoldable pub ◌+u64◌ : ℕ → ℕ → ℕ
a +u64 b = (a + b) % u64

-- For operands below 2 ^ 64.
unfoldable pub ◌-u64◌ : ℕ → ℕ → ℕ
a -u64 b = (a + u64 - b) % u64
