-- ===== src/Common/Words.antt =====
-- Unsigned 32-bit words, with their wrap-around, and the bits of a byte.
use Prim.Native.Nat.{ℕ, ◌+◌, ◌-◌, ◌*◌, ◌%◌, ◌^◌, ◌<◌}

abbrev pub add32 : ℕ → ℕ → ℕ
add32 a b = (a + b) % 2 ^ 32

-- `-` on ℕ is truncated, so the modulus comes first.
abbrev pub sub32 : ℕ → ℕ → ℕ
sub32 a b = (a + 2 ^ 32 - b) % 2 ^ 32

abbrev pub mul32 : ℕ → ℕ → ℕ
mul32 a b = (a * b) % 2 ^ 32

-- `EOF`, the `int` -1, as its bit pattern
abbrev pub eof : ℕ
eof = 2 ^ 32 - 1

abbrev pub IsByte : ℕ → Type 0
IsByte x = x < 256

-- the place of a 32-bit pattern in the order of the `int`s that the patterns stand for
abbrev pub int_order : ℕ → ℕ
int_order w = (w + 2 ^ 31) % 2 ^ 32
