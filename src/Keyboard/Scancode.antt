-- ===== src/Keyboard/Scancode.antt =====
-- src/kernel/keyboard.c: what the masks of the handler make of a byte.
use yuios.Common.{
  ℕ, ◌%◌, ◌<◌, ◌≡◌, refl, Bool, true, ◌&&◌, ◌==◌, bit_or, check_below, check_below_lem, arith, leb,
  if◌then◌else◌,
}
use yuios.Keyboard.{make_code, is_break}

-- one byte with and without the mark of an extended code
byte_law : ℕ → Bool
byte_law s =
    (make_code s == s % 128)
    && (make_code (bit_or s 0xe000) == s % 128)
    && ((if is_break s then 1 else 0) == (if leb 128 s then 1 else 0))
    && ((if is_break (bit_or s 0xe000) then 1 else 0) == (if leb 128 s then 1 else 0))

byte_table : check_below 256 byte_law ≡ true
unfolding check_below byte_law make_code is_break
byte_table = refl

byte_facts : (s : ℕ) → s < 256 → byte_law s ≡ true
byte_facts s h = check_below_lem 256 byte_law s byte_table h

-- The make code of a byte is its lower seven bits, extended or not: the comparison with the code of
-- Print Screen, which has its highest bit set, never holds.
pub make_code-mod :
    (s : ℕ) → s < 256 → (make_code s ≡ s % 128) × (make_code (bit_or s 0xe000) ≡ s % 128)
unfolding byte_law
make_code-mod s h = ground (arith, byte_facts s h)

pub is_break-leb :
    (s : ℕ) → s < 256 → (is_break s ≡ leb 128 s) × (is_break (bit_or s 0xe000) ≡ leb 128 s)
unfolding byte_law
is_break-leb s h = ground (arith, byte_facts s h)
