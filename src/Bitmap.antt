-- ===== src/Bitmap.antt =====
-- src/lib/bitmap.c: an array of bits over caller-provided bytes, which numbers its bits from
-- `offset`. A function that writes `*map` returns the new map. `bits` is the memory behind the
-- pointer: an index below `length` and outside that memory is a `fault`.
mod Examples
pub mod Byte
pub mod Access
pub mod Find
pub mod Scan
use yuios.Common.{
  ℕ, zero, suc, ◌-◌, ◌/◌, ◌%◌, ◌^◌, Bool, true, not, List, bit_and, bit_or, ltb, leb, ◌==◌,
  if◌then◌else◌, length, get_or, set, Outcome, ok, ◌>>=◌, ◌>>◌, assert, access, add32, sub32, mul32,
  eof,
}

-- `bitmap_t`
pub record Bitmap : Type 0 where
  pub bits : List ℕ
  pub length : ℕ
  pub offset : ℕ

-- `bitmap_make`
unfoldable pub make : List ℕ → ℕ → ℕ → Bitmap
make bits length offset = record { bits = bits; length = length; offset = offset }

-- The bits of a byte that `1 << bits` selects, and the two writes of `bitmap_set`. The complement
-- `~(1 << bits)` is cut down to the byte that it is stored in.
abbrev pub bit_of : ℕ → ℕ → Bool
bit_of x b = not (bit_and x (2 ^ b) == 0)

abbrev pub put_bit : ℕ → ℕ → Bool → ℕ
put_bit x b value = if value then bit_or x (2 ^ b) else bit_and x (255 - 2 ^ b)

-- `bitmap_test`
unfoldable pub test : Bitmap → ℕ → Outcome Bool
test map index = do
  assert (leb map.offset index)
  let idx = index - map.offset
  let bytes = idx / 8
  let bits = idx % 8
  assert (ltb bytes map.length)
  access (ltb bytes (length map.bits))
  ok (bit_of (get_or map.bits bytes 0) bits)

-- `bitmap_set`; the parameter is a `bool`, so that its first assertion always holds.
unfoldable pub set_bit : Bitmap → ℕ → Bool → Outcome Bitmap
set_bit map index value = do
  assert (leb map.offset index)
  let idx = index - map.offset
  let bytes = idx / 8
  let bits = idx % 8
  access (ltb bytes (length map.bits))
  ok (record map { bits = set map.bits bytes (put_bit (get_or map.bits bytes 0) bits value) })

-- The first loop of `bitmap_scan`: `left` rounds are to come, and the result is `start`.
unfoldable pub find : Bitmap → ℕ → (left next_bit counter : ℕ) → Outcome ℕ
find map count zero next_bit counter = ok eof
find map count (suc left) next_bit counter = test map (add32 map.offset next_bit) >>= λ taken.
    let counter' = if taken then 0 else add32 counter 1 in
    let next' = add32 next_bit 1 in
    let rest = find map count left next' counter' in
    if counter' == count then ok (sub32 next' count) else rest

-- The second loop: `left` bits are set, from `next_bit` on.
unfoldable pub fill : Bitmap → (left next_bit : ℕ) → Outcome Bitmap
fill map zero next_bit = ok map
fill map (suc left) next_bit =
    set_bit map (add32 map.offset next_bit) true >>= λ map'. fill map' left (add32 next_bit 1)

-- `bitmap_scan`: the new map, and the index that is returned (`eof` if there is no room).
unfoldable pub scan : Bitmap → ℕ → Outcome (Bitmap × ℕ)
unfolding find fill
scan map count = do
  start ← find map count (mul32 map.length 8) 0 0
  if start == eof
      then ok (map, eof)
      else do map' ← fill map count start; ok (map', add32 start map.offset)

-- `bitmap_init`: the `memset` clears `length` bytes of the memory, a fault past its end.
unfoldable pub clear_bytes : ℕ → List ℕ → List ℕ
clear_bytes zero xs = xs
clear_bytes (suc n) xs = set (clear_bytes n xs) n 0

unfoldable pub init : List ℕ → ℕ → ℕ → Outcome Bitmap
unfolding clear_bytes make
init bits len start =
    access (leb len (length bits)) >>= λ _. ok (make (clear_bytes len bits) len start)
