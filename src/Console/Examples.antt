-- ===== src/Console/Examples.antt =====
-- A full screen at the end of the card's memory.
use yuios.Common.{ℕ, ◌+◌, ◌*◌, ◌%◌, ◌≡◌, List, [], ◌∷◌, arith, if◌then◌else◌, ltb, length}
use yuios.Console.{Console, write, scroll_up}
use yuios.Console.Cursor.{IsValid, write-IsValid}
use yuios.Console.Rows.{cell, erase_byte, scroll_up_lem}

abbrev full : Console
full = record {
  screen = 0xB8000 + 77 * 160;
  pos = 0xB8000 + 102 * 160;
  x = 80;
  y = 24;
  mem = λ a. a % 256;
}

full-IsValid : IsValid full
full-IsValid = record {
  window = (omega arith, omega arith);
  column = omega arith;
  line = omega arith;
  cursor = omega arith;
}

abbrev message : List ℕ
message = b'h' ∷ b'i' ∷ 10 ∷ []

write-IsValid_example :
    IsValid (write full message).0 × ((write full message).1 ≡ length message + 1)
write-IsValid_example = write-IsValid full message full-IsValid

scroll_up_lem_example :
    cell (scroll_up full) 24 2 ≡ (if ltb 24 24 then cell full (24 + 1) 2 else erase_byte (2 % 4))
scroll_up_lem_example = scroll_up_lem full 24 2 full-IsValid (omega arith) (omega arith)
