-- ===== src/Console.antt =====
-- src/kernel/console.c: the text screen, a window of 25 rows of 80 cells that moves down the memory of
-- the graphics card. The ports that set the window and the cursor of the hardware are left out, as is the
-- bell. Addresses and the cursor are `u32`.
mod Examples
pub mod Cursor
pub mod Rows
use yuios.Common.{
  ℕ, zero, suc, ◌+◌, ◌-◌, ◌*◌, ◌/◌, ◌%◌, ◌^◌, ◌||◌, List, [], ◌∷◌, ltb, leb, ◌==◌, if◌then◌else◌,
  add32, sub32,
}
use yuios.Bytes.{Mem, poke, memcpy}

-- `MEM_BASE`, `MEM_END`, `WIDTH`, `HEIGHT`, `ROW_SIZE`, `SCR_SIZE`, `attr` and `erase`
abbrev pub mem_base : ℕ
mem_base = 0xB8000

abbrev pub mem_end : ℕ
mem_end = 0xBC000

abbrev pub width : ℕ
width = 80

abbrev pub height : ℕ
height = 25

abbrev pub row_size : ℕ
row_size = 160

abbrev pub scr_size : ℕ
scr_size = 4000

abbrev pub attr : ℕ
attr = 7

abbrev pub erase : ℕ
erase = 0x0720

-- the static variables, and the memory of the card
pub record Console : Type 0 where
  pub screen : ℕ
  pub pos : ℕ
  pub x : ℕ
  pub y : ℕ
  pub mem : Mem

-- `*(u16 *)a = v` and `*(u32 *)a = v`
abbrev pub poke16 : Mem → ℕ → ℕ → Mem
poke16 m a v = poke (poke m a (v % 256)) (a + 1) (v / 256 % 256)

abbrev pub poke32 : Mem → ℕ → ℕ → Mem
poke32 m a v = poke16 (poke16 m a (v % 2 ^ 16)) (a + 2) (v / 2 ^ 16)

-- the loop of `console_clear`: `left` cells from `a` on
unfoldable pub erase_cells : Mem → (a left : ℕ) → Mem
erase_cells m a zero = m
erase_cells m a (suc left) = erase_cells (poke16 m a erase) (a + 2) left

-- `console_clear`
unfoldable pub clear : Console → Console
clear c = record {
  screen = mem_base;
  pos = mem_base;
  x = 0;
  y = 0;
  mem = erase_cells c.mem mem_base ((mem_end - mem_base) / 2);
}

-- `command_bs`
unfoldable pub command_bs : Console → Console
command_bs c =
    if c.x == 0
    then c
    else record c { x = c.x - 1; pos = sub32 c.pos 2; mem = poke16 c.mem (sub32 c.pos 2) erase }

-- the loop of `scroll_up`: `left` words from `a` on
unfoldable pub erase_words : Mem → (a left : ℕ) → Mem
erase_words m a zero = m
erase_words m a (suc left) = erase_words (poke32 m a erase) (a + 4) left

-- the first part of `scroll_up`, which moves the window to the start of the memory when it is at its end
unfoldable pub rewind : Console → Console
rewind c =
    if leb mem_end (add32 c.screen (scr_size + row_size))
    then record c {
      mem = memcpy c.mem mem_base c.screen scr_size;
      pos = sub32 c.pos (sub32 c.screen mem_base);
      screen = mem_base;
    }
    else c

-- `scroll_up`
unfoldable pub scroll_up : Console → Console
scroll_up c =
    let c' = rewind c in
    record c' {
      mem = erase_words c'.mem (add32 c'.screen scr_size) width;
      screen = add32 c'.screen row_size;
      pos = add32 c'.pos row_size;
    }

-- `command_lf`
unfoldable pub command_lf : Console → Console
command_lf c =
    if ltb (c.y + 1) height
    then record c { y = c.y + 1; pos = add32 c.pos row_size }
    else scroll_up c

-- `command_cr`
unfoldable pub command_cr : Console → Console
command_cr c = record c { pos = sub32 c.pos (c.x * 2); x = 0 }

-- `command_del`
unfoldable pub command_del : Console → Console
command_del c = record c { mem = poke16 c.mem c.pos erase }

-- the wrap at the end of a row, ahead of a character
unfoldable pub wrap : Console → Console
wrap c =
    if leb width c.x
    then command_lf (record c { x = c.x - width; pos = sub32 c.pos row_size })
    else c

-- a character that is shown
unfoldable pub show : Console → ℕ → Console
show c ch =
    let c' = wrap c in
    record c' {
      mem = poke (poke c'.mem c'.pos ch) (add32 c'.pos 1) attr;
      pos = add32 c'.pos 2;
      x = c'.x + 1;
    }

-- the `switch` of `console_write`
unfoldable pub write_char : Console → ℕ → Console
write_char c ch =
    if ch == 0x00 || ch == 0x05 || ch == 0x07
    then c
    else if ch == 0x08
    then command_bs c
    else if ch == 0x09
    then c
    else if ch == 0x0A
    then command_cr (command_lf c)
    else if ch == 0x0B
    then c
    else if ch == 0x0C
    then command_lf c
    else if ch == 0x0D
    then command_cr c
    else if ch == 0x7F
    then command_del c
    else show c ch

-- The loop of `console_write`, with `nr` as it stands before the test: the test that ends the loop counts
-- once more.
unfoldable pub write_from : Console → ℕ → List ℕ → Console × ℕ
write_from c nr [] = (c, nr + 1)
write_from c nr (ch ∷ buf) = write_from (write_char c ch) (nr + 1) buf

-- `console_write` of the bytes of a buffer
unfoldable pub write : Console → List ℕ → Console × ℕ
write c buf = write_from c 0 buf
