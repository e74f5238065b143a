-- ===== src/Console/Rows.antt =====
-- src/kernel/console.c: what scrolling does to the rows of the window.
use yuios.Common.{
  ℕ, zero, suc, ◌+◌, ◌-◌, ◌*◌, ◌%◌, ◌<◌, ◌≡◌, refl, inl, inr, true, false, arith, ltb, leb, ◌==◌,
  if◌then◌else◌, Bool-cases, add32,
}
use yuios.Bytes.{Mem}
use yuios.Bytes.Blocks.{within, memcpy_lem}
use yuios.Console.{
  Console, mem_base, mem_end, scr_size, row_size, width, poke32, erase, erase_words, rewind,
  scroll_up,
}
use yuios.Console.Cursor.{IsValid, rewind-Rewound}

-- the bytes of the word `erase`, lowest first
abbrev pub erase_byte : ℕ → ℕ
erase_byte k = if k == 0 then 0x20 else if k == 1 then 0x07 else 0

pub erase_words_lem :
    (m : Mem) (a left b : ℕ)
    → erase_words m a left b ≡ (if within a (left * 4) b then erase_byte ((b - a) % 4) else m b)
unfolding erase_words
erase_words_lem m a zero b = ground arith
erase_words_lem m a (suc left) b = ground (arith, erase_words_lem (poke32 m a erase) (a + 4) left b)

-- byte `j` of row `r` of the window
abbrev pub cell : Console → (r j : ℕ) → ℕ
cell c r j = c.mem (c.screen + r * 160 + j)

-- the window shows the same after it has moved to the start of the memory
pub cell-rewind :
    (c : Console) (r j : ℕ) → IsValid c → r < 25 → j < 160 → cell (rewind c) r j ≡ cell c r j
unfolding rewind
cell-rewind c r j v hr hj = elim (Bool-cases (leb mem_end (add32 c.screen (scr_size + row_size)))) [
  | inl e ↦
      let in_window : within mem_base scr_size (mem_base + r * 160 + j) ≡ true = ground arith in
      let from : c.screen + (mem_base + r * 160 + j - mem_base) ≡ c.screen + r * 160 + j =
        omega arith in
      rw
        (
          e,
          memcpy_lem c.mem mem_base c.screen scr_size (mem_base + r * 160 + j) (inl v.window.0),
          in_window,
          from,
        )
        refl
  | inr e ↦ rw e refl
]

-- In a valid state, scrolling moves each row of the window up by one, so that the last row but one shows
-- what the last one did. In the new last row each pair of cells is a blank, and a zero byte with the
-- attribute 0.
pub scroll_up_lem :
    (c : Console) (r j : ℕ)
    → IsValid c
    → r < 25
    → j < 160
    → cell (scroll_up c) r j ≡ (if ltb r 24 then cell c (r + 1) j else erase_byte (j % 4))
unfolding scroll_up
scroll_up_lem c r j v hr hj =
    let w = rewind-Rewound c v in
    let c' = rewind c in
    let a = c'.screen + row_size + r * 160 + j in
    let start : add32 c'.screen row_size ≡ c'.screen + row_size = omega (arith, w.room) in
    let end : add32 c'.screen scr_size ≡ c'.screen + scr_size = omega (arith, w.room) in
    let e = erase_words_lem c'.mem (c'.screen + scr_size) width a in
    rw (start, end, e)
      (elim (Bool-cases (ltb r 24)) [
        | inl up ↦
            let out : within (c'.screen + scr_size) (width * 4) a ≡ false = ground arith in
            let same : a ≡ c'.screen + (r + 1) * 160 + j = omega arith in
            rw (out, up, same) (cell-rewind c (r + 1) j v (ground arith) hj)
        | inr last ↦
            let inside : within (c'.screen + scr_size) (width * 4) a ≡ true = ground arith in
            let offset : a - (c'.screen + scr_size) ≡ j = ground arith in
            rw (inside, last, offset) refl
      ])
