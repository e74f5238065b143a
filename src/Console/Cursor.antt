-- ===== src/Console/Cursor.antt =====
-- src/kernel/console.c: the cursor stays in the window, and the window in the memory of the card.
use yuios.Common.{
  ℕ, ◌+◌, ◌-◌, ◌*◌, ◌<◌, ◌≤◌, ◌≡◌, refl, inl, inr, Bool, true, false, List, [], ◌∷◌, arith, ltb,
  leb, ◌==◌, if◌then◌else◌, Bool-cases, add32, sub32, length, ◌||◌,
}
use yuios.Console.{
  Console, mem_base, mem_end, scr_size, row_size, width, height, clear, command_bs, rewind,
  scroll_up, command_lf, command_cr, command_del, wrap, show, write_char, write_from, write,
}

-- The window is whole rows into the memory and ends before the memory does; the cursor is in it, and its
-- address belongs to its column and row. A column of 80 stands for the end of a full row.
pub record IsValid (c : Console) : Type 0 where
  pub window : (mem_base ≤ c.screen) × (c.screen + scr_size ≤ mem_end)
  pub column : c.x ≤ width
  pub line : c.y < height
  pub cursor : c.pos ≡ c.screen + (c.y * 80 + c.x) * 2

pub clear-IsValid : (c : Console) → IsValid (clear c)
unfolding clear
clear-IsValid c = record {
  window = (omega arith, omega arith);
  column = omega arith;
  line = omega arith;
  cursor = omega arith;
}

-- what `rewind` leaves: the same cell, with room for one more row
pub record Rewound (c c' : Console) : Type 0 where
  pub valid : IsValid c'
  pub room : c'.screen + scr_size + row_size ≤ mem_end
  pub column : c'.x ≡ c.x
  pub line : c'.y ≡ c.y
  pub offset : c'.pos + c.screen ≡ c.pos + c'.screen

pub rewind-Rewound : (c : Console) → IsValid c → Rewound c (rewind c)
unfolding rewind
rewind-Rewound c v = elim (Bool-cases (leb mem_end (add32 c.screen (scr_size + row_size)))) [
  | inl e ↦ rw e (record {
    valid = record {
      window = (omega arith, omega arith);
      column = v.column;
      line = v.line;
      cursor = omega (arith, v.window, v.cursor, v.column, v.line);
    };
    room = omega arith;
    column = refl;
    line = refl;
    offset = omega (arith, v.window, v.cursor, v.column, v.line);
  })
  | inr e ↦ rw e (record {
    valid = v;
    room = ground (arith, v.window);
    column = refl;
    line = refl;
    offset = refl;
  })
]

pub scroll_up-IsValid : (c : Console) → IsValid c → IsValid (scroll_up c)
unfolding scroll_up
scroll_up-IsValid c v =
    let r = rewind-Rewound c v in
    let w = r.valid in
    record {
      window = (omega (arith, w.window, r.room), omega (arith, w.window, r.room));
      column = w.column;
      line = w.line;
      cursor = omega (arith, w.window, w.cursor, w.column, w.line, r.room);
    }

pub command_lf-IsValid : (c : Console) → IsValid c → IsValid (command_lf c)
unfolding command_lf
command_lf-IsValid c v = elim (Bool-cases (ltb (c.y + 1) height)) [
  | inl e ↦ rw e (record {
    window = v.window;
    column = v.column;
    line = ground arith;
    cursor = omega (arith, v.window, v.cursor, v.column, v.line);
  })
  | inr e ↦ rw e (scroll_up-IsValid c v)
]

pub command_cr-IsValid : (c : Console) → IsValid c → IsValid (command_cr c)
unfolding command_cr
command_cr-IsValid c v = record {
  window = v.window;
  column = omega arith;
  line = v.line;
  cursor = omega (arith, v.window, v.cursor, v.column, v.line);
}

pub command_bs-IsValid : (c : Console) → IsValid c → IsValid (command_bs c)
unfolding command_bs
command_bs-IsValid c v = elim (Bool-cases (c.x == 0)) [
  | inl e ↦ rw e v
  | inr e ↦
      let some_x : 0 < c.x = ground arith in
      rw e (record {
        window = v.window;
        column = omega (arith, v.column);
        line = v.line;
        cursor = omega (arith, v.window, v.cursor, v.column, v.line);
      })
]

pub command_del-IsValid : (c : Console) → IsValid c → IsValid (command_del c)
unfolding command_del
command_del-IsValid c v = record {
  window = v.window;
  column = v.column;
  line = v.line;
  cursor = v.cursor;
}

line_column : (c : Console) → (command_lf c).x ≡ c.x
unfolding command_lf scroll_up rewind
line_column c = elim (Bool-cases (ltb (c.y + 1) height)) [
  | inl e ↦ rw e refl
  | inr e ↦ rw e (elim (Bool-cases (leb mem_end (add32 c.screen (scr_size + row_size)))) [
    | inl f ↦ rw f refl
    | inr f ↦ rw f refl
  ])
]

branch : (b : Bool) (c d : Console) → IsValid c → IsValid d → IsValid (if b then c else d)
branch true c d v w = v
branch false c d v w = w

-- After `wrap` there is room for one more character in the row.
pub wrap_lem : (c : Console) → IsValid c → IsValid (wrap c) × ((wrap c).x < width)
unfolding wrap
wrap_lem c v = elim (Bool-cases (leb width c.x)) [
  | inr e ↦ rw e (v, ground arith)
  | inl e ↦
      let full : c.x ≡ 80 = ground (arith, v.column) in
      let start : Console = record c { x = c.x - width; pos = sub32 c.pos row_size } in
      let at_start : IsValid start = record {
        window = v.window;
        column = omega arith;
        line = v.line;
        cursor = omega (arith, v.window, v.cursor, full, v.line);
      } in
      let column = line_column start in
      rw e (command_lf-IsValid start at_start, omega (arith, column, full))
]

pub show-IsValid : (c : Console) → (ch : ℕ) → IsValid c → IsValid (show c ch)
unfolding show
show-IsValid c ch v =
    let (w, room) = wrap_lem c v in
    record {
      window = w.window;
      column = omega arith;
      line = w.line;
      cursor = omega (arith, w.window, w.cursor, w.column, w.line);
    }

pub write_char-IsValid : (c : Console) → (ch : ℕ) → IsValid c → IsValid (write_char c ch)
unfolding write_char
write_char-IsValid c ch v = branch (ch == 0x00 || ch == 0x05 || ch == 0x07) c _ v (
    branch (ch == 0x08) (command_bs c) _ (command_bs-IsValid c v) (
      branch (ch == 0x09) c _ v (
        branch (ch == 0x0A) (command_cr (command_lf c)) _
          (command_cr-IsValid (command_lf c) (command_lf-IsValid c v))
          (branch (ch == 0x0B) c _ v (
            branch (ch == 0x0C) (command_lf c) _ (command_lf-IsValid c v) (
              branch (ch == 0x0D) (command_cr c) _ (command_cr-IsValid c v) (
                branch (ch == 0x7F) (command_del c) _ (command_del-IsValid c v)
                  (show-IsValid c ch v))))))))

-- Whatever bytes are written to a console in a valid state, the state stays valid: the window lies in the
-- card's memory, the cursor in the window, and its address belongs to its column and row. The number that
-- `console_write` returns is one more than the number of bytes.
pub write-IsValid :
    (c : Console) (buf : List ℕ)
    → IsValid c
    → IsValid (write c buf).0 × ((write c buf).1 ≡ length buf + 1)
unfolding write write_from
write-IsValid c buf v = from c 0 buf v
  where
    from :
        (c : Console) (nr : ℕ) (buf : List ℕ)
        → IsValid c
        → IsValid (write_from c nr buf).0 × ((write_from c nr buf).1 ≡ length buf + (nr + 1))
    from c nr [] v = (v, omega arith)
    from c nr (ch ∷ rest) v =
        let (w, n) = from (write_char c ch) (nr + 1) rest (write_char-IsValid c ch v) in
        (w, omega (arith, n))
