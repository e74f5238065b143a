-- ===== src/Fifo.antt =====
-- src/lib/fifo.c: a ring of bytes over caller-provided memory. `head` is where the next byte is
-- written and `tail` the oldest byte; the ring is full one byte before the two would meet. `buf` is
-- the memory behind the pointer. Bytes are only moved, so a byte is any number.
mod Examples
pub mod Ring
pub mod Queue
pub mod Refine
pub mod Run
use yuios.Common.{
  ℕ, zero, suc, ◌%◌, Bool, true, false, not, List, ltb, ◌==◌, length, get_or, set, Outcome, ok,
  halt, fault, ◌>>=◌, ◌>>◌, assert, access, add32,
}

-- `fifo_t`
pub record Fifo : Type 0 where
  pub buf : List ℕ
  pub length : ℕ
  pub head : ℕ
  pub tail : ℕ

-- `fifo_next`; a zero `length` divides by zero, which `IsValid` of Ring rules out.
abbrev pub next : Fifo → ℕ → ℕ
next fifo pos = add32 pos 1 % fifo.length

-- `fifo_init`
unfoldable pub init : List ℕ → ℕ → Fifo
init buf len = record { buf = buf; length = len; head = 0; tail = 0 }

-- `fifo_full`
unfoldable pub full : Fifo → Bool
full fifo = next fifo fifo.head == fifo.tail

-- `fifo_empty`
unfoldable pub empty : Fifo → Bool
empty fifo = fifo.head == fifo.tail

-- `fifo_get`: the byte and the new ring
unfoldable pub get : Fifo → Outcome (ℕ × Fifo)
get fifo = do
  assert (not (empty fifo))
  access (ltb fifo.tail (length fifo.buf))
  ok (get_or fifo.buf fifo.tail 0, record fifo { tail = next fifo fifo.tail })

-- The loop of `fifo_put`, which drops bytes while the ring is full. Running out of fuel is a `fault`.
unfoldable pub make_room : ℕ → Fifo → Outcome Fifo
make_room zero fifo = halt fault
make_room (suc fuel) fifo = elim (full fifo) [
  | true ↦ get fifo >>= λ (_, fifo'). make_room fuel fifo'
  | false ↦ ok fifo
]

-- `fifo_put`
unfoldable pub put : Fifo → ℕ → Outcome Fifo
put fifo byte = do
  fifo' ← make_room 2 fifo
  access (ltb fifo'.head (length fifo'.buf))
  ok (record fifo' { buf = set fifo'.buf fifo'.head byte; head = next fifo' fifo'.head })
