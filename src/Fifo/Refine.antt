-- ===== src/Fifo/Refine.antt =====
-- src/lib/fifo.c: the ring behaves as a queue of bounded length whose `put` drops the oldest byte
-- when it is full.
use yuios.Common.{
  ℕ, ◌+◌, ◌-◌, ◌^◌, ◌≤◌, ◌<◌, ◌≡◌, ◌≢◌, sym, ap, List, [], ◌∷◌, ◌++◌, arith, true, false, length,
  length-set, get_or, set, if◌then◌else◌, ltb, leb, inl, inr, Bool-cases, ok, ◌==◌, lt→ltb, le→leb,
}
use mathlib.Core.List.{append_assoc, append-nil}
use yuios.Fifo.{Fifo, next, init, full, empty, get}
use yuios.Fifo.Ring.{
  IsValid, span, between, contents, span-front, span-set_outside, span-set_end, next_cases, next_in,
  length-contents,
}

pub init-IsValid :
    (buf : List ℕ) (len : ℕ) → len ≤ length buf → len < 2 ^ 31 → 0 < len → IsValid (init buf len)
unfolding init
init-IsValid buf len h k p = omega arith

-- the ring after a byte is taken, and after one is written where there is room
abbrev pub taken : Fifo → Fifo
taken f = record f { tail = next f f.tail }

abbrev pub written : Fifo → ℕ → Fifo
written f x = record f { buf = set f.buf f.head x; head = next f f.head }

-- Writing a byte at `head` and stepping on appends it, when the step does not meet `tail`.
between-write :
    (buf : List ℕ) (len tail head to x : ℕ)
    → len ≤ length buf
    → tail < len
    → head < len
    → to ≡ (if ltb (head + 1) len then head + 1 else 0)
    → to ≢ tail
    → between (set buf head x) len tail to ≡ between buf len tail head ++ (x ∷ [])
between-write buf len tail head to x room ht hh e ne = elim (Bool-cases (ltb (head + 1) len)) [
  | inl step ↦ elim (Bool-cases (leb tail head)) [
    | inl front ↦
        rw (e, step, front, le→leb tail (head + 1) (ground arith))
          (span-set_end buf head x tail (head - tail) (head + 1 - tail) (omega arith) (ground arith)
            (ground arith))
    | inr back ↦
        let over : leb tail (head + 1) ≡ false = ground arith in
        rw
          (
            e,
            step,
            back,
            over,
            span-set_outside buf head x tail (len - tail) (ground arith),
            span-set_end buf head x 0 head (head + 1) (omega arith) (omega arith) (omega arith),
          )
          (sym (append_assoc (span buf tail (len - tail)) (span buf 0 head) (x ∷ [])))
  ]
  | inr wrap ↦
      let front : leb tail head ≡ true = ground arith in
      let apart : leb tail 0 ≡ false = ground arith in
      rw
        (
          e,
          wrap,
          front,
          apart,
          span-set_end buf head x tail (head - tail) (len - tail) (omega arith) (ground arith)
              (ground arith),
        )
        (append-nil (span buf tail (head - tail) ++ (x ∷ [])))
]

module _ {f : Fifo} (valid : IsValid f) where
  pub empty_iff : empty f ≡ (length (contents f) == 0)
  unfolding empty
  empty_iff = ground (arith, length-contents valid, valid.tail_in, valid.head_in)

  pub full_iff : full f ≡ (length (contents f) + 1 == f.length)
  unfolding full
  full_iff = ground (
    arith,
    length-contents valid,
    valid.tail_in,
    valid.head_in,
    next_cases valid f.head valid.head_in,
  )

  pub taken-IsValid : IsValid (taken f)
  taken-IsValid = record {
    storage = valid.storage;
    small = valid.small;
    head_in = valid.head_in;
    tail_in = next_in valid f.tail valid.tail_in;
  }

  pub contents-taken : empty f ≡ false → contents f ≡ get_or f.buf f.tail 0 ∷ contents (taken f)
  unfolding empty
  contents-taken h = ground (
    arith,
    valid.tail_in,
    next_cases valid f.tail valid.tail_in,
    span-front f.buf f.tail (f.head - f.tail),
    span-front f.buf f.tail (f.length - f.tail),
  )

  pub get_lem :
      (x : ℕ) (xs : List ℕ)
      → contents f ≡ x ∷ xs
      → (get f ≡ ok (x, taken f)) × (contents (taken f) ≡ xs)
  unfolding get
  get_lem x xs h = elim (Bool-cases (empty f)) [
    | inl e ↦ ground (arith, empty_iff, ap length h)
    | inr e ↦
        rw (e, lt→ltb f.tail (length f.buf) (omega (arith, valid.storage, valid.tail_in)))
          (ground (arith, contents-taken e))
  ]

  pub written-IsValid : (x : ℕ) → IsValid (written f x)
  written-IsValid x = record {
    storage = omega (arith, valid.storage, length-set f.buf f.head x);
    small = valid.small;
    head_in = next_in valid f.head valid.head_in;
    tail_in = valid.tail_in;
  }

  pub contents-written : (x : ℕ) → full f ≡ false → contents (written f x) ≡ contents f ++ (x ∷ [])
  unfolding full
  contents-written x h =
      between-write f.buf f.length f.tail f.head (next f f.head) x valid.storage valid.tail_in
        valid.head_in (next_cases valid f.head valid.head_in) (ground arith)
