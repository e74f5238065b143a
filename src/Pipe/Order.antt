-- ===== src/Pipe/Order.antt =====
-- src/fs/pipe.c: the bytes come out in order, and no wake-up is lost.
use yuios.Common.{
  ℕ, ◌<◌, ◌≤◌, ◌≡◌, refl, sym, ap, ◌∙◌, inl, inr, Bool, true, false, List, [], ◌∷◌, ◌++◌, arith,
  length, length-append, List-cases, ok, ◌>>=◌,
}
use mathlib.Core.List.{append_assoc}
use mathlib.Core.Path.{ap₂}
use yuios.Fifo.{Fifo, full, empty}
use yuios.Fifo.Ring.{IsValid, contents, length-contents}
use yuios.Fifo.Refine.{
  empty_iff, full_iff, taken, taken-IsValid, get_lem, written, written-IsValid, contents-written,
}
use yuios.Fifo.Run.{put_with_room}
use yuios.Pipe.{
  Pipe, wake_writer, wake_reader, take_byte, give_byte, System, after_read, after_write,
}

-- What was written is what was read and what is in the ring, in order. `rxwaiter` is set exactly while the reader is
-- blocked and `txwaiter` while the writer is. A reader is blocked only while the ring is empty and a writer only while
-- it is full, and one that was unblocked finds a byte, or room for one.
pub record Inv (s : System) : Type 0 where
  pub valid : IsValid s.pipe.fifo
  pub two : 2 ≤ s.pipe.fifo.length
  pub in_order : s.sent ≡ s.received ++ contents s.pipe.fifo
  pub rx_set : s.pipe.rxwaiter ≡ s.pipe.reader_blocked
  pub tx_set : s.pipe.txwaiter ≡ s.pipe.writer_blocked
  pub at_empty : s.pipe.reader_blocked ≡ true → (empty s.pipe.fifo ≡ true) × (s.reading ≡ true)
  pub at_full : s.pipe.writer_blocked ≡ true → (full s.pipe.fifo ≡ true) × (s.writing ≡ true)
  pub reader_woken : s.reading ≡ true → s.pipe.reader_blocked ≡ false → empty s.pipe.fifo ≡ false
  pub writer_woken : s.writing ≡ true → s.pipe.writer_blocked ≡ false → full s.pipe.fifo ≡ false

short : {f : Fifo} → IsValid f → length (contents f) < f.length
short v = ground (arith, length-contents v, v.head_in, v.tail_in)

some_byte : {f : Fifo} → IsValid f → empty f ≡ false → (x : ℕ) × (r : List ℕ) × (contents f ≡ x ∷ r)
some_byte {f} v h = elim (List-cases (contents f)) [
  | inl none_there ↦ absurd (ground (arith, empty_iff v, ap length none_there))
  | inr (x, r, e) ↦ (x, r, e)
]

wake_writer_lem :
    (p : Pipe) (w b : Bool)
    → p.txwaiter ≡ w
    → p.writer_blocked ≡ b
    → w ≡ b
    → wake_writer w b p ≡ ok (record p { txwaiter = false; writer_blocked = false })
unfolding wake_writer
wake_writer_lem p true true e e' h = refl
wake_writer_lem p true false e e' h = absurd (ground arith)
wake_writer_lem p false true e e' h = absurd (ground arith)
wake_writer_lem p false false e e' h =
    ap₂ (λ a b. ok (record p { txwaiter = a; writer_blocked = b })) e e'

wake_reader_lem :
    (p : Pipe) (w b : Bool)
    → p.rxwaiter ≡ w
    → p.reader_blocked ≡ b
    → w ≡ b
    → wake_reader w b p ≡ ok (record p { rxwaiter = false; reader_blocked = false })
unfolding wake_reader
wake_reader_lem p true true e e' h = refl
wake_reader_lem p true false e e' h = absurd (ground arith)
wake_reader_lem p false true e e' h = absurd (ground arith)
wake_reader_lem p false false e e' h =
    ap₂ (λ a b. ok (record p { rxwaiter = a; reader_blocked = b })) e e'

-- A byte is taken.
pub taken-Inv :
    (s : System)
    → Inv s
    → empty s.pipe.fifo ≡ false
    → (s' : System) × (((take_byte s.pipe >>= λ r. ok (after_read s r)) ≡ ok s') × Inv s')
unfolding take_byte
taken-Inv s i h =
    let f = s.pipe.fifo in
    let (x, r, at) = some_byte i.valid h in
    let (run, left) = get_lem i.valid x r at in
    let v = taken-IsValid i.valid in
    let room : full (taken f) ≡ false =
      ground (arith, short i.valid, full_iff v, ap length at, ap length left) in
    (
      record s {
        pipe = record s.pipe { fifo = taken f; txwaiter = false; writer_blocked = false };
        reading = false;
        received = s.received ++ (x ∷ []);
      },
      (
        rw
            (
              run,
              ◌>>=◌,
              wake_writer_lem (record s.pipe { fifo = taken f }) s.pipe.txwaiter
                  s.pipe.writer_blocked refl refl i.tx_set,
            )
            refl,
        record {
          valid = v;
          two = i.two;
          in_order =
              i.in_order
              ∙ ap (λ q. s.received ++ q) (at ∙ ap (λ q. x ∷ q) (sym left))
              ∙ sym (append_assoc s.received (x ∷ []) (contents (taken f)));
          rx_set = i.rx_set;
          tx_set = refl;
          at_empty = λ e. absurd (let b = (i.at_empty e).0 in ground arith);
          at_full = λ e. absurd (ground arith);
          reader_woken = λ e. absurd (ground arith);
          writer_woken = λ e e'. room;
        },
      ),
    )

-- A byte is written.
pub given-Inv :
    (s : System) (x : ℕ)
    → Inv s
    → full s.pipe.fifo ≡ false
    → (s' : System) × (((give_byte s.pipe x >>= λ r. ok (after_write s x r)) ≡ ok s') × Inv s')
unfolding give_byte
given-Inv s x i room =
    let f = s.pipe.fifo in
    let v = written-IsValid i.valid x in
    let now = contents-written i.valid x room in
    let n = length-append (contents f) (x ∷ []) in
    let some_there : empty (written f x) ≡ false = ground (arith, empty_iff v, ap length now, n) in
    (
      record s {
        pipe = record s.pipe { fifo = written f x; rxwaiter = false; reader_blocked = false };
        writing = false;
        sent = s.sent ++ (x ∷ []);
      },
      (
        rw
            (
              put_with_room i.valid x room,
              ◌>>=◌,
              wake_reader_lem (record s.pipe { fifo = written f x }) s.pipe.rxwaiter
                  s.pipe.reader_blocked refl refl i.rx_set,
            )
            refl,
        record {
          valid = v;
          two = i.two;
          in_order =
              ap (λ q. q ++ (x ∷ [])) i.in_order
              ∙ append_assoc s.received (contents f) (x ∷ [])
              ∙ ap (λ q. s.received ++ q) (sym now);
          rx_set = refl;
          tx_set = i.tx_set;
          at_empty = λ e. absurd (ground arith);
          at_full = λ e. absurd (let b = (i.at_full e).0 in ground arith);
          reader_woken = λ e e'. some_there;
          writer_woken = λ e. absurd (ground arith);
        },
      ),
    )
