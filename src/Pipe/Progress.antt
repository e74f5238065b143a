-- ===== src/Pipe/Progress.antt =====
-- src/fs/pipe.c: the reader and the writer in any order of turns.
use yuios.Common.{
  ℕ, ◌≡◌, refl, ap, ◌∙◌, inl, inr, true, false, ◌&&◌, List, [], ◌∷◌, arith, Bool-cases, ok, ◌>>=◌,
}
use mathlib.Core.Path.{ap₂}
use yuios.Fifo.{full, empty}
use yuios.Fifo.Refine.{empty_iff, full_iff}
use yuios.Pipe.{
  read_round, write_round, System, Turn, reader, writer, read_turn, write_turn, turn, turns,
}
use yuios.Pipe.Order.{Inv, taken-Inv, given-Inv}

-- the reader blocks
blocked_reader :
    (s : System)
    → Inv s
    → empty s.pipe.fifo ≡ true
    → Inv (record s {
      pipe = record s.pipe { rxwaiter = true; reader_blocked = true };
      reading = true;
    })
blocked_reader s i e = record {
  valid = i.valid;
  two = i.two;
  in_order = i.in_order;
  rx_set = refl;
  tx_set = i.tx_set;
  at_empty = λ h. (e, refl);
  at_full = i.at_full;
  reader_woken = λ h h'. absurd (ground arith);
  writer_woken = i.writer_woken;
}

-- the writer blocks
blocked_writer :
    (s : System) (x : ℕ)
    → Inv s
    → full s.pipe.fifo ≡ true
    → Inv (record s {
      pipe = record s.pipe { txwaiter = true; writer_blocked = true };
      writing = true;
      held = x;
    })
blocked_writer s x i e = record {
  valid = i.valid;
  two = i.two;
  in_order = i.in_order;
  rx_set = i.rx_set;
  tx_set = refl;
  at_empty = i.at_empty;
  at_full = λ h. (e, refl);
  reader_woken = i.reader_woken;
  writer_woken = λ h h'. absurd (ground arith);
}

turn-Inv : (s : System) (t : Turn) → Inv s → (s' : System) × ((turn s t ≡ ok s') × Inv s')
unfolding turn read_turn write_turn read_round write_round
turn-Inv s reader i = elim (Bool-cases s.reading) [
  | inl inside ↦ elim (Bool-cases s.pipe.reader_blocked) [
    | inl blocked ↦ (s, (ap₂ (λ a b. read_turn a b s) inside blocked, i))
    | inr woken ↦
        let (s', (run, i')) = taken-Inv s i (i.reader_woken inside woken) in
        (s', (ap₂ (λ a b. read_turn a b s) inside woken ∙ run, i'))
  ]
  | inr outside ↦ elim (Bool-cases (empty s.pipe.fifo)) [
    | inl e ↦
        let idle : s.pipe.reader_blocked ≡ false = elim (Bool-cases s.pipe.reader_blocked) [
          | inl b ↦ absurd (let h = (i.at_empty b).1 in ground arith)
          | inr b ↦ b
        ] in
        (
          record s {
            pipe = record s.pipe { rxwaiter = true; reader_blocked = true };
            reading = true;
          },
          (
            ap (λ a. read_turn a s.pipe.reader_blocked s) outside
                ∙ rw (e, i.rx_set ∙ idle, idle, ◌>>=◌) refl,
            blocked_reader s i e,
          ),
        )
    | inr e ↦
        let (s', (run, i')) = taken-Inv s i e in
        (s', (ap (λ a. read_turn a s.pipe.reader_blocked s) outside ∙ rw e run, i'))
  ]
]
turn-Inv s (writer x) i = elim (Bool-cases s.writing) [
  | inl inside ↦ elim (Bool-cases s.pipe.writer_blocked) [
    | inl blocked ↦ (s, (ap₂ (λ a b. write_turn a b s x) inside blocked, i))
    | inr woken ↦
        let (s', (run, i')) = given-Inv s s.held i (i.writer_woken inside woken) in
        (s', (ap₂ (λ a b. write_turn a b s x) inside woken ∙ run, i'))
  ]
  | inr outside ↦ elim (Bool-cases (full s.pipe.fifo)) [
    | inl e ↦
        let idle : s.pipe.writer_blocked ≡ false = elim (Bool-cases s.pipe.writer_blocked) [
          | inl b ↦ absurd (let h = (i.at_full b).1 in ground arith)
          | inr b ↦ b
        ] in
        (
          record s {
            pipe = record s.pipe { txwaiter = true; writer_blocked = true };
            writing = true;
            held = x;
          },
          (
            ap (λ a. write_turn a s.pipe.writer_blocked s x) outside
                ∙ rw (e, i.tx_set ∙ idle, idle, ◌>>=◌) refl,
            blocked_writer s x i e,
          ),
        )
    | inr e ↦
        let (s', (run, i')) = given-Inv s x i e in
        (s', (ap (λ a. write_turn a s.pipe.writer_blocked s x) outside ∙ rw e run, i'))
  ]
]

not_both : (s : System) → Inv s → (s.pipe.reader_blocked && s.pipe.writer_blocked) ≡ false
not_both s i = elim (Bool-cases s.pipe.reader_blocked) [
  | inr e ↦ rw e refl
  | inl e ↦ elim (Bool-cases s.pipe.writer_blocked) [
    | inr e' ↦ rw (e, e') refl
    | inl e' ↦ absurd (
        let a = (i.at_empty e).0 in
        let b = (i.at_full e').0 in ground (arith, empty_iff i.valid, full_iff i.valid, i.two))
  ]
]

-- Whatever turns a reader and a writer take on a pipe, from a state where `Inv` holds, no assertion of the ring, of the
-- pipe, of `task_block` or of `task_unblock` fails; what was read, followed by what the ring holds, is what was
-- written, in order; each is blocked exactly while its waiter is set, the reader only on an empty ring and the writer
-- only on a full one; one that was unblocked finds what it waited for; and the two are never both blocked.
pub turns-Inv :
    (ts : List Turn) (s : System)
    → Inv s
    → (s' : System) × ((turns s ts ≡ ok s')
        × (Inv s' × ((s'.pipe.reader_blocked && s'.pipe.writer_blocked) ≡ false)))
unfolding turns
turns-Inv [] s i = (s, (refl, (i, not_both s i)))
turns-Inv (t ∷ ts) s i =
    let (s₁, (run, i₁)) = turn-Inv s t i in
    let (s₂, (runs, rest)) = turns-Inv ts s₁ i₁ in (s₂, (rw (run, ◌>>=◌) runs, rest))
