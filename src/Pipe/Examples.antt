-- ===== src/Pipe/Examples.antt =====
-- A pipe over a ring of two bytes, and a few turns.
use yuios.Common.{◌≡◌, refl, false, ◌&&◌, [], ◌∷◌, arith, ok}
use yuios.Fifo.{init}
use yuios.Fifo.Refine.{init-IsValid}
use yuios.Pipe.{System, reader, writer, turns}
use yuios.Pipe.Order.{Inv}
use yuios.Pipe.Progress.{turns-Inv}

abbrev two_tasks : System
two_tasks = record {
  pipe = record {
    fifo = init (0 ∷ 0 ∷ []) 2;
    rxwaiter = false;
    txwaiter = false;
    reader_blocked = false;
    writer_blocked = false;
  };
  reading = false;
  writing = false;
  held = 0;
  sent = [];
  received = [];
}

two_tasks-Inv : Inv two_tasks
unfolding init
two_tasks-Inv = record {
  valid = init-IsValid (0 ∷ 0 ∷ []) 2 (omega arith) (omega arith) (omega arith);
  two = omega arith;
  in_order = refl;
  rx_set = refl;
  tx_set = refl;
  at_empty = λ e. absurd (ground arith);
  at_full = λ e. absurd (ground arith);
  reader_woken = λ e. absurd (ground arith);
  writer_woken = λ e. absurd (ground arith);
}

turns-Inv_example :
    (s' : System) × ((turns two_tasks
          (writer 5 ∷ writer 6 ∷ reader ∷ writer 7 ∷ reader ∷ reader ∷ [])
        ≡ ok s')
      × (Inv s' × ((s'.pipe.reader_blocked && s'.pipe.writer_blocked) ≡ false)))
turns-Inv_example =
    turns-Inv (writer 5 ∷ writer 6 ∷ reader ∷ writer 7 ∷ reader ∷ reader ∷ []) two_tasks
      two_tasks-Inv
