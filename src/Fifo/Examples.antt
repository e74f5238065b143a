-- ===== src/Fifo/Examples.antt =====
-- A ring of four bytes that has wrapped around.
use yuios.Common.{◌≡◌, refl, List, [], ◌∷◌, arith}
use yuios.Fifo.{Fifo}
use yuios.Fifo.Ring.{IsValid, contents}
use yuios.Fifo.Queue.{Op, take, give, run_queue}
use yuios.Fifo.Run.{run, view, run_refines}

abbrev wrapped : Fifo
wrapped = record { buf = 13 ∷ 0 ∷ 11 ∷ 12 ∷ []; length = 4; head = 1; tail = 2 }

wrapped-IsValid : IsValid wrapped
wrapped-IsValid = record {
  storage = omega arith;
  small = omega arith;
  head_in = omega arith;
  tail_in = omega arith;
}

wrapped-contents : contents wrapped ≡ 11 ∷ 12 ∷ 13 ∷ []
wrapped-contents = refl

abbrev ops : List Op
ops = give 14 ∷ take ∷ take ∷ take ∷ take ∷ []

run_refines_example : view (run ops wrapped) ≡ run_queue 4 ops (contents wrapped)
run_refines_example = run_refines ops wrapped wrapped-IsValid (omega arith)
