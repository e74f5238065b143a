-- ===== src/Mutex/Examples.antt =====
-- Two tasks and a lock that the first one takes.
use yuios.Common.{◌≡◌, refl, inl}
use yuios.Mutex.{
  entered, outside, System, goto, init, lock_acquire, mutex_lock, Reachable, start, step, acquire,
  test,
}
use yuios.Mutex.Waits.{Inv}
use yuios.Mutex.Exclusion.{Reachable-Inv}

abbrev booted : System
booted = record { lock = init; phase = λ t. outside }

abbrev at_test : System
at_test = goto booted 1 (lock_acquire init 1)

abbrev taken : System
taken = goto at_test 1 (mutex_lock at_test.lock 1)

taken-Reachable : Reachable taken
unfolding init lock_acquire mutex_lock
taken-Reachable =
    step at_test taken (step booted at_test start (acquire 1 (inl refl))) (test 1 refl)

taken_entered : taken.phase 1 ≡ entered
unfolding init lock_acquire mutex_lock
taken_entered = refl

Reachable-Inv_example : Inv taken
Reachable-Inv_example = Reachable-Inv taken taken-Reachable
