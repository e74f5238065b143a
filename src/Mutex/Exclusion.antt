-- ===== src/Mutex/Exclusion.antt =====
-- src/kernel/mutex.c: at most one task has a lock, and no task is left waiting for a free one.
use yuios.Common.{ℕ, ◌≡◌, refl, ap, inl, some, arith, ok, ◌>>=◌}
use yuios.Mutex.{
  entered, holding, System, acquired, Step, acquire, test, finish, release, unlock, Reachable,
  start, step, init,
}
use yuios.Mutex.Phases.{owns}
use yuios.Mutex.Waits.{Inv}
use yuios.Mutex.Taking.{test-Inv, acquire-Inv, no_holder}
use yuios.Mutex.Giving.{finish-Inv, release-Inv, unlock-Inv}

step-Inv : (s s' : System) → Inv s → Step s s' → Inv s'
step-Inv s _ v (acquire t at) = acquire-Inv s t v at
step-Inv s _ v (test t at) = test-Inv s t v at
step-Inv s _ v (finish t r at run) = finish-Inv s t r v at run
step-Inv s _ v (release t r at run) = release-Inv s t r v run
step-Inv s _ v (unlock t r at run) = unlock-Inv s t r v at run

-- Whatever tasks call `lock_acquire` and `lock_release`, in any interleaving of their steps: at most one
-- task has the mutex, and only while it is taken; the holder is the task in its critical section; every
-- task on the list of waiting tasks is blocked there and stands on it once; and while the mutex is free
-- and the list is not empty, some task is on its way to the mutex.
pub Reachable-Inv : (s : System) → Reachable s → Inv s
unfolding init
Reachable-Inv _ start = record {
  alone = λ t u h k. ground (arith, h);
  locked = λ t h. ground (arith, h);
  held = λ t h. ground (arith, h);
  holder = λ t h. ground (arith, h);
  fresh = λ h. refl;
  queued = tt;
  distinct = tt;
  awake = λ h. inl refl;
}
Reachable-Inv _ (step s s' r k) = step-Inv s s' (Reachable-Inv s r) k

-- In every such state, the assertion on `repeat` at the end of `lock_acquire` holds: a task that has come
-- through `mutex_lock` becomes the holder.
pub acquired_lem :
    (s : System) (t : ℕ)
    → Reachable s
    → s.phase t ≡ entered
    → acquired s.lock t ≡ ok (record s.lock { holder = some t; repeat = 1 }, holding)
unfolding acquired
acquired_lem s t r at =
    let v = Reachable-Inv s r in
    let free = no_holder s t v (ap owns at) (λ h. ground (arith, h, at)) in
    rw (v.fresh free, ◌>>=◌) refl
