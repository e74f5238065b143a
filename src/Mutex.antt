-- ===== src/Mutex.antt =====
-- src/kernel/mutex.c: locks that tasks take and wait for. A function that runs with interrupts off up to
-- where it blocks is one step, so a call of `lock_acquire` or `lock_release` by a task is several steps,
-- and a task's phase tells which comes next. `waiters` is the list of waiting tasks, the oldest first;
-- `mutex->value` is a `bool`.
mod Examples
pub mod Phases
pub mod Waits
pub mod Taking
pub mod Giving
pub mod Exclusion
use yuios.Common.{
  ℕ, ◌+◌, ◌-◌, ◌≡◌, ◌⊎◌, Bool, true, false, Option, none, some, List, [], ◌∷◌, ◌++◌, ltb, ◌==◌,
  if◌then◌else◌, Outcome, ok, ◌>>=◌, ◌>>◌, assert, add32,
}

-- `lock_t` with its `mutex_t`
pub record Lock : Type 0 where
  pub holder : Option ℕ
  pub repeat : ℕ
  pub value : Bool
  pub waiters : List ℕ

-- Where a task is: outside; at the test of the loop of `mutex_lock`; blocked there; behind `mutex_lock`;
-- the holder; or before `mutex_unlock`.
pub data Phase : Type 0 where
  outside trying waiting entered holding leaving : Phase

-- `lock_init`
unfoldable pub init : Lock
init = record { holder = none; repeat = 0; value = false; waiters = [] }

-- one test of the loop of `mutex_lock`, with what follows it
unfoldable pub mutex_lock : Lock → ℕ → Lock × Phase
mutex_lock l task =
    if l.value
    then (record l { waiters = l.waiters ++ (task ∷ []) }, waiting)
    else (record l { value = true }, entered)

-- `mutex_unlock`: the lock, and the task that is unblocked
unfoldable pub mutex_unlock : Lock → Outcome (Lock × Option ℕ)
mutex_unlock l = do
  assert l.value
  elim l.waiters [
    | [] ↦ ok (record l { value = false }, none)
    | w ∷ ws ↦ ok (record l { value = false; waiters = ws }, some w)
  ]

abbrev pub held_by : Lock → ℕ → Bool
held_by l task = elim l.holder [ none ↦ false | some h ↦ h == task ]

-- `lock_acquire` up to its call of `mutex_lock`
unfoldable pub lock_acquire : Lock → ℕ → Lock × Phase
lock_acquire l task =
    if held_by l task then (record l { repeat = add32 l.repeat 1 }, holding) else (l, trying)

-- the rest of `lock_acquire`
unfoldable pub acquired : Lock → ℕ → Outcome (Lock × Phase)
acquired l task = do
  assert (l.repeat == 0)
  ok (record l { holder = some task; repeat = 1 }, holding)

-- `lock_release` up to its call of `mutex_unlock`
unfoldable pub lock_release : Lock → ℕ → Outcome (Lock × Phase)
lock_release l task = do
  assert (held_by l task)
  if ltb 1 l.repeat
      then ok (record l { repeat = l.repeat - 1 }, holding)
      else do assert (l.repeat == 1); ok (record l { holder = none; repeat = 0 }, leaving)

-- the lock and the phase of each task
pub record System : Type 0 where
  pub lock : Lock
  pub phase : ℕ → Phase

abbrev pub set_phase : (ℕ → Phase) → ℕ → Phase → ℕ → Phase
set_phase phase task p u = if task == u then p else phase u

abbrev pub goto : System → ℕ → Lock × Phase → System
goto s task (l, p) = record { lock = l; phase = set_phase s.phase task p }

-- the phases when `mutex_unlock` has let a task go on
abbrev pub woken : (ℕ → Phase) → ℕ → Option ℕ → ℕ → Phase
woken phase task none = set_phase phase task outside
woken phase task (some w) = set_phase (set_phase phase task outside) w trying

-- One step of one task. A call that fails an assertion stops the machine and is no step.
pub data Step (s : System) : System → Type 0 where
  acquire :
      (t : ℕ)
      → (s.phase t ≡ outside) ⊎ (s.phase t ≡ holding)
      → Step s (goto s t (lock_acquire s.lock t))
  test : (t : ℕ) → s.phase t ≡ trying → Step s (goto s t (mutex_lock s.lock t))
  finish :
      (t : ℕ) (r : Lock × Phase)
      → s.phase t ≡ entered
      → acquired s.lock t ≡ ok r
      → Step s (goto s t r)
  release :
      (t : ℕ) (r : Lock × Phase)
      → (s.phase t ≡ outside) ⊎ (s.phase t ≡ holding)
      → lock_release s.lock t ≡ ok r
      → Step s (goto s t r)
  unlock :
      (t : ℕ) (r : Lock × Option ℕ)
      → s.phase t ≡ leaving
      → mutex_unlock s.lock ≡ ok r
      → Step s (record { lock = r.0; phase = woken s.phase t r.1 })

-- The states after `lock_init` and any number of steps.
pub data Reachable : System → Type 0 where
  start : Reachable (record { lock = init; phase = λ t. outside })
  step : (s s' : System) → Reachable s → Step s s' → Reachable s'
