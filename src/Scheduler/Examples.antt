-- ===== src/Scheduler/Examples.antt =====
-- A running task in slot 1, two ready ones, and the idle task in slot 0.
use yuios.Common.{ℕ, zero, suc, ◌≡◌, refl, sym, ap, false, none, some, [], ◌∷◌, arith, ok}
use yuios.Scheduler.{
  yui_magic, State, running, ready, blocked, Task, Kernel, search, schedule, task_at,
}
use yuios.Scheduler.Search.{Found, search-Found}
use yuios.Scheduler.Schedule.{IsValid, Switched, schedule_lem}

abbrev task : State → ℕ → Task
task state ticks = record {
  state = state;
  ticks = ticks;
  priority = 5;
  jiffies = 0;
  queued = false;
  magic = yui_magic;
}

abbrev kernel : Kernel
kernel = record {
  table = some (task ready 1) ∷ some (task running 0) ∷ none ∷ some (task ready 3) ∷ [];
  current = 1;
  idle = 0;
  sleepers = [];
}

held_task : {a b : Task} → some a ≡ some b → a ≡ b
held_task h = cc

kernel_only :
    (i : ℕ) (t : Task) → task_at kernel.table i ≡ some t → t.state ≡ running → i ≡ kernel.current
kernel_only zero t held runs = ground arith
kernel_only (suc zero) t held runs = refl
kernel_only (suc (suc zero)) t held runs = ground arith
kernel_only (suc (suc (suc zero))) t held runs = ground arith
kernel_only (suc (suc (suc (suc i)))) t held runs = ground arith

kernel_intact : (i : ℕ) (t : Task) → task_at kernel.table i ≡ some t → t.magic ≡ yui_magic
kernel_intact zero t held = ap (λ x. x.magic) (sym (held_task held))
kernel_intact (suc zero) t held = ap (λ x. x.magic) (sym (held_task held))
kernel_intact (suc (suc zero)) t held = absurd cc
kernel_intact (suc (suc (suc zero))) t held = ap (λ x. x.magic) (sym (held_task held))
kernel_intact (suc (suc (suc (suc i)))) t held = absurd cc

kernel-IsValid : IsValid kernel
kernel-IsValid = record {
  cur = (task running 0, refl);
  idle = (task ready 1, refl);
  only = kernel_only;
  intact = kernel_intact;
}

search-Found_example : Found kernel blocked (search kernel blocked)
search-Found_example = search-Found kernel blocked

schedule_lem_example :
    (next : ℕ) × (k' : Kernel) × ((schedule kernel ≡ ok k')
      × Found kernel ready (some next)
      × Switched kernel next k')
schedule_lem_example = schedule_lem kernel kernel-IsValid
