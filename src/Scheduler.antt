-- ===== src/Scheduler.antt =====
-- src/kernel/task.c: the choice of the next task and the states that tasks go through. A task control
-- block is its slot in the table; `list_node_t` links are a flag, and the waiting lists are their
-- tasks in order (their links are those of Linked). Switching the stacks is not modelled: a step of the
-- scheduler is the change of state that comes before it. Interrupts are off in all of these functions.
mod Examples
pub mod Search
pub mod Schedule
use yuios.Common.{
  ℕ, ◌+◌, ◌/◌, Bool, true, false, not, ◌&&◌, ◌||◌, Option, none, some, List, [], ◌∷◌, ltb, ◌==◌,
  if◌then◌else◌, get_or, set, assertion, fault, Outcome, ok, halt, ◌>>=◌, ◌>>◌, assert, access,
  add32, int_order,
}

-- `task_state_t`
pub data State : Type 0 where
  init running ready blocked sleeping waiting died : State

abbrev pub state_eq : State → State → Bool
state_eq init init = true
state_eq running running = true
state_eq ready ready = true
state_eq blocked blocked = true
state_eq sleeping sleeping = true
state_eq waiting waiting = true
state_eq died died = true
state_eq _ _ = false

-- `YUI_MAGIC`
abbrev pub yui_magic : ℕ
yui_magic = 0x20220205

-- the fields of `task_t` that the scheduler reads and writes, with `ticks` an `int` by its pattern;
-- `queued` tells whether `node` is linked
pub record Task : Type 0 where
  pub state : State
  pub ticks : ℕ
  pub priority : ℕ
  pub jiffies : ℕ
  pub queued : Bool
  pub magic : ℕ

-- `task_table`, with the numbers of the running and of the idle task, and `sleep_list`
pub record Kernel : Type 0 where
  pub table : List (Option Task)
  pub current : ℕ
  pub idle : ℕ
  pub sleepers : List ℕ

-- the test by which `task_search` replaces its candidate
abbrev pub better : Task → Task → Bool
better best t = ltb (int_order best.ticks) (int_order t.ticks) || ltb t.jiffies best.jiffies

-- one round of the loop of `task_search`
abbrev pub consider : State → (current i : ℕ) → Option (ℕ × Task) → Task → Option (ℕ × Task)
consider want current i none t =
    if not (state_eq t.state want) then none else if current == i then none else some (i, t)
consider want current i (some b) t =
    if not (state_eq t.state want)
    then some b
    else if current == i
    then some b
    else if better b.1 t
    then some (i, t)
    else some b

-- The loop of `task_search`: the candidate so far, and the entries from slot `i` on.
unfoldable pub search_from :
    State → (current i : ℕ) → Option (ℕ × Task) → List (Option Task) → Option (ℕ × Task)
search_from want current i best [] = best
search_from want current i best (none ∷ rest) = search_from want current (i + 1) best rest
search_from want current i best (some t ∷ rest) =
    search_from want current (i + 1) (consider want current i best t) rest

-- `task_search`: the slot that is found
unfoldable pub search : Kernel → State → Option ℕ
search k want = elim (search_from want k.current 0 none k.table) [
  | some b ↦ some b.0
  | none ↦ if state_eq want ready then some k.idle else none
]

-- the task in a slot
abbrev pub task_at : List (Option Task) → ℕ → Option Task
task_at table i = get_or table i none

abbrev pub write : List (Option Task) → ℕ → Task → List (Option Task)
write table i t = set table i (some t)

-- what `schedule` does to the task that is left
unfoldable pub leave : Task → Task
leave t = record t {
  state = (if state_eq t.state running then ready else t.state);
  ticks = (if t.ticks == 0 then t.priority else t.ticks);
}

-- the end of `schedule`, from the running task to the one in slot `next`
unfoldable pub switch_to : Kernel → ℕ → Outcome Kernel
switch_to k next = elim (task_at k.table k.current) [
  | none ↦ halt fault
  | some cur ↦
      let table₁ = write k.table k.current (leave cur) in
      elim (task_at table₁ next) [
        | none ↦ halt fault
        | some t ↦
            ok (record k {
              table = write table₁ next (record t { state = running });
              current = next;
            })
      ]
]

-- `schedule`; a slot with no task is a fault
unfoldable pub schedule : Kernel → Outcome Kernel
schedule k = elim (search k ready) [
  | none ↦ halt assertion
  | some next ↦ elim (task_at k.table next) [
    | none ↦ halt fault
    | some chosen ↦ assert (chosen.magic == yui_magic) >> switch_to k next
  ]
]

-- `task_block` of another task, or of the running one, which then gives way
unfoldable pub block : Kernel → (task : ℕ) → State → Outcome Kernel
block k task state = elim (task_at k.table task) [
  | none ↦ halt fault
  | some t ↦ do
    assert (not t.queued)
    assert (not (state_eq state ready) && not (state_eq state running))
    let k' = record k { table = write k.table task (record t { state = state; queued = true }) }
    if k.current == task then schedule k' else ok k'
]

-- `task_unblock`
unfoldable pub unblock : Kernel → ℕ → Outcome Kernel
unblock k task = elim (task_at k.table task) [
  | none ↦ halt fault
  | some t ↦ do
    assert t.queued
    ok (record k { table = write k.table task (record t { state = ready; queued = false }) })
]

-- the ticks of the task in a slot
abbrev pub ticks_at : List (Option Task) → ℕ → ℕ
ticks_at table i = elim (task_at table i) [ none ↦ 0 | some t ↦ t.ticks ]

-- `list_insert_sort` on `sleep_list`, by the ticks
unfoldable pub insert_sleeper : List (Option Task) → ℕ → List ℕ → List ℕ
insert_sleeper table n [] = n ∷ []
insert_sleeper table n (x ∷ xs) =
    if ltb (int_order (ticks_at table n)) (int_order (ticks_at table x))
    then n ∷ (x ∷ xs)
    else x ∷ insert_sleeper table n xs

-- `task_sleep`, with the `jiffies` and the length `jiffy` of a tick
unfoldable pub sleep : (jiffies jiffy : ℕ) → Kernel → ℕ → Outcome Kernel
sleep jiffies jiffy k ms = elim (task_at k.table k.current) [
  | none ↦ halt fault
  | some t ↦ do
    access (ltb 0 jiffy)
    let ticks = if ltb 0 (ms / jiffy) then ms / jiffy else 1
    let table =
        write k.table k.current
          (record t { ticks = add32 jiffies ticks; queued = true; state = sleeping })
    assert (not t.queued)
    schedule (record k { table = table; sleepers = insert_sleeper table k.current k.sleepers })
]

-- The loop of `task_wakeup` over the sleepers.
unfoldable pub wakeup_from : (jiffies : ℕ) → Kernel → List ℕ → Outcome Kernel
wakeup_from jiffies k [] = ok (record k { sleepers = [] })
wakeup_from jiffies k (x ∷ xs) =
    let awake : Outcome Kernel = elim (task_at k.table x) [
      | none ↦ halt fault
      | some t ↦ unblock (record k { table = write k.table x (record t { ticks = 0 }) }) x >>= λ k'.
          wakeup_from jiffies k' xs
    ] in
    if ltb jiffies (ticks_at k.table x) then ok (record k { sleepers = x ∷ xs }) else awake

-- `task_wakeup`
unfoldable pub wakeup : (jiffies : ℕ) → Kernel → Outcome Kernel
wakeup jiffies k = wakeup_from jiffies k k.sleepers
