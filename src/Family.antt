-- ===== src/Family.antt =====
-- src/kernel/task.c: the tasks as parents and children. A task is its slot in `task_table`, which is its
-- `pid`; the links of its `node` are the flag `queued`. The memory of a task, its files and its inodes are
-- not in these records. A `pid` of -1 is its bit pattern. Switching to another task is not modelled: a call
-- that blocks ends there, and `task_waitpid` goes round its loop once more when the task runs again.
pub mod Tree
pub mod Steps
pub mod Children
pub mod Run
pub mod Waiting
mod Examples
use yuios.Common.{
  ℕ, zero, suc, ◌+◌, Bool, true, false, not, ◌&&◌, ◌||◌, Option, none, some, ltb, ◌==◌,
  if◌then◌else◌, panic, fault, Outcome, ok, halt, ◌>>=◌, ◌>>◌, assert, eof, update,
}
use yuios.Scheduler.{State, init, running, ready, waiting, died, state_eq}

-- the fields of `task_t` that these functions read and write
pub record Proc : Type 0 where
  pub ppid : ℕ
  pub state : State
  pub queued : Bool
  pub status : ℕ
  pub waitpid : ℕ
  pub ticks : ℕ
  pub priority : ℕ

-- `task_table`, of which `NR_TASKS` slots are in use
abbrev pub Table : Type 0
Table = ℕ → Option Proc

abbrev pub nr_tasks : ℕ
nr_tasks = 64

abbrev pub is_free : Option Proc → Bool
is_free none = true
is_free (some p) = false

-- the page of a new task, once `memset` has cleared it
abbrev pub cleared : Proc
cleared = record {
  ppid = 0;
  state = init;
  queued = false;
  status = 0;
  waitpid = 0;
  ticks = 0;
  priority = 0;
}

-- the loop of `get_free_task`, with `left` slots to come
unfoldable pub free_slot : Table → (left i : ℕ) → Outcome ℕ
free_slot t zero i = halt panic
free_slot t (suc left) i =
    let rest = free_slot t left (i + 1) in if is_free (t i) then ok i else rest

-- `get_free_task`
unfoldable pub get_free_task : Table → Outcome (Table × ℕ)
get_free_task t = free_slot t nr_tasks 0 >>= λ i. ok (update t i (some cleared), i)

-- a pointer to a task, which must not be `NULL`
abbrev pub deref : Option Proc → Outcome Proc
deref none = halt fault
deref (some p) = ok p

-- the test at the start of `task_fork` and `task_exit`
abbrev pub is_current : Proc → Bool
is_current p = not p.queued && state_eq p.state running

-- `task_fork` of the task `me`
unfoldable pub fork : Table → (me : ℕ) → Outcome (Table × ℕ)
fork t me = do
  p ← deref (t me)
  assert (is_current p)
  (t, i) ← get_free_task t
  ok (update t i (some (record p { ppid = me; ticks = p.priority; state = ready })), i)

-- `task_unblock`, without its wait for the next turn
unfoldable pub unblock : Table → (i : ℕ) → Proc → Outcome Table
unblock t i p =
    assert p.queued >>= λ _. ok (update t i (some (record p { queued = false; state = ready })))

-- the loop of `task_exit` that gives the children away
abbrev pub adopted : (me ppid : ℕ) → Option Proc → Option Proc
adopted me ppid none = none
adopted me ppid (some c) = if c.ppid == me then some (record c { ppid = ppid }) else some c

unfoldable pub give_away : Table → (me ppid : ℕ) → Table
give_away t me ppid i = if ltb i nr_tasks then adopted me ppid (t i) else t i

-- the task waits for the child
abbrev pub waits_for : Proc → ℕ → Bool
waits_for p me = state_eq p.state waiting && (p.waitpid == eof || p.waitpid == me)

-- `task_exit` of the task `me`
unfoldable pub exit : Table → (me status : ℕ) → Outcome Table
exit t me status = do
  p ← deref (t me)
  assert (is_current p)
  let t = give_away (update t me (some (record p { state = died; status = status }))) me p.ppid
  parent ← deref (t p.ppid)
  if waits_for parent me then unblock t p.ppid parent else ok t

-- what the loop of `task_waitpid` over the slots ends with
pub data Found : Type 0 where
  dead : ℕ → Proc → Found
  alive : Found
  nobody : Found

-- the child is one that the call asks for
abbrev pub is_asked : Proc → (me pid i : ℕ) → Bool
is_asked c me pid i = c.ppid == me && (pid == i || pid == eof)

-- that loop, with `left` slots to come
unfoldable pub children : Table → (me pid : ℕ) → (has_child : Bool) → (left i : ℕ) → Found
children t me pid has_child zero i = if has_child then alive else nobody
children t me pid has_child (suc left) i = elim (t i) [
  | none ↦ children t me pid has_child left (i + 1)
  | some c ↦
      let rest = children t me pid has_child left (i + 1) in
      let rest' = children t me pid true left (i + 1) in
      if not (is_asked c me pid i) then rest else if state_eq c.state died then dead i c else rest'
]

-- What follows on that loop: the dead child with its status, or `none` when the task waits. A task without
-- such a child reads the status through `NULL`.
unfoldable pub settle : Table → (me pid : ℕ) → Found → Outcome (Table × Option (ℕ × ℕ))
settle t me pid (dead i c) = ok (update t i none, some (i, c.status))
settle t me pid alive = do
  p ← deref (t me)
  assert (not p.queued)
  ok (update t me (some (record p { waitpid = pid; queued = true; state = waiting })), none)
settle t me pid nobody = halt fault

-- one round of the outer loop of `task_waitpid`
unfoldable pub waitpid_round : Table → (me pid : ℕ) → Outcome (Table × Option (ℕ × ℕ))
waitpid_round t me pid = settle t me pid (children t me pid false 62 2)
