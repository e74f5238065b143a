-- ===== src/Pipe.antt =====
-- src/fs/pipe.c: `pipe_read` and `pipe_write` over the ring of lib/fifo.c. One task reads and one writes; each runs
-- until it blocks, since system calls are not interrupted: interrupts are off, as the assertions of `task_block` and
-- `task_unblock` ask. `rxwaiter` and `txwaiter` are flags, since they only ever hold the reader and the writer. What
-- `task_block` and `task_unblock` (src/kernel/task.c) change is kept apart from them. A call for several bytes is a
-- round of its loop for each byte.
mod Examples
pub mod Order
pub mod Progress
use yuios.Common.{
  ℕ, Bool, true, false, not, Option, none, some, List, [], ◌∷◌, ◌++◌, if◌then◌else◌, Outcome, ok,
  ◌>>=◌, ◌>>◌, assert,
}
use yuios.Fifo.{Fifo, full, empty, get, put}

-- The ring of a pipe, whether `rxwaiter` and `txwaiter` are set, and for each of the two tasks whether it is blocked:
-- in the state TASK_BLOCKED, with its node in `block_list`.
pub record Pipe : Type 0 where
  pub fifo : Fifo
  pub rxwaiter : Bool
  pub txwaiter : Bool
  pub reader_blocked : Bool
  pub writer_blocked : Bool

-- `task_block` of the running task, by whether its node is in a list; the state TASK_BLOCKED passes its assertion
abbrev pub task_block : Bool → Outcome Bool
task_block linked = assert (not linked) >>= λ _. ok true

-- `task_unblock`, where `list_remove` asserts that the node is in a list
abbrev pub task_unblock : Bool → Outcome Bool
task_unblock linked = assert linked >>= λ _. ok false

-- the end of a round of `pipe_read`, by the two flags of the writer
unfoldable pub wake_writer : (waiter blocked : Bool) → Pipe → Outcome Pipe
wake_writer false blocked p = ok p
wake_writer true blocked p =
    task_unblock blocked >>= λ b. ok (record p { writer_blocked = b; txwaiter = false })

-- the end of a round of `pipe_write`, by the two flags of the reader
unfoldable pub wake_reader : (waiter blocked : Bool) → Pipe → Outcome Pipe
wake_reader false blocked p = ok p
wake_reader true blocked p =
    task_unblock blocked >>= λ b. ok (record p { reader_blocked = b; rxwaiter = false })

-- The end of a round of `pipe_read`: a byte is taken and a waiting writer is unblocked.
unfoldable pub take_byte : Pipe → Outcome (Pipe × Option ℕ)
take_byte p = get p.fifo >>= λ (x, f).
    wake_writer p.txwaiter p.writer_blocked (record p { fifo = f }) >>= λ p'. ok (p', some x)

-- a round of the loop of `pipe_read`, which blocks without a byte
unfoldable pub read_round : Pipe → Outcome (Pipe × Option ℕ)
read_round p =
    if empty p.fifo
    then (assert (not p.rxwaiter) >>= λ _. task_block p.reader_blocked >>= λ b.
        ok (record p { rxwaiter = true; reader_blocked = b }, none))
    else take_byte p

-- the end of a round of `pipe_write`, and whether the byte was written
unfoldable pub give_byte : Pipe → ℕ → Outcome (Pipe × Bool)
give_byte p x = put p.fifo x >>= λ f.
    wake_reader p.rxwaiter p.reader_blocked (record p { fifo = f }) >>= λ p'. ok (p', true)

-- a round of the loop of `pipe_write`
unfoldable pub write_round : Pipe → ℕ → Outcome (Pipe × Bool)
write_round p x =
    if full p.fifo
    then (assert (not p.txwaiter) >>= λ _. task_block p.writer_blocked >>= λ b.
        ok (record p { txwaiter = true; writer_blocked = b }, false))
    else give_byte p x

-- The two tasks: whether each is inside `task_block`, the byte that the writer holds there, and the bytes that were
-- written and read so far.
pub record System : Type 0 where
  pub pipe : Pipe
  pub reading : Bool
  pub writing : Bool
  pub held : ℕ
  pub sent : List ℕ
  pub received : List ℕ

abbrev pub after_read : System → Pipe × Option ℕ → System
after_read s (p, none) = record s { pipe = p; reading = true }
after_read s (p, some x) = record s { pipe = p; reading = false; received = s.received ++ (x ∷ []) }

abbrev pub after_write : System → ℕ → Pipe × Bool → System
after_write s x (p, true) = record s { pipe = p; writing = false; sent = s.sent ++ (x ∷ []) }
after_write s x (p, false) = record s { pipe = p; writing = true; held = x }

-- the task that runs next
pub data Turn : Type 0 where
  reader : Turn
  writer : ℕ → Turn

-- A turn of a task, by whether it is inside `task_block` and is blocked: a task that is blocked is not scheduled, and one that was unblocked goes on behind `task_block`.
unfoldable pub read_turn : (inside blocked : Bool) → System → Outcome System
read_turn true true s = ok s
read_turn true false s = take_byte s.pipe >>= λ r. ok (after_read s r)
read_turn false blocked s = read_round s.pipe >>= λ r. ok (after_read s r)

unfoldable pub write_turn : (inside blocked : Bool) → System → ℕ → Outcome System
write_turn true true s x = ok s
write_turn true false s x = give_byte s.pipe s.held >>= λ r. ok (after_write s s.held r)
write_turn false blocked s x = write_round s.pipe x >>= λ r. ok (after_write s x r)

unfoldable pub turn : System → Turn → Outcome System
turn s reader = read_turn s.reading s.pipe.reader_blocked s
turn s (writer x) = write_turn s.writing s.pipe.writer_blocked s x

unfoldable pub turns : System → List Turn → Outcome System
turns s [] = ok s
turns s (t ∷ ts) = turn s t >>= λ s'. turns s' ts
