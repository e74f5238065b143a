-- ===== src/Files.antt =====
-- src/fs/file.c: the table of open files, and the descriptors of the running task (with `task_get_fd`
-- and `task_put_fd` of src/kernel/task.c). A pointer to a file is its index in the table, and an inode a
-- number; `iput` of an inode is a record of the call. `fd_t` and `off_t` are `int`s by their bit patterns:
-- a negative descriptor passes the test against 16, and its access is a fault. Reading, writing and
-- opening, which call the inodes' code, are left out.
mod Examples
pub mod Counts
pub mod Closing
use yuios.Common.{
  ℕ, zero, suc, ◌+◌, ◌-◌, Bool, true, false, not, Option, none, some, List, ◌∷◌, ltb, leb, ◌==◌,
  if◌then◌else◌, get_or, set, length, panic, Outcome, ok, halt, ◌>>=◌, ◌>>◌, assert, access, add32,
  eof, int_order,
}

-- `file_t`
pub record File : Type 0 where
  pub inode : Option ℕ
  pub count : ℕ
  pub offset : ℕ
  pub flags : ℕ
  pub mode : ℕ

-- `file_table`, the `files` of the running task, and the inodes that `iput` was called with
pub record Files : Type 0 where
  pub table : List File
  pub fds : List (Option ℕ)
  pub put_inodes : List (Option ℕ)

abbrev pub blank : File
blank = record { inode = none; count = 0; offset = 0; flags = 0; mode = 0 }

abbrev pub file_at : List File → ℕ → File
file_at table i = get_or table i blank

abbrev pub fd_at : List (Option ℕ) → ℕ → Option ℕ
fd_at fds fd = get_or fds fd none

-- `fd < TASK_FILE_NR`, a comparison of `int`s
abbrev pub in_limit : ℕ → Bool
in_limit fd = ltb (int_order fd) (int_order 16)

-- The loop of `get_file`: `left` entries are to be tried, from `i` on.
unfoldable pub unused_file : List File → (left i : ℕ) → Option ℕ
unused_file table zero i = none
unused_file table (suc left) i =
    let rest = unused_file table left (i + 1) in
    if (file_at table i).count == 0 then some i else rest

-- `get_file`
unfoldable pub get_file : Files → Outcome (Files × ℕ)
get_file s = elim (unused_file s.table 125 3) [
  | none ↦ halt panic
  | some i ↦
      let file = file_at s.table i in
      ok (record s { table = set s.table i (record file { count = add32 file.count 1 }) }, i)
]

-- `put_file`
unfoldable pub put_file : Files → ℕ → Outcome Files
put_file s i =
    let file = file_at s.table i in
    let s' = record s { table = set s.table i (record file { count = file.count - 1 }) } in
    assert (ltb 0 file.count) >>= λ _.
    ok (if file.count - 1 == 0 then record s' { put_inodes = file.inode ∷ s.put_inodes } else s')

-- whether a pointer is `NULL`, as in `!task->files[fd]`
abbrev pub is_free : Option ℕ → Bool
is_free none = true
is_free (some i) = false

-- The loops of `task_get_fd` and `dupfd`: the first free descriptor of `left` ones from `fd` on, or the
-- limit.
unfoldable pub free_fd : List (Option ℕ) → (left fd : ℕ) → ℕ
free_fd fds zero fd = fd
free_fd fds (suc left) fd =
    let rest = free_fd fds left (fd + 1) in if is_free (fd_at fds fd) then fd else rest

-- `task_get_fd`
unfoldable pub task_get_fd : List (Option ℕ) → Outcome ℕ
task_get_fd fds = let fd = free_fd fds 13 3 in if fd == 16 then halt panic else ok fd

-- `task_put_fd`
unfoldable pub task_put_fd : Files → ℕ → Outcome Files
task_put_fd s fd = do
  assert (in_limit fd)
  access (ltb fd (length s.fds))
  ok (record s { fds = set s.fds fd none })

-- `sys_close`
unfoldable pub close : Files → ℕ → Outcome Files
close s fd = do
  assert (in_limit fd)
  access (ltb fd (length s.fds))
  elim (fd_at s.fds fd) [
    | none ↦ ok s
    | some i ↦ do
      assert (not (is_free (file_at s.table i).inode))
      s' ← put_file s i
      task_put_fd s' fd
  ]

-- `dupfd`: the new descriptor, or `eof`. `arg` is not negative here; a negative one is a fault.
unfoldable pub dupfd : Files → (fd arg : ℕ) → Outcome (Files × ℕ)
dupfd s fd arg =
    if leb (int_order 16) (int_order fd)
    then ok (s, eof)
    else (access (ltb fd (length s.fds)) >>= λ _. elim (fd_at s.fds fd) [
      | none ↦ ok (s, eof)
      | some i ↦
          if leb (int_order 16) (int_order arg)
          then ok (s, eof)
          else (access (ltb arg (length s.fds)) >>= λ _.
              let new = free_fd s.fds (16 - arg) arg in
              let file = file_at s.table i in
              if leb 16 new
              then ok (s, eof)
              else ok (
                record s {
                  fds = set s.fds new (some i);
                  table = set s.table i (record file { count = add32 file.count 1 });
                },
                new,
              ))
    ])

-- `sys_dup` and `sys_dup2`
unfoldable pub dup : Files → ℕ → Outcome (Files × ℕ)
dup s fd = dupfd s fd 0

unfoldable pub dup2 : Files → (old new : ℕ) → Outcome (Files × ℕ)
dup2 s old new = close s new >>= λ s'. dupfd s' old new

-- `whence_t`, with any other value as `other`
pub data Whence : Type 0 where
  seek_set seek_cur seek_end other : Whence

-- `offset >= 0` of an `int`
abbrev pub not_negative : ℕ → Bool
not_negative w = leb (int_order 0) (int_order w)

-- `sys_lseek` on a file of `size` bytes: its new offset. The sum with `size`, a `u32`, is unsigned, so
-- that the last assertion always holds.
unfoldable pub lseek : (size old offset : ℕ) → Whence → Outcome ℕ
lseek size old offset seek_set = assert (not_negative offset) >>= λ _. ok offset
lseek size old offset seek_cur =
    assert (not_negative (add32 old offset)) >>= λ _. ok (add32 old offset)
lseek size old offset seek_end = assert (leb 0 (add32 size offset)) >>= λ _. ok (add32 size offset)
lseek size old offset other = halt panic
