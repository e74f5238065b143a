-- ===== src/Names.antt =====
-- src/fs/namei.c: the test of the rights to an inode, and the comparison of a path with the name of a directory
-- entry. `NULL` in `*next` is `none`. The loop runs on fuel and faults when it is used up.
mod Examples
pub mod Match
use yuios.Common.{
  ℕ, zero, suc, ◌+◌, ◌/◌, ◌^◌, Bool, true, false, not, ◌&&◌, Option, none, some, bit_and, ◌==◌,
  if◌then◌else◌, fault, Outcome, ok, halt, ◌>>=◌,
}
use yuios.Bytes.{Mem, is_separator}

-- the fields of the inode and of the running task that `permission` reads
pub record Rights : Type 0 where
  pub mode : ℕ
  pub uid : ℕ
  pub gid : ℕ
  pub nlinks : ℕ

-- `permission`
unfoldable pub permission : Rights → (uid gid mask : ℕ) → Bool
permission inode uid gid mask =
    let mode =
      if uid == inode.uid
      then inode.mode / 2 ^ 6
      else if gid == inode.gid
      then inode.mode / 2 ^ 3
      else inode.mode in
    if inode.nlinks == 0
    then false
    else if uid == 0
    then true
    else bit_and (bit_and mode mask) 7 == mask

-- the loop of `match_name`: where the two pointers stop
unfoldable pub match_from : ℕ → Mem → (lhs rhs : ℕ) → Outcome (ℕ × ℕ)
match_from zero m lhs rhs = halt fault
match_from (suc fuel) m lhs rhs =
    let rest = match_from fuel m (lhs + 1) (rhs + 1) in
    if (m lhs == m rhs) && (not (m lhs == 0) && not (m rhs == 0)) then rest else ok (lhs, rhs)

-- the rest of `match_name`, with the two bytes where the loop stopped
abbrev pub matched : (left right lhs : ℕ) → Option ℕ
matched left right lhs =
    if not (right == 0)
    then none
    else if not (left == 0) && not (is_separator left)
    then none
    else some (if is_separator left then lhs + 1 else lhs)

-- `match_name`
unfoldable pub match_name : ℕ → Mem → (name entry_name : ℕ) → Outcome (Option ℕ)
match_name fuel m name entry_name =
    match_from fuel m name entry_name >>= λ (lhs, rhs). ok (matched (m lhs) (m rhs) lhs)
