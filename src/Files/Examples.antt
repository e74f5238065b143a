-- ===== src/Files/Examples.antt =====
-- A task with one open file, which another task has open too.
use yuios.Common.{
  ℕ, zero, suc, ◌+◌, ◌<◌, ◌≤◌, ◌≢◌, ◌≡◌, ◌⊎◌, refl, none, some, [], ◌∷◌, arith, replicate,
  if◌then◌else◌, ◌==◌, ok, eof,
}
use yuios.Files.{File, Files, blank, file_at, fd_at, dupfd, close}
use yuios.Files.Counts.{IsValid, uses, AllHeld, dupfd_lem}
use yuios.Files.Closing.{closed, close_lem}

abbrev opened : File
opened = record { inode = some 7; count = 2; offset = 0; flags = 0; mode = 0 }

abbrev files : Files
files = record {
  table = blank ∷ blank ∷ blank ∷ opened ∷ [];
  fds = none ∷ none ∷ none ∷ some 3 ∷ replicate 12 none;
  put_inodes = [];
}

abbrev others : ℕ → ℕ
others i = if i == 3 then 1 else 0

files_counted : (i : ℕ) → (file_at files.table i).count ≡ uses files.fds i + others i
files_counted zero = refl
files_counted (suc zero) = refl
files_counted (suc (suc zero)) = refl
files_counted (suc (suc (suc zero))) = refl
files_counted (suc (suc (suc (suc i)))) = ground arith

files-IsValid : IsValid others files
files-IsValid = record { limit = refl; counted = files_counted }

dupfd_lem_example :
    (s' : Files) × (r : ℕ) × ((dupfd files 3 0 ≡ ok (s', r))
      × IsValid others s'
      × (((s' ≡ files) × (r ≡ eof) × AllHeld files.fds 0 16)
          ⊎ ((0 ≤ r)
              × (r < 16)
              × AllHeld files.fds 0 r
              × (fd_at files.fds r ≡ none)
              × (fd_at s'.fds r ≡ some 3)
              × ((k : ℕ) → k ≢ r → fd_at s'.fds k ≡ fd_at files.fds k))))
dupfd_lem_example =
    dupfd_lem others files 3 0 3 files-IsValid (omega arith) (omega arith) refl (omega arith)

close_lem_example :
    (close files 3 ≡ ok (closed files 3 3))
    × IsValid others (closed files 3 3)
    × (fd_at (closed files 3 3).fds 3 ≡ none)
close_lem_example = close_lem others files 3 3 7 files-IsValid (omega arith) refl refl
