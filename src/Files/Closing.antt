-- ===== src/Files/Closing.antt =====
-- src/fs/file.c: closing a descriptor, and the position of a file.
use yuios.Common.{
  ℕ, ◌+◌, ◌-◌, ◌^◌, ◌<◌, ◌≡◌, refl, sym, ap, ◌∙◌, inl, inr, true, false, none, some, ◌∷◌, arith,
  ltb, leb, ◌==◌, if◌then◌else◌, Bool-cases, set, length, length-set, get_or-set_self,
  get_or-set_ne, ok, ◌>>=◌, add32, lt→ltb,
}
use yuios.Files.{
  File, Files, blank, file_at, fd_at, is_free, in_limit, close, put_file, task_put_fd, lseek,
  seek_end,
}
use yuios.Files.Counts.{hit, uses, IsValid, uses-set, uses_positive, referred}

-- one reference to file `i` less, at descriptor `fd`
counted_before :
    (others : ℕ → ℕ) (s : Files) (fd i : ℕ)
    → IsValid others s
    → fd < length s.fds
    → fd_at s.fds fd ≡ some i
    → (j : ℕ)
    → (file_at
        (set s.table i (record (file_at s.table i) { count = (file_at s.table i).count - 1 }))
        j).count
      ≡ uses (set s.fds fd none) j + others j
counted_before others s fd i v there held j =
    let inside = referred others s fd i v held in
    let less : uses (set s.fds fd none) j + hit (some i) j ≡ uses s.fds j =
      omega (arith, uses-set s.fds fd j none there, ap (λ o. hit o j) held) in
    let file : File = record (file_at s.table i) { count = (file_at s.table i).count - 1 } in
    elim (Bool-cases (i == j)) [
      | inl same ↦
          let eq : i ≡ j = ground arith in
          let one : hit (some i) j ≡ 1 = rw same refl in
          let here =
            ap (λ k. (file_at (set s.table i file) k).count) (sym eq)
            ∙ ap (λ (f : File). f.count) (get_or-set_self s.table i file blank inside) in
          let was = ap (λ k. (file_at s.table k).count) eq in
          omega (arith, here, was, less, one, v.counted j)
      | inr other ↦
          let zero_hit : hit (some i) j ≡ 0 = rw other refl in
          let here =
            ap (λ (f : File). f.count) (get_or-set_ne s.table i j file blank (ground arith)) in
          omega (arith, here, less, zero_hit, v.counted j)
    ]

-- what `sys_close` leaves
abbrev pub closed : Files → (fd i : ℕ) → Files
closed s fd i =
    let file = file_at s.table i in
    record {
      table = set s.table i (record file { count = file.count - 1 });
      fds = set s.fds fd none;
      put_inodes = if file.count - 1 == 0 then file.inode ∷ s.put_inodes else s.put_inodes;
    }

-- Closing an open descriptor below 16 of a file with an inode does not halt: the descriptor is free, the
-- inode is given back exactly when no other reference is left, and every count is right again.
pub close_lem :
    (others : ℕ → ℕ) (s : Files) (fd i n : ℕ)
    → IsValid others s
    → fd < 16
    → fd_at s.fds fd ≡ some i
    → (file_at s.table i).inode ≡ some n
    → (close s fd ≡ ok (closed s fd i))
      × IsValid others (closed s fd i)
      × (fd_at (closed s fd i).fds fd ≡ none)
unfolding close put_file task_put_fd
close_lem others s fd i n v hf held has = (run, valid, get_or-set_self s.fds fd none none there)
  where
    there : fd < length s.fds
    there = omega (arith, v.limit)

    positive : ltb 0 (file_at s.table i).count ≡ true
    positive = ground (arith, v.counted i, uses_positive s.fds fd i held)

    low : in_limit fd ≡ true
    low = ground arith

    valid : IsValid others (closed s fd i)
    valid = record {
      limit = length-set s.fds fd none ∙ v.limit;
      counted = counted_before others s fd i v there held;
    }

    real : is_free (file_at s.table i).inode ≡ false
    real = ap is_free has

    run : close s fd ≡ ok (closed s fd i)
    run = elim (Bool-cases ((file_at s.table i).count - 1 == 0)) [
      | inl last ↦
          rw
            (
              close,
              low,
              lt→ltb fd (length s.fds) there,
              ◌>>=◌,
              held,
              real,
              put_file,
              positive,
              last,
              task_put_fd,
              low,
              lt→ltb fd (length s.fds) there,
            )
            refl
      | inr more ↦
          rw
            (
              close,
              low,
              lt→ltb fd (length s.fds) there,
              ◌>>=◌,
              held,
              real,
              put_file,
              positive,
              more,
              task_put_fd,
              low,
              lt→ltb fd (length s.fds) there,
            )
            refl
    ]

-- `sys_lseek` from the end of a file of fewer than 2^31 bytes accepts every offset, also one that leads to
-- a position before the start of the file, which is then negative.
pub lseek_end_unchecked :
    (size old back : ℕ)
    → size < back
    → back < 2 ^ 31
    → (r : ℕ) × (lseek size old (2 ^ 32 - back) seek_end ≡ ok r)
      × (r + back ≡ size + 2 ^ 32)
      × (2 ^ 31 < r)
unfolding lseek
lseek_end_unchecked size old back h k =
    let zero_ok : leb 0 (add32 size (2 ^ 32 - back)) ≡ true = ground arith in
    (add32 size (2 ^ 32 - back), rw zero_ok refl, omega arith, omega arith)
