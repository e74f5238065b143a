-- ===== src/Files/Counts.antt =====
-- src/fs/file.c: the count of a file is the number of descriptors that refer to it.
use yuios.Common.{
  ℕ, zero, suc, ◌+◌, ◌-◌, ◌^◌, ◌<◌, ◌≤◌, ◌≡◌, ◌≢◌, ◌⊎◌, equal_or_not, refl, sym, ap, ◌∙◌, inl, inr,
  true, false, Option, none, some, List, [], ◌∷◌, arith, ltb, leb, ◌==◌, if◌then◌else◌, Bool-cases,
  set, length, length-set, get_or-set_self, get_or-set_ne, ok, ◌>>=◌, add32, eof, int_order,
}
use yuios.Files.{File, Files, blank, file_at, fd_at, free_fd, is_free, dupfd}

-- how often a descriptor refers to file `i`
abbrev pub hit : Option ℕ → ℕ → ℕ
hit none i = 0
hit (some j) i = if j == i then 1 else 0

abbrev pub uses : List (Option ℕ) → ℕ → ℕ
uses [] i = 0
uses (x ∷ xs) i = hit x i + uses xs i

-- The task has 16 descriptors, and the count of each file is the number of them that refer to it and of
-- the references that `others` gives, from other tasks.
pub record IsValid (others : ℕ → ℕ) (s : Files) : Type 0 where
  pub limit : length s.fds ≡ 16
  pub counted : (i : ℕ) → (file_at s.table i).count ≡ uses s.fds i + others i

pub uses-set :
    (fds : List (Option ℕ)) (k i : ℕ) (o : Option ℕ)
    → k < length fds
    → uses (set fds k o) i + hit (fd_at fds k) i ≡ uses fds i + hit o i
uses-set [] k i o h = absurd (omega arith)
uses-set (x ∷ xs) zero i o h = omega arith
uses-set (x ∷ xs) (suc k) i o h = omega (arith, uses-set xs k i o (omega arith))

pub uses_positive : (fds : List (Option ℕ)) (k i : ℕ) → fd_at fds k ≡ some i → 0 < uses fds i
uses_positive [] k i h = cc
uses_positive (x ∷ xs) zero i h = rw h (ground arith)
uses_positive (x ∷ xs) (suc k) i h = omega (arith, uses_positive xs k i h)

file_at_beyond : (table : List File) (i : ℕ) → length table ≤ i → file_at table i ≡ blank
file_at_beyond [] i h = refl
file_at_beyond (x ∷ xs) zero h = absurd (omega arith)
file_at_beyond (x ∷ xs) (suc i) h = file_at_beyond xs i (omega arith)

-- a file that a descriptor refers to is in the table
pub referred :
    (others : ℕ → ℕ) (s : Files) (k i : ℕ)
    → IsValid others s
    → fd_at s.fds k ≡ some i
    → i < length s.table
referred others s k i v h = elim (Bool-cases (ltb i (length s.table))) [
  | inl e ↦ ground arith
  | inr e ↦
      let gone = ap (λ (f : File). f.count) (file_at_beyond s.table i (ground arith)) in
      absurd (omega (arith, gone, v.counted i, uses_positive s.fds k i h))
]

is_free-none : (o : Option ℕ) → is_free o ≡ true → o ≡ none
is_free-none none h = refl
is_free-none (some i) h = ground (arith, h)

-- one more reference to file `i`, from a descriptor that was free
counted_after :
    (others : ℕ → ℕ) (s : Files) (new i : ℕ)
    → IsValid others s
    → new < length s.fds
    → fd_at s.fds new ≡ none
    → i < length s.table
    → (file_at s.table i).count + 1 < 2 ^ 32
    → (j : ℕ)
    → (file_at
        (set s.table i (record (file_at s.table i) { count = add32 (file_at s.table i).count 1 }))
        j).count
      ≡ uses (set s.fds new (some i)) j + others j
counted_after others s new i v there empty inside small j =
    let more : uses (set s.fds new (some i)) j ≡ uses s.fds j + hit (some i) j =
      omega (arith, uses-set s.fds new j (some i) there, ap (λ o. hit o j) empty) in
    let file : File = record (file_at s.table i) { count = add32 (file_at s.table i).count 1 } in
    elim (Bool-cases (i == j)) [
      | inl same ↦
          let eq : i ≡ j = ground arith in
          let one : hit (some i) j ≡ 1 = rw same refl in
          let here =
            ap (λ k. (file_at (set s.table i file) k).count) (sym eq)
            ∙ ap (λ (f : File). f.count) (get_or-set_self s.table i file blank inside) in
          let was = ap (λ k. (file_at s.table k).count) eq in
          omega (arith, here, was, more, one, v.counted j, small)
      | inr other ↦
          let zero_hit : hit (some i) j ≡ 0 = rw other refl in
          let here =
            ap (λ (f : File). f.count) (get_or-set_ne s.table i j file blank (ground arith)) in
          omega (arith, here, more, zero_hit, v.counted j)
    ]

-- `new` is the first free descriptor of `left` ones from `fd` on, or the number behind them when none is
record FirstFree (fds : List (Option ℕ)) (left fd new : ℕ) : Type 0 where
  pub low : fd ≤ new
  pub high : new ≤ fd + left
  pub held : (k : ℕ) → fd ≤ k → k < new → is_free (fd_at fds k) ≡ false
  pub free : new < fd + left → fd_at fds new ≡ none

free_fd_lem : (fds : List (Option ℕ)) (left fd : ℕ) → FirstFree fds left fd (free_fd fds left fd)
unfolding free_fd
free_fd_lem fds zero fd = record {
  low = omega arith;
  high = omega arith;
  held = λ k a b. absurd (omega arith);
  free = λ h. absurd (omega arith);
}
free_fd_lem fds (suc left) fd = elim (Bool-cases (is_free (fd_at fds fd))) [
  | inl e ↦ rw e (record {
    low = omega arith;
    high = omega arith;
    held = λ k a b. absurd (omega arith);
    free = λ h. is_free-none _ e;
  })
  | inr e ↦
      let later = free_fd_lem fds left (fd + 1) in
      rw e (record {
        low = omega (arith, later.low);
        high = omega (arith, later.high);
        held = λ k a b. elim (equal_or_not fd k) [
          | inl same ↦ ap (λ x. is_free (fd_at fds x)) (sym same) ∙ e
          | inr ne ↦ later.held k (omega arith) b
        ];
        free = λ h. later.free (omega arith);
      })
]

-- no descriptor from `from` up to `to` is free
abbrev pub AllHeld : (fds : List (Option ℕ)) (from to : ℕ) → Type 0
AllHeld fds from to = (k : ℕ) → from ≤ k → k < to → fd_at fds k ≢ none

held-AllHeld :
    (fds : List (Option ℕ)) (from to : ℕ)
    → ((k : ℕ) → from ≤ k → k < to → is_free (fd_at fds k) ≡ false)
    → AllHeld fds from to
held-AllHeld fds from to h k a b e =
    absurd (let bad : true ≡ false = sym (ap is_free e) ∙ h k a b in ground arith)

-- Let the counts be right. Given an open descriptor and a start for the search, both below 16, where the
-- count of its file has room for one more, `dupfd` does not fault and the counts are right again. Either no
-- descriptor from the start on is free, nothing changes and the result is EOF; or the result is the first
-- free descriptor from the start on, it refers to the same file, and every other descriptor is as before.
pub dupfd_lem :
    (others : ℕ → ℕ) (s : Files) (fd arg i : ℕ)
    → IsValid others s
    → fd < 16
    → arg < 16
    → fd_at s.fds fd ≡ some i
    → (file_at s.table i).count + 1 < 2 ^ 32
    → (s' : Files) × (r : ℕ) × ((dupfd s fd arg ≡ ok (s', r))
        × IsValid others s'
        × (((s' ≡ s) × (r ≡ eof) × AllHeld s.fds arg 16)
            ⊎ ((arg ≤ r)
                × (r < 16)
                × AllHeld s.fds arg r
                × (fd_at s.fds r ≡ none)
                × (fd_at s'.fds r ≡ some i)
                × ((k : ℕ) → k ≢ r → fd_at s'.fds k ≡ fd_at s.fds k))))
unfolding dupfd
dupfd_lem others s fd arg i v hf ha held small =
    let new = free_fd s.fds (16 - arg) arg in
    let first = free_fd_lem s.fds (16 - arg) arg in
    let file = file_at s.table i in
    let low : leb (int_order 16) (int_order fd) ≡ false = ground arith in
    let low' : leb (int_order 16) (int_order arg) ≡ false = ground arith in
    let room : ltb fd (length s.fds) ≡ true = ground (arith, v.limit) in
    let room' : ltb arg (length s.fds) ≡ true = ground (arith, v.limit) in
    elim (Bool-cases (leb 16 new)) [
      | inl full ↦ (
        s,
        eof,
        (
          rw (dupfd, low, room, ◌>>=◌, held, low', room', full) refl,
          v,
          inl (refl, refl, held-AllHeld s.fds arg 16 (λ k a b. first.held k a (ground arith))),
        ),
      )
      | inr found ↦
          let empty : fd_at s.fds new ≡ none = first.free (ground arith) in
          let there : new < length s.fds = ground (arith, v.limit) in
          let s' : Files = record s {
            fds = set s.fds new (some i);
            table = set s.table i (record file { count = add32 file.count 1 });
          } in
          let valid : IsValid others s' = record {
            limit = length-set s.fds new (some i) ∙ v.limit;
            counted =
                counted_after others s new i v there empty (referred others s fd i v held) small;
          } in
          (
            s',
            new,
            (
              rw (dupfd, low, room, ◌>>=◌, held, low', room', found) refl,
              valid,
              inr (
                first.low,
                ground arith,
                held-AllHeld s.fds arg new first.held,
                empty,
                get_or-set_self s.fds new (some i) none there,
                λ k ne. get_or-set_ne s.fds new k (some i) none (λ e. ne (sym e)),
              ),
            ),
          )
    ]
