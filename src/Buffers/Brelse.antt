-- ===== src/Buffers/Brelse.antt =====
-- src/kernel/buffer.c: `brelse`.
use yuios.Common.{
  update, ℕ, ◌+◌, ◌-◌, ◌<◌, ◌≤◌, ◌≡◌, refl, ap, ◌∙◌, ◌≢◌, ◌⊎◌, inl, inr, true, false, List, [], ◌∷◌,
  arith, ltb, ◌==◌, if◌then◌else◌, Bool-cases, ==_refl, ==_false, equal_or_not, ok, halt, assertion,
  ◌>>=◌, member, remove, last, member-remove,
}
use yuios.Buffers.{Cache, bwrite, wake, release, brelse}
use yuios.Buffers.Valid.{IsValid, Holds}
use yuios.Buffers.Reading.{Similar-Holds, counted-Similar, counted-IsValid}
use yuios.Buffers.Release.{Wrote, bwrite-Wrote}

-- what `brelse` leaves
pub record Released (c c' : Cache) (i : ℕ) : Type 0 where
  pub valid : IsValid c'
  pub counted : (c'.buffers i).count + 1 ≡ (c.buffers i).count
  pub clean : (c'.buffers i).dirty ≡ false
  pub on_disk :
      (c.buffers i).valid ≡ true
      → c'.disk (c.buffers i).dev (c.buffers i).block ≡ (c.buffers i).content
  pub others : (j : ℕ) → i ≢ j → c'.buffers j ≡ c.buffers j
  pub reads : (d b : ℕ) (bytes : List ℕ) → Holds c d b bytes → Holds c' d b bytes

abbrev counted_down : Cache → ℕ → List ℕ → Cache
counted_down c i f = record c {
  free = f;
  buffers = update c.buffers i (record (c.buffers i) { count = (c.buffers i).count - 1 });
}

counted_down-Released :
    (c c' : Cache) (i : ℕ) (f : List ℕ)
    → Wrote c c' i
    → i < c.made
    → 1 ≤ (c.buffers i).count
    → ((j : ℕ)
        → member j f ≡ (if i == j then ((c'.buffers i).count - 1 == 0) else member j c'.free))
    → Released c (counted_down c' i f) i
counted_down-Released c c' i f w use_i one free_is =
    let n = (c'.buffers i).count - 1 in
    let s = counted-Similar c' i n f in
    record {
      valid =
          counted-IsValid c' i n f w.valid (let e = w.same_made in omega arith) free_is
            (λ z. w.clean);
      counted = rw (==_refl i) (let e = w.same_count in omega arith);
      clean = rw (==_refl i) w.clean;
      on_disk = w.on_disk;
      others = λ j ne. rw (==_false i j ne) (w.others j ne);
      reads = λ d b bytes h. Similar-Holds d b bytes s (w.reads d b bytes h);
    }

not_free :
    (c c' : Cache) (i : ℕ) → Wrote c c' i → 1 ≤ (c.buffers i).count → member i c'.free ≡ false
not_free c c' i w one = let e = w.valid.freed i in let n = w.same_count in ground arith

release_run :
    (c c' : Cache) (i : ℕ)
    → Wrote c c' i
    → i < c.made
    → 1 ≤ (c.buffers i).count
    → ((2 ≤ (c.buffers i).count) ⊎ (c.waiting ≡ []))
    → (c'' : Cache) × ((release c' i ≡ ok c'') × Released c c'' i)
unfolding release wake
release_run c c' i w use_i one how =
    let some_use : ltb 0 (c'.buffers i).count ≡ true = let n = w.same_count in ground arith in
    let out = not_free c c' i w one in
    elim (Bool-cases ((c'.buffers i).count - 1 == 0)) [
      | inl e ↦
          let nobody : c'.waiting ≡ [] = elim how [
            | inl two ↦ absurd (let n = w.same_count in ground arith)
            | inr nobody ↦ w.same_waiting ∙ nobody
          ] in
          (
            counted_down c' i (i ∷ c'.free),
            (
              rw (some_use, e, out, ◌>>=◌) (ap (wake (counted_down c' i (i ∷ c'.free))) nobody),
              counted_down-Released c c' i (i ∷ c'.free) w use_i one (λ j. ground (arith, e)),
            ),
          )
      | inr e ↦ (
        counted_down c' i c'.free,
        (
          rw (some_use, e, ◌>>=◌) refl,
          counted_down-Released c c' i c'.free w use_i one (λ j. elim (equal_or_not i j) [
            | inl x ↦ rw (← x, ==_refl i, e) out
            | inr x ↦ rw (==_false i j x) refl
          ]),
        ),
      )
    ]

-- In a valid cache, `brelse` of a buffer in use counts one use less and leaves the disk with the bytes of
-- the buffer; other buffers and what any block reads stay as they are, and the cache is valid. This is so
-- when the buffer stays in use or no task waits; a dirty buffer is one whose block was read.
pub brelse-Released :
    (c : Cache) (i : ℕ)
    → IsValid c
    → i < c.made
    → ((c.buffers i).dirty ≡ true → (c.buffers i).valid ≡ true)
    → 1 ≤ (c.buffers i).count
    → ((2 ≤ (c.buffers i).count) ⊎ (c.waiting ≡ []))
    → (c' : Cache) × ((brelse c i ≡ ok c') × Released c c' i)
unfolding brelse
brelse-Released c i v use_i read one how =
    release_run c (bwrite c i) i (bwrite-Wrote c i v use_i read) use_i one how

-- When a task waits for a buffer, the last `brelse` of any buffer stops the kernel: the task's node, which
-- `list_popback` has taken out of the list, is taken out once more by `task_unblock`.
pub brelse_waiting :
    (c : Cache) (i t : ℕ) (ts : List ℕ)
    → IsValid c
    → i < c.made
    → ((c.buffers i).dirty ≡ true → (c.buffers i).valid ≡ true)
    → (c.buffers i).count ≡ 1
    → c.waiting ≡ t ∷ ts
    → brelse c i ≡ halt assertion
unfolding brelse release wake
brelse_waiting c i t ts v use_i read one waits =
    let c' = bwrite c i in
    let w = bwrite-Wrote c i v use_i read in
    let out = not_free c c' i w (omega arith) in
    let n : (c'.buffers i).count ≡ 1 = w.same_count ∙ one in
    let some_use : ltb 0 (c'.buffers i).count ≡ true = ground arith in
    let zero_left : ((c'.buffers i).count - 1 == 0) ≡ true = ground arith in
    let gone : member (last t ts) (remove (last t ts) c'.waiting) ≡ false =
      rw (member-remove (last t ts) (last t ts) c'.waiting, ==_refl (last t ts)) refl in
    rw (some_use, zero_left, out, ◌>>=◌)
      (ap (wake (counted_down c' i (i ∷ c'.free))) (w.same_waiting ∙ waits) ∙ rw (wake, gone) refl)
