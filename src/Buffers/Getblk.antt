-- ===== src/Buffers/Getblk.antt =====
-- src/kernel/buffer.c: `getblk` and `bread`.
use yuios.Common.{
  update, ℕ, ◌+◌, ◌-◌, ◌<◌, ◌^◌, ◌≡◌, refl, ap, ◌≢◌, ◌⊎◌, inl, inr, false, Option, none, some, List,
  [], ◌∷◌, arith, ◌==◌, if◌then◌else◌, Bool-cases, ==_refl, ==_false, equal_or_not, Outcome, ok,
  ◌>>=◌, add32, member, remove, member-remove,
}
use yuios.Buffers.{Cache, has_room, reuse, claim, getblk_with, getblk}
use yuios.Buffers.Valid.{IsValid, IsOf, Absent, Holds, find-IsOf}
use yuios.Buffers.Claim.{get_free_buffer_lem, claimed, claim_run}
use yuios.Buffers.Claimed.{claimed-IsValid, claimed-Holds, own, other}
use yuios.Buffers.Reading.{Similar-Holds, similar_IsOf, counted-Similar, counted-IsValid}

-- what a call that gives a buffer for a block leaves
pub record Got (c c' : Cache) (dev block i : ℕ) : Type 0 where
  pub valid : IsValid c'
  pub is : IsOf c' dev block i
  pub counted :
      ((IsOf c dev block i) × ((c'.buffers i).count ≡ (c.buffers i).count + 1))
      ⊎ (Absent c dev block × ((c'.buffers i).count ≡ 1))
  pub others : (j : ℕ) → i ≢ j → c'.buffers j ≡ c.buffers j
  pub reads : (d b : ℕ) (bytes : List ℕ) → Holds c d b bytes → Holds c' d b bytes
  pub waiting_same : c'.waiting ≡ c.waiting

-- there is no memory for another buffer, and none is unused: the task waits
pub record Waits (c : Cache) (task : ℕ) (out : Outcome (Cache × Option ℕ)) : Type 0 where
  pub run : out ≡ ok (record c { waiting = task ∷ c.waiting }, none)
  pub no_room : has_room c.made ≡ false
  pub none_free : c.free ≡ []

-- `getblk` of a block that has a buffer
abbrev hit : Cache → ℕ → List ℕ → Cache
hit c i f = record c {
  free = f;
  buffers = update c.buffers i (record (c.buffers i) { count = (c.buffers i).count + 1 });
}

hit-Got :
    (c : Cache) (dev block i : ℕ) (f : List ℕ)
    → IsValid c
    → IsOf c dev block i
    → ((j : ℕ) → member j f ≡ (if i == j then false else member j c.free))
    → Got c (hit c i f) dev block i
hit-Got c dev block i f v is free_is =
    let n = (c.buffers i).count + 1 in
    let s = counted-Similar c i n f in
    record {
      valid =
          counted-IsValid c i n f v is.in_use (λ j. let e = free_is j in ground (arith, e))
            (λ z. absurd (omega arith));
      is = similar_IsOf dev block i s is;
      counted = inl (is, ground arith);
      others = λ j ne. rw (==_false i j ne) refl;
      reads = λ d b bytes h. Similar-Holds d b bytes s h;
      waiting_same = refl;
    }

hit_run :
    (c : Cache) (dev block i task : ℕ)
    → IsValid c
    → IsOf c dev block i
    → (c.buffers i).count < 2 ^ 32 - 1
    → (c' : Cache) × ((getblk_with c (some i) task dev block ≡ ok (c', some i))
        × Got c c' dev block i)
unfolding getblk_with
hit_run c dev block i task v is small =
    let one : add32 (c.buffers i).count 1 ≡ (c.buffers i).count + 1 = omega arith in
    elim (Bool-cases (member i c.free)) [
      | inl e ↦ (
        hit c i (remove i c.free),
        (
          rw (e, one) refl,
          hit-Got c dev block i (remove i c.free) v is (λ j. member-remove i j c.free),
        ),
      )
      | inr e ↦ (
        hit c i c.free,
        (
          rw (e, one) refl,
          hit-Got c dev block i c.free v is (λ j. elim (equal_or_not i j) [
            | inl x ↦ rw (← x, ==_refl i) e
            | inr x ↦ rw (==_false i j x) refl
          ]),
        ),
      )
    ]

miss_run :
    (c : Cache) (dev block task : ℕ)
    → IsValid c
    → Absent c dev block
    → member task c.waiting ≡ false
    → ((c' : Cache) × (i : ℕ) × ((getblk_with c none task dev block ≡ ok (c', some i))
          × Got c c' dev block i))
      ⊎ Waits c task (getblk_with c none task dev block)
unfolding getblk_with reuse claim
miss_run c dev block task v absent fresh = elim (get_free_buffer_lem c task v) [
  | inl (c', i, (run, l, was)) ↦ inl (
    claimed c' i dev block,
    i,
    (
      rw (run, ◌>>=◌) (claim_run c' i dev block l),
      record {
        valid = claimed-IsValid c c' i dev block v absent l was;
        is = record {
          in_use = l.in_use;
          dev_is = ap (λ z. z.dev) (own c c' i dev block v absent l was);
          block_is = ap (λ z. z.block) (own c c' i dev block v absent l was);
        };
        counted = inr (absent, ap (λ z. z.count) (own c c' i dev block v absent l was));
        others = other c c' i dev block v absent l was;
        reads = claimed-Holds c c' i dev block v absent l was;
        waiting_same = was.waiting_same;
      },
    ),
  )
  | inr (run, full, none_free) ↦
      inr (record { run = rw (run, fresh, ◌>>=◌) refl; no_room = full; none_free = none_free })
]

-- In a valid cache, `getblk` gives the buffer of the block, with one use more than it had, or a buffer that
-- was unused, under its new block; every other buffer is as before, every block reads what it read, and the
-- cache is valid. When no buffer can be had the task waits, and nothing else changes.
pub getblk-Got :
    (c : Cache) (task dev block : ℕ)
    → IsValid c
    → ((i : ℕ) → (c.buffers i).count < 2 ^ 32 - 1)
    → member task c.waiting ≡ false
    → ((c' : Cache) × (i : ℕ) × ((getblk c task dev block ≡ ok (c', some i))
          × Got c c' dev block i))
      ⊎ Waits c task (getblk c task dev block)
unfolding getblk
getblk-Got c task dev block v small fresh = elim (find-IsOf dev block v) [
  | inl (i, (run, is)) ↦
      rw run (let (c', (e, g)) = hit_run c dev block i task v is (small i) in inl (c', i, (e, g)))
  | inr (run, absent) ↦ rw run (miss_run c dev block task v absent fresh)
]
