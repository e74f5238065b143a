-- ===== src/Buffers/Bread.antt =====
-- src/kernel/buffer.c: `bread` gives a block with its bytes.
use yuios.Common.{
  update, ℕ, ◌-◌, ◌<◌, ◌^◌, ◌≡◌, refl, sym, ap, ◌∙◌, ◌⊎◌, inl, inr, true, false, some, List, arith,
  ◌==◌, Bool-cases, ==_refl, ==_false, equal_or_not, ok, ◌>>=◌, member,
}
use yuios.Buffers.{Cache, fill, bread}
use yuios.Buffers.Valid.{IsValid, IsOf, Holds}
use yuios.Buffers.Reading.{Holds-unique, Holds-total}
use yuios.Buffers.Getblk.{Got, Waits, getblk-Got}

-- the buffer once its block is read
abbrev filled : Cache → ℕ → Cache
filled c i =
    let b = c.buffers i in
    record c {
      buffers =
          update c.buffers i
            (record b { content = c.disk b.dev b.block; dirty = false; valid = true });
    }

module _ (c : Cache) (i : ℕ) (v : IsValid c) (use_i : i < c.made) where
  filled-IsValid : IsValid (filled c i)
  filled-IsValid = record {
    hashed = λ h j. let e = v.hashed h j in ground (arith, e);
    freed = λ j. let e = v.freed j in ground (arith, e);
    unique = λ j k hj hk d b. v.unique j k hj hk (ground (arith, d)) (ground (arith, b));
    clean = λ j hj z. let e = v.clean j hj in ground (arith, e);
    coherent = λ j hj v₁ d₁. elim (equal_or_not i j) [
      | inl x ↦ rw (← x, ==_refl i) refl
      | inr x ↦
          let e = ==_false i j x in rw e (v.coherent j hj (ground (arith, v₁)) (ground (arith, d₁)))
    ];
  }

  kept_is : (d b j : ℕ) → IsOf c d b j → IsOf (filled c i) d b j
  kept_is d b j is = record {
    in_use = is.in_use;
    dev_is = let e = is.dev_is in ground (arith, e);
    block_is = let e = is.block_is in ground (arith, e);
  }

  is_kept : (d b j : ℕ) → IsOf (filled c i) d b j → IsOf c d b j
  is_kept d b j is = record {
    in_use = is.in_use;
    dev_is = let e = is.dev_is in ground (arith, e);
    block_is = let e = is.block_is in ground (arith, e);
  }

  filled-Holds :
      (c.buffers i).valid ≡ false
      → (d b : ℕ) (bytes : List ℕ) → Holds c d b bytes
      → Holds (filled c i) d b bytes
  filled-Holds invalid d b bytes (inl (j, (is, (ok₁, e)))) =
      let ne : (i == j) ≡ false = elim (equal_or_not i j) [
        | inl x ↦ absurd (
            let t : true ≡ false = sym ok₁ ∙ ap (λ k. (c.buffers k).valid) (sym x) ∙ invalid in
            ground arith)
        | inr x ↦ ==_false i j x
      ] in
      inl (j, (kept_is d b j is, (rw ne ok₁, rw ne e)))
  filled-Holds invalid d b bytes (inr (none_valid, e)) = elim (equal_or_not (c.buffers i).dev d) [
    | inl x ↦ elim (equal_or_not (c.buffers i).block b) [
      | inl y ↦ inl (
        i,
        (
          kept_is d b i (record { in_use = use_i; dev_is = x; block_is = y }),
          (rw (==_refl i) refl, rw (==_refl i, x, y) e),
        ),
      )
      | inr y ↦ inr (
        λ j is.
            let is' = is_kept d b j is in
            let ne = ==_false i j (λ p. y (ap (λ k. (c.buffers k).block) p ∙ is'.block_is)) in
            rw ne (none_valid j is'),
        e,
      )
    ]
    | inr x ↦ inr (
      λ j is.
          let is' = is_kept d b j is in
          let ne = ==_false i j (λ p. x (ap (λ k. (c.buffers k).dev) p ∙ is'.dev_is)) in
          rw ne (none_valid j is'),
      e,
    )
  ]

-- what `fill` does with the buffer that `getblk` gave
fill_lem :
    (c c' : Cache) (dev block i : ℕ)
    → Got c c' dev block i
    → Got c (fill c' (some i)) dev block i × ((fill c' (some i)).buffers i).valid ≡ true
unfolding fill
fill_lem c c' dev block i g = elim (Bool-cases ((c'.buffers i).valid)) [
  | inl e ↦ rw e (g, e)
  | inr e ↦ rw e (
    record {
      valid = filled-IsValid c' i g.valid g.is.in_use;
      is = kept_is c' i g.valid g.is.in_use dev block i g.is;
      counted = elim g.counted [
        | inl (is, n) ↦ inl (is, rw (==_refl i) n)
        | inr (absent, n) ↦ inr (absent, rw (==_refl i) n)
      ];
      others = λ j ne. rw (==_false i j ne) (g.others j ne);
      reads =
          λ d b bytes h. filled-Holds c' i g.valid g.is.in_use e d b bytes (g.reads d b bytes h);
      waiting_same = g.waiting_same;
    },
    rw (==_refl i) refl,
  )
]

-- In a valid cache, `bread` gives the buffer of the block, in use and with the bytes that the block reads,
-- from the cache or from the disk; other buffers and what any block reads stay as they are. When no buffer
-- can be had the task waits, and nothing else changes.
pub bread-Holds :
    (c : Cache) (task dev block : ℕ)
    → IsValid c
    → ((i : ℕ) → (c.buffers i).count < 2 ^ 32 - 1)
    → member task c.waiting ≡ false
    → ((c' : Cache) × (i : ℕ) × ((bread c task dev block ≡ ok (c', some i))
          × Got c c' dev block i
          × Holds c dev block ((c'.buffers i).content)))
      ⊎ Waits c task (bread c task dev block)
unfolding bread fill
bread-Holds c task dev block v small fresh = elim (getblk-Got c task dev block v small fresh) [
  | inl (c', i, (run, g)) ↦
      let (g', ok₁) = fill_lem c c' dev block i g in
      let after = fill c' (some i) in
      let (bytes, held) = Holds-total dev block v in
      let reads : Holds after dev block ((after.buffers i).content) =
        inl (i, (g'.is, (ok₁, refl))) in
      let e =
        Holds-unique ((after.buffers i).content) bytes g'.valid reads
          (g'.reads dev block bytes held) in
      inl (after, i, (rw (run, ◌>>=◌) refl, g', rw e held))
  | inr w ↦
      inr (record { run = rw (w.run, ◌>>=◌) refl; no_room = w.no_room; none_free = w.none_free })
]
