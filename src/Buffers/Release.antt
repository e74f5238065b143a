-- ===== src/Buffers/Release.antt =====
-- src/kernel/buffer.c: `bwrite` and `brelse`.
use yuios.Common.{
  update, ℕ, ◌<◌, ◌≡◌, refl, sym, ap, ◌∙◌, ◌≢◌, inl, inr, true, false, List, arith, Bool-cases,
  ==_refl, ==_false, equal_or_not,
}
use yuios.Buffers.{Cache, bwrite}
use yuios.Buffers.Valid.{IsValid, IsOf, Holds}
use yuios.Buffers.Reading.{IsOf-unique}

-- the cache once the buffer is written
abbrev written : Cache → ℕ → Cache
written c i =
    let b = c.buffers i in
    record c {
      disk = update c.disk b.dev (update (c.disk b.dev) b.block b.content);
      buffers = update c.buffers i (record b { dirty = false; valid = true });
    }

module _ (c : Cache) (i : ℕ) (v : IsValid c) (use_i : i < c.made) where
  own_block : (written c i).disk ((c.buffers i).dev) ((c.buffers i).block) ≡ (c.buffers i).content
  own_block = rw (==_refl ((c.buffers i).dev), ==_refl ((c.buffers i).block)) refl

  -- another block of the disk is as before
  other_block : (j d b : ℕ) → i ≢ j → IsOf c d b j → (written c i).disk d b ≡ c.disk d b
  other_block j d b ne is = elim (equal_or_not (c.buffers i).dev d) [
    | inl x ↦ elim (equal_or_not (c.buffers i).block b) [
      | inl y ↦ absurd (ne (IsOf-unique v (record { in_use = use_i; dev_is = x; block_is = y }) is))
      | inr y ↦ rw (x, ==_refl d, ==_false (c.buffers i).block b y) refl
    ]
    | inr x ↦ rw (==_false (c.buffers i).dev d x) refl
  ]

  written-IsValid : IsValid (written c i)
  written-IsValid = record {
    hashed = λ h j. let e = v.hashed h j in ground (arith, e);
    freed = λ j. let e = v.freed j in ground (arith, e);
    unique = λ j k hj hk d b. v.unique j k hj hk (ground (arith, d)) (ground (arith, b));
    clean = λ j hj z. let e = v.clean j hj in ground (arith, e);
    coherent = λ j hj v₁ d₁. elim (equal_or_not i j) [
      | inl x ↦ rw (← x, ==_refl i) (sym own_block)
      | inr x ↦
          let e = ==_false i j x in
          rw e (
            v.coherent j hj (ground (arith, v₁)) (ground (arith, d₁))
            ∙ sym (
                other_block j (c.buffers j).dev (c.buffers j).block x
                  (record { in_use = hj; dev_is = refl; block_is = refl })))
    ];
  }

  is_kept : (d b j : ℕ) → IsOf (written c i) d b j → IsOf c d b j
  is_kept d b j is = record {
    in_use = is.in_use;
    dev_is = let e = is.dev_is in ground (arith, e);
    block_is = let e = is.block_is in ground (arith, e);
  }

  written-Holds :
      (c.buffers i).valid ≡ true
      → (d b : ℕ) (bytes : List ℕ) → Holds c d b bytes
      → Holds (written c i) d b bytes
  written-Holds ok₀ d b bytes (inl (j, (is, (ok₁, e)))) = inl (
    j,
    (
      record {
        in_use = is.in_use;
        dev_is = let f = is.dev_is in ground (arith, f);
        block_is = let f = is.block_is in ground (arith, f);
      },
      (
        ground (arith, ok₁),
        elim (equal_or_not i j) [
          | inl x ↦ rw (← x, ==_refl i) (ap (λ k. (c.buffers k).content) x ∙ e)
          | inr x ↦ rw (==_false i j x) e
        ],
      ),
    ),
  )
  written-Holds ok₀ d b bytes (inr (none_valid, e)) =
      let away : (c.buffers i).dev ≡ d → (c.buffers i).block ≡ b → ⊥ = λ x y.
        let n = none_valid i (record { in_use = use_i; dev_is = x; block_is = y }) in
        ground (arith, n, ok₀) in
      inr (
        λ j is.
            let is' = is_kept d b j is in
            let ne = ==_false i j (λ p.
              away (ap (λ k. (c.buffers k).dev) p ∙ is'.dev_is)
                (ap (λ k. (c.buffers k).block) p ∙ is'.block_is)) in
            rw ne (none_valid j is'),
        elim (equal_or_not (c.buffers i).dev d) [
          | inl x ↦ rw (x, ==_refl d, ==_false (c.buffers i).block b (away x)) e
          | inr x ↦ rw (==_false (c.buffers i).dev d x) e
        ],
      )

-- what `bwrite` leaves
pub record Wrote (c c' : Cache) (i : ℕ) : Type 0 where
  pub valid : IsValid c'
  pub clean : (c'.buffers i).dirty ≡ false
  pub same_count : (c'.buffers i).count ≡ (c.buffers i).count
  pub same_made : c'.made ≡ c.made
  pub on_disk :
      (c.buffers i).valid ≡ true
      → c'.disk (c.buffers i).dev (c.buffers i).block ≡ (c.buffers i).content
  pub others : (j : ℕ) → i ≢ j → c'.buffers j ≡ c.buffers j
  pub reads : (d b : ℕ) (bytes : List ℕ) → Holds c d b bytes → Holds c' d b bytes
  pub same_free : c'.free ≡ c.free
  pub same_waiting : c'.waiting ≡ c.waiting

pub bwrite-Wrote :
    (c : Cache) (i : ℕ)
    → IsValid c
    → i < c.made
    → ((c.buffers i).dirty ≡ true → (c.buffers i).valid ≡ true)
    → Wrote c (bwrite c i) i
unfolding bwrite
bwrite-Wrote c i v use_i read = elim (Bool-cases ((c.buffers i).dirty)) [
  | inl e ↦ rw e (record {
    valid = written-IsValid c i v use_i;
    clean = rw (==_refl i) refl;
    same_count = rw (==_refl i) refl;
    same_made = refl;
    on_disk = λ ok₁. own_block c i v use_i;
    others = λ j ne. rw (==_false i j ne) refl;
    reads = written-Holds c i v use_i (read e);
    same_free = refl;
    same_waiting = refl;
  })
  | inr e ↦ rw e (record {
    valid = v;
    clean = e;
    same_count = refl;
    same_made = refl;
    on_disk = λ ok₁. sym (v.coherent i use_i ok₁ e);
    others = λ j ne. refl;
    reads = λ d b bytes h. h;
    same_free = refl;
    same_waiting = refl;
  })
]
