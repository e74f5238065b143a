-- ===== src/Buffers/Claimed.antt =====
-- src/kernel/buffer.c: the cache behind a `getblk` that takes a buffer for a block that had none.
use yuios.Common.{
  ℕ, ◌<◌, ◌≡◌, refl, sym, ap, ◌∙◌, ◌≢◌, inl, inr, true, false, List, arith, ==_refl, ==_false,
  equal_or_not,
}
use yuios.Buffers.{Cache}
use yuios.Buffers.Valid.{IsValid, IsOf, Absent, Holds, is→same}
use yuios.Buffers.Claim.{IsLoose, Loosened, claimed}

module _ (c c' : Cache) (i dev block : ℕ) (v : IsValid c) (absent : Absent c dev block)
    (l : IsLoose c' i) (was : Loosened c c' i) where
  pub own :
      (claimed c' i dev block).buffers i
      ≡ record (c'.buffers i) { count = 1; dev = dev; block = block }
  own = rw (==_refl i) refl

  pub other : (j : ℕ) → i ≢ j → (claimed c' i dev block).buffers j ≡ c.buffers j
  other j ne = rw (==_false i j ne) ((was.kept j ne).0)

  older : (j : ℕ) → i ≢ j → j < c'.made → j < c.made
  older j ne h = let e = (was.kept j ne).1 in ground arith

  alone :
      (j : ℕ)
      → i ≢ j
      → j < c'.made
      → ((claimed c' i dev block).buffers j).dev ≡ dev
      → ((claimed c' i dev block).buffers j).block ≡ block
      → ⊥
  alone j ne h d b =
      let e = other j ne in
      let is =
        is→same (c.buffers j) dev block (ap (λ x. x.dev) (sym e) ∙ d)
          (ap (λ x. x.block) (sym e) ∙ b) in
      let out = absent j (older j ne h) in ground arith

  own_at :
      (j : ℕ)
      → i ≡ j
      → (claimed c' i dev block).buffers j
        ≡ record (c'.buffers i) { count = 1; dev = dev; block = block }
  own_at j p = ap ((claimed c' i dev block).buffers) (sym p) ∙ own

  one_buffer :
      (j k : ℕ)
      → j < c'.made
      → k < c'.made
      → ((claimed c' i dev block).buffers j).dev ≡ ((claimed c' i dev block).buffers k).dev
      → ((claimed c' i dev block).buffers j).block ≡ ((claimed c' i dev block).buffers k).block
      → j ≡ k
  one_buffer j k hj hk d b = elim (equal_or_not i j) [
    | inl x ↦ elim (equal_or_not i k) [
      | inl y ↦ sym x ∙ y
      | inr y ↦ absurd (
          alone k y hk (sym d ∙ ap (λ z. z.dev) (own_at j x))
            (sym b ∙ ap (λ z. z.block) (own_at j x)))
    ]
    | inr x ↦ elim (equal_or_not i k) [
      | inl y ↦
          absurd
            (alone j x hj (d ∙ ap (λ z. z.dev) (own_at k y)) (b ∙ ap (λ z. z.block) (own_at k y)))
      | inr y ↦
          let e = other j x in
          let e' = other k y in
          v.unique j k (older j x hj) (older k y hk)
            (ap (λ z. z.dev) (sym e) ∙ d ∙ ap (λ z. z.dev) e')
            (ap (λ z. z.block) (sym e) ∙ b ∙ ap (λ z. z.block) e')
    ]
  ]

  pub claimed-IsValid : IsValid (claimed c' i dev block)
  claimed-IsValid = record {
    hashed = λ h j. let e = l.hashed h j in ground (arith, e);
    freed = λ j. let e = l.freed j in ground (arith, e);
    unique = one_buffer;
    clean = λ j hj z. elim (equal_or_not i j) [
      | inl x ↦ let e : 1 ≡ 0 = sym (ap (λ z. z.count) (own_at j x)) ∙ z in absurd (omega arith)
      | inr x ↦
          let e = other j x in
          ap (λ z. z.dirty) e ∙ v.clean j (older j x hj) (ap (λ z. z.count) (sym e) ∙ z)
    ];
    coherent = λ j hj v₁ d₁. elim (equal_or_not i j) [
      | inl x ↦
          let e : true ≡ false = sym v₁ ∙ ap (λ z. z.valid) (own_at j x) ∙ l.empty.2 in
          absurd (ground arith)
      | inr x ↦
          let e = other j x in
          let old =
            v.coherent j (older j x hj) (ap (λ z. z.valid) (sym e) ∙ v₁)
              (ap (λ z. z.dirty) (sym e) ∙ d₁) in
          rw (e, was.disk_same) old
    ];
  }

  back : (d b k : ℕ) → i ≢ k → IsOf (claimed c' i dev block) d b k → IsOf c d b k
  back d b k ne is =
      let e = other k ne in
      record {
        in_use = older k ne is.in_use;
        dev_is = ap (λ z. z.dev) (sym e) ∙ is.dev_is;
        block_is = ap (λ z. z.block) (sym e) ∙ is.block_is;
      }

  -- the buffer that is taken held what the disk holds
  was_on_disk :
      (d b j : ℕ)
      → i ≡ j
      → IsOf c d b j
      → (c.buffers j).valid ≡ true
      → (c.buffers j).content ≡ c'.disk d b
  was_on_disk d b j x is ok₁ =
      let unused : (c.buffers j).count ≡ 0 =
        let old : i < c.made = let h = is.in_use in omega arith in
        ap (λ k. (c.buffers k).count) (sym x) ∙ was.was old in
      v.coherent j is.in_use ok₁ (v.clean j is.in_use unused)
      ∙ rw (is.dev_is, is.block_is, was.disk_same) refl

  -- What the blocks read is as before.
  pub claimed-Holds :
      (d b : ℕ) (bytes : List ℕ) → Holds c d b bytes → Holds (claimed c' i dev block) d b bytes
  claimed-Holds d b bytes (inl (j, (is, (ok₁, holds)))) = elim (equal_or_not i j) [
    | inl x ↦ inr (
      λ k isk. elim (equal_or_not i k) [
        | inl y ↦ ap (λ z. z.valid) (own_at k y) ∙ l.empty.2
        | inr y ↦
            let o = back d b k y isk in
            let same_one =
              v.unique j k is.in_use o.in_use (is.dev_is ∙ sym o.dev_is)
                (is.block_is ∙ sym o.block_is) in
            absurd (y (x ∙ same_one))
      ],
      sym (was_on_disk d b j x is ok₁) ∙ holds,
    )
    | inr x ↦
        let e = other j x in
        let kept = (was.kept j x).1 in
        let u = is.in_use in
        inl (
          j,
          (
            record {
              in_use = ground arith;
              dev_is = ap (λ z. z.dev) e ∙ is.dev_is;
              block_is = ap (λ z. z.block) e ∙ is.block_is;
            },
            (ap (λ z. z.valid) e ∙ ok₁, ap (λ z. z.content) e ∙ holds),
          ),
        )
  ]
  claimed-Holds d b bytes (inr (none_valid, on_disk)) = inr (
    λ k isk. elim (equal_or_not i k) [
      | inl y ↦ ap (λ z. z.valid) (own_at k y) ∙ l.empty.2
      | inr y ↦ ap (λ z. z.valid) (other k y) ∙ none_valid k (back d b k y isk)
    ],
    rw was.disk_same on_disk,
  )
