-- ===== src/Buffers/Reading.antt =====
-- src/kernel/buffer.c: what a block reads is one content, and changes of the cache that leave it.
use yuios.Common.{
  update, ℕ, ◌<◌, ◌≡◌, refl, sym, ap, ◌∙◌, inl, inr, false, List, arith, ◌==◌, if◌then◌else◌,
  Bool-cases, member,
}
use yuios.Buffers.{Cache}
use yuios.Buffers.Valid.{IsValid, IsOf, Holds, is→same, find-IsOf}

pub IsOf-unique : {c : Cache} {d b i j : ℕ} → IsValid c → IsOf c d b i → IsOf c d b j → i ≡ j
IsOf-unique {c} {d} {b} {i} {j} v is is' =
    v.unique i j is.in_use is'.in_use (is.dev_is ∙ sym is'.dev_is) (is.block_is ∙ sym is'.block_is)

-- A block reads one content.
pub Holds-unique :
    {c : Cache} {d b : ℕ} (x y : List ℕ) → IsValid c → Holds c d b x → Holds c d b y → x ≡ y
Holds-unique {c} x y v (inl (i, (is, (ok₁, e)))) (inl (j, (is', (ok₂, e')))) =
    sym e ∙ ap (λ k. (c.buffers k).content) (IsOf-unique v is is') ∙ e'
Holds-unique x y v (inl (i, (is, (ok₁, e)))) (inr (none_valid, e')) =
    let n = none_valid i is in absurd (ground arith)
Holds-unique x y v (inr (none_valid, e)) (inl (j, (is', (ok₂, e')))) =
    let n = none_valid j is' in absurd (ground arith)
Holds-unique x y v (inr (n, e)) (inr (n', e')) = sym e ∙ e'

pub Holds-total : {c : Cache} (d b : ℕ) → IsValid c → (x : List ℕ) × Holds c d b x
Holds-total {c} d b v = elim (find-IsOf d b v) [
  | inl (i, (run, is)) ↦ elim (Bool-cases ((c.buffers i).valid)) [
    | inl e ↦ ((c.buffers i).content, inl (i, (is, (e, refl))))
    | inr e ↦
        (c.disk d b, inr (λ j is'. ap (λ k. (c.buffers k).valid) (IsOf-unique v is' is) ∙ e, refl))
  ]
  | inr (run, absent) ↦ (
    c.disk d b,
    inr (
      λ j is.
          let yes₁ = is→same (c.buffers j) d b is.dev_is is.block_is in
          let no₁ = absent j is.in_use in absurd (ground arith),
      refl,
    ),
  )
]

-- The two caches have the same blocks with the same bytes.
pub record Similar (c c' : Cache) : Type 0 where
  pub made_same : c'.made ≡ c.made
  pub disk_same : c'.disk ≡ c.disk
  pub dev_same : (i : ℕ) → (c'.buffers i).dev ≡ (c.buffers i).dev
  pub block_same : (i : ℕ) → (c'.buffers i).block ≡ (c.buffers i).block
  pub valid_same : (i : ℕ) → (c'.buffers i).valid ≡ (c.buffers i).valid
  pub content_same : (i : ℕ) → (c'.buffers i).content ≡ (c.buffers i).content

similar_back : {c c' : Cache} (d b i : ℕ) → Similar c c' → IsOf c' d b i → IsOf c d b i
similar_back d b i s is = record {
  in_use = let u = is.in_use in let e = s.made_same in omega arith;
  dev_is = sym (s.dev_same i) ∙ is.dev_is;
  block_is = sym (s.block_same i) ∙ is.block_is;
}

pub similar_IsOf : {c c' : Cache} (d b i : ℕ) → Similar c c' → IsOf c d b i → IsOf c' d b i
similar_IsOf d b i s is = record {
  in_use = let u = is.in_use in let e = s.made_same in omega arith;
  dev_is = s.dev_same i ∙ is.dev_is;
  block_is = s.block_same i ∙ is.block_is;
}

pub Similar-Holds :
    {c c' : Cache} (d b : ℕ) (x : List ℕ) → Similar c c' → Holds c d b x → Holds c' d b x
Similar-Holds d b x s (inl (i, (is, (ok₁, e)))) =
    inl (i, (similar_IsOf d b i s is, (s.valid_same i ∙ ok₁, s.content_same i ∙ e)))
Similar-Holds d b x s (inr (n, e)) =
    inr (λ i is. s.valid_same i ∙ n i (similar_back d b i s is), ap (λ f. f d b) s.disk_same ∙ e)

-- the buffer when one use more or less is counted
pub counted-Similar :
    (c : Cache) (i n : ℕ) (f : List ℕ)
    → Similar c
        (record c { free = f; buffers = update c.buffers i (record (c.buffers i) { count = n }) })
counted-Similar c i n f = record {
  made_same = refl;
  disk_same = refl;
  dev_same = λ j. ground arith;
  block_same = λ j. ground arith;
  valid_same = λ j. ground arith;
  content_same = λ j. ground arith;
}

-- The counts, the free list and what needs no writing fit together again when the count of a buffer and
-- the free list change together.
pub counted-IsValid :
    (c : Cache) (i n : ℕ) (f : List ℕ)
    → IsValid c
    → i < c.made
    → ((j : ℕ) → member j f ≡ (if i == j then (n == 0) else member j c.free))
    → ((n ≡ 0) → (c.buffers i).dirty ≡ false)
    → IsValid
        (record c { free = f; buffers = update c.buffers i (record (c.buffers i) { count = n }) })
counted-IsValid c i n f v use_i free_is clean_i =
    let s = counted-Similar c i n f in
    record {
      hashed = λ h j. let e = v.hashed h j in ground (arith, e);
      freed = λ j. let e = v.freed j in let e' = free_is j in ground (arith, e, e');
      unique = λ j k hj hk d b.
          v.unique j k hj hk (sym (s.dev_same j) ∙ d ∙ s.dev_same k)
            (sym (s.block_same j) ∙ b ∙ s.block_same k);
      clean = λ j hj z. let e = v.clean j hj in ground (arith, e, clean_i);
      coherent = λ j hj v₁ d₁.
          s.content_same j
          ∙ v.coherent j hj (sym (s.valid_same j) ∙ v₁) (ground (arith, d₁))
          ∙ rw (s.dev_same j, s.block_same j) refl;
    }
