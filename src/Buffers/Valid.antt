-- ===== src/Buffers/Valid.antt =====
-- src/kernel/buffer.c: what holds of the cache between two calls, and what the search in the hash table
-- finds.
use yuios.Common.{
  ℕ, ◌<◌, ◌≡◌, refl, ◌⊎◌, inl, inr, true, false, ◌&&◌, none, some, List, [], ◌∷◌, arith, ltb, ◌==◌,
  Bool-cases, member,
}
use yuios.Buffers.{Buffer, Cache, hash, hash_of, same, find, buffer_init}

-- Every buffer is in the list of its block's hash and in no other one, those that nobody uses are in the
-- free list, no block has two buffers, a buffer that nobody uses has nothing to be written, and one with
-- nothing to be written holds what the disk does.
pub record IsValid (c : Cache) : Type 0 where
  pub hashed :
      (h i : ℕ) → member i (c.hash_table h) ≡ (ltb i c.made && (hash_of (c.buffers i) == h))
  pub freed : (i : ℕ) → member i c.free ≡ (ltb i c.made && ((c.buffers i).count == 0))
  pub unique :
      (i j : ℕ)
      → i < c.made
      → j < c.made
      → (c.buffers i).dev ≡ (c.buffers j).dev
      → (c.buffers i).block ≡ (c.buffers j).block
      → i ≡ j
  pub clean : (i : ℕ) → i < c.made → (c.buffers i).count ≡ 0 → (c.buffers i).dirty ≡ false
  pub coherent :
      (i : ℕ)
      → i < c.made
      → (c.buffers i).valid ≡ true
      → (c.buffers i).dirty ≡ false
      → (c.buffers i).content ≡ c.disk (c.buffers i).dev (c.buffers i).block

-- the buffer `i` is that of the block
pub record IsOf (c : Cache) (dev block i : ℕ) : Type 0 where
  pub in_use : i < c.made
  pub dev_is : (c.buffers i).dev ≡ dev
  pub block_is : (c.buffers i).block ≡ block

-- no buffer is that of the block
abbrev pub Absent : (c : Cache) (dev block : ℕ) → Type 0
Absent c dev block = (i : ℕ) → i < c.made → same (c.buffers i) dev block ≡ false

-- What a block reads: the bytes of its buffer, when it has one that is valid, and those on the disk else.
abbrev pub Holds : (c : Cache) (dev block : ℕ) → List ℕ → Type 0
Holds c dev block bytes =
    ((i : ℕ) × (IsOf c dev block i
        × (((c.buffers i).valid ≡ true) × ((c.buffers i).content ≡ bytes))))
    ⊎ (((i : ℕ) → IsOf c dev block i → (c.buffers i).valid ≡ false) × (c.disk dev block ≡ bytes))

pub same→is :
    (b : Buffer) (dev block : ℕ) → same b dev block ≡ true → (b.dev ≡ dev) × (b.block ≡ block)
same→is b dev block h = (ground arith, ground arith)

pub is→same : (b : Buffer) (dev block : ℕ) → b.dev ≡ dev → b.block ≡ block → same b dev block ≡ true
is→same b dev block h k = ground arith

-- The cache that `buffer_init` sets up is valid.
pub buffer_init-IsValid :
    (memory : ℕ → Buffer) (disk : ℕ → ℕ → List ℕ) → IsValid (buffer_init memory disk)
buffer_init-IsValid memory disk = record {
  hashed = λ h i. ground arith;
  freed = λ i. ground arith;
  unique = λ i j hi. absurd (omega arith);
  clean = λ i hi. absurd (omega arith);
  coherent = λ i hi. absurd (omega arith);
}

find_lem :
    (buffers : ℕ → Buffer) (dev block : ℕ) (is : List ℕ)
    → ((i : ℕ) × ((find buffers dev block is ≡ some i)
          × (member i is ≡ true)
          × (same (buffers i) dev block ≡ true)))
      ⊎ ((find buffers dev block is ≡ none)
          × ((i : ℕ) → member i is ≡ true → same (buffers i) dev block ≡ false))
unfolding find
find_lem buffers dev block [] = inr (refl, λ i h. cc)
find_lem buffers dev block (j ∷ js) = elim (Bool-cases (same (buffers j) dev block)) [
  | inl e ↦ inl (j, (rw e refl, ground arith, e))
  | inr e ↦ elim (find_lem buffers dev block js) [
    | inl (i, (run, inside, is)) ↦ inl (i, (rw (e, run) refl, ground arith, is))
    | inr (run, nowhere) ↦ inr (
      rw (e, run) refl,
      λ i h. elim (Bool-cases (j == i)) [
        | inl at ↦ let here : j ≡ i = ground arith in rw (← here) e
        | inr at ↦ nowhere i (ground arith)
      ],
    )
  ]
]

-- The search finds the buffer of the block, if there is one.
pub find-IsOf :
    {c : Cache} (dev block : ℕ)
    → IsValid c
    → ((i : ℕ) × ((find c.buffers dev block (c.hash_table (hash dev block)) ≡ some i)
          × IsOf c dev block i))
      ⊎ ((find c.buffers dev block (c.hash_table (hash dev block)) ≡ none) × Absent c dev block)
find-IsOf {c} dev block v = elim (find_lem c.buffers dev block (c.hash_table (hash dev block))) [
  | inl (i, (run, inside, is)) ↦
      let e = v.hashed (hash dev block) i in
      let (d, b) = same→is (c.buffers i) dev block is in
      inl (i, (run, record { in_use = ground arith; dev_is = d; block_is = b }))
  | inr (run, nowhere) ↦ inr (
    run,
    λ i h. elim (Bool-cases (same (c.buffers i) dev block)) [
      | inl e ↦
          let (d, b) = same→is (c.buffers i) dev block e in
          let at : hash_of (c.buffers i) ≡ hash dev block = rw (d, b) refl in
          let e' = v.hashed (hash dev block) i in nowhere i (ground arith)
      | inr e ↦ e
    ],
  )
]
