-- ===== src/FileBlocks/Lookup.antt =====
-- src/fs/bmap.c: what `bmap` finds, and that it finds what it made.
use yuios.Common.{
  ℕ, zero, suc, ◌-◌, ◌/◌, ◌%◌, ◌<◌, ◌≡◌, refl, ap, ◌∙◌, inl, inr, true, false, arith, ltb, ◌==◌,
  if◌then◌else◌, Bool-cases, ok, ◌>>=◌, lt→ltb,
}
use yuios.FileBlocks.{Volume, Array, zones, block_at, entry, allocate, reckon, bmap}

-- a number in an index block that may be missing
abbrev pub through : Volume → (b i : ℕ) → ℕ
through v b i = if b == 0 then 0 else v.index_block b i

-- The block of a file, by what the levels are: 0 is for a block that the file does not have.
abbrev pub lookup : Volume → ℕ → ℕ
lookup v block =
    if ltb block 7
    then v.zone block
    else if ltb block 519
    then through v (v.zone 7) (block - 7)
    else through v (through v (v.zone 8) ((block - 519) / 512)) ((block - 519) % 512)

-- the loop without `create`
walk : Volume → Array → (index block divider level : ℕ) → ℕ
walk v a index block divider zero = entry v a index
walk v a index block divider (suc level) =
    let next =
      walk v (block_at (entry v a index)) (block / divider) (block % divider) (divider / 512)
        level in
    if entry v a index == 0 then entry v a index else next

allocate_off : (v : Volume) (a : Array) (i : ℕ) → allocate v false a i ≡ ok v
unfolding allocate
allocate_off v a i = elim (Bool-cases (entry v a i == 0)) [ inl e ↦ rw e refl | inr e ↦ rw e refl ]

reckon-walk :
    (v : Volume) (a : Array) (index block divider level : ℕ)
    → reckon v false a index block divider level ≡ ok (v, walk v a index block divider level)
unfolding reckon walk
reckon-walk v a index block divider zero = rw (allocate_off v a index) refl
reckon-walk v a index block divider (suc level) = elim (Bool-cases (entry v a index == 0)) [
  | inl e ↦ rw (allocate_off v a index, ◌>>=◌, e) refl
  | inr e ↦
      rw (allocate_off v a index, ◌>>=◌, e)
        (reckon-walk v (block_at (entry v a index)) (block / divider) (block % divider)
          (divider / 512) level)
]

zero_of : (n : ℕ) → (n == 0) ≡ true → n ≡ 0
zero_of n h = ground arith

walk_one : (v : Volume) (b : ℕ) → walk v zones 7 b 1 1 ≡ through v (v.zone 7) b
unfolding walk
walk_one v b =
    let n : b / 1 ≡ b = omega arith in
    elim (Bool-cases (v.zone 7 == 0)) [
      | inl e ↦ rw e (zero_of (v.zone 7) e)
      | inr e ↦ rw (e, n) refl
    ]

walk_two :
    (v : Volume) (b : ℕ)
    → walk v zones 8 b 512 2 ≡ through v (through v (v.zone 8) (b / 512)) (b % 512)
unfolding walk
walk_two v b =
    let n : b % 512 / 1 ≡ b % 512 = omega arith in
    elim (Bool-cases (v.zone 8 == 0)) [
      | inl e ↦ rw e (zero_of (v.zone 8) e)
      | inr e ↦ rw e (elim (Bool-cases (v.index_block (v.zone 8) (b / 512) == 0)) [
        | inl z ↦ rw z (zero_of (v.index_block (v.zone 8) (b / 512)) z)
        | inr z ↦ rw (z, n) refl
      ])
    ]

-- `bmap` without `create` changes nothing and finds the block of the file by its level: in the inode, in the
-- index block, or in the index block that an index block names.
pub bmap-lookup :
    (v : Volume) (block : ℕ) → block < 262663 → bmap v block false ≡ ok (v, lookup v block)
unfolding bmap walk
bmap-lookup v block h =
    let all : ltb block 262663 ≡ true = lt→ltb block 262663 h in
    elim (Bool-cases (ltb block 7)) [
      | inl e ↦ rw (all, ◌>>=◌, e) (reckon-walk v zones block block 1 0)
      | inr e ↦ elim (Bool-cases (ltb block 519)) [
        | inl e₁ ↦
            let one : ltb (block - 7) 512 ≡ true = ground arith in
            rw (all, ◌>>=◌, e, one, e₁)
              (reckon-walk v zones 7 (block - 7) 1 1 ∙ ap (λ n. ok (v, n)) (walk_one v (block - 7)))
        | inr e₁ ↦
            let one : ltb (block - 7) 512 ≡ false = ground arith in
            let two : ltb (block - 7 - 512) 262144 ≡ true = ground arith in
            let at : block - 7 - 512 ≡ block - 519 = omega arith in
            rw (all, ◌>>=◌, e, one, e₁, two, at)
              (reckon-walk v zones 8 (block - 519) 512 2
                ∙ ap (λ n. ok (v, n)) (walk_two v (block - 519)))
      ]
    ]
