-- ===== src/FileBlocks/Origin.antt =====
-- src/fs/bmap.c: where the number comes from that `bmap` gives with `create`.
use yuios.Common.{
  ℕ, zero, suc, ◌-◌, ◌/◌, ◌%◌, ◌^◌, ◌<◌, ◌≡◌, ◌≢◌, ◌⊎◌, refl, sym, ap, ◌∙◌, inl, inr, true, ◌&&◌,
  arith, ltb, ◌==◌, equal_or_not, Bool-cases, Outcome-cases, ok, ◌>>=◌, lt→ltb, update, update_self,
  update_other, OnOk, OnOk-map,
}
use mathlib.Core.Path.{subst}
use yuios.FreeMaps.{Super, balloc}
use yuios.FileBlocks.{Volume, Array, zones, block_at, entry, put, allocate, reckon, bmap}

-- `balloc` gave a block with this number, as far as 16 bits hold it
abbrev pub FromBalloc : ℕ → Type 0
FromBalloc nr =
    (sb : Super) × (sb' : Super) × (b : ℕ) × ((balloc sb ≡ ok (sb', b)) × (nr ≡ b % 2 ^ 16))

-- the number is not 0 and was in the inode or in an index block, or was given
abbrev pub Origin : (Given : ℕ → Type 0) → Volume → ℕ → Type 0
Origin Given v nr = ((a : Array) × (i : ℕ) × ((entry v a i ≡ nr) × (nr ≢ 0))) ⊎ Given nr

-- every number is the one that was there, or was given
abbrev pub Sourced : (Given : ℕ → Type 0) → Volume → Volume → Type 0
Sourced Given v v' = (a : Array) (i : ℕ) → (entry v' a i ≡ entry v a i) ⊎ Given (entry v' a i)

pub put_self : (v : Volume) (a : Array) (i x : ℕ) → entry (put v a i x) a i ≡ x
put_self v zones i x = update_self v.zone i x
put_self v (block_at b) i x =
    ap (λ (f : ℕ → ℕ). f i) (update_self v.index_block b (update (v.index_block b) i x))
    ∙ update_self (v.index_block b) i x

-- what the first statement of the loop does with `create`
abbrev pub Made : (Given : ℕ → Type 0) → Volume → Array → ℕ → Volume → Type 0
Made Given v a i v' = Sourced Given v v' × ((entry v' a i ≢ 0) ⊎ Given (entry v' a i))

module _ (Given : ℕ → Type 0) where
  pub Origin-before :
      (v v' : Volume) (nr : ℕ) → Sourced Given v v' → Origin Given v' nr → Origin Given v nr
  Origin-before v v' nr from (inr given) = inr given
  Origin-before v v' nr from (inl (a, i, (e, ne))) = elim (from a i) [
    | inl same ↦ inl (a, i, (sym same ∙ e, ne))
    | inr given ↦ inr (subst Given e given)
  ]

  pub put-Sourced :
      (v : Volume) (sb : Super) (a : Array) (i x : ℕ)
      → Given x
      → Sourced Given v (put (record v { super = sb }) a i x)
  put-Sourced v sb zones i x given zones j = elim (equal_or_not i j) [
    | inl e ↦
        inr (subst Given (sym (sym (ap (update v.zone i x) e) ∙ update_self v.zone i x)) given)
    | inr e ↦ inl (update_other v.zone i x j e)
  ]
  put-Sourced v sb zones i x given (block_at c) j = inl refl
  put-Sourced v sb (block_at b) i x given zones j = inl refl
  put-Sourced v sb (block_at b) i x given (block_at c) j =
      let row = update (v.index_block b) i x in
      elim (equal_or_not b c) [
        | inr e ↦ inl (ap (λ (f : ℕ → ℕ). f j) (update_other v.index_block b row c e))
        | inl e ↦
            let here : update v.index_block b row c j ≡ row j =
              sym (ap (λ k. update v.index_block b row k j) e)
              ∙ ap (λ (f : ℕ → ℕ). f j) (update_self v.index_block b row) in
            elim (equal_or_not i j) [
              | inl e' ↦
                  let is : row j ≡ x = sym (ap row e') ∙ update_self (v.index_block b) i x in
                  inr (subst Given (sym (here ∙ is)) given)
              | inr e' ↦
                  inl
                    (here ∙ update_other (v.index_block b) i x j e' ∙ ap (λ k. v.index_block k j) e)
            ]
      ]

  pub Made-Origin :
      (v v' : Volume) (a : Array) (i : ℕ) → Made Given v a i v' → Origin Given v (entry v' a i)
  Made-Origin v v' a i (from, inr given) = inr given
  Made-Origin v v' a i (from, inl there) =
      Origin-before v v' (entry v' a i) from (inl (a, i, (refl, there)))

allocate-Made :
    (v : Volume) (a : Array) (i : ℕ) → OnOk (Made FromBalloc v a i) (allocate v true a i)
unfolding allocate
allocate-Made v a i = elim (Bool-cases ((entry v a i == 0) && true)) [
  | inr e ↦
      let there : entry v a i ≢ 0 = λ z. absurd (ground (arith, z, e)) in
      rw e (λ b j. inl refl, inl there)
  | inl e ↦ elim (Outcome-cases (balloc v.super)) [
    | inr (h, run) ↦ rw (e, run, ◌>>=◌) tt
    | inl ((sb, b), run) ↦
        let given : FromBalloc (b % 2 ^ 16) = (v.super, sb, b, (run, refl)) in
        let self = put_self (record v { super = sb }) a i (b % 2 ^ 16) in
        rw (e, run, ◌>>=◌)
          (
            put-Sourced FromBalloc v sb a i (b % 2 ^ 16) given,
            inr (subst FromBalloc (sym self) given),
          )
  ]
]

reckon-Origin :
    (v : Volume) (a : Array) (index block divider level : ℕ)
    → OnOk (λ r. Origin FromBalloc v r.1) (reckon v true a index block divider level)
unfolding reckon
reckon-Origin v a index block divider zero = elim (Outcome-cases (allocate v true a index)) [
  | inr (h, run) ↦ rw (run, ◌>>=◌) tt
  | inl (v₁, run) ↦
      let made = subst (OnOk (Made FromBalloc v a index)) run (allocate-Made v a index) in
      rw (run, ◌>>=◌) (Made-Origin FromBalloc v v₁ a index made)
]
reckon-Origin v a index block divider (suc level) = elim (Outcome-cases (allocate v true a index)) [
  | inr (h, run) ↦ rw (run, ◌>>=◌) tt
  | inl (v₁, run) ↦
      let made = subst (OnOk (Made FromBalloc v a index)) run (allocate-Made v a index) in
      let rest =
        reckon v₁ true (block_at (entry v₁ a index)) (block / divider) (block % divider)
          (divider / 512) level in
      elim (Bool-cases (entry v₁ a index == 0)) [
        | inl e ↦ rw (run, ◌>>=◌, e) (Made-Origin FromBalloc v v₁ a index made)
        | inr e ↦
            rw (run, ◌>>=◌, e)
              (OnOk-map (λ r. Origin FromBalloc v₁ r.1) (λ r. Origin FromBalloc v r.1) rest
                (reckon-Origin v₁ (block_at (entry v₁ a index)) (block / divider) (block % divider)
                  (divider / 512) level)
                (λ r o. Origin-before FromBalloc v v₁ r.1 made.0 o))
      ]
]

pub bmap-Origin :
    (v : Volume) (block : ℕ)
    → block < 262663
    → OnOk (λ r. Origin FromBalloc v r.1) (bmap v block true)
unfolding bmap
bmap-Origin v block h =
    let all : ltb block 262663 ≡ true = lt→ltb block 262663 h in
    elim (Bool-cases (ltb block 7)) [
      | inl e ↦ rw (all, ◌>>=◌, e) (reckon-Origin v zones block block 1 0)
      | inr e ↦ elim (Bool-cases (ltb (block - 7) 512)) [
        | inl one ↦ rw (all, ◌>>=◌, e, one) (reckon-Origin v zones 7 (block - 7) 1 1)
        | inr one ↦
            let two : ltb (block - 7 - 512) 262144 ≡ true = ground arith in
            rw (all, ◌>>=◌, e, one, two) (reckon-Origin v zones 8 (block - 7 - 512) 512 2)
      ]
    ]
