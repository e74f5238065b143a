-- ===== src/Memory/Regions.antt =====
-- src/kernel/memory.c: `memory_init` chooses a region of memory.
use yuios.Common.{
  ℕ, ◌+◌, ◌*◌, ◌%◌, ◌^◌, ◌≤◌, ◌<◌, ◌≡◌, refl, ◌⊎◌, inl, inr, false, ◌&&◌, List, [], ◌∷◌, arith, ltb,
  ◌==◌, Bool-cases, All, ok, add32,
}
use yuios.Memory.{Ards, find_region, memory_init, idx}

-- the regions are reported with addresses and sizes of 32 bits
abbrev pub Fits : Ards → Type 0
Fits r = (r.base < 2 ^ 32) × (r.size < 2 ^ 32)

-- `size` bounds the usable regions
abbrev pub Bounds : ℕ → Ards → Type 0
Bounds size r = r.type ≡ 1 → r.size ≤ size

-- a region is reported, is usable, and has this base and size
abbrev pub Among : List Ards → ℕ → ℕ → Type 0
Among [] base size = ⊥
Among (r ∷ rs) base size = ((r.type ≡ 1) × (r.base ≡ base) × (r.size ≡ size)) ⊎ Among rs base size

-- what the loop has when it ends, having started with `base` and `size`
record Chosen (rs : List Ards) (base size : ℕ) (out : ℕ × ℕ) : Type 0 where
  grows : size ≤ out.1
  most : All (Bounds out.1) rs
  source : ((out.0 ≡ base) × (out.1 ≡ size)) ⊎ Among rs out.0 out.1

find_region-Chosen :
    (rs : List Ards) (base size : ℕ) → All Fits rs → Chosen rs base size (find_region rs base size)
unfolding find_region
find_region-Chosen [] base size h = record {
  grows = omega arith;
  most = tt;
  source = inl (refl, refl);
}
find_region-Chosen (r ∷ rs) base size h = elim (Bool-cases (r.type == 1 && ltb size r.size)) [
  | inl e ↦
      let ih = find_region-Chosen rs (r.base % 2 ^ 32) (r.size % 2 ^ 32) h.1 in
      let facts : (r.type ≡ 1) × (size < r.size) = ground arith in
      rw e (record {
        grows = omega (arith, ih.grows, h.0);
        most = (λ t. omega (arith, ih.grows, h.0), ih.most);
        source = elim ih.source [
          | inl (b, s) ↦ inr (inl (facts.0, omega (arith, h.0), omega (arith, h.0)))
          | inr among ↦ inr (inr among)
        ];
      })
  | inr e ↦
      let ih = find_region-Chosen rs base size h.1 in
      rw e (record {
        grows = ih.grows;
        most = (λ t. ground (arith, ih.grows), ih.most);
        source = elim ih.source [ inl same ↦ inl same | inr among ↦ inr (inr among) ];
      })
]

Among-Bounds :
    (rs : List Ards) (base size top : ℕ) → Among rs base size → All (Bounds top) rs → size ≤ top
Among-Bounds [] base size top m h = absurd m
Among-Bounds (r ∷ rs) base size top (inl (t, b, s)) h = omega (arith, h.0 t)
Among-Bounds (r ∷ rs) base size top (inr m) h = Among-Bounds rs base size top m h.1

-- a usable region is the one at 1 MiB of size `size`, or it is smaller
abbrev pub Smaller : ℕ → Ards → Type 0
Smaller size r = r.type ≡ 1 → (r.size < size) ⊎ ((r.base ≡ 0x100000) × (r.size ≡ size))

Among-Smaller :
    (rs : List Ards) (base size top : ℕ)
    → Among rs base size
    → All (Smaller top) rs
    → (size < top) ⊎ ((base ≡ 0x100000) × (size ≡ top))
Among-Smaller [] base size top m h = absurd m
Among-Smaller (r ∷ rs) base size top (inl (t, b, s)) h = elim (h.0 t) [
  | inl lt ↦ inl (omega arith)
  | inr (b', s') ↦ inr (omega arith, omega arith)
]
Among-Smaller (r ∷ rs) base size top (inr m) h = Among-Smaller rs base size top m h.1

find_region_lem :
    (rs : List Ards) (size : ℕ)
    → 0 < size
    → All Fits rs
    → Among rs 0x100000 size
    → All (Smaller size) rs
    → find_region rs 0 0 ≡ (0x100000, size)
find_region_lem rs size pos fits m h =
    let chosen = find_region-Chosen rs 0 0 fits in
    let out = find_region rs 0 0 in
    let large : size ≤ out.1 = Among-Bounds rs 0x100000 size out.1 m chosen.most in
    elim chosen.source [
      | inl (b, s) ↦ absurd (omega arith)
      | inr among ↦ elim (Among-Smaller rs out.0 out.1 size among h) [
        | inl lt ↦ absurd (omega arith)
        | inr (b, s) ↦ λ i. (b i, s i)
      ]
    ]

-- Let the reported regions fit 32 bits, and let one of them be usable, begin at 1 MiB, have a whole
-- number of pages and 16 MiB or more, and exceed all other usable ones. Wherever it stands among them,
-- `memory_init` does not halt and chooses it: its pages are the free ones, and the total has the 256
-- pages below it besides.
pub memory_init_lem :
    (rs : List Ards) (pages : ℕ)
    → 4096 ≤ pages
    → All Fits rs
    → Among rs 0x100000 (pages * 4096)
    → All (Smaller (pages * 4096)) rs
    → pages * 4096 < 2 ^ 32
    → memory_init rs ≡ ok (pages + 256, pages)
unfolding memory_init
memory_init_lem rs pages large fits m h small =
    let count : idx (pages * 4096) ≡ pages = omega arith in
    let whole : pages * 4096 % 4096 ≡ 0 = omega arith in
    let total : add32 pages 256 ≡ pages + 256 = omega arith in
    let enough : ltb (pages * 4096) 0x1000000 ≡ false = ground arith in
    rw (find_region_lem rs (pages * 4096) (omega arith) fits m h, whole, enough, count, total)
