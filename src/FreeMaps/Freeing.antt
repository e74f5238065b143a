-- ===== src/FreeMaps/Freeing.antt =====
-- src/fs/bmap.c: which map `bfree` looks in.
use yuios.Common.{
  ℕ, zero, suc, ◌+◌, ◌-◌, ◌*◌, ◌<◌, ◌≤◌, ◌≡◌, refl, sym, ap, ◌∙◌, ◌⊎◌, inl, inr, true, false,
  Option, some, List, arith, ltb, leb, ◌==◌, if◌then◌else◌, set, Outcome, ok, halt, assertion,
  ◌>>=◌, ◌>>◌, assert, sub32, mul32, lt→ltb,
}
use mathlib.Core.Path.{subst}
use yuios.Bitmap.{Bitmap, test}
use yuios.Bitmap.Access.{bit, put, test_lem, set_bit_lem, bit-put}
use yuios.FreeMaps.{Super, map_at, free_from, bfree, block_bits}
use yuios.FreeMaps.Blocks.{over, IsBuffer, IsLoaded, over-IsValid, made, some_injective}

-- the maps before map `j` are passed over
free_from_skip :
    (bytes first : ℕ) (maps : List (Option (List ℕ))) (idx j left i : ℕ)
    → 8192 * j < idx
    → i + left ≡ j
    → (more : ℕ)
    → free_from bytes first maps idx (left + more) i ≡ free_from bytes first maps idx more j
unfolding free_from
free_from_skip bytes first maps idx j zero i h sum more =
    let at : i ≡ j = omega arith in let n : 0 + more ≡ more = omega arith in rw (at, n) refl
free_from_skip bytes first maps idx j (suc left) i h sum more =
    let n : suc left + more ≡ suc (left + more) = omega arith in
    let past : ltb (block_bits * (i + 1)) idx ≡ true = ground arith in
    rw (n, past) (free_from_skip bytes first maps idx j left (i + 1) h (omega arith) more)

-- `bfree` of a block of the device
bfree_run :
    (sb : Super) (idx : ℕ) (out : Outcome (List (Option (List ℕ))))
    → IsLoaded sb
    → idx < sb.zones
    → free_from 1024 (sb.firstdatazone - 1) sb.zmaps idx 8 0 ≡ out
    → bfree sb idx ≡ (out >>= λ maps. ok (record sb { zmaps = maps }))
unfolding bfree
bfree_run sb idx out l small run =
    let at : sub32 sb.firstdatazone 1 ≡ sb.firstdatazone - 1 =
      omega (arith, l.first.0, l.first.1) in
    ap
      (λ f.
        assert (ltb idx sb.zones)
        >> (free_from 1024 f sb.zmaps idx 8 0 >>= λ maps. ok (record sb { zmaps = maps })))
      at
    ∙ rw (lt→ltb idx sb.zones small, run) refl

before_map : (m : Bitmap) (idx : ℕ) → idx < m.offset → test m idx ≡ halt assertion
unfolding test
before_map m idx h = let out : leb m.offset idx ≡ false = ground arith in rw out refl

-- The block numbers of map `j` begin at 8192 * j + firstdatazone - 1, but `bfree` takes every number above
-- 8192 * j for one of map `j`: those in between, of blocks that are in use in the map before, stop the
-- kernel.
pub bfree_between :
    (sb : Super) (j idx : ℕ)
    → IsLoaded sb
    → 1 ≤ j
    → j < 8
    → sb.firstdatazone ≤ 8192
    → 8192 * j < idx
    → idx < 8192 * j + (sb.firstdatazone - 1)
    → idx < sb.zones
    → bfree sb idx ≡ halt assertion
unfolding free_from
bfree_between sb j idx l one eight small_data lo hi small =
    let first = sb.firstdatazone - 1 in
    let (buf, held, is) = l.maps j eight in
    let m = over 1024 first buf j in
    let made_it = made first j buf eight (omega (arith, l.first.1)) in
    let flip : mul32 block_bits j ≡ mul32 j 8192 = omega arith in
    let stop : free_from 1024 first sb.zmaps idx 8 0 ≡ halt assertion =
      let (more, eight_is) : (more : ℕ) × (8 ≡ j + suc more) = (7 - j, omega arith) in
      let here : ltb (block_bits * (j + 1)) idx ≡ false = ground arith in
      let out : test m idx ≡ halt assertion = before_map m idx (omega arith) in
      ap (λ n. free_from 1024 first sb.zmaps idx n 0) eight_is
      ∙ free_from_skip 1024 first sb.zmaps idx j j 0 lo (omega arith) (suc more)
      ∙ rw (free_from, here, held, flip, made_it, out, ◌>>=◌) refl in
    bfree_run sb idx (halt assertion) l small stop

-- the search comes to map `j`
reach :
    (first : ℕ) (maps : List (Option (List ℕ))) (idx j : ℕ)
    → j < 8
    → (j ≡ 0) ⊎ (8192 * j < idx)
    → (m : ℕ) × ((m ≡ 7 - j)
        × (free_from 1024 first maps idx 8 0 ≡ free_from 1024 first maps idx (suc m) j))
reach first maps idx j h at = elim at [
  | inl z ↦ (7 - j, (refl, rw z refl))
  | inr past ↦
      let e : 8 ≡ j + suc (7 - j) = omega arith in
      (
        7 - j,
        (
          refl,
          ap (λ n. free_from 1024 first maps idx n 0) e
              ∙ free_from_skip 1024 first maps idx j j 0 past (omega arith) (suc (7 - j)),
        ),
      )
]

-- Let the eight maps be loaded, and take bit `p` of map `j`, which stands for the block
-- 8192 * j + firstdatazone - 1 + p. When the block is one of the device and in use, its number is at most
-- 8192 * (j + 1), and `j` is 0 or the number is above 8192 * j, `bfree` frees it: its bit is cleared, and no
-- other one.
pub bfree_lem :
    (sb : Super) (j p : ℕ) (buf : List ℕ)
    → IsLoaded sb
    → j < 8
    → map_at sb.zmaps j ≡ some buf
    → let first = sb.firstdatazone - 1 in
      let idx = j * 8192 + first + p in
      ((j ≡ 0) ⊎ (8192 * j < idx))
      → idx ≤ 8192 * (j + 1)
      → p < 8192
      → idx < sb.zones
      → bit (over 1024 first buf j) p ≡ true
      → (m : Bitmap) × ((bfree sb idx ≡ ok (record sb { zmaps = set sb.zmaps j (some m.bits) }))
          × ((q : ℕ) → bit m q ≡ (if p == q then false else bit (over 1024 first buf j) q)))
unfolding free_from
bfree_lem sb j p buf l eight held at hi inside small used =
    let first = sb.firstdatazone - 1 in
    let idx = j * 8192 + first + p in
    let (buf₁, held₁, is₁) = l.maps j eight in
    let same : buf₁ ≡ buf = some_injective (sym held₁ ∙ held) in
    let is : IsBuffer buf = subst IsBuffer same is₁ in
    let m = over 1024 first buf j in
    let valid = over-IsValid first j buf is eight (omega (arith, l.first.1)) in
    let made_it = made first j buf eight (omega (arith, l.first.1)) in
    let flip : mul32 block_bits j ≡ mul32 j 8192 = omega arith in
    let (more, (_, come)) = reach first sb.zmaps idx j eight at in
    let here : ltb (block_bits * (j + 1)) idx ≡ false = ground arith in
    let run : free_from 1024 first sb.zmaps idx 8 0
        ≡ ok (set sb.zmaps j (some (put m p false).bits)) =
      come
      ∙ rw
          (
            free_from,
            here,
            held,
            flip,
            made_it,
            test_lem valid p inside,
            used,
            ◌>>=◌,
            ◌>>◌,
            set_bit_lem valid p false inside,
          )
          refl in
    (
      put m p false,
      (
        bfree_run sb idx (ok (set sb.zmaps j (some (put m p false).bits))) l small run,
        λ q. bit-put valid p q false inside,
      ),
    )
