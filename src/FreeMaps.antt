-- ===== src/FreeMaps.antt =====
-- src/fs/bmap.c: free blocks and free inodes, by up to eight bitmaps of 1024 bytes each, which the super
-- block holds in buffers; a buffer that is missing stops the kernel. What is written back to the disk is
-- the same maps, so that `bwrite` is left out. `dev` is one device, whose super block is known.
mod Examples
pub mod Blocks
pub mod Full
pub mod Freeing
use yuios.Common.{
  ℕ, zero, suc, ◌+◌, ◌*◌, false, Option, none, some, List, ltb, ◌==◌, if◌then◌else◌, get_or, set,
  assertion, Outcome, ok, halt, ◌>>=◌, ◌>>◌, assert, add32, sub32, mul32, eof,
}
use yuios.Bitmap.{Bitmap, make, scan, test, set_bit}

-- `BLOCK_SIZE` and `BLOCK_BITS`
abbrev pub block_size : ℕ
block_size = 1024

abbrev pub block_bits : ℕ
block_bits = 8192

-- the fields of the super block that are read here, and the data of its buffers
pub record Super : Type 0 where
  pub zones : ℕ
  pub inodes : ℕ
  pub firstdatazone : ℕ
  pub zmaps : List (Option (List ℕ))
  pub imaps : List (Option (List ℕ))

abbrev pub map_at : List (Option (List ℕ)) → ℕ → Option (List ℕ)
map_at maps i = get_or maps i none

-- The loops of `balloc` and `ialloc` over the maps: `left` are to come, from map `i` on, each of `bytes`
-- bytes and the first numbered from `first`; `limit` is the number of blocks or inodes.
unfoldable pub alloc_from :
    (bytes first limit : ℕ)
    → List (Option (List ℕ))
    → (left i : ℕ) → Outcome (List (Option (List ℕ)) × ℕ)
alloc_from bytes first limit maps zero i = ok (maps, eof)
alloc_from bytes first limit maps (suc left) i =
    let rest = alloc_from bytes first limit maps left (i + 1) in
    elim (map_at maps i) [
      | none ↦ halt assertion
      | some buf ↦ scan (make buf bytes (add32 (mul32 i block_bits) first)) 1 >>= λ (m, bit).
          if bit == eof
          then rest
          else (assert (ltb bit limit) >>= λ _. ok (set maps i (some m.bits), bit))
    ]

-- The loops of `bfree` and `ifree`.
unfoldable pub free_from :
    (bytes first : ℕ) → List (Option (List ℕ)) → (idx left i : ℕ) → Outcome (List (Option (List ℕ)))
free_from bytes first maps idx zero i = ok maps
free_from bytes first maps idx (suc left) i =
    let rest = free_from bytes first maps idx left (i + 1) in
    let here : Outcome (List (Option (List ℕ))) = elim (map_at maps i) [
      | none ↦ halt assertion
      | some buf ↦
          let map = make buf bytes (add32 (mul32 block_bits i) first) in
          test map idx >>= λ taken.
          assert taken >>= λ _. set_bit map idx false >>= λ m. ok (set maps i (some m.bits))
    ] in
    if ltb (block_bits * (i + 1)) idx then rest else here

-- `balloc`
unfoldable pub balloc : Super → Outcome (Super × ℕ)
balloc sb =
    alloc_from block_size (sub32 sb.firstdatazone 1) sb.zones sb.zmaps 8 0 >>= λ (maps, bit).
    ok (record sb { zmaps = maps }, bit)

-- `bfree`
unfoldable pub bfree : Super → ℕ → Outcome Super
bfree sb idx = do
  assert (ltb idx sb.zones)
  maps ← free_from block_size (sub32 sb.firstdatazone 1) sb.zmaps idx 8 0
  ok (record sb { zmaps = maps })

-- `ialloc`; its maps are said to have `BLOCK_BITS` bytes.
unfoldable pub ialloc : Super → Outcome (Super × ℕ)
ialloc sb = alloc_from block_bits 0 sb.inodes sb.imaps 8 0 >>= λ (maps, bit).
    ok (record sb { imaps = maps }, bit)

-- `ifree`
unfoldable pub ifree : Super → ℕ → Outcome Super
ifree sb idx = do
  assert (ltb idx sb.inodes)
  maps ← free_from block_bits 0 sb.imaps idx 8 0
  ok (record sb { imaps = maps })
