-- ===== src/FileBlocks/Full.antt =====
-- src/fs/bmap.c: `bmap` on a device that has no free block.
use yuios.Common.{ℕ, ◌-◌, ◌<◌, ◌≡◌, true, ok}
use yuios.FreeMaps.{Super}
use yuios.FreeMaps.Blocks.{IsLoaded, IsFull}
use yuios.FileBlocks.{Volume, Array, reckon}
use yuios.FileBlocks.Origin.{Origin}

-- eight maps are loaded, and every bit of them is set
pub record NoneFree (sb : Super) : Type 0 where
  pub loaded : IsLoaded sb
  pub full : (k : ℕ) → k < 8 → IsFull (sb.firstdatazone - 1) sb.zmaps k

-- the 16 bits of `EOF`
abbrev IsEof : ℕ → Type 0
IsEof nr = nr ≡ 65535

-- what the loop gives when `balloc` finds nothing
abbrev Gives : Volume → Array → (index block divider level : ℕ) → Type 0
Gives v a index block divider level =
    (v' : Volume) × (nr : ℕ) × ((reckon v true a index block divider level ≡ ok (v', nr))
      × (v'.super ≡ v.super)
      × Origin IsEof v nr)
