-- ===== src/FileBlocks/Create.antt =====
-- src/fs/bmap.c: `bmap` that makes the blocks it does not find.
use yuios.Common.{ℕ, ◌≡◌, false, ◌==◌, ok}
use yuios.FileBlocks.Origin.{Origin}
use yuios.FileBlocks.{Volume, Array, entry, reckon}

-- the numbers that there are stay
pub record Grows (v v' : Volume) : Type 0 where
  pub kept : (a : Array) (i : ℕ) → (entry v a i == 0) ≡ false → entry v' a i ≡ entry v a i

-- a run without `create` gives what the run that made the blocks did
Again : Volume → Array → (index block divider level : ℕ) → Volume × ℕ → Type 0
Again v a index block divider level (v', nr) =
    Grows v v' × (reckon v' false a index block divider level ≡ ok (v', nr))
