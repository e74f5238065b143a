-- ===== src/FileBlocks.antt =====
-- src/fs/bmap.c: `bmap`, which finds the block of the disk that holds a block of a file: seven are named in
-- the inode itself, the others in blocks of 512 numbers, on one or two levels. The numbers in the index
-- blocks are those that `bread` gives, and the buffers are held only while they are read, so that the counts of
-- `brelse` are left out. `balloc` is that of FreeMaps; a number that is stored is cut down to 16 bits.
pub mod Lookup
pub mod Origin
pub mod Full
pub mod Create
mod Examples
use yuios.Common.{
  ℕ, zero, suc, ◌+◌, ◌-◌, ◌*◌, ◌/◌, ◌%◌, ◌^◌, Bool, ◌&&◌, ltb, ◌==◌, if◌then◌else◌, Outcome, ok,
  ◌>>=◌, ◌>>◌, assert, update,
}
use yuios.FreeMaps.{Super, balloc}

-- what is read of an inode and of the disk: its `zone` numbers, and the numbers in each index block
pub record Volume : Type 0 where
  pub super : Super
  pub zone : ℕ → ℕ
  pub index_block : ℕ → ℕ → ℕ

-- the array that `array` points to
pub data Array : Type 0 where
  zones : Array
  block_at : ℕ → Array

abbrev pub entry : Volume → Array → ℕ → ℕ
entry v zones i = v.zone i
entry v (block_at b) i = v.index_block b i

abbrev pub put : Volume → Array → ℕ → ℕ → Volume
put v zones i x = record v { zone = update v.zone i x }
put v (block_at b) i x = record v {
  index_block = update v.index_block b (update (v.index_block b) i x);
}

-- `DIRECT_BLOCK`, `BLOCK_INDEXES`
abbrev pub direct_block : ℕ
direct_block = 7

abbrev pub block_indexes : ℕ
block_indexes = 512

-- the first statement of the loop
unfoldable pub allocate : Volume → (create : Bool) → Array → ℕ → Outcome Volume
allocate v create a index =
    if (entry v a index == 0) && create
    then (balloc v.super >>= λ (sb, b). ok (put (record v { super = sb }) a index (b % 2 ^ 16)))
    else ok v

-- the loop at `reckon`
unfoldable pub reckon :
    Volume → (create : Bool) → Array → (index block divider level : ℕ) → Outcome (Volume × ℕ)
reckon v create a index block divider zero =
    allocate v create a index >>= λ v. ok (v, entry v a index)
reckon v create a index block divider (suc level) = allocate v create a index >>= λ v.
    let next =
      reckon v create (block_at (entry v a index)) (block / divider) (block % divider)
        (divider / block_indexes) level in
    if entry v a index == 0 then ok (v, entry v a index) else next

-- `bmap`
unfoldable pub bmap : Volume → (block : ℕ) → (create : Bool) → Outcome (Volume × ℕ)
bmap v block create = do
  assert (ltb block (direct_block + block_indexes + block_indexes * block_indexes))
  let block₁ = block - direct_block
  let block₂ = block₁ - block_indexes
  if ltb block direct_block
      then reckon v create zones block block 1 0
      else if ltb block₁ block_indexes
      then reckon v create zones direct_block block₁ 1 1
      else (assert (ltb block₂ (block_indexes * block_indexes)) >>= λ _.
          reckon v create zones (direct_block + 1) block₂ block_indexes 2)
