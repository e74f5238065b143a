-- ===== src/Inode/Examples.antt =====
-- A file of 1,030 bytes in two blocks, and the same file with a hole behind them.
use yuios.Common.{
  ℕ, ◌+◌, ◌-◌, ◌/◌, ◌<◌, ◌≡◌, ◌≢◌, [], arith, ltb, if◌then◌else◌, ok, min, eof, refl, halt,
  assertion,
}
use yuios.FreeMaps.Full.{full_super}
use yuios.FileBlocks.{Volume}
use yuios.FileBlocks.Lookup.{lookup}
use yuios.Inode.{Blocks, inode_read}
use yuios.Inode.Reading.{bytes_at, inode_read-bytes_at}
use yuios.Inode.Holes.{inode_read_hole}

abbrev two_blocks : Volume
two_blocks = record {
  super = full_super;
  zone = λ i. if ltb i 2 then 30 + i else 0;
  index_block = λ b i. 0;
}

abbrev letters : Blocks
letters nr i = nr

two_blocks_there : (k : ℕ) → k < 1030 → lookup two_blocks (k / 1024) ≢ 0
two_blocks_there k h = ground arith

inode_read-bytes_at_example : inode_read two_blocks letters 1030 20 1020 ≡ (
    if ltb 1020 1030
    then ok (min 20 (1030 - 1020), bytes_at two_blocks letters 1020 (min 20 (1030 - 1020)))
    else ok (eof, []))
inode_read-bytes_at_example =
    inode_read-bytes_at two_blocks letters 1030 20 1020 (omega arith) two_blocks_there

-- the first piece is there, and the second is not
inode_read_hole_example : inode_read two_blocks letters 5000 3000 1500 ≡ halt assertion
inode_read_hole_example =
    inode_read_hole two_blocks letters 5000 3000 1500 2100 (omega arith) (omega arith) (omega arith)
      refl
