-- ===== src/FileBlocks/Examples.antt =====
-- A file with one block and an index block, on a full device and on one with free blocks.
use yuios.Common.{replicate, some, ◌∷◌, ◌≡◌, false, arith, ◌==◌, if◌then◌else◌, ok}
use yuios.FreeMaps.Full.{full_super}
use yuios.FileBlocks.{Volume, bmap}
use yuios.FileBlocks.Lookup.{lookup, bmap-lookup}
use yuios.FileBlocks.Origin.{Origin}

abbrev a_file : Volume
a_file = record {
  super = full_super;
  zone = λ i. if i == 0 then 30 else if i == 7 then 31 else 0;
  index_block = λ b i. if b == 31 then (if i == 3 then 32 else 0) else 0;
}

-- block 11 is not there, and is made
abbrev with_room : Volume
with_room = record a_file {
  super = record full_super { zmaps = replicate 8 (some (127 ∷ replicate 1023 0)) };
}

bmap-lookup_example : bmap a_file 10 false ≡ ok (a_file, lookup a_file 10)
bmap-lookup_example = bmap-lookup a_file 10 (omega arith)
