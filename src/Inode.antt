-- ===== src/Inode.antt =====
-- src/fs/inode.c: `inode_read` of a file or directory. The bytes of a block are those that `bread` gives; the
-- result is the bytes that go to `buf`. Times, the counts of the buffers and the
-- assertion that the inode is a file or a directory are left out. `inode_block` and
-- the descriptors' places in a block are the arithmetic of `iget`.
pub mod Reading
pub mod Holes
mod Examples
use yuios.Common.{
  ℕ, zero, suc, ◌+◌, ◌-◌, ◌/◌, ◌%◌, false, not, List, [], ◌∷◌, ◌++◌, ltb, ◌==◌, if◌then◌else◌,
  fault, Outcome, ok, halt, ◌>>=◌, ◌>>◌, assert, eof, min,
}
use yuios.FileBlocks.{Volume, bmap}

-- the bytes of each block
abbrev pub Blocks : Type 0
Blocks = ℕ → ℕ → ℕ

abbrev pub block_size : ℕ
block_size = 1024

-- `memcpy` from a block
abbrev pub piece : Blocks → (nr start count : ℕ) → List ℕ
piece blocks nr start zero = []
piece blocks nr start (suc count) = blocks nr start ∷ piece blocks nr (start + 1) count

-- The loop of `inode_read`; running out of fuel is a `fault`.
unfoldable pub read_from : Volume → Blocks → (fuel offset left : ℕ) → Outcome (List ℕ)
read_from v blocks zero offset left = if left == 0 then ok [] else halt fault
read_from v blocks (suc fuel) offset left =
    let start = offset % block_size in
    let chars = min (block_size - start) left in
    let rest = read_from v blocks fuel (offset + chars) (left - chars) in
    if left == 0
    then ok []
    else (bmap v (offset / block_size) false >>= λ (v, nr).
        assert (not (nr == 0)) >>= λ _. rest >>= λ bytes. ok (piece blocks nr start chars ++ bytes))

-- `inode_read`: the result, and the bytes written to `buf`
unfoldable pub inode_read : Volume → Blocks → (size len offset : ℕ) → Outcome (ℕ × List ℕ)
inode_read v blocks size len offset =
    if not (ltb offset size)
    then ok (eof, [])
    else (let left = min len (size - offset) in
        read_from v blocks left offset left >>= λ bytes. ok (left, bytes))

-- `BLOCK_INODES`, `inode_block`, and the place of an inode in its block
abbrev pub block_inodes : ℕ
block_inodes = 32

abbrev pub inode_block : (imap_blocks zmap_blocks nr : ℕ) → ℕ
inode_block imap_blocks zmap_blocks nr = 2 + imap_blocks + zmap_blocks + (nr - 1) / block_inodes

abbrev pub inode_index : ℕ → ℕ
inode_index nr = (nr - 1) % block_inodes
