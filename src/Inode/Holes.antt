-- ===== src/Inode/Holes.antt =====
-- src/fs/inode.c: `inode_read` of a file that lacks a block.
use yuios.Common.{
  ℕ, zero, suc, ◌+◌, ◌-◌, ◌*◌, ◌/◌, ◌%◌, ◌<◌, ◌≤◌, ◌≡◌, refl, sym, ap, ◌∙◌, inl, inr, true, false,
  arith, ltb, ◌==◌, Bool-cases, halt, assertion, ◌>>=◌, min,
}
use yuios.FileBlocks.{Volume}
use yuios.FileBlocks.Lookup.{lookup, bmap-lookup}
use yuios.Inode.{Blocks, read_from, inode_read}

-- The loop stops the kernel when it comes to a byte of a block that is not there.
read_from_hole :
    (v : Volume) (blocks : Blocks) (fuel offset left k : ℕ)
    → left ≤ fuel
    → offset + left ≤ 262663 * 1024
    → offset ≤ k
    → k < offset + left
    → lookup v (k / 1024) ≡ 0
    → read_from v blocks fuel offset left ≡ halt assertion
unfolding read_from
read_from_hole v blocks zero offset left k enough small lo hi hole = absurd (omega arith)
read_from_hole v blocks (suc fuel) offset zero k enough small lo hi hole = absurd (omega arith)
read_from_hole v blocks (suc fuel) offset (suc more) k enough small lo hi hole =
    let left = suc more in
    let chars = min (1024 - offset % 1024) left in
    let some_left : (suc more == 0) ≡ false = ground arith in
    let found = bmap-lookup v (offset / 1024) (omega arith) in
    elim (Bool-cases (lookup v (offset / 1024) == 0)) [
      | inl here ↦ rw (some_left, found, ◌>>=◌, here) refl
      | inr real ↦ elim (Bool-cases (ltb k (offset + chars))) [
        | inl same_block ↦
            let near : k < offset + chars = ground arith in
            let q : k / 1024 ≡ offset / 1024 = omega arith in
            let none_there : lookup v (offset / 1024) ≡ 0 = sym (ap (lookup v) q) ∙ hole in
            absurd (ground arith)
        | inr behind ↦
            let far : offset + chars ≤ k = ground arith in
            let ih =
              read_from_hole v blocks fuel (offset + chars) (left - chars) k (omega arith)
                (omega arith) far (omega arith) hole in
            rw (some_left, found, ◌>>=◌, real, ih) refl
      ]
    ]

-- Let any byte of those that `inode_read` is to read, the first or one behind pieces that were read already, stand in a
-- block that the file does not have. Then `inode_read` stops the kernel.
pub inode_read_hole :
    (v : Volume) (blocks : Blocks) (size len offset k : ℕ)
    → size ≤ 262663 * 1024
    → offset ≤ k
    → k < offset + min len (size - offset)
    → lookup v (k / 1024) ≡ 0
    → inode_read v blocks size len offset ≡ halt assertion
unfolding inode_read
inode_read_hole v blocks size len offset k small lo hi hole =
    let inside : ltb offset size ≡ true = ground arith in
    let left = min len (size - offset) in
    let stops : read_from v blocks left offset left ≡ halt assertion =
      read_from_hole v blocks left offset left k (omega arith) (omega arith) lo hi hole in
    rw (inside, stops, ◌>>=◌) refl
