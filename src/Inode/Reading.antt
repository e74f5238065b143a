-- ===== src/Inode/Reading.antt =====
-- src/fs/inode.c: what `inode_read` reads.
use yuios.Common.{
  ℕ, zero, suc, ◌+◌, ◌-◌, ◌*◌, ◌/◌, ◌%◌, ◌<◌, ◌≤◌, ◌≡◌, refl, sym, ap, ◌∙◌, ◌≢◌, inl, inr, false,
  List, [], ◌∷◌, ◌++◌, arith, ltb, ◌==◌, if◌then◌else◌, Bool-cases, ==_false, ok, ◌>>=◌, min, eof,
}
use yuios.FileBlocks.{Volume}
use yuios.FileBlocks.Lookup.{lookup, bmap-lookup}
use yuios.Inode.{Blocks, piece, read_from, inode_read}

-- a byte of a file, by its block and its place there
abbrev pub byte_at : Volume → Blocks → ℕ → ℕ
byte_at v blocks k = blocks (lookup v (k / 1024)) (k % 1024)

-- `n` bytes of a file
abbrev pub bytes_at : Volume → Blocks → (offset n : ℕ) → List ℕ
bytes_at v blocks offset zero = []
bytes_at v blocks offset (suc n) = byte_at v blocks offset ∷ bytes_at v blocks (offset + 1) n

bytes_at-join :
    (v : Volume) (blocks : Blocks) (k a b : ℕ)
    → bytes_at v blocks k (a + b) ≡ bytes_at v blocks k a ++ bytes_at v blocks (k + a) b
bytes_at-join v blocks k zero b =
    let e : k + 0 ≡ k = omega arith in let n : 0 + b ≡ b = omega arith in rw (e, n) refl
bytes_at-join v blocks k (suc a) b =
    let n : suc a + b ≡ suc (a + b) = omega arith in
    let e : k + suc a ≡ k + 1 + a = omega arith in
    rw (n, e) (ap (λ bs. byte_at v blocks k ∷ bs) (bytes_at-join v blocks (k + 1) a b))

-- a piece of a block is a stretch of the file
piece-bytes_at :
    (v : Volume) (blocks : Blocks) (b start k c : ℕ)
    → k ≡ b * 1024 + start
    → start + c ≤ 1024
    → piece blocks (lookup v b) start c ≡ bytes_at v blocks k c
piece-bytes_at v blocks b start k zero at h = refl
piece-bytes_at v blocks b start k (suc c) at h =
    let q : b ≡ k / 1024 = omega arith in
    let r : start ≡ k % 1024 = omega arith in
    let first : blocks (lookup v b) start ≡ byte_at v blocks k =
      ap (λ x. blocks (lookup v x) start) q ∙ ap (blocks (lookup v (k / 1024))) r in
    ap (λ x. x ∷ piece blocks (lookup v b) (start + 1) c) first
    ∙ ap (λ bs. byte_at v blocks k ∷ bs)
        (piece-bytes_at v blocks b (start + 1) (k + 1) c (omega arith) (omega arith))

read_from-bytes_at :
    (v : Volume) (blocks : Blocks) (fuel offset left : ℕ)
    → left ≤ fuel
    → offset + left ≤ 262663 * 1024
    → ((k : ℕ) → offset ≤ k → k < offset + left → lookup v (k / 1024) ≢ 0)
    → read_from v blocks fuel offset left ≡ ok (bytes_at v blocks offset left)
unfolding read_from
read_from-bytes_at v blocks zero offset left enough small there =
    let none_left : left ≡ 0 = omega arith in rw none_left refl
read_from-bytes_at v blocks (suc fuel) offset zero enough small there = refl
read_from-bytes_at v blocks (suc fuel) offset (suc more) enough small there =
    let left = suc more in
    let chars = min (1024 - offset % 1024) left in
    let some_left : (suc more == 0) ≡ false = ground arith in
    let nr = lookup v (offset / 1024) in
    let real : (nr == 0) ≡ false = ==_false nr 0 (there offset (omega arith) (omega arith)) in
    let ih =
      read_from-bytes_at v blocks fuel (offset + chars) (left - chars) (omega arith) (omega arith)
        (λ k lo hi. there k (omega arith) (omega arith)) in
    let sum : left ≡ chars + (left - chars) = omega arith in
    rw (some_left, bmap-lookup v (offset / 1024) (omega arith), ◌>>=◌, real, ih)
      (ap ok (
        ap (λ bs. bs ++ bytes_at v blocks (offset + chars) (left - chars))
          (piece-bytes_at v blocks (offset / 1024) (offset % 1024) offset chars (omega arith)
            (omega arith))
        ∙ sym (bytes_at-join v blocks offset chars (left - chars))
        ∙ ap (bytes_at v blocks offset) (sym sum)))

-- `inode_read` of a file whose blocks are all there gives the bytes of the file from the offset on, as many as were
-- asked for and as there are, across the borders of the blocks; from the end of the file on it gives `EOF`.
pub inode_read-bytes_at :
    (v : Volume) (blocks : Blocks) (size len offset : ℕ)
    → size ≤ 262663 * 1024
    → ((k : ℕ) → k < size → lookup v (k / 1024) ≢ 0)
    → inode_read v blocks size len offset ≡ (
        if ltb offset size
        then ok (min len (size - offset), bytes_at v blocks offset (min len (size - offset)))
        else ok (eof, []))
unfolding inode_read
inode_read-bytes_at v blocks size len offset small there = elim (Bool-cases (ltb offset size)) [
  | inr e ↦ rw e refl
  | inl e ↦
      let left = min len (size - offset) in
      let before : offset < size = ground arith in
      rw
        (
          e,
          read_from-bytes_at v blocks left offset left (omega arith) (omega arith)
              (λ k lo hi. there k (omega arith)),
          ◌>>=◌,
        )
        refl
]
