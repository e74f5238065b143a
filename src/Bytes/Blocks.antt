-- ===== src/Bytes/Blocks.antt =====
-- src/lib/string.c: what `memset` and `memcpy` write.
use yuios.Common.{
  ℕ, zero, suc, ◌+◌, ◌-◌, ◌%◌, ◌<◌, ◌≤◌, ◌≡◌, refl, ◌≢◌, ◌⊎◌, inl, inr, Bool, true, false, ◌&&◌,
  arith, ltb, leb, ◌==◌, if◌then◌else◌, Bool-cases,
}
use yuios.Bytes.{Mem, poke, memset, memcpy}

-- whether an address is one of `count` from `start` on
abbrev pub within : (start count a : ℕ) → Bool
within start count a = leb start a && ltb a (start + count)

-- `memset` writes the byte at each of `count` addresses, and nowhere else.
pub memset_lem :
    (m : Mem) (dest ch count a : ℕ)
    → memset m dest ch count a ≡ (if within dest count a then ch % 256 else m a)
unfolding memset
memset_lem m dest ch zero a = ground arith
memset_lem m dest ch (suc count) a =
    ground (arith, memset_lem (poke m dest (ch % 256)) (dest + 1) ch count a)

-- the step of the copy at an address after the first
shifted_read :
    (m : Mem) (dest src count a : ℕ)
    → (dest ≤ src) ⊎ (src + suc count ≤ dest)
    → dest + 1 ≤ a
    → a < dest + 1 + count
    → poke m dest (m src) (src + 1 + (a - (dest + 1))) ≡ m (src + (a - dest))
shifted_read m dest src count a apart lo hi =
    let e : src + 1 + (a - (dest + 1)) ≡ src + (a - dest) = omega arith in
    let ne : dest ≢ src + (a - dest) =
      λ h. elim apart [ inl p ↦ omega arith | inr p ↦ omega arith ] in
    rw e (ground (arith, ne))

-- If the target does not begin inside the source, `memcpy` leaves at each of `count` addresses the byte
-- that the source had there before, and nothing else changes.
pub memcpy_lem :
    (m : Mem) (dest src count a : ℕ)
    → (dest ≤ src) ⊎ (src + count ≤ dest)
    → memcpy m dest src count a ≡ (if within dest count a then m (src + (a - dest)) else m a)
unfolding memcpy
memcpy_lem m dest src zero a apart = ground arith
memcpy_lem m dest src (suc count) a apart =
    let next : (dest + 1 ≤ src + 1) ⊎ (src + 1 + count ≤ dest + 1) = elim apart [
      | inl p ↦ inl (omega arith)
      | inr p ↦ inr (omega arith)
    ] in
    let ih = memcpy_lem (poke m dest (m src)) (dest + 1) (src + 1) count a next in
    elim (Bool-cases (within (dest + 1) count a)) [
      | inl e ↦
          let whole : within dest (suc count) a ≡ true = ground arith in
          rw (whole, ih, e) (shifted_read m dest src count a apart (ground arith) (ground arith))
      | inr e ↦
          rw (ih, e)
            (elim (Bool-cases (dest == a)) [
              | inl same ↦
                  let whole : within dest (suc count) a ≡ true = ground arith in
                  let zero_in : src + (a - dest) ≡ src = ground arith in
                  rw (whole, same, zero_in) refl
              | inr other ↦
                  let out : within dest (suc count) a ≡ false = ground arith in rw (out, other) refl
            ])
    ]
