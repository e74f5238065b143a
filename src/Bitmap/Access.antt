-- ===== src/Bitmap/Access.antt =====
-- src/lib/bitmap.c: `bitmap_test` and `bitmap_set` read and write one bit.
use yuios.Common.{
  ℕ, ◌+◌, ◌-◌, ◌*◌, ◌/◌, ◌%◌, ◌^◌, ◌≤◌, ◌<◌, ◌≡◌, ap, Bool, false, ◌==◌, if◌then◌else◌, length,
  get_or, set, ok, ◌>>=◌, arith, IsByte, All, All-set, All-get_or, length-set, get_or-set_self,
  get_or-set_ne, lt→ltb, le→leb, Bool-cases, inl, inr, ◌≢◌,
}
use yuios.Bitmap.{Bitmap, bit_of, put_bit, test, set_bit}
use yuios.Bitmap.Byte.{bit_of-put_bit, put_bit-IsByte}

-- The bytes lie in the memory, hold bytes, and their indices fit an `int`.
pub record IsValid (m : Bitmap) : Type 0 where
  pub inside : m.length ≤ length m.bits
  pub bytes : All IsByte m.bits
  pub small : m.offset + m.length * 8 < 2 ^ 31

-- bit `k` of a map, counted from 0
abbrev pub bit : Bitmap → ℕ → Bool
bit m k = bit_of (get_or m.bits (k / 8) 0) (k % 8)

-- the map with bit `k` written
abbrev pub put : Bitmap → ℕ → Bool → Bitmap
put m k v = record m { bits = set m.bits (k / 8) (put_bit (get_or m.bits (k / 8) 0) (k % 8) v) }

module _ {m : Bitmap} (valid : IsValid m) where
  byte : (i : ℕ) → IsByte (get_or m.bits i 0)
  byte i = All-get_or IsByte m.bits i 0 valid.bytes (omega arith)

  pub test_lem : (k : ℕ) → k < m.length * 8 → test m (m.offset + k) ≡ ok (bit m k)
  unfolding test
  test_lem k h =
      let idx : m.offset + k - m.offset ≡ k = omega arith in
      let in_map : k / 8 < m.length = omega arith in
      rw (
        le→leb m.offset (m.offset + k) (omega arith),
        idx,
        lt→ltb (k / 8) m.length in_map,
        lt→ltb (k / 8) (length m.bits) (omega (arith, valid.inside)),
      )

  pub set_bit_lem :
      (k : ℕ) (v : Bool) → k < m.length * 8 → set_bit m (m.offset + k) v ≡ ok (put m k v)
  unfolding set_bit
  set_bit_lem k v h =
      let idx : m.offset + k - m.offset ≡ k = omega arith in
      let in_map : k / 8 < m.length = omega arith in
      rw (
        le→leb m.offset (m.offset + k) (omega arith),
        idx,
        lt→ltb (k / 8) (length m.bits) (omega (arith, valid.inside)),
      )

  pub put-IsValid : (k : ℕ) (v : Bool) → IsValid (put m k v)
  put-IsValid k v = record {
    inside = omega (
      arith,
      valid.inside,
      length-set m.bits (k / 8) (put_bit (get_or m.bits (k / 8) 0) (k % 8) v),
    );
    bytes =
        All-set IsByte m.bits (k / 8) _ valid.bytes
          (put_bit-IsByte v _ (k % 8) (byte (k / 8)) (omega arith));
    small = valid.small;
  }

  -- A write changes its own bit and no other.
  pub bit-put :
      (k j : ℕ) (v : Bool) → k < m.length * 8 → bit (put m k v) j ≡ (if k == j then v else bit m j)
  bit-put k j v h = elim (Bool-cases (k / 8 == j / 8)) [
    | inl e ↦
        let e' : k / 8 ≡ j / 8 = ground arith in
        let same : (k % 8 == j % 8) ≡ (k == j) = ground arith in
        rw (
          ← e',
          get_or-set_self m.bits (k / 8) (put_bit (get_or m.bits (k / 8) 0) (k % 8) v) 0
              (omega (arith, valid.inside)),
          bit_of-put_bit v (get_or m.bits (k / 8) 0) (k % 8) (j % 8) (byte (k / 8)) (omega arith)
              (omega arith),
          same,
        )
    | inr e ↦
        let ne : k / 8 ≢ j / 8 = ground arith in
        let other : (k == j) ≡ false = ground arith in
        rw (
          get_or-set_ne m.bits (k / 8) (j / 8) (put_bit (get_or m.bits (k / 8) 0) (k % 8) v) 0 ne,
          other,
        )
  ]

-- For a valid map and two indices in its range, reading an index after a write of another gives the
-- written value if the two are one, and what was there before if not; neither call halts.
pub test-set_bit :
    (m : Bitmap) (i j : ℕ) (v : Bool)
    → IsValid m
    → m.offset ≤ i
    → i < m.offset + m.length * 8
    → m.offset ≤ j
    → j < m.offset + m.length * 8
    → (set_bit m i v >>= λ m'. test m' j) ≡ (if i == j then ok v else test m j)
test-set_bit m i j v valid li hi lj hj =
    let ki : m.offset + (i - m.offset) ≡ i = omega arith in
    let kj : m.offset + (j - m.offset) ≡ j = omega arith in
    let k = i - m.offset in
    let l = j - m.offset in
    let same : (k == l) ≡ (i == j) = ground arith in
    ground (
      arith,
      ap (λ t. set_bit m t v) ki,
      ap (test m) kj,
      ap (test (put m k v)) kj,
      set_bit_lem valid k v (omega arith),
      test_lem (put-IsValid valid k v) l (omega arith),
      test_lem valid l (omega arith),
      bit-put valid k l v (omega arith),
      same,
    )
