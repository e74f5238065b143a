-- ===== src/Bitmap/Scan.antt =====
-- src/lib/bitmap.c: `bitmap_scan` takes the first run of free bits; `bitmap_init` starts with none set.
use yuios.Common.{
  ℕ, zero, suc, ◌+◌, ◌*◌, ◌/◌, ◌%◌, ◌≤◌, ◌<◌, ◌≡◌, refl, ◌∙◌, ◌⊎◌, inl, inr, true, ◌&&◌, ◌==◌, ltb,
  leb, List, length, length-set, get_or, get_or-set_self, get_or-set_ne, All-set, if◌then◌else◌,
  Outcome, ok, arith, add32, mul32, eof, Bool-cases, IsByte, All, le→leb, false, ◌^◌, check_below,
  check_below_lem, not,
}
use yuios.Bitmap.{Bitmap, bit_of, find, fill, scan, init, clear_bytes}
use yuios.Bitmap.Access.{IsValid, bit, set_bit_lem, put-IsValid, bit-put}
use yuios.Bitmap.Find.{Clear, NoneUpTo, Found, first, nowhere, find_lem}

-- `m'` is `m` with the `n` bits from `s` on set.
pub record Filled (m : Bitmap) (s n : ℕ) (m' : Bitmap) : Type 0 where
  pub valid : IsValid m'
  pub length_kept : m'.length ≡ m.length
  pub offset_kept : m'.offset ≡ m.offset
  pub bits_set : (j : ℕ) → bit m' j ≡ (if leb s j && ltb j (s + n) then true else bit m j)

fill-Filled :
    (left next : ℕ) {m : Bitmap}
    → IsValid m
    → next + left ≤ m.length * 8
    → (m' : Bitmap) × (fill m left next ≡ ok m') × Filled m next left m'
unfolding fill
fill-Filled zero next {m} valid h = (
  m,
  refl,
  record { valid = valid; length_kept = refl; offset_kept = refl; bits_set = λ j. ground arith },
)
fill-Filled (suc left) next {m} valid h =
    let index : add32 m.offset next ≡ m.offset + next = omega (arith, valid.small) in
    let n1 : add32 next 1 ≡ next + 1 = omega (arith, valid.small) in
    let (m', run, done) = fill-Filled left (next + 1) (put-IsValid valid next true) (omega arith) in
    rw (index, set_bit_lem valid next true (omega arith), n1)
      (
        m',
        run,
        record {
          valid = done.valid;
          length_kept = done.length_kept;
          offset_kept = done.offset_kept;
          bits_set = λ j. ground (arith, done.bits_set j, bit-put valid next j true (omega arith));
        },
      )

-- The first run of `count` free bits is taken, and its index is the result.
abbrev pub Taken : Bitmap → ℕ → Outcome (Bitmap × ℕ) → Type 0
Taken m count out =
    (s : ℕ) × (m' : Bitmap) × (out ≡ ok (m', s + m.offset))
    × (s + count ≤ m.length * 8)
    × Clear m s count
    × ((t : ℕ) → t < s → ¬ (Clear m t count))
    × Filled m s count m'

-- There is no such run, and nothing changes.
abbrev pub NoRoom : Bitmap → ℕ → Outcome (Bitmap × ℕ) → Type 0
NoRoom m count out = (out ≡ ok (m, eof)) × NoneUpTo m count (m.length * 8)

scan_of_find :
    (m : Bitmap) (count r : ℕ)
    → IsValid m
    → 0 < count
    → find m count (m.length * 8) 0 0 ≡ ok r
    → Found m count r
    → Taken m count (scan m count) ⊎ NoRoom m count (scan m count)
unfolding scan
scan_of_find m count r valid h e (first room clear least) =
    let bits : mul32 m.length 8 ≡ m.length * 8 = omega (arith, valid.small) in
    let (m', run, done) = fill-Filled count r valid room in
    let found : (r == eof) ≡ false = ground (arith, valid.small) in
    let index : add32 r m.offset ≡ r + m.offset = omega (arith, valid.small) in
    rw (bits, e, found, run, index) (inl (r, m', refl, room, clear, least, done))
scan_of_find m count r valid h e (nowhere end none) =
    let bits : mul32 m.length 8 ≡ m.length * 8 = omega (arith, valid.small) in
    rw (bits, e, end) (inr (refl, none))

-- For a valid map and a positive `count`, the scan never halts. Either it returns the first index at
-- which `count` free bits stand in a row, and in the new map, valid again, exactly these bits are
-- set besides those that were; or no such run exists, and it returns `eof` and the same map.
pub scan_lem :
    (m : Bitmap) (count : ℕ)
    → IsValid m
    → 0 < count
    → Taken m count (scan m count) ⊎ NoRoom m count (scan m count)
scan_lem m count valid h =
    let (r, e, found) = find_lem valid h in scan_of_find m count r valid h e found

zero_table : check_below 8 (λ b. not (bit_of 0 b)) ≡ true
unfolding check_below
zero_table = refl

zero_bits : (b : ℕ) → b < 8 → bit_of 0 b ≡ false
zero_bits b h = ground (arith, check_below_lem 8 (λ c. not (bit_of 0 c)) b zero_table h)

-- The memory after the `memset` of `bitmap_init`.
length-clear_bytes : (n : ℕ) (xs : List ℕ) → length (clear_bytes n xs) ≡ length xs
unfolding clear_bytes
length-clear_bytes zero xs = refl
length-clear_bytes (suc n) xs = length-set (clear_bytes n xs) n 0 ∙ length-clear_bytes n xs

clear_bytes-All : (n : ℕ) (xs : List ℕ) → All IsByte xs → All IsByte (clear_bytes n xs)
unfolding clear_bytes
clear_bytes-All zero xs h = h
clear_bytes-All (suc n) xs h =
    All-set IsByte (clear_bytes n xs) n 0 (clear_bytes-All n xs h) (omega arith)

get_or-clear_bytes :
    (n i : ℕ) (xs : List ℕ) → i < n → n ≤ length xs → get_or (clear_bytes n xs) i 0 ≡ 0
unfolding clear_bytes
get_or-clear_bytes zero i xs h room = absurd (omega arith)
get_or-clear_bytes (suc n) i xs h room = elim (Bool-cases (n == i)) [
  | inl e ↦
      let e' : n ≡ i = ground arith in
      rw (← e') (get_or-set_self (clear_bytes n xs) n 0 0 (omega (arith, length-clear_bytes n xs)))
  | inr e ↦
      get_or-set_ne (clear_bytes n xs) n i 0 0 (ground arith)
      ∙ get_or-clear_bytes n i xs (ground arith) (omega arith)
]

-- `bitmap_init` over memory that holds `len` bytes does not halt, and gives a valid map of `8 * len`
-- clear bits from `start` on, if the last index fits an `int`.
pub init_lem :
    (xs : List ℕ) (len start : ℕ)
    → All IsByte xs
    → len ≤ length xs
    → start + len * 8 < 2 ^ 31
    → (m : Bitmap) × (init xs len start ≡ ok m)
      × IsValid m
      × (m.offset ≡ start)
      × (m.length ≡ len)
      × Clear m 0 (len * 8)
unfolding init
init_lem xs len start bytes room small = rw (le→leb len (length xs) room) (
  record { bits = clear_bytes len xs; length = len; offset = start },
  refl,
  record {
    inside = omega (arith, length-clear_bytes len xs);
    bytes = clear_bytes-All len xs bytes;
    small = small;
  },
  refl,
  refl,
  λ k lo hi.
      rw (get_or-clear_bytes len (k / 8) xs (omega arith) room) (zero_bits (k % 8) (omega arith)),
)
