-- ===== src/FreeMaps/Blocks.antt =====
-- src/fs/bmap.c: `balloc` gives out a free block, and which blocks `bfree` can free.
use yuios.Common.{
  ℕ, zero, suc, ◌+◌, ◌-◌, ◌*◌, ◌^◌, ◌<◌, ◌≤◌, ◌≡◌, refl, sym, ap, ◌∙◌, ◌⊎◌, inl, inr, true, false,
  Option, some, List, arith, ltb, ◌==◌, if◌then◌else◌, Bool-cases, equal_or_not, length, set, All,
  IsByte, Outcome, ok, halt, assertion, ◌>>=◌, add32, sub32, mul32, eof,
}
use mathlib.Core.Path.{subst}
use yuios.Bitmap.{Bitmap, make}
use yuios.Bitmap.Access.{IsValid, bit}
use yuios.Bitmap.Find.{Clear, NoneUpTo}
use yuios.Bitmap.Scan.{Filled, scan_lem}
use yuios.FreeMaps.{Super, map_at, alloc_from, balloc}

-- the bitmap that the code lays over the buffer of map `i`
abbrev pub over : (bytes first : ℕ) → List ℕ → ℕ → Bitmap
over bytes first buf i = record { bits = buf; length = bytes; offset = i * 8192 + first }

-- a buffer of a block's size
abbrev pub IsBuffer : List ℕ → Type 0
IsBuffer buf = (length buf ≡ 1024) × All IsByte buf

-- Eight maps are loaded, and the numbers of blocks fit their words.
pub record IsLoaded (sb : Super) : Type 0 where
  pub maps : (i : ℕ) → i < 8 → (buf : List ℕ) × (map_at sb.zmaps i ≡ some buf) × IsBuffer buf
  pub first : (1 ≤ sb.firstdatazone) × (sb.firstdatazone < 2 ^ 16)
  pub zones : sb.zones < 2 ^ 16

pub over-IsValid :
    (first i : ℕ) (buf : List ℕ)
    → IsBuffer buf
    → i < 8
    → first < 2 ^ 16
    → IsValid (over 1024 first buf i)
over-IsValid first i buf is h k = record {
  inside = omega (arith, is.0);
  bytes = is.1;
  small = omega arith;
}

pub made :
    (first i : ℕ) (buf : List ℕ)
    → i < 8
    → first < 2 ^ 16
    → make buf 1024 (add32 (mul32 i 8192) first) ≡ over 1024 first buf i
unfolding make
made first i buf h k = ap (λ o. record { bits = buf; length = 1024; offset = o }) (omega arith)

-- every bit of map `i` is set
abbrev pub IsFull : (first : ℕ) → List (Option (List ℕ)) → ℕ → Type 0
IsFull first maps i =
    (buf : List ℕ)
    → map_at maps i ≡ some buf
    → (p : ℕ) → p < 8192
    → bit (over 1024 first buf i) p ≡ true

-- What `balloc` does: map `index` is the first that has a clear bit, and the bit `place` is its first.
pub record Allocated (first : ℕ) (maps : List (Option (List ℕ))) (maps' : List (Option (List ℕ)))
    (block : ℕ) : Type 0 where
  pub index : ℕ
  pub in_range : index < 8
  pub buf : List ℕ
  pub buf' : List ℕ
  pub held : map_at maps index ≡ some buf
  pub place : ℕ
  pub inside : place < 8192
  pub number : block ≡ index * 8192 + first + place
  pub maps_before : (k : ℕ) → k < index → IsFull first maps k
  pub bits_before : (j : ℕ) → j < place → bit (over 1024 first buf index) j ≡ true
  pub was_free : bit (over 1024 first buf index) place ≡ false
  pub written : maps' ≡ set maps index (some buf')
  pub taken :
      (j : ℕ)
      → bit (over 1024 first buf' index) j
        ≡ (if j == place then true else bit (over 1024 first buf index) j)

-- how the search for a clear bit ends that begins at map `i`
abbrev pub Ends :
    (first limit : ℕ) → List (Option (List ℕ)) → ℕ → Outcome (List (Option (List ℕ)) × ℕ) → Type 0
Ends first limit maps i out =
    ((maps' : List (Option (List ℕ))) × (block : ℕ) × ((out ≡ ok (maps', block))
        × Allocated first maps maps' block
        × (block < limit)))
    ⊎ (((out ≡ ok (maps, eof)) × ((k : ℕ) → i ≤ k → k < 8 → IsFull first maps k))
        ⊎ ((out ≡ halt assertion)
            × (block : ℕ) × (maps' : List (Option (List ℕ))) × (Allocated first maps maps' block
                × (limit ≤ block))))

pub some_injective : {a b : List ℕ} → some a ≡ some b → a ≡ b
some_injective h = cc

full_of : (m : Bitmap) (p : ℕ) → NoneUpTo m 1 (m.length * 8) → p < m.length * 8 → bit m p ≡ true
full_of m p nowhere h = elim (Bool-cases (bit m p)) [
  | inl e ↦ e
  | inr e ↦
      absurd
        (nowhere p (omega arith) (λ k lo hi. let same : k ≡ p = omega arith in ap (bit m) same ∙ e))
]

-- the bits before the first clear one are set
clear_before : (m : Bitmap) (s p : ℕ) → ((t : ℕ) → t < s → ¬ Clear m t 1) → p < s → bit m p ≡ true
clear_before m s p first h = elim (Bool-cases (bit m p)) [
  | inl e ↦ e
  | inr e ↦ absurd (first p h (λ k lo hi. let same : k ≡ p = omega arith in ap (bit m) same ∙ e))
]

taken_bit :
    (first i s : ℕ) (buf : List ℕ) (m' : Bitmap)
    → Filled (over 1024 first buf i) s 1 m'
    → (j : ℕ)
    → bit (over 1024 first m'.bits i) j ≡ (if j == s then true else bit (over 1024 first buf i) j)
taken_bit first i s buf m' f j = ground (arith, f.bits_set j)

alloc_from-Ends :
    (first limit : ℕ) (maps : List (Option (List ℕ)))
    → first < 2 ^ 16
    → ((i : ℕ) → i < 8 → (buf : List ℕ) × (map_at maps i ≡ some buf) × IsBuffer buf)
    → (left i : ℕ) → i + left ≡ 8
    → ((k : ℕ) → k < i → IsFull first maps k)
    → Ends first limit maps i (alloc_from 1024 first limit maps left i)
unfolding alloc_from
alloc_from-Ends first limit maps small loaded zero i sum before =
    inr (inl (refl, λ k lo hi. absurd (omega arith)))
alloc_from-Ends first limit maps small loaded (suc left) i sum before =
    let (buf, held, is) = loaded i (omega arith) in
    let m = over 1024 first buf i in
    let made_it = made first i buf (omega arith) small in
    elim (scan_lem m 1 (over-IsValid first i buf is (omega arith) small) (omega arith)) [
      | inl (s, m', run, room, clear, first_one, filled) ↦
          let block = s + (i * 8192 + first) in
          let real : (block == eof) ≡ false = ground arith in
          let a : Allocated first maps (set maps i (some m'.bits)) block = record {
            index = i;
            in_range = omega arith;
            buf = buf;
            buf' = m'.bits;
            held = held;
            place = s;
            inside = omega arith;
            number = omega arith;
            maps_before = before;
            bits_before = λ j hj. clear_before m s j first_one hj;
            was_free = clear s (omega arith) (omega arith);
            written = refl;
            taken = taken_bit first i s buf m' filled;
          } in
          elim (Bool-cases (ltb block limit)) [
            | inl e ↦ inl (
              set maps i (some m'.bits),
              block,
              (rw (alloc_from, held, made_it, run, ◌>>=◌, real, e) refl, a, ground arith),
            )
            | inr e ↦ inr (
                inr (
                  rw (alloc_from, held, made_it, run, ◌>>=◌, real, e) refl,
                  block,
                  set maps i (some m'.bits),
                  (a, ground arith),
                ))
          ]
      | inr (run, nowhere) ↦
          let step : alloc_from 1024 first limit maps (suc left) i
              ≡ alloc_from 1024 first limit maps left (i + 1) =
            rw (alloc_from, held, made_it, run, ◌>>=◌) refl in
          let here : IsFull first maps i = λ buf₁ held₁ p hp.
            let same : buf ≡ buf₁ = some_injective (sym held ∙ held₁) in
            subst (λ b. bit (over 1024 first b i) p ≡ true) same (full_of m p nowhere hp) in
          let upto : (k : ℕ) → k < i + 1 → IsFull first maps k = λ k hk. elim (equal_or_not k i) [
            | inl e ↦ subst (IsFull first maps) (sym e) here
            | inr e ↦ before k (omega arith)
          ] in
          let ih = alloc_from-Ends first limit maps small loaded left (i + 1) (omega arith) upto in
          rw step (elim ih [
            | inl found ↦ inl found
            | inr (inr over_limit) ↦ inr (inr over_limit)
            | inr (inl (none_left, full)) ↦ inr (
                inl (
                  none_left,
                  λ k lo hi. elim (equal_or_not k i) [
                    | inl e ↦ subst (IsFull first maps) (sym e) here
                    | inr e ↦ full k (omega arith) hi
                  ],
                ))
          ])
    ]

-- In a super block whose eight maps are loaded, `balloc` takes the first clear bit of the first map that
-- has one: every map before is full, every bit before in the map is set, the bit was clear, it is set then,
-- and nothing else changes. When every bit is set it returns `eof` and changes nothing; when that first
-- clear bit stands for no block of the device, the kernel stops.
pub balloc-Ends :
    (sb : Super)
    → IsLoaded sb
    → let first = sb.firstdatazone - 1 in
      ((maps : List (Option (List ℕ))) × (block : ℕ) × ((balloc sb
            ≡ ok (record sb { zmaps = maps }, block))
          × Allocated first sb.zmaps maps block
          × (block < sb.zones)))
      ⊎ (((balloc sb ≡ ok (sb, eof)) × ((k : ℕ) → k < 8 → IsFull first sb.zmaps k))
          ⊎ ((balloc sb ≡ halt assertion)
              × (block : ℕ) × (maps : List (Option (List ℕ))) × (Allocated first sb.zmaps maps block
                  × (sb.zones ≤ block))))
unfolding balloc
balloc-Ends sb l =
    let first = sb.firstdatazone - 1 in
    let at : sub32 sb.firstdatazone 1 ≡ first = omega (arith, l.first.0, l.first.1) in
    let ends =
      alloc_from-Ends first sb.zones sb.zmaps (omega (arith, l.first.1)) l.maps 8 0 (omega arith)
        (λ k h. absurd (omega arith)) in
    rw at (elim ends [
      | inl (maps, block, (run, a, lt)) ↦ inl (maps, block, (rw (run, ◌>>=◌) refl, a, lt))
      | inr (inl (run, full)) ↦ inr (inl (rw (run, ◌>>=◌) refl, λ k h. full k (omega arith) h))
      | inr (inr (run, block, maps, (a, ge))) ↦
          inr (inr (rw (run, ◌>>=◌) refl, block, maps, (a, ge)))
    ])
