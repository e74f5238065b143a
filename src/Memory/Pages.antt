-- ===== src/Memory/Pages.antt =====
-- src/kernel/memory.c: `alloc_kpage` and `free_kpage` over the kernel's bitmap.
use yuios.Common.{
  ℕ, zero, suc, ◌+◌, ◌*◌, ◌%◌, ◌^◌, ◌≤◌, ◌<◌, ◌≡◌, refl, ap, ◌∙◌, ◌⊎◌, inl, inr, Bool, true, false,
  ◌&&◌, arith, ltb, leb, ◌==◌, if◌then◌else◌, lt→ltb, ==_false, set, panic, Outcome, ok, halt,
  ◌>>=◌, add32, eof,
}
use yuios.Bitmap.{Bitmap}
use yuios.Bitmap.Access.{IsValid, bit, put, test_lem, set_bit_lem, put-IsValid, bit-put}
use yuios.Bitmap.Find.{Clear, NoneUpTo}
use yuios.Bitmap.Scan.{Filled, scan_lem}
use yuios.Memory.{idx, page, scan_page, reset_pages, reset_page, alloc_kpage, free_kpage}

-- the pages of the map lie in the kernel's 32 bits of addresses
abbrev pub IsPageMap : Bitmap → Type 0
IsPageMap m = IsValid m × (m.offset + m.length * 8 ≤ 2 ^ 20)

-- `m'` is `m` with the `n` bits from `s` on cleared.
pub record Cleared (m : Bitmap) (s n : ℕ) (m' : Bitmap) : Type 0 where
  pub valid : IsValid m'
  pub length_kept : m'.length ≡ m.length
  pub offset_kept : m'.offset ≡ m.offset
  pub bits_clear : (j : ℕ) → bit m' j ≡ (if leb s j && ltb j (s + n) then false else bit m j)

reset_pages-Cleared :
    (left next : ℕ) (m : Bitmap)
    → IsValid m
    → next + left ≤ m.length * 8
    → ((j : ℕ) → next ≤ j → j < next + left → bit m j ≡ true)
    → (m' : Bitmap) × (reset_pages m left (m.offset + next) ≡ ok m') × Cleared m next left m'
unfolding reset_pages
reset_pages-Cleared zero next m valid h set = (
  m,
  refl,
  record { valid = valid; length_kept = refl; offset_kept = refl; bits_clear = λ j. ground arith },
)
reset_pages-Cleared (suc left) next m valid h held =
    let on : bit m next ≡ true = held next (omega arith) (omega arith) in
    let n1 : add32 (m.offset + next) 1 ≡ m.offset + (next + 1) = omega (arith, valid.small) in
    let still : (j : ℕ) → next + 1 ≤ j → j < next + 1 + left → bit (put m next false) j ≡ true =
      λ j lo hi.
        bit-put valid next j false (omega arith)
        ∙ ap (λ (b : Bool). if b then false else bit m j) (==_false next j (omega arith))
        ∙ held j (omega arith) (omega arith) in
    let (m', run, done) =
      reset_pages-Cleared left (next + 1) (put m next false) (put-IsValid valid next false)
        (omega arith) still in
    rw (test_lem valid next (omega arith), on, set_bit_lem valid next false (omega arith), n1)
      (
        m',
        run,
        record {
          valid = done.valid;
          length_kept = done.length_kept;
          offset_kept = done.offset_kept;
          bits_clear =
              λ j. ground (arith, done.bits_clear j, bit-put valid next j false (omega arith));
        },
      )

-- The first run of free pages is taken, and its address is the result.
abbrev pub Allocated : Bitmap → ℕ → Outcome (Bitmap × ℕ) → Type 0
Allocated m count out =
    (s : ℕ) × (m' : Bitmap) × (out ≡ ok (m', (s + m.offset) * 4096))
    × (s + count ≤ m.length * 8)
    × Clear m s count
    × ((t : ℕ) → t < s → ¬ (Clear m t count))
    × Filled m s count m'

-- For a page map and a positive `count`, `alloc_kpage` takes the first run of free pages and returns
-- its address, or stops the kernel when there is no such run.
pub alloc_kpage_lem :
    (m : Bitmap) (count : ℕ)
    → IsPageMap m
    → 0 < count
    → Allocated m count (alloc_kpage m count)
      ⊎ ((alloc_kpage m count ≡ halt panic) × NoneUpTo m count (m.length * 8))
unfolding alloc_kpage scan_page
alloc_kpage_lem m count (valid, fits) h = rw (lt→ltb 0 count h) (elim (scan_lem m count valid h) [
  | inl (s, m', run, room, clear, least, filled) ↦
      let found : (s + m.offset == eof) ≡ false = ground arith in
      let address : page (s + m.offset) ≡ (s + m.offset) * 4096 = omega arith in
      rw (run, ◌>>=◌, found, address) (inl (s, m', refl, room, clear, least, filled))
  | inr (run, none_free) ↦ rw run (inr (refl, none_free))
])

-- `free_kpage` of `count` pages that are all taken does not halt and frees exactly these.
pub free_kpage_lem :
    (m : Bitmap) (s count : ℕ)
    → IsPageMap m
    → 0 < count
    → s + count ≤ m.length * 8
    → ((j : ℕ) → s ≤ j → j < s + count → bit m j ≡ true)
    → (m' : Bitmap) × (free_kpage m ((s + m.offset) * 4096) count ≡ ok m') × Cleared m s count m'
unfolding free_kpage reset_page
free_kpage_lem m s count (valid, fits) h room held =
    let aligned : (s + m.offset) * 4096 % 4096 ≡ 0 = omega arith in
    let index : idx ((s + m.offset) * 4096) ≡ m.offset + s = omega arith in
    rw (aligned, lt→ltb 0 count h, index) (reset_pages-Cleared count s m valid room held)

-- Whenever a page map has room for `count` pages, taking them by `alloc_kpage` and giving them back by
-- `free_kpage` does not halt, and every page is free afterwards exactly if it was before.
pub free_kpage-alloc_kpage :
    (m : Bitmap) (s count : ℕ)
    → IsPageMap m
    → 0 < count
    → s + count ≤ m.length * 8
    → Clear m s count
    → (m' : Bitmap) × ((alloc_kpage m count >>= λ (m₁, vaddr). free_kpage m₁ vaddr count) ≡ ok m')
      × IsPageMap m'
      × ((j : ℕ) → bit m' j ≡ bit m j)
free_kpage-alloc_kpage m s count pages h room clear = elim (alloc_kpage_lem m count pages h) [
  | inr (run, none_free) ↦ absurd (none_free s room clear)
  | inl (t, m₁, run, room₁, clear₁, least, filled) ↦
      let pages₁ : IsPageMap m₁ =
        (filled.valid, omega (arith, filled.length_kept, filled.offset_kept, pages.1)) in
      let taken : (j : ℕ) → t ≤ j → j < t + count → bit m₁ j ≡ true =
        λ j lo hi. ground (arith, filled.bits_set j) in
      let (m₂, back, cleared) =
        free_kpage_lem m₁ t count pages₁ h (omega (arith, filled.length_kept)) taken in
      let address : (t + m.offset) * 4096 ≡ (t + m₁.offset) * 4096 =
        omega (arith, filled.offset_kept) in
      (
        m₂,
        rw (run, ◌>>=◌, address) back,
        (cleared.valid, omega (arith, cleared.length_kept, cleared.offset_kept, pages₁.1)),
        λ j. ground (arith, cleared.bits_clear j, filled.bits_set j, clear₁ j),
      )
]
