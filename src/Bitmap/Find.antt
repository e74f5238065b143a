-- ===== src/Bitmap/Find.antt =====
-- src/lib/bitmap.c: the search loop of `bitmap_scan`.
use yuios.Common.{
  ℕ, zero, suc, ◌+◌, ◌-◌, ◌*◌, ◌≤◌, ◌<◌, ◌≡◌, refl, ◌≢◌, inl, inr, true, false, ◌==◌, ok, arith,
  Bool-cases, add32, sub32, eof, ==_false,
}
use yuios.Bitmap.{Bitmap, find}
use yuios.Bitmap.Access.{IsValid, bit, test_lem}

-- The `n` bits from bit `s` on are 0.
abbrev pub Clear : Bitmap → ℕ → ℕ → Type 0
Clear m s n = (k : ℕ) → s ≤ k → k < s + n → bit m k ≡ false

-- No run of `count` clear bits ends at bit `e` or before it.
abbrev pub NoneUpTo : Bitmap → ℕ → ℕ → Type 0
NoneUpTo m count e = (s : ℕ) → s + count ≤ e → ¬ (Clear m s count)

-- What the loop knows after `next` bits, the last `counter` of which are clear.
record Scanned (m : Bitmap) (count next counter : ℕ) : Type 0 where
  within : counter ≤ next
  short : counter < count
  run : Clear m (next - counter) counter
  maximal : counter < next → bit m (next - counter - 1) ≡ true
  none_yet : NoneUpTo m count next

-- How the search ends.
pub data Found (m : Bitmap) (count : ℕ) (r : ℕ) : Type 0 where
  first :
      (r + count ≤ m.length * 8)
      → Clear m r count
      → ((s : ℕ) → s < r → ¬ (Clear m s count))
      → Found m count r
  nowhere : r ≡ eof → NoneUpTo m count (m.length * 8) → Found m count r

module _ {m : Bitmap} {count : ℕ} where
  step_taken :
      {next counter : ℕ}
      → Scanned m count next counter
      → bit m next ≡ true
      → Scanned m count (next + 1) 0
  step_taken {next} {counter} s b = record {
    within = omega arith;
    short = omega (arith, s.short);
    run = λ k lo hi. absurd (omega arith);
    maximal = λ h. let e : next + 1 - 0 - 1 ≡ next = omega arith in rw e b;
    none_yet = λ t h clear. elim (Bool-cases (t + count == next + 1)) [
      | inl e ↦
          let f : bit m next ≡ false = clear next (ground (arith, s.short)) (ground arith) in
          ground arith
      | inr e ↦ s.none_yet t (ground arith) clear
    ];
  }

  extend :
      {next counter : ℕ}
      → Scanned m count next counter
      → bit m next ≡ false
      → Clear m (next + 1 - (counter + 1)) (counter + 1)
  extend {next} {counter} s b k lo hi = elim (Bool-cases (k == next)) [
    | inl e ↦ let e' : k ≡ next = ground arith in rw e' b
    | inr e ↦ s.run k (omega arith) (ground (arith, s.within))
  ]

  step_clear :
      {next counter : ℕ}
      → Scanned m count next counter
      → bit m next ≡ false
      → counter + 1 ≢ count
      → Scanned m count (next + 1) (counter + 1)
  step_clear {next} {counter} s b ne = record {
    within = omega (arith, s.within);
    short = omega (arith, s.short);
    run = extend s b;
    maximal = λ h.
        let e : next + 1 - (counter + 1) - 1 ≡ next - counter - 1 = omega arith in
        rw e (s.maximal (omega arith));
    none_yet = λ t h clear. elim (Bool-cases (t + count == next + 1)) [
      | inl e ↦
          let t' : t + count ≡ next + 1 = ground arith in
          let f : bit m (next - counter - 1) ≡ false =
            clear (next - counter - 1) (omega (arith, s.short)) (omega (arith, s.short)) in
          let g : bit m (next - counter - 1) ≡ true = s.maximal (omega (arith, s.short)) in
          ground arith
      | inr e ↦ s.none_yet t (ground arith) clear
    ];
  }

  find-Found :
      (left next counter : ℕ)
      → IsValid m
      → Scanned m count next counter
      → next + left ≡ m.length * 8
      → (r : ℕ) × (find m count left next counter ≡ ok r) × Found m count r
  unfolding find
  find-Found zero next counter valid s e =
      let end : next ≡ m.length * 8 = omega arith in
      (eof, refl, nowhere refl (rw (← end) s.none_yet))
  find-Found (suc left) next counter valid s e =
      let index : add32 m.offset next ≡ m.offset + next = omega (arith, valid.small) in
      let n1 : add32 next 1 ≡ next + 1 = omega (arith, valid.small) in
      let c1 : add32 counter 1 ≡ counter + 1 = omega (arith, valid.small, s.within) in
      rw (index, test_lem valid next (omega arith), n1)
        (elim (Bool-cases (bit m next)) [
          | inl b ↦
              rw (b, ==_false 0 count (omega (arith, s.short)))
                (find-Found left (next + 1) 0 valid (step_taken s b) (omega arith))
          | inr b ↦
              rw (b, c1)
                (elim (Bool-cases (counter + 1 == count)) [
                  | inl full ↦
                      let c : counter + 1 ≡ count = ground arith in
                      let start : sub32 (next + 1) count ≡ next + 1 - count =
                        omega (arith, valid.small, s.within) in
                      rw (full, start)
                        (
                          next + 1 - count,
                          refl,
                          first (omega (arith, s.within)) (rw (← c) (extend s b))
                              λ t h. s.none_yet t (omega (arith, s.within)),
                        )
                  | inr more ↦ rw more (
                      find-Found left (next + 1) (counter + 1) valid (step_clear s b (ground arith))
                        (omega arith))
                ])
        ])

  pub find_lem :
      IsValid m → 0 < count → (r : ℕ) × (find m count (m.length * 8) 0 0 ≡ ok r) × Found m count r
  find_lem valid h =
      find-Found (m.length * 8) 0 0 valid
        (record {
          within = omega arith;
          short = omega arith;
          run = λ k lo hi. absurd (omega arith);
          maximal = λ g. absurd (omega arith);
          none_yet = λ s g. absurd (omega arith);
        })
        (omega arith)
