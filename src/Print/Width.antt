-- ===== src/Print/Width.antt =====
-- src/lib/vsprintf.c: how much `number` writes.
use yuios.Common.{
  ℕ, ◌+◌, ◌-◌, ◌^◌, ◌<◌, ◌≤◌, ◌≡◌, refl, ◌∙◌, ◌⊎◌, inl, inr, Bool, true, false, List, ◌++◌, arith,
  ltb, ◌==◌, if◌then◌else◌, length, replicate, length-append, length-replicate, eof, some, ok,
  ◌>>=◌, ◌&&◌, ◌||◌, not,
}
use yuios.Print.{
  Flags, digits, number, layout, prefix, shown, sign_of, pad_if, spread, width_left, rounds,
}
use yuios.Print.Number.{digits-Writes}

-- the greater number
abbrev pub larger : ℕ → ℕ → ℕ
larger a b = if ltb a b then b else a

-- a precision of at most 2^30, or -1, which asks for the digits only
abbrev pub asked : (precision i : ℕ) → ℕ
asked precision i = if precision == eof then i else larger precision i

length-pad_if : (b : Bool) (n c : ℕ) → length (pad_if b n c) ≡ (if b then n else 0)
length-pad_if true n c = length-replicate n c
length-pad_if false n c = refl

-- one of the three paddings is written
length-layout :
    (num base size precision : ℕ) (f : Flags) (tmp : List ℕ)
    → length tmp ≤ spread precision (length tmp)
    → length (layout num base size precision f tmp)
      ≡ rounds (
          width_left size
            (length (shown (sign_of f num)))
            (length (prefix f base))
            (spread precision (length tmp)))
        + (length (shown (sign_of f num))
            + (length (prefix f base) + spread precision (length tmp)))
unfolding layout
length-layout num base size precision f tmp h =
    let pad = rounds (
      width_left size (length (shown (sign_of f num))) (length (prefix f base))
        (spread precision (length tmp))) in
    from f.zeropad f.left pad (shown (sign_of f num)) (prefix f base)
      (spread precision (length tmp)) h
  where
    from :
        (z l : Bool) (pad : ℕ) (sign marks : List ℕ) (p : ℕ)
        → length tmp ≤ p
        → length (
            pad_if (not (z && not l) && not l) pad b' '
            ++ (sign
                ++ (marks
                    ++ (pad_if (z && not l) pad b'0'
                        ++ (replicate (p - length tmp) b'0' ++ (tmp ++ pad_if l pad b' '))))))
          ≡ pad + (length sign + (length marks + p))
    from true true pad sign marks p h = simp (length-append, length-replicate) (omega (arith, h))
    from true false pad sign marks p h = simp (length-append, length-replicate) (omega (arith, h))
    from false true pad sign marks p h = simp (length-append, length-replicate) (omega (arith, h))
    from false false pad sign marks p h = simp (length-append, length-replicate) (omega (arith, h))

pad_sum :
    (size a b q : ℕ)
    → size ≤ 2 ^ 30
    → a ≤ 1
    → b ≤ 2
    → q ≤ 2 ^ 30
    → rounds (width_left size a b q) + (a + (b + q)) ≡ larger size (a + b + q)
pad_sum size a b q h ha hb hq = ground arith

short_shown : (c : ℕ) → length (shown c) ≤ 1
short_shown c = ground arith

short_prefix : (f : Flags) (base : ℕ) → length (prefix f base) ≤ 2
short_prefix f base = ground arith

-- For each base of 2 to 36 and each word, a width up to 2^30 and a precision up to 2^30 or -1, `number`
-- writes as many bytes as the width asks for, or, where the sign, the prefix and the digits, filled up to
-- the precision, take more, as many as these.
pub number_width :
    (num base size precision : ℕ) (f : Flags)
    → 2 ≤ base
    → base ≤ 36
    → num < 2 ^ 32
    → size ≤ 2 ^ 30
    → (precision ≤ 2 ^ 30) ⊎ (precision ≡ eof)
    → (s : List ℕ) × (out : List ℕ) × ((digits f.small num base ≡ ok s)
        × (number num base size precision f ≡ ok (some out))
        × (length out
            ≡ larger size (
                length (shown (sign_of f num))
                + length (prefix f base)
                + asked precision (length s))))
unfolding number
number_width num base size precision f two many word narrow p =
    let (s, run, value, valid, leading, one, short) =
      digits-Writes f.small num base two many word in
    let refused : (ltb base 2 || ltb 36 base) ≡ false = ground arith in
    let wide : spread precision (length s) ≡ asked precision (length s) = elim p [
      | inl small ↦ ground arith
      | inr none_asked ↦ ground arith
    ] in
    (
      s,
      layout num base size precision f s,
      (
        run,
        rw (refused, run, ◌>>=◌) refl,
        length-layout num base size precision f s (rw wide (ground arith))
            ∙ rw wide (
                pad_sum size (length (shown (sign_of f num))) (length (prefix f base))
                  (asked precision (length s)) narrow (short_shown (sign_of f num))
                  (short_prefix f base)
                  (elim p [ inl small ↦ ground arith | inr none_asked ↦ ground arith ])),
      ),
    )
