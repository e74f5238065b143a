-- ===== src/Print/Number.antt =====
-- src/lib/vsprintf.c: the digits that `number` writes stand for the number.
use yuios.Common.{
  ℕ, zero, suc, ◌+◌, ◌-◌, ◌*◌, ◌/◌, ◌%◌, ◌^◌, ◌<◌, ◌≤◌, ◌≡◌, refl, sym, ap, ◌∙◌, ◌⊎◌, inl, inr,
  Bool, true, false, List, [], ◌∷◌, ◌++◌, arith, All, leb, ◌==◌, if◌then◌else◌, Bool-cases, length,
  take, length-append, check_below, check_below_lem, ok, ◌&&◌,
}
use mathlib.Core.List.{append_assoc, append-nil}
use native.Mathlib.Nat.{div-lt_iff_lt-mul, mod-add-div, mod-lt, mul-le-mul_left, mul_comm}
use yuios.Print.{digit, digits_from, digits}

-- what a digit stands for, and the number that a row of digits stands for, behind `acc`
abbrev pub digit_value : ℕ → ℕ
digit_value c = if leb c b'9' then c - b'0' else if leb c b'Z' then c + 10 - b'A' else c + 10 - b'a'

abbrev pub value_from : (base acc : ℕ) → List ℕ → ℕ
value_from base acc [] = acc
value_from base acc (c ∷ s) = value_from base (acc * base + digit_value c) s

digit_table :
    check_below 36 (λ i. (digit_value (digit true i) == i) && (digit_value (digit false i) == i))
    ≡ true
unfolding check_below
digit_table = refl

digit_value-digit : (small : Bool) (i : ℕ) → i < 36 → digit_value (digit small i) ≡ i
digit_value-digit true i h = ground (
  arith,
  check_below_lem 36 (λ j. (digit_value (digit true j) == j) && (digit_value (digit false j) == j))
      i digit_table h,
)
digit_value-digit false i h = ground (
  arith,
  check_below_lem 36 (λ j. (digit_value (digit true j) == j) && (digit_value (digit false j) == j))
      i digit_table h,
)

-- 2 to a power
abbrev pub power : ℕ → ℕ
power zero = 1
power (suc n) = power n + power n

value_from-append :
    (base acc : ℕ) (s t : List ℕ)
    → value_from base acc (s ++ t) ≡ value_from base (value_from base acc s) t
value_from-append base acc [] t = refl
value_from-append base acc (c ∷ s) t = value_from-append base (acc * base + digit_value c) s t

quotient_bound : (num base top : ℕ) → 2 ≤ base → num < top + top → num / base < top
quotient_bound num base top two h =
    let grows : top * 2 ≤ top * base = mul-le-mul_left top two in
    (div-lt_iff_lt-mul (omega arith)).1 (omega (arith, grows))

-- a digit of a base
abbrev pub IsDigit : Bool → ℕ → ℕ → Type 0
IsDigit small base c = (digit_value c < base) × (digit small (digit_value c) ≡ c)

-- `s` writes `num` in `base`: its digits are digits of the base, they stand for `num`, and a number but 0
-- does not begin with 0.
pub record Writes (small : Bool) (base num : ℕ) (s : List ℕ) : Type 0 where
  pub value : value_from base 0 s ≡ num
  pub valid : All (IsDigit small base) s
  pub leading : All (λ c. 0 < digit_value c) (take 1 s)

All-snoc : (P : ℕ → Type 0) (s : List ℕ) (c : ℕ) → All P s → P c → All P (s ++ (c ∷ []))
All-snoc P [] c h k = (k, tt)
All-snoc P (x ∷ s) c h k = (h.0, All-snoc P s c h.1 k)

-- one more digit at the end
Writes-snoc :
    (base num : ℕ) (small : Bool) (s : List ℕ)
    → 2 ≤ base
    → base ≤ 36
    → 0 < num
    → Writes small base (num / base) s
    → Writes small base num (s ++ (digit small (num % base) ∷ []))
Writes-snoc base num small s two many pos w =
    let last : num % base < base = mod-lt num (omega arith) in
    let worth = digit_value-digit small (num % base) (omega arith) in
    let sum = mod-add-div num base in
    let flip = mul_comm base (num / base) in
    record {
      value =
          value_from-append base 0 s (digit small (num % base) ∷ [])
          ∙ omega (arith, ap (λ v. v * base) w.value, worth, sum, flip);
      valid =
          All-snoc (IsDigit small base) s _ w.valid
            (omega (arith, worth, last), ap (digit small) worth);
      leading = first s w;
    }
  where
    first :
        (s : List ℕ)
        → Writes small base (num / base) s
        → All (λ c. 0 < digit_value c) (take 1 (s ++ (digit small (num % base) ∷ [])))
    first [] w =
        let last : num % base < base = mod-lt num (omega arith) in
        (
          omega (
            arith,
            digit_value-digit small (num % base) (omega arith),
            mod-add-div num base,
            ap (λ q. base * q) w.value,
          ),
          tt,
        )
    first (x ∷ s) w = w.leading

digits_from-Writes :
    (fuel : ℕ) (small : Bool) (num base : ℕ) (tmp : List ℕ)
    → 2 ≤ base
    → base ≤ 36
    → num < power fuel
    → (s : List ℕ) × (digits_from fuel small num base tmp ≡ ok (s ++ tmp))
      × Writes small base num s
      × (length s ≤ fuel)
unfolding digits_from
digits_from-Writes zero small num base tmp two many h =
    let none_left : num ≡ 0 = omega arith in
    ([], rw none_left refl, record { value = omega arith; valid = tt; leading = tt }, omega arith)
digits_from-Writes (suc fuel) small num base tmp two many h = elim (Bool-cases (num == 0)) [
  | inl e ↦
      let none_left : num ≡ 0 = ground arith in
      ([], rw e refl, record { value = omega arith; valid = tt; leading = tt }, omega arith)
  | inr e ↦
      let d = digit small (num % base) in
      let (s, run, w, short) =
        digits_from-Writes fuel small (num / base) base (d ∷ tmp) two many
          (quotient_bound num base (power fuel) two h) in
      (
        s ++ (d ∷ []),
        rw e (run ∙ ap ok (sym (append_assoc s (d ∷ []) tmp))),
        Writes-snoc base num small s two many (ground arith) w,
        omega (arith, length-append s (d ∷ []), short),
      )
]

-- The digits of `number`: for each base of 2 to 36 and each word, the loop ends and its digits stand for
-- the word in that base; there are 1 to 32 of them, and only 0 begins with the digit 0.
pub digits-Writes :
    (small : Bool) (num base : ℕ)
    → 2 ≤ base
    → base ≤ 36
    → num < 2 ^ 32
    → (s : List ℕ) × (digits small num base ≡ ok s)
      × (value_from base 0 s ≡ num)
      × All (IsDigit small base) s
      × ((num ≡ 0) ⊎ All (λ c. 0 < digit_value c) (take 1 s))
      × (1 ≤ length s)
      × (length s ≤ 32)
unfolding digits
digits-Writes small num base two many word = elim (Bool-cases (num == 0)) [
  | inl e ↦
      let is_0 : num ≡ 0 = ground arith in
      (
        b'0' ∷ [],
        rw e refl,
        omega (arith, is_0),
        ((omega arith, digit_zero small), tt),
        inl is_0,
        omega arith,
        omega arith,
      )
  | inr e ↦
      let (s, run, w, short) = digits_from-Writes 32 small num base [] two many (omega arith) in
      (
        s,
        rw (e, run) (ap ok (append-nil s)),
        w.value,
        w.valid,
        inr w.leading,
        some_digit s (ground arith) w,
        short,
      )
]
  where
    some_digit : (s : List ℕ) → 0 < num → Writes small base num s → 1 ≤ length s
    some_digit [] pos w = absurd (omega (arith, w.value))
    some_digit (c ∷ s) pos w = omega arith

    digit_zero : (small : Bool) → digit small (digit_value b'0') ≡ b'0'
    digit_zero true = refl
    digit_zero false = refl
