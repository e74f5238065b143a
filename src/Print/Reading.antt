-- ===== src/Print/Reading.antt =====
-- src/lib/vsprintf.c: what `%u` and `%d` print is read back.
use yuios.Common.{
  ℕ, ◌+◌, ◌*◌, ◌^◌, ◌<◌, ◌≤◌, ◌≡◌, refl, ap, ◌∙◌, Bool, true, false, ◌&&◌, List, [], ◌∷◌, ◌++◌,
  arith, ltb, ok, ◌>>=◌, sub32, add32, mul32, All, some, OnOk-any, bind-OnOk,
}
use yuios.Print.{Flags, digits, number, layout}
use yuios.Print.Number.{digit_value, value_from, IsDigit, digits-Writes}
use yuios.Print.Format.{Arg, skip_from, skip_atoi, is_digit, convert, put_result, next_word}

-- a text whose first byte is no digit
abbrev pub StopsDigits : List ℕ → Type 0
StopsDigits [] = Unit
StopsDigits (c ∷ s) = is_digit c ≡ false

value_grows : (acc : ℕ) (s : List ℕ) → acc ≤ value_from 10 acc s
value_grows acc [] = omega arith
value_grows acc (c ∷ s) = omega (arith, value_grows (acc * 10 + digit_value c) s)

-- reading on from `acc`, where the number fits a word
skip_from_digits :
    (acc : ℕ) (s rest : List ℕ)
    → All (IsDigit false 10) s
    → value_from 10 acc s < 2 ^ 32
    → StopsDigits rest
    → skip_from acc (s ++ rest) ≡ (value_from 10 acc s, rest)
unfolding skip_from
skip_from_digits acc [] [] d fits stop = refl
skip_from_digits acc [] (c ∷ rest) d fits stop = rw stop refl
skip_from_digits acc (c ∷ s) rest d fits stop =
    let v = digit_value c in
    let byte : c ≡ b'0' + v = ground (arith, d.0.0, d.0.1) in
    let is : is_digit c ≡ true = ground (arith, d.0.0, byte) in
    let grows = value_grows (acc * 10 + v) s in
    let sum : sub32 (add32 (mul32 acc 10) c) b'0' ≡ acc * 10 + v =
      omega (arith, grows, fits, byte, d.0.0) in
    rw (is, sum) (skip_from_digits (acc * 10 + v) s rest d.1 fits stop)

-- The decimal digits of a word, with a text behind them that begins with no digit, are read back by
-- `skip_atoi` as the word and the text.
pub skip_atoi-digits :
    (num : ℕ) (rest : List ℕ)
    → num < 2 ^ 32
    → StopsDigits rest
    → (s : List ℕ) × (digits false num 10 ≡ ok s) × (skip_atoi (s ++ rest) ≡ (num, rest))
unfolding skip_atoi
skip_atoi-digits num rest fits stop =
    let (s, run, value, valid, leading, one, short) =
      digits-Writes false num 10 (omega arith) (omega arith) fits in
    (
      s,
      run,
      skip_from_digits 0 s rest valid (omega (arith, value)) stop ∙ ap (λ n. (n, rest)) value,
    )

never_negative : (num : ℕ) → ltb num 0 ≡ false
never_negative num = ground arith

never_signed : (b : Bool) (num : ℕ) → (b && ltb num 0) ≡ false
never_signed b num = ground arith

layout_signed :
    (num size precision : ℕ) (f : Flags) (tmp : List ℕ)
    → layout num 10 size precision (record f { sign = true }) tmp
      ≡ layout num 10 size precision f tmp
unfolding layout
layout_signed num size precision f tmp = rw (never_signed f.sign num, never_negative num) refl

number_signed :
    (num width precision : ℕ) (f : Flags)
    → number num 10 width precision (record f { sign = true }) ≡ number num 10 width precision f
unfolding number
number_signed num width precision f = bind-OnOk (digits f.small num 10) _ _ (
    OnOk-any _ (digits f.small num 10)
      λ tmp. ap (λ s. ok (some s)) (layout_signed num width precision f tmp))

-- `%d` writes every word as `%u` does, one that stands for a negative number included.
pub convert_signed :
    (f : Flags) (width precision : ℕ) (args : List Arg)
    → convert f width precision b'd' args ≡ convert f width precision b'u' args
unfolding convert
convert_signed f width precision args = bind-OnOk (next_word args) _ _ (
    OnOk-any _ (next_word args)
      λ (num, args'). ap (λ o. o >>= put_result args') (number_signed num width precision f))
