-- ===== src/Print.antt =====
-- src/lib/vsprintf.c: formatted output. The text that is written is a list of bytes; the buffer is as
-- long as it needs to be. Arguments are 32-bit words, a string argument the bytes before its zero byte
-- (`strlen` of Bytes). Widths and precisions are `int`s by their bit patterns; a loop `while (n-- > 0)`
-- leaves -1 behind, which no later test tells from 0 or less.
mod Examples
pub mod Number
pub mod Width
pub mod Rounds
pub mod Reading
pub mod Format
use yuios.Common.{
  ℕ, zero, suc, ◌+◌, ◌-◌, ◌/◌, ◌%◌, Bool, not, ◌&&◌, ◌||◌, Option, none, some, List, [], ◌∷◌, ◌++◌,
  ltb, ◌==◌, if◌then◌else◌, length, replicate, fault, Outcome, ok, halt, ◌>>=◌, sub32, int_order,
}

-- the bits of `flags`
pub record Flags : Type 0 where
  pub zeropad : Bool
  pub sign : Bool
  pub plus : Bool
  pub space : Bool
  pub left : Bool
  pub special : Bool
  pub small : Bool

-- the test `n > 0` of an `int`, and how many rounds `while (n-- > 0)` makes
abbrev pub positive : ℕ → Bool
positive n = ltb (int_order 0) (int_order n)

abbrev pub rounds : ℕ → ℕ
rounds n = if positive n then n else 0

-- `digits[index]`, in the upper or the lower case
abbrev pub digit : Bool → ℕ → ℕ
digit small index =
    if ltb index 10 then b'0' + index else if small then b'a' + index - 10 else b'A' + index - 10

-- The loop that takes the digits of `num` off from the lowest, with `tmp` as far as it is filled. A round
-- halves `num` or more, so that 32 rounds end it; out of fuel is a fault.
unfoldable pub digits_from : ℕ → (small : Bool) → (num base : ℕ) → List ℕ → Outcome (List ℕ)
digits_from zero small num base tmp = if num == 0 then ok tmp else halt fault
digits_from (suc fuel) small num base tmp =
    let rest = digits_from fuel small (num / base) base (digit small (num % base) ∷ tmp) in
    if num == 0 then ok tmp else rest

-- the digits of a number, the highest first
unfoldable pub digits : (small : Bool) → (num base : ℕ) → Outcome (List ℕ)
digits small num base = if num == 0 then ok (b'0' ∷ []) else digits_from 32 small num base []

-- The sign: `num` is an unsigned number, so that the test `num < 0` fails.
abbrev pub sign_of : Flags → (num : ℕ) → ℕ
sign_of f num =
    if f.sign && ltb num 0 then b'-' else if f.plus then b'+' else if f.space then b' ' else 0

abbrev pub shown : ℕ → List ℕ
shown c = if c == 0 then [] else c ∷ []

-- the prefix of the base
abbrev pub prefix : Flags → ℕ → List ℕ
prefix f base =
    if f.special
    then (if base == 8
        then b'0' ∷ []
        else if base == 16
        then b'0' ∷ (if f.small then b'x' else b'X') ∷ []
        else [])
    else []

-- `n` bytes `c`, if the test holds
abbrev pub pad_if : Bool → (n c : ℕ) → List ℕ
pad_if b n c = if b then replicate n c else []

-- the precision, which is at least the number of digits
abbrev pub spread : (precision i : ℕ) → ℕ
spread precision i = if ltb (int_order precision) (int_order i) then i else precision

-- the width that is left for padding
abbrev pub width_left : (size signs prefixes digits : ℕ) → ℕ
width_left size signs prefixes digits = sub32 (sub32 (sub32 size signs) prefixes) digits

-- what `number` writes from the digits `tmp` on: blanks, the sign, the prefix, zeros, the digits, blanks
unfoldable pub layout : (num base size precision : ℕ) → Flags → List ℕ → List ℕ
layout num base size precision flags tmp =
    let zeropad = flags.zeropad && not flags.left in
    let sign = shown (sign_of flags num) in
    let marks = prefix flags base in
    let i = length tmp in
    let precision = spread precision i in
    let pad = rounds (width_left size (length sign) (length marks) precision) in
    pad_if (not zeropad && not flags.left) pad b' '
    ++ (sign
        ++ (marks
            ++ (pad_if zeropad pad b'0'
                ++ (replicate (precision - i) b'0' ++ (tmp ++ pad_if flags.left pad b' ')))))

-- `number`: what is written, or `none` for a base that is refused
unfoldable pub number : (num base size precision : ℕ) → Flags → Outcome (Option (List ℕ))
number num base size precision flags =
    if ltb base 2 || ltb 36 base
    then ok none
    else (digits flags.small num base >>= λ tmp.
        ok (some (layout num base size precision flags tmp)))
