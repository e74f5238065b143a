-- ===== src/Print/Examples.antt =====
-- The word 0xdeadbeef, and a format with a directive.
use yuios.Common.{
  ℕ, ◌+◌, ◌<◌, ◌≤◌, ◌≡◌, ◌⊎◌, refl, inr, true, false, List, [], ◌∷◌, ◌++◌, arith, length, All, some,
  eof, ok, take,
}
use yuios.Print.{Flags, digits, number, shown, sign_of, prefix}
use yuios.Print.Number.{value_from, digit_value, IsDigit, digits-Writes}
use yuios.Print.Width.{larger, asked, number_width}
use yuios.Print.Format.{word, skip_atoi, convert, format_from, vsprintf, no_flags}
use yuios.Print.Rounds.{format_from-vsprintf}
use yuios.Print.Reading.{skip_atoi-digits, convert_signed}

digits-Writes_example :
    (s : List ℕ) × (digits true 0xdeadbeef 16 ≡ ok s)
    × (value_from 16 0 s ≡ 0xdeadbeef)
    × All (IsDigit true 16) s
    × ((◌≡◌ {A = ℕ} 0xdeadbeef 0) ⊎ All (λ c. 0 < digit_value c) (take 1 s))
    × (1 ≤ length s)
    × (length s ≤ 32)
digits-Writes_example = digits-Writes true 0xdeadbeef 16 (omega arith) (omega arith) (omega arith)

abbrev hex : Flags
hex = record no_flags { special = true; zeropad = true }

number_width_example :
    (s : List ℕ) × (out : List ℕ) × ((digits false 0xbeef 16 ≡ ok s)
      × (number 0xbeef 16 12 eof hex ≡ ok (some out))
      × (length out
          ≡ larger 12 (
              length (shown (sign_of hex 0xbeef)) + length (prefix hex 16) + asked eof (length s))))
number_width_example =
    number_width 0xbeef 16 12 eof hex (omega arith) (omega arith) (omega arith) (omega arith)
      (inr refl)

abbrev format : List ℕ
format = b'n' ∷ b'=' ∷ b'%' ∷ b'5' ∷ b'd' ∷ []

format_from-vsprintf_example :
    format_from 9 0 format (word 42 ∷ []) ≡ some (vsprintf format (word 42 ∷ []))
format_from-vsprintf_example = format_from-vsprintf 9 format (word 42 ∷ []) (omega arith)

skip_atoi-digits_example :
    (s : List ℕ) × (digits false 4096 10 ≡ ok s)
    × (skip_atoi (s ++ (b'k' ∷ [])) ≡ (4096, b'k' ∷ []))
skip_atoi-digits_example = skip_atoi-digits 4096 (b'k' ∷ []) (omega arith) refl

convert_signed_example :
    convert no_flags eof eof b'd' (word 0xffffffff ∷ [])
    ≡ convert no_flags eof eof b'u' (word 0xffffffff ∷ [])
convert_signed_example = convert_signed no_flags eof eof (word 0xffffffff ∷ [])
