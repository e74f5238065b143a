-- ===== src/Print/Format.antt =====
-- src/lib/vsprintf.c: `vsprintf`, one directive at a time. A format is the bytes before its zero byte, so
-- that `*fmt` at its end is 0.
use yuios.Common.{
  ℕ, zero, suc, ◌+◌, ◌%◌, Bool, true, false, not, ◌&&◌, ◌||◌, Option, none, some, List, [], ◌∷◌,
  ◌++◌, ltb, leb, ◌==◌, if◌then◌else◌, length, take, replicate, fault, Outcome, ok, halt, ◌>>=◌,
  add32, sub32, mul32, eof, int_order,
}
use yuios.Print.{Flags, rounds, number}

abbrev pub is_digit : ℕ → Bool
is_digit c = leb b'0' c && leb c b'9'

-- the loop of `skip_atoi`: the number and what is left of the text
unfoldable pub skip_from : ℕ → List ℕ → ℕ × List ℕ
skip_from i [] = (i, [])
skip_from i (c ∷ s) =
    let rest = skip_from (sub32 (add32 (mul32 i 10) c) b'0') s in
    if is_digit c then rest else (i, c ∷ s)

-- `skip_atoi`
unfoldable pub skip_atoi : List ℕ → ℕ × List ℕ
skip_atoi s = skip_from 0 s

-- an argument of `vsprintf`
pub data Arg : Type 0 where
  word : ℕ → Arg
  text : List ℕ → Arg

-- `va_arg`; an argument that is missing or of another type is a fault
unfoldable pub next_word : List Arg → Outcome (ℕ × List Arg)
next_word (word n ∷ args) = ok (n, args)
next_word (text s ∷ args) = halt fault
next_word [] = halt fault

unfoldable pub next_text : List Arg → Outcome (List ℕ × List Arg)
next_text (text s ∷ args) = ok (s, args)
next_text (word n ∷ args) = halt fault
next_text [] = halt fault

abbrev pub no_flags : Flags
no_flags = record {
  zeropad = false;
  sign = false;
  plus = false;
  space = false;
  left = false;
  special = false;
  small = false;
}

abbrev pub add_flag : Flags → ℕ → Flags
add_flag f c =
    if c == b'-'
    then record f { left = true }
    else if c == b'+'
    then record f { plus = true }
    else if c == b' '
    then record f { space = true }
    else if c == b'#'
    then record f { special = true }
    else record f { zeropad = true }

abbrev pub is_flag : ℕ → Bool
is_flag c = c == b'-' || c == b'+' || c == b' ' || c == b'#' || c == b'0'

-- the loop from `repeat` on
unfoldable pub parse_flags : Flags → List ℕ → Flags × List ℕ
parse_flags f [] = (f, [])
parse_flags f (c ∷ fmt) =
    let rest = parse_flags (add_flag f c) fmt in if is_flag c then rest else (f, c ∷ fmt)

-- the width: the flags, the width, and what is left of the format and of the arguments
unfoldable pub parse_width : Flags → List ℕ → List Arg → Outcome (Flags × ℕ × List ℕ × List Arg)
parse_width f [] args = ok (f, eof, [], args)
parse_width f (c ∷ fmt) args =
    if is_digit c
    then (let (n, rest) = skip_atoi (c ∷ fmt) in ok (f, n, rest, args))
    else if c == b'*'
    then (next_word args >>= λ (n, args').
        if ltb (int_order n) (int_order 0)
        then ok (record f { left = true }, sub32 0 n, fmt, args')
        else ok (f, n, fmt, args'))
    else ok (f, eof, c ∷ fmt, args)

abbrev pub at_least_0 : ℕ → ℕ
at_least_0 n = if ltb (int_order n) (int_order 0) then 0 else n

-- the precision; the `*` of an argument's precision is not passed over
unfoldable pub parse_precision : List ℕ → List Arg → Outcome (ℕ × List ℕ × List Arg)
parse_precision [] args = ok (eof, [], args)
parse_precision (d ∷ []) args = if d == b'.' then ok (0, [], args) else ok (eof, d ∷ [], args)
parse_precision (d ∷ (c ∷ fmt)) args =
    if not (d == b'.')
    then ok (eof, d ∷ (c ∷ fmt), args)
    else if is_digit c
    then (let (n, rest) = skip_atoi (c ∷ fmt) in ok (at_least_0 n, rest, args))
    else if c == b'*'
    then (next_word args >>= λ (n, args'). ok (at_least_0 n, c ∷ fmt, args'))
    else ok (0, c ∷ fmt, args)

-- the qualifier is read and not used
unfoldable pub skip_qualifier : List ℕ → List ℕ
skip_qualifier [] = []
skip_qualifier (c ∷ fmt) = if c == b'h' || c == b'l' || c == b'L' then fmt else c ∷ fmt

-- what `%s` writes
unfoldable pub put_text : Flags → (width precision : ℕ) → List ℕ → List ℕ
put_text f width precision s =
    let len =
      if ltb (int_order precision) (int_order 0)
      then length s
      else if ltb (int_order precision) (int_order (length s))
      then precision
      else length s in
    let pad =
      replicate (if ltb (int_order len) (int_order width) then sub32 width len else 0) b' ' in
    if f.left then take len s ++ pad else pad ++ take len s

-- what `%c` writes
unfoldable pub put_char : Flags → (width : ℕ) → ℕ → List ℕ
put_char f width c =
    let pad = replicate (rounds (sub32 width 1)) b' ' in
    if f.left then (c % 256) ∷ pad else pad ++ ((c % 256) ∷ [])

-- the call of `number`; a null pointer that it returns would become `str`
abbrev pub put_result : List Arg → Option (List ℕ) → Outcome (List ℕ × List Arg)
put_result args none = halt fault
put_result args (some s) = ok (s, args)

abbrev pub put_number :
    (num base width precision : ℕ) → Flags → List Arg → Outcome (List ℕ × List Arg)
put_number num base width precision f args = number num base width precision f >>= put_result args

-- The conversion `c`, but for `n`: what it writes, and the arguments that are left.
unfoldable pub convert : Flags → (width precision c : ℕ) → List Arg → Outcome (List ℕ × List Arg)
convert f width precision c args =
    if c == b'c'
    then (next_word args >>= λ (n, args'). ok (put_char f width n, args'))
    else if c == b's'
    then (next_text args >>= λ (s, args'). ok (put_text f width precision s, args'))
    else if c == b'o'
    then (next_word args >>= λ (n, args'). put_number n 8 width precision f args')
    else if c == b'p'
    then (next_word args >>= λ (n, args').
        if width == eof
        then put_number n 16 8 precision (record f { zeropad = true }) args'
        else put_number n 16 width precision f args')
    else if c == b'x'
    then (next_word args >>= λ (n, args').
        put_number n 16 width precision (record f { small = true }) args')
    else if c == b'X'
    then (next_word args >>= λ (n, args'). put_number n 16 width precision f args')
    else if c == b'd' || c == b'i'
    then (next_word args >>= λ (n, args').
        put_number n 10 width precision (record f { sign = true }) args')
    else if c == b'u'
    then (next_word args >>= λ (n, args'). put_number n 10 width precision f args')
    else ok ((if c == b'%' then [] else b'%' ∷ []) ++ (c ∷ []), args)

-- The conversion of a directive, behind its qualifier: what it writes, what `%n` stores and where, and what
-- is left of the format and of the arguments.
unfoldable pub finish_directive :
    (written : ℕ)
    → Flags
    → (width precision : ℕ) → List ℕ
    → List Arg
    → Outcome (List ℕ × List (ℕ × ℕ) × List ℕ × List Arg)
finish_directive written f width precision [] args = ok (b'%' ∷ [], [], [], args)
finish_directive written f width precision (c ∷ rest) args =
    if c == b'n'
    then (next_word args >>= λ (ptr, args'). ok ([], (ptr, written) ∷ [], rest, args'))
    else (convert f width precision c args >>= λ (s, args'). ok (s, [], rest, args'))

-- A directive behind its `%`, with `written` bytes before it.
unfoldable pub directive :
    (written : ℕ) → List ℕ → List Arg → Outcome (List ℕ × List (ℕ × ℕ) × List ℕ × List Arg)
directive written fmt args =
    let (f, fmt₁) = parse_flags no_flags fmt in
    parse_width f fmt₁ args >>= λ (f', width, fmt₂, args').
    parse_precision fmt₂ args' >>= λ (precision, fmt₃, args'').
    finish_directive written f' width precision (skip_qualifier fmt₃) args''

-- the text that is written, and the stores of `%n`
abbrev pub Output : Type 0
Output = Outcome (List ℕ × List (ℕ × ℕ))

-- what a round writes, before what the rounds after it write
abbrev pub prepend : List ℕ → List (ℕ × ℕ) → Option Output → Option Output
prepend s stores none = none
prepend s stores (some out) = some (out >>= λ (s', stores'). ok (s ++ s', stores ++ stores'))

-- The loop of `vsprintf`, on fuel, and `none` when the fuel is used up before the loop ends.
unfoldable pub format_from : ℕ → (written : ℕ) → List ℕ → List Arg → Option Output
format_from zero written fmt args = none
format_from (suc fuel) written [] args = some (ok ([], []))
format_from (suc fuel) written (c ∷ fmt) args = elim (c == b'%') [
  | false ↦ prepend (c ∷ []) [] (format_from fuel (written + 1) fmt args)
  | true ↦ elim (directive written fmt args) [
    | halt h ↦ some (halt h)
    | ok (s, stores, fmt', args') ↦
        prepend s stores (format_from fuel (written + length s) fmt' args')
  ]
]

-- what a loop gives that ended
abbrev pub ended : Option Output → Output
ended none = halt fault
ended (some out) = out

-- `vsprintf` of a format and its arguments: a round takes a byte of the format or more.
unfoldable pub vsprintf : List ℕ → List Arg → Output
vsprintf fmt args = ended (format_from (suc (length fmt)) 0 fmt args)
