-- ===== src/Print/Rounds.antt =====
-- src/lib/vsprintf.c: the loop of `vsprintf` ends, since each directive moves the format on.
use yuios.Common.{
  ℕ, zero, suc, ◌+◌, ◌<◌, ◌≤◌, ◌≡◌, refl, ap, inl, inr, List, [], ◌∷◌, ◌++◌, arith, ltb, ◌==◌,
  Bool-cases, length, ok, ◌>>=◌, OnOk, OnOk-bind, OnOk-any, OnOk-map, halt, Outcome-cases, some,
  sym, ◌∙◌, int_order, sub32, add32, mul32,
}
use mathlib.Core.Path.{subst}
use yuios.Print.{Flags}
use yuios.Print.Format.{
  Arg, Output, ended, skip_from, skip_atoi, is_digit, is_flag, parse_flags, parse_width,
  parse_precision, skip_qualifier, next_word, convert, finish_directive, directive, format_from,
  vsprintf, no_flags, add_flag,
}

skip_from_length : (i : ℕ) (s : List ℕ) → length (skip_from i s).1 ≤ length s
unfolding skip_from
skip_from_length i [] = omega arith
skip_from_length i (c ∷ s) = elim (Bool-cases (is_digit c)) [
  | inl e ↦ rw e (omega (arith, skip_from_length (sub32 (add32 (mul32 i 10) c) b'0') s))
  | inr e ↦ rw e (omega arith)
]

parse_flags_length : (f : Flags) (fmt : List ℕ) → length (parse_flags f fmt).1 ≤ length fmt
unfolding parse_flags
parse_flags_length f [] = omega arith
parse_flags_length f (c ∷ fmt) = elim (Bool-cases (is_flag c)) [
  | inl e ↦ rw e (omega (arith, parse_flags_length (add_flag f c) fmt))
  | inr e ↦ rw e (omega arith)
]

parse_width_length :
    (f : Flags) (fmt : List ℕ) (args : List Arg)
    → OnOk (λ (r : Flags × ℕ × List ℕ × List Arg). length r.2 ≤ length fmt) (parse_width f fmt args)
unfolding parse_width skip_atoi
parse_width_length f [] args = omega arith
parse_width_length f (c ∷ fmt) args = elim (Bool-cases (is_digit c)) [
  | inl e ↦ rw e (skip_from_length 0 (c ∷ fmt))
  | inr e ↦ rw e (elim (Bool-cases (c == b'*')) [
    | inl star ↦ rw star (
        OnOk-bind (λ (r : Flags × ℕ × List ℕ × List Arg). length r.2 ≤ suc (length fmt))
          (next_word args) _
          (OnOk-any _ (next_word args) λ r. elim (Bool-cases (ltb (int_order r.0) (int_order 0))) [
            | inl neg ↦ rw neg (omega arith)
            | inr pos ↦ rw pos (omega arith)
          ]))
    | inr other ↦ rw other (omega arith)
  ])
]

parse_precision_length :
    (fmt : List ℕ) (args : List Arg)
    → OnOk (λ (r : ℕ × List ℕ × List Arg). length r.1 ≤ length fmt) (parse_precision fmt args)
unfolding parse_precision skip_atoi
parse_precision_length [] args = omega arith
parse_precision_length (d ∷ []) args = elim (Bool-cases (d == b'.')) [
  | inl e ↦ rw e (omega arith)
  | inr e ↦ rw e (omega arith)
]
parse_precision_length (d ∷ (c ∷ fmt)) args = elim (Bool-cases (d == b'.')) [
  | inr e ↦ rw e (omega arith)
  | inl e ↦ rw e (elim (Bool-cases (is_digit c)) [
    | inl digit ↦ rw digit (omega (arith, skip_from_length 0 (c ∷ fmt)))
    | inr no_digit ↦ rw no_digit (elim (Bool-cases (c == b'*')) [
      | inl star ↦ rw star (
          OnOk-bind (λ (r : ℕ × List ℕ × List Arg). length r.1 ≤ suc (suc (length fmt)))
            (next_word args) _ (OnOk-any _ (next_word args) λ r. omega arith))
      | inr other ↦ rw other (omega arith)
    ])
  ])
]

skip_qualifier_length : (fmt : List ℕ) → length (skip_qualifier fmt) ≤ length fmt
unfolding skip_qualifier
skip_qualifier_length [] = omega arith
skip_qualifier_length (c ∷ fmt) = ground arith

abbrev Result : Type 0
Result = List ℕ × List (ℕ × ℕ) × List ℕ × List Arg

finish_directive_length :
    (written : ℕ) (f : Flags) (width precision : ℕ) (fmt : List ℕ) (args : List Arg)
    → OnOk
        (λ (r : Result). length r.2 ≤ length fmt)
        (finish_directive written f width precision fmt args)
unfolding finish_directive
finish_directive_length written f width precision [] args = omega arith
finish_directive_length written f width precision (c ∷ rest) args = elim (Bool-cases (c == b'n')) [
  | inl e ↦ rw e (
      OnOk-bind (λ (r : Result). length r.2 ≤ suc (length rest)) (next_word args) _
        (OnOk-any _ (next_word args) λ r. omega arith))
  | inr e ↦ rw e (
      OnOk-bind (λ (r : Result). length r.2 ≤ suc (length rest)) (convert f width precision c args)
        _ (OnOk-any _ (convert f width precision c args) λ r. omega arith))
]

-- A directive leaves no more of the format than it is given.
directive_length :
    (written : ℕ) (fmt : List ℕ) (args : List Arg)
    → OnOk (λ (r : Result). length r.2 ≤ length fmt) (directive written fmt args)
unfolding directive
directive_length written fmt args =
    let f = (parse_flags no_flags fmt).0 in
    let fmt₁ = (parse_flags no_flags fmt).1 in
    OnOk-bind (λ (r : Result). length r.2 ≤ length fmt) (parse_width f fmt₁ args) _
      (OnOk-map _ _ (parse_width f fmt₁ args) (parse_width_length f fmt₁ args)
        λ (f', width, fmt₂, args') h.
          OnOk-bind (λ (r : Result). length r.2 ≤ length fmt) (parse_precision fmt₂ args') _
            (OnOk-map _ _ (parse_precision fmt₂ args') (parse_precision_length fmt₂ args')
              λ (precision, fmt₃, args'') k.
                OnOk-map _ _
                  (finish_directive written f' width precision (skip_qualifier fmt₃) args'')
                  (finish_directive_length written f' width precision (skip_qualifier fmt₃) args'')
                  λ r l.
                    omega (
                      arith,
                      l,
                      skip_qualifier_length fmt₃,
                      k,
                      h,
                      parse_flags_length no_flags fmt,
                    )))

-- With any two amounts of fuel that exceed the length of the format the loop ends, with the same result.
format_from_ends :
    (n m written : ℕ) (fmt : List ℕ) (args : List Arg)
    → length fmt < n
    → length fmt < m
    → (out : Output) × ((format_from n written fmt args ≡ some out)
        × (format_from m written fmt args ≡ some out))
unfolding format_from
format_from_ends zero m written fmt args h k = absurd (omega arith)
format_from_ends (suc n) zero written fmt args h k = absurd (omega arith)
format_from_ends (suc n) (suc m) written [] args h k = (ok ([], []), (refl, refl))
format_from_ends (suc n) (suc m) written (c ∷ fmt) args h k = elim (Bool-cases (c == b'%')) [
  | inr e ↦
      let (out, (run, run')) =
        format_from_ends n m (written + 1) fmt args (omega arith) (omega arith) in
      (
        out >>= λ (s, stores). ok ((c ∷ []) ++ s, [] ++ stores),
        (rw (format_from, e, run) refl, rw (format_from, e, run') refl),
      )
  | inl e ↦ elim (Outcome-cases (directive written fmt args)) [
    | inr (halted, d) ↦ (halt halted, (rw (format_from, e, d) refl, rw (format_from, e, d) refl))
    | inl ((s, stores, fmt', args'), d) ↦
        let l : length fmt' ≤ length fmt =
          subst (OnOk (λ (r : Result). length r.2 ≤ length fmt)) d
            (directive_length written fmt args) in
        let (out, (run, run')) =
          format_from_ends n m (written + length s) fmt' args' (omega (arith, l))
            (omega (arith, l)) in
        (
          out >>= λ (s', stores'). ok (s ++ s', stores ++ stores'),
          (rw (format_from, e, d, run) refl, rw (format_from, e, d, run') refl),
        )
  ]
]

-- The loop of `vsprintf` ends, for every format and whatever arguments there are, and makes at most one round more than
-- the format has bytes: with any greater bound on the rounds it ends within the bound, and gives what `vsprintf`
-- gives.
pub format_from-vsprintf :
    (bound : ℕ) (fmt : List ℕ) (args : List Arg)
    → length fmt < bound
    → format_from bound 0 fmt args ≡ some (vsprintf fmt args)
unfolding vsprintf
format_from-vsprintf bound fmt args h =
    let (out, (run, run')) = format_from_ends bound (suc (length fmt)) 0 fmt args h (omega arith) in
    run ∙ ap (λ o. some (ended o)) (sym run')
