-- ===== src/Bytes/Strings.antt =====
-- src/lib/string.c: the functions on strings that end with a zero byte.
use yuios.Common.{
  ℕ, zero, suc, ◌+◌, ◌-◌, ◌<◌, ◌≡◌, refl, ◌≢◌, ◌⊎◌, inl, inr, sym, Bool, true, false, arith, ltb,
  leb, ◌^◌, ap, ◌==◌, if◌then◌else◌, Bool-cases, List, [], ◌∷◌, some, ok, ◌>>=◌, ==_refl, ==_false,
}
use yuios.Bytes.{Mem, poke, memcpy, strcpy, end_of, strlen, strcmp, compare, to_int, strchr}

-- At `str` stands a string of `n` bytes, which are not zero, with a zero byte behind them.
abbrev pub IsString : Mem → (str n : ℕ) → Type 0
IsString m str zero = m str ≡ 0
IsString m str (suc n) = (m str ≢ 0) × IsString m (str + 1) n

end_of_lem :
    (fuel : ℕ) (m : Mem) (str n : ℕ)
    → IsString m str n
    → n < fuel
    → end_of fuel m str ≡ ok (str + n)
unfolding end_of
end_of_lem zero m str n is h = absurd (omega arith)
end_of_lem (suc fuel) m str zero is h = let e : str + 0 ≡ str = omega arith in rw (is, e) refl
end_of_lem (suc fuel) m str (suc n) is h =
    let e : str + 1 + n ≡ str + suc n = omega arith in
    rw (==_false (m str) 0 is.0, end_of_lem fuel m (str + 1) n is.1 (omega arith), e) refl

-- `strlen`, with more fuel than a string is long, returns its length.
pub strlen_lem :
    (fuel : ℕ) (m : Mem) (str n : ℕ) → IsString m str n → n < fuel → strlen fuel m str ≡ ok n
unfolding strlen
strlen_lem fuel m str n is h =
    let e : str + n - str ≡ n = omega arith in rw (end_of_lem fuel m str n is h, ◌>>=◌, e) refl

-- A write outside a string leaves it a string.
IsString-poke :
    (m : Mem) (str n a v : ℕ)
    → (a < str) ⊎ (str + n < a)
    → IsString m str n
    → IsString (poke m a v) str n
IsString-poke m str zero a v out is =
    rw (==_false a str (λ e. elim out [ inl h ↦ omega arith | inr h ↦ omega arith ])) is
IsString-poke m str (suc n) a v out is = (
  rw (==_false a str (λ e. elim out [ inl h ↦ omega arith | inr h ↦ omega arith ])) is.0,
  IsString-poke m (str + 1) n a v
      (elim out [ inl h ↦ inl (omega arith) | inr h ↦ inr (omega arith) ]) is.1,
)

-- For a string whose bytes, with the zero byte, do not overlap the target, `strcpy` is `memcpy` of one
-- byte more than its length.
pub strcpy-memcpy :
    (fuel : ℕ) (m : Mem) (dest src n : ℕ)
    → IsString m src n
    → n < fuel
    → (dest + n < src) ⊎ (src + n < dest)
    → strcpy fuel m dest src ≡ ok (memcpy m dest src (n + 1))
unfolding strcpy memcpy
strcpy-memcpy zero m dest src n is h apart = absurd (omega arith)
strcpy-memcpy (suc fuel) m dest src zero is h apart =
    let ne : (dest == src) ≡ false =
      ==_false dest src (λ e. elim apart [ inl p ↦ omega arith | inr p ↦ omega arith ]) in
    rw (ne, is) refl
strcpy-memcpy (suc fuel) m dest src (suc n) is h apart =
    let ne : (dest == src) ≡ false =
      ==_false dest src (λ e. elim apart [ inl p ↦ omega arith | inr p ↦ omega arith ]) in
    let next =
      strcpy-memcpy fuel (poke m dest (m src)) (dest + 1) (src + 1) n
        (IsString-poke m (src + 1) n dest (m src)
          (elim apart [ inl p ↦ inl (omega arith) | inr p ↦ inr (omega arith) ]) is.1)
        (omega arith) (elim apart [ inl p ↦ inl (omega arith) | inr p ↦ inr (omega arith) ]) in
    let last : suc n + 1 ≡ suc (n + 1) = omega arith in rw (ne, ==_false (m src) 0 is.0, last) next

-- `n` bytes from `str` on
abbrev pub text : Mem → (str n : ℕ) → List ℕ
text m str zero = []
text m str (suc n) = m str ∷ text m (str + 1) n

-- a byte stands for a negative character when its top bit is set, and those come before the others
abbrev pub before : (x y : ℕ) → Bool
before x y =
    if leb 128 x
    then (if leb 128 y then ltb x y else true)
    else if leb 128 y
    then false
    else ltb x y

-- -1 if the first is the smaller, and 1 otherwise
abbrev pub by_order : (x y : ℕ) → ℕ
by_order x y = if before x y then 2 ^ 32 - 1 else 1

-- the order of the dictionary, by signed characters, where the end stands for a zero character
abbrev pub lex : List ℕ → List ℕ → ℕ
lex [] [] = 0
lex [] (y ∷ ys) = by_order 0 y
lex (x ∷ xs) [] = by_order x 0
lex (x ∷ xs) (y ∷ ys) = if x == y then lex xs ys else by_order x y

compare-by_order : (x y : ℕ) → x < 256 → y < 256 → x ≢ y → compare x y ≡ by_order x y
compare-by_order x y h k ne = ground arith

-- In a memory of bytes, `strcmp` of two strings, with more fuel than the first is long, returns 0 when they
-- are equal, and otherwise -1 or 1 by the first characters that differ, as signed numbers, where the end of a
-- string counts as 0.
pub strcmp-lex :
    (fuel : ℕ) (m : Mem) (lhs rhs n k : ℕ)
    → ((a : ℕ) → m a < 256)
    → IsString m lhs n
    → IsString m rhs k
    → n < fuel
    → strcmp fuel m lhs rhs ≡ ok (lex (text m lhs n) (text m rhs k))
unfolding strcmp
strcmp-lex zero m lhs rhs n k byte is is' h = absurd (omega arith)
strcmp-lex (suc fuel) m lhs rhs zero zero byte is is' h = rw (is, is') refl
strcmp-lex (suc fuel) m lhs rhs zero (suc k) byte is is' h =
    rw (is, ==_false 0 (m rhs) (λ e. is'.0 (sym e)))
      (ap ok (compare-by_order 0 (m rhs) (omega arith) (byte rhs) (λ e. is'.0 (sym e))))
strcmp-lex (suc fuel) m lhs rhs (suc n) zero byte is is' h =
    rw (is', ==_false (m lhs) 0 is.0)
      (ap ok (compare-by_order (m lhs) 0 (byte lhs) (omega arith) is.0))
strcmp-lex (suc fuel) m lhs rhs (suc n) (suc k) byte is is' h =
    rw (==_false (m lhs) 0 is.0, ==_false (m rhs) 0 is'.0)
      (elim (Bool-cases (m lhs == m rhs)) [
        | inl e ↦ rw e (strcmp-lex fuel m (lhs + 1) (rhs + 1) n k byte is.1 is'.1 (omega arith))
        | inr e ↦
            rw e (ap ok (compare-by_order (m lhs) (m rhs) (byte lhs) (byte rhs) (ground arith)))
      ])

-- From `ptr` on, the first byte that is `ch` has index `i`, and no byte from `ptr + 1` up to it is zero.
abbrev pub FirstAt : Mem → (ch ptr i : ℕ) → Type 0
FirstAt m ch ptr zero = to_int (m ptr) ≡ ch
FirstAt m ch ptr (suc i) = (to_int (m ptr) ≢ ch) × (m (ptr + 1) ≢ 0) × FirstAt m ch (ptr + 1) i

-- Where a string has a character, `strchr` returns the address behind its first place.
pub strchr_past :
    (fuel : ℕ) (m : Mem) (ptr ch i : ℕ)
    → FirstAt m ch ptr i
    → i < fuel
    → strchr fuel m ptr ch ≡ ok (some (ptr + i + 1))
unfolding strchr
strchr_past zero m ptr ch i first h = absurd (omega arith)
strchr_past (suc fuel) m ptr ch zero first h =
    let e : ptr + zero + 1 ≡ ptr + 1 = omega arith in rw (first, ==_refl ch, e) refl
strchr_past (suc fuel) m ptr ch (suc i) first h =
    let e : ptr + suc i + 1 ≡ ptr + 1 + i + 1 = omega arith in
    rw (==_false (to_int (m ptr)) ch first.0, ==_false (m (ptr + 1)) 0 first.1, e)
      (strchr_past fuel m (ptr + 1) ch i first.2 (omega arith))
