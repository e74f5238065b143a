-- ===== src/Bytes.antt =====
-- src/lib/string.c: strings and blocks of bytes. Memory is the byte at each address; `NULL` as a result
-- is `none`, and a negative `int` is its bit pattern. A pointer that wraps around is undefined, so that
-- addresses do not wrap here. A function that writes returns the new memory and not `dest`, its result.
-- The loops that wait for the end of a string run on fuel and fault when it is used up.
mod Examples
pub mod Blocks
pub mod Strings
pub mod Numbers
use yuios.Common.{
  ℕ, zero, suc, ◌+◌, ◌-◌, ◌%◌, ◌^◌, Bool, true, false, not, ◌&&◌, ◌||◌, Option, none, some, ltb,
  ◌==◌, if◌then◌else◌, fault, Outcome, ok, halt, ◌>>=◌, sub32, eof,
}

abbrev pub Mem : Type 0
Mem = ℕ → ℕ

-- `*a = v`
abbrev pub poke : Mem → ℕ → ℕ → Mem
poke m a v b = if a == b then v else m b

-- the `int` that a signed `char` becomes, and the order of signed `char`s
abbrev pub to_int : ℕ → ℕ
to_int byte = if ltb byte 128 then byte else byte + (2 ^ 32 - 256)

abbrev pub char_order : ℕ → ℕ
char_order byte = (byte + 128) % 256

-- `*l < *r ? -1 : *l > *r`
abbrev pub compare : ℕ → ℕ → ℕ
compare l r =
    if ltb (char_order l) (char_order r)
    then eof
    else if ltb (char_order r) (char_order l)
    then 1
    else 0

-- `IS_SEPARATOR`
abbrev pub is_separator : ℕ → Bool
is_separator c = c == b'/' || c == 92

-- `memset`
unfoldable pub memset : Mem → (dest ch count : ℕ) → Mem
memset m dest ch zero = m
memset m dest ch (suc count) = memset (poke m dest (ch % 256)) (dest + 1) ch count

-- `memcpy`
unfoldable pub memcpy : Mem → (dest src count : ℕ) → Mem
memcpy m dest src zero = m
memcpy m dest src (suc count) = memcpy (poke m dest (m src)) (dest + 1) (src + 1) count

-- `memcmp`
unfoldable pub memcmp : Mem → (lhs rhs count : ℕ) → ℕ
memcmp m lhs rhs zero = 0
memcmp m lhs rhs (suc count) =
    let rest = memcmp m (lhs + 1) (rhs + 1) count in
    if m lhs == m rhs then rest else compare (m lhs) (m rhs)

-- `memchr`
unfoldable pub memchr : Mem → (ptr ch count : ℕ) → Option ℕ
memchr m ptr ch zero = none
memchr m ptr ch (suc count) =
    let rest = memchr m (ptr + 1) ch count in if to_int (m ptr) == ch then some ptr else rest

-- the loop of `strlen`, which stops at the end of the string
unfoldable pub end_of : ℕ → Mem → ℕ → Outcome ℕ
end_of zero m ptr = halt fault
end_of (suc fuel) m ptr = let rest = end_of fuel m (ptr + 1) in if m ptr == 0 then ok ptr else rest

-- `strlen`
unfoldable pub strlen : ℕ → Mem → ℕ → Outcome ℕ
strlen fuel m str = end_of fuel m str >>= λ ptr. ok (ptr - str)

-- `strcpy`: the byte is read once more, after the write, for the test
unfoldable pub strcpy : ℕ → Mem → (dest src : ℕ) → Outcome Mem
strcpy zero m dest src = halt fault
strcpy (suc fuel) m dest src =
    let m' = poke m dest (m src) in
    let rest = strcpy fuel m' (dest + 1) (src + 1) in if m' src == 0 then ok m' else rest

-- The loop of `strncpy`, with `left` bytes to come: the memory, and whether the string has ended.
unfoldable pub copy_up_to : Mem → (dest src left : ℕ) → Mem × Bool
copy_up_to m dest src zero = (m, false)
copy_up_to m dest src (suc left) =
    let m' = poke m dest (m src) in
    let rest = copy_up_to m' (dest + 1) (src + 1) left in if m' src == 0 then (m', true) else rest

-- `strncpy`; for a `count` of 0 the last write goes to the byte before `dest`.
unfoldable pub strncpy : Mem → (dest src count : ℕ) → Mem
strncpy m dest src count =
    let (m', ended) = copy_up_to m dest src count in
    if ended then m' else poke m' ((dest + sub32 count 1) % 2 ^ 32) 0

-- `strcat`
unfoldable pub strcat : ℕ → Mem → (dest src : ℕ) → Outcome Mem
strcat fuel m dest src = end_of fuel m dest >>= λ ptr. strcpy fuel m ptr src

-- `strcmp`
unfoldable pub strcmp : ℕ → Mem → (lhs rhs : ℕ) → Outcome ℕ
strcmp zero m lhs rhs = halt fault
strcmp (suc fuel) m lhs rhs =
    let rest = strcmp fuel m (lhs + 1) (rhs + 1) in
    if m lhs == m rhs && not (m lhs == 0) && not (m rhs == 0)
    then rest
    else ok (compare (m lhs) (m rhs))

-- `strchr`: the pointer moves on before it is returned, and before the end of the string is tested.
unfoldable pub strchr : ℕ → Mem → (ptr ch : ℕ) → Outcome (Option ℕ)
strchr zero m ptr ch = halt fault
strchr (suc fuel) m ptr ch =
    let rest = strchr fuel m (ptr + 1) ch in
    if to_int (m ptr) == ch then ok (some (ptr + 1)) else if m (ptr + 1) == 0 then ok none else rest

-- the loop of `strrchr` and `strrsep`: the last place so far of a byte that fits
unfoldable pub last_from : ℕ → Mem → (ℕ → Bool) → Option ℕ → ℕ → Outcome (Option ℕ)
last_from zero m fits last ptr = halt fault
last_from (suc fuel) m fits last ptr =
    let last' = if fits (m ptr) then some ptr else last in
    let rest = last_from fuel m fits last' (ptr + 1) in if m ptr == 0 then ok last' else rest

-- `strrchr` and `strrsep`
unfoldable pub strrchr : ℕ → Mem → (str ch : ℕ) → Outcome (Option ℕ)
strrchr fuel m str ch = last_from fuel m (λ c. to_int c == ch) none str

unfoldable pub strrsep : ℕ → Mem → ℕ → Outcome (Option ℕ)
strrsep fuel m str = last_from fuel m is_separator none str

-- `strsep`
unfoldable pub strsep : ℕ → Mem → ℕ → Outcome (Option ℕ)
strsep zero m ptr = halt fault
strsep (suc fuel) m ptr =
    let rest = strsep fuel m (ptr + 1) in
    if is_separator (m ptr) then ok (some ptr) else if m ptr == 0 then ok none else rest
