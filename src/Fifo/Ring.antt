-- ===== src/Fifo/Ring.antt =====
-- src/lib/fifo.c: the ring as the list of the bytes that it holds.
use native.Mathlib.Nat.{mod-eq_of_lt, mod-eq-sub-mod}
use native.Mathlib.Decide.{dec_lt}
use mathlib.Core.Path.{ap₂}
use yuios.Common.{
  ℕ, zero, suc, ◌+◌, ◌-◌, ◌^◌, ◌≤◌, ◌<◌, ◌≡◌, ◌⊎◌, refl, ap, List, [], ◌∷◌, ◌++◌, arith, length,
  length-append, get_or, set, get_or-set_self, get_or-set_ne, if◌then◌else◌, ltb, leb,
}
use yuios.Fifo.{Fifo, next}

-- The indices lie in the ring, the ring in the memory, and no sum of two indices wraps.
pub record IsValid (f : Fifo) : Type 0 where
  pub storage : f.length ≤ length f.buf
  pub small : f.length < 2 ^ 31
  pub head_in : f.head < f.length
  pub tail_in : f.tail < f.length

-- `n` bytes of a memory, from index `i` on
abbrev pub span : List ℕ → ℕ → ℕ → List ℕ
span buf i zero = []
span buf i (suc n) = get_or buf i 0 ∷ span buf (i + 1) n

-- the bytes from `tail` to `head`, oldest first: one stretch, or two that meet at the ends
abbrev pub between : List ℕ → (len tail head : ℕ) → List ℕ
between buf len tail head =
    if leb tail head
    then span buf tail (head - tail)
    else span buf tail (len - tail) ++ span buf 0 head

abbrev pub contents : Fifo → List ℕ
contents f = between f.buf f.length f.tail f.head

length-span : (buf : List ℕ) (i n : ℕ) → length (span buf i n) ≡ n
length-span buf i zero = refl
length-span buf i (suc n) = ap suc (length-span buf (i + 1) n)

-- A stretch taken apart at its front and at its back.
pub span-front :
    (buf : List ℕ) (i n : ℕ) → 0 < n → span buf i n ≡ get_or buf i 0 ∷ span buf (i + 1) (n - 1)
span-front buf i zero h = absurd (omega arith)
span-front buf i (suc n) h = ap (λ k. get_or buf i 0 ∷ span buf (i + 1) k) (omega arith)

pub span-back :
    (buf : List ℕ) (i n : ℕ) → span buf i (n + 1) ≡ span buf i n ++ (get_or buf (i + n) 0 ∷ [])
span-back buf i zero = let e : i ≡ i + 0 = omega arith in ap (λ j. get_or buf j 0 ∷ []) e
span-back buf i (suc n) =
    let e : suc n + 1 ≡ suc (n + 1) = omega arith in
    let at : i + 1 + n ≡ i + suc n = omega arith in rw (e, span-back buf (i + 1) n, at) refl

-- A write outside a stretch leaves it alone.
pub span-set_outside :
    (buf : List ℕ) (k x i n : ℕ) → ((k < i) ⊎ (i + n ≤ k)) → span (set buf k x) i n ≡ span buf i n
span-set_outside buf k x i zero h = refl
span-set_outside buf k x i (suc n) h =
    ap₂ ◌∷◌ (get_or-set_ne buf k i x 0 (omega arith))
      (span-set_outside buf k x (i + 1) n (omega arith))

-- A write just behind a stretch extends it.
pub span-set_end :
    (buf : List ℕ) (k x i n m : ℕ)
    → k < length buf
    → k ≡ i + n
    → m ≡ n + 1
    → span (set buf k x) i m ≡ span buf i n ++ (x ∷ [])
span-set_end buf k x i n m room e f = rw (
  f,
  span-back (set buf k x) i n,
  ← e,
  get_or-set_self buf k x 0 room,
  span-set_outside buf k x i n (omega arith),
)

module _ {f : Fifo} (valid : IsValid f) where
  -- One step round the ring, without a remainder.
  pub next_cases : (p : ℕ) → p < f.length → next f p ≡ (if ltb (p + 1) f.length then p + 1 else 0)
  next_cases p h = elim (dec_lt (p + 1) f.length) [
    | yes q ↦ ground (arith, mod-eq_of_lt q, valid.small)
    | no q ↦
        let e : p + 1 ≡ f.length = omega arith in
        ground (
          arith,
          valid.small,
          mod-eq-sub-mod {n = p + 1} {m = f.length} (omega arith),
          mod-eq_of_lt {n = 0} {m = f.length} (omega arith),
        )
  ]

  pub next_in : (p : ℕ) → p < f.length → next f p < f.length
  next_in p h = ground (arith, next_cases p h)

  -- how many bytes the ring holds
  pub length-contents :
      length (contents f)
      ≡ (if leb f.tail f.head then f.head - f.tail else f.head + f.length - f.tail)
  length-contents = ground (
    arith,
    valid.tail_in,
    length-span f.buf f.tail (f.head - f.tail),
    length-span f.buf f.tail (f.length - f.tail),
    length-span f.buf 0 f.head,
    length-append (span f.buf f.tail (f.length - f.tail)) (span f.buf 0 f.head),
  )
