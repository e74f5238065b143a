-- ===== src/Bitmap/Byte.antt =====
-- The bits of a byte under the two writes of `bitmap_set`, checked at every byte and bit.
use yuios.Common.{
  ℕ, ◌<◌, ◌≡◌, refl, Bool, true, false, ltb, ◌==◌, if◌then◌else◌, check_below, check_below_lem,
  ltb→lt, arith, IsByte,
}
use yuios.Bitmap.{bit_of, put_bit}

same : Bool → Bool → Bool
same true b = b
same false true = false
same false false = true

same→eq : (a b : Bool) → same a b ≡ true → a ≡ b
unfolding same
same→eq true b h = ground arith
same→eq false true h = ground arith
same→eq false false h = refl

-- the law of a write at bit `b` and a read at bit `c`, as a test
law : Bool → ℕ → ℕ → ℕ → Bool
unfolding same
law v x b c = same (bit_of (put_bit x b v) c) (if b == c then v else bit_of x c)

table : Bool → Bool
unfolding law
table v = check_below 256 λ x. check_below 8 λ b. check_below 8 λ c. law v x b c

table-true : (v : Bool) → table v ≡ true
unfolding table check_below
table-true true = refl
table-true false = refl

-- Reading bit `c` after writing bit `b` of a byte.
pub bit_of-put_bit :
    (v : Bool) (x b c : ℕ)
    → IsByte x
    → b < 8
    → c < 8
    → bit_of (put_bit x b v) c ≡ (if b == c then v else bit_of x c)
unfolding table law
bit_of-put_bit v x b c hx hb hc = same→eq _ _ (check_below_lem 8 (law v x b) c at_bit hc)
  where
    at_byte : check_below 8 (λ b'. check_below 8 (law v x b')) ≡ true
    at_byte =
        check_below_lem 256 (λ x'. check_below 8 (λ b'. check_below 8 (law v x' b'))) x
          (table-true v) hx

    at_bit : check_below 8 (law v x b) ≡ true
    at_bit = check_below_lem 8 (λ b'. check_below 8 (law v x b')) b at_byte hb

range : Bool → Bool
range v = check_below 256 λ x. check_below 8 λ b. ltb (put_bit x b v) 256

range-true : (v : Bool) → range v ≡ true
unfolding range check_below
range-true true = refl
range-true false = refl

pub put_bit-IsByte : (v : Bool) (x b : ℕ) → IsByte x → b < 8 → IsByte (put_bit x b v)
unfolding range
put_bit-IsByte v x b hx hb =
    ltb→lt _ _ (check_below_lem 8 (λ b'. ltb (put_bit x b' v) 256) b at_byte hb)
  where
    at_byte : check_below 8 (λ b'. ltb (put_bit x b' v) 256) ≡ true
    at_byte =
        check_below_lem 256 (λ x'. check_below 8 (λ b'. ltb (put_bit x' b' v) 256)) x (range-true v)
          hx
