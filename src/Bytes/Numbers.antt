-- ===== src/Bytes/Numbers.antt =====
-- src/lib/stdlib.c: `atoi` and `div_round_up`.
use yuios.Common.{
  ℕ, zero, suc, ◌+◌, ◌*◌, ◌/◌, ◌^◌, ◌<◌, ◌≤◌, ◌≡◌, ◌≢◌, refl, arith, ◌==◌, if◌then◌else◌, fault,
  Outcome, ok, halt, add32, sub32, mul32, ==_false,
}
use yuios.Bytes.{Mem, to_int}

-- the loop of `atoi`
unfoldable pub atoi_from : ℕ → Mem → (str result : ℕ) → Outcome ℕ
atoi_from zero m str result = halt fault
atoi_from (suc fuel) m str result =
    let rest = atoi_from fuel m (str + 1) (add32 (mul32 result 10) (sub32 (to_int (m str)) 48)) in
    if m str == 0 then ok result else rest

-- `atoi`; `sign` is a `bool`, so that it is 1 also where -1 is stored in it.
unfoldable pub atoi : ℕ → Mem → ℕ → Outcome ℕ
atoi fuel m str =
    if str == 0
    then ok 0
    else if m str == b'-'
    then atoi_from fuel m (str + 1) 0
    else atoi_from fuel m str 0

-- `div_round_up`
unfoldable pub div_round_up : ℕ → ℕ → ℕ
div_round_up num size = sub32 (add32 num size) 1 / size

-- A number behind a minus sign is read as if the sign were not there.
pub atoi_sign :
    (fuel : ℕ) (m : Mem) (str : ℕ)
    → str ≢ 0
    → m str ≡ b'-'
    → m (str + 1) ≢ b'-'
    → atoi fuel m str ≡ atoi fuel m (str + 1)
unfolding atoi
atoi_sign fuel m str real minus digit =
    rw
      (
        ==_false str 0 real,
        minus,
        ==_false (str + 1) 0 (omega arith),
        ==_false (m (str + 1)) b'-' digit,
      )
      refl

-- `div_round_up` to pages is the least number of pages that holds as many bytes.
pub div_round_up_lem :
    (num : ℕ)
    → num + 4096 < 2 ^ 32
    → (num ≤ div_round_up num 4096 * 4096) × (div_round_up num 4096 * 4096 < num + 4096)
unfolding div_round_up
div_round_up_lem num small = (omega arith, omega arith)
