-- ===== src/FreeMaps/Full.antt =====
-- src/fs/bmap.c: a device all of whose blocks are taken.
use yuios.Common.{
  ◌/◌, ◌%◌, sym, ◌∙◌, true, check_below, check_below_lem, ℕ, zero, suc, ◌<◌, ◌≡◌, refl, none, some,
  List, arith, get_or, replicate, length-replicate, All-replicate, IsByte,
}
use mathlib.Core.Path.{subst}
use yuios.Bitmap.{bit_of}
use yuios.Bitmap.Access.{bit}
use yuios.FreeMaps.{Super}
use yuios.FreeMaps.Blocks.{over, IsFull, IsLoaded, some_injective}

pub held_in {ℓ} : {A : Type ℓ} (n i : ℕ) (a d : A) → i < n → get_or (replicate n a) i d ≡ a
held_in zero i a d h = absurd (omega arith)
held_in (suc n) zero a d h = refl
held_in (suc n) (suc i) a d h = held_in n i a d (omega arith)

abbrev pub full_map : List ℕ
full_map = replicate 1024 255

-- a device whose eight maps are full
abbrev pub full_super : Super
full_super = record {
  zones = 60000;
  inodes = 100;
  firstdatazone = 20;
  zmaps = replicate 8 (some full_map);
  imaps = replicate 8 (some full_map);
}

pub full_super-IsLoaded : IsLoaded full_super
full_super-IsLoaded = record {
  maps = λ i h. (
    full_map,
    held_in 8 i (some full_map) none h,
    (length-replicate {A = ℕ} 1024 255, All-replicate IsByte 1024 255 (omega arith)),
  );
  first = (omega arith, omega arith);
  zones = omega arith;
}

all_set : (p : ℕ) → p < 8192 → (i : ℕ) → bit (over 1024 19 full_map i) p ≡ true
unfolding check_below
all_set p h i =
    rw (held_in {A = ℕ} 1024 (p / 8) 255 0 (omega arith))
      (check_below_lem 8 (λ b. bit_of 255 b) (p % 8) refl (omega arith))

pub full_super-IsFull : (k : ℕ) → k < 8 → IsFull 19 full_super.zmaps k
full_super-IsFull k h buf held p inside =
    let same : full_map ≡ buf = some_injective (sym (held_in 8 k (some full_map) none h) ∙ held) in
    subst (λ b. bit (over 1024 19 b k) p ≡ true) same (all_set p inside k)
