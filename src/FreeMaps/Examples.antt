-- ===== src/FreeMaps/Examples.antt =====
-- A device whose eight maps are full and one of its blocks, and a device with free blocks.
use yuios.Common.{
  ℕ, ◌<◌, ◌≤◌, ◌≡◌, refl, ◌⊎◌, inr, false, Option, none, some, suc, ap, ◌∷◌, length-replicate,
  All-replicate, IsByte, List, arith, ◌==◌, if◌then◌else◌, replicate, set, ok, halt, assertion, eof,
}
use yuios.Bitmap.{Bitmap}
use yuios.Bitmap.Access.{bit}
use yuios.FreeMaps.{Super, balloc, bfree}
use yuios.FreeMaps.Blocks.{over, IsLoaded, IsFull, Allocated, balloc-Ends}
use yuios.FreeMaps.Full.{held_in, full_map, full_super, full_super-IsLoaded}
use yuios.FreeMaps.Freeing.{bfree_between, bfree_lem}

-- seven blocks are taken
abbrev free_map : List ℕ
free_map = 127 ∷ replicate 1023 0

abbrev free_super : Super
free_super = record full_super { zmaps = replicate 8 (some free_map) }

free_super-IsLoaded : IsLoaded free_super
free_super-IsLoaded = record {
  maps = λ i h. (
    free_map,
    held_in 8 i (some free_map) none h,
    (
      ap suc (length-replicate {A = ℕ} 1023 0),
      (omega arith, All-replicate IsByte 1023 0 (omega arith)),
    ),
  );
  first = (omega arith, omega arith);
  zones = omega arith;
}

balloc-Ends_example :
    ((maps : List (Option (List ℕ))) × (block : ℕ) × ((balloc free_super
          ≡ ok (record free_super { zmaps = maps }, block))
        × Allocated 19 (replicate 8 (some free_map)) maps block
        × (block < 60000)))
    ⊎ (((balloc free_super ≡ ok (free_super, eof))
          × ((k : ℕ) → k < 8 → IsFull 19 (replicate 8 (some free_map)) k))
        ⊎ ((balloc free_super ≡ halt assertion)
            × (block : ℕ) × (maps : List (Option (List ℕ))) × (Allocated 19
                  (replicate 8 (some free_map))
                  maps
                  block
                × (60000 ≤ block))))
balloc-Ends_example = balloc-Ends free_super free_super-IsLoaded

bfree_between_example : bfree full_super 8200 ≡ halt assertion
bfree_between_example =
    bfree_between full_super 1 8200 full_super-IsLoaded (omega arith) (omega arith) (omega arith)
      (omega arith) (omega arith) (omega arith)

bfree_lem_example :
    (m : Bitmap) × ((bfree full_super 8311
        ≡ ok (record full_super { zmaps = set (replicate 8 (some full_map)) 1 (some m.bits) }))
      × ((q : ℕ) → bit m q ≡ (if 100 == q then false else bit (over 1024 19 full_map 1) q)))
bfree_lem_example =
    bfree_lem full_super 1 100 full_map full_super-IsLoaded (omega arith) refl (inr (omega arith))
      (omega arith) (omega arith) (omega arith) refl
