-- ===== src/Memory/Examples.antt =====
-- Four physical pages of which the first is reserved and the last taken, and a map of 16 kernel pages.
use yuios.Common.{
  ℕ, zero, suc, ◌+◌, ◌≤◌, ◌<◌, ◌≡◌, refl, inl, inr, true, List, [], ◌∷◌, arith, ok, halt, Halt,
  ◌>>=◌,
}
use yuios.Bitmap.{Bitmap}
use yuios.Bitmap.Access.{bit}
use yuios.Bitmap.Find.{Clear}
use yuios.Memory.{Memory, get_page, put_page, alloc_kpage, free_kpage, Ards, memory_init}
use yuios.Memory.Frames.{IsValid, get_page_last, put_page-get_page}
use yuios.Memory.Pages.{IsPageMap, free_kpage-alloc_kpage}
use yuios.Memory.Regions.{memory_init_lem}

abbrev frames : Memory
frames = record { memory_map = 1 ∷ 0 ∷ 0 ∷ 1 ∷ []; start_page = 1; total_pages = 4; free_pages = 2 }

frames-IsValid : IsValid frames
frames-IsValid = record {
  inside = omega arith;
  small = omega arith;
  reserved = (omega arith, omega arith);
  counted = refl;
}

abbrev one_left : Memory
one_left = record frames { memory_map = 1 ∷ 1 ∷ 0 ∷ 1 ∷ []; free_pages = 1 }

one_left-IsValid : IsValid one_left
one_left-IsValid = record {
  inside = omega arith;
  small = omega arith;
  reserved = (omega arith, omega arith);
  counted = refl;
}

get_page_last_example : (h : Halt) × (get_page one_left ≡ halt h)
get_page_last_example = get_page_last one_left one_left-IsValid (omega arith)

put_page-get_page_example : (get_page frames >>= λ (m', addr). put_page m' addr) ≡ ok frames
put_page-get_page_example = put_page-get_page frames frames-IsValid (omega arith)

-- the pages from 256 on: the first three and the last eight are taken
abbrev kernel_map : Bitmap
kernel_map = record { bits = 0x07 ∷ 0xff ∷ []; length = 2; offset = 256 }

kernel_map-IsPageMap : IsPageMap kernel_map
kernel_map-IsPageMap = (
  record { inside = omega arith; bytes = (omega arith, (omega arith, tt)); small = omega arith },
  omega arith,
)

three_taken : (j : ℕ) → 0 ≤ j → j < 0 + 3 → bit kernel_map j ≡ true
three_taken zero lo hi = refl
three_taken (suc zero) lo hi = refl
three_taken (suc (suc zero)) lo hi = refl
three_taken (suc (suc (suc j))) lo hi = absurd (omega arith)

two_clear : Clear kernel_map 4 2
two_clear (suc (suc (suc (suc zero)))) lo hi = refl
two_clear (suc (suc (suc (suc (suc zero))))) lo hi = refl
two_clear (suc (suc (suc (suc (suc (suc j)))))) lo hi = absurd (omega arith)
two_clear zero lo hi = absurd (omega arith)
two_clear (suc zero) lo hi = absurd (omega arith)
two_clear (suc (suc zero)) lo hi = absurd (omega arith)
two_clear (suc (suc (suc zero))) lo hi = absurd (omega arith)

free_kpage-alloc_kpage_example :
    (m' : Bitmap) × ((alloc_kpage kernel_map 2 >>= λ (m₁, vaddr). free_kpage m₁ vaddr 2) ≡ ok m')
    × IsPageMap m'
    × ((j : ℕ) → bit m' j ≡ bit kernel_map j)
free_kpage-alloc_kpage_example =
    free_kpage-alloc_kpage kernel_map 4 2 kernel_map-IsPageMap (omega arith) (omega arith) two_clear

-- 639 KiB of low memory, a hole, and 32 MiB from 1 MiB on
abbrev regions : List Ards
regions =
    record { base = 0; size = 0x9fc00; type = 1 }
    ∷ record { base = 0xf0000; size = 0xffff0000; type = 2 }
    ∷ record { base = 0x100000; size = 0x2000000; type = 1 }
    ∷ []

memory_init_lem_example : memory_init regions ≡ ok (8192 + 256, 8192)
memory_init_lem_example =
    memory_init_lem regions 8192 (omega arith)
      ((omega arith, omega arith), ((omega arith, omega arith), ((omega arith, omega arith), tt)))
      (inr (inr (inl (refl, refl, refl))))
      ((λ t. inl (omega arith)), ((λ t. absurd (omega (arith, t))), ((λ t. inr (refl, refl)), tt)))
      (omega arith)
