-- ===== src/Paging/Examples.antt =====
-- Four free pages and an empty page directory.
use yuios.Common.{ℕ, ◌≡◌, refl, none, [], ◌∷◌, arith, ok}
use yuios.Memory.{Memory}
use yuios.Memory.Frames.{IsValid}
use yuios.Paging.{Paging, link_page}
use yuios.Paging.Tables.{IsMapped}
use yuios.Paging.Link.{Linked, link_page-Linked}

abbrev five_pages : Memory
five_pages = record {
  memory_map = 1 ∷ 0 ∷ 0 ∷ 0 ∷ 0 ∷ [];
  start_page = 1;
  total_pages = 5;
  free_pages = 4;
}

abbrev empty_tables : Paging
empty_tables = record { memory = five_pages; pde = λ d. none; pte = λ d t. none }

five_pages-IsValid : IsValid five_pages
five_pages-IsValid = record {
  inside = omega arith;
  small = omega arith;
  reserved = (omega arith, omega arith);
  counted = refl;
}

empty_tables-IsMapped : IsMapped empty_tables
empty_tables-IsMapped = record {
  valid = five_pages-IsValid;
  counted = λ d t f h. absurd cc;
  tables = λ d f h. absurd cc;
  absent = λ d h t. refl;
}

link_page-Linked_example :
    (p' : Paging) × (f : ℕ) × ((link_page empty_tables 0x8000000 ≡ ok p')
      × Linked empty_tables p' 0x8000000 f)
link_page-Linked_example =
    link_page-Linked empty_tables 0x8000000 empty_tables-IsMapped (omega arith) refl
