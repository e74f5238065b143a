-- ===== src/Memory.antt =====
-- src/kernel/memory.c: physical pages, which are counted in an array of references, and kernel pages,
-- which are bits of a bitmap. A call that the sources end by `panic` or by an assertion halts.
mod Examples
pub mod Frames
pub mod Pages
pub mod Regions
pub mod Brk
use yuios.Common.{
  ℕ, zero, suc, ◌+◌, ◌-◌, ◌*◌, ◌/◌, ◌%◌, ◌^◌, false, ◌&&◌, Option, none, some, List, [], ◌∷◌, map,
  ltb, leb, ◌==◌, if◌then◌else◌, get_or, set, panic, Outcome, ok, halt, ◌>>=◌, ◌>>◌, assert, add32,
  sub32, eof,
}
use yuios.Bitmap
use yuios.Bitmap.{Bitmap}

-- the static variables of the physical allocator; `memory_map` is the array behind the pointer
pub record Memory : Type 0 where
  pub memory_map : List ℕ
  pub start_page : ℕ
  pub total_pages : ℕ
  pub free_pages : ℕ

-- `IDX` and `PAGE`
abbrev pub idx : ℕ → ℕ
idx addr = addr / 4096

abbrev pub page : ℕ → ℕ
page i = i * 4096 % 2 ^ 32

-- The loop of `get_page`: `left` pages are to be tried, from `i` on.
unfoldable pub free_frame : List ℕ → (left i : ℕ) → Option ℕ
free_frame memory_map zero i = none
free_frame memory_map (suc left) i =
    let rest = free_frame memory_map left (i + 1) in
    if get_or memory_map i 0 == 0 then some i else rest

-- `get_page`: the address of the page
unfoldable pub get_page : Memory → Outcome (Memory × ℕ)
get_page m = elim (free_frame m.memory_map (m.total_pages - m.start_page) m.start_page) [
  | none ↦ halt panic
  | some i ↦ assert (ltb 0 (sub32 m.free_pages 1)) >>= λ _.
      ok (record m { memory_map = set m.memory_map i 1; free_pages = sub32 m.free_pages 1 }, page i)
]

-- `put_page`
unfoldable pub put_page : Memory → ℕ → Outcome Memory
put_page m addr = do
  assert (addr % 4096 == 0)
  let i = idx addr
  assert (leb m.start_page i && ltb i m.total_pages)
  assert (leb 1 (get_or m.memory_map i 0))
  let refs = get_or m.memory_map i 0 - 1
  let free = if refs == 0 then add32 m.free_pages 1 else m.free_pages
  assert (ltb 0 free && ltb free m.total_pages)
  ok (record m { memory_map = set m.memory_map i refs; free_pages = free })

-- `scan_page`
unfoldable pub scan_page : Bitmap → ℕ → Outcome (Bitmap × ℕ)
scan_page map count = do
  assert (ltb 0 count)
  (map', index) ← Bitmap.scan map count
  if index == eof then halt panic else ok (map', page index)

-- The loop of `reset_page`: `left` pages are to be freed, from `index` on.
unfoldable pub reset_pages : Bitmap → (left index : ℕ) → Outcome Bitmap
reset_pages map zero index = ok map
reset_pages map (suc left) index = do
  taken ← Bitmap.test map index
  assert taken
  map' ← Bitmap.set_bit map index false
  reset_pages map' left (add32 index 1)

-- `reset_page`
unfoldable pub reset_page : Bitmap → (addr count : ℕ) → Outcome Bitmap
reset_page map addr count = do
  assert (addr % 4096 == 0)
  assert (ltb 0 count)
  reset_pages map count (idx addr)

-- `alloc_kpage` and `free_kpage`, over the kernel's bitmap
unfoldable pub alloc_kpage : Bitmap → ℕ → Outcome (Bitmap × ℕ)
alloc_kpage map count = do assert (ltb 0 count); scan_page map count

unfoldable pub free_kpage : Bitmap → (vaddr count : ℕ) → Outcome Bitmap
free_kpage map vaddr count = do
  assert (vaddr % 4096 == 0)
  assert (ltb 0 count)
  reset_page map vaddr count

-- `ards_t`, a region of memory that the loader reports
pub record Ards : Type 0 where
  pub base : ℕ
  pub size : ℕ
  pub type : ℕ

-- The loop of `memory_init` over the regions, which leaves `memory_base` and `memory_size`. The
-- comparison is of the 64-bit size, and what is kept are its lower 32 bits.
unfoldable pub find_region : List Ards → (memory_base memory_size : ℕ) → ℕ × ℕ
find_region [] base size = (base, size)
find_region (r ∷ rs) base size =
    let here = r.type == 1 && ltb size r.size in
    find_region rs (if here then r.base % 2 ^ 32 else base) (if here then r.size % 2 ^ 32 else size)

-- `memory_init`, without the reading of the loader's tables: the pages in all and the free ones
unfoldable pub memory_init : List Ards → Outcome (ℕ × ℕ)
memory_init regions = do
  let (base, size) = find_region regions 0 0
  assert (base == 0x100000)
  assert (size % 4096 == 0)
  if ltb size 0x1000000 then halt panic else ok (add32 (idx size) (idx 0x100000), idx size)

-- The loop of `sys_brk`: the pages that are unlinked, `left` at most, from `page` on
unfoldable pub unlinked : (left page old_brk : ℕ) → List ℕ
unlinked zero page old_brk = []
unlinked (suc left) page old_brk =
    let rest = unlinked left (add32 page 4096) old_brk in
    if ltb page old_brk then page ∷ rest else []

-- `sys_brk` of a user task with program end `end` and break `brk`: the new break, what is returned (`eof` is -1), and the pages that are unlinked
unfoldable pub sys_brk : (free_pages end brk addr : ℕ) → Outcome (ℕ × ℕ × List ℕ)
sys_brk free_pages end brk addr = do
  assert (addr % 4096 == 0)
  assert (leb end addr && leb addr 0x8000000)
  if ltb addr brk
      then ok (addr, 0, unlinked (idx 0x8000000) addr brk)
      else if ltb free_pages (idx (sub32 addr brk))
      then ok (brk, eof, [])
      else ok (addr, 0, [])
