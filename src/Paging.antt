-- ===== src/Paging.antt =====
-- src/kernel/memory.c: page tables, through which `link_page` and `unlink_page` map the pages of Memory. An entry is
-- the number of its frame, or `none` when it is not present; its other bits are left out, and so is the cache of
-- translations of the processor. The last entry of the directory maps the directory itself as a page table, which is
-- left out: in the code an address from 0xffc00000 on stands for an entry of the tables.
mod Examples
pub mod Tables
pub mod Link
use yuios.Common.{
  ℕ, ◌/◌, ◌%◌, ◌^◌, Bool, true, false, not, ◌||◌, Option, none, some, ◌==◌, if◌then◌else◌, Outcome,
  ok, ◌>>=◌, ◌>>◌, assert, update,
}
use yuios.Memory.{Memory, idx, page, get_page, put_page}

-- the frames, the page directory, and the page table of each directory entry
pub record Paging : Type 0 where
  pub memory : Memory
  pub pde : ℕ → Option ℕ
  pub pte : ℕ → ℕ → Option ℕ

-- `DIDX` and `TIDX`
abbrev pub didx : ℕ → ℕ
didx vaddr = vaddr / 2 ^ 22 % 1024

abbrev pub tidx : ℕ → ℕ
tidx vaddr = vaddr / 2 ^ 12 % 1024

abbrev pub present : Option ℕ → Bool
present none = false
present (some f) = true

-- `get_pte`, which makes the page table if there is none
unfoldable pub get_pte : Paging → (vaddr : ℕ) → (create : Bool) → Outcome Paging
get_pte p vaddr create = do
  let d = didx vaddr
  assert (create || present (p.pde d))
  if present (p.pde d)
      then ok p
      else (get_page p.memory >>= λ (m, addr). ok (record {
        memory = m;
        pde = update p.pde d (some (idx addr));
        pte = update p.pte d (λ t. none);
      }))

abbrev pub set_entry : Paging → (vaddr : ℕ) → Option ℕ → Paging
set_entry p vaddr f = record p {
  pte = update p.pte (didx vaddr) (update (p.pte (didx vaddr)) (tidx vaddr) f);
}

-- the end of `link_page`, once the page table is there
unfoldable pub fill_entry : Paging → (vaddr : ℕ) → Outcome Paging
fill_entry p vaddr =
    if present (p.pte (didx vaddr) (tidx vaddr))
    then ok p
    else (get_page p.memory >>= λ (m, addr).
        ok (set_entry (record p { memory = m }) vaddr (some (idx addr))))

-- `link_page`
unfoldable pub link_page : Paging → ℕ → Outcome Paging
link_page p vaddr = do assert (vaddr % 4096 == 0); p ← get_pte p vaddr true; fill_entry p vaddr

-- the end of `unlink_page`
unfoldable pub clear_entry : Paging → (vaddr : ℕ) → Option ℕ → Outcome Paging
clear_entry p vaddr none = ok p
clear_entry p vaddr (some f) =
    put_page p.memory (page f) >>= λ m. ok (set_entry (record p { memory = m }) vaddr none)

-- `unlink_page`
unfoldable pub unlink_page : Paging → ℕ → Outcome Paging
unlink_page p vaddr = do
  assert (vaddr % 4096 == 0)
  if not (present (p.pde (didx vaddr)))
      then ok p
      else (get_pte p vaddr false >>= λ p. clear_entry p vaddr (p.pte (didx vaddr) (tidx vaddr)))
