-- ===== src/Memory/Brk.antt =====
-- src/kernel/memory.c: `sys_brk` moves the end of a task's heap.
use yuios.Common.{
  ℕ, zero, suc, ◌+◌, ◌-◌, ◌*◌, ◌%◌, ◌^◌, ◌≤◌, ◌<◌, ◌≡◌, ap, ◌∙◌, inl, inr, none, some, List, [],
  arith, ltb, if◌then◌else◌, le→leb, Bool-cases, get_elem?, Outcome, ok, add32, sub32, eof,
}
use yuios.Memory.{idx, sys_brk, unlinked}

-- the pages that a move from `brk` down to `addr` unlinks
unlinked_at :
    (left p old i : ℕ)
    → old ≤ 2 ^ 31
    → old ≤ p + left * 4096
    → get_elem? (unlinked left p old) i
      ≡ (if ltb (p + i * 4096) old then some (p + i * 4096) else none)
unfolding unlinked
unlinked_at zero p old i small room = ground arith
unlinked_at (suc left) p old zero small room = ground arith
unlinked_at (suc left) p old (suc i) small room = elim (Bool-cases (ltb p old)) [
  | inl e ↦
      let step : add32 p 4096 ≡ p + 4096 = ground arith in
      rw (e, step)
        (unlinked_at left (p + 4096) old i small (omega arith)
          ∙ ap (λ q. if ltb q old then some q else none) (omega arith))
  | inr e ↦ rw e (ground arith)
]

-- How a call of `sys_brk` ends.
pub data Moved (free brk addr : ℕ) : Outcome (ℕ × ℕ × List ℕ) → Type 0 where
  shrunk :
      (pages : List ℕ)
      → addr < brk
      → ((i : ℕ)
          → get_elem? pages i
            ≡ (if ltb (addr + i * 4096) brk then some (addr + i * 4096) else none))
      → Moved free brk addr (ok (addr, 0, pages))
  grown : brk ≤ addr → idx (addr - brk) ≤ free → Moved free brk addr (ok (addr, 0, []))
  refused : brk ≤ addr → free < idx (addr - brk) → Moved free brk addr (ok (brk, eof, []))

-- Given a page address from the end of the program up to the mapped area, and a break within that
-- area, `sys_brk` does not halt. Below the break it unlinks exactly the pages from the new break to the
-- old one, in order; above it moves the break if there are free pages enough, and else leaves it.
pub sys_brk-Moved :
    (free end brk addr : ℕ)
    → addr % 4096 ≡ 0
    → end ≤ addr
    → addr ≤ 0x8000000
    → brk ≤ 0x8000000
    → Moved free brk addr (sys_brk free end brk addr)
unfolding sys_brk
sys_brk-Moved free end brk addr aligned lo hi top =
    rw (aligned, le→leb end addr lo, le→leb addr 0x8000000 hi)
      (elim (Bool-cases (ltb addr brk)) [
        | inl down ↦ rw down (
            shrunk _ (ground arith)
              λ i. unlinked_at (idx 0x8000000) addr brk i (omega arith) (omega arith))
        | inr up ↦
            let gap : sub32 addr brk ≡ addr - brk = ground arith in
            rw (up, gap)
              (elim (Bool-cases (ltb free (idx (addr - brk)))) [
                | inl short ↦ rw short (refused (ground arith) (ground arith))
                | inr room ↦ rw room (grown (ground arith) (ground arith))
              ])
      ])
