-- ===== src/Paging/Tables.antt =====
-- src/kernel/memory.c: the frames that are named, and the page table that `get_pte` makes.
use yuios.Common.{
  ℕ, ◌<◌, ◌≤◌, ◌≡◌, refl, sym, ap, ◌∙◌, ◌≢◌, ◌⊎◌, inl, inr, true, none, some, arith, Option-cases,
  ==_refl, ==_false, equal_or_not, get_or, set, get_or-set_self, get_or-set_ne, ok, ◌>>=◌, update,
  update_self, update_other,
}
use mathlib.Core.Path.{subst}
use yuios.Memory.{Memory, idx, page, get_page}
use yuios.Memory.Frames.{IsValid, taken, get_page_lem}
use yuios.Paging.{Paging, didx, get_pte}

-- The frames are counted, every frame that holds a page or a page table has a reference, and a table that is not
-- there has no entries.
pub record IsMapped (p : Paging) : Type 0 where
  pub valid : IsValid p.memory
  pub counted : (d t f : ℕ) → p.pte d t ≡ some f → 1 ≤ get_or p.memory.memory_map f 0
  pub tables : (d f : ℕ) → p.pde d ≡ some f → 1 ≤ get_or p.memory.memory_map f 0
  pub absent : (d : ℕ) → p.pde d ≡ none → (t : ℕ) → p.pte d t ≡ none

pub none≢some : {f : ℕ} → none ≡ some f → ⊥
none≢some h = cc

-- a frame that is given out, and its number
pub frame_lem :
    (m : Memory)
    → IsValid m
    → 1 < m.free_pages
    → (k : ℕ) × ((get_page m ≡ ok (taken m k, page k))
        × (idx (page k) ≡ k)
        × IsValid (taken m k)
        × (get_or m.memory_map k 0 ≡ 0)
        × ((f : ℕ) → 1 ≤ get_or m.memory_map f 0 → 1 ≤ get_or (set m.memory_map k 1) f 0)
        × (1 ≤ get_or (set m.memory_map k 1) k 0))
frame_lem m v more =
    let (k, first, run, valid) = get_page_lem m v more in
    (
      k,
      (
        run,
        omega (arith, v.small, first.range.1),
        valid,
        first.free,
        λ f h. elim (equal_or_not k f) [
          | inl e ↦ absurd (
              let z = first.free in
              let h' : get_or m.memory_map f 0 ≡ 0 =
                ap (λ i. get_or m.memory_map i 0) (sym e) ∙ z in
              omega arith)
          | inr e ↦ rw (get_or-set_ne m.memory_map k f 1 0 e) h
        ],
        rw (get_or-set_self m.memory_map k 1 0 (omega (arith, v.inside, first.range.1)))
            (omega arith),
      ),
    )

-- no page and no page table has the frame
abbrev pub Unnamed : Paging → ℕ → Type 0
Unnamed p f = ((d t : ℕ) → p.pte d t ≢ some f) × ((d : ℕ) → p.pde d ≢ some f)

pub free_frame :
    (p : Paging) (k : ℕ) → IsMapped p → get_or p.memory.memory_map k 0 ≡ 0 → Unnamed p k
free_frame p k i free = (
  λ d t h. let c = i.counted d t k h in omega arith,
  λ d h. let c = i.tables d k h in omega arith,
)

-- The page tables stay, and one that is new is that of `vaddr`, in a frame that nothing had.
pub record Grown (p p' : Paging) (vaddr : ℕ) : Type 0 where
  pub kept : (d g : ℕ) → p.pde d ≡ some g → p'.pde d ≡ some g
  pub new : (d g : ℕ) → p'.pde d ≡ some g → (p.pde d ≡ some g) ⊎ ((didx vaddr ≡ d) × Unnamed p g)

pub Grown-refl : (p : Paging) (vaddr : ℕ) → Grown p p vaddr
Grown-refl p vaddr = record { kept = λ d g h. h; new = λ d g h. inl h }

-- the page table is there, with the entries that there were
pub table_lem :
    (p : Paging) (vaddr : ℕ)
    → IsMapped p
    → 2 < p.memory.free_pages
    → (p' : Paging) × ((get_pte p vaddr true ≡ ok p')
        × IsMapped p'
        × (1 < p'.memory.free_pages)
        × ((d t : ℕ) → p'.pte d t ≡ p.pte d t)
        × Grown p p' vaddr
        × (p'.pde (didx vaddr) ≢ none))
unfolding get_pte
table_lem p vaddr i more = elim (Option-cases (p.pde (didx vaddr))) [
  | inr (f, e) ↦
      (p, (rw e refl, i, omega arith, λ d t. refl, Grown-refl p vaddr, λ h. none≢some (sym h ∙ e)))
  | inl e ↦
      let (k, (run, number, valid, free, kept, own)) = frame_lem p.memory i.valid (omega arith) in
      let self = update_self p.pde (didx vaddr) (some (idx (page k))) in
      let other : (d : ℕ)
          → didx vaddr ≢ d
          → update p.pde (didx vaddr) (some (idx (page k))) d ≡ p.pde d =
        λ d ne. update_other p.pde (didx vaddr) (some (idx (page k))) d ne in
      let number_of : (d g : ℕ)
          → didx vaddr ≡ d
          → update p.pde (didx vaddr) (some (idx (page k))) d ≡ some g
          → k ≡ g =
        λ d g at h.
          let here : some (idx (page k)) ≡ some g =
            sym self ∙ ap (update p.pde (didx vaddr) (some (idx (page k)))) at ∙ h in
          sym number ∙ (let s : idx (page k) ≡ g = cc in s) in
      let same : (d t : ℕ) → update p.pte (didx vaddr) (λ t. none) d t ≡ p.pte d t = λ d t.
        elim (equal_or_not (didx vaddr) d) [
          | inl at ↦ rw (at, ==_refl d) (sym (i.absent d (ap p.pde (sym at) ∙ e) t))
          | inr at ↦ rw (==_false (didx vaddr) d at) refl
        ] in
      (
        record {
          memory = taken p.memory k;
          pde = update p.pde (didx vaddr) (some (idx (page k)));
          pte = update p.pte (didx vaddr) (λ t. none);
        },
        (
          rw (e, run, ◌>>=◌) refl,
          record {
            valid = valid;
            counted = λ d t f h. kept f (i.counted d t f (sym (same d t) ∙ h));
            tables = λ d g h. elim (equal_or_not (didx vaddr) d) [
              | inl at ↦ let e = number_of d g at h in rw (← e) own
              | inr at ↦ kept g (i.tables d g (sym (other d at) ∙ h))
            ];
            absent = λ d h t. elim (equal_or_not (didx vaddr) d) [
              | inl at ↦ absurd (
                  none≢some (
                    sym h
                    ∙ ap (update p.pde (didx vaddr) (some (idx (page k)))) (sym at)
                    ∙ update_self p.pde (didx vaddr) (some (idx (page k)))))
              | inr at ↦
                  same d t
                  ∙ i.absent d
                      (sym (update_other p.pde (didx vaddr) (some (idx (page k))) d at) ∙ h) t
            ];
          },
          omega arith,
          same,
          record {
            kept = λ d g h. elim (equal_or_not (didx vaddr) d) [
              | inl at ↦ absurd (none≢some (sym e ∙ ap p.pde at ∙ h))
              | inr at ↦ other d at ∙ h
            ];
            new = λ d g h. elim (equal_or_not (didx vaddr) d) [
              | inl at ↦ inr (at, subst (Unnamed p) (number_of d g at h) (free_frame p k i free))
              | inr at ↦ inl (sym (other d at) ∙ h)
            ];
          },
          λ h. none≢some (sym h ∙ self),
        ),
      )
]
