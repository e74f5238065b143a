-- ===== src/Paging/Link.antt =====
-- src/kernel/memory.c: `link_page` maps a page to a frame of its own.
use yuios.Common.{
  ℕ, ◌%◌, ◌<◌, ◌≤◌, ◌≡◌, refl, sym, ap, ◌∙◌, ◌≢◌, ◌⊎◌, inl, inr, Option, none, some, Option-cases,
  ==_refl, ==_false, equal_or_not, get_or, set, ok, ◌>>=◌,
}
use mathlib.Core.Path.{subst}
use yuios.Memory.{idx, page}
use yuios.Memory.Frames.{taken}
use yuios.Paging.{Paging, didx, tidx, set_entry, fill_entry, link_page}
use yuios.Paging.Tables.{IsMapped, Unnamed, free_frame, Grown, Grown-refl, frame_lem, table_lem}

entry_at :
    (p : Paging) (vaddr : ℕ) (v : Option ℕ)
    → (set_entry p vaddr v).pte (didx vaddr) (tidx vaddr) ≡ v
entry_at p vaddr v = rw (==_refl (didx vaddr), ==_refl (tidx vaddr)) refl

entry_off :
    (p : Paging) (vaddr : ℕ) (v : Option ℕ) (d t : ℕ)
    → ((didx vaddr ≢ d) ⊎ (tidx vaddr ≢ t))
    → (set_entry p vaddr v).pte d t ≡ p.pte d t
entry_off p vaddr v d t (inl e) = rw (==_false (didx vaddr) d e) refl
entry_off p vaddr v d t (inr e) = elim (equal_or_not (didx vaddr) d) [
  | inr e' ↦ rw (==_false (didx vaddr) d e') refl
  | inl e' ↦ rw (e', ==_refl d, ==_false (tidx vaddr) t e) refl
]

-- what `link_page` leaves, and the frame of the page
pub record Linked (p p' : Paging) (vaddr f : ℕ) : Type 0 where
  pub mapped : IsMapped p'
  pub there : p'.pte (didx vaddr) (tidx vaddr) ≡ some f
  pub others : (d t : ℕ) → ((didx vaddr ≢ d) ⊎ (tidx vaddr ≢ t)) → p'.pte d t ≡ p.pte d t
  pub tables : Grown p p' vaddr
  pub own :
      (p.pte (didx vaddr) (tidx vaddr) ≡ some f) ⊎ (Unnamed p f × ((d : ℕ) → p'.pde d ≢ some f))

fill_lem :
    (p : Paging) (vaddr : ℕ)
    → IsMapped p
    → 1 < p.memory.free_pages
    → p.pde (didx vaddr) ≢ none
    → (p' : Paging) × (f : ℕ) × ((fill_entry p vaddr ≡ ok p') × Linked p p' vaddr f)
unfolding fill_entry
fill_lem p vaddr i more table = elim (Option-cases (p.pte (didx vaddr) (tidx vaddr))) [
  | inr (f, e) ↦ (
    p,
    f,
    (
      rw e refl,
      record {
        mapped = i;
        there = e;
        others = λ d t ne. refl;
        tables = Grown-refl p vaddr;
        own = inl e;
      },
    ),
  )
  | inl e ↦
      let (k, (run, number, valid, fresh, kept, own)) = frame_lem p.memory i.valid more in
      let p₁ = record p { memory = taken p.memory k } in
      let p' = set_entry p₁ vaddr (some (idx (page k))) in
      let at = entry_at p₁ vaddr (some (idx (page k))) in
      let off = entry_off p₁ vaddr (some (idx (page k))) in
      let nothing : Unnamed p (idx (page k)) =
        subst (Unnamed p) (sym number) (free_frame p k i fresh) in
      let entries : (d t f : ℕ)
          → p'.pte d t ≡ some f
          → 1 ≤ get_or (set p.memory.memory_map k 1) f 0 =
        λ d t f h. elim (equal_or_not (didx vaddr) d) [
          | inr x ↦ kept f (i.counted d t f (sym (off d t (inl x)) ∙ h))
          | inl x ↦ elim (equal_or_not (tidx vaddr) t) [
            | inr y ↦ kept f (i.counted d t f (sym (off d t (inr y)) ∙ h))
            | inl y ↦
                let here : some (idx (page k)) ≡ some f =
                  sym at ∙ ap (λ a. p'.pte a (tidx vaddr)) x ∙ ap (p'.pte d) y ∙ h in
                let same : k ≡ f = sym number ∙ (let s : idx (page k) ≡ f = cc in s) in
                rw (← same) own
          ]
        ] in
      (
        p',
        idx (page k),
        (
          rw (e, run, ◌>>=◌) refl,
          record {
            mapped = record {
              valid = valid;
              counted = entries;
              tables = λ d g h. kept g (i.tables d g h);
              absent = λ d h t. off d t (inl (λ x. table (ap p.pde x ∙ h))) ∙ i.absent d h t;
            };
            there = at;
            others = off;
            tables = record { kept = λ d g h. h; new = λ d g h. inl h };
            own = inr (nothing, nothing.1);
          },
        ),
      )
]

-- With three free pages, `link_page` maps an aligned address to a frame: the one that it had, or one that no page and
-- no page table had before and no page table has after. Every other page is mapped as before, the page tables stay,
-- one that is new has a frame that nothing had, and every frame of a page or of a table is counted as taken.
pub link_page-Linked :
    (p : Paging) (vaddr : ℕ)
    → IsMapped p
    → 2 < p.memory.free_pages
    → vaddr % 4096 ≡ 0
    → (p' : Paging) × (f : ℕ) × ((link_page p vaddr ≡ ok p') × Linked p p' vaddr f)
unfolding link_page
link_page-Linked p vaddr i more aligned =
    let (p₁, (run, i₁, more₁, same, grown, table)) = table_lem p vaddr i more in
    let (p', f, (run', l)) = fill_lem p₁ vaddr i₁ more₁ table in
    let named_before : (g : ℕ) → Unnamed p₁ g → Unnamed p g =
      λ g nothing. (λ d t h. nothing.0 d t (same d t ∙ h), λ d h. nothing.1 d (grown.kept d g h)) in
    (
      p',
      f,
      (
        rw (aligned, run, ◌>>=◌) run',
        record {
          mapped = l.mapped;
          there = l.there;
          others = λ d t ne. l.others d t ne ∙ same d t;
          tables = record {
            kept = λ d g h. l.tables.kept d g (grown.kept d g h);
            new = λ d g h. elim (l.tables.new d g h) [
              | inl old ↦ grown.new d g old
              | inr (at, nothing) ↦ inr (at, named_before g nothing)
            ];
          };
          own = elim l.own [
            | inl e ↦ inl (sym (same (didx vaddr) (tidx vaddr)) ∙ e)
            | inr (nothing, apart) ↦ inr (named_before f nothing, apart)
          ];
        },
      ),
    )
