-- ===== src/Family/Tree.antt =====
-- src/kernel/task.c: the tasks are a tree, whose parents are alive.
use yuios.Common.{
  ℕ, ◌+◌, ◌<◌, ◌≤◌, ◌≡◌, refl, sym, ap, ◌∙◌, ◌≢◌, ◌⊎◌, inl, inr, Bool, true, false, Option, none,
  some, arith, ltb, ==_refl, ==_false, equal_or_not, Bool-cases, update, update_self, update_other,
}
use yuios.Scheduler.{died, state_eq}
use yuios.Family.{Proc, Table, nr_tasks}

abbrev pub is_dead : Proc → Bool
is_dead p = state_eq p.state died

-- Every task has a parent, which is alive, and no task but that of slot 0 is its own ancestor: the ranks
-- go down from a task to its parent.
pub record Tree (t : Table) : Type 0 where
  pub rank : ℕ → ℕ
  pub bounded : (i : ℕ) → nr_tasks ≤ i → t i ≡ none
  pub parents :
      (i : ℕ) (p : Proc) → t i ≡ some p → (q : Proc) × ((t p.ppid ≡ some q) × (is_dead q ≡ false))
  pub lower : (i : ℕ) (p : Proc) → t i ≡ some p → i ≢ 0 → rank p.ppid < rank i

pub none≢some : {p : Proc} → none ≡ some p → ⊥
none≢some h = cc

pub some_injective : {p q : Proc} → some p ≡ some q → p ≡ q
some_injective h = cc

-- an entry of a changed table
pub update_entry :
    (t : Table) (i : ℕ) (v : Option Proc) (j : ℕ) (p : Proc)
    → update t i v j ≡ some p
    → ((i ≡ j) × (v ≡ some p)) ⊎ ((i ≢ j) × (t j ≡ some p))
update_entry t i v j p h = elim (equal_or_not i j) [
  | inl e ↦ inl (e, sym (ap (update t i v) (sym e) ∙ update_self t i v) ∙ h)
  | inr e ↦ inr (e, sym (update_other t i v j e) ∙ h)
]

used_below : {t : Table} (tree : Tree t) (i : ℕ) (p : Proc) → t i ≡ some p → i < nr_tasks
used_below tree i p h = elim (Bool-cases (ltb i nr_tasks)) [
  | inl e ↦ ground arith
  | inr e ↦ absurd (none≢some (sym (tree.bounded i (ground arith)) ∙ h))
]

-- A task may change as long as it keeps its parent and stays alive.
pub changed-Tree :
    (t : Table) (k : ℕ) (p p' : Proc)
    → Tree t
    → t k ≡ some p
    → p'.ppid ≡ p.ppid
    → is_dead p' ≡ false
    → Tree (update t k (some p'))
changed-Tree t k p p' tree at same lives = record {
  rank = tree.rank;
  bounded = λ i h.
      let far : k ≢ i = let b = used_below tree k p at in omega arith in
      update_other t k (some p') i far ∙ tree.bounded i h;
  parents = λ i c h.
      let (d, (held, same_parent)) : (d : Proc) × ((t i ≡ some d) × (d.ppid ≡ c.ppid)) =
        elim (update_entry t k (some p') i c h) [
          | inl (e, is) ↦ (p, (ap t (sym e) ∙ at, sym same ∙ ap (λ x. x.ppid) (some_injective is)))
          | inr (e, is) ↦ (c, (is, refl))
        ] in
      let (q, (parent, alive)) = tree.parents i d held in
      elim (equal_or_not k c.ppid) [
        | inl e ↦ (p', (ap (update t k (some p')) (sym e) ∙ update_self t k (some p'), lives))
        | inr e ↦
            (q, (update_other t k (some p') c.ppid e ∙ ap t (sym same_parent) ∙ parent, alive))
      ];
  lower = λ i c h ne. elim (update_entry t k (some p') i c h) [
    | inl (e, is) ↦
        let low = tree.lower i p (ap t (sym e) ∙ at) ne in
        let e' : c.ppid ≡ p.ppid = ap (λ x. x.ppid) (sym (some_injective is)) ∙ same in rw e' low
    | inr (e, is) ↦ tree.lower i c is ne
  ];
}

-- A dead task can be taken out.
pub removed-Tree :
    (t : Table) (k : ℕ) (p : Proc)
    → Tree t
    → t k ≡ some p
    → is_dead p ≡ true
    → Tree (update t k none)
removed-Tree t k p tree at dead_one = record {
  rank = tree.rank;
  bounded = λ i h. elim (equal_or_not k i) [
    | inl e ↦ ap (update t k none) (sym e) ∙ update_self t k none
    | inr e ↦ update_other t k none i e ∙ tree.bounded i h
  ];
  parents = λ i c h. elim (update_entry t k none i c h) [
    | inl (e, is) ↦ absurd (none≢some is)
    | inr (e, is) ↦
        let (q, (parent, alive)) = tree.parents i c is in
        (
          q,
          (
            elim (equal_or_not k c.ppid) [
              | inl e' ↦
                  let same = some_injective (sym (ap t (sym e') ∙ at) ∙ parent) in
                  let bad : true ≡ false = sym dead_one ∙ ap is_dead same ∙ alive in
                  absurd (ground arith)
              | inr e' ↦ update_other t k none c.ppid e' ∙ parent
            ],
            alive,
          ),
        )
  ];
  lower = λ i c h ne. elim (update_entry t k none i c h) [
    | inl (e, is) ↦ absurd (none≢some is)
    | inr (e, is) ↦ tree.lower i c is ne
  ];
}

-- A new child of a task that is alive fits in a free slot.
pub born-Tree :
    (t : Table) (me i : ℕ) (p child : Proc)
    → Tree t
    → t me ≡ some p
    → is_dead p ≡ false
    → t i ≡ none
    → i < nr_tasks
    → child.ppid ≡ me
    → Tree (update t i (some child))
born-Tree t me i p child tree at alive free small parent_is =
    let apart : i ≢ me = λ e. none≢some (sym free ∙ ap t e ∙ at) in
    let kept : (j : ℕ) (q : Proc) → t j ≡ some q → i ≢ j =
      λ j q h e. none≢some (sym free ∙ ap t e ∙ h) in
    record {
      rank = update tree.rank i (tree.rank me + 1);
      bounded = λ j h. update_other t i (some child) j (omega arith) ∙ tree.bounded j h;
      parents = λ j c h. elim (update_entry t i (some child) j c h) [
        | inl (e, is) ↦
            let e' : c.ppid ≡ me = ap (λ x. x.ppid) (sym (some_injective is)) ∙ parent_is in
            rw e' (p, (update_other t i (some child) me apart ∙ at, alive))
        | inr (e, is) ↦
            let (q, (parent, lives)) = tree.parents j c is in
            (q, (update_other t i (some child) c.ppid (kept c.ppid q parent) ∙ parent, lives))
      ];
      lower = λ j c h ne. elim (update_entry t i (some child) j c h) [
        | inl (e, is) ↦
            let e' : c.ppid ≡ me = ap (λ x. x.ppid) (sym (some_injective is)) ∙ parent_is in
            rw (e', ==_false i me apart, ← e, ==_refl i) (omega arith)
        | inr (e, is) ↦
            let (q, (parent, lives)) = tree.parents j c is in
            rw (==_false i c.ppid (kept c.ppid q parent), ==_false i j e) (tree.lower j c is ne)
      ];
    }
