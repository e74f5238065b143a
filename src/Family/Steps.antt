-- ===== src/Family/Steps.antt =====
-- src/kernel/task.c: `task_fork`, `task_exit` and `task_waitpid` keep the tree of the tasks.
use yuios.Common.{
  ℕ, zero, suc, ◌+◌, ◌<◌, ◌≤◌, ◌≡◌, refl, sym, ap, ◌∙◌, ◌≢◌, inl, inr, true, false, none, some,
  arith, ltb, ◌==◌, if◌then◌else◌, Bool-cases, Option-cases, OnOk, lt→ltb, update, update_other,
}
use yuios.Scheduler.{State, init, running, blocked, sleeping, ready, waiting, died, state_eq}
use yuios.Family.{Proc, Table, nr_tasks, is_current, free_slot, give_away}
use yuios.Family.Tree.{Tree, is_dead, none≢some, some_injective, update_entry}

-- the slot that `get_free_task` takes is free
pub free_slot_lem :
    (t : Table) (left i : ℕ) → OnOk (λ k. (t k ≡ none) × (k < i + left)) (free_slot t left i)
unfolding free_slot
free_slot_lem t zero i = tt
free_slot_lem t (suc left) i = elim (Option-cases (t i)) [
  | inl e ↦ rw e (e, omega arith)
  | inr (p, e) ↦ rw e (
      let rest = free_slot_lem t left (i + 1) in
      let n : i + 1 + left ≡ i + suc left = omega arith in rw (← n) rest)
]

running_alive : (s : State) → state_eq s running ≡ true → state_eq s died ≡ false
running_alive init h = refl
running_alive running h = refl
running_alive ready h = refl
running_alive blocked h = refl
running_alive sleeping h = refl
running_alive waiting h = refl
running_alive died h = absurd (ground arith)

pub current_alive : (p : Proc) → is_current p ≡ true → is_dead p ≡ false
current_alive p h = running_alive p.state (ground arith)

-- an entry once the children are given away
pub handed_is :
    (u : Table) (me parent x : ℕ) (q : Proc)
    → u x ≡ some q
    → x < nr_tasks
    → give_away u me parent x ≡ some (record q { ppid = if q.ppid == me then parent else q.ppid })
unfolding give_away
handed_is u me parent x q at small = elim (Bool-cases (q.ppid == me)) [
  | inl e ↦ rw (lt→ltb x nr_tasks small, at, e) refl
  | inr e ↦ rw (lt→ltb x nr_tasks small, at, e) refl
]

handed :
    (u : Table) (me parent x : ℕ) (q : Proc)
    → u x ≡ some q
    → x < nr_tasks
    → (q' : Proc) × ((give_away u me parent x ≡ some q')
        × (q'.state ≡ q.state)
        × (q'.ppid ≡ (if q.ppid == me then parent else q.ppid)))
handed u me parent x q at small = (
  record q { ppid = if q.ppid == me then parent else q.ppid },
  (handed_is u me parent x q at small, refl, refl),
)

-- where an entry comes from
origin :
    (u : Table) (me parent i : ℕ) (c : Proc)
    → ((j : ℕ) → nr_tasks ≤ j → u j ≡ none)
    → give_away u me parent i ≡ some c
    → (d : Proc) × ((u i ≡ some d)
        × (i < nr_tasks)
        × (c.ppid ≡ (if d.ppid == me then parent else d.ppid)))
unfolding give_away
origin u me parent i c bounded h = elim (Bool-cases (ltb i nr_tasks)) [
  | inl e ↦ elim (Option-cases (u i)) [
    | inl none_there ↦ absurd (none≢some (sym (rw (e, none_there) refl) ∙ h))
    | inr (d, there) ↦
        let (q', (run, _, parent_is)) = handed u me parent i d there (ground arith) in
        (d, (there, ground arith, ap (λ x. x.ppid) (some_injective (sym h ∙ run)) ∙ parent_is))
  ]
  | inr e ↦ absurd (none≢some (sym (bounded i (ground arith)) ∙ sym (rw e refl) ∙ h))
]

module _ (t : Table) (me : ℕ) (p p' : Proc) (tree : Tree t) (at : t me ≡ some p) (real : me ≢ 0)
    (same : p'.ppid ≡ p.ppid) where
  pub me_small : me < nr_tasks
  me_small = elim (Bool-cases (ltb me nr_tasks)) [
    | inl e ↦ ground arith
    | inr e ↦ absurd (none≢some (sym (tree.bounded me (ground arith)) ∙ at))
  ]

  pub apart : me ≢ p.ppid
  apart e = let low = tree.lower me p at real in let e' = ap tree.rank e in omega arith

  mid_bounded : (j : ℕ) → nr_tasks ≤ j → update t me (some p') j ≡ none
  mid_bounded j h =
      let b = me_small in update_other t me (some p') j (omega arith) ∙ tree.bounded j h

  before :
      (i : ℕ) (c : Proc)
      → give_away (update t me (some p')) me p.ppid i ≡ some c
      → (d : Proc) × ((t i ≡ some d)
          × (i < nr_tasks)
          × (c.ppid ≡ (if d.ppid == me then p.ppid else d.ppid)))
  before i c h =
      let (d, (there, small, parent_is)) =
        origin (update t me (some p')) me p.ppid i c mid_bounded h in
      elim (update_entry t me (some p') i d there) [
        | inl (e, is) ↦
            let e' : d.ppid ≡ p.ppid = ap (λ x. x.ppid) (sym (some_injective is)) ∙ same in
            (p, (ap t (sym e) ∙ at, small, parent_is ∙ rw e' refl))
        | inr (e, is) ↦ (d, (is, small, parent_is))
      ]

  -- a task other than `me` that was alive still is
  after :
      (x : ℕ) (q : Proc)
      → me ≢ x
      → t x ≡ some q
      → (q' : Proc) × ((give_away (update t me (some p')) me p.ppid x ≡ some q')
          × (q'.state ≡ q.state)
          × (q'.ppid ≡ (if q.ppid == me then p.ppid else q.ppid)))
  after x q ne there =
      let small : x < nr_tasks = elim (Bool-cases (ltb x nr_tasks)) [
        | inl e ↦ ground arith
        | inr e ↦ absurd (none≢some (sym (tree.bounded x (ground arith)) ∙ there))
      ] in
      handed (update t me (some p')) me p.ppid x q (update_other t me (some p') x ne ∙ there) small

  parent_after :
      (x : ℕ) (q : Proc)
      → me ≢ x
      → t x ≡ some q
      → is_dead q ≡ false
      → (q' : Proc) × ((give_away (update t me (some p')) me p.ppid x ≡ some q')
          × (is_dead q' ≡ false))
  parent_after x q ne there lives =
      let (q', (run, state_is, _)) = after x q ne there in (q', (run, rw state_is lives))

  pub died-Tree : Tree (give_away (update t me (some p')) me p.ppid)
  died-Tree = record {
    rank = tree.rank;
    bounded = λ i h. elim (Option-cases (give_away (update t me (some p')) me p.ppid i)) [
      | inl e ↦ e
      | inr (c, e) ↦ let (d, (_, small, _)) = before i c e in absurd (omega arith)
    ];
    parents = λ i c h.
        let (d, (there, small, parent_is)) = before i c h in
        let (q, (up, lives)) = tree.parents i d there in
        let (top, (top_at, top_lives)) = tree.parents me p at in
        elim (Bool-cases (d.ppid == me)) [
          | inl e ↦
              let to : c.ppid ≡ p.ppid = parent_is ∙ rw e refl in
              rw to (parent_after p.ppid top apart top_at top_lives)
          | inr e ↦
              let to : c.ppid ≡ d.ppid = parent_is ∙ rw e refl in
              rw to (parent_after d.ppid q (ground arith) up lives)
        ];
    lower = λ i c h ne.
        let (d, (there, small, parent_is)) = before i c h in
        let low = tree.lower i d there ne in
        let top = tree.lower me p at real in
        elim (Bool-cases (d.ppid == me)) [
          | inl e ↦
              let to : c.ppid ≡ p.ppid = parent_is ∙ rw e refl in
              let at_me : tree.rank d.ppid ≡ tree.rank me =
                let q : d.ppid ≡ me = ground arith in ap tree.rank q in
              rw to (omega arith)
          | inr e ↦ let to : c.ppid ≡ d.ppid = parent_is ∙ rw e refl in rw to low
        ];
  }
