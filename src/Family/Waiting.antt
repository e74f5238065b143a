-- ===== src/Family/Waiting.antt =====
-- src/kernel/task.c: a task that waits for a child gets the child that exits.
use yuios.Common.{
  ℕ, ◌<◌, ◌≤◌, ◌≡◌, refl, sym, ap, ◌∙◌, ◌≢◌, inl, inr, true, false, none, some, arith, ltb, ◌==◌,
  if◌then◌else◌, Bool-cases, ==_false, fault, ok, halt, ◌>>=◌, update, update_self, update_other,
}
use yuios.Scheduler.{ready, died}
use yuios.Family.{
  Proc, Table, nr_tasks, is_current, give_away, exit, unblock, waits_for, Found, dead, alive,
  nobody, children, is_asked, settle, waitpid_round,
}
use yuios.Family.Tree.{Tree, is_dead, some_injective}
use yuios.Family.Steps.{handed_is, me_small, apart}
use yuios.Family.Children.{NoneDead, Ends, children-Ends}

-- A dead child in a slot that the search covers is found, or one in a slot before it.
found_dead :
    (t : Table) (me pid k : ℕ) (c : Proc)
    → 2 ≤ k
    → k < 64
    → t k ≡ some c
    → is_asked c me pid k ≡ true
    → is_dead c ≡ true
    → (j : ℕ) × (d : Proc) × ((children t me pid false 62 2 ≡ dead j d)
        × (t j ≡ some d)
        × (2 ≤ j)
        × (j ≤ k)
        × (is_asked d me pid j ≡ true)
        × (is_dead d ≡ true)
        × NoneDead t me pid 2 j)
found_dead t me pid k c lo hi at asked is =
    from (children t me pid false 62 2) refl (children-Ends t me pid false 62 2)
  where
    from :
        (found : Found)
        → children t me pid false 62 2 ≡ found
        → Ends t me pid false 2 64 found
        → (j : ℕ) × (d : Proc) × ((children t me pid false 62 2 ≡ dead j d)
            × (t j ≡ some d)
            × (2 ≤ j)
            × (j ≤ k)
            × (is_asked d me pid j ≡ true)
            × (is_dead d ≡ true)
            × NoneDead t me pid 2 j)
    from (dead j d) run (held, low, _, asked', is', before) =
        let first : j ≤ k = elim (Bool-cases (ltb k j)) [
          | inl e ↦ absurd (
              let bad : true ≡ false = sym is ∙ before k c lo (ground arith) at asked in
              ground arith)
          | inr e ↦ ground arith
        ] in
        (j, d, (run, held, low, first, asked', is', before))
    from alive run (_, before) =
        absurd (let bad : true ≡ false = sym is ∙ before k c lo hi at asked in ground arith)
    from nobody run (_, no_child) =
        absurd (let bad : true ≡ false = sym asked ∙ no_child k c lo hi at in ground arith)

-- Let the tasks form a tree, and let a task other than 0 and 1 exit for which its parent waits in a queue.
-- Then `exit` does not halt, the parent is ready and out of the queue, and the next round of its
-- `task_waitpid` frees one slot and returns that slot and its status: a slot from 2 up to the one that
-- exits, which holds a child of the parent that is dead and that it asked for, where no slot from 2
-- before it holds such a child. When it asked for the one that exits, it is that one, with its status.
pub exit-waitpid_round :
    (t : Table) (me status : ℕ) (p q : Proc)
    → Tree t
    → t me ≡ some p
    → is_current p ≡ true
    → 2 ≤ me
    → t p.ppid ≡ some q
    → waits_for q me ≡ true
    → q.queued ≡ true
    → (t' : Table) × (q' : Proc) × (j : ℕ) × (d : Proc) × ((exit t me status ≡ ok t')
        × (t' p.ppid ≡ some q')
        × (q'.state ≡ ready)
        × (q'.queued ≡ false)
        × (t' j ≡ some d)
        × (d.ppid ≡ p.ppid)
        × (is_dead d ≡ true)
        × (is_asked d p.ppid q.waitpid j ≡ true)
        × (2 ≤ j)
        × (j ≤ me)
        × NoneDead t' p.ppid q.waitpid 2 j
        × (waitpid_round t' p.ppid q.waitpid ≡ ok (update t' j none, some (j, d.status)))
        × ((q.waitpid ≡ me) → (j ≡ me) × (d.status ≡ status)))
unfolding exit unblock waitpid_round settle
exit-waitpid_round t me status p q tree at runs two parent waits linked =
    let p' = record p { state = died; status = status } in
    let real : me ≢ 0 = omega arith in
    let small = me_small t me p p' tree at real refl in
    let ne = apart t me p p' tree at real refl in
    let u = update t me (some p') in
    let t₁ = give_away u me p.ppid in
    let q₁ = record q { ppid = if q.ppid == me then p.ppid else q.ppid } in
    let parent_small : p.ppid < nr_tasks = elim (Bool-cases (ltb p.ppid nr_tasks)) [
      | inl e ↦ ground arith
      | inr e ↦
          absurd (let bad : none ≡ some q = sym (tree.bounded p.ppid (ground arith)) ∙ parent in cc)
    ] in
    let parent₁ : t₁ p.ppid ≡ some q₁ =
      handed_is u me p.ppid p.ppid q (update_other t me (some p') p.ppid ne ∙ parent)
        parent_small in
    let q₂ = record q₁ { queued = false; state = ready } in
    let t₂ = update t₁ p.ppid (some q₂) in
    let run : exit t me status ≡ ok t₂ = rw (at, ◌>>=◌, runs, parent₁, waits, linked) refl in
    let own₁ : t₁ me ≡ some p' =
      handed_is u me p.ppid me p' (update_self t me (some p')) small
      ∙ rw (==_false p.ppid me (λ e. ne (sym e))) refl in
    let own : t₂ me ≡ some p' = update_other t₁ p.ppid (some q₂) me (λ e. ne (sym e)) ∙ own₁ in
    let asked : is_asked p' p.ppid q.waitpid me ≡ true = ground arith in
    let (j, d, (found, held, low, first, asked', is, before)) =
      found_dead t₂ p.ppid q.waitpid me p' two small own asked refl in
    (
      t₂,
      q₂,
      j,
      d,
      (
        run,
        update_self t₁ p.ppid (some q₂),
        refl,
        refl,
        held,
        ground (arith, asked'),
        is,
        asked',
        low,
        first,
        before,
        rw (found) refl,
        λ only.
            let at_me : j ≡ me = ground arith in
            (at_me, ap (λ x. x.status) (some_injective (sym held ∙ ap t₂ at_me ∙ own))),
      ),
    )

-- A task that waits for a child without having one that fits reads its status through `NULL`.
pub waitpid_childless :
    (t : Table) (me pid : ℕ)
    → ((i : ℕ) (c : Proc) → 2 ≤ i → i < nr_tasks → t i ≡ some c → is_asked c me pid i ≡ false)
    → waitpid_round t me pid ≡ halt fault
unfolding waitpid_round settle
waitpid_childless t me pid none_asked =
    from (children t me pid false 62 2) refl (children-Ends t me pid false 62 2)
  where
    from :
        (found : Found)
        → children t me pid false 62 2 ≡ found
        → Ends t me pid false 2 64 found
        → settle t me pid (children t me pid false 62 2) ≡ halt fault
    from (dead j d) run (held, lo, hi, asked, _, _) =
        absurd (let bad : true ≡ false = sym asked ∙ none_asked j d lo hi held in ground arith)
    from alive run (inl e, _) = absurd (ground arith)
    from alive run (inr (j, d, (lo, hi, held, asked)), _) =
        absurd (let bad : true ≡ false = sym asked ∙ none_asked j d lo hi held in ground arith)
    from nobody run _ = rw run refl
