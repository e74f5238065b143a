-- ===== src/Family/Examples.antt =====
-- Four tasks: the idle task, its child init, a child of init that waits for its own child, and that one.
use yuios.Common.{
  ℕ, zero, suc, ◌<◌, ◌≤◌, ◌≡◌, refl, sym, ap, ◌≢◌, true, false, none, some, [], ◌∷◌, arith, ok,
  OnOk, update,
}
use yuios.Scheduler.{State, running, ready, waiting}
use yuios.Family.{Proc, Table, nr_tasks, exit, is_asked, waitpid_round}
use yuios.Family.Tree.{Tree, is_dead, some_injective}
use yuios.Family.Run.{forks, exits, waits, perform_all, perform_all-Tree}
use yuios.Family.Children.{NoneDead}
use yuios.Family.Waiting.{exit-waitpid_round}

abbrev a_task : (ppid : ℕ) → State → Proc
a_task ppid state = record {
  ppid = ppid;
  state = state;
  queued = false;
  status = 0;
  waitpid = 0;
  ticks = 1;
  priority = 5;
}

abbrev a_parent : Proc
a_parent = record (a_task 1 waiting) { queued = true; waitpid = 3 }

abbrev family : Table
family zero = some (a_task 0 ready)
family (suc zero) = some (a_task 0 ready)
family (suc (suc zero)) = some a_parent
family (suc (suc (suc zero))) = some (a_task 2 running)
family (suc (suc (suc (suc i)))) = none

family_parents :
    (i : ℕ) (p : Proc)
    → family i ≡ some p
    → (q : Proc) × ((family p.ppid ≡ some q) × (is_dead q ≡ false))
family_parents zero p h =
    let e : p.ppid ≡ 0 = ap (λ x. x.ppid) (sym (some_injective h)) in
    rw e (a_task 0 ready, (refl, refl))
family_parents (suc zero) p h =
    let e : p.ppid ≡ 0 = ap (λ x. x.ppid) (sym (some_injective h)) in
    rw e (a_task 0 ready, (refl, refl))
family_parents (suc (suc zero)) p h =
    let e : p.ppid ≡ 1 = ap (λ x. x.ppid) (sym (some_injective h)) in
    rw e (a_task 0 ready, (refl, refl))
family_parents (suc (suc (suc zero))) p h =
    let e : p.ppid ≡ 2 = ap (λ x. x.ppid) (sym (some_injective h)) in rw e (a_parent, (refl, refl))
family_parents (suc (suc (suc (suc i)))) p h = absurd cc

family_lower : (i : ℕ) (p : Proc) → family i ≡ some p → i ≢ 0 → p.ppid < i
family_lower zero p h real = absurd (real refl)
family_lower (suc zero) p h real =
    let e : p.ppid ≡ 0 = ap (λ x. x.ppid) (sym (some_injective h)) in omega arith
family_lower (suc (suc zero)) p h real =
    let e : p.ppid ≡ 1 = ap (λ x. x.ppid) (sym (some_injective h)) in omega arith
family_lower (suc (suc (suc zero))) p h real =
    let e : p.ppid ≡ 2 = ap (λ x. x.ppid) (sym (some_injective h)) in omega arith
family_lower (suc (suc (suc (suc i)))) p h real = absurd cc

family_bounded : (i : ℕ) → nr_tasks ≤ i → family i ≡ none
family_bounded zero h = absurd (omega arith)
family_bounded (suc zero) h = absurd (omega arith)
family_bounded (suc (suc zero)) h = absurd (omega arith)
family_bounded (suc (suc (suc zero))) h = absurd (omega arith)
family_bounded (suc (suc (suc (suc i)))) h = refl

family-Tree : Tree family
family-Tree = record {
  rank = λ i. i;
  bounded = family_bounded;
  parents = family_parents;
  lower = family_lower;
}

perform_all-Tree_example : OnOk Tree (perform_all family (forks 3 ∷ exits 3 7 ∷ waits 2 3 ∷ []))
perform_all-Tree_example =
    perform_all-Tree (forks 3 ∷ exits 3 7 ∷ waits 2 3 ∷ []) family family-Tree
      (tt, (λ e. absurd (omega arith), (tt, tt)))

exit-waitpid_round_example :
    (t' : Table) × (q' : Proc) × (j : ℕ) × (d : Proc) × ((exit family 3 7 ≡ ok t')
      × (t' 2 ≡ some q')
      × (q'.state ≡ ready)
      × (q'.queued ≡ false)
      × (t' j ≡ some d)
      × (d.ppid ≡ 2)
      × (is_dead d ≡ true)
      × (is_asked d 2 3 j ≡ true)
      × (2 ≤ j)
      × (j ≤ 3)
      × NoneDead t' 2 3 2 j
      × (waitpid_round t' 2 3 ≡ ok (update t' j none, some (j, d.status)))
      × (◌≡◌ {A = ℕ} 3 3 → (j ≡ 3) × (d.status ≡ 7)))
exit-waitpid_round_example =
    exit-waitpid_round family 3 7 (a_task 2 running) a_parent family-Tree refl refl (omega arith)
      refl refl refl

no_child_of :
    (i : ℕ) (c : Proc) → 2 ≤ i → i < nr_tasks → family i ≡ some c → is_asked c 3 5 i ≡ false
no_child_of i c lo hi h = ground (arith, family_lower i c h)
