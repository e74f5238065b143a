-- ===== src/Family/Run.antt =====
-- src/kernel/task.c: the calls that make and end tasks, in any order.
use yuios.Common.{
  ℕ, ◌<◌, ◌≡◌, refl, sym, ◌≢◌, inl, inr, true, false, none, some, List, [], ◌∷◌, All, Bool-cases,
  Option-cases, Outcome-cases, Outcome, ok, ◌>>=◌, OnOk, OnOk-bind, OnOk-map, update, update-update,
}
use mathlib.Core.Path.{subst}
use yuios.Scheduler.{ready, waiting, died}
use yuios.Family.{
  Proc, Table, nr_tasks, cleared, is_current, free_slot, get_free_task, fork, give_away, exit,
  unblock, waits_for, dead, alive, nobody, children, Found, settle, waitpid_round,
}
use yuios.Family.Tree.{Tree, changed-Tree, removed-Tree, born-Tree}
use yuios.Family.Steps.{free_slot_lem, current_alive, died-Tree}
use yuios.Family.Children.{children-Ends, Ends}

-- the calls of the tasks
pub data Call : Type 0 where
  forks : ℕ → Call
  exits : (me status : ℕ) → Call
  waits : (me pid : ℕ) → Call

unfoldable pub perform : Table → Call → Outcome Table
perform t (forks me) = fork t me >>= λ (t, i). ok t
perform t (exits me status) = exit t me status
perform t (waits me pid) = waitpid_round t me pid >>= λ (t, r). ok t

unfoldable pub perform_all : Table → List Call → Outcome Table
perform_all t [] = ok t
perform_all t (c ∷ cs) = perform t c >>= λ t. perform_all t cs

-- the task of slot 0, which is the idle task, does not exit
abbrev pub Allowed : Call → Type 0
Allowed (forks me) = Unit
Allowed (exits me status) = me ≢ 0
Allowed (waits me pid) = Unit

fork-Tree : (t : Table) (me : ℕ) → Tree t → OnOk Tree (perform t (forks me))
unfolding perform fork get_free_task
fork-Tree t me tree = elim (Option-cases (t me)) [
  | inl e ↦ rw (e, ◌>>=◌) tt
  | inr (p, e) ↦ elim (Bool-cases (is_current p)) [
    | inr stopped ↦ rw (e, ◌>>=◌, stopped) tt
    | inl runs ↦
        let child = record p { ppid = me; ticks = p.priority; state = ready } in
        elim (Outcome-cases (free_slot t nr_tasks 0)) [
          | inr (h, stopped) ↦ rw (e, ◌>>=◌, runs, stopped) tt
          | inl (i, run) ↦
              let (free, small) =
                subst (OnOk (λ k. (t k ≡ none) × (k < nr_tasks))) run
                  (free_slot_lem t nr_tasks 0) in
              rw (e, ◌>>=◌, runs, run)
                (subst Tree (sym (update-update t i (some cleared) (some child)))
                  (born-Tree t me i p child tree e (current_alive p runs) free small refl))
        ]
  ]
]

unblock-Tree : (t : Table) (k : ℕ) (p : Proc) → Tree t → t k ≡ some p → OnOk Tree (unblock t k p)
unfolding unblock
unblock-Tree t k p tree at = elim (Bool-cases p.queued) [
  | inl e ↦ rw e (changed-Tree t k p (record p { queued = false; state = ready }) tree at refl refl)
  | inr e ↦ rw e tt
]

exit-Tree : (t : Table) (me status : ℕ) → me ≢ 0 → Tree t → OnOk Tree (perform t (exits me status))
unfolding perform exit
exit-Tree t me status real tree = elim (Option-cases (t me)) [
  | inl e ↦ rw (e, ◌>>=◌) tt
  | inr (p, e) ↦ elim (Bool-cases (is_current p)) [
    | inr stopped ↦ rw (e, ◌>>=◌, stopped) tt
    | inl runs ↦
        let p' = record p { state = died; status = status } in
        let t' = give_away (update t me (some p')) me p.ppid in
        let tree' = died-Tree t me p p' tree e real refl in
        elim (Option-cases (t' p.ppid)) [
          | inl gone ↦ rw (e, ◌>>=◌, runs, gone) tt
          | inr (q, parent) ↦ elim (Bool-cases (waits_for q me)) [
            | inl w ↦ rw (e, ◌>>=◌, runs, parent, w) (unblock-Tree t' p.ppid q tree' parent)
            | inr w ↦ rw (e, ◌>>=◌, runs, parent, w) tree'
          ]
        ]
  ]
]

settle-Tree :
    (t : Table) (me pid : ℕ) (found : Found)
    → Tree t
    → Ends t me pid false 2 64 found
    → OnOk Tree (settle t me pid found >>= λ (t, r). ok t)
unfolding settle
settle-Tree t me pid (dead k c) tree (at, lo, hi, asked, is, before) = removed-Tree t k c tree at is
settle-Tree t me pid alive tree ends = elim (Option-cases (t me)) [
  | inl e ↦ rw (e, ◌>>=◌) tt
  | inr (p, e) ↦ elim (Bool-cases p.queued) [
    | inl stopped ↦ rw (e, ◌>>=◌, stopped) tt
    | inr free ↦
        rw (e, ◌>>=◌, free)
          (changed-Tree t me p (record p { waitpid = pid; queued = true; state = waiting }) tree e
            refl refl)
  ]
]
settle-Tree t me pid nobody tree ends = tt

wait-Tree : (t : Table) (me pid : ℕ) → Tree t → OnOk Tree (perform t (waits me pid))
unfolding perform waitpid_round
wait-Tree t me pid tree =
    settle-Tree t me pid (children t me pid false 62 2) tree (children-Ends t me pid false 62 2)

perform-Tree : (t : Table) (c : Call) → Allowed c → Tree t → OnOk Tree (perform t c)
perform-Tree t (forks me) a tree = fork-Tree t me tree
perform-Tree t (exits me status) a tree = exit-Tree t me status a tree
perform-Tree t (waits me pid) a tree = wait-Tree t me pid tree

-- Whatever tasks fork, exit and wait, in any order, every task that is left has a parent, which is alive, and
-- no task but that of slot 0 is its own ancestor: children of a task that exits go to its own parent. The
-- idle task does not exit.
pub perform_all-Tree :
    (cs : List Call) (t : Table) → Tree t → All Allowed cs → OnOk Tree (perform_all t cs)
unfolding perform_all
perform_all-Tree [] t tree a = tree
perform_all-Tree (c ∷ cs) t tree a =
    OnOk-bind Tree (perform t c) (λ u. perform_all u cs)
      (OnOk-map Tree (λ u. OnOk Tree (perform_all u cs)) (perform t c) (perform-Tree t c a.0 tree)
        (λ u tree'. perform_all-Tree cs u tree' a.1))
