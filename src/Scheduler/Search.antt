-- ===== src/Scheduler/Search.antt =====
-- src/kernel/task.c: `task_search` finds a task in the wanted state, if there is one.
use yuios.Common.{
  ℕ, suc, ◌+◌, ◌<◌, ◌≡◌, refl, sym, ap, ◌∙◌, ◌≢◌, inl, inr, true, Option, none, some, List, [], ◌∷◌,
  arith, ◌==◌, Bool-cases, length, get_or,
}
use mathlib.Core.Path.{subst}
use native.Mathlib.Nat.{add-zero}
use yuios.Scheduler.{
  better, State, ready, state_eq, Task, Kernel, consider, search_from, search, task_at,
}

pub state_eq→eq : (a b : State) → state_eq a b ≡ true → a ≡ b
state_eq→eq a b h = ground arith

pub state_eq_refl : (a : State) → state_eq a a ≡ true
state_eq_refl a = ground arith

-- A slot other than the running task's holds a task in the wanted state.
pub record Fits (want : State) (current : ℕ) (table : List (Option Task)) (i : ℕ) (t : Task)
    : Type 0 where
  pub held : task_at table i ≡ some t
  pub wanted : t.state ≡ want
  pub other : i ≢ current

-- `rest` is what is left of the table from slot `i` on.
abbrev Suffix : List (Option Task) → ℕ → List (Option Task) → Type 0
Suffix table i rest = (j : ℕ) → get_or table (i + j) none ≡ get_or rest j none

shift :
    (i : ℕ) (table : List (Option Task)) (x : Option Task) (rest : List (Option Task))
    → Suffix table i (x ∷ rest)
    → Suffix table (i + 1) rest
shift i table x rest s j =
    let e : i + 1 + j ≡ i + suc j = omega arith in ap (λ n. get_or table n none) e ∙ s (suc j)

-- what the loop knows of its candidate after the slots below `i`
abbrev Candidate : State → ℕ → List (Option Task) → ℕ → Option (ℕ × Task) → Type 0
Candidate want current table i none = (j : ℕ) (t : Task) → j < i → ¬ (Fits want current table j t)
Candidate want current table i (some b) = Fits want current table b.0 b.1

-- No task of slot `i` fits either.
extend :
    (want : State) (current i : ℕ) (table : List (Option Task))
    → ((t : Task) → ¬ (Fits want current table i t))
    → Candidate want current table i none
    → Candidate want current table (i + 1) none
extend want current i table not_here c = λ j t h fit. elim (Bool-cases (j == i)) [
  | inl e ↦
      let e' : j ≡ i = ground arith in not_here t (subst (λ k. Fits want current table k t) e' fit)
  | inr e ↦ c j t (ground arith) fit
]

step_none :
    (want : State) (current i : ℕ) (table : List (Option Task)) (best : Option (ℕ × Task))
    → task_at table i ≡ none
    → Candidate want current table i best
    → Candidate want current table (i + 1) best
step_none want current i table none empty c =
    extend want current i table (λ t fit. let held = fit.held in ground arith) c
step_none want current i table (some b) empty c = c

step_some :
    (want : State) (current i : ℕ) (table : List (Option Task)) (best : Option (ℕ × Task))
    (t : Task)
    → task_at table i ≡ some t
    → Candidate want current table i best
    → Candidate want current table (i + 1) (consider want current i best t)
step_some want current i table none t held c = elim (Bool-cases (state_eq t.state want)) [
  | inr e ↦ rw e (
      extend want current i table
        (λ u fit.
          let f : task_at table i ≡ some u = fit.held in
          let same : t ≡ u = cc in
          let w : state_eq t.state want ≡ true =
            ap (λ (x : Task). state_eq x.state want) same
            ∙ ap (λ x. state_eq x want) fit.wanted
            ∙ state_eq_refl want in
          ground arith)
        c)
  | inl e ↦ rw e (elim (Bool-cases (current == i)) [
    | inl self ↦ rw self (extend want current i table (λ u fit. fit.other (ground arith)) c)
    | inr other ↦
        rw other (record { held = held; wanted = state_eq→eq _ _ e; other = ground arith })
  ])
]
step_some want current i table (some b) t held c = elim (Bool-cases (state_eq t.state want)) [
  | inr e ↦ rw e c
  | inl e ↦ rw e (elim (Bool-cases (current == i)) [
    | inl self ↦ rw self c
    | inr other ↦ rw other (elim (Bool-cases (better b.1 t)) [
      | inl up ↦ rw up (record { held = held; wanted = state_eq→eq _ _ e; other = ground arith })
      | inr down ↦ rw down c
    ])
  ])
]

search_from-Candidate :
    (want : State) (current i : ℕ) (table rest : List (Option Task)) (best : Option (ℕ × Task))
    → Suffix table i rest
    → Candidate want current table i best
    → Candidate want current table (i + length rest) (search_from want current i best rest)
unfolding search_from
search_from-Candidate want current i table [] best s c = rw add-zero c
search_from-Candidate want current i table (none ∷ rest) best s c =
    let n : i + suc (length rest) ≡ i + 1 + length rest = omega arith in
    let at : task_at table i ≡ none = ap (task_at table) (sym (add-zero i)) ∙ s 0 in
    rw n (
      search_from-Candidate want current (i + 1) table rest best (shift i table none rest s)
        (step_none want current i table best at c))
search_from-Candidate want current i table (some t ∷ rest) best s c =
    let n : i + suc (length rest) ≡ i + 1 + length rest = omega arith in
    let at : task_at table i ≡ some t = ap (task_at table) (sym (add-zero i)) ∙ s 0 in
    rw n (
      search_from-Candidate want current (i + 1) table rest (consider want current i best t)
        (shift i table (some t) rest s) (step_some want current i table best t at c))

-- How a search ends.
pub data Found (k : Kernel) (want : State) : Option ℕ → Type 0 where
  hit : (i : ℕ) (t : Task) → Fits want k.current k.table i t → Found k want (some i)
  idle_only :
      ((j : ℕ) (t : Task) → j < length k.table → ¬ (Fits want k.current k.table j t))
      → want ≡ ready
      → Found k want (some k.idle)
  miss :
      ((j : ℕ) (t : Task) → j < length k.table → ¬ (Fits want k.current k.table j t))
      → want ≢ ready
      → Found k want none

found_of :
    (k : Kernel) (want : State) (r : Option (ℕ × Task))
    → search_from want k.current 0 none k.table ≡ r
    → Candidate want k.current k.table (length k.table) r
    → Found k want (search k want)
unfolding search
found_of k want (some b) e c = rw (e, search) (hit b.0 b.1 c)
found_of k want none e c =
    rw (e, search)
      (elim (Bool-cases (state_eq want ready)) [
        | inl is ↦ rw is (idle_only c (state_eq→eq _ _ is))
        | inr is ↦
            rw is (miss c λ w. ground (arith, ap (λ x. state_eq x ready) w, state_eq_refl ready))
      ])

-- `task_search` returns a slot of another task in the wanted state whenever there is one. If there is
-- none it returns the idle task when a ready one is wanted, and no task otherwise.
pub search-Found : (k : Kernel) (want : State) → Found k want (search k want)
search-Found k want =
    let c : Candidate want k.current k.table (0 + length k.table)
        (search_from want k.current 0 none k.table) =
      search_from-Candidate want k.current 0 k.table k.table none
        (λ j. ap (λ i. get_or k.table i none) (omega arith)) (λ j t h. absurd (omega arith)) in
    let whole : 0 + length k.table ≡ length k.table = omega arith in
    found_of k want _ refl (
      subst (λ n. Candidate want k.current k.table n (search_from want k.current 0 none k.table))
        whole c)
