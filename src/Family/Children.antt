-- ===== src/Family/Children.antt =====
-- src/kernel/task.c: which child `task_waitpid` finds.
use yuios.Common.{
  ℕ, zero, suc, ◌+◌, ◌<◌, ◌≤◌, ◌≡◌, refl, sym, ap, ◌∙◌, ◌⊎◌, inl, inr, Bool, true, false, some,
  arith, Bool-cases, Option-cases, equal_or_not,
}
use mathlib.Core.Path.{subst}
use yuios.Family.{Proc, Table, Found, dead, alive, nobody, children, is_asked}
use yuios.Family.Tree.{is_dead, none≢some, some_injective}

-- the slots from `i` up to `k` hold no dead child that is asked for
abbrev pub NoneDead : (t : Table) (me pid i k : ℕ) → Type 0
NoneDead t me pid i k =
    (j : ℕ) (d : Proc)
    → i ≤ j
    → j < k
    → t j ≡ some d
    → is_asked d me pid j ≡ true
    → is_dead d ≡ false

-- some slot from `i` up to `k` holds a child that is asked for
abbrev pub HasChild : (t : Table) (me pid i k : ℕ) → Type 0
HasChild t me pid i k =
    (j : ℕ) × (d : Proc) × ((i ≤ j) × (j < k) × (t j ≡ some d) × (is_asked d me pid j ≡ true))

-- how the search over the slots from `i` up to `top` ends
abbrev pub Ends : (t : Table) (me pid : ℕ) (has : Bool) (i top : ℕ) → Found → Type 0
Ends t me pid has i top (dead k c) =
    (t k ≡ some c)
    × (i ≤ k)
    × (k < top)
    × (is_asked c me pid k ≡ true)
    × (is_dead c ≡ true)
    × NoneDead t me pid i k
Ends t me pid has i top alive = ((has ≡ true) ⊎ HasChild t me pid i top) × NoneDead t me pid i top
Ends t me pid has i top nobody =
    (has ≡ false)
    × ((j : ℕ) (d : Proc) → i ≤ j → j < top → t j ≡ some d → is_asked d me pid j ≡ false)

-- a slot that holds no child, or none that ends the search, is passed over
skip :
    (t : Table) (me pid : ℕ) (has has' : Bool) (i top : ℕ)
    → ((d : Proc) → t i ≡ some d → is_asked d me pid i ≡ true → (is_dead d ≡ false) × (has' ≡ true))
    → (((has' ≡ true) × HasChild t me pid i top) ⊎ (has' ≡ has))
    → (found : Found) → Ends t me pid has' (i + 1) top found
    → Ends t me pid has i top found
skip t me pid has has' i top here flag (dead k c) (at, lo, hi, asked, is, before) = (
  at,
  omega arith,
  hi,
  asked,
  is,
  λ j d a b e ask. elim (equal_or_not i j) [
    | inl s ↦ (here d (ap t s ∙ e) (ap (is_asked d me pid) s ∙ ask)).0
    | inr s ↦ before j d (omega arith) b e ask
  ],
)
skip t me pid has has' i top here flag alive (some_child, before) = (
  elim some_child [
    | inl e ↦ elim flag [ inl (_, child) ↦ inr child | inr s ↦ inl (sym s ∙ e) ]
    | inr (j, d, (a, b, e, ask)) ↦ inr (j, d, (omega arith, b, e, ask))
  ],
  λ j d a b e ask. elim (equal_or_not i j) [
    | inl s ↦ (here d (ap t s ∙ e) (ap (is_asked d me pid) s ∙ ask)).0
    | inr s ↦ before j d (omega arith) b e ask
  ],
)
skip t me pid has has' i top here flag nobody (none_seen, no_child) = (
  elim flag [
    | inl (e, _) ↦ absurd (let bad : true ≡ false = sym e ∙ none_seen in ground arith)
    | inr s ↦ sym s ∙ none_seen
  ],
  λ j d a b e. elim (equal_or_not i j) [
    | inl s ↦ elim (Bool-cases (is_asked d me pid j)) [
      | inl ask ↦ absurd (
          let bad : true ≡ false =
            sym (here d (ap t s ∙ e) (ap (is_asked d me pid) s ∙ ask)).1 ∙ none_seen in
          ground arith)
      | inr out ↦ out
    ]
    | inr s ↦ no_child j d (omega arith) b e
  ],
)

pub children-Ends :
    (t : Table) (me pid : ℕ) (has : Bool) (left i : ℕ)
    → Ends t me pid has i (i + left) (children t me pid has left i)
unfolding children
children-Ends t me pid true zero i = (inl refl, λ j d a b. absurd (omega arith))
children-Ends t me pid false zero i = (refl, λ j d a b. absurd (omega arith))
children-Ends t me pid has (suc left) i =
    let top = i + suc left in
    let n : i + 1 + left ≡ top = omega arith in
    let from : (h : Bool) → Ends t me pid h (i + 1) top (children t me pid h left (i + 1)) = λ h.
      subst (λ k. Ends t me pid h (i + 1) k (children t me pid h left (i + 1))) n
        (children-Ends t me pid h left (i + 1)) in
    let becomes : (found : Found)
        → children t me pid has (suc left) i ≡ found
        → Ends t me pid has i top found
        → Ends t me pid has i top (children t me pid has (suc left) i) =
      λ found e h. subst (Ends t me pid has i top) (sym e) h in
    elim (Option-cases (t i)) [
      | inl empty ↦ becomes (children t me pid has left (i + 1)) (rw (children, empty) refl) (
          skip t me pid has has i top (λ d e. absurd (none≢some (sym empty ∙ e))) (inr refl)
            (children t me pid has left (i + 1)) (from has))
      | inr (c, at) ↦ elim (Bool-cases (is_asked c me pid i)) [
        | inr out ↦ becomes (children t me pid has left (i + 1)) (rw (children, at, out) refl) (
            skip t me pid has has i top
              (λ d e ask. absurd (
                let bad : true ≡ false =
                  sym ask ∙ ap (λ x. is_asked x me pid i) (some_injective (sym e ∙ at)) ∙ out in
                ground arith))
              (inr refl) (children t me pid has left (i + 1)) (from has))
        | inl asked ↦ elim (Bool-cases (is_dead c)) [
          | inl is ↦
              becomes (dead i c) (rw (children, at, asked, is) refl)
                (at, omega arith, omega arith, asked, is, λ j d a b. absurd (omega arith))
          | inr is ↦
              becomes (children t me pid true left (i + 1)) (rw (children, at, asked, is) refl) (
                skip t me pid has true i top
                  (λ d e ask. (ap is_dead (some_injective (sym e ∙ at)) ∙ is, refl))
                  (inl (refl, (i, c, (omega arith, omega arith, at, asked))))
                  (children t me pid true left (i + 1)) (from true))
        ]
      ]
    ]
