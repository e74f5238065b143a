-- ===== src/Mutex/Waits.antt =====
-- src/kernel/mutex.c: the list of waiting tasks, and the invariant of a lock.
use yuios.Common.{
  ℕ, ◌≡◌, sym, ap, ◌∙◌, ◌≢◌, ◌⊎◌, inl, inr, true, false, none, some, List, [], ◌∷◌, ◌++◌, arith,
  ◌==◌, Bool-cases, All,
}
use yuios.Linked.Chain.{NotIn, Distinct, All-append}
use yuios.Mutex.{Phase, trying, waiting, holding, System, set_phase}
use yuios.Mutex.Phases.{owns, Alone}

abbrev pub Waits : (ℕ → Phase) → List ℕ → Type 0
Waits phase ws = All (λ w. phase w ≡ waiting) ws

-- At most one task has the mutex, and only while it is taken; the holder is the task in the phase
-- `holding`; every task on the list of waiting tasks is in the phase `waiting` and stands there once; and
-- while the mutex is free some task is on its way to it, unless the list is empty.
pub record Inv (s : System) : Type 0 where
  pub alone : Alone s.phase
  pub locked : (t : ℕ) → owns (s.phase t) ≡ true → s.lock.value ≡ true
  pub held : (t : ℕ) → s.phase t ≡ holding → s.lock.holder ≡ some t
  pub holder : (t : ℕ) → s.lock.holder ≡ some t → s.phase t ≡ holding
  pub fresh : s.lock.holder ≡ none → s.lock.repeat ≡ 0
  pub queued : Waits s.phase s.lock.waiters
  pub distinct : Distinct s.lock.waiters
  pub awake : s.lock.value ≡ false → (s.lock.waiters ≡ []) ⊎ ((t : ℕ) × (s.phase t ≡ trying))

pub Waits-other :
    (phase : ℕ → Phase) (t : ℕ) (p : Phase) (ws : List ℕ)
    → phase t ≢ waiting
    → Waits phase ws
    → Waits (set_phase phase t p) ws
Waits-other phase t p [] out h = tt
Waits-other phase t p (w ∷ ws) out h = (
  elim (Bool-cases (t == w)) [
    | inl e ↦ let e' : t ≡ w = ground arith in absurd (out (ap phase e' ∙ h.0))
    | inr e ↦ rw e h.0
  ],
  Waits-other phase t p ws out h.1,
)

pub Waits-NotIn :
    (phase : ℕ → Phase) (t : ℕ) (ws : List ℕ) → phase t ≢ waiting → Waits phase ws → NotIn t ws
Waits-NotIn phase t [] out h = tt
Waits-NotIn phase t (w ∷ ws) out h =
    ((λ e. out (ap phase (sym e) ∙ h.0)), Waits-NotIn phase t ws out h.1)

pub Waits-apart :
    (phase : ℕ → Phase) (t : ℕ) (p : Phase) (ws : List ℕ)
    → NotIn t ws
    → Waits phase ws
    → Waits (set_phase phase t p) ws
Waits-apart phase t p [] out h = tt
Waits-apart phase t p (w ∷ ws) out h =
    let e : (t == w) ≡ false = ground (arith, out.0) in
    (rw e h.0, Waits-apart phase t p ws out.1 h.1)

pub Distinct-snoc : (ws : List ℕ) (t : ℕ) → NotIn t ws → Distinct ws → Distinct (ws ++ (t ∷ []))
Distinct-snoc [] t out d = (tt, tt)
Distinct-snoc (w ∷ ws) t out d = (
  All-append (λ x. x ≢ w) ws (t ∷ []) d.0 ((λ e. out.0 (sym e)), tt),
  Distinct-snoc ws t out.1 d.1,
)
