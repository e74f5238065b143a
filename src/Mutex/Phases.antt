-- ===== src/Mutex/Phases.antt =====
-- src/kernel/mutex.c: facts on phases and on the list of waiting tasks.
use yuios.Common.{ℕ, ◌≡◌, inl, inr, Bool, true, false, arith, ◌==◌, Bool-cases}
use yuios.Mutex.{Phase, entered, holding, leaving, set_phase}

-- a task that has the mutex
abbrev pub owns : Phase → Bool
owns entered = true
owns holding = true
owns leaving = true
owns _ = false

abbrev pub Alone : (ℕ → Phase) → Type 0
Alone phase = (t u : ℕ) → owns (phase t) ≡ true → owns (phase u) ≡ true → t ≡ u

pub Alone-keep :
    (phase : ℕ → Phase) (t : ℕ) (p : Phase)
    → Alone phase
    → owns (phase t) ≡ true
    → Alone (set_phase phase t p)
Alone-keep phase t p alone had u v hu hv = elim (Bool-cases (t == u)) [
  | inl a ↦ elim (Bool-cases (t == v)) [
    | inl b ↦ ground arith
    | inr b ↦ ground (arith, alone t v had)
  ]
  | inr a ↦ elim (Bool-cases (t == v)) [
    | inl b ↦ ground (arith, alone u t)
    | inr b ↦ ground (arith, alone u v)
  ]
]

pub Alone-lose :
    (phase : ℕ → Phase) (t : ℕ) (p : Phase)
    → Alone phase
    → owns p ≡ false
    → Alone (set_phase phase t p)
Alone-lose phase t p alone out u v hu hv = elim (Bool-cases (t == u)) [
  | inl a ↦ ground arith
  | inr a ↦ elim (Bool-cases (t == v)) [ inl b ↦ ground arith | inr b ↦ ground (arith, alone u v) ]
]

pub Alone-gain :
    (phase : ℕ → Phase) (t : ℕ) (p : Phase)
    → ((u : ℕ) → owns (phase u) ≡ false)
    → Alone (set_phase phase t p)
Alone-gain phase t p nobody u v hu hv = elim (Bool-cases (t == u)) [
  | inl a ↦ elim (Bool-cases (t == v)) [ inl b ↦ ground arith | inr b ↦ ground (arith, nobody v) ]
  | inr a ↦ ground (arith, nobody u)
]
