-- ===== src/Mutex/Taking.antt =====
-- src/kernel/mutex.c: taking a lock keeps the invariant.
use yuios.Common.{
  ℕ, ◌≡◌, refl, ap, ◌∙◌, ◌≢◌, ◌⊎◌, inl, inr, true, Option, none, some, [], ◌∷◌, arith, ◌==◌,
  Bool-cases, ==_refl,
}
use yuios.Linked.Chain.{All-append}
use yuios.Mutex.{
  Lock, outside, trying, waiting, entered, holding, leaving, System, set_phase, goto, held_by,
  lock_acquire, mutex_lock,
}
use yuios.Mutex.Phases.{owns, Alone-keep, Alone-lose, Alone-gain}
use yuios.Mutex.Waits.{Inv, Waits-other, Waits-NotIn, Distinct-snoc}

pub held_by→holder : (l : Lock) (t : ℕ) → held_by l t ≡ true → l.holder ≡ some t
held_by→holder l t h = ground arith

-- the same phase and lock but for the phases of tasks without the mutex
pub test-Inv :
    (s : System) (t : ℕ) → Inv s → s.phase t ≡ trying → Inv (goto s t (mutex_lock s.lock t))
unfolding mutex_lock
test-Inv s t v at = elim (Bool-cases s.lock.value) [
  | inl e ↦ rw e (record {
    alone = Alone-lose s.phase t waiting v.alone refl;
    locked = λ u h. refl;
    held = λ u h. ground (arith, v.held u);
    holder = λ u h. ground (arith, v.holder u h, at);
    fresh = v.fresh;
    queued =
        All-append (λ w. set_phase s.phase t waiting w ≡ waiting) s.lock.waiters (t ∷ [])
          (Waits-other s.phase t waiting s.lock.waiters (λ w. ground (arith, w, at)) v.queued)
          (rw (==_refl t) refl, tt);
    distinct =
        Distinct-snoc s.lock.waiters t
          (Waits-NotIn s.phase t s.lock.waiters (λ w. ground (arith, w, at)) v.queued) v.distinct;
    awake = λ f. ground (arith, f, e);
  })
  | inr e ↦ rw e (record {
    alone = Alone-gain s.phase t entered (λ u. elim (Bool-cases (owns (s.phase u))) [
      | inl o ↦ ground (arith, v.locked u o, e)
      | inr o ↦ o
    ]);
    locked = λ u h. refl;
    held = λ u h. ground (arith, v.held u);
    holder = λ u h. ground (arith, v.holder u h, at);
    fresh = v.fresh;
    queued = Waits-other s.phase t entered s.lock.waiters (λ w. ground (arith, w, at)) v.queued;
    distinct = v.distinct;
    awake = λ f. ground (arith, f);
  })
]

pub acquire-Inv :
    (s : System) (t : ℕ)
    → Inv s
    → (s.phase t ≡ outside) ⊎ (s.phase t ≡ holding)
    → Inv (goto s t (lock_acquire s.lock t))
unfolding lock_acquire
acquire-Inv s t v at = elim (Bool-cases (held_by s.lock t)) [
  | inl e ↦
      let mine = held_by→holder s.lock t e in
      let here = v.holder t mine in
      let mutex = v.locked t (ap owns here) in
      rw e (record {
        alone = Alone-keep s.phase t holding v.alone (ap owns here);
        locked = λ u h. mutex;
        held = λ u h. elim (Bool-cases (t == u)) [
          | inl same ↦ let eq : t ≡ u = ground arith in mine ∙ ap some eq
          | inr other ↦ ground (arith, v.held u)
        ];
        holder = λ u h. ground (arith, v.holder u h);
        fresh = λ h. ground (arith, h, mine);
        queued =
            Waits-other s.phase t holding s.lock.waiters (λ w. ground (arith, w, here)) v.queued;
        distinct = v.distinct;
        awake = λ f. ground (arith, f, mutex);
      })
  | inr e ↦
      let out : s.phase t ≡ outside = elim at [
        | inl o ↦ o
        | inr h ↦ let mine = v.held t h in ground (arith, mine)
      ] in
      rw e (record {
        alone = Alone-lose s.phase t trying v.alone refl;
        locked = λ u h. elim (Bool-cases (t == u)) [
          | inl same ↦ ground arith
          | inr other ↦ v.locked u (ground arith)
        ];
        held = λ u h. ground (arith, v.held u);
        holder = λ u h. ground (arith, v.holder u h, out);
        fresh = v.fresh;
        queued = Waits-other s.phase t trying s.lock.waiters (λ w. ground (arith, w, out)) v.queued;
        distinct = v.distinct;
        awake = λ f. inr (t, rw (==_refl t) refl);
      })
]

-- a task that has the mutex and is not the holder: there is no holder
pub no_holder :
    (s : System) (t : ℕ)
    → Inv s
    → owns (s.phase t) ≡ true
    → s.phase t ≢ holding
    → s.lock.holder ≡ none
no_holder s t v had out = from s.lock.holder refl
  where
    from : (h : Option ℕ) → s.lock.holder ≡ h → s.lock.holder ≡ none
    from none e = e
    from (some u) e =
        let there = v.holder u e in
        let same : t ≡ u = v.alone t u had (ap owns there) in absurd (out (ap s.phase same ∙ there))

-- the holder's next phase, which has the mutex too
pub kept-Inv :
    (s : System) (t n : ℕ)
    → Inv s
    → owns (s.phase t) ≡ true
    → Inv (goto s t (record s.lock { holder = some t; repeat = n }, holding))
kept-Inv s t n v had =
    let mutex = v.locked t had in
    record {
      alone = Alone-keep s.phase t holding v.alone had;
      locked = λ u h. mutex;
      held = λ u h. elim (Bool-cases (t == u)) [
        | inl same ↦ let eq : t ≡ u = ground arith in ap some eq
        | inr other ↦
            let there : s.phase u ≡ holding = ground arith in
            let eq : t ≡ u = v.alone t u had (ap owns there) in ap some eq
      ];
      holder = λ u h. ground (arith, h);
      fresh = λ h. ground (arith, h);
      queued =
          Waits-other s.phase t holding s.lock.waiters (λ w. ground (arith, ap owns w, had))
            v.queued;
      distinct = v.distinct;
      awake = λ f. ground (arith, f, mutex);
    }

pub leave-Inv :
    (s : System) (t : ℕ)
    → Inv s
    → s.phase t ≡ holding
    → Inv (goto s t (record s.lock { holder = none; repeat = 0 }, leaving))
leave-Inv s t v at =
    let mutex = v.locked t (ap owns at) in
    record {
      alone = Alone-keep s.phase t leaving v.alone (ap owns at);
      locked = λ u h. mutex;
      held = λ u h. elim (Bool-cases (t == u)) [
        | inl same ↦ ground arith
        | inr other ↦
            let there : s.phase u ≡ holding = ground arith in
            let eq : t ≡ u = v.alone t u (ap owns at) (ap owns there) in ground arith
      ];
      holder = λ u h. ground (arith, h);
      fresh = λ h. refl;
      queued = Waits-other s.phase t leaving s.lock.waiters (λ w. ground (arith, w, at)) v.queued;
      distinct = v.distinct;
      awake = λ f. ground (arith, f, mutex);
    }
