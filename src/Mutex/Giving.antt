-- ===== src/Mutex/Giving.antt =====
-- src/kernel/mutex.c: giving a lock back keeps the invariant.
use yuios.Common.{
  ℕ, ◌-◌, ◌≡◌, refl, sym, ap, ◌∙◌, ◌≢◌, inl, inr, true, false, Option, none, some, List, [], ◌∷◌,
  arith, ◌==◌, Bool-cases, Outcome, ok, ltb, ◌>>=◌, ==_refl, halt, assertion,
}
use mathlib.Core.Path.{subst}
use yuios.Linked.Chain.{Distinct}
use yuios.Mutex.{
  Lock, Phase, outside, trying, entered, holding, leaving, System, set_phase, goto, woken, held_by,
  acquired, lock_release, mutex_unlock,
}
use yuios.Mutex.Phases.{owns, Alone-lose}
use yuios.Mutex.Waits.{Waits, Inv, Waits-other, Waits-apart}
use yuios.Mutex.Taking.{held_by→holder, kept-Inv, leave-Inv}

pub finish-Inv :
    (s : System) (t : ℕ) (r : Lock × Phase)
    → Inv s
    → s.phase t ≡ entered
    → acquired s.lock t ≡ ok r
    → Inv (goto s t r)
unfolding acquired
finish-Inv s t r v at run = elim (Bool-cases (s.lock.repeat == 0)) [
  | inl e ↦
      let r' : Lock × Phase = (record s.lock { holder = some t; repeat = 1 }, holding) in
      let out : ok r' ≡ ok r = sym (rw (e, ◌>>=◌) refl) ∙ run in
      let same : r' ≡ r = cc in subst (λ x. Inv (goto s t x)) same (kept-Inv s t 1 v (ap owns at))
  | inr e ↦
      let out : halt assertion ≡ ok r = sym (rw (e, ◌>>=◌) refl) ∙ run in
      absurd (ground (arith, out))
]

-- a property of what a run is computed to return holds of what it returns
by_result {ℓ κ} :
    {A : Type ℓ} (P : A → Type κ) (x : Outcome A) (r' r : A) → x ≡ ok r' → x ≡ ok r → P r' → P r
by_result P x r' r e f h =
    let out : ok r' ≡ ok r = sym e ∙ f in let same : r' ≡ r = cc in subst P same h

pub release-Inv :
    (s : System) (t : ℕ) (r : Lock × Phase)
    → Inv s
    → lock_release s.lock t ≡ ok r
    → Inv (goto s t r)
unfolding lock_release
release-Inv s t r v run = elim (Bool-cases (held_by s.lock t)) [
  | inr e ↦
      let out : halt assertion ≡ ok r = sym (rw (e, ◌>>=◌) refl) ∙ run in
      absurd (ground (arith, out))
  | inl e ↦
      let mine = held_by→holder s.lock t e in
      let here = v.holder t mine in
      elim (Bool-cases (ltb 1 s.lock.repeat)) [
        | inl more ↦
            let r' : Lock × Phase = (record s.lock { repeat = s.lock.repeat - 1 }, holding) in
            by_result (λ x. Inv (goto s t x)) (lock_release s.lock t) r' r
              (rw (e, ◌>>=◌, more) refl) run
              (subst
                (λ (h : Option ℕ).
                  Inv
                    (goto s t (record s.lock { holder = h; repeat = s.lock.repeat - 1 }, holding)))
                (sym mine) (kept-Inv s t (s.lock.repeat - 1) v (ap owns here)))
        | inr last ↦ elim (Bool-cases (s.lock.repeat == 1)) [
          | inl one ↦
              let r' : Lock × Phase = (record s.lock { holder = none; repeat = 0 }, leaving) in
              by_result (λ x. Inv (goto s t x)) (lock_release s.lock t) r' r
                (rw (e, ◌>>=◌, last, one) refl) run (leave-Inv s t v here)
          | inr bad ↦
              let out : halt assertion ≡ ok r = sym (rw (e, ◌>>=◌, last, bad) refl) ∙ run in
              absurd (ground (arith, out))
        ]
      ]
]

-- no task has the mutex when the one that had it has left
nobody : (s : System) (t u : ℕ) → Inv s → owns (s.phase t) ≡ true → t ≢ u → owns (s.phase u) ≡ false
nobody s t u v had apart = elim (Bool-cases (owns (s.phase u))) [
  | inl o ↦ absurd (apart (v.alone t u had o))
  | inr o ↦ o
]

unlock_none :
    (s : System) (t : ℕ)
    → Inv s
    → s.phase t ≡ leaving
    → s.lock.waiters ≡ []
    → Inv (record { lock = record s.lock { value = false }; phase = set_phase s.phase t outside })
unlock_none s t v at empty = record {
  alone = Alone-lose s.phase t outside v.alone refl;
  locked = λ u h. elim (Bool-cases (t == u)) [
    | inl same ↦ ground arith
    | inr other ↦ let none_has = nobody s t u v (ap owns at) (ground arith) in ground arith
  ];
  held = λ u h. ground (arith, v.held u);
  holder = λ u h. ground (arith, v.holder u h, at);
  fresh = v.fresh;
  queued = Waits-other s.phase t outside s.lock.waiters (λ w. ground (arith, w, at)) v.queued;
  distinct = v.distinct;
  awake = λ f. inl empty;
}

unlock_some :
    (s : System) (t w : ℕ) (ws : List ℕ)
    → Inv s
    → s.phase t ≡ leaving
    → Waits s.phase (w ∷ ws)
    → Distinct (w ∷ ws)
    → Inv (record {
      lock = record s.lock { value = false; waiters = ws };
      phase = set_phase (set_phase s.phase t outside) w trying;
    })
unlock_some s t w ws v at waits apart = record {
  alone = Alone-lose _ w trying (Alone-lose s.phase t outside v.alone refl) refl;
  locked = λ u h. elim (Bool-cases (w == u)) [
    | inl same ↦ ground arith
    | inr other ↦ elim (Bool-cases (t == u)) [
      | inl same ↦ ground arith
      | inr other ↦ let none_has = nobody s t u v (ap owns at) (ground arith) in ground arith
    ]
  ];
  held = λ u h. ground (arith, v.held u);
  holder = λ u h. ground (arith, v.holder u h, at, waits.0);
  fresh = v.fresh;
  queued =
      Waits-apart _ w trying ws apart.0
        (Waits-other s.phase t outside ws (λ e. ground (arith, e, at)) waits.1);
  distinct = apart.1;
  awake = λ f. inr (w, rw (==_refl w) refl);
}

pub unlock-Inv :
    (s : System) (t : ℕ) (r : Lock × Option ℕ)
    → Inv s
    → s.phase t ≡ leaving
    → mutex_unlock s.lock ≡ ok r
    → Inv (record { lock = r.0; phase = woken s.phase t r.1 })
unfolding mutex_unlock
unlock-Inv s t r v at run = from s.lock.waiters refl
  where
    After : Lock × Option ℕ → Type 0
    After x = Inv (record { lock = x.0; phase = woken s.phase t x.1 })

    emptied : List ℕ → Outcome (Lock × Option ℕ)
    emptied ws = ok (record s.lock { value = false; waiters = ws }, none)

    from : (ws : List ℕ) → s.lock.waiters ≡ ws → After r
    from [] e =
        by_result After (mutex_unlock s.lock) (record s.lock { value = false; waiters = [] }, none)
          r (rw (v.locked t (ap owns at), ◌>>=◌, e) (ap emptied e)) run
          (subst (λ ws. After (record s.lock { value = false; waiters = ws }, none)) e
            (unlock_none s t v at e))
    from (w ∷ ws) e =
        by_result After (mutex_unlock s.lock)
          (record s.lock { value = false; waiters = ws }, some w) r
          (rw (v.locked t (ap owns at), ◌>>=◌, e) refl) run
          (unlock_some s t w ws v at (subst (Waits s.phase) e v.queued)
            (subst Distinct e v.distinct))
