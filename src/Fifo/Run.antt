-- ===== src/Fifo/Run.antt =====
-- src/lib/fifo.c: calls of `fifo_get` and `fifo_put` in any order.
use yuios.Common.{
  List-cases, ℕ, ◌+◌, ◌≤◌, ◌≡◌, refl, sym, ap, ◌∙◌, List, [], ◌∷◌, ◌++◌, arith, true, false, length,
  inl, inr, Bool-cases, Outcome, ok, halt, assertion, ◌>>=◌, ◌==◌, lt→ltb,
}
use mathlib.Core.Path.{ap₂}
use yuios.Fifo.{Fifo, full, get, put, make_room}
use yuios.Fifo.Ring.{IsValid, contents}
use yuios.Fifo.Refine.{
  empty_iff, full_iff, taken, taken-IsValid, get_lem, written, written-IsValid, contents-written,
}
use yuios.Fifo.Queue.{Op, take, give, dequeue, enqueue, run_queue}

-- the calls on the ring
unfoldable pub run : List Op → Fifo → Outcome (List ℕ × Fifo)
run [] f = ok ([], f)
run (give x ∷ ops) f = put f x >>= λ f'. run ops f'
run (take ∷ ops) f = get f >>= λ (x, f'). run ops f' >>= λ (out, f''). ok (x ∷ out, f'')

module _ {f : Fifo} (valid : IsValid f) where
  -- On an empty ring `fifo_get` stops the kernel.
  get-empty : contents f ≡ [] → get f ≡ halt assertion
  unfolding get
  get-empty h = ground (arith, empty_iff valid, ap length h)

  pub put_with_room : (x : ℕ) → full f ≡ false → put f x ≡ ok (written f x)
  unfolding put make_room
  put_with_room x h =
      rw (h, make_room, lt→ltb f.head (length f.buf) (omega (arith, valid.storage, valid.head_in)))

  not_full_after :
      (x : ℕ) (r : List ℕ) → contents f ≡ x ∷ r → full f ≡ true → full (taken f) ≡ false
  not_full_after x r h e = ground (
    arith,
    full_iff valid,
    full_iff (taken-IsValid valid),
    ap length h,
    ap length (get_lem valid x r h).1,
  )

put-full :
    {f : Fifo} (x y : ℕ) (r : List ℕ)
    → IsValid f
    → 2 ≤ f.length
    → full f ≡ true
    → contents f ≡ y ∷ r
    → (f' : Fifo) × (put f x ≡ ok f')
      × IsValid f'
      × (f'.length ≡ f.length)
      × (contents f' ≡ enqueue f.length (contents f) x)
unfolding enqueue put make_room
put-full {f} x y r valid two e h =
    let got = get_lem valid y r h in
    let after = taken-IsValid valid in
    let room = not_full_after valid y r h e in
    let at_full : (length (contents f) + 1 == f.length) ≡ true = sym (full_iff valid) ∙ e in
    (
      written (taken f) x,
      rw (
        e,
        make_room,
        got.0,
        ◌>>=◌,
        room,
        ◌>>=◌,
        lt→ltb f.head (length f.buf) (omega (arith, valid.storage, valid.head_in)),
      ),
      written-IsValid after x,
      refl,
      rw (at_full, h) (contents-written after x room ∙ ap (λ q. q ++ (x ∷ [])) got.1),
    )

-- For a valid ring of two bytes or more, `fifo_put` does not halt: one byte is dropped if the ring is
-- full, the new byte is the last, and the ring stays valid, of the same length.
pub put-enqueue :
    {f : Fifo} (x : ℕ)
    → IsValid f
    → 2 ≤ f.length
    → (f' : Fifo) × (put f x ≡ ok f')
      × IsValid f'
      × (f'.length ≡ f.length)
      × (contents f' ≡ enqueue f.length (contents f) x)
unfolding enqueue
put-enqueue {f} x valid two = elim (Bool-cases (full f)) [
  | inr e ↦ (
    written f x,
    put_with_room valid x e,
    written-IsValid valid x,
    refl,
    contents-written valid x e ∙ ground (arith, full_iff valid),
  )
  | inl e ↦ elim (List-cases (contents f)) [
    | inl none ↦ absurd (ground (arith, full_iff valid, ap length none))
    | inr (y, r, some) ↦ put-full x y r valid two e some
  ]
]

-- the result of a run as the queue sees it
abbrev pub view : Outcome (List ℕ × Fifo) → Outcome (List ℕ × List ℕ)
view out = out >>= λ (bytes, f). ok (bytes, contents f)

view-cons :
    (x : ℕ) (m : Outcome (List ℕ × Fifo))
    → view (m >>= λ (out, f). ok (x ∷ out, f)) ≡ (view m >>= λ (out, q). ok (x ∷ out, q))
view-cons x (ok m) = refl
view-cons x (halt e) = refl

-- No sequence of calls tells a valid ring of two bytes or more from the bounded queue of its bytes:
-- both return the same bytes, leave the same contents, and stop the kernel at the same call.
pub run_refines :
    (ops : List Op) (f : Fifo)
    → IsValid f
    → 2 ≤ f.length
    → view (run ops f) ≡ run_queue f.length ops (contents f)
unfolding run run_queue dequeue
run_refines [] f valid two = refl
run_refines (give x ∷ ops) f valid two =
    let (f', e, valid', same, held) = put-enqueue x valid two in
    rw e (run_refines ops f' valid' (omega arith) ∙ ap₂ (λ n q. run_queue n ops q) same held)
run_refines (take ∷ ops) f valid two = elim (List-cases (contents f)) [
  | inl none ↦ rw (get-empty valid none, none)
  | inr (y, r, h) ↦
      let got = get_lem valid y r h in
      rw (
        got.0,
        h,
        view-cons y (run ops (taken f)),
        run_refines ops (taken f) (taken-IsValid valid) two,
        got.1,
      )
]
