-- ===== src/Keyboard/Keys.antt =====
-- src/kernel/keyboard.c: interrupts of a press and of a release, and any interrupt at all.
use yuios.Common.{
  ℕ, ◌+◌, ◌<◌, ◌≡◌, ◌≢◌, refl, ap, ◌∙◌, Bool, true, false, Option, none, some, ◌∷◌, Option-cases,
  List, ◌==◌, bit_or, arith, ltb, Bool-cases, inl, inr, if◌then◌else◌, length, get_or-set_self,
  set-set, ok, ◌>>=◌, lt→ltb, ==_false,
}
use yuios.Fifo.Ring.{contents}
use yuios.Fifo.Queue.{enqueue}
use yuios.Keyboard.{
  Keyboard, make_code, is_break, toggle, char_of, wake, deliver, key_event, handler,
}
use yuios.Keyboard.Map.{
  Key, press, inv, key, key_capslock, key_numlock, key_scrlock, key_print_screen,
}
use yuios.Keyboard.Scancode.{make_code-mod, is_break-leb}
use yuios.Keyboard.Handler.{
  IsValid, length-press, toggle-SameQueue, SameQueue-IsValid, deliver-Delivered, typed,
  char_of-typed,
}

pressed-IsValid :
    (kb : Keyboard) (code ext : ℕ) (v : Bool)
    → IsValid kb
    → IsValid (record kb { keymap = press kb.keymap code ext v })
pressed-IsValid kb code ext v valid = record {
  rows = length-press kb.keymap code ext v ∙ valid.rows;
  ring = valid.ring;
  ring_size = valid.ring_size;
}

key_event_break :
    (kb : Keyboard) (s ext code : ℕ)
    → IsValid kb
    → code < 96
    → is_break s ≡ true
    → key_event kb s ext code ≡ ok (record kb { keymap = press kb.keymap code ext false })
unfolding key_event
key_event_break kb s ext code valid h b =
    rw (lt→ltb code (length kb.keymap) (omega (arith, valid.rows)), b)

key_event_make :
    (kb : Keyboard) (s ext code : ℕ)
    → IsValid kb
    → code < 96
    → is_break s ≡ false
    → let kb' = toggle (record kb { keymap = press kb.keymap code ext true }) code in
      key_event kb s ext code ≡ deliver kb' (char_of kb' ext code)
unfolding key_event
key_event_make kb s ext code valid h b =
    rw (lt→ltb code (length kb.keymap) (omega (arith, valid.rows)), b)

key_event_total :
    (kb : Keyboard) (s ext code : ℕ)
    → IsValid kb
    → code < 96
    → (kb' : Keyboard) × (key_event kb s ext code ≡ ok kb') × IsValid kb'
key_event_total kb s ext code valid h = elim (Bool-cases (is_break s)) [
  | inl b ↦ (
    record kb { keymap = press kb.keymap code ext false },
    key_event_break kb s ext code valid h b,
    pressed-IsValid kb code ext false valid,
  )
  | inr b ↦
      let kb₁ = record kb { keymap = press kb.keymap code ext true } in
      let same = toggle-SameQueue kb₁ code in
      let (kb', run, done) =
        deliver-Delivered (toggle kb₁ code) (char_of (toggle kb₁ code) ext code)
          (SameQueue-IsValid same (pressed-IsValid kb code ext true valid)) in
      (kb', key_event_make kb s ext code valid h b ∙ run, done.valid)
]

after_prefix : (kb : Keyboard) → IsValid kb → IsValid (record kb { extcode = false })
after_prefix kb v = record { rows = v.rows; ring = v.ring; ring_size = v.ring_size }

-- From a valid state, whatever byte the controller delivers, the handler does not halt and leaves a
-- valid state.
pub handler-IsValid :
    (kb : Keyboard) (s : ℕ)
    → IsValid kb
    → s < 256
    → (kb' : Keyboard) × (handler kb s ≡ ok kb') × IsValid kb'
unfolding handler
handler-IsValid kb s valid h = elim (Bool-cases (s == 0xe0)) [
  | inl e ↦ rw e (
    record kb { extcode = true },
    refl,
    record { rows = valid.rows; ring = valid.ring; ring_size = valid.ring_size },
  )
  | inr e ↦ rw e (after (if kb.extcode then bit_or s 0xe000 else s) (if kb.extcode then 3 else 2))
]
  where
    kb₀ : Keyboard
    kb₀ = record kb { extcode = false }

    after :
        (code ext : ℕ)
        → (kb' : Keyboard) × ((if ltb key_print_screen (make_code code)
              then ok kb₀
              else key_event kb₀ code ext (make_code code))
            ≡ ok kb')
          × IsValid kb'
    after code ext = elim (Bool-cases (ltb key_print_screen (make_code code))) [
      | inl out ↦ rw out (kb₀, refl, after_prefix kb valid)
      | inr on ↦
          rw on
            (key_event_total kb₀ code ext (make_code code) (after_prefix kb valid) (ground arith))
    ]

module _ (kb : Keyboard) (code : ℕ) (valid : IsValid kb) (plain : kb.extcode ≡ false)
    (h : code < 96) where
  handler_make : handler kb code ≡ key_event (record kb { extcode = false }) code 2 code
  unfolding handler
  handler_make =
      let m : make_code code ≡ code = omega (arith, (make_code-mod code (omega arith)).0) in
      let in_table : ltb key_print_screen code ≡ false = ground arith in
      rw (==_false code 0xe0 (omega arith), plain, m, in_table)

  handler_break :
      code + 128 ≢ 0xe0
      → handler kb (code + 128)
        ≡ ok (record kb { extcode = false; keymap = press kb.keymap code 2 false })
  unfolding handler
  handler_break ne =
      let m : make_code (code + 128) ≡ code =
        omega (arith, (make_code-mod (code + 128) (omega arith)).0) in
      let in_table : ltb key_print_screen code ≡ false = ground arith in
      let b : is_break (code + 128) ≡ true =
        (is_break-leb (code + 128) (omega arith)).0 ∙ ground arith in
      rw (
        ==_false (code + 128) 0xe0 ne,
        plain,
        m,
        in_table,
        key_event_break (record kb { extcode = false }) (code + 128) 2 code (after_prefix kb valid)
            h b,
      )

-- the tasks that were unblocked, with the one that waits, if one does
abbrev pub joined : Option ℕ → List ℕ → List ℕ
joined none tasks = tasks
joined (some task) tasks = task ∷ tasks

wake-joined : (kb : Keyboard) → (wake kb).woken ≡ joined kb.waiter kb.woken
unfolding wake
wake-joined kb = elim (Option-cases kb.waiter) [ inl e ↦ rw e refl | inr (task, e) ↦ rw e refl ]

-- what a press leaves behind
pub record Pressed (kb : Keyboard) (code : ℕ) (kb' : Keyboard) : Type 0 where
  pub valid : IsValid kb'
  pub extcode : kb'.extcode ≡ false
  pub keymap : kb'.keymap ≡ press kb.keymap code 2 true
  pub bytes : contents kb'.fifo ≡ (
      if typed kb code == inv
      then contents kb.fifo
      else enqueue 64 (contents kb.fifo) (typed kb code))
  pub waiter : kb'.waiter ≡ (if typed kb code == inv then kb.waiter else none)
  pub woken : kb'.woken ≡ (if typed kb code == inv then kb.woken else joined kb.waiter kb.woken)

pub handler-Pressed :
    (kb : Keyboard) (code : ℕ)
    → IsValid kb
    → kb.extcode ≡ false
    → code < 96
    → code ≢ key_numlock
    → code ≢ key_capslock
    → code ≢ key_scrlock
    → (kb' : Keyboard) × (handler kb code ≡ ok kb') × Pressed kb code kb'
unfolding toggle
handler-Pressed kb code valid plain h num caps scr =
    let kb₁ = record kb { extcode = false; keymap = press kb.keymap code 2 true } in
    let still : toggle kb₁ code ≡ kb₁ =
      rw
        (
          ==_false code key_numlock num,
          ==_false code key_capslock caps,
          ==_false code key_scrlock scr,
        )
        refl in
    let b : is_break code ≡ false = (is_break-leb code (omega arith)).0 ∙ ground arith in
    let make =
      key_event_make (record kb { extcode = false }) code 2 code (after_prefix kb valid) h b in
    let ch : char_of kb₁ 2 code ≡ typed kb code =
      char_of-typed kb kb₁ code (omega (arith, valid.rows)) refl refl in
    let (kb', run, done) =
      deliver-Delivered kb₁ (typed kb code)
        (pressed-IsValid (record kb { extcode = false }) code 2 true (after_prefix kb valid)) in
    (
      kb',
      handler_make kb code valid plain h
          ∙ make
          ∙ ap (λ k. deliver k (char_of k 2 code)) still
          ∙ ap (deliver kb₁) ch
          ∙ run,
      record {
        valid = done.valid;
        extcode = done.locks.1;
        keymap = done.keymap;
        bytes = done.bytes;
        waiter = done.reader.0;
        woken =
            done.reader.1
            ∙ ap (λ w. if typed kb code == inv then kb.woken else w) (wake-joined kb₁);
      },
    )

press-press :
    (keymap : List Key) (code : ℕ)
    → code < length keymap
    → press (press keymap code 2 true) code 2 false ≡ press keymap code 2 false
press-press keymap code h =
    rw (get_or-set_self keymap code _ (key inv inv) h) (set-set keymap code _ _)

-- Pressing and releasing such a key leaves its row marked as up and every other row as it was.
pub handler-handler :
    (kb : Keyboard) (code : ℕ)
    → IsValid kb
    → kb.extcode ≡ false
    → code < 96
    → code ≢ key_numlock
    → code ≢ key_capslock
    → code ≢ key_scrlock
    → (kb' : Keyboard) × ((handler kb code >>= λ k. handler k (code + 128)) ≡ ok kb')
      × (kb'.keymap ≡ press kb.keymap code 2 false)
handler-handler kb code valid plain h num caps scr =
    let (kb₁, run, done) = handler-Pressed kb code valid plain h num caps scr in
    (
      record kb₁ { extcode = false; keymap = press kb₁.keymap code 2 false },
      rw (run, ◌>>=◌) (handler_break kb₁ code done.valid done.extcode h (omega arith)),
      rw done.keymap (press-press kb.keymap code (omega (arith, valid.rows))),
    )
