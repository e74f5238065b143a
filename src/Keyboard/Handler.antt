-- ===== src/Keyboard/Handler.antt =====
-- src/kernel/keyboard.c: what one interrupt does to the driver.
use yuios.Common.{
  ℕ, ◌<◌, ◌≡◌, refl, ap, ◌∙◌, Bool, true, not, none, List, ◌==◌, arith, Bool-cases, inl, inr,
  if◌then◌else◌, length, length-set, get_or-set_self, ok,
}
use yuios.Fifo.{Fifo}
use yuios.Fifo.Ring
use yuios.Fifo.Ring.{contents}
use yuios.Fifo.Queue.{enqueue}
use yuios.Fifo.Run.{put-enqueue}
use yuios.Keyboard.{Keyboard, toggle, caps_applies, shifted, char_of, wake, deliver}
use yuios.Keyboard.Map.{Key, row, press, shift_state, inv, key}

-- The table is whole, and the buffer is a valid ring of 64 bytes.
pub record IsValid (kb : Keyboard) : Type 0 where
  pub rows : length kb.keymap ≡ 96
  pub ring : Ring.IsValid kb.fifo
  pub ring_size : kb.fifo.length ≡ 64

pub length-press :
    (keymap : List Key) (code ext : ℕ) (v : Bool) → length (press keymap code ext v) ≡ length keymap
length-press keymap code ext v = length-set keymap code _

-- The state of the lock keys aside, `toggle` leaves the driver alone.
pub record SameQueue (kb kb' : Keyboard) : Type 0 where
  pub keymap : kb'.keymap ≡ kb.keymap
  pub extcode : kb'.extcode ≡ kb.extcode
  pub fifo : kb'.fifo ≡ kb.fifo
  pub waiter : kb'.waiter ≡ kb.waiter
  pub woken : kb'.woken ≡ kb.woken

pub toggle-SameQueue : (kb : Keyboard) (makecode : ℕ) → SameQueue kb (toggle kb makecode)
unfolding toggle
toggle-SameQueue kb makecode = ground arith

pub SameQueue-IsValid : {kb kb' : Keyboard} → SameQueue kb kb' → IsValid kb → IsValid kb'
SameQueue-IsValid s v = record {
  rows = ap length s.keymap ∙ v.rows;
  ring = rw s.fifo v.ring;
  ring_size = ap (λ f. f.length) s.fifo ∙ v.ring_size;
}

-- What a character does to the buffer and to the waiting reader.
pub record Delivered (kb : Keyboard) (ch : ℕ) (kb' : Keyboard) : Type 0 where
  pub valid : IsValid kb'
  pub keymap : kb'.keymap ≡ kb.keymap
  pub locks : (kb'.capslock ≡ kb.capslock) × (kb'.extcode ≡ kb.extcode)
  pub bytes :
      contents kb'.fifo ≡ (if ch == inv then contents kb.fifo else enqueue 64 (contents kb.fifo) ch)
  pub reader :
      (kb'.waiter ≡ (if ch == inv then kb.waiter else none))
      × (kb'.woken ≡ (if ch == inv then kb.woken else (wake kb).woken))

wake-facts :
    (kb : Keyboard)
    → ((wake kb).keymap ≡ kb.keymap)
      × ((wake kb).fifo ≡ kb.fifo)
      × ((wake kb).capslock ≡ kb.capslock)
      × ((wake kb).extcode ≡ kb.extcode)
      × ((wake kb).waiter ≡ none)
unfolding wake
wake-facts kb = ground arith

woken-wake : (kb : Keyboard) (f : Fifo) → (wake (record kb { fifo = f })).woken ≡ (wake kb).woken
unfolding wake
woken-wake kb f = ground arith

-- For a valid driver a character is put at the end of the buffer, and the reader, if one waits, is
-- unblocked; no character changes nothing.
pub deliver-Delivered :
    (kb : Keyboard) (ch : ℕ)
    → IsValid kb
    → (kb' : Keyboard) × (deliver kb ch ≡ ok kb') × Delivered kb ch kb'
unfolding deliver
deliver-Delivered kb ch v = elim (Bool-cases (ch == inv)) [
  | inl e ↦ rw e (
    kb,
    refl,
    record {
      valid = v;
      keymap = refl;
      locks = (refl, refl);
      bytes = rw e;
      reader = rw e (refl, refl);
    },
  )
  | inr e ↦
      let (f, run, ring, len, held) =
        put-enqueue {f = kb.fifo} ch v.ring (omega (arith, v.ring_size)) in
      let held' : contents f ≡ enqueue 64 (contents kb.fifo) ch =
        held ∙ ap (λ n. enqueue n (contents kb.fifo) ch) v.ring_size in
      let same = wake-facts (record kb { fifo = f }) in
      rw (e, run)
        (
          wake (record kb { fifo = f }),
          refl,
          record {
            valid = record {
              rows = ap length same.0 ∙ v.rows;
              ring = rw same.1 ring;
              ring_size = ap (λ g. g.length) same.1 ∙ len ∙ v.ring_size;
            };
            keymap = same.0;
            locks = (same.2, same.3);
            bytes = rw e (ap contents same.1 ∙ held');
            reader = rw e (same.4, woken-wake kb f);
          },
        )
]

-- the character of a key that is pressed without an extended code, as a user would describe it: caps
-- lock and the shift keys each turn the choice of column
abbrev pub typed : Keyboard → ℕ → ℕ
typed kb code =
    let k = row kb.keymap code in
    let keymap = press kb.keymap code 2 true in
    if (if kb.capslock then not (shift_state keymap) else shift_state keymap)
    then k.shifted
    else k.plain

chars-press :
    (keymap : List Key) (code ext : ℕ) (v : Bool)
    → code < length keymap
    → ((row (press keymap code ext v) code).plain ≡ (row keymap code).plain)
      × ((row (press keymap code ext v) code).shifted ≡ (row keymap code).shifted)
chars-press keymap code ext v h = rw (get_or-set_self keymap code _ (key inv inv) h) (ground arith)

-- The second comparison of `'a' <= c <= 'z'` always holds.
caps_applies-capslock : (kb : Keyboard) (c : ℕ) → caps_applies kb c ≡ kb.capslock
unfolding caps_applies
caps_applies-capslock kb c = ground arith

pub char_of-typed :
    (kb kb' : Keyboard) (code : ℕ)
    → code < length kb.keymap
    → kb'.keymap ≡ press kb.keymap code 2 true
    → kb'.capslock ≡ kb.capslock
    → char_of kb' 2 code ≡ typed kb code
unfolding char_of shifted
char_of-typed kb kb' code h e c =
    let same = chars-press kb.keymap code 2 true h in
    rw (caps_applies-capslock kb' (row kb'.keymap code).plain, e, c, same.0, same.1) (ground arith)
