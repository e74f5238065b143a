-- ===== src/Keyboard.antt =====
-- src/kernel/keyboard.c: the interrupt handler of the keyboard. A call gets the byte that it reads
-- from the data port. The words sent to the controller (`leds`) and the tasks that are unblocked
-- (`woken`) are logged, the newest first; the waits for the controller are not modelled.
mod Examples
pub mod Map
pub mod Scancode
pub mod Handler
pub mod Keys
use yuios.Common.{
  ℕ, ◌+◌, ◌*◌, ◌≤◌, ◌<◌, Bool, true, false, not, ◌&&◌, ◌||◌, Option, none, some, List, [], ◌∷◌,
  bit_and, bit_or, ltb, leb, ◌==◌, if◌then◌else◌, length, Outcome, ok, ◌>>=◌, ◌>>◌, access,
}
use yuios.Fifo
use yuios.Fifo.{Fifo}
use Map.{
  Key, row, press, shift_state, inv, key_capslock, key_numlock, key_scrlock, key_slash,
  key_print_screen, code_print_screen_down,
}

-- the file's static variables, and the two logs
pub record Keyboard : Type 0 where
  pub keymap : List Key
  pub capslock : Bool
  pub scrlock : Bool
  pub numlock : Bool
  pub extcode : Bool
  pub fifo : Fifo
  pub waiter : Option ℕ
  pub leds : List ℕ
  pub woken : List ℕ

abbrev pub bool_to_nat : Bool → ℕ
bool_to_nat b = if b then 1 else 0

-- `set_leds`: the byte that is sent
unfoldable pub set_leds : Keyboard → Keyboard
set_leds kb = record kb {
  leds =
      (bool_to_nat kb.capslock * 4 + bool_to_nat kb.numlock * 2 + bool_to_nat kb.scrlock) ∷ kb.leds;
}

-- the make code of a scan code; the comparison comes after the mask, as in the source
unfoldable pub make_code : ℕ → ℕ
make_code scancode =
    let makecode = bit_and scancode 0x7f in
    if makecode == code_print_screen_down then key_print_screen else makecode

unfoldable pub is_break : ℕ → Bool
is_break scancode = not (bit_and scancode 0x80 == 0)

-- the switches of the lock keys
unfoldable pub toggle : Keyboard → ℕ → Keyboard
unfolding set_leds
toggle kb makecode =
    if makecode == key_numlock
    then set_leds (record kb { numlock = not kb.numlock })
    else if makecode == key_capslock
    then set_leds (record kb { capslock = not kb.capslock })
    else if makecode == key_scrlock
    then set_leds (record kb { scrlock = not kb.scrlock })
    else kb

-- `capslock_state && ('a' <= c <= 'z')`: in C the first comparison gives 0 or 1, which the second
-- compares with 'z'.
unfoldable pub caps_applies : Keyboard → ℕ → Bool
caps_applies kb c = kb.capslock && leb (bool_to_nat (leb b'a' c)) b'z'

unfoldable pub shifted : Keyboard → ℕ → Bool
unfolding caps_applies
shifted kb makecode =
    let shift = if caps_applies kb (row kb.keymap makecode).plain then true else false in
    if shift_state kb.keymap then not shift else shift

-- the character of a key that is pressed
unfoldable pub char_of : Keyboard → (ext makecode : ℕ) → ℕ
unfolding shifted
char_of kb ext makecode =
    let k = row kb.keymap makecode in
    if ext == 3 && not (makecode == key_slash)
    then k.shifted
    else if shifted kb makecode
    then k.shifted
    else k.plain

-- the wake-up of the reader
unfoldable pub wake : Keyboard → Keyboard
wake kb = elim kb.waiter [
  | none ↦ kb
  | some task ↦ record kb { waiter = none; woken = task ∷ kb.woken }
]

-- `fifo_put` and the wake-up
unfoldable pub deliver : Keyboard → ℕ → Outcome Keyboard
deliver kb ch =
    if ch == inv
    then ok kb
    else do fifo' ← Fifo.put kb.fifo ch; ok (wake (record kb { fifo = fifo' }))

-- what follows once the code is known to be in the table
unfoldable pub key_event : Keyboard → (scancode ext makecode : ℕ) → Outcome Keyboard
key_event kb scancode ext makecode = do
  access (ltb makecode (length kb.keymap))
  if is_break scancode
      then ok (record kb { keymap = press kb.keymap makecode ext false })
      else (let kb' = toggle (record kb { keymap = press kb.keymap makecode ext true }) makecode in
          deliver kb' (char_of kb' ext makecode))

-- `keyboard_handler`
unfoldable pub handler : Keyboard → ℕ → Outcome Keyboard
handler kb scancode =
    if scancode == 0xe0
    then ok (record kb { extcode = true })
    else (let ext = if kb.extcode then 3 else 2 in
        let code = if kb.extcode then bit_or scancode 0xe000 else scancode in
        let kb' = record kb { extcode = false } in
        let makecode = make_code code in
        if ltb key_print_screen makecode then ok kb' else key_event kb' code ext makecode)
