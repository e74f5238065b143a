-- ===== src/Keyboard/Examples.antt =====
-- The keyboard after `keyboard_init`, with a reader that waits.
use yuios.Common.{true, false, some, [], replicate}
use yuios.Keyboard.{Keyboard}
use yuios.Keyboard.Map.{initial_keymap}

abbrev started : Keyboard
started = record {
  keymap = initial_keymap;
  capslock = true;
  scrlock = false;
  numlock = false;
  extcode = false;
  fifo = record { buf = replicate 64 0; length = 64; head = 63; tail = 63 };
  waiter = some 4;
  leds = [];
  woken = [];
}
