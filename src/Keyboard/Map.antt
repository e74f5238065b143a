-- ===== src/Keyboard/Map.antt =====
-- src/kernel/keyboard.c: the key table, and the codes of the keys that the driver names.
use yuios.Common.{ℕ, Bool, false, List, [], ◌∷◌, ◌||◌, get_or, set, if◌then◌else◌, ◌==◌}

-- a row of `keymap`: the two characters, and whether the key and its extended variant are down
pub record Key : Type 0 where
  pub plain : ℕ
  pub shifted : ℕ
  pub down : Bool
  pub ext_down : Bool

-- `INV`, which is no character
abbrev pub inv : ℕ
inv = 0

abbrev pub key : ℕ → ℕ → Key
key a b = record { plain = a; shifted = b; down = false; ext_down = false }

-- the constants of `KEY` that the handler compares with
abbrev pub key_ctrl_l : ℕ
key_ctrl_l = 0x1d

abbrev pub key_shift_l : ℕ
key_shift_l = 0x2a

abbrev pub key_slash : ℕ
key_slash = 0x35

abbrev pub key_shift_r : ℕ
key_shift_r = 0x36

abbrev pub key_alt_l : ℕ
key_alt_l = 0x38

abbrev pub key_capslock : ℕ
key_capslock = 0x3a

abbrev pub key_numlock : ℕ
key_numlock = 0x45

abbrev pub key_scrlock : ℕ
key_scrlock = 0x46

abbrev pub key_print_screen : ℕ
key_print_screen = 0x5f

-- `CODE_PRINT_SCREEN_DOWN`
abbrev pub code_print_screen_down : ℕ
code_print_screen_down = 0xb7

-- `keymap[code]`, a blank row outside the table
abbrev pub row : List Key → ℕ → Key
row keymap code = get_or keymap code (key inv inv)

-- `keymap[code][ext] = v`, where `ext` is 2 or 3
abbrev pub press : List Key → ℕ → ℕ → Bool → List Key
press keymap code ext v =
    let k = row keymap code in
    set keymap code (if ext == 3 then record k { ext_down = v } else record k { down = v })

-- `shift_state`
abbrev pub shift_state : List Key → Bool
shift_state keymap = (row keymap key_shift_l).down || (row keymap key_shift_r).down

-- the table at boot
abbrev pub initial_keymap : List Key
initial_keymap =
    key inv inv
    ∷ key 0x1b 0x1b
    ∷ key b'1' b'!'
    ∷ key b'2' b'@'
    ∷ key b'3' b'#'
    ∷ key b'4' b'$'
    ∷ key b'5' b'%'
    ∷ key b'6' b'^'
    ∷ key b'7' b'&'
    ∷ key b'8' b'*'
    ∷ key b'9' b'('
    ∷ key b'0' b')'
    ∷ key b'-' b'_'
    ∷ key b'=' b'+'
    ∷ key 8 8
    ∷ key 9 9
    ∷ key b'q' b'Q'
    ∷ key b'w' b'W'
    ∷ key b'e' b'E'
    ∷ key b'r' b'R'
    ∷ key b't' b'T'
    ∷ key b'y' b'Y'
    ∷ key b'u' b'U'
    ∷ key b'i' b'I'
    ∷ key b'o' b'O'
    ∷ key b'p' b'P'
    ∷ key b'[' b'{'
    ∷ key b']' b'}'
    ∷ key 10 10
    ∷ key inv inv
    ∷ key b'a' b'A'
    ∷ key b's' b'S'
    ∷ key b'd' b'D'
    ∷ key b'f' b'F'
    ∷ key b'g' b'G'
    ∷ key b'h' b'H'
    ∷ key b'j' b'J'
    ∷ key b'k' b'K'
    ∷ key b'l' b'L'
    ∷ key b';' b':'
    ∷ key 39 34
    ∷ key b'`' b'~'
    ∷ key inv inv
    ∷ key 92 b'|'
    ∷ key b'z' b'Z'
    ∷ key b'x' b'X'
    ∷ key b'c' b'C'
    ∷ key b'v' b'V'
    ∷ key b'b' b'B'
    ∷ key b'n' b'N'
    ∷ key b'm' b'M'
    ∷ key b',' b'<'
    ∷ key b'.' b'>'
    ∷ key b'/' b'?'
    ∷ key inv inv
    ∷ key b'*' b'*'
    ∷ key inv inv
    ∷ key b' ' b' '
    ∷ key inv inv
    ∷ key inv inv
    ∷ key inv inv
    ∷ key inv inv
    ∷ key inv inv
    ∷ key inv inv
    ∷ key inv inv
    ∷ key inv inv
    ∷ key inv inv
    ∷ key inv inv
    ∷ key inv inv
    ∷ key inv inv
    ∷ key inv inv
    ∷ key b'7' inv
    ∷ key b'8' inv
    ∷ key b'9' inv
    ∷ key b'-' b'-'
    ∷ key b'4' inv
    ∷ key b'5' inv
    ∷ key b'6' inv
    ∷ key b'+' b'+'
    ∷ key b'1' inv
    ∷ key b'2' inv
    ∷ key b'3' inv
    ∷ key b'0' inv
    ∷ key b'.' 0x7F
    ∷ key inv inv
    ∷ key inv inv
    ∷ key inv inv
    ∷ key inv inv
    ∷ key inv inv
    ∷ key inv inv
    ∷ key inv inv
    ∷ key inv inv
    ∷ key inv inv
    ∷ key inv inv
    ∷ key inv inv
    ∷ key inv inv
    ∷ []
