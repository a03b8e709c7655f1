-- ===== src/Keyboard.antt =====
-- tools/src/baremetal/smallos/src_c/keyboard.c and include/keyboard.h: the ring of scan codes that
-- the interrupt handler fills, and `kbd_getchar`, which turns them into characters.
-- The globals and the console's `keyBufferOutIndx` are one record. A `u8` flag is a number.
pub mod Queue
pub mod Refine
pub mod Run
pub mod Letters
mod Tests
use rtbench.Common.{
  ℕ, ◌+◌, ◌-◌, ◌^◌, ◌%◌, Bool, true, false, ◌&&◌, ◌||◌, not, Option, none, some, List, [], ◌∷◌,
  bit_and, leb, ltb, ◌==◌, if◌then◌else◌, get_or,
}
use rtbench.Memory.{Mem, store}

pub record Keyboard : Type 0 where
  pub key_board_buffer : Mem
  pub key_indx : ℕ
  pub key_buffer_out_indx : ℕ
  pub num_chars_in_buffer : ℕ
  pub escape_pressed : ℕ
  pub shift_pressed : ℕ
  pub caps_lock_pressed : ℕ
  pub num_lock_pressed : ℕ

abbrev pub escape_code : ℕ
escape_code = 0xE0

abbrev pub left_shift : ℕ
left_shift = 0x2A

abbrev pub right_shift : ℕ
right_shift = 0x36

abbrev pub left_shift_unpressed : ℕ
left_shift_unpressed = 0xAA

abbrev pub right_shift_unpressed : ℕ
right_shift_unpressed = 0xB6

abbrev pub caps_lock_down : ℕ
caps_lock_down = 0x3A

abbrev pub caps_lock_unpressed : ℕ
caps_lock_unpressed = 0xBA

abbrev pub num_lock_down : ℕ
num_lock_down = 0x45

abbrev pub num_lock_unpressed : ℕ
num_lock_unpressed = 0xC5

abbrev pub keypad_home_7 : ℕ
keypad_home_7 = 0x47

abbrev pub keypad_del_dot : ℕ
keypad_del_dot = 0x53

abbrev pub keyboard_buffer_sz : ℕ
keyboard_buffer_sz = 4096

-- INC_KEYINDX: `(indx + 1) & KEYBOARD_MASK`.
unfoldable pub inc_keyindx : ℕ → ℕ
inc_keyindx indx = bit_and (indx + 1) (keyboard_buffer_sz - 1)

abbrev pub no_shift_scan_map : List ℕ
no_shift_scan_map =
    0x00 ∷ 0x1B ∷ b'1' ∷ b'2' ∷ b'3' ∷ b'4' ∷ b'5' ∷ b'6' ∷ b'7' ∷ b'8' ∷ b'9' ∷ b'0' ∷ b'-' ∷ b'='
    ∷ 0x08 ∷ 9 ∷ b'q' ∷ b'w' ∷ b'e' ∷ b'r' ∷ b't' ∷ b'y' ∷ b'u' ∷ b'i' ∷ b'o' ∷ b'p' ∷ b'[' ∷ b']'
    ∷ 10 ∷ 0x1D ∷ b'a' ∷ b's' ∷ b'd' ∷ b'f' ∷ b'g' ∷ b'h' ∷ b'j' ∷ b'k' ∷ b'l' ∷ b';' ∷ 0x27 ∷ 0x60
    ∷ 0x2A ∷ 0x5C ∷ b'z' ∷ b'x' ∷ b'c' ∷ b'v' ∷ b'b' ∷ b'n' ∷ b'm' ∷ b',' ∷ b'.' ∷ b'/' ∷ 0x36
    ∷ 0x37 ∷ 0x38 ∷ b' ' ∷ 0x3A ∷ []

abbrev pub shift_scan_map : List ℕ
shift_scan_map =
    0x00 ∷ 0x1B ∷ b'!' ∷ b'@' ∷ b'#' ∷ b'$' ∷ b'%' ∷ b'^' ∷ b'&' ∷ b'*' ∷ b'(' ∷ b')' ∷ b'_' ∷ b'+'
    ∷ 0x08 ∷ 9 ∷ b'Q' ∷ b'W' ∷ b'E' ∷ b'R' ∷ b'T' ∷ b'Y' ∷ b'U' ∷ b'I' ∷ b'O' ∷ b'P' ∷ b'{' ∷ b'}'
    ∷ 10 ∷ 0x1D ∷ b'A' ∷ b'S' ∷ b'D' ∷ b'F' ∷ b'G' ∷ b'H' ∷ b'J' ∷ b'K' ∷ b'L' ∷ b':' ∷ 0x22 ∷ 0x60
    ∷ 0x2A ∷ 0x5C ∷ b'Z' ∷ b'X' ∷ b'C' ∷ b'V' ∷ b'B' ∷ b'N' ∷ b'M' ∷ b'<' ∷ b'>' ∷ b'?' ∷ 0x36
    ∷ 0x37 ∷ 0x38 ∷ b' ' ∷ 0x3A ∷ []

abbrev pub num_kbd_scan : List ℕ
num_kbd_scan =
    b'7' ∷ b'8' ∷ b'9' ∷ b'-' ∷ b'4' ∷ b'5' ∷ b'6' ∷ b'+' ∷ b'1' ∷ b'2' ∷ b'3' ∷ b'0' ∷ b'.' ∷ []

abbrev pub num_kbd_scan_no_lock : List ℕ
num_kbd_scan_no_lock =
    0x85 ∷ 0x80 ∷ 0x87 ∷ b'-' ∷ 0x82 ∷ b'5' ∷ 0x83 ∷ b'+' ∷ 0x86 ∷ 0x81 ∷ 0x88 ∷ 0x84 ∷ 0x89 ∷ []

-- `keyBoardBuffer[keyIndx] = scan_code; INC_KEYINDX(keyIndx); numCharsInBuffer++;`
abbrev pub put : Keyboard → ℕ → Keyboard
put k scan_code = record k {
  key_board_buffer = store k.key_board_buffer k.key_indx scan_code;
  key_indx = inc_keyindx k.key_indx;
  num_chars_in_buffer = (k.num_chars_in_buffer + 1) % 2 ^ 32;
}

-- The codes that `kbcISR` stores in a `case` of their own.
abbrev pub always_stored : ℕ → Bool
always_stored c =
    c == num_lock_down
    || c == num_lock_unpressed
    || c == caps_lock_down
    || c == caps_lock_unpressed
    || c == left_shift_unpressed
    || c == right_shift_unpressed

-- One entry of a scan map.
unfoldable pub shift_char : ℕ → ℕ
shift_char c = get_or shift_scan_map c 0

unfoldable pub no_shift_char : ℕ → ℕ
no_shift_char c = get_or no_shift_scan_map c 0

unfoldable pub num_lock_char : ℕ → ℕ
num_lock_char c = get_or num_kbd_scan (c - keypad_home_7) 0

unfoldable pub no_num_lock_char : ℕ → ℕ
no_num_lock_char c = get_or num_kbd_scan_no_lock (c - keypad_home_7) 0

-- `kbcISR`, with the byte that it reads from the keyboard port.
unfoldable pub kbc_isr : Keyboard → ℕ → Keyboard
kbc_isr k scan_code =
    if scan_code == 0
    then k
    else if scan_code == escape_code
    then (if k.escape_pressed == 0
        then put (record k { escape_pressed = 1 }) scan_code
        else record k { escape_pressed = 0 })
    else if always_stored scan_code
    then put k scan_code
    else if bit_and scan_code 0x80 == 0
    then put k scan_code
    else k

-- `kbcInit`, and the indices that `mp_main` sets beside it. The buffer and `numLockPressed` are
-- left as they are.
unfoldable pub kbc_init : Keyboard → Keyboard
kbc_init k = record k {
  key_indx = 0;
  key_buffer_out_indx = 0;
  num_chars_in_buffer = 0;
  escape_pressed = 0;
  shift_pressed = 0;
  caps_lock_pressed = 0;
}

-- The translation of a key in the shift range or on the keypad; 0 for any other.
abbrev pub translate : Keyboard → ℕ → ℕ
translate k c =
    if leb 0x01 c && leb c 0x3A
    then (if k.shift_pressed == 1 then shift_char c else no_shift_char c)
    else if leb keypad_home_7 c && leb c keypad_del_dot
    then (if k.num_lock_pressed == 0 then no_num_lock_char c else num_lock_char c)
    else 0

-- Taking one code out of the ring.
abbrev pub take_code : Keyboard → Keyboard
take_code k = record k {
  key_buffer_out_indx = inc_keyindx k.key_buffer_out_indx;
  num_chars_in_buffer = (k.num_chars_in_buffer + 2 ^ 32 - 1) % 2 ^ 32;
}

-- The `switch` of `kbd_getchar` on the code taken: the character returned and the new state.
unfoldable pub kbd_switch : Keyboard → ℕ → ℕ × Keyboard
kbd_switch k c =
    if c == left_shift || c == right_shift
    then (0, record k { shift_pressed = if k.caps_lock_pressed == 0 then 1 else 0 })
    else if c == left_shift_unpressed || c == right_shift_unpressed
    then (0, record k { shift_pressed = 0 })
    else if c == escape_code
    then (if k.escape_pressed == 1
        then (0, record k { escape_pressed = 0 })
        else if k.num_chars_in_buffer == 0
        then (0, record k { escape_pressed = 1 })
        else (0, take_code (record k { escape_pressed = 1 })))
    else if c == num_lock_down
    then (0, record k { num_lock_pressed = 1 })
    else if c == num_lock_unpressed
    then (0, record k { num_lock_pressed = 0 })
    else if c == caps_lock_down
    then (0, record k { caps_lock_pressed = 1 })
    else if c == caps_lock_unpressed
    then (0, record k { caps_lock_pressed = 0 })
    else (translate k c, k)

-- `kbd_getchar`; `none` while it spins for a code to come.
unfoldable pub kbd_getchar : Keyboard → Option (ℕ × Keyboard)
kbd_getchar k =
    if k.num_chars_in_buffer == 0
    then none
    else some (kbd_switch (take_code k) (k.key_board_buffer k.key_buffer_out_indx))

-- The interrupt handler and the reader in some order, with what each call of the reader returns.
pub data Event : Type 0 where
  interrupt : ℕ → Event
  getchar : Event

abbrev pub got : Option (ℕ × Keyboard) → Keyboard → Option ℕ × Keyboard
got none k = (none, k)
got (some (c, k')) k = (some c, k')

unfoldable pub run : Keyboard → List Event → List (Option ℕ)
run k [] = []
run k (interrupt c ∷ es) = run (kbc_isr k c) es
run k (getchar ∷ es) = let (r, k') = got (kbd_getchar k) k in r ∷ run k' es
