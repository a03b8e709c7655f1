-- ===== src/Keyboard/Tests.antt =====
-- A keyboard that someone types on, and the theorems of keyboard.c on it.

use rtbench.Common.{◌≡◌, refl, arith, none, some, List, [], ◌∷◌}
use rtbench.Keyboard.{
  Keyboard, Event, interrupt, getchar, kbc_isr, kbd_getchar, kbd_switch, take_code, run,
  inc_keyindx, shift_char, no_shift_char, no_num_lock_char,
}
use rtbench.Keyboard.Queue.{kept, arrive, run_queue}
use rtbench.Keyboard.Run.{run_refines, kbc_isr_overrun}

abbrev blank : Keyboard
blank = record {
  key_board_buffer = λ a. 0;
  key_indx = 7;
  key_buffer_out_indx = 9;
  num_chars_in_buffer = 3;
  escape_pressed = 1;
  shift_pressed = 1;
  caps_lock_pressed = 1;
  num_lock_pressed = 0;
}

-- Just before the ring's index wraps round.
abbrev near_end : Keyboard
near_end = record {
  key_board_buffer = λ a. 0;
  key_indx = 4095;
  key_buffer_out_indx = 4095;
  num_chars_in_buffer = 0;
  escape_pressed = 0;
  shift_pressed = 0;
  caps_lock_pressed = 0;
  num_lock_pressed = 0;
}

-- Shift down, A, shift up, B, the prefix and a keypad key.
abbrev typing : List Event
typing =
    interrupt 0x2A
    ∷ interrupt 0x1E
    ∷ interrupt 0x9E
    ∷ interrupt 0xAA
    ∷ interrupt 0x30
    ∷ interrupt 0xE0
    ∷ interrupt 0x48
    ∷ getchar
    ∷ getchar
    ∷ getchar
    ∷ getchar
    ∷ getchar
    ∷ getchar
    ∷ getchar
    ∷ []

run-typing :
    run near_end typing ≡ some 0 ∷ some b'A' ∷ some 0 ∷ some b'b' ∷ some 0 ∷ some 0x80 ∷ none ∷ []
unfolding run kbc_isr kbd_getchar kbd_switch inc_keyindx shift_char no_shift_char no_num_lock_char
run-typing = refl

run_refines_example :
    run near_end typing
    ≡ run_queue (record { codes = []; escape = 0; shift = 0; caps = 0; num = 0 }) typing
unfolding arrive kept
run_refines_example = run_refines typing {k = near_end} (omega arith) (omega arith)

-- One code pending.
abbrev one_key : Keyboard
one_key = record near_end { key_board_buffer = λ a. 0x1E; key_indx = 0; num_chars_in_buffer = 1 }

-- The ring full of key 0x10.
abbrev full : Keyboard
full = record near_end { key_board_buffer = λ a. 0x10; num_chars_in_buffer = 4096 }

kbc_isr_overrun_example :
    ((kbc_isr full 0x1E).num_chars_in_buffer ≡ 4097)
    × (kbd_getchar (kbc_isr full 0x1E) ≡ some (kbd_switch (take_code (kbc_isr full 0x1E)) 0x1E))
kbc_isr_overrun_example =
    kbc_isr_overrun {k = full} 0x1E (omega arith) refl (omega arith) (omega arith)
