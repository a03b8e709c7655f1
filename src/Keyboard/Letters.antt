-- ===== src/Keyboard/Letters.antt =====
-- keyboard.c: which character a letter key gives under the shift keys and caps lock.
use rtbench.Common.{
  ℕ, ◌+◌, ◌≤◌, ◌<◌, ◌≡◌, ◌≢◌, ◌⊎◌, refl, arith, true, ◌&&◌, not, leb, ltb, ◌==◌, if◌then◌else◌,
  every_below, every_below_lem,
}
use rtbench.Keyboard.{
  Keyboard, kbd_switch, shift_char, no_shift_char, left_shift, right_shift, left_shift_unpressed,
  right_shift_unpressed, caps_lock_down,
}

-- A scan code of one of the 26 letter keys.
abbrev pub IsLetter : ℕ → Type 0
IsLetter c = (c ≤ 0x3A) × (b'a' ≤ no_shift_char c) × (no_shift_char c ≤ b'z')

letter_table :
    every_below
      (λ c.
        if leb b'a' (no_shift_char c) && leb (no_shift_char c) b'z'
        then (shift_char c + 32 == no_shift_char c)
          && (ltb 0 c
              && (not (c == left_shift) && (not (c == right_shift) && not (c == caps_lock_down))))
        else true)
      0x3B
    ≡ true
unfolding every_below shift_char no_shift_char
letter_table = refl

letter_facts :
    (c : ℕ)
    → IsLetter c
    → (shift_char c + 32 ≡ no_shift_char c)
      × (0 < c)
      × (c ≢ left_shift)
      × (c ≢ right_shift)
      × (c ≢ caps_lock_down)
letter_facts c l = ground (arith, every_below_lem _ 0x3B c (omega arith) letter_table)

letter-char :
    (k : Keyboard) (c : ℕ)
    → IsLetter c
    → (kbd_switch k c).0 ≡ (if k.shift_pressed == 1 then shift_char c else no_shift_char c)
unfolding kbd_switch
letter-char k c l = ground (arith, letter_facts c l)

shift_down :
    (k : Keyboard) (s : ℕ)
    → (s ≡ left_shift) ⊎ (s ≡ right_shift)
    → (kbd_switch k s).1.shift_pressed ≡ (if k.caps_lock_pressed == 0 then 1 else 0)
unfolding kbd_switch
shift_down k s h = ground arith

shift_up :
    (k : Keyboard) (u : ℕ)
    → (u ≡ left_shift_unpressed) ⊎ (u ≡ right_shift_unpressed)
    → (kbd_switch k u).1.shift_pressed ≡ 0
unfolding kbd_switch
shift_up k u h = ground arith

-- After a shift key goes down, without caps lock, a letter key gives the capital, and after a shift
-- key goes up again the small letter.
pub shift_letter :
    (k : Keyboard) (c s u : ℕ)
    → IsLetter c
    → k.caps_lock_pressed ≡ 0
    → (s ≡ left_shift) ⊎ (s ≡ right_shift)
    → (u ≡ left_shift_unpressed) ⊎ (u ≡ right_shift_unpressed)
    → ((kbd_switch (kbd_switch k s).1 c).0 + 32 ≡ no_shift_char c)
      × ((kbd_switch (kbd_switch (kbd_switch k s).1 u).1 c).0 ≡ no_shift_char c)
shift_letter k c s u l caps hs hu =
    let down : Keyboard = (kbd_switch k s).1 in
    let up : Keyboard = (kbd_switch down u).1 in
    (
      ground (arith, letter_facts c l, letter-char down c l, shift_down k s hs),
      ground (arith, letter-char up c l, shift_up down u hu),
    )

-- Caps lock does not give capitals: while it is on, a letter key gives the small letter after a
-- shift key went down too.
pub caps_lock_letter :
    (k : Keyboard) (c s : ℕ)
    → IsLetter c
    → k.caps_lock_pressed ≢ 0
    → (s ≡ left_shift) ⊎ (s ≡ right_shift)
    → (kbd_switch (kbd_switch k s).1 c).0 ≡ no_shift_char c
caps_lock_letter k c s l caps hs =
    ground (arith, letter-char (kbd_switch k s).1 c l, shift_down k s hs)
