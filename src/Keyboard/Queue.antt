-- ===== src/Keyboard/Queue.antt =====
-- What a client of keyboard.c sees, with no ring: the codes not yet read, oldest first, and the
-- state of the modifier keys.
use rtbench.Common.{
  ℕ, ◌<◌, Bool, ◌&&◌, ◌||◌, Option, none, some, List, [], ◌∷◌, ◌++◌, leb, ltb, ◌==◌, if◌then◌else◌,
  length,
}
use rtbench.Keyboard.{
  Event, interrupt, getchar, keyboard_buffer_sz, escape_code, left_shift, right_shift,
  left_shift_unpressed, right_shift_unpressed, caps_lock_down, caps_lock_unpressed, num_lock_down,
  num_lock_unpressed, keypad_home_7, keypad_del_dot, shift_char, no_shift_char, num_lock_char,
  no_num_lock_char,
}

pub record Typed : Type 0 where
  pub codes : List ℕ
  pub escape : ℕ
  pub shift : ℕ
  pub caps : ℕ
  pub num : ℕ

-- What a scan code means to the reader.
pub data Key : Type 0 where
  shift_down shift_up prefix num_on num_off caps_on caps_off : Key
  letter pad : ℕ → Key
  other : Key

unfoldable pub classify : ℕ → Key
classify c =
    if c == left_shift || c == right_shift
    then shift_down
    else if c == left_shift_unpressed || c == right_shift_unpressed
    then shift_up
    else if c == escape_code
    then prefix
    else if c == num_lock_down
    then num_on
    else if c == num_lock_unpressed
    then num_off
    else if c == caps_lock_down
    then caps_on
    else if c == caps_lock_unpressed
    then caps_off
    else if leb 0x01 c && leb c 0x3A
    then letter c
    else if leb keypad_home_7 c && leb c keypad_del_dot
    then pad c
    else other

-- The codes that are kept: all key presses, and the releases that the reader needs.
unfoldable pub kept : ℕ → Bool
kept c =
    ltb 0 c
    && (ltb c 0x80
        || (c == num_lock_unpressed
            || (c == caps_lock_unpressed
                || (c == left_shift_unpressed || c == right_shift_unpressed))))

-- A code arrives. Of the prefix codes every other one is dropped, unless the reader has cleared the
-- flag in between.
unfoldable pub arrive : Typed → ℕ → Typed
arrive t c =
    if c == escape_code
    then (if t.escape == 0
        then record t { codes = t.codes ++ (c ∷ []); escape = 1 }
        else record t { escape = 0 })
    else if kept c
    then record t { codes = t.codes ++ (c ∷ []) }
    else t

-- A prefix code that finds the flag clear takes the next code with it.
abbrev pub after_prefix : List ℕ → Typed → Typed
after_prefix [] t = record t { escape = 1 }
after_prefix (c ∷ cs) t = record t { escape = 1; codes = cs }

unfoldable pub key : Key → Typed → ℕ × Typed
key shift_down t = (0, record t { shift = if t.caps == 0 then 1 else 0 })
key shift_up t = (0, record t { shift = 0 })
key prefix t = (0, if t.escape == 1 then record t { escape = 0 } else after_prefix t.codes t)
key num_on t = (0, record t { num = 1 })
key num_off t = (0, record t { num = 0 })
key caps_on t = (0, record t { caps = 1 })
key caps_off t = (0, record t { caps = 0 })
key (letter c) t = (if t.shift == 1 then shift_char c else no_shift_char c, t)
key (pad c) t = (if t.num == 0 then no_num_lock_char c else num_lock_char c, t)
key other t = (0, t)

abbrev pub read_codes : List ℕ → Typed → Option (ℕ × Typed)
read_codes [] t = none
read_codes (c ∷ cs) t = some (key (classify c) (record t { codes = cs }))

unfoldable pub read : Typed → Option (ℕ × Typed)
read t = read_codes t.codes t

abbrev pub got_typed : Option (ℕ × Typed) → Typed → Option ℕ × Typed
got_typed none t = (none, t)
got_typed (some (c, t')) t = (some c, t')

unfoldable pub run_queue : Typed → List Event → List (Option ℕ)
run_queue t [] = []
run_queue t (interrupt c ∷ es) = run_queue (arrive t c) es
run_queue t (getchar ∷ es) = let (r, t') = got_typed (read t) t in r ∷ run_queue t' es

-- Every code that arrives is a byte and finds room.
abbrev pub Room : Typed → List Event → Type 0
Room t [] = Unit
Room t (interrupt c ∷ es) = (length t.codes < keyboard_buffer_sz) × (c < 256) × Room (arrive t c) es
Room t (getchar ∷ es) = Room (got_typed (read t) t).1 es
