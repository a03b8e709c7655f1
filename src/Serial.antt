-- ===== src/Serial.antt =====
-- tools/src/baremetal/smallos/src_c/serial.c: printing on the serial port. The output is the list of
-- bytes sent to the data port, oldest first; waiting for the transmitter sends nothing.
pub mod Hexadecimal
pub mod Decimal
pub mod Format
pub mod Line
mod Tests
use rtbench.Common.{
  ℕ, zero, suc, ◌+◌, ◌-◌, ◌*◌, ◌/◌, ◌%◌, ◌^◌, bit_and, Bool, true, false, ◌&&◌, ltb, leb, ◌==◌,
  if◌then◌else◌, Option, none, some, List, [], ◌∷◌, ◌++◌,
}
use mathlib.Core.Option
use rtbench.Memory.{Mem, read32}

-- What `serial_putchar` sends for a character.
abbrev pub sent : ℕ → List ℕ
sent a = if a == 10 then 13 ∷ a ∷ [] else a ∷ []

unfoldable pub serial_putchar : List ℕ → ℕ → List ℕ
serial_putchar out a = out ++ sent a

-- The digit that `printHex` prints for a value below 16.
abbrev pub hex_char : ℕ → ℕ
hex_char tmp = if leb 0xA tmp then tmp - 0xA + b'a' else tmp + b'0'

-- `for (i = 28; i > 0; i -= 4)`, by `i / 4`.
unfoldable pub hex_loop : ℕ → ℕ → ℕ → List ℕ → List ℕ
hex_loop zero n no_zeroes out = out
hex_loop (suc j) n no_zeroes out =
    let tmp = bit_and (n / 2 ^ (4 * suc j)) 0xF in
    let skipped = hex_loop j n no_zeroes out in
    let printed = hex_loop j n 0 (serial_putchar out (hex_char tmp)) in
    if tmp == 0 && (if no_zeroes == 0 then false else true) then skipped else printed

unfoldable pub print_hex : ℕ → List ℕ → List ℕ
print_hex n out = serial_putchar (hex_loop 7 n 1 out) (hex_char (bit_and n 0xF))

-- The `while (acc > 0)` loop of `printDec`, for an `acc` that is not negative: the array `c`.
unfoldable pub dec_loop : ℕ → ℕ → Option (List ℕ)
dec_loop zero acc = none
dec_loop (suc fuel) acc =
    let rest = dec_loop fuel (acc / 10) in
    if acc == 0 then some [] else Option.map (λ c. (b'0' + acc % 10) ∷ c) rest

-- `while (i >= 0) c2[i--] = c[j++];`: what is in `c2` behind the place `i`.
unfoldable pub copy_back : List ℕ → List ℕ → List ℕ
copy_back [] c2 = c2
copy_back (x ∷ c) c2 = copy_back c (x ∷ c2)

-- `printStr` for a string of an array.
unfoldable pub print_chars : List ℕ → List ℕ → List ℕ
print_chars [] out = out
print_chars (c ∷ cs) out =
    let rest = print_chars cs (serial_putchar out c) in if c == 0 then out else rest

-- `printDec`; a pattern from 2^31 is a negative `acc`, with which the loop has no round.
unfoldable pub print_dec : ℕ → ℕ → List ℕ → Option (List ℕ)
print_dec fuel n out =
    if n == 0
    then some (serial_putchar out b'0')
    else if leb (2 ^ 31) n
    then some (print_chars (copy_back [] []) out)
    else Option.map (λ c. print_chars (copy_back c []) out) (dec_loop fuel n)

-- `printStr`.
unfoldable pub print_str_at : ℕ → Mem → ℕ → List ℕ → Option (List ℕ)
print_str_at zero m p out = none
print_str_at (suc fuel) m p out =
    let rest = print_str_at fuel m (p + 1) (serial_putchar out (m p)) in
    if m p == 0 then some out else rest

-- What the character behind a `%` prints, with the words that `va_arg` is left with; `none` where
-- there is no argument left.
unfoldable pub print_arg : ℕ → Mem → ℕ → List ℕ → List ℕ → Option (List ℕ × List ℕ)
print_arg fuel m ch [] out =
    if ch == b'd'
    then none
    else if ch == b'x'
    then none
    else if ch == b'c'
    then none
    else if ch == b's'
    then none
    else some ([], out)
print_arg fuel m ch (a ∷ ap) out =
    if ch == b'd'
    then Option.map (λ o. (ap, o)) (print_dec fuel a out)
    else if ch == b'x'
    then some (ap, print_hex a out)
    else if ch == b'c'
    then some (ap, serial_putchar out (a % 256))
    else if ch == b's'
    then Option.map (λ o. (ap, o)) (print_str_at fuel m a out)
    else some (a ∷ ap, out)

-- `serial_printf`, from the place `p` of the format on, between taking the lock and releasing it. A
-- `%` takes the next character with it, be it the end of the format.
unfoldable pub serial_printf : ℕ → Mem → ℕ → List ℕ → List ℕ → Option (List ℕ)
serial_printf zero m p ap out = none
serial_printf (suc fuel) m p ap out =
    let plain = serial_printf fuel m (p + 1) ap (serial_putchar out (m p)) in
    let formatted : Option (List ℕ) = elim (print_arg fuel m (m (p + 1)) ap out) [
      | none ↦ none
      | some (ap', out') ↦ serial_printf fuel m (p + 2) ap' out'
    ] in
    if m p == 0 then some out else if m p == b'%' then formatted else plain
