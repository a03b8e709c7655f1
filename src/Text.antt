-- ===== src/Text.antt =====
-- tools/src/baremetal/smallos/src_c/utilities.c: NUL-terminated strings and number conversion.
-- A C string is its address in a `Mem`. A loop that looks for a NUL takes fuel, and `none` means
-- that the fuel ran out before one was found.
pub mod Strings
pub mod Copies
pub mod Digits
pub mod Printing
pub mod Itoa
pub mod Atoi
mod Tests
use rtbench.Common.{
  ℕ, zero, suc, ◌+◌, ◌-◌, ◌*◌, ◌/◌, ◌%◌, ◌^◌, Bool, true, false, ◌&&◌, Option, none, some, ltb, leb,
  ◌==◌, if◌then◌else◌,
}
use mathlib.Core.Option
use rtbench.Memory.{Mem, store}

-- Unsigned 32-bit wrap-around; an `int` is its bit pattern.
abbrev pub u32 : ℕ → ℕ
u32 n = n % 2 ^ 32

-- `x--` and `-x` of a 32-bit pattern.
abbrev pub dec32 : ℕ → ℕ
dec32 n = (n + 2 ^ 32 - 1) % 2 ^ 32

abbrev pub neg32 : ℕ → ℕ
neg32 n = (2 ^ 32 - n) % 2 ^ 32

-- `while (*instr++) indx++;`
unfoldable pub strlen_loop : ℕ → Mem → ℕ → ℕ → Option ℕ
strlen_loop zero m instr indx = none
strlen_loop (suc fuel) m instr indx =
    let rest = strlen_loop fuel m (instr + 1) (u32 (indx + 1)) in
    if m instr == 0 then some indx else rest

unfoldable pub strlen : ℕ → Mem → ℕ → Option ℕ
unfolding strlen_loop
strlen fuel m instr = strlen_loop fuel m instr 0

-- `while (*src) dst[indx++] = *src++;` and the final `dst[indx] = '\0'`.
unfoldable pub strncpy_loop : ℕ → Mem → ℕ → ℕ → ℕ → Option Mem
strncpy_loop zero m dst src indx = none
strncpy_loop (suc fuel) m dst src indx =
    let rest = strncpy_loop fuel (store m (dst + indx) (m src)) dst (src + 1) (u32 (indx + 1)) in
    if m src == 0 then some (store m (dst + indx) 0) else rest

unfoldable pub strncpy : ℕ → Mem → ℕ → ℕ → ℕ → Option Mem
unfolding strncpy_loop
strncpy fuel m dst src offset = strncpy_loop fuel m dst src offset

-- The `while (len)` loop of `strrev`; `sIndx` wraps below 0.
unfoldable pub strrev_loop : Mem → ℕ → ℕ → ℕ → ℕ → ℕ → Mem
strrev_loop m src dst s_indx d_indx zero = store m (dst + d_indx) 0
strrev_loop m src dst s_indx d_indx (suc len) =
    strrev_loop (store m (dst + d_indx) (m (src + s_indx))) src dst (dec32 s_indx)
      (u32 (d_indx + 1)) len

unfoldable pub strrev : ℕ → Mem → ℕ → ℕ → Option Mem
unfolding strrev_loop strlen
strrev fuel m src dst =
    Option.map (λ len. strrev_loop m src dst (dec32 len) 0 len) (strlen fuel m src)

-- `lw_itoa`: one digit, or 'X'.
unfoldable pub lw_itoa : ℕ → ℕ → ℕ
lw_itoa val base =
    if base == 10 && leb val 9
    then b'0' + val
    else if base == 16 && leb val 9
    then b'0' + val
    else if base == 16 && (leb 10 val && leb val 15)
    then b'a' + (val - 10)
    else b'X'

-- `(remainder < 10) ? remainder + '0' : remainder + 'a' - 10`
abbrev pub digit : ℕ → ℕ
digit r = if ltb r 10 then r + b'0' else r + b'a' - 10

-- The `do ... while (ud /= divisor)` loop of `itoa`, which leaves `p` behind the last digit.
unfoldable pub itoa_loop : ℕ → ℕ → Mem → ℕ → ℕ → Option (Mem × ℕ)
itoa_loop zero divisor m p ud = none
itoa_loop (suc fuel) divisor m p ud =
    let m' = store m p (digit (ud % divisor)) in
    let rest = itoa_loop fuel divisor m' (p + 1) (ud / divisor) in
    if ud / divisor == 0 then some (m', p + 1) else rest

-- `itoa (buf, base, d)` with its local `tmp_buf` at address `tmp`.
unfoldable pub itoa_tail : ℕ → ℕ → ℕ → Mem → ℕ → ℕ → ℕ → Option Mem
unfolding itoa_loop strrev
itoa_tail fuel tmp divisor m p buf ud = elim (itoa_loop fuel divisor m p ud) [
  | none ↦ none
  | some (m', p') ↦ strrev fuel (store m' p' 0) tmp buf
]

abbrev pub is_negative : ℕ → Bool
is_negative d = leb (2 ^ 31) d

unfoldable pub itoa : ℕ → ℕ → Mem → ℕ → ℕ → ℕ → Option Mem
unfolding itoa_tail
itoa fuel tmp m buf base d =
    if base == b'd' && is_negative d
    then itoa_tail fuel tmp 10 (store m tmp b'-') (tmp + 1) (buf + 1) (neg32 d)
    else if base == b'x'
    then itoa_tail fuel tmp 16 m tmp buf d
    else itoa_tail fuel tmp 10 m tmp buf d

-- IS_NUM, IS_HEX_UPPER and IS_HEX_LOWER of stdlib.h.
abbrev pub is_num : ℕ → Bool
is_num ch = leb b'0' ch && leb ch b'9'

abbrev pub is_hex_upper : ℕ → Bool
is_hex_upper ch = leb b'A' ch && leb ch b'F'

abbrev pub is_hex_lower : ℕ → Bool
is_hex_lower ch = leb b'a' ch && leb ch b'f'

-- `tval` keeps its value at a character that is no digit.
abbrev pub digit_value : ℕ → ℕ → ℕ
digit_value tval ch =
    if is_num ch
    then ch - b'0'
    else if is_hex_upper ch
    then ch - b'A' + 10
    else if is_hex_lower ch
    then ch - b'a' + 10
    else tval

-- `for (; indx < len; indx++)` over the `n` characters from `p`.
unfoldable pub atoi_loop : Mem → ℕ → ℕ → ℕ → ℕ → ℕ → ℕ
atoi_loop m base p tval val zero = val
atoi_loop m base p tval val (suc n) =
    let tval' = digit_value tval (m p) in
    atoi_loop m base (p + 1) tval' (u32 (u32 (val * base) + tval')) n

-- How many characters `atoi` skips: a leading 0x, a '-', and a '+' in second place.
unfoldable pub atoi_skip : Mem → ℕ → ℕ
atoi_skip m str =
    (if m str == b'0' && (if m (str + 1) == b'x' then true else m (str + 1) == b'X') then 2 else 0)
    + (if m str == b'-' then 1 else 0)
    + (if m (str + 1) == b'+' then 1 else 0)

-- `tval` starts uninitialised, as `junk`.
unfoldable pub atoi : ℕ → ℕ → Mem → ℕ → ℕ → Option ℕ
atoi fuel junk m str base =
    Option.map
      (λ len.
        let indx = atoi_skip m str in
        let val = atoi_loop m base (str + indx) junk 0 (len - indx) in
        if m str == b'-' then neg32 val else val)
      (strlen fuel m str)
