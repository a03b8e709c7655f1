-- ===== src/Printf.antt =====
-- tools/src/baremetal/smallos/src_c/utilities.c: console_printf and kprintf. Formats, strings and the
-- buffers stand in one memory of bytes; characters go to the VGA console. The lock that is held while a
-- format is printed is SpinLock's. Loops take fuel.
pub mod Pieces
pub mod Numbers
pub mod Steps
pub mod Ready
pub mod Places
pub mod Format
pub mod Both
pub mod Items
pub mod Reading
pub mod Calls
mod Tests
use rtbench.Common.{
  ℕ, zero, suc, ◌+◌, ◌-◌, ◌%◌, ltb, ◌==◌, if◌then◌else◌, Bool, true, false, List, [], ◌∷◌, Option,
  none, some, ◌>>=◌,
}
use rtbench.Memory.{Mem, memset}
use rtbench.Text.{strlen, strncpy, itoa}
use rtbench.Video.{Vga, vga_putchar}
use rtbench.Serial.{serial_printf}

-- Where the 32 bytes of itoa's own buffer, of `tmp_buf` and of `int_buf` are.
pub record Buffers : Type 0 where
  pub local_buf : ℕ
  pub tmp_buf : ℕ
  pub int_buf : ℕ

-- The variables of `console_printf` with the memory, the console and the arguments that are left.
pub record Printing : Type 0 where
  pub memory : Mem
  pub vga : Vga
  pub args : List ℕ
  pub lead_fill : ℕ
  pub lead_zero : Bool
  pub str : ℕ

abbrev pub putchar : ℕ → Printing → Printing
putchar ch s = record s { vga = vga_putchar s.vga ch }

-- `printStr`.
unfoldable pub print_str_from : ℕ → ℕ → Printing → Option Printing
print_str_from zero p s = none
print_str_from (suc fuel) p s =
    let rest = print_str_from fuel (p + 1) (putchar (s.memory p) s) in
    if s.memory p == 0 then some s else rest

abbrev pub next_arg : List ℕ → Printing → Option (ℕ × Printing)
next_arg [] s = none
next_arg (a ∷ rest) s = some (a, record s { args = rest })

-- `va_arg (ap, int)`; none when there is no argument left.
unfoldable pub va_arg : Printing → Option (ℕ × Printing)
va_arg s = next_arg s.args s

-- The test for leading zeros, when the number of `slen` characters stands in `tmp_buf`.
unfoldable pub print_filled : ℕ → Buffers → ℕ → Printing → Option Printing
print_filled fuel b slen s =
    if ltb slen s.lead_fill
    then (strncpy fuel s.memory b.int_buf b.tmp_buf (s.lead_fill - slen) >>= λ m.
        print_str_from fuel b.int_buf (record s { memory = m; lead_fill = 0 }))
    else print_str_from fuel b.tmp_buf s

-- `if (leadZero == TRUE) { leadZero = FALSE; memset (int_buf, '0', 32); }`
unfoldable pub clear_fill : Buffers → Printing → Printing
clear_fill b s =
    if s.lead_zero
    then record s { lead_zero = false; memory = memset s.memory b.int_buf b'0' 32 }
    else s

-- The case of the letters d, i and x for the number `intval`.
unfoldable pub print_number : ℕ → Buffers → ℕ → ℕ → Printing → Option Printing
print_number fuel b ch intval s =
    itoa fuel b.local_buf (clear_fill b s).memory b.tmp_buf ch intval >>= λ m.
    strlen fuel m b.tmp_buf >>= λ slen.
    print_filled fuel b slen (record (clear_fill b s) { memory = m })

-- The cases of the `switch`.
pub data Conversion : Type 0 where
  integer_arg character_arg string_arg zero_flag other : Conversion
  fill_width : ℕ → Conversion

unfoldable pub conversion : ℕ → Conversion
conversion ch =
    if ch == b'd'
    then integer_arg
    else if ch == b'i'
    then integer_arg
    else if ch == b'x'
    then integer_arg
    else if ch == b'c'
    then character_arg
    else if ch == b's'
    then string_arg
    else if ch == b'0'
    then zero_flag
    else if ch == b'2'
    then fill_width 2
    else if ch == b'4'
    then fill_width 4
    else if ch == b'8'
    then fill_width 8
    else other

-- From `pickNextChar` on, with the character at `q`: the state and the place behind the conversion.
unfoldable pub pick_next_char : ℕ → Buffers → ℕ → Printing → Option (Printing × ℕ)
pick_next_char zero b q s = none
pick_next_char (suc fuel) b q s = elim (conversion (s.memory q)) [
  | integer_arg ↦
      va_arg s >>= λ a. print_number fuel b (s.memory q) (a.0) (a.1) >>= λ t. some (t, q + 1)
  | character_arg ↦ va_arg s >>= λ a. some (putchar (a.0 % 256) (a.1), q + 1)
  | string_arg ↦ va_arg s >>= λ a.
      print_str_from fuel (a.0) (record (a.1) { str = a.0 }) >>= λ t. some (t, q + 1)
  | zero_flag ↦ pick_next_char fuel b (q + 1) (record s { lead_zero = true })
  | other ↦ some (putchar (s.memory s.str) s, q + 1)
  | fill_width n ↦ pick_next_char fuel b (q + 1) (record s { lead_zero = true; lead_fill = n })
]

-- The loop over the format, from `p` on.
unfoldable pub print_format : ℕ → Buffers → ℕ → Printing → Option Printing
print_format zero b p s = none
print_format (suc fuel) b p s =
    let plain = print_format fuel b (p + 1) (putchar (s.memory p) s) in
    let formatted = pick_next_char fuel b (p + 1) s >>= λ t. print_format fuel b (t.1) (t.0) in
    if s.memory p == 0 then some s else if s.memory p == b'%' then formatted else plain

-- `str` is uninitialised.
unfoldable pub console_printf : ℕ → Buffers → ℕ → Mem → ℕ → List ℕ → Vga → Option Printing
console_printf fuel b junk m fmt args vga =
    print_format fuel b fmt
      (record { memory = m; vga = vga; args = args; lead_fill = 0; lead_zero = false; str = junk })

-- What `kprintf` changes: the memory, the bytes sent on the serial line and the console.
pub record Output : Type 0 where
  pub memory : Mem
  pub sent : List ℕ
  pub vga : Vga

-- Both outputs are configured; the console gets the same arguments.
unfoldable pub kprintf : ℕ → Buffers → ℕ → ℕ → List ℕ → Output → Option Output
kprintf fuel b junk fmt args o = serial_printf fuel o.memory fmt args o.sent >>= λ sent.
    console_printf fuel b junk o.memory fmt args o.vga >>= λ s.
    some (record { memory = s.memory; sent = sent; vga = s.vga })

-- A call of `kprintf`: the place of its format, and its arguments.
pub record Call : Type 0 where
  pub format : ℕ
  pub args : List ℕ

-- One call of `kprintf` after the other.
unfoldable pub kprintf_calls : ℕ → Buffers → ℕ → List Call → Output → Option Output
kprintf_calls fuel b junk [] o = some o
kprintf_calls fuel b junk (c ∷ cs) o =
    kprintf fuel b junk c.format c.args o >>= λ o'. kprintf_calls fuel b junk cs o'
