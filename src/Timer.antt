-- ===== src/Timer.antt =====
-- tools/src/baremetal/smallos/src_c/timer.c and include/timer.h: the interval timer. `port` is the
-- sequence of bytes that channel 0 gives, one for each read. The write to the mode register before each
-- count is in the history of Apic.
pub mod Wait
pub mod Registers
mod Tests
use rtbench.Common.{
  ℕ, zero, suc, ◌+◌, ◌*◌, ◌/◌, ◌%◌, ◌^◌, bit_or, bit_and, leb, if◌then◌else◌, Option, none, some,
  List, [], ◌∷◌, ◌++◌,
}

abbrev pub pit_reg_mode : ℕ
pit_reg_mode = 0x43

abbrev pub pit_reg_ch0 : ℕ
pit_reg_ch0 = 0x40

abbrev pub pit_freq : ℕ
pit_freq = 0x1234DD

-- The ports and bytes that `setup_pit` writes behind its pause: the divisor, the low byte first.
unfoldable pub divisor_writes : ℕ → List (ℕ × ℕ)
divisor_writes pit_hz =
    let divisor = pit_freq / pit_hz in
    (pit_reg_ch0, bit_and divisor 0xFF % 256)
    ∷ (pit_reg_ch0, bit_and (divisor / 2 ^ 8) 0xFF % 256)
    ∷ []

-- The count that `get_pit_count` puts together from the reads `i` and `i + 1`.
unfoldable pub get_pit_count : (ℕ → ℕ) → ℕ → ℕ
get_pit_count port i = bit_or (port i) (port (i + 1) * 2 ^ 8)

-- `do { previous = current; current = get_pit_count (); } while (previous >= current);`, from the read
-- `i` on; the number of the next read when it ends.
unfoldable pub wait_loop : ℕ → (ℕ → ℕ) → ℕ → ℕ → Option ℕ
wait_loop zero port i current = none
wait_loop (suc fuel) port i previous =
    let current = get_pit_count port i in
    let rest = wait_loop fuel port (i + 2) current in
    if leb current previous then rest else some (i + 2)

unfoldable pub wait_pit_wrap : ℕ → (ℕ → ℕ) → ℕ → Option ℕ
wait_pit_wrap fuel port i = wait_loop fuel port (i + 2) (get_pit_count port i)
