-- ===== src/Timer/Registers.antt =====
-- src_c/lwrte.c: the model-specific registers and the time stamp, by EAX and EDX; and the timer interrupt
-- of src_c/timer.c, with the place of its format.
use rtbench.Common.{
  ℕ, ◌+◌, ◌*◌, ◌/◌, ◌%◌, ◌^◌, ◌<◌, ◌≡◌, refl, ◌∙◌, arith, bit_or, bit_and, bit_or-eq_add,
  bit_or_comm, bit_and-high_field, bit_and_mask, [], ◌∷◌, ◌==◌, if◌then◌else◌, eq→==,
}
use rtbench.Printf.{Call}

-- What each register holds, low and high half.
pub record Msrs : Type 0 where
  pub low : ℕ → ℕ
  pub high : ℕ → ℕ

unfoldable pub write_msr : Msrs → ℕ → ℕ → Msrs
write_msr r msr value = record {
  low = λ n. if n == msr then value % 2 ^ 32 else r.low n;
  high = λ n. if n == msr then value / 2 ^ 32 % 2 ^ 32 else r.high n;
}

-- "=A": EDX and EAX as one value.
unfoldable pub read_msr : Msrs → ℕ → ℕ
read_msr r msr = bit_or (r.low msr) (r.high msr * 2 ^ 32)

abbrev pub msr_reg_cpu : ℕ
msr_reg_cpu = 0x198

unfoldable pub get_cpu_multiplier : Msrs → ℕ
get_cpu_multiplier r = bit_and (read_msr r msr_reg_cpu) 0x1f00 / 2 ^ 8 % 2 ^ 32

-- `__timestamp`, from what RDTSC gives.
unfoldable pub timestamp : ℕ → ℕ → ℕ
timestamp lo hi = bit_or (hi * 2 ^ 32) lo

-- `timer_callback`: the count, and the call of `kprintf`.
unfoldable pub timer_callback : ℕ → ℕ → ℕ × Call
timer_callback format tick_cnt =
    let ticks = (tick_cnt + 1) % 2 ^ 32 in (ticks, record { format = format; args = ticks ∷ [] })

-- A 64-bit value is read back as it was written, whatever else the registers hold.
pub read_msr-write_msr :
    (r : Msrs) (msr value : ℕ) → value < 2 ^ 64 → read_msr (write_msr r msr value) msr ≡ value
unfolding read_msr write_msr
read_msr-write_msr r msr value lt = rw (eq→== msr msr refl) (
    bit_or_comm (value % 2 ^ 32) (value / 2 ^ 32 % 2 ^ 32 * 2 ^ 32)
    ∙ bit_or-eq_add 32 (value / 2 ^ 32 % 2 ^ 32) (value % 2 ^ 32) (omega arith)
    ∙ omega (arith, lt))

-- The multiplier is the field of bits 8 to 12.
pub get_cpu_multiplier_lem :
    (r : Msrs) → get_cpu_multiplier r ≡ read_msr r msr_reg_cpu / 2 ^ 8 % 2 ^ 5
unfolding get_cpu_multiplier
get_cpu_multiplier_lem r =
    let v = read_msr r msr_reg_cpu in
    omega (arith, bit_and-high_field 8 v 31, bit_and_mask 5 (v / 2 ^ 8))

pub timestamp_lem : (lo hi : ℕ) → lo < 2 ^ 32 → timestamp lo hi ≡ hi * 2 ^ 32 + lo
unfolding timestamp
timestamp_lem lo hi lt = bit_or-eq_add 32 hi lo lt
