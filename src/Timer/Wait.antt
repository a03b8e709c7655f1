-- ===== src/Timer/Wait.antt =====
-- timer.c: how long `wait_pit_wrap` waits, and what the timer is set to.
use rtbench.Common.{
  ℕ, zero, suc, ◌+◌, ◌*◌, ◌/◌, ◌%◌, ◌^◌, ◌≤◌, ◌<◌, ◌≡◌, refl, ap, ◌∙◌, arith, bit_and, bit_and_mask,
  bit_or-eq_add, bit_or_comm, le→leb, gt→leb, some, [], ◌∷◌,
}
use rtbench.Text.Digits.{div-lt}
use rtbench.Timer.{divisor_writes, get_pit_count, wait_loop, wait_pit_wrap, pit_freq}

-- A count of two bytes, the low one read first.
pub get_pit_count_lem :
    (port : ℕ → ℕ) (i : ℕ) → port i < 256 → get_pit_count port i ≡ port i + port (i + 1) * 256
unfolding get_pit_count
get_pit_count_lem port i h =
    bit_or_comm (port i) (port (i + 1) * 2 ^ 8)
    ∙ bit_or-eq_add 8 (port (i + 1)) (port i) h
    ∙ omega arith

-- The counts at two equal places.
count_at : (port : ℕ → ℕ) (a b : ℕ) → a ≡ b → get_pit_count port a ≡ get_pit_count port b
count_at port a b e = ap (get_pit_count port) e

wait_loop_lem :
    (k fuel : ℕ) (port : ℕ → ℕ) (i : ℕ)
    → k < fuel
    → ((j : ℕ) → j < k → get_pit_count port (i + 2 * suc j) ≤ get_pit_count port (i + 2 * j))
    → get_pit_count port (i + 2 * k) < get_pit_count port (i + 2 * suc k)
    → wait_loop fuel port (i + 2) (get_pit_count port i) ≡ some (i + 2 * (k + 2))
unfolding wait_loop
wait_loop_lem k zero port i f down up = absurd (omega arith)
wait_loop_lem zero (suc fuel) port i f down up =
    rw
      (gt→leb (get_pit_count port (i + 2)) (get_pit_count port i) (
        omega (
          arith,
          up,
          count_at port (i + 2 * 1) (i + 2) (omega arith),
          count_at port (i + 2 * 0) i (omega arith),
        )))
      (ap some (omega arith))
wait_loop_lem (suc k) (suc fuel) port i f down up =
    rw
      (le→leb (get_pit_count port (i + 2)) (get_pit_count port i) (
        omega (
          arith,
          down 0 (omega arith),
          count_at port (i + 2 * 1) (i + 2) (omega arith),
          count_at port (i + 2 * 0) i (omega arith),
        )))
      (wait_loop_lem k fuel port (i + 2) (omega arith)
          (λ j lt.
            (omega (
              arith,
              down (suc j) (omega arith),
              count_at port (i + 2 * suc (suc j)) (i + 2 + 2 * suc j) (omega arith),
              count_at port (i + 2 * suc j) (i + 2 + 2 * j) (omega arith),
            )))
          (omega (
            arith,
            up,
            count_at port (i + 2 * suc (suc k)) (i + 2 + 2 * suc k) (omega arith),
            count_at port (i + 2 * suc k) (i + 2 + 2 * k) (omega arith),
          ))
        ∙ ap some (omega arith))

-- `wait_pit_wrap`, which begins with the read `i`, returns behind the first count that is greater than
-- the count before it, where that is the count after the one with the number `k` and the fuel exceeds
-- `k`.
pub wait_pit_wrap_lem :
    (k fuel : ℕ) (port : ℕ → ℕ) (i : ℕ)
    → k < fuel
    → ((j : ℕ) → j < k → get_pit_count port (i + 2 * suc j) ≤ get_pit_count port (i + 2 * j))
    → get_pit_count port (i + 2 * k) < get_pit_count port (i + 2 * suc k)
    → wait_pit_wrap fuel port i ≡ some (i + 2 * (k + 2))
unfolding wait_pit_wrap
wait_pit_wrap_lem = wait_loop_lem

-- For a frequency from 19 Hz on, `setup_pit` writes the whole divisor, the low byte first.
pub divisor_writes_lem :
    (pit_hz : ℕ)
    → 18 < pit_hz
    → (lo : ℕ) × (hi : ℕ) × (divisor_writes pit_hz ≡ (0x40, lo) ∷ (0x40, hi) ∷ [])
      × (lo < 256)
      × (hi < 256)
      × (lo + hi * 256 ≡ pit_freq / pit_hz)
unfolding divisor_writes
divisor_writes_lem pit_hz h =
    let d : ℕ = pit_freq / pit_hz in
    let small : d < 2 ^ 16 = div-lt pit_freq pit_hz (2 ^ 16) (omega arith) (omega arith) in
    let lo : bit_and d 0xFF ≡ d % 256 = bit_and_mask 8 d in
    let hi : bit_and (d / 2 ^ 8) 0xFF ≡ d / 2 ^ 8 % 256 = bit_and_mask 8 (d / 2 ^ 8) in
    (
      bit_and d 0xFF % 256,
      bit_and (d / 2 ^ 8) 0xFF % 256,
      refl,
      omega arith,
      omega arith,
      omega arith,
    )
