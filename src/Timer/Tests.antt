-- ===== src/Timer/Tests.antt =====
-- Counts of a timer that wraps.
use rtbench.Common.{ℕ, ◌+◌, ◌*◌, ◌<◌, ◌≤◌, ◌≡◌, refl, zero, suc, arith, some, [], ◌∷◌, get_or}
use rtbench.Timer.{divisor_writes, get_pit_count, wait_loop, wait_pit_wrap}

-- The counts 0x0203, 0x0105 and 0x0401.
abbrev port : ℕ → ℕ
port i = get_or (3 ∷ 2 ∷ 5 ∷ 1 ∷ 1 ∷ 4 ∷ []) i 0

wait_runs : wait_pit_wrap 5 port 0 ≡ some 6
unfolding wait_pit_wrap wait_loop get_pit_count
wait_runs = refl

setup_runs : divisor_writes 1000 ≡ (0x40, 169) ∷ (0x40, 4) ∷ []
unfolding divisor_writes
setup_runs = refl

not_yet : (j : ℕ) → j < 1 → get_pit_count port (0 + 2 * suc j) ≤ get_pit_count port (0 + 2 * j)
unfolding get_pit_count
not_yet zero lt = omega arith
not_yet (suc j) lt = absurd (omega arith)
