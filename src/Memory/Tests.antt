-- ===== src/Memory/Tests.antt =====
-- Runs of the byte-copying routines, and their theorems at concrete memories.
use rtbench.Common.{◌*◌, ◌≡◌, refl}
use rtbench.Common.Int.{pos}
use rtbench.Memory.{Mem, memset, memcpy, memcmp}

-- Byte `3 * a` at address `a`.
abbrev ramp : Mem
ramp a = 3 * a

memset_runs :
    (memset ramp 10 7 4 9 ≡ 27)
    × (memset ramp 10 7 4 10 ≡ 7)
    × (memset ramp 10 7 4 13 ≡ 7)
    × (memset ramp 10 7 4 14 ≡ 42)
unfolding memset
memset_runs = (refl, refl, refl, refl)

-- A copy whose destination starts inside its source repeats the first bytes.
memcpy_overlap : (memcpy ramp 11 10 3 12 ≡ 30) × (memcpy ramp 11 10 3 13 ≡ 30)
unfolding memcpy
memcpy_overlap = (refl, refl)

memcmp_runs : (memcmp ramp 10 10 5 ≡ pos 0) × (memcmp ramp 11 10 5 ≡ pos 1)
unfolding memcmp
memcmp_runs = (refl, refl)
