-- ===== src/Memory.antt =====
-- tools/src/baremetal/smallos/src_c/utilities.c: the byte-copying routines, over a flat memory.
pub mod Laws
pub mod Writes
mod Tests
use rtbench.Common.{ℕ, zero, suc, ◌+◌, ◌*◌, ◌^◌, ltb, ◌==◌, if◌then◌else◌}
use rtbench.Common.Int.{ℤ, pos, negsuc}

-- The byte at each address.
abbrev pub Mem : Type 0
Mem = ℕ → ℕ

abbrev pub store : Mem → ℕ → ℕ → Mem
store m a v b = if a == b then v else m b

-- The little-endian loads of two and four bytes.
abbrev pub read16 : Mem → ℕ → ℕ
read16 m a = m a + m (a + 1) * 2 ^ 8

abbrev pub read32 : Mem → ℕ → ℕ
read32 m a = read16 m a + read16 m (a + 2) * 2 ^ 16

-- `for (indx = 0; indx < size; indx++) *dst++ = val;`, by the rounds left.
unfoldable pub memset : Mem → ℕ → ℕ → ℕ → Mem
memset m dst val zero = m
memset m dst val (suc size) = memset (store m dst val) (dst + 1) val size

unfoldable pub memcpy : Mem → ℕ → ℕ → ℕ → Mem
memcpy m dst src zero = m
memcpy m dst src (suc size) = memcpy (store m dst (m src)) (dst + 1) (src + 1) size

-- The `while (size)` loop, with its three returns.
unfoldable pub memcmp : Mem → ℕ → ℕ → ℕ → ℤ
memcmp m src dst zero = pos 0
memcmp m src dst (suc size) =
    let rest = memcmp m (src + 1) (dst + 1) size in
    if m src == m dst then rest else if ltb (m dst) (m src) then pos 1 else negsuc 0
