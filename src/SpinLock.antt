-- ===== src/SpinLock.antt =====
-- tools/src/baremetal/smallos/src_c/spinlock.c and include/spinlock.h, by instruction: any number of
-- cores take and release one lock in any order. A comparison and the jumps that follow it are one
-- step, since they read memory once.
pub mod Owner
pub mod Safety
pub mod Progress
mod Tests
use rtbench.Common.{ℕ, zero, suc, ◌==◌, if◌then◌else◌, List, [], ◌∷◌, Bool, true, false}

-- The instruction that a core runs next. `outside` and `critical` are the caller's code without and
-- with the lock; the rest is named for its function and for its label or opcode.
pub data Pc : Type 0 where
  outside : Pc
  critical : Pc
  lock_mov : Pc
  lock_l1 : Pc
  lock_test : Pc
  lock_l2 : Pc
  unlock_xor : Pc
  unlock_xchg : Pc
  try_mov : Pc
  try_xchg : Pc
  try_ret : Pc

pub record Core : Type 0 where
  pub pc : Pc
  pub eax : ℕ

-- `locked` is `sl->locked`, which `xchg` reads and writes in one step.
pub record System : Type 0 where
  pub locked : ℕ
  pub cores : ℕ → Core

-- One instruction of a core: its next place, its eax, and the lock word. After `try_ret` the caller
-- has the lock when the returned `0 == oldval` holds.
abbrev pub exec : Pc → ℕ → ℕ → Pc × ℕ × ℕ
exec outside eax locked = (outside, eax, locked)
exec critical eax locked = (critical, eax, locked)
exec lock_mov eax locked = (lock_l1, 1, locked)
exec lock_l1 eax locked = (lock_test, locked, eax)
exec lock_test eax locked = (if eax == 0 then critical else lock_l2, eax, locked)
exec lock_l2 eax locked = (if locked == 0 then lock_l1 else lock_l2, eax, locked)
exec unlock_xor eax locked = (unlock_xchg, 0, locked)
exec unlock_xchg eax locked = (outside, locked, eax)
exec try_mov eax locked = (try_xchg, 1, locked)
exec try_xchg eax locked = (try_ret, locked, eax)
exec try_ret eax locked = (if eax == 0 then critical else outside, eax, locked)

-- What the scheduler lets a core do: an instruction, or the call of a function.
pub data Action : Type 0 where
  instr : Action
  spinlock_lock : Action
  spinlock_trylock : Action
  spinlock_unlock : Action

-- A core calls `lock` and `trylock` without the lock, and `unlock` with it.
abbrev pub call : Action → Pc → Pc
call spinlock_lock outside = lock_mov
call spinlock_trylock outside = try_mov
call spinlock_unlock critical = unlock_xor
call a pc = pc

abbrev pub act : Action → Pc → ℕ → ℕ → Pc × ℕ × ℕ
act instr pc eax locked = exec pc eax locked
act a pc eax locked = (call a pc, eax, locked)

abbrev pub put_core : System → ℕ → Pc × ℕ × ℕ → System
put_core s i (p, e, l) = record {
  locked = l;
  cores = λ j. if j == i then record { pc = p; eax = e } else s.cores j;
}

unfoldable pub step : System → ℕ → Action → System
step s i a = put_core s i (act a (s.cores i).pc (s.cores i).eax s.locked)

-- SPINLOCK_INITIALIZER, with every core outside.
abbrev pub initial : (ℕ → ℕ) → System
initial eax = record { locked = 0; cores = λ i. record { pc = outside; eax = eax i } }

-- The states that some schedule leads to.
pub data Reachable : System → Type 0 where
  start : (eax : ℕ → ℕ) → Reachable (initial eax)
  next : {s : System} → Reachable s → (i : ℕ) → (a : Action) → Reachable (step s i a)

-- A core that runs by itself for some instructions.
unfoldable pub solo : System → ℕ → ℕ → System
solo s i zero = s
solo s i (suc n) = solo (step s i instr) i n
