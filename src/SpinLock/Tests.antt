-- ===== src/SpinLock/Tests.antt =====
-- Two cores that ask for the lock.
use rtbench.Common.{ℕ, false, ◌≡◌, ◌≤◌, refl, Option, none}
use rtbench.SpinLock.{
  critical, System, instr, spinlock_lock, step, initial, Reachable, start, next, solo,
}
use rtbench.SpinLock.Owner.{LockStep, Owned, owns}
use rtbench.SpinLock.Safety.{step-LockStep, mutual_exclusion}
use rtbench.SpinLock.Progress.{spinlock_lock-solo}

abbrev idle : System
idle = initial (λ i. i)

-- Cores 0 and 1 have called `spinlock_lock`, and core 1 was faster.
abbrev asked : System
asked = step (step idle 0 spinlock_lock) 1 spinlock_lock

abbrev taken : System
taken = step (step (step asked 1 instr) 1 instr) 1 instr

asked-Reachable : Reachable asked
asked-Reachable = next (next (start (λ i. i)) 0 spinlock_lock) 1 spinlock_lock

taken-Reachable : Reachable taken
taken-Reachable = next (next (next asked-Reachable 1 instr) 1 instr) 1 instr

taken_runs :
    (taken.locked ≡ 1)
    × ((taken.cores 1).pc ≡ critical)
    × (owns (taken.cores 0).pc (taken.cores 0).eax ≡ false)
unfolding step
taken_runs = (refl, refl, refl)

mutual_exclusion_example : ◌≡◌ {A = ℕ} 1 1
unfolding step
mutual_exclusion_example = mutual_exclusion taken-Reachable 1 1 refl refl

step-LockStep_example : (o : Option ℕ) × LockStep 1 none o × Owned (step idle 1 spinlock_lock) o
step-LockStep_example =
    step-LockStep {s = idle} {o = none} (record { word = refl; valid = λ i. tt; own = λ i. refl }) 1
      spinlock_lock

spinlock_lock-solo_example :
    (n : ℕ) × (n ≤ 4) × (((solo asked 0 n).cores 0).pc ≡ critical) × ((solo asked 0 n).locked ≡ 1)
unfolding step
spinlock_lock-solo_example = spinlock_lock-solo asked-Reachable 0 tt refl
