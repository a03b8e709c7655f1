-- ===== src/SpinLock/Progress.antt =====
-- spinlock.c: cores that run by themselves.
use rtbench.Common.{
  ℕ, zero, suc, ◌==◌, if◌then◌else◌, false, ◌≡◌, ◌≤◌, refl, ◌∙◌, ap, eq→==, arith, inl, inr,
}
use rtbench.SpinLock.{
  Pc, outside, critical, lock_mov, lock_l1, lock_test, lock_l2, try_mov, System, instr, step,
  Reachable, solo, exec,
}
use rtbench.SpinLock.Owner.{RegisterIsValid, owns}
use rtbench.SpinLock.Safety.{Reachable-Owned, lock_word_lem}

-- A core in `spinlock_lock`.
abbrev pub InLock : Pc → Type 0
InLock lock_mov = Unit
InLock lock_l1 = Unit
InLock lock_test = Unit
InLock lock_l2 = Unit
InLock pc = ⊥

-- What core `i` can see.
abbrev pub view : System → ℕ → Pc × ℕ × ℕ
view s i = ((s.cores i).pc, (s.cores i).eax, s.locked)

abbrev alone : Pc × ℕ × ℕ → ℕ → Pc × ℕ × ℕ
alone v zero = v
alone v (suc n) = alone (exec v.0 v.1 v.2) n

view-step :
    (s : System) (i : ℕ) → view (step s i instr) i ≡ exec (s.cores i).pc (s.cores i).eax s.locked
unfolding step
view-step s i = rw (eq→== i i refl) refl

view-solo : (s : System) (i n : ℕ) → view (solo s i n) i ≡ alone (view s i) n
unfolding solo
view-solo s i zero = refl
view-solo s i (suc n) = view-solo (step s i instr) i n ∙ ap (λ v. alone v n) (view-step s i)

spin :
    (pc : Pc) (e l : ℕ)
    → InLock pc
    → RegisterIsValid pc e
    → owns pc e ≡ false
    → l ≡ 0
    → (n : ℕ) × (n ≤ 4) × ((alone (pc, e, l) n).0 ≡ critical) × ((alone (pc, e, l) n).2 ≡ 1)
spin lock_mov e l in_lock r own free = (3, omega arith, ground arith, refl)
spin lock_l1 e l in_lock r own free = (2, omega arith, ground arith, r)
spin lock_test e l in_lock r own free = (4, omega arith, ground arith, ground arith)
spin lock_l2 e l in_lock r own free = (3, omega arith, ground arith, ground arith)
spin _ e l in_lock r own free = absurd in_lock

-- In a reachable state in which the lock is free, a core in `spinlock_lock` has it after at most four
-- instructions that it runs undisturbed.
pub spinlock_lock-solo :
    {s : System}
    → Reachable s
    → (i : ℕ) → InLock (s.cores i).pc
    → s.locked ≡ 0
    → (n : ℕ) × (n ≤ 4) × (((solo s i n).cores i).pc ≡ critical) × ((solo s i n).locked ≡ 1)
spinlock_lock-solo {s} r i in_lock free =
    let (o, inv) = Reachable-Owned r in
    let unowned : owns (s.cores i).pc (s.cores i).eax ≡ false = elim (lock_word_lem r) [
      | inl l ↦ l.1 i
      | inr h ↦ absurd (omega arith)
    ] in
    let (n, few, at, word) =
      spin (s.cores i).pc (s.cores i).eax s.locked in_lock (inv.valid i) unowned free in
    (n, few, ap (λ v. v.0) (view-solo s i n) ∙ at, ap (λ v. v.2) (view-solo s i n) ∙ word)

-- `spinlock_trylock`, just called and run undisturbed, ends after its three
-- instructions: with the lock when it was free, without it when it was taken, and the lock word is 1.
pub spinlock_trylock-solo :
    (s : System) (i : ℕ)
    → (s.cores i).pc ≡ try_mov
    → (((solo s i 3).cores i).pc ≡ (if s.locked == 0 then critical else outside))
      × ((solo s i 3).locked ≡ 1)
spinlock_trylock-solo s i at =
    let v = view-solo s i 3 ∙ ap (λ p. alone (p, (s.cores i).eax, s.locked) 3) at in
    (ap (λ v. v.0) v, ap (λ v. v.2) v)
