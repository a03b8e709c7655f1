-- ===== src/SpinLock/Safety.antt =====
-- spinlock.c: the instructions of all cores, in any order, and the owner of the lock.
use rtbench.Common.{
  ℕ, true, false, Option, none, some, ◌≡◌, refl, sym, ◌∙◌, ap, eq→==, ne→==, ℕ_discrete, arith, inl,
  inr, ◌⊎◌,
}
use rtbench.SpinLock.{Pc, System, Action, step, put_core, Reachable, start, next}
use rtbench.SpinLock.Owner.{LockStep, is_owner, owns, Owned, Moved, moved-act}

-- The other cores keep what they have when core `i` moves.
Owned-put_core :
    {s : System} {o o' : Option ℕ} (i : ℕ) {m : Pc × ℕ × ℕ}
    → Owned s o
    → Moved o i o' m.0 m.1 m.2
    → Owned (put_core s i m) o'
Owned-put_core {s} {o} {o'} i {m} inv moved = record {
  word = moved.word;
  valid = λ j. elim (ℕ_discrete j i) [
    | yes e ↦ rw (eq→== j i e) moved.valid
    | no n ↦ rw (ne→== j i n) (inv.valid j)
  ];
  own = λ j. elim (ℕ_discrete j i) [
    | yes e ↦ rw (eq→== j i e) (moved.own ∙ ap (is_owner o') (sym e))
    | no n ↦ rw (ne→== j i n) (inv.own j ∙ sym (moved.others j n))
  ];
}

-- Every step of a core does to the owner of the lock what the lock allows: nothing, or an
-- acquisition of the free lock by that core, or a release by its owner.
pub step-LockStep :
    {s : System} {o : Option ℕ}
    → Owned s o
    → (i : ℕ) (a : Action) → (o' : Option ℕ) × LockStep i o o' × Owned (step s i a) o'
unfolding step
step-LockStep {s} {o} inv i a =
    let (o', moved) =
      moved-act o i a (s.cores i).pc (s.cores i).eax s.locked inv.word (inv.valid i) (inv.own i) in
    (o', moved.lock_step, Owned-put_core i inv moved)

pub Reachable-Owned : {s : System} → Reachable s → (o : Option ℕ) × Owned s o
Reachable-Owned (start eax) = (none, record { word = refl; valid = λ i. tt; own = λ i. refl })
Reachable-Owned (next r i a) =
    let (o, inv) = Reachable-Owned r in let (o', moved, inv') = step-LockStep inv i a in (o', inv')

is_owner_unique : (o : Option ℕ) (i j : ℕ) → is_owner o i ≡ true → is_owner o j ≡ true → i ≡ j
is_owner_unique none i j a b = ground arith
is_owner_unique (some k) i j a b = ground arith

-- In every reachable state at most one core has the lock.
pub mutual_exclusion :
    {s : System}
    → Reachable s
    → (i j : ℕ) → owns (s.cores i).pc (s.cores i).eax ≡ true
    → owns (s.cores j).pc (s.cores j).eax ≡ true
    → i ≡ j
mutual_exclusion r i j a b =
    let (o, inv) = Reachable-Owned r in
    is_owner_unique o i j (sym (inv.own i) ∙ a) (sym (inv.own j) ∙ b)

word_cases :
    (s : System) (o : Option ℕ)
    → Owned s o
    → ((s.locked ≡ 0) × ((i : ℕ) → owns (s.cores i).pc (s.cores i).eax ≡ false))
      ⊎ ((s.locked ≡ 1) × ((i : ℕ) × (owns (s.cores i).pc (s.cores i).eax ≡ true)))
word_cases s none inv = inl (inv.word, inv.own)
word_cases s (some k) inv = inr (inv.word, (k, inv.own k ∙ eq→== k k refl))

-- In every reachable state the lock word is 0, and no core has the lock, or it is 1, and some core
-- has it.
pub lock_word_lem :
    {s : System}
    → Reachable s
    → ((s.locked ≡ 0) × ((i : ℕ) → owns (s.cores i).pc (s.cores i).eax ≡ false))
      ⊎ ((s.locked ≡ 1) × ((i : ℕ) × (owns (s.cores i).pc (s.cores i).eax ≡ true)))
lock_word_lem {s} r = let (o, inv) = Reachable-Owned r in word_cases s o inv
