-- ===== src/SpinLock/Owner.antt =====
-- spinlock.c: the lock as its callers see it, which has an owner or none.
use rtbench.Common.{
  ℕ, ◌==◌, Bool, true, false, Option, none, some, ◌≡◌, ◌≢◌, ◌<◌, refl, sym, ◌∙◌, subst, ==→eq,
  arith,
}
use rtbench.SpinLock.{
  Pc, outside, critical, lock_mov, lock_l1, lock_test, lock_l2, unlock_xor, unlock_xchg, try_mov,
  try_xchg, try_ret, System, exec, Action, instr, spinlock_lock, spinlock_trylock, spinlock_unlock,
  call, act,
}

-- What a move of core `i` may do to the abstract lock.
pub data LockStep (i : ℕ) : Option ℕ → Option ℕ → Type 0 where
  same : {o : Option ℕ} → LockStep i o o
  acquire : LockStep i none (some i)
  release : LockStep i (some i) none

abbrev pub lock_word : Option ℕ → ℕ
lock_word none = 0
lock_word (some i) = 1

abbrev pub is_owner : Option ℕ → ℕ → Bool
is_owner none i = false
is_owner (some o) i = o == i

-- Where a core has the lock: from the `xchg` that got 0 to the one that stores 0.
abbrev pub owns : Pc → ℕ → Bool
owns critical eax = true
owns unlock_xor eax = true
owns unlock_xchg eax = true
owns lock_test eax = eax == 0
owns try_ret eax = eax == 0
owns pc eax = false

-- What eax holds where an instruction depends on it.
abbrev pub RegisterIsValid : Pc → ℕ → Type 0
RegisterIsValid lock_l1 eax = eax ≡ 1
RegisterIsValid lock_l2 eax = eax ≡ 1
RegisterIsValid lock_test eax = eax < 2
RegisterIsValid try_xchg eax = eax ≡ 1
RegisterIsValid try_ret eax = eax < 2
RegisterIsValid unlock_xchg eax = eax ≡ 0
RegisterIsValid pc eax = Unit

pub record Owned (s : System) (o : Option ℕ) : Type 0 where
  pub word : s.locked ≡ lock_word o
  pub valid : (i : ℕ) → RegisterIsValid (s.cores i).pc (s.cores i).eax
  pub own : (i : ℕ) → owns (s.cores i).pc (s.cores i).eax ≡ is_owner o i

-- What one move of core `i` gives, from `(pc, e, l)` to `(pc', e', l')`, when the lock had the owner
-- `o` before.
pub record Moved (o : Option ℕ) (i : ℕ) (o' : Option ℕ) (pc : Pc) (e l : ℕ) : Type 0 where
  pub lock_step : LockStep i o o'
  pub word : l ≡ lock_word o'
  pub valid : RegisterIsValid pc e
  pub own : owns pc e ≡ is_owner o' i
  pub others : (j : ℕ) → j ≢ i → is_owner o' j ≡ is_owner o j

pub kept :
    (o : Option ℕ) (i : ℕ) {pc : Pc} {e l : ℕ}
    → l ≡ lock_word o
    → RegisterIsValid pc e
    → owns pc e ≡ is_owner o i
    → Moved o i o pc e l
kept o i w r own = record { lock_step = same; word = w; valid = r; own = own; others = λ j h. refl }

-- A row for each instruction: `xchg` on the free lock acquires it, and the one in `unlock`
-- releases it.
pub moved-exec :
    (o : Option ℕ) (i : ℕ) (pc : Pc) (e l : ℕ)
    → l ≡ lock_word o
    → RegisterIsValid pc e
    → owns pc e ≡ is_owner o i
    → (o' : Option ℕ) × Moved o i o' (exec pc e l).0 (exec pc e l).1 (exec pc e l).2
moved-exec o i outside e l w r own = (o, kept o i w tt own)
moved-exec o i critical e l w r own = (o, kept o i w tt own)
moved-exec o i lock_mov e l w r own = (o, kept o i w refl own)
moved-exec none i lock_l1 e l w r own = (
  some i,
  record {
    lock_step = acquire;
    word = r;
    valid = omega arith;
    own = ground arith;
    others = λ j h. ground arith;
  },
)
moved-exec (some k) i lock_l1 e l w r own = (some k, kept (some k) i r (omega arith) (ground arith))
moved-exec o i lock_test e l w r own = (o, kept o i w (ground arith) (ground arith))
moved-exec o i lock_l2 e l w r own = (o, kept o i w (ground arith) (ground arith))
moved-exec o i unlock_xor e l w r own = (o, kept o i w refl own)
moved-exec none i unlock_xchg e l w r own = absurd (ground arith)
moved-exec (some k) i unlock_xchg e l w r own = (
  none,
  record {
    lock_step = subst (λ k. LockStep i (some k) none) (sym (==→eq k i (sym own))) release;
    word = r;
    valid = tt;
    own = refl;
    others = λ j h. ground (arith, ==→eq k i (sym own));
  },
)
moved-exec o i try_mov e l w r own = (o, kept o i w refl own)
moved-exec none i try_xchg e l w r own = (
  some i,
  record {
    lock_step = acquire;
    word = r;
    valid = omega arith;
    own = ground arith;
    others = λ j h. ground arith;
  },
)
moved-exec (some k) i try_xchg e l w r own =
    (some k, kept (some k) i r (omega arith) (ground arith))
moved-exec o i try_ret e l w r own = (o, kept o i w (ground arith) (ground arith))

call-keeps :
    (a : Action) (pc : Pc) (e : ℕ)
    → RegisterIsValid pc e
    → RegisterIsValid (call a pc) e × (owns (call a pc) e ≡ owns pc e)
call-keeps instr pc e r = (r, refl)
call-keeps spinlock_lock outside e r = (tt, refl)
call-keeps spinlock_trylock outside e r = (tt, refl)
call-keeps spinlock_unlock critical e r = (tt, refl)
call-keeps _ pc e r = (r, refl)

pub moved-act :
    (o : Option ℕ) (i : ℕ) (a : Action) (pc : Pc) (e l : ℕ)
    → l ≡ lock_word o
    → RegisterIsValid pc e
    → owns pc e ≡ is_owner o i
    → (o' : Option ℕ) × Moved o i o' (act a pc e l).0 (act a pc e l).1 (act a pc e l).2
moved-act o i instr pc e l w r own = moved-exec o i pc e l w r own
moved-act o i spinlock_lock pc e l w r own =
    let (r', own') = call-keeps spinlock_lock pc e r in (o, kept o i w r' (own' ∙ own))
moved-act o i spinlock_trylock pc e l w r own =
    let (r', own') = call-keeps spinlock_trylock pc e r in (o, kept o i w r' (own' ∙ own))
moved-act o i spinlock_unlock pc e l w r own =
    let (r', own') = call-keeps spinlock_unlock pc e r in (o, kept o i w r' (own' ∙ own))
