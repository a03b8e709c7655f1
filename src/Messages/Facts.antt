-- ===== src/Messages/Facts.antt =====
-- Lemmas on lists of texts, and what a step of one core leaves to the others and to the owner.
use mathlib.Core.List.{append_assoc, append-nil}
use rtbench.Common.{
  ℕ, ◌≡◌, ◌≢◌, refl, sym, ap, ◌∙◌, arith, List, [], ◌∷◌, ◌++◌, Option, none, some, true, false,
  eq→==, ne→==, ==→eq, length, length-append,
}
use rtbench.SpinLock
use rtbench.SpinLock.{
  Pc, System, Core, outside, critical, lock_mov, lock_l1, lock_test, lock_l2, unlock_xor,
  unlock_xchg, try_mov, try_xchg, try_ret, spinlock_lock, spinlock_unlock, instr, act,
}
use rtbench.SpinLock.Owner.{is_owner, LockStep, same, acquire, release}
use rtbench.Messages.Invariant.{Entry, all_text, texts_of}

pub all_text-append : (xs ys : List Entry) → all_text (xs ++ ys) ≡ all_text xs ++ all_text ys
unfolding all_text
all_text-append [] ys = refl
all_text-append (x ∷ xs) ys =
    ap (◌++◌ x.text) (all_text-append xs ys) ∙ sym (append_assoc x.text (all_text xs) (all_text ys))

pub all_text_last :
    (es : List Entry) (e : Entry) → all_text (es ++ (e ∷ [])) ++ [] ≡ all_text es ++ e.text
unfolding all_text
all_text_last es e =
    append-nil (all_text (es ++ (e ∷ [])))
    ∙ all_text-append es (e ∷ [])
    ∙ ap (◌++◌ (all_text es)) (append-nil e.text)

pub texts_of-append :
    (i : ℕ) (xs ys : List Entry) → texts_of i (xs ++ ys) ≡ texts_of i xs ++ texts_of i ys
unfolding texts_of
texts_of-append i [] ys = refl
texts_of-append i (x ∷ xs) ys = ground (arith, texts_of-append i xs ys)

pub texts_of_own : (i : ℕ) (t : List ℕ) → texts_of i (record { core = i; text = t } ∷ []) ≡ t ∷ []
unfolding texts_of
texts_of_own i t = rw (eq→== i i refl) refl

pub texts_of_other :
    (i j : ℕ) (t : List ℕ) → j ≢ i → texts_of j (record { core = i; text = t } ∷ []) ≡ []
unfolding texts_of
texts_of_other i j t ne = rw (ne→== i j (λ e. ne (sym e))) refl

-- A step that leaves a core with the lock, or without it, leaves the owner.
pub LockStep-same :
    (i : ℕ) (o o' : Option ℕ) → LockStep i o o' → is_owner o i ≡ is_owner o' i → o' ≡ o
LockStep-same i o o' same e = refl
LockStep-same i o o' acquire e = absurd (ground (arith, e))
LockStep-same i o o' release e = absurd (ground (arith, e))

pub LockStep-free :
    (i : ℕ) (o o' : Option ℕ) → LockStep i o o' → o ≡ some i → is_owner o' i ≡ false → o' ≡ none
LockStep-free i o o' same mine free = absurd (ground (arith, ap (λ t. is_owner t i) mine, free))
LockStep-free i o o' acquire mine free = absurd (ground (arith, free))
LockStep-free i o o' release mine free = refl

pub own_core : (o : Option ℕ) (i : ℕ) → true ≡ is_owner o i → o ≡ some i
own_core none i e = absurd (ground (arith, e))
own_core (some k) i e = ap some (==→eq k i (sym e))

pub prefix_none : (xs ys : List ℕ) → xs ++ ys ≡ ys → xs ≡ []
prefix_none [] ys e = refl
prefix_none (x ∷ xs) ys e = absurd (omega (arith, ap (length {A = ℕ}) e, length-append (x ∷ xs) ys))

pub step_here :
    (sys : System) (i : ℕ) (a : SpinLock.Action)
    → ((SpinLock.step sys i a).cores i).pc ≡ (act a (sys.cores i).pc (sys.cores i).eax sys.locked).0
unfolding SpinLock.step
step_here sys i a = rw (eq→== i i refl) refl

pub step_there :
    (sys : System) (i j : ℕ) (a : SpinLock.Action)
    → j ≢ i
    → ((SpinLock.step sys i a).cores j).pc ≡ (sys.cores j).pc
unfolding SpinLock.step
step_there sys i j a ne = rw (ne→== j i ne) refl
