-- ===== src/Messages/Invariant.antt =====
-- Which texts have gone out: whole ones, in the order in which their calls had the lock, and a part of
-- one more.
use rtbench.Common.{ℕ, ◌≡◌, ◌==◌, if◌then◌else◌, List, [], ◌∷◌, ◌++◌, Option, none, some}
use rtbench.SpinLock.{
  Pc, outside, lock_mov, lock_l1, lock_test, lock_l2, unlock_xor, unlock_xchg, try_mov, try_xchg,
  try_ret,
}
use rtbench.SpinLock.Owner.{Owned}
use rtbench.Messages.{Printer, Shared}

-- A text that went out, with the core that printed it.
pub record Entry : Type 0 where
  pub core : ℕ
  pub text : List ℕ

-- The characters of the entries, one behind the other.
unfoldable pub all_text : List Entry → List ℕ
all_text [] = []
all_text (e ∷ es) = e.text ++ all_text es

-- The texts of one core.
unfoldable pub texts_of : ℕ → List Entry → List (List ℕ)
texts_of i [] = []
texts_of i (e ∷ es) = if e.core == i then e.text ∷ texts_of i es else texts_of i es

-- The text of a call that is under way.
abbrev pub under_way : Pc → Printer → List (List ℕ)
under_way outside p = []
under_way pc p = p.text ∷ []

-- The part of the text of the core with the lock that is out; `done` is this part.
abbrev pub Part : List ℕ → Printer → Type 0
Part done p = done ++ p.left ≡ p.text

-- A printer in each place of its call: the whole text is left before the lock is taken and none when it
-- is given back; `spinlock_trylock` is not called.
abbrev pub Place : Pc → Printer → Type 0
Place lock_mov p = p.left ≡ p.text
Place lock_l1 p = p.left ≡ p.text
Place lock_l2 p = p.left ≡ p.text
Place lock_test p = p.left ≡ p.text
Place unlock_xor p = p.left ≡ []
Place unlock_xchg p = p.left ≡ []
Place try_mov p = ⊥
Place try_xchg p = ⊥
Place try_ret p = ⊥
Place pc p = Unit

-- What is out beyond whole texts: a part of the owner's.
abbrev pub Partial : Shared → Option ℕ → List ℕ → Type 0
Partial s none done = done ≡ []
Partial s (some i) done = Part done (s.printers i)

-- `texts` are what the cores had to print at first.
pub record Kept (texts : ℕ → List (List ℕ)) (s : Shared) : Type 0 where
  pub owner : Option ℕ
  pub owned : Owned s.system owner
  pub entries : List Entry
  pub done : List ℕ
  pub output : s.output ≡ all_text entries ++ done
  pub partial : Partial s owner done
  pub place : (i : ℕ) → Place (s.system.cores i).pc (s.printers i)
  pub texts_kept :
      (i : ℕ)
      → texts i
        ≡ texts_of i entries
          ++ (under_way (s.system.cores i).pc (s.printers i) ++ (s.printers i).later)
