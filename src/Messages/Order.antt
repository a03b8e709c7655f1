-- ===== src/Messages/Order.antt =====
-- In every schedule the texts of the calls stay whole.
use mathlib.Core.List.{append-nil}
use rtbench.Common.{
  ℕ, ◌≡◌, ◌==◌, refl, sym, ap, subst, eq→==, ◌∙◌, if◌then◌else◌, List, [], ◌∷◌, ◌++◌, Option, none,
  some, true, Bool-cases, inl, inr, ◌⊎◌, arith,
}
use rtbench.SpinLock
use rtbench.SpinLock.{
  Pc, System, outside, critical, lock_mov, lock_l1, lock_test, lock_l2, unlock_xor, unlock_xchg,
  try_mov, try_xchg, try_ret, spinlock_lock, spinlock_unlock, instr,
}
use rtbench.SpinLock.Owner.{owns, is_owner}
use rtbench.Messages.{Printer, Shared, lock_step, begin_text, print_next, move_at, move, run, idle}
use rtbench.Messages.Invariant.{Entry, all_text, texts_of, under_way, Partial, Place, Kept}
use rtbench.Messages.Facts.{step_here}
use rtbench.Messages.Moves.{waiting_move, steady_move, release_move, print_move, begin_move}

module _ (texts : ℕ → List (List ℕ)) (s : Shared) (k : Kept texts s) (i : ℕ) where
  -- An instruction of `spinlock_lock`, which leaves the call in the same place.
  ask_move :
      (pc pc' : Pc)
      → (s.system.cores i).pc ≡ pc
      → (SpinLock.exec pc (s.system.cores i).eax s.system.locked).0 ≡ pc'
      → (s.printers i).left ≡ (s.printers i).text
      → Place pc' (s.printers i)
      → under_way pc (s.printers i) ≡ under_way pc' (s.printers i)
      → Kept texts (lock_step s i instr)
  ask_move pc pc' at there all place same_text =
      waiting_move texts s k i pc'
        (step_here s.system i instr
          ∙ ap (λ p. (SpinLock.exec p (s.system.cores i).eax s.system.locked).0) at
          ∙ there)
        all place (ap (λ p. under_way p (s.printers i)) at ∙ same_text)

  same_owns :
      (pc : Pc)
      → (s.system.cores i).pc ≡ pc
      → owns pc (s.system.cores i).eax ≡ owns (s.system.cores i).pc (s.system.cores i).eax
  same_owns pc at = ap (λ p. owns p (s.system.cores i).eax) (sym at)

  begin-Kept :
      (later : List (List ℕ))
      → (s.system.cores i).pc ≡ outside
      → (s.printers i).later ≡ later
      → Kept texts (begin_text s i later)
  begin-Kept [] at e = k
  begin-Kept (t ∷ ts) at e = begin_move texts s k i t ts at e

  print-Kept :
      (left : List ℕ)
      → (s.system.cores i).pc ≡ critical
      → (s.printers i).left ≡ left
      → Kept texts (print_next s i (s.printers i) left)
  print-Kept [] at e =
      steady_move texts s k i spinlock_unlock unlock_xor
        (step_here s.system i spinlock_unlock ∙ ap (SpinLock.call spinlock_unlock) at)
        (same_owns critical at) e (ap (λ p. under_way p (s.printers i)) at)
  print-Kept (c ∷ cs) at e = print_move texts s k i c cs at e

  move_at-Kept :
      (pc : Pc) → (s.system.cores i).pc ≡ pc → Place pc (s.printers i) → Kept texts (move_at s i pc)
  move_at-Kept outside at place = begin-Kept (s.printers i).later at refl
  move_at-Kept critical at place = print-Kept (s.printers i).left at refl
  move_at-Kept lock_mov at place = ask_move lock_mov lock_l1 at refl place place refl
  move_at-Kept lock_l1 at place = ask_move lock_l1 lock_test at refl place place refl
  move_at-Kept lock_test at place = elim (Bool-cases ((s.system.cores i).eax == 0)) [
    | inl e ↦
        ask_move lock_test critical at (ap (λ b. if b then critical else lock_l2) e) place tt refl
    | inr e ↦
        ask_move lock_test lock_l2 at (ap (λ b. if b then critical else lock_l2) e) place place refl
  ]
  move_at-Kept lock_l2 at place = elim (Bool-cases (s.system.locked == 0)) [
    | inl e ↦
        ask_move lock_l2 lock_l1 at (ap (λ b. if b then lock_l1 else lock_l2) e) place place refl
    | inr e ↦
        ask_move lock_l2 lock_l2 at (ap (λ b. if b then lock_l1 else lock_l2) e) place place refl
  ]
  move_at-Kept unlock_xor at place =
      steady_move texts s k i instr unlock_xchg
        (step_here s.system i instr
          ∙ ap (λ p. (SpinLock.exec p (s.system.cores i).eax s.system.locked).0) at)
        (same_owns unlock_xor at) place (ap (λ p. under_way p (s.printers i)) at)
  move_at-Kept unlock_xchg at place = release_move texts s k i at place
  move_at-Kept try_mov at place = absurd place
  move_at-Kept try_xchg at place = absurd place
  move_at-Kept try_ret at place = absurd place

  pub move-Kept : Kept texts (move s i)
  unfolding move
  move-Kept = move_at-Kept (s.system.cores i).pc refl (k.place i)

run-Kept :
    (texts : ℕ → List (List ℕ)) (s : Shared) (is : List ℕ) → Kept texts s → Kept texts (run s is)
unfolding run
run-Kept texts s [] k = k
run-Kept texts s (i ∷ is) k = run-Kept texts (move s i) is (move-Kept texts s k i)

idle-Kept : (eax : ℕ → ℕ) (texts : ℕ → List (List ℕ)) → Kept texts (idle eax texts)
unfolding all_text texts_of
idle-Kept eax texts = record {
  owner = none;
  owned = record { word = refl; valid = λ i. tt; own = λ i. refl };
  entries = [];
  done = [];
  output = refl;
  partial = refl;
  place = λ i. tt;
  texts_kept = λ i. refl;
}

-- The output is whole texts and perhaps a part of one more, the next of its core; of each core the texts
-- that are out are its first ones, in order.
pub record Whole (texts : ℕ → List (List ℕ)) (sent : List ℕ) : Type 0 where
  pub entries : List Entry
  pub done : List ℕ
  pub output : sent ≡ all_text entries ++ done
  pub part :
      (done ≡ [])
      ⊎ ((i : ℕ) × (rest : List ℕ) × (later : List (List ℕ)) × (texts i
            ≡ texts_of i entries ++ ((done ++ rest) ∷ later)))
  pub first : (i : ℕ) → (later : List (List ℕ)) × (texts i ≡ texts_of i entries ++ later)

owned_text : (pc : Pc) (eax : ℕ) (p : Printer) → owns pc eax ≡ true → under_way pc p ≡ p.text ∷ []
owned_text outside eax p own = absurd (ground (arith, own))
owned_text _ eax p own = refl

Kept-part :
    (texts : ℕ → List (List ℕ)) (s : Shared) (k : Kept texts s) (o : Option ℕ)
    → k.owner ≡ o
    → (k.done ≡ [])
      ⊎ ((i : ℕ) × (rest : List ℕ) × (later : List (List ℕ)) × (texts i
            ≡ texts_of i k.entries ++ ((k.done ++ rest) ∷ later)))
Kept-part texts s k none e = inl (subst (λ t. Partial s t k.done) e k.partial)
Kept-part texts s k (some i) e = inr (
  i,
  (s.printers i).left,
  (s.printers i).later,
  k.texts_kept i
      ∙ ap (λ t. texts_of i k.entries ++ (t ++ (s.printers i).later))
          (owned_text (s.system.cores i).pc (s.system.cores i).eax (s.printers i)
              (k.owned.own i ∙ ap (λ t. is_owner t i) e ∙ eq→== i i refl)
            ∙ ap (λ t. t ∷ []) (sym (subst (λ t. Partial s t k.done) e k.partial))),
)

Kept-Whole : (texts : ℕ → List (List ℕ)) (s : Shared) → Kept texts s → Whole texts s.output
Kept-Whole texts s k = record {
  entries = k.entries;
  done = k.done;
  output = k.output;
  part = Kept-part texts s k k.owner refl;
  first =
      λ i. (under_way (s.system.cores i).pc (s.printers i) ++ (s.printers i).later, k.texts_kept i);
}

-- In every schedule, from the free lock and with any texts to print, the output is whole texts and
-- perhaps the first part of one more, the next text of its core; the whole texts of each core are its
-- first ones, in its order.
pub run-Whole :
    (eax : ℕ → ℕ) (texts : ℕ → List (List ℕ)) (is : List ℕ)
    → Whole texts (run (idle eax texts) is).output
run-Whole eax texts is =
    Kept-Whole texts (run (idle eax texts) is)
      (run-Kept texts (idle eax texts) is (idle-Kept eax texts))

-- A core has returned from its calls and has none to make.
abbrev pub Returned : Shared → ℕ → Type 0
Returned s i = ((s.system.cores i).pc ≡ outside) × ((s.printers i).later ≡ [])

nobody :
    (texts : ℕ → List (List ℕ)) (s : Shared) (k : Kept texts s) (o : Option ℕ)
    → k.owner ≡ o
    → ((i : ℕ) → Returned s i)
    → k.done ≡ []
nobody texts s k none e returned = subst (λ t. Partial s t k.done) e k.partial
nobody texts s k (some i) e returned = absurd (
    ground (
      arith,
      k.owned.own i,
      ap (λ t. is_owner t i) e,
      eq→== i i refl,
      ap (λ p. owns p (s.system.cores i).eax) (returned i).0,
    ))

-- When all cores have returned from their calls and have none left to make, in any schedule, the output
-- is the texts of all, each of them whole and once, and those of a core in its order.
pub run-Returned :
    (eax : ℕ → ℕ) (texts : ℕ → List (List ℕ)) (is : List ℕ)
    → ((i : ℕ) → Returned (run (idle eax texts) is) i)
    → (es : List Entry) × ((run (idle eax texts) is).output ≡ all_text es)
      × ((i : ℕ) → texts_of i es ≡ texts i)
run-Returned eax texts is returned =
    let s = run (idle eax texts) is in
    let k = run-Kept texts (idle eax texts) is (idle-Kept eax texts) in
    (
      k.entries,
      k.output
          ∙ ap (◌++◌ (all_text k.entries)) (nobody texts s k k.owner refl returned)
          ∙ append-nil (all_text k.entries),
      λ i. sym (
          k.texts_kept i
          ∙ ap (λ t. texts_of i k.entries ++ (t ++ (s.printers i).later))
              (ap (λ p. under_way p (s.printers i)) (returned i).0)
          ∙ ap (◌++◌ (texts_of i k.entries)) (returned i).1
          ∙ append-nil (texts_of i k.entries)),
    )
