-- ===== src/Messages/Moves.antt =====
-- One move of a core after the other: what it leaves of the state's invariant.
use mathlib.Core.List.{append_assoc, append-nil}
use rtbench.Common.{
  ℕ, ◌≡◌, ◌≢◌, refl, sym, ap, ◌∙◌, subst, arith, List, [], ◌∷◌, ◌++◌, Option, none, some, false,
  eq→==, ne→==, ℕ_discrete,
}
use rtbench.SpinLock
use rtbench.SpinLock.{
  Pc, System, Core, outside, critical, lock_mov, lock_l1, lock_test, lock_l2, unlock_xor,
  unlock_xchg, try_mov, try_xchg, try_ret, spinlock_lock, spinlock_unlock, instr, act,
}
use rtbench.SpinLock.Owner.{Owned, owns, is_owner, LockStep, same, acquire, release}
use rtbench.SpinLock.Safety.{step-LockStep}
use rtbench.Messages.{Printer, Shared, lock_step, begin_text, print_next}
use rtbench.Messages.Invariant.{Entry, all_text, texts_of, under_way, Part, Place, Partial, Kept}
use rtbench.Messages.Facts.{
  all_text_last, texts_of-append, texts_of_own, texts_of_other, step_here, step_there, own_core,
  prefix_none, LockStep-same, LockStep-free,
}

module _ (texts : ℕ → List (List ℕ)) (s : Shared) (k : Kept texts s) (i : ℕ) where
  -- The state behind a move of core `i`, from what has changed.
  rebuild :
      (s' : Shared) (p : Pc) (printer : Printer) (o : Option ℕ) (entries : List Entry)
      (done : List ℕ)
      → (s'.system.cores i).pc ≡ p
      → s'.printers i ≡ printer
      → ((j : ℕ) → j ≢ i → (s'.system.cores j).pc ≡ (s.system.cores j).pc)
      → ((j : ℕ) → j ≢ i → s'.printers j ≡ s.printers j)
      → Owned s'.system o
      → s'.output ≡ all_text entries ++ done
      → Partial s' o done
      → Place p printer
      → texts i ≡ texts_of i entries ++ (under_way p printer ++ printer.later)
      → ((j : ℕ) → j ≢ i → texts_of j entries ≡ texts_of j k.entries)
      → Kept texts s'
  rebuild s' p printer o entries done here mine there theirs owned output partial place whole
        others =
      record {
        owner = o;
        owned = owned;
        entries = entries;
        done = done;
        output = output;
        partial = partial;
        place = λ j. elim (ℕ_discrete j i) [
          | yes e ↦
              subst (λ n. Place (s'.system.cores n).pc (s'.printers n)) (sym e)
                (rw (here, mine) place)
          | no ne ↦ rw (there j ne, theirs j ne) (k.place j)
        ];
        texts_kept = λ j. elim (ℕ_discrete j i) [
          | yes e ↦
              subst
                (λ n.
                  texts n
                  ≡ texts_of n entries
                    ++ (under_way (s'.system.cores n).pc (s'.printers n) ++ (s'.printers n).later))
                (sym e) (rw (here, mine) whole)
          | no ne ↦ rw (there j ne, theirs j ne, others j ne) (k.texts_kept j)
        ];
      }

  abbrev printer : Printer
  printer = s.printers i

  waiting-Partial :
      (o o' : Option ℕ) (done : List ℕ)
      → LockStep i o o'
      → printer.left ≡ printer.text
      → Partial s o done
      → Partial s o' done
  waiting-Partial o o' done same all partial = partial
  waiting-Partial o o' done acquire all partial = rw partial all
  waiting-Partial o o' done release all partial =
      prefix_none done printer.text (ap (◌++◌ done) (sym all) ∙ partial)

  -- An instruction before the lock is taken.
  pub waiting_move :
      (p' : Pc)
      → ((SpinLock.step s.system i instr).cores i).pc ≡ p'
      → printer.left ≡ printer.text
      → Place p' printer
      → under_way (s.system.cores i).pc printer ≡ under_way p' printer
      → Kept texts (lock_step s i instr)
  waiting_move p' here all place same_text =
      let (o, ls, owned) = step-LockStep k.owned i instr in
      rebuild (lock_step s i instr) p' printer o k.entries k.done here refl
        (λ j ne. step_there s.system i j instr ne) (λ j ne. refl) owned k.output
        (waiting-Partial k.owner o k.done ls all k.partial) place
        (k.texts_kept i ∙ ap (λ u. texts_of i k.entries ++ (u ++ printer.later)) same_text)
        (λ j ne. refl)

  -- An action that neither takes nor gives back the lock.
  pub steady_move :
      (a : SpinLock.Action) (p' : Pc)
      → ((SpinLock.step s.system i a).cores i).pc ≡ p'
      → owns p' ((SpinLock.step s.system i a).cores i).eax
        ≡ owns (s.system.cores i).pc (s.system.cores i).eax
      → Place p' printer
      → under_way (s.system.cores i).pc printer ≡ under_way p' printer
      → Kept texts (lock_step s i a)
  steady_move a p' here same_own place same_text =
      let (o, ls, owned) = step-LockStep k.owned i a in
      let still : o ≡ k.owner = LockStep-same i k.owner o ls (
        sym (k.owned.own i)
        ∙ sym same_own
        ∙ ap (λ p. owns p ((SpinLock.step s.system i a).cores i).eax) (sym here)
        ∙ owned.own i) in
      rebuild (lock_step s i a) p' printer o k.entries k.done here refl
        (λ j ne. step_there s.system i j a ne) (λ j ne. refl) owned k.output (rw still k.partial)
        place (k.texts_kept i ∙ ap (λ u. texts_of i k.entries ++ (u ++ printer.later)) same_text)
        (λ j ne. refl)

  -- The instruction that gives the lock back: the whole text is out.
  pub release_move :
      (s.system.cores i).pc ≡ unlock_xchg → printer.left ≡ [] → Kept texts (lock_step s i instr)
  release_move at none_left =
      let (o, ls, owned) = step-LockStep k.owned i instr in
      let here : ((SpinLock.step s.system i instr).cores i).pc ≡ outside =
        step_here s.system i instr
        ∙ ap (λ p. (SpinLock.exec p (s.system.cores i).eax s.system.locked).0) at in
      let mine : k.owner ≡ some i =
        own_core k.owner i (ap (λ p. owns p (s.system.cores i).eax) (sym at) ∙ k.owned.own i) in
      let free : o ≡ none = LockStep-free i k.owner o ls mine (
        sym (owned.own i) ∙ ap (λ p. owns p ((SpinLock.step s.system i instr).cores i).eax) here) in
      let part : k.done ++ printer.left ≡ printer.text =
        subst (λ t. Partial s t k.done) mine k.partial in
      let whole : k.done ≡ printer.text =
        sym (append-nil k.done) ∙ ap (◌++◌ k.done) (sym none_left) ∙ part in
      let entry : Entry = record { core = i; text = printer.text } in
      rebuild (lock_step s i instr) outside printer none (k.entries ++ (entry ∷ [])) [] here refl
        (λ j ne. step_there s.system i j instr ne) (λ j ne. refl)
        (subst (Owned (SpinLock.step s.system i instr)) free owned)
        (k.output ∙ ap (◌++◌ (all_text k.entries)) whole ∙ sym (all_text_last k.entries entry)) refl
        tt
        (k.texts_kept i
          ∙ ap (λ p. texts_of i k.entries ++ (under_way p printer ++ printer.later)) at
          ∙ sym (append_assoc (texts_of i k.entries) (printer.text ∷ []) printer.later)
          ∙ ap (λ t. t ++ printer.later)
              (sym (
                texts_of-append i k.entries (entry ∷ [])
                ∙ ap (◌++◌ (texts_of i k.entries)) (texts_of_own i printer.text))))
        (λ j ne.
          texts_of-append j k.entries (entry ∷ [])
          ∙ ap (◌++◌ (texts_of j k.entries)) (texts_of_other i j printer.text ne)
          ∙ append-nil (texts_of j k.entries))

  -- The core with the lock prints a character.
  pub print_move :
      (c : ℕ) (cs : List ℕ)
      → (s.system.cores i).pc ≡ critical
      → printer.left ≡ c ∷ cs
      → Kept texts (print_next s i printer (c ∷ cs))
  print_move c cs at some_left =
      let p' : Printer = record printer { left = cs } in
      let s' = print_next s i printer (c ∷ cs) in
      let here : s'.printers i ≡ p' = rw (eq→== i i refl) refl in
      let mine : k.owner ≡ some i =
        own_core k.owner i (ap (λ p. owns p (s.system.cores i).eax) (sym at) ∙ k.owned.own i) in
      let part : k.done ++ printer.left ≡ printer.text =
        subst (λ t. Partial s t k.done) mine k.partial in
      rebuild s' critical p' (some i) k.entries (k.done ++ (c ∷ [])) at here (λ j ne. refl)
        (λ j ne. rw (ne→== j i ne) refl) (subst (Owned s.system) mine k.owned)
        (ap (λ t. t ++ (c ∷ [])) k.output ∙ append_assoc (all_text k.entries) k.done (c ∷ []))
        (subst (Part (k.done ++ (c ∷ []))) (sym here)
          (append_assoc k.done (c ∷ []) cs ∙ ap (◌++◌ k.done) (sym some_left) ∙ part))
        tt
        (k.texts_kept i
          ∙ ap (λ p. texts_of i k.entries ++ (under_way p printer ++ printer.later)) at)
        (λ j ne. refl)

  Partial-other :
      (s' : Shared) (o : Option ℕ) (done : List ℕ)
      → ((j : ℕ) → j ≢ i → s'.printers j ≡ s.printers j)
      → is_owner o i ≡ false
      → Partial s o done
      → Partial s' o done
  Partial-other s' none done theirs free partial = partial
  Partial-other s' (some j) done theirs free partial =
      subst (Part done) (sym (theirs j (λ e. ground (arith, e, free)))) partial

  -- A core calls the print function.
  pub begin_move :
      (t : List ℕ) (ts : List (List ℕ))
      → (s.system.cores i).pc ≡ outside
      → printer.later ≡ t ∷ ts
      → Kept texts (begin_text s i (t ∷ ts))
  begin_move t ts at more =
      let p' : Printer = record { text = t; left = t; later = ts } in
      let s' = begin_text s i (t ∷ ts) in
      let (o, ls, owned) = step-LockStep k.owned i spinlock_lock in
      let pc : (s'.system.cores i).pc ≡ lock_mov =
        step_here s.system i spinlock_lock ∙ ap (λ p. SpinLock.call spinlock_lock p) at in
      let here : s'.printers i ≡ p' = rw (eq→== i i refl) refl in
      let theirs : (j : ℕ) → j ≢ i → s'.printers j ≡ s.printers j =
        λ j ne. rw (ne→== j i ne) refl in
      let free : is_owner k.owner i ≡ false =
        sym (k.owned.own i) ∙ ap (λ p. owns p (s.system.cores i).eax) at in
      let free' : is_owner o i ≡ false =
        sym (owned.own i) ∙ ap (λ p. owns p (s'.system.cores i).eax) pc in
      let still : o ≡ k.owner = LockStep-same i k.owner o ls (free ∙ sym free') in
      rebuild s' lock_mov p' o k.entries k.done pc here
        (λ j ne. step_there s.system i j spinlock_lock ne) theirs owned k.output
        (subst (λ t. Partial s' t k.done) (sym still)
          (Partial-other s' k.owner k.done theirs free k.partial))
        refl
        (k.texts_kept i
          ∙ ap (λ p. texts_of i k.entries ++ (under_way p printer ++ printer.later)) at
          ∙ ap (◌++◌ (texts_of i k.entries)) more)
        (λ j ne. refl)
