-- ===== src/Messages/Tests.antt =====
-- Two processors that print at the same time.
use rtbench.Common.{
  ℕ, ◌≡◌, ◌≢◌, ap, ◌∙◌, ◌==◌, zero, suc, arith, ne→==, if◌then◌else◌, List, [], ◌∷◌, refl, Bool,
  true, false, ltb, ◌<◌,
}
use rtbench.SpinLock
use rtbench.SpinLock.{Pc, outside, critical, instr, spinlock_lock, spinlock_unlock}
use rtbench.Messages.{Printer, Shared, lock_step, begin_text, print_next, move_at, move, run, idle}
use rtbench.Messages.Facts.{step_there}
use rtbench.Messages.Invariant.{Entry, all_text, texts_of}
use rtbench.Messages.Order.{Whole, run-Whole, Returned, run-Returned}

-- Processor 0 prints "ab" and then "c", processor 1 "de".
abbrev words : ℕ → List (List ℕ)
words i =
    if i == 0 then (97 ∷ 98 ∷ []) ∷ (99 ∷ []) ∷ [] else if i == 1 then (100 ∷ 101 ∷ []) ∷ [] else []

-- Processor 1 gets the lock first, and has printed one character.
abbrev some_moves : List ℕ
some_moves = 0 ∷ 1 ∷ 1 ∷ 1 ∷ 0 ∷ 1 ∷ 0 ∷ 1 ∷ 0 ∷ []

-- Then all go on until each text is out.
abbrev all_moves : List ℕ
all_moves =
    0 ∷ 1 ∷ 1 ∷ 1 ∷ 0 ∷ 1 ∷ 0 ∷ 1 ∷ 0 ∷ 1 ∷ 1 ∷ 1 ∷ 1 ∷ 0 ∷ 0 ∷ 0 ∷ 0 ∷ 0 ∷ 0 ∷ 0 ∷ 0 ∷ 0 ∷ 0 ∷ 0
    ∷ 0 ∷ 0 ∷ 0 ∷ 0 ∷ 0 ∷ 0 ∷ 0 ∷ []

some_moves_runs : (run (idle (λ i. 0) words) some_moves).output ≡ 100 ∷ []
unfolding run move SpinLock.step
some_moves_runs = refl

all_moves_runs : (run (idle (λ i. 0) words) all_moves).output ≡ 100 ∷ 101 ∷ 97 ∷ 98 ∷ 99 ∷ []
unfolding run move SpinLock.step
all_moves_runs = refl

run-Whole_example : Whole words (run (idle (λ i. 0) words) some_moves).output
run-Whole_example = run-Whole (λ i. 0) words some_moves

-- A core that the schedule does not name keeps its place and its printer.
Stays : Shared → ℕ → Shared → Type 0
Stays s j s' = ((s'.system.cores j).pc ≡ (s.system.cores j).pc) × (s'.printers j ≡ s.printers j)

lock_step-Stays : (s : Shared) (i j : ℕ) (a : SpinLock.Action) → j ≢ i → Stays s j (lock_step s i a)
unfolding Stays
lock_step-Stays s i j a ne = (step_there s.system i j a ne, refl)

begin_text-Stays :
    (s : Shared) (i j : ℕ) (later : List (List ℕ)) → j ≢ i → Stays s j (begin_text s i later)
unfolding Stays
begin_text-Stays s i j [] ne = (refl, refl)
begin_text-Stays s i j (t ∷ ts) ne =
    (step_there s.system i j spinlock_lock ne, rw (ne→== j i ne) refl)

print_next-Stays :
    (s : Shared) (i j : ℕ) (p : Printer) (left : List ℕ) → j ≢ i → Stays s j (print_next s i p left)
unfolding Stays
print_next-Stays s i j p [] ne = (step_there s.system i j spinlock_unlock ne, refl)
print_next-Stays s i j p (c ∷ cs) ne = (refl, rw (ne→== j i ne) refl)

move_at-Stays : (s : Shared) (i j : ℕ) (pc : Pc) → j ≢ i → Stays s j (move_at s i pc)
move_at-Stays s i j outside ne = begin_text-Stays s i j (s.printers i).later ne
move_at-Stays s i j critical ne = print_next-Stays s i j (s.printers i) (s.printers i).left ne
move_at-Stays s i j _ ne = lock_step-Stays s i j instr ne

-- The schedule names processors 0 and 1 only.
abbrev only_two : List ℕ → Bool
only_two [] = true
only_two (i ∷ is) = if ltb i 2 then only_two is else false

only_two_head : (i : ℕ) (is : List ℕ) → only_two (i ∷ is) ≡ true → (i < 2) × (only_two is ≡ true)
only_two_head i is e = ground arith

run-Returned_other :
    (s : Shared) (j : ℕ) (is : List ℕ)
    → 1 < j
    → only_two is ≡ true
    → Returned s j
    → Returned (run s is) j
unfolding Stays run move
run-Returned_other s j [] far two idle = idle
run-Returned_other s j (i ∷ is) far two (pc, later) =
    let (small, two') = only_two_head i is two in
    let (pc', printer') = move_at-Stays s i j (s.system.cores i).pc (λ e. omega (arith, e)) in
    run-Returned_other (move s i) j is far two' (pc' ∙ pc, ap Printer.later printer' ∙ later)

no_words : (i : ℕ) → words (suc (suc i)) ≡ []
no_words i =
    rw
      (ne→== (suc (suc i)) 0 (λ e. omega (arith, e)), ne→== (suc (suc i)) 1 (λ e. omega (arith, e)))
      refl

all_moves-Returned : (i : ℕ) → Returned (run (idle (λ i. 0) words) all_moves) i
unfolding run move SpinLock.step
all_moves-Returned zero = (refl, refl)
all_moves-Returned (suc zero) = (refl, refl)
all_moves-Returned (suc (suc i)) =
    run-Returned_other (idle (λ i. 0) words) (suc (suc i)) all_moves (omega arith) refl
      (refl, no_words i)

run-Returned_example :
    (es : List Entry) × ((run (idle (λ i. 0) words) all_moves).output ≡ all_text es)
    × ((i : ℕ) → texts_of i es ≡ words i)
run-Returned_example = run-Returned (λ i. 0) words all_moves all_moves-Returned
