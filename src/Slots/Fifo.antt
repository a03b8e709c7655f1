-- ===== src/Slots/Fifo.antt =====
-- bench/common/rte_ring.h: what the program relies on of the rings, and what its sends and receives do
-- to a ring that holds copies of one message.
use rtbench.Common.{
  length-replicate, ℕ, zero, suc, ◌+◌, ◌<◌, ◌≡◌, refl, sym, subst, ap, ◌∙◌, arith, Bool, true,
  false, List, [], ◌∷◌, ◌++◌, length, replicate, none, some,
}
use rtbench.Slots.{Message, msg1, Rings, send, receive, try_once}

-- A ring is a queue with room for `capacity` messages: an enqueue appends while there is room, a
-- dequeue takes the oldest message and fails on the empty ring.
pub record IsFifo {R : Type 0} (o : Rings R) (contents : R → List Message) (capacity : ℕ)
    : Type 0 where
  pub added :
      (r : R) (m : Message)
      → length (contents r) < capacity
      → (r' : R) × (o.mp_enqueue r m ≡ some r') × (contents r' ≡ contents r ++ m ∷ [])
  pub none_left : (r : R) → contents r ≡ [] → o.mc_dequeue r ≡ none
  pub taken :
      (r : R) (m : Message) (ms : List Message)
      → contents r ≡ m ∷ ms
      → (r' : R) × (o.mc_dequeue r ≡ some (m, r')) × (contents r' ≡ ms)

abbrev pub one_if : Bool → ℕ
one_if true = 1
one_if false = 0

replicate-suc : {A : Type 0} (n : ℕ) (a : A) → replicate n a ++ a ∷ [] ≡ replicate (suc n) a
replicate-suc zero a = refl
replicate-suc (suc n) a = ap (◌∷◌ a) (replicate-suc n a)

module _ {R : Type 0} (o : Rings R) (contents : R → List Message) (capacity : ℕ)
    (fifo : IsFifo o contents capacity) where
  -- The ring holds `n` copies of one message.
  abbrev pub Holds : R → Message → ℕ → Type 0
  Holds r m n = contents r ≡ replicate n m

  pub send-Holds :
      (r : R) (m : Message) (n : ℕ) → Holds r m n → n < capacity → Holds (send o r m) m (suc n)
  send-Holds r m n h lt =
      let room : length (contents r) < capacity =
        subst (λ t. t < capacity) (sym (ap length h ∙ length-replicate n m)) lt in
      let (r', e, c) = fifo.added r m room in rw e (c ∙ ap (λ t. t ++ m ∷ []) h ∙ replicate-suc n m)

  -- A try to receive from a ring with `n` copies of `m`.
  pub data Received (old m : Message) (r : R) : ℕ → Bool × Message × R → Type 0 where
    missed : Received old m r 0 (false, old, r)
    got : {n : ℕ} {r' : R} → Holds r' m n → Received old m r (suc n) (true, m, r')

  pub receive-Received :
      (old m : Message) (r : R) (n : ℕ) → Holds r m n → Received old m r n (receive o old r)
  receive-Received old m r zero h = rw (fifo.none_left r h) missed
  receive-Received old m r (suc n) h =
      let (r', e, c) = fifo.taken r m (replicate n m) h in rw e (got c)

  -- A try of the application, which keeps the sum of what the ring holds and what it has received.
  pub data TriedOnce (m : Message) (b : Bool) (n : ℕ) : Bool × R → Type 0 where
    tried_once :
        (n' : ℕ) {b' : Bool} {r' : R}
        → Holds r' m n'
        → n + one_if b ≡ n' + one_if b'
        → TriedOnce m b n (b', r')

  tried-TriedOnce :
      {old m : Message} {r : R} {n : ℕ} {x : Bool × Message × R}
      → Received old m r n x
      → Holds r m n
      → TriedOnce m false n (x.0, x.2)
  tried-TriedOnce missed h = tried_once 0 h refl
  tried-TriedOnce (got {n} c) h = tried_once n c (omega arith)

  pub try_once-TriedOnce :
      (m : Message) (b : Bool) (r : R) (n : ℕ) → Holds r m n → TriedOnce m b n (try_once o b r)
  try_once-TriedOnce m true r n h = tried_once n h refl
  try_once-TriedOnce m false r n h = tried-TriedOnce (receive-Received msg1 m r n h) h
