-- ===== src/Slots/Safety.antt =====
-- 503.slots: what every schedule keeps, from a start on empty rings.
use rtbench.Common.{
  length-replicate, ℕ, ◌+◌, ◌<◌, ◌≤◌, ◌≡◌, ap, ◌∙◌, arith, Bool, true, false, List, [], ◌∷◌, length,
  replicate,
}
use rtbench.Slots.{
  Message, out_msg1, out_msg2, msg1, msg2, Rings, AppPc, app_done, try1, try2, try3, try4, barrier,
  spin, test, returned, Slots, Thread, run, start,
}
use rtbench.Slots.Fifo.{IsFifo, one_if}
use rtbench.Slots.Invariant.{Valid, start-Valid}
use rtbench.Slots.Moves.{run-Valid}

-- What the threads of input and output read, and when the threads end.
pub record InOrder {R : Type 0} (s : Slots R) : Type 0 where
  pub reads0 : s.io0.pc ≡ test → s.payload s.received ≡ s.io0.rounds + 1
  pub reads1 : s.io1.pc ≡ test → s.payload s.received ≡ s.io1.rounds + 1
  pub returned0 : s.io0.pc ≡ returned → s.io0.rounds + 1 ≡ 40
  pub returned1 : s.io1.pc ≡ returned → s.io1.rounds + 1 ≡ 40
  pub app_ended : s.app.pc ≡ app_done → (s.payload out_msg1 ≡ 40) × (s.payload out_msg2 ≡ 40)

-- The application is between the head of a round and its barrier.
abbrev pub receives : AppPc → Bool
receives try1 = true
receives try2 = true
receives try3 = true
receives try4 = true
receives barrier = true
receives pc = false

module _ {R : Type 0} (contents : R → List Message) where
  -- How full the rings get.
  pub record IsShort (s : Slots R) : Type 0 where
    pub app1 : length (contents s.app1) ≤ 2
    pub app2 : length (contents s.app2) ≤ 2
    pub out1 : length (contents s.out1) ≤ 1
    pub out2 : length (contents s.out2) ≤ 1

  -- The threads do not all wait for each other.
  pub record NotStuck (s : Slots R) : Type 0 where
    pub round :
        receives s.app.pc ≡ true
        → s.io0.pc ≡ spin
        → s.io1.pc ≡ spin
        → contents s.out1 ≡ []
        → contents s.out2 ≡ []
        → (length (contents s.app1) + (one_if s.app.received1 + one_if s.app.received3) ≡ 2)
          × (length (contents s.app2) + (one_if s.app.received2 + one_if s.app.received4) ≡ 2)
    pub ended0 : s.app.pc ≡ app_done → s.io0.pc ≡ spin → contents s.out1 ≡ out_msg1 ∷ []
    pub ended1 : s.app.pc ≡ app_done → s.io1.pc ≡ spin → contents s.out2 ≡ out_msg2 ∷ []

  Valid-InOrder : (s : Slots R) → Valid contents s → InOrder s
  Valid-InOrder s v = ground (arith, v.numbers, v.reads)

  held_length : (r : R) (m : Message) (n : ℕ) → contents r ≡ replicate n m → length (contents r) ≡ n
  held_length r m n h = ap length h ∙ length-replicate n m

  Valid-IsShort : (s : Slots R) → Valid contents s → IsShort s
  Valid-IsShort s v =
      let (h1, h2, h3, h4) = v.held in
      let l1 = held_length s.app1 msg1 v.n1 h1 in
      let l2 = held_length s.app2 msg2 v.n2 h2 in
      let l3 = held_length s.out1 out_msg1 v.n3 h3 in
      let l4 = held_length s.out2 out_msg2 v.n4 h4 in ground (arith, v.numbers, l1, l2, l3, l4)

  Valid-NotStuck : (s : Slots R) → Valid contents s → NotStuck s
  Valid-NotStuck s v =
      let (h1, h2, h3, h4) = v.held in
      let l1 = held_length s.app1 msg1 v.n1 h1 in
      let l2 = held_length s.app2 msg2 v.n2 h2 in
      let l3 = held_length s.out1 out_msg1 v.n3 h3 in
      let l4 = held_length s.out2 out_msg2 v.n4 h4 in
      record {
        round =
            λ p e0 e1 c3 c4. ground (arith, v.numbers, l1, l2, l3, l4, ap length c3, ap length c4);
        ended0 = λ p e0.
            let one : v.n3 ≡ 1 = ground (arith, v.numbers) in
            h3 ∙ ap (λ t. replicate t out_msg1) one;
        ended1 = λ p e1.
            let one : v.n4 ≡ 1 = ground (arith, v.numbers) in
            h4 ∙ ap (λ t. replicate t out_msg2) one;
      }

module _ {R : Type 0} (o : Rings R) (contents : R → List Message) (capacity : ℕ)
    (fifo : IsFifo o contents capacity) (room : 1 < capacity) (app1 app2 out1 out2 : R)
    (received : Message)
    (empty : (contents app1 ≡ [])
      × (contents app2 ≡ [])
      × (contents out1 ≡ [])
      × (contents out2 ≡ [])) where
  reached-Valid :
      (ts : List Thread) → Valid contents (run o (start app1 app2 out1 out2 received) ts)
  reached-Valid ts =
      let (e1, e2, e3, e4) = empty in
      run-Valid o contents capacity fifo room (start app1 app2 out1 out2 received) ts
        (start-Valid contents app1 app2 out1 out2 received e1 e2 e3 e4)

  -- In every schedule each thread of `io_func` reads the payloads 1, 2, 3 and so on, one for each of
  -- its rounds, though both read them through one shared pointer while the application goes on; it
  -- returns in its round 40 and not before, and the application ends with both payloads 40. The rings
  -- are queues that start empty, with room for two messages.
  pub run-InOrder : (ts : List Thread) → InOrder (run o (start app1 app2 out1 out2 received) ts)
  run-InOrder ts = Valid-InOrder contents _ (reached-Valid ts)

  -- In every schedule the rings to the application hold at most two messages and those from it at
  -- most one, so that no send finds its ring full; the rings are as before.
  pub run-IsShort :
      (ts : List Thread) → IsShort contents (run o (start app1 app2 out1 out2 received) ts)
  run-IsShort ts = Valid-IsShort contents _ (reached-Valid ts)

  -- In every schedule, when both threads of `io_func` wait at empty rings and the application
  -- receives, its rings hold exactly the messages that its round still needs, and when the application
  -- has ended, a thread that waits has its last message in the ring; the rings are as before.
  pub run-NotStuck :
      (ts : List Thread) → NotStuck contents (run o (start app1 app2 out1 out2 received) ts)
  run-NotStuck ts = Valid-NotStuck contents _ (reached-Valid ts)
