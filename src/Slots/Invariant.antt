-- ===== src/Slots/Invariant.antt =====
-- 503.slots: what holds between two steps.
use rtbench.Common.{ℕ, ◌+◌, ◌*◌, ◌≤◌, ◌≡◌, ◌⊎◌, arith, Bool, List, [], replicate}
use rtbench.Slots.{
  Message, msg1, msg2, out_msg1, out_msg2, AppPc, head, add1, send1, add2, send2, app_done, IoPc,
  inc1, put1, spin, test, returned, Slots, start,
}
use rtbench.Slots.Fifo.{one_if}

-- What a round of the application has received, from the two tries of a ring.
abbrev pub taken : AppPc → Bool → Bool → ℕ
taken head a b = 0
taken app_done a b = 0
taken pc a b = one_if a + one_if b

-- Behind the barrier.
abbrev pub passed : AppPc → ℕ
passed add1 = 1
passed send1 = 1
passed add2 = 1
passed send2 = 1
passed pc = 0

-- Which increments and sends of the round are done.
abbrev pub added1 : AppPc → ℕ
added1 send1 = 1
added1 add2 = 1
added1 send2 = 1
added1 pc = 0

abbrev pub sent1 : AppPc → ℕ
sent1 add2 = 1
sent1 send2 = 1
sent1 pc = 0

abbrev pub added2 : AppPc → ℕ
added2 send2 = 1
added2 pc = 0

-- The rounds that have begun.
abbrev pub inside : AppPc → ℕ
inside head = 0
inside app_done = 0
inside pc = 1

-- Behind the loop.
abbrev pub over : AppPc → ℕ
over app_done = 1
over pc = 0

-- What a round of a thread of input and output has sent to each ring, and received.
abbrev pub gave1 : IoPc → ℕ
gave1 inc1 = 0
gave1 put1 = 0
gave1 pc = 1

abbrev pub gave2 : IoPc → ℕ
gave2 spin = 1
gave2 test = 1
gave2 returned = 1
gave2 pc = 0

abbrev pub got_answer : IoPc → ℕ
got_answer test = 1
got_answer returned = 1
got_answer pc = 0

-- The messages are counted: `n1` to `n4` are in the rings, `pay1` and `pay2` the payloads of the
-- application's messages, `i` its round, `j0` and `j1` the rounds of the two others.
pub record Numbers (n1 n2 n3 n4 pay1 pay2 i j0 j1 : ℕ) (a b c d : Bool) (pc : AppPc) (p0 p1 : IoPc)
    : Type 0 where
  pub ring1 : n1 + (2 * i + taken pc a c) ≡ j0 + gave1 p0 + (j1 + gave1 p1)
  pub ring2 : n2 + (2 * i + taken pc b d) ≡ j0 + gave2 p0 + (j1 + gave2 p1)
  pub ring3 : n3 + (j0 + got_answer p0) ≡ i + sent1 pc
  pub ring4 : n4 + (j1 + got_answer p1) ≡ i
  pub payload1 : pay1 ≡ i + added1 pc
  pub payload2 : pay2 ≡ i + added2 pc
  pub low01 : i + passed pc ≤ j0 + gave1 p0
  pub low02 : i + passed pc ≤ j0 + gave2 p0
  pub low11 : i + passed pc ≤ j1 + gave1 p1
  pub low12 : i + passed pc ≤ j1 + gave2 p1
  pub busy1 : 2 * passed pc ≤ taken pc a c
  pub busy2 : 2 * passed pc ≤ taken pc b d
  pub rounds : i + inside pc ≤ 40
  pub all_rounds : 40 * over pc ≤ i
  pub last0 : j0 ≤ 39
  pub last1 : j1 ≤ 39

-- The payload that a thread at its test reads through the shared pointer is the number of its round.
-- While the second message of a round is not sent, the first thread's pointer is its own.
pub record Reads (payload : Message → ℕ) (received : Message) (j0 j1 : ℕ) (pc : AppPc)
    (p0 p1 : IoPc) : Type 0 where
  pub io0 : p0 ≡ test → payload received ≡ j0 + 1
  pub io1 : p1 ≡ test → payload received ≡ j1 + 1
  pub own : sent1 pc ≡ 1 → p0 ≡ test → received ≡ out_msg1
  pub done0 : p0 ≡ returned → j0 ≡ 39
  pub done1 : p1 ≡ returned → j1 ≡ 39
  pub outs : (p0 ≡ test) ⊎ (p1 ≡ test) → (received ≡ out_msg1) ⊎ (received ≡ out_msg2)

module _ {R : Type 0} (contents : R → List Message) where
  -- Each ring holds copies of one message.
  abbrev pub Held : Slots R → ℕ → ℕ → ℕ → ℕ → Type 0
  Held s n1 n2 n3 n4 =
      (contents s.app1 ≡ replicate n1 msg1)
      × (contents s.app2 ≡ replicate n2 msg2)
      × (contents s.out1 ≡ replicate n3 out_msg1)
      × (contents s.out2 ≡ replicate n4 out_msg2)

  -- The invariant, with the places of the three threads.
  pub record Inv (pc : AppPc) (p0 p1 : IoPc) (s : Slots R) : Type 0 where
    pub n1 : ℕ
    pub n2 : ℕ
    pub n3 : ℕ
    pub n4 : ℕ
    pub held : Held s n1 n2 n3 n4
    pub numbers :
        Numbers n1 n2 n3 n4
          (s.payload out_msg1)
          (s.payload out_msg2)
          s.app.i
          s.io0.rounds
          s.io1.rounds
          s.app.received1
          s.app.received2
          s.app.received3
          s.app.received4
          pc
          p0
          p1
    pub reads : Reads s.payload s.received s.io0.rounds s.io1.rounds pc p0 p1

  module _ {pc : AppPc} {p0 p1 : IoPc} {s : Slots R} where
    pub inv :
        (n1 n2 n3 n4 : ℕ)
        → Held s n1 n2 n3 n4
        → Numbers n1 n2 n3 n4
            (s.payload out_msg1)
            (s.payload out_msg2)
            s.app.i
            s.io0.rounds
            s.io1.rounds
            s.app.received1
            s.app.received2
            s.app.received3
            s.app.received4
            pc
            p0
            p1
        → Reads s.payload s.received s.io0.rounds s.io1.rounds pc p0 p1
        → Inv pc p0 p1 s
    inv n1 n2 n3 n4 held numbers reads = record {
      n1 = n1;
      n2 = n2;
      n3 = n3;
      n4 = n4;
      held = held;
      numbers = numbers;
      reads = reads;
    }

  abbrev pub Valid : Slots R → Type 0
  Valid s = Inv s.app.pc s.io0.pc s.io1.pc s

  -- The start is valid on empty rings.
  pub start-Valid :
      (app1 app2 out1 out2 : R) (received : Message)
      → contents app1 ≡ []
      → contents app2 ≡ []
      → contents out1 ≡ []
      → contents out2 ≡ []
      → Valid (start app1 app2 out1 out2 received)
  start-Valid app1 app2 out1 out2 received e1 e2 e3 e4 = record {
    n1 = 0;
    n2 = 0;
    n3 = 0;
    n4 = 0;
    held = (e1, e2, e3, e4);
    numbers = ground arith;
    reads = ground arith;
  }
