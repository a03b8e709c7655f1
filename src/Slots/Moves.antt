-- ===== src/Slots/Moves.antt =====
-- 503.slots: each step of each thread keeps the invariant.
use rtbench.Common.{
  ℕ, suc, ◌<◌, ◌≡◌, inl, inr, refl, arith, Bool, List, [], ◌∷◌, ltb, Bool-cases, ltb→lt, ◌==◌,
}
use rtbench.Slots.{
  all_received, Message, msg1, msg2, out_msg1, out_msg2, Rings, AppPc, head, try1, try2, try3, try4,
  barrier, add1, send1, add2, send2, app_done, IoPc, inc1, put1, inc2, put2, spin, test, returned,
  Slots, Thread, app_thread, io_thread1, io_thread2, n_rounds, app_func, io_func, put_io0, put_io1,
  after_try1, after_try2, after_try3, after_try4, after_spin, step, run,
}
use rtbench.Slots.Fifo.{
  IsFifo, send-Holds, Received, missed, got, receive-Received, TriedOnce, tried_once,
  try_once-TriedOnce,
}
use rtbench.Slots.Invariant.{Inv, inv, Valid}

module _ {R : Type 0} (o : Rings R) (contents : R → List Message) (capacity : ℕ)
    (fifo : IsFifo o contents capacity) (room : 1 < capacity) where
  try1-Inv :
      (s : Slots R) {x : Bool × R}
      → (v : Inv contents try1 s.io0.pc s.io1.pc s)
      → TriedOnce o contents capacity fifo msg1 s.app.received1 v.n1 x
      → Inv contents try2 s.io0.pc s.io1.pc (after_try1 o s x)
  try1-Inv s v (tried_once n' h e) =
      let (h1, h2, h3, h4) = v.held in
      inv contents n' v.n2 v.n3 v.n4 (h, h2, h3, h4) (ground (arith, v.numbers))
        (ground (arith, v.reads))

  try2-Inv :
      (s : Slots R) {x : Bool × R}
      → (v : Inv contents try2 s.io0.pc s.io1.pc s)
      → TriedOnce o contents capacity fifo msg2 s.app.received2 v.n2 x
      → Inv contents try3 s.io0.pc s.io1.pc (after_try2 o s x)
  try2-Inv s v (tried_once n' h e) =
      let (h1, h2, h3, h4) = v.held in
      inv contents v.n1 n' v.n3 v.n4 (h1, h, h3, h4) (ground (arith, v.numbers))
        (ground (arith, v.reads))

  try3-Inv :
      (s : Slots R) {x : Bool × R}
      → (v : Inv contents try3 s.io0.pc s.io1.pc s)
      → TriedOnce o contents capacity fifo msg1 s.app.received3 v.n1 x
      → Inv contents try4 s.io0.pc s.io1.pc (after_try3 o s x)
  try3-Inv s v (tried_once n' h e) =
      let (h1, h2, h3, h4) = v.held in
      inv contents n' v.n2 v.n3 v.n4 (h, h2, h3, h4) (ground (arith, v.numbers))
        (ground (arith, v.reads))

  try4-Inv :
      (s : Slots R) {x : Bool × R}
      → (v : Inv contents try4 s.io0.pc s.io1.pc s)
      → TriedOnce o contents capacity fifo msg2 s.app.received4 v.n2 x
      → Inv contents barrier s.io0.pc s.io1.pc (after_try4 o s x)
  try4-Inv s v (tried_once n' h e) =
      let (h1, h2, h3, h4) = v.held in
      inv contents v.n1 n' v.n3 v.n4 (h1, h, h3, h4) (ground (arith, v.numbers))
        (ground (arith, v.reads))

  -- The step of the application from its place `pc`.
  abbrev Moved : AppPc → Slots R → Type 0
  Moved pc s = Valid contents (app_func o pc s)

  head-Inv : (s : Slots R) → Inv contents head s.io0.pc s.io1.pc s → Moved head s
  head-Inv s v = elim (Bool-cases (ltb s.app.i n_rounds)) [
    | inl e ↦ rw e (
        inv contents v.n1 v.n2 v.n3 v.n4 v.held (ground (arith, v.numbers, ltb→lt s.app.i 40 e))
          (ground (arith, v.reads)))
    | inr e ↦ rw e (
        inv contents v.n1 v.n2 v.n3 v.n4 v.held (ground (arith, v.numbers))
          (ground (arith, v.reads)))
  ]

  barrier-Inv : (s : Slots R) → Inv contents barrier s.io0.pc s.io1.pc s → Moved barrier s
  barrier-Inv s v = elim (Bool-cases (all_received s.app)) [
    | inl e ↦ rw e (
        inv contents v.n1 v.n2 v.n3 v.n4 v.held (ground (arith, v.numbers))
          (ground (arith, v.reads)))
    | inr e ↦ rw e (
        inv contents v.n1 v.n2 v.n3 v.n4 v.held (ground (arith, v.numbers))
          (ground (arith, v.reads)))
  ]

  app_func-Inv : (pc : AppPc) (s : Slots R) → Inv contents pc s.io0.pc s.io1.pc s → Moved pc s
  app_func-Inv head s v = head-Inv s v
  app_func-Inv try1 s v =
      try1-Inv s v
        (try_once-TriedOnce o contents capacity fifo msg1 s.app.received1 s.app1 v.n1 v.held.0)
  app_func-Inv try2 s v =
      try2-Inv s v
        (try_once-TriedOnce o contents capacity fifo msg2 s.app.received2 s.app2 v.n2 v.held.1)
  app_func-Inv try3 s v =
      try3-Inv s v
        (try_once-TriedOnce o contents capacity fifo msg1 s.app.received3 s.app1 v.n1 v.held.0)
  app_func-Inv try4 s v =
      try4-Inv s v
        (try_once-TriedOnce o contents capacity fifo msg2 s.app.received4 s.app2 v.n2 v.held.1)
  app_func-Inv barrier s v = barrier-Inv s v
  app_func-Inv add1 s v =
      inv contents v.n1 v.n2 v.n3 v.n4 v.held (ground (arith, v.numbers))
        (ground (arith, v.numbers, v.reads))
  app_func-Inv send1 s v =
      let (h1, h2, h3, h4) = v.held in
      let sent =
        send-Holds o contents capacity fifo s.out1 out_msg1 v.n3 h3 (ground (arith, v.numbers)) in
      inv contents v.n1 v.n2 (suc v.n3) v.n4 (h1, h2, sent, h4) (ground (arith, v.numbers))
        (ground (arith, v.numbers, v.reads))
  app_func-Inv add2 s v =
      inv contents v.n1 v.n2 v.n3 v.n4 v.held (ground (arith, v.numbers))
        (ground (arith, v.numbers, v.reads))
  app_func-Inv send2 s v =
      let (h1, h2, h3, h4) = v.held in
      let sent =
        send-Holds o contents capacity fifo s.out2 out_msg2 v.n4 h4 (ground (arith, v.numbers)) in
      inv contents v.n1 v.n2 v.n3 (suc v.n4) (h1, h2, h3, sent) (ground (arith, v.numbers))
        (ground (arith, v.numbers, v.reads))
  app_func-Inv app_done s v = inv contents v.n1 v.n2 v.n3 v.n4 v.held v.numbers v.reads

module _ {R : Type 0} (o : Rings R) (contents : R → List Message) (capacity : ℕ)
    (fifo : IsFifo o contents capacity) (room : 1 < capacity) where
  -- The step of the first thread of input and output from its place `p0`.
  abbrev Moved0 : IoPc → Slots R → Type 0
  Moved0 p0 s = let t = put_io0 o (io_func o p0 s s.io0 s.out1) in Valid contents t

  io0-spin :
      (s : Slots R) {n : ℕ} {x : Bool × Message × R}
      → (v : Inv contents s.app.pc spin s.io1.pc s) → v.n3 ≡ n
      → Received o contents capacity fifo s.received out_msg1 s.out1 n x
      → let t = put_io0 o (after_spin o s s.io0 x) in Valid contents t
  io0-spin s v e missed = inv contents v.n1 v.n2 v.n3 v.n4 v.held v.numbers v.reads
  io0-spin s v e (got {n} h) =
      let (h1, h2, h3, h4) = v.held in
      inv contents v.n1 v.n2 n v.n4 (h1, h2, h, h4) (ground (arith, v.numbers))
        (ground (arith, v.numbers, v.reads))

  io0-Inv : (p0 : IoPc) (s : Slots R) → Inv contents s.app.pc p0 s.io1.pc s → Moved0 p0 s
  io0-Inv inc1 s v =
      inv contents v.n1 v.n2 v.n3 v.n4 v.held (ground (arith, v.numbers))
        (ground (arith, v.numbers, v.reads))
  io0-Inv put1 s v =
      let (h1, h2, h3, h4) = v.held in
      let sent =
        send-Holds o contents capacity fifo s.app1 msg1 v.n1 h1 (ground (arith, v.numbers)) in
      inv contents (suc v.n1) v.n2 v.n3 v.n4 (sent, h2, h3, h4) (ground (arith, v.numbers))
        (ground (arith, v.numbers, v.reads))
  io0-Inv inc2 s v =
      inv contents v.n1 v.n2 v.n3 v.n4 v.held (ground (arith, v.numbers))
        (ground (arith, v.numbers, v.reads))
  io0-Inv put2 s v =
      let (h1, h2, h3, h4) = v.held in
      let sent =
        send-Holds o contents capacity fifo s.app2 msg2 v.n2 h2 (ground (arith, v.numbers)) in
      inv contents v.n1 (suc v.n2) v.n3 v.n4 (h1, sent, h3, h4) (ground (arith, v.numbers))
        (ground (arith, v.numbers, v.reads))
  io0-Inv spin s v =
      io0-spin s v refl
        (receive-Received o contents capacity fifo s.received out_msg1 s.out1 v.n3 (v.held.2))
  io0-Inv test s v = elim (Bool-cases (s.payload s.received == n_rounds)) [
    | inl e ↦ rw e (
        inv contents v.n1 v.n2 v.n3 v.n4 v.held (ground (arith, v.numbers))
          (ground (arith, v.numbers, v.reads)))
    | inr e ↦ rw e (
        inv contents v.n1 v.n2 v.n3 v.n4 v.held (ground (arith, v.numbers))
          (ground (arith, v.numbers, v.reads)))
  ]
  io0-Inv returned s v = inv contents v.n1 v.n2 v.n3 v.n4 v.held v.numbers v.reads

  -- The step of the second thread of input and output from its place `p1`.
  abbrev Moved1 : IoPc → Slots R → Type 0
  Moved1 p1 s = let t = put_io1 o (io_func o p1 s s.io1 s.out2) in Valid contents t

  io1-spin :
      (s : Slots R) {n : ℕ} {x : Bool × Message × R}
      → (v : Inv contents s.app.pc s.io0.pc spin s) → v.n4 ≡ n
      → Received o contents capacity fifo s.received out_msg2 s.out2 n x
      → let t = put_io1 o (after_spin o s s.io1 x) in Valid contents t
  io1-spin s v e missed = inv contents v.n1 v.n2 v.n3 v.n4 v.held v.numbers v.reads
  io1-spin s v e (got {n} h) =
      let (h1, h2, h3, h4) = v.held in
      inv contents v.n1 v.n2 v.n3 n (h1, h2, h3, h) (ground (arith, v.numbers))
        (ground (arith, v.numbers, v.reads))

  io1-Inv : (p1 : IoPc) (s : Slots R) → Inv contents s.app.pc s.io0.pc p1 s → Moved1 p1 s
  io1-Inv inc1 s v =
      inv contents v.n1 v.n2 v.n3 v.n4 v.held (ground (arith, v.numbers))
        (ground (arith, v.numbers, v.reads))
  io1-Inv put1 s v =
      let (h1, h2, h3, h4) = v.held in
      let sent =
        send-Holds o contents capacity fifo s.app1 msg1 v.n1 h1 (ground (arith, v.numbers)) in
      inv contents (suc v.n1) v.n2 v.n3 v.n4 (sent, h2, h3, h4) (ground (arith, v.numbers))
        (ground (arith, v.numbers, v.reads))
  io1-Inv inc2 s v =
      inv contents v.n1 v.n2 v.n3 v.n4 v.held (ground (arith, v.numbers))
        (ground (arith, v.numbers, v.reads))
  io1-Inv put2 s v =
      let (h1, h2, h3, h4) = v.held in
      let sent =
        send-Holds o contents capacity fifo s.app2 msg2 v.n2 h2 (ground (arith, v.numbers)) in
      inv contents v.n1 (suc v.n2) v.n3 v.n4 (h1, sent, h3, h4) (ground (arith, v.numbers))
        (ground (arith, v.numbers, v.reads))
  io1-Inv spin s v =
      io1-spin s v refl
        (receive-Received o contents capacity fifo s.received out_msg2 s.out2 v.n4 (v.held.3))
  io1-Inv test s v = elim (Bool-cases (s.payload s.received == n_rounds)) [
    | inl e ↦ rw e (
        inv contents v.n1 v.n2 v.n3 v.n4 v.held (ground (arith, v.numbers))
          (ground (arith, v.numbers, v.reads)))
    | inr e ↦ rw e (
        inv contents v.n1 v.n2 v.n3 v.n4 v.held (ground (arith, v.numbers))
          (ground (arith, v.numbers, v.reads)))
  ]
  io1-Inv returned s v = inv contents v.n1 v.n2 v.n3 v.n4 v.held v.numbers v.reads

module _ {R : Type 0} (o : Rings R) (contents : R → List Message) (capacity : ℕ)
    (fifo : IsFifo o contents capacity) (room : 1 < capacity) where
  step-Valid : (s : Slots R) (t : Thread) → Valid contents s → Valid contents (step o s t)
  unfolding step
  step-Valid s app_thread v = app_func-Inv o contents capacity fifo room s.app.pc s v
  step-Valid s io_thread1 v = io0-Inv o contents capacity fifo room s.io0.pc s v
  step-Valid s io_thread2 v = io1-Inv o contents capacity fifo room s.io1.pc s v

  pub run-Valid : (s : Slots R) (ts : List Thread) → Valid contents s → Valid contents (run o s ts)
  unfolding run
  run-Valid s [] v = v
  run-Valid s (t ∷ rest) v = run-Valid (step o s t) rest (step-Valid s t v)
