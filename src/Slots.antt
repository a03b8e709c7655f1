-- ===== src/Slots.antt =====
-- bench/503.slots/src/main.c: one thread of the application and two of input and output, which pass
-- messages over rings. Each access to a ring or to a message is a step, and the threads take their
-- steps in any order. The rings are those of bench/common/rte_ring.h, taken as a parameter.
pub mod Fifo
pub mod Invariant
pub mod Moves
pub mod Safety
pub mod Table
mod Tests
use rtbench.Common.{
  ℕ, zero, suc, ◌+◌, ◌%◌, ◌^◌, ◌==◌, ltb, ◌&&◌, if◌then◌else◌, Bool, true, false, List, [], ◌∷◌,
  Option, none, some,
}

-- The rounds of the application.
abbrev pub n_rounds : ℕ
n_rounds = 40

-- The messages are static objects: the two that both threads of `io_func` send, and the two that
-- `app_func` sends.
pub data Message : Type 0 where
  msg1 msg2 out_msg1 out_msg2 : Message

-- What the program uses of a ring; `none` is the code's non-zero result.
pub record Rings (R : Type 0) : Type 0 where
  pub mp_enqueue : R → Message → Option R
  pub mc_dequeue : R → Option (Message × R)

-- Where `app_func` stands: at the head of its loop, at the four tries, at the test of the barrier, at
-- the two increments and the two sends, behind the loop.
pub data AppPc : Type 0 where
  head try1 try2 try3 try4 barrier add1 send1 add2 send2 app_done : AppPc

pub record App : Type 0 where
  pub pc : AppPc
  pub i : ℕ
  pub received1 : Bool
  pub received2 : Bool
  pub received3 : Bool
  pub received4 : Bool

-- Where `io_func` stands: at the increments and the sends, at the wait for a message, at the test of
-- its payload, behind its return.
pub data IoPc : Type 0 where
  inc1 put1 inc2 put2 spin test returned : IoPc

-- A thread of `io_func`, with the number of rounds behind it, which the program does not keep.
pub record Io : Type 0 where
  pub pc : IoPc
  pub rounds : ℕ

-- The rings, the `payload1` of the messages, the static pointer `out_msg1` of `io_func`, which its
-- two threads share, and the threads.
pub record Slots (R : Type 0) : Type 0 where
  pub app1 : R
  pub app2 : R
  pub out1 : R
  pub out2 : R
  pub payload : Message → ℕ
  pub received : Message
  pub app : App
  pub io0 : Io
  pub io1 : Io

abbrev pub same_message : Message → Message → Bool
same_message msg1 msg1 = true
same_message msg2 msg2 = true
same_message out_msg1 out_msg1 = true
same_message out_msg2 out_msg2 = true
same_message m n = false

-- `m.payload1++`.
abbrev pub increment : Message → (Message → ℕ) → Message → ℕ
increment m payload n = if same_message n m then (payload m + 1) % 2 ^ 32 else payload n

abbrev pub or_kept : {R : Type 0} → R → Option R → R
or_kept r none = r
or_kept r (some r') = r'

-- A send, whose result no caller looks at.
abbrev pub send : {R : Type 0} → Rings R → R → Message → R
send o r m = or_kept r (o.mp_enqueue r m)

-- A try to receive: whether it did, the message and the ring.
abbrev pub tried : {R : Type 0} → Message → R → Option (Message × R) → Bool × Message × R
tried old r none = (false, old, r)
tried old r (some (m, r')) = (true, m, r')

abbrev pub receive : {R : Type 0} → Rings R → Message → R → Bool × Message × R
receive o old r = tried old r (o.mc_dequeue r)

abbrev pub begin_round : App → App
begin_round a = record {
  pc = try1;
  i = a.i;
  received1 = false;
  received2 = false;
  received3 = false;
  received4 = false;
}

abbrev pub all_received : App → Bool
all_received a = a.received1 && a.received2 && a.received3 && a.received4

-- `if (!received) if (!rte_ring_mc_dequeue (ring, &msg)) received = -1;`
abbrev pub try_once : {R : Type 0} → Rings R → Bool → R → Bool × R
try_once o true r = (true, r)
try_once o false r = let (got, m, r') = receive o msg1 r in (got, r')

module _ {R : Type 0} (o : Rings R) where
  abbrev pub after_try1 : Slots R → Bool × R → Slots R
  after_try1 s (got, r) = record s { app1 = r; app = record s.app { pc = try2; received1 = got } }

  abbrev pub after_try2 : Slots R → Bool × R → Slots R
  after_try2 s (got, r) = record s { app2 = r; app = record s.app { pc = try3; received2 = got } }

  abbrev pub after_try3 : Slots R → Bool × R → Slots R
  after_try3 s (got, r) = record s { app1 = r; app = record s.app { pc = try4; received3 = got } }

  abbrev pub after_try4 : Slots R → Bool × R → Slots R
  after_try4 s (got, r) = record s {
    app2 = r;
    app = record s.app { pc = barrier; received4 = got };
  }

  -- One step of `app_func` with the argument 0.
  abbrev pub app_func : AppPc → Slots R → Slots R
  app_func head s = record s {
    app = if ltb s.app.i n_rounds then begin_round s.app else record s.app { pc = app_done };
  }
  app_func try1 s = after_try1 s (try_once o s.app.received1 s.app1)
  app_func try2 s = after_try2 s (try_once o s.app.received2 s.app2)
  app_func try3 s = after_try3 s (try_once o s.app.received3 s.app1)
  app_func try4 s = after_try4 s (try_once o s.app.received4 s.app2)
  app_func barrier s = record s {
    app = record s.app { pc = if all_received s.app then add1 else try1 };
  }
  app_func add1 s = record s {
    payload = increment out_msg1 s.payload;
    app = record s.app { pc = send1 };
  }
  app_func send1 s = record s { out1 = send o s.out1 out_msg1; app = record s.app { pc = add2 } }
  app_func add2 s = record s {
    payload = increment out_msg2 s.payload;
    app = record s.app { pc = send2 };
  }
  app_func send2 s = record s {
    out2 = send o s.out2 out_msg2;
    app = record s.app { pc = head; i = s.app.i + 1 };
  }
  app_func app_done s = record s { app = record s.app { pc = app_done } }

  -- A thread of `io_func` receives from the ring `own` and changes what the threads share.
  abbrev pub after_spin : Slots R → Io → Bool × Message × R → Io × R × Slots R
  after_spin s io (true, m, r) = (record io { pc = test }, r, record s { received = m })
  after_spin s io (false, m, r) = (record io { pc = spin }, r, s)

  abbrev pub next_round : Io → Io
  next_round io = record { pc = inc1; rounds = io.rounds + 1 }

  -- One step of `io_func`.
  abbrev pub io_func : IoPc → Slots R → Io → R → Io × R × Slots R
  io_func inc1 s io own =
      (record io { pc = put1 }, own, record s { payload = increment msg1 s.payload })
  io_func put1 s io own = (record io { pc = inc2 }, own, record s { app1 = send o s.app1 msg1 })
  io_func inc2 s io own =
      (record io { pc = put2 }, own, record s { payload = increment msg2 s.payload })
  io_func put2 s io own = (record io { pc = spin }, own, record s { app2 = send o s.app2 msg2 })
  io_func spin s io own = after_spin s io (receive o s.received own)
  io_func test s io own = (
    if s.payload s.received == n_rounds then record io { pc = returned } else next_round io,
    own,
    s,
  )
  io_func returned s io own = (record io { pc = returned }, own, s)

  abbrev pub put_io0 : Io × R × Slots R → Slots R
  put_io0 (io, own, s) = record s { io0 = io; out1 = own }

  abbrev pub put_io1 : Io × R × Slots R → Slots R
  put_io1 (io, own, s) = record s { io1 = io; out2 = own }

pub data Thread : Type 0 where
  app_thread io_thread1 io_thread2 : Thread

unfoldable pub step : {R : Type 0} → Rings R → Slots R → Thread → Slots R
step o s app_thread = app_func o s.app.pc s
step o s io_thread1 = put_io0 o (io_func o s.io0.pc s s.io0 s.out1)
step o s io_thread2 = put_io1 o (io_func o s.io1.pc s s.io1 s.out2)

-- A schedule, as the threads in the order of their steps.
unfoldable pub run : {R : Type 0} → Rings R → Slots R → List Thread → Slots R
run o s [] = s
run o s (t ∷ rest) = run o (step o s t) rest

-- The start of `app_func` and of both threads of `io_func`, on four rings.
abbrev pub start : {R : Type 0} → R → R → R → R → Message → Slots R
start app1 app2 out1 out2 received = record {
  app1 = app1;
  app2 = app2;
  out1 = out1;
  out2 = out2;
  payload = λ m. 0;
  received = received;
  app = record {
    pc = head;
    i = 0;
    received1 = false;
    received2 = false;
    received3 = false;
    received4 = false;
  };
  io0 = record { pc = inc1; rounds = 0 };
  io1 = record { pc = inc1; rounds = 0 };
}
