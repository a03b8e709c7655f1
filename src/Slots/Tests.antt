-- ===== src/Slots/Tests.antt =====
-- 503.slots on rings that are lists.
use rtbench.Common.{
  ℕ, zero, suc, ◌≡◌, refl, arith, List, [], ◌∷◌, ◌++◌, length, Option, none, some, ltb, lt→ltb,
  if◌then◌else◌,
}
use rtbench.Slots.{
  Message, out_msg1, app_done, returned, Rings, Slots, Thread, app_thread, io_thread1, io_thread2,
  run, step, start,
}
use rtbench.Slots.Fifo.{IsFifo}
use rtbench.Slots.Safety.{InOrder, IsShort, NotStuck, run-InOrder, run-IsShort, run-NotStuck}
use rtbench.Slots.Table.{
  RingPointers, Table, rings_pointers, publish_rings, set_rings_addresses,
  set_rings_addresses-publish_rings,
}

-- What a ring of 32768 slots holds at most.
abbrev capacity : ℕ
capacity = 32767

abbrev dequeue : List Message → Option (Message × List Message)
dequeue [] = none
dequeue (m ∷ ms) = some (m, ms)

abbrev lists : Rings (List Message)
lists = record {
  mp_enqueue = λ r m. if ltb (length r) capacity then some (r ++ m ∷ []) else none;
  mc_dequeue = dequeue;
}

abbrev contents : List Message → List Message
contents r = r

lists-IsFifo : IsFifo lists contents capacity
lists-IsFifo = record {
  added = λ r m lt. (r ++ m ∷ [], rw (lt→ltb (length r) capacity lt) refl, refl);
  none_left = λ r e. rw e refl;
  taken = λ r m ms e. (ms, rw e refl, refl);
}

abbrev fresh : Slots (List Message)
fresh = start [] [] [] [] out_msg1

-- Some turns of the three threads.
abbrev turns : ℕ → List Thread
turns zero = []
turns (suc n) = app_thread ∷ io_thread1 ∷ io_thread2 ∷ turns n

-- After enough turns all threads have ended.
all_end :
    ((run lists fresh (turns 700)).app.pc ≡ app_done)
    × ((run lists fresh (turns 700)).io0.pc ≡ returned)
    × ((run lists fresh (turns 700)).io1.pc ≡ returned)
unfolding run step
all_end = (refl, refl, refl)

run-InOrder_example : InOrder (run lists fresh (turns 30))
run-InOrder_example =
    run-InOrder lists contents capacity lists-IsFifo (omega arith) [] [] [] [] out_msg1
      (refl, refl, refl, refl) (turns 30)

run-IsShort_example : IsShort contents (run lists fresh (turns 30))
run-IsShort_example =
    run-IsShort lists contents capacity lists-IsFifo (omega arith) [] [] [] [] out_msg1
      (refl, refl, refl, refl) (turns 30)

run-NotStuck_example : NotStuck contents (run lists fresh (turns 30))
run-NotStuck_example =
    run-NotStuck lists contents capacity lists-IsFifo (omega arith) [] [] [] [] out_msg1
      (refl, refl, refl, refl) (turns 30)

abbrev created : RingPointers
created = record { app1 = 16; app2 = 32; app3 = 48; app4 = 64; out1 = 80; out2 = 96 }

abbrev writer : Table
writer = record { words = λ a. 7; rings = record created { app1 = 0 }; next = rings_pointers }

abbrev reader : Table
reader = record writer { words = (publish_rings created writer).words }

set_rings_addresses-publish_rings_example :
    ((set_rings_addresses reader).rings ≡ created)
    × ((set_rings_addresses reader).next ≡ (publish_rings created writer).next)
set_rings_addresses-publish_rings_example =
    set_rings_addresses-publish_rings created writer reader refl refl

-- With one pointer for all cores the reads begin behind the table.
shared_pointer : (set_rings_addresses (publish_rings created writer)).rings.app1 ≡ 7
unfolding set_rings_addresses publish_rings
shared_pointer = refl
