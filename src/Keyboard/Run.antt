-- ===== src/Keyboard/Run.antt =====
-- The ring of keyboard.c against the queue, for sequences of interrupts and reads.
use mathlib.Core.Option
use rtbench.Common.{
  ℕ, ◌+◌, ◌<◌, ◌≡◌, refl, sym, ap, ap₂, ◌∙◌, arith, Option, none, some, List, [], ◌∷◌, subst,
  bit_and, true, every_below, every_below_lem, ==→eq, ◌==◌,
}
use rtbench.Keyboard.{
  Keyboard, Event, interrupt, getchar, keyboard_buffer_sz, kbc_isr, kbd_getchar, got, run, kbc_init,
  kbd_switch, take_code,
}
use rtbench.Keyboard.Queue.{Typed, read, got_typed, run_queue, Room}
use rtbench.Keyboard.Refine.{
  IsValid, view, view_result, kbc_isr-arrive, kbd_getchar-read, length-codes,
}

got-view :
    (r : Option (ℕ × Keyboard)) (k : Keyboard)
    → got_typed (Option.map view_result r) (view k) ≡ ((got r k).0, view (got r k).1)
got-view none k = refl
got-view (some (c, k')) k = refl

got-IsValid :
    (r : Option (ℕ × Keyboard)) {k : Keyboard}
    → IsValid k
    → ((c : ℕ) (k' : Keyboard) → r ≡ some (c, k') → IsValid k')
    → IsValid (got r k).1
got-IsValid none v h = v
got-IsValid (some (c, k')) v h = h c k' refl

getchar-step :
    {k : Keyboard}
    → IsValid k
    → got_typed (read (view k)) (view k)
      ≡ ((got (kbd_getchar k) k).0, view (got (kbd_getchar k) k).1)
getchar-step {k} v =
    ap (λ r. got_typed r (view k)) (sym (kbd_getchar-read v).0) ∙ got-view (kbd_getchar k) k

-- Any sequence of interrupts and reads from a valid ring returns what the queue of its pending codes
-- returns, where each code that arrives is a byte and finds fewer than 4096 codes pending.
pub run_refines :
    (es : List Event) {k : Keyboard}
    → IsValid k
    → Room (view k) es
    → run k es ≡ run_queue (view k) es
unfolding run run_queue
run_refines [] v room = refl
run_refines (interrupt c ∷ es) {k} v room =
    let (valid, e) = kbc_isr-arrive c v (omega (arith, room.0, length-codes k)) room.1 in
    run_refines es valid (subst (λ t. Room t es) (sym e) room.2) ∙ ap (λ t. run_queue t es) e
run_refines (getchar ∷ es) {k} v room =
    let p : got_typed (read (view k)) (view k)
        ≡ ((got (kbd_getchar k) k).0, view (got (kbd_getchar k) k).1) =
      getchar-step v in
    let room' : Room (view (got (kbd_getchar k) k).1) es =
      subst (λ (t : Option ℕ × Typed). Room t.1 es) p room in
    ap₂ ◌∷◌ (ap (λ (t : Option ℕ × Typed). t.0) (sym p)) (
      run_refines es (got-IsValid (kbd_getchar k) v (kbd_getchar-read v).1) room'
      ∙ ap (λ (t : Option ℕ × Typed). run_queue t.1 es) (sym p))

-- `kbcInit` makes the ring valid and empty, whatever it held.
pub kbc_init-IsValid : (k : Keyboard) → IsValid (kbc_init k) × ((view (kbc_init k)).codes ≡ [])
unfolding kbc_init
kbc_init-IsValid k = (omega arith, refl)

press_table : every_below (λ c. bit_and c 0x80 == 0) 128 ≡ true
unfolding every_below
press_table = refl

-- `kbcISR` has no test for a full ring: a key that comes while 4096 codes are pending makes the
-- count 4097, and the next read returns that key before all of the older ones.
pub kbc_isr_overrun :
    {k : Keyboard} (c : ℕ)
    → IsValid k
    → k.num_chars_in_buffer ≡ keyboard_buffer_sz
    → 0 < c
    → c < 0x80
    → ((kbc_isr k c).num_chars_in_buffer ≡ keyboard_buffer_sz + 1)
      × (kbd_getchar (kbc_isr k c) ≡ some (kbd_switch (take_code (kbc_isr k c)) c))
unfolding kbc_isr kbd_getchar
kbc_isr_overrun {k} c v full lo hi =
    let stored : bit_and c 0x80 ≡ 0 = ==→eq _ _ (every_below_lem _ 128 c hi press_table) in
    let here : k.key_indx ≡ k.key_buffer_out_indx = omega (arith, v.agree, v.out_range) in
    (ground arith, ground arith)
