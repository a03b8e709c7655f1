-- ===== src/Interrupts/Dispatch.antt =====
-- isr.c: which handler runs, and what the PICs are told before it.
use rtbench.Common.{
  ℕ, ◌+◌, ◌≡◌, ◌≢◌, arith, bit_and, leb, ◌==◌, ◌&&◌, if◌then◌else◌, List, [], ◌∷◌, Bool, true,
  false,
}
use rtbench.Interrupts.{
  Handlers, Effect, out, called, unhandled, register_interrupt_handler, isr_handler, acknowledge,
  irq_handler,
}

-- The number of a spurious interrupt: IRQ7 without its bit in the in-service register.
abbrev pub is_spurious : ℕ → ℕ → Bool
is_spurious irr int_no = int_no == 39 && bit_and irr 0x80 == 0

-- How often the effects write `val` to `port`, and how often they call `handler`.
unfoldable pub writes : ℕ → ℕ → List Effect → ℕ
writes port val [] = 0
writes port val (out p v ∷ es) = (if p == port && v == val then 1 else 0) + writes port val es
writes port val (called h n ∷ es) = writes port val es
writes port val (unhandled n ∷ es) = writes port val es

unfoldable pub calls : ℕ → ℕ → List Effect → ℕ
calls handler int_no [] = 0
calls handler int_no (out p v ∷ es) = calls handler int_no es
calls handler int_no (called h n ∷ es) =
    (if h == handler && n == int_no then 1 else 0) + calls handler int_no es
calls handler int_no (unhandled n ∷ es) = calls handler int_no es

-- The last effect is the call of `handler`.
unfoldable pub ends_with_call : ℕ → ℕ → List Effect → Bool
ends_with_call handler int_no [] = false
ends_with_call handler int_no (out p v ∷ es) = ends_with_call handler int_no es
ends_with_call handler int_no (called h n ∷ []) = h == handler && n == int_no
ends_with_call handler int_no (called h n ∷ e ∷ es) = ends_with_call handler int_no (e ∷ es)
ends_with_call handler int_no (unhandled n ∷ es) = ends_with_call handler int_no es

-- An interrupt with a registered handler that is not spurious ends with the one call of that handler,
-- after exactly one EOI to the master PIC, and one to the slave PIC when its number is 40 or more.
-- A spurious one gets no EOI and calls nothing.
pub irq_handler_lem :
    (handlers : Handlers) (irr int_no handler : ℕ)
    → handler ≢ 0
    → let es = irq_handler (register_interrupt_handler handlers int_no handler) irr int_no in
      let real : ℕ = if is_spurious irr int_no then 0 else 1 in
      (calls handler int_no es ≡ real)
      × (writes 0x20 0x20 es ≡ real)
      × (writes 0xA0 0x20 es ≡ (if leb 40 int_no then 1 else 0))
      × (ends_with_call handler int_no es ≡ (if is_spurious irr int_no then false else true))
unfolding irq_handler acknowledge isr_handler register_interrupt_handler writes calls ends_with_call
irq_handler_lem handlers irr int_no handler ne =
    (ground arith, ground arith, ground arith, ground arith)
