-- ===== src/Interrupts/Tests.antt =====
-- Tables filled, and interrupts taken.
use rtbench.Common.{ℕ, ◌≤◌, ◌<◌, ◌≡◌, refl, arith, [], ◌∷◌}
use rtbench.Interrupts.{
  GdtEntry, Stubs, zero_idt, gdt_set_gate, init_gdt, init_idt, Handlers, out, called, unhandled,
  register_interrupt_handler, isr_handler, acknowledge, irq_handler,
}
use rtbench.Interrupts.Gates.{segment_limit, IsGate, init_idt-IsGate}

abbrev blank : ℕ → GdtEntry
blank i = record {
  limit_low = 0;
  base_low = 0;
  base_middle = 0;
  access = 0;
  granularity = 0;
  base_high = 0;
}

abbrev stubs : Stubs
stubs = record { isr = λ k. 0x100000; irq = λ k. 0x200000 }

abbrev no_handlers : Handlers
no_handlers n = 0

gdt_runs :
    (segment_limit (init_gdt blank 1) ≡ 0xFFFFF)
    × ((init_gdt blank 1).access ≡ 0x9A)
    × ((init_gdt blank 4).access ≡ 0xF2)
    × ((init_gdt blank 3).granularity ≡ 0xCF)
unfolding init_gdt gdt_set_gate
gdt_runs = (refl, refl, refl, refl)

irq_runs :
    (irq_handler (register_interrupt_handler no_handlers 41 7) 0 41
      ≡ out 0xA0 0x20 ∷ out 0x20 0x20 ∷ called 7 41 ∷ [])
    × (irq_handler no_handlers 0 39 ≡ out 0x20 0x0B ∷ [])
    × (irq_handler no_handlers 0x80 39 ≡ out 0x20 0x0B ∷ out 0x20 0x20 ∷ unhandled 39 ∷ [])
unfolding irq_handler acknowledge isr_handler register_interrupt_handler
irq_runs = (refl, refl, refl)

init_idt-IsGate_example :
    (2 < 32 → IsGate (init_idt stubs 2) 0x100000)
    × (2 < 16 → IsGate (init_idt stubs 34) 0x200000)
    × (2 < 3 → IsGate (init_idt stubs 50) 0x100000)
    × (51 ≤ 2 → init_idt stubs 2 ≡ zero_idt 2)
init_idt-IsGate_example = init_idt-IsGate stubs (λ j. omega arith) (λ j. omega arith) 2
