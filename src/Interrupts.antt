-- ===== src/Interrupts.antt =====
-- tools/src/baremetal/smallos/src_c/gdt.c, src_c/isr.c and include/segments.h: the descriptor tables
-- and what an interrupt does. The stubs isr0, irq0 and so on are assembler: their addresses are an
-- argument.
pub mod Gates
pub mod Dispatch
mod Tests
use rtbench.Common.{
  ℕ, zero, suc, ◌+◌, ◌-◌, ◌*◌, ◌/◌, ◌%◌, ◌^◌, bit_or, bit_and, leb, ◌==◌, if◌then◌else◌, List, [],
  ◌∷◌, ◌++◌,
}

pub record GdtEntry : Type 0 where
  pub limit_low : ℕ
  pub base_low : ℕ
  pub base_middle : ℕ
  pub access : ℕ
  pub granularity : ℕ
  pub base_high : ℕ

pub record IdtEntry : Type 0 where
  pub base_lo : ℕ
  pub sel : ℕ
  pub always0 : ℕ
  pub flags : ℕ
  pub base_hi : ℕ

pub record Stubs : Type 0 where
  pub isr : ℕ → ℕ
  pub irq : ℕ → ℕ

abbrev pub update {ℓ} : {A : Type ℓ} → (ℕ → A) → ℕ → A → ℕ → A
update f num v i = if i == num then v else f i

unfoldable pub gdt_set_gate : (ℕ → GdtEntry) → ℕ → ℕ → ℕ → ℕ → ℕ → ℕ → GdtEntry
gdt_set_gate gdt num base limit access gran = update gdt num (record {
  base_low = bit_and base 0xFFFF;
  base_middle = bit_and (base / 2 ^ 16) 0xFF;
  base_high = bit_and (base / 2 ^ 24) 0xFF;
  limit_low = bit_and limit 0xFFFF;
  granularity = bit_or (bit_and (limit / 2 ^ 16) 0x0F) (bit_and gran 0xF0);
  access = access;
})

unfoldable pub idt_set_gate : (ℕ → IdtEntry) → ℕ → ℕ → ℕ → ℕ → ℕ → IdtEntry
idt_set_gate idt num base sel flags = update idt num (record {
  base_lo = bit_and base 0xFFFF;
  base_hi = bit_and (base / 2 ^ 16) 0xFFFF;
  sel = sel;
  always0 = 0;
  flags = flags;
})

-- The access byte of a code and of a data segment, for a privilege level, and the granularity.
abbrev pub code_access : ℕ → ℕ
code_access level = bit_or (bit_or (bit_or 0x80 level) 0x10) 0x0A

abbrev pub data_access : ℕ → ℕ
data_access level = bit_or (bit_or (bit_or 0x80 level) 0x10) 0x02

abbrev pub flat_gran : ℕ
flat_gran = bit_or (bit_or (bit_or 0x80 0x40) 0x00) 0x00

-- The five gates of `init_gdt`.
unfoldable pub init_gdt : (ℕ → GdtEntry) → ℕ → GdtEntry
init_gdt gdt =
    let g0 = gdt_set_gate gdt 0 0 0 0 0 in
    let g1 = gdt_set_gate g0 1 0 0xFFFFFFFF (code_access 0x00) flat_gran in
    let g2 = gdt_set_gate g1 2 0 0xFFFFFFFF (data_access 0x00) flat_gran in
    let g3 = gdt_set_gate g2 3 0 0xFFFFFFFF (code_access 0x60) flat_gran in
    gdt_set_gate g3 4 0 0xFFFFFFFF (data_access 0x60) flat_gran

abbrev pub seg_selector : ℕ
seg_selector = 1 * 8

abbrev pub intr_flags : ℕ
intr_flags = bit_or (bit_or (bit_or 0x80 0x00) 0x08) 0x06

-- The calls of `idt_set_gate` for `n` numbers from `num`, with the stubs from number `k`.
unfoldable pub set_stubs : (ℕ → IdtEntry) → (ℕ → ℕ) → ℕ → ℕ → ℕ → ℕ → IdtEntry
set_stubs idt stub num k zero = idt
set_stubs idt stub num k (suc n) =
    set_stubs (idt_set_gate idt num (stub k) seg_selector intr_flags) stub (num + 1) (k + 1) n

-- The table after `memset`.
abbrev pub zero_idt : ℕ → IdtEntry
zero_idt i = record { base_lo = 0; sel = 0; always0 = 0; flags = 0; base_hi = 0 }

-- The gates of `init_idt`: isr0 to isr31, irq0 to irq15, and isr48 to isr50.
unfoldable pub init_idt : Stubs → ℕ → IdtEntry
init_idt stubs =
    let exceptions = set_stubs zero_idt stubs.isr 0 0 32 in
    let irqs = set_stubs exceptions stubs.irq 32 0 16 in set_stubs irqs stubs.isr 48 48 3

-- The writes with which `init_idt` moves the interrupts of the two PICs to 32 and 40.
unfoldable pub remap_outs : List (ℕ × ℕ)
remap_outs =
    (0x20, 0x11)
    ∷ (0xA0, 0x11)
    ∷ (0x21, 0x20)
    ∷ (0xA1, 0x28)
    ∷ (0x21, 0x04)
    ∷ (0xA1, 0x02)
    ∷ (0x21, 0x01)
    ∷ (0xA1, 0x01)
    ∷ (0x21, 0x0)
    ∷ (0xA1, 0x0)
    ∷ []

-- The tables, the bytes that went to ports, and the limit and base that `gdt_flush` and `idt_flush` have
-- loaded.
pub record Descriptors : Type 0 where
  pub gdt : ℕ → GdtEntry
  pub idt : ℕ → IdtEntry
  pub outs : List (ℕ × ℕ)
  pub gdtr : ℕ × ℕ
  pub idtr : ℕ × ℕ

abbrev pub num_of_gdt_entries : ℕ
num_of_gdt_entries = 5

abbrev pub num_of_idt_entries : ℕ
num_of_idt_entries = 256

-- `init_descriptor_tables`, with the places of the two tables.
unfoldable pub init_descriptor_tables : Stubs → ℕ → ℕ → Descriptors → Descriptors
init_descriptor_tables stubs gdt_entries idt_entries d = record {
  gdt = init_gdt d.gdt;
  idt = init_idt stubs;
  outs = d.outs ++ remap_outs;
  gdtr = (8 * num_of_gdt_entries - 1, gdt_entries);
  idtr = (8 * num_of_idt_entries - 1, idt_entries);
}

-- What a handler does to the outside: a port write, the call of a registered function, or the message
-- for a number without one.
pub data Effect : Type 0 where
  out : ℕ → ℕ → Effect
  called : ℕ → ℕ → Effect
  unhandled : ℕ → Effect

-- `interrupt_handlers`, by address; 0 is none.
abbrev pub Handlers : Type 0
Handlers = ℕ → ℕ

unfoldable pub register_interrupt_handler : Handlers → ℕ → ℕ → Handlers
register_interrupt_handler handlers n handler = update handlers n handler

unfoldable pub isr_handler : Handlers → ℕ → List Effect
isr_handler handlers int_no =
    if handlers int_no == 0 then unhandled int_no ∷ [] else called (handlers int_no) int_no ∷ []

-- From the EOI on.
unfoldable pub acknowledge : Handlers → ℕ → List Effect
acknowledge handlers int_no =
    (if leb 40 int_no then out 0xA0 0x20 ∷ [] else [])
    ++ (out 0x20 0x20 ∷ isr_handler handlers int_no)

-- `irq_handler`; `irr` is what the PIC answers when it is asked for its in-service register.
unfoldable pub irq_handler : Handlers → ℕ → ℕ → List Effect
irq_handler handlers irr int_no =
    if int_no == 39
    then out 0x20 0x0B ∷ (if bit_and irr 0x80 == 0 then [] else acknowledge handlers int_no)
    else acknowledge handlers int_no
