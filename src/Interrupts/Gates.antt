-- ===== src/Interrupts/Gates.antt =====
-- gdt.c: what the processor reads from the tables.
use rtbench.Common.{
  ℕ, zero, suc, ◌+◌, ◌*◌, ◌/◌, ◌%◌, ◌^◌, ◌≤◌, ◌<◌, ◌≡◌, refl, sym, subst, ap, ◌∙◌, arith, bit_or,
  bit_and, bit_and_mask, bit_or-eq_add, bit_or_comm, every_below, every_below_lem, ◌==◌, ==→eq,
  eq→==, ne→==, false,
}
use rtbench.Interrupts.{
  GdtEntry, IdtEntry, Stubs, gdt_set_gate, idt_set_gate, set_stubs, init_idt, zero_idt,
  seg_selector, intr_flags,
}

-- The fields of a descriptor as the processor puts them together.
abbrev pub segment_base : GdtEntry → ℕ
segment_base e = e.base_low + e.base_middle * 2 ^ 16 + e.base_high * 2 ^ 24

abbrev pub segment_limit : GdtEntry → ℕ
segment_limit e = e.limit_low + e.granularity % 16 * 2 ^ 16

abbrev pub gate_offset : IdtEntry → ℕ
gate_offset e = e.base_lo + e.base_hi * 2 ^ 16

high_nibble : (gran : ℕ) → gran < 256 → bit_and gran 0xF0 ≡ gran / 16 * 2 ^ 4
unfolding every_below
high_nibble gran h =
    ==→eq _ _ (every_below_lem (λ g. bit_and g 0xF0 == g / 16 * 2 ^ 4) 256 gran h refl)

-- A gate that `gdt_set_gate` sets has the 32-bit base, the low 20 bits of the limit, the access byte and
-- the high half of the granularity byte that it was given, and no other gate changes.
pub gdt_set_gate_lem :
    (gdt : ℕ → GdtEntry) (num base limit access gran : ℕ)
    → base < 2 ^ 32
    → gran < 256
    → let g = gdt_set_gate gdt num base limit access gran in
      (segment_base (g num) ≡ base)
      × (segment_limit (g num) ≡ limit % 2 ^ 20)
      × ((g num).access ≡ access)
      × ((g num).granularity / 16 ≡ gran / 16)
      × ((i : ℕ) → (i == num) ≡ false → g i ≡ gdt i)
unfolding gdt_set_gate
gdt_set_gate_lem gdt num base limit access gran hb hg =
    let low : bit_and (limit / 2 ^ 16) 0x0F ≡ limit / 2 ^ 16 % 16 =
      bit_and_mask 4 (limit / 2 ^ 16) in
    let both : bit_or (limit / 2 ^ 16 % 16) (gran / 16 * 2 ^ 4)
        ≡ gran / 16 * 2 ^ 4 + limit / 2 ^ 16 % 16 =
      bit_or_comm (limit / 2 ^ 16 % 16) (gran / 16 * 2 ^ 4)
      ∙ bit_or-eq_add 4 (gran / 16) (limit / 2 ^ 16 % 16) (omega arith) in
    let b0 : bit_and base 0xFFFF ≡ base % 2 ^ 16 = bit_and_mask 16 base in
    let b1 : bit_and (base / 2 ^ 16) 0xFF ≡ base / 2 ^ 16 % 256 = bit_and_mask 8 (base / 2 ^ 16) in
    let b2 : bit_and (base / 2 ^ 24) 0xFF ≡ base / 2 ^ 24 % 256 = bit_and_mask 8 (base / 2 ^ 24) in
    let l0 : bit_and limit 0xFFFF ≡ limit % 2 ^ 16 = bit_and_mask 16 limit in
    rw (eq→== num num refl, low, high_nibble gran hg, both, b0, b1, b2, l0)
      (omega arith, omega arith, refl, omega arith, λ i ne. rw ne refl)

-- What `idt_set_gate` puts into a gate.
pub record IsGate (e : IdtEntry) (address : ℕ) : Type 0 where
  pub offset : gate_offset e ≡ address
  pub selector : e.sel ≡ 8
  pub flags : e.flags ≡ 0x8E
  pub zero_byte : e.always0 ≡ 0

idt_set_gate-IsGate :
    (idt : ℕ → IdtEntry) (num base : ℕ)
    → base < 2 ^ 32
    → IsGate (idt_set_gate idt num base seg_selector intr_flags num) base
unfolding idt_set_gate
idt_set_gate-IsGate idt num base h =
    let lo : bit_and base 0xFFFF ≡ base % 2 ^ 16 = bit_and_mask 16 base in
    let hi : bit_and (base / 2 ^ 16) 0xFFFF ≡ base / 2 ^ 16 % 2 ^ 16 =
      bit_and_mask 16 (base / 2 ^ 16) in
    rw (eq→== num num refl, lo, hi)
      (record { offset = omega arith; selector = refl; flags = refl; zero_byte = refl })

idt_set_gate_ne :
    (idt : ℕ → IdtEntry) (num base i : ℕ)
    → (i == num) ≡ false
    → idt_set_gate idt num base seg_selector intr_flags i ≡ idt i
unfolding idt_set_gate
idt_set_gate_ne idt num base i ne = rw ne refl

IsGate-move : {e e' : IdtEntry} {a a' : ℕ} → e ≡ e' → a ≡ a' → IsGate e a → IsGate e' a'
IsGate-move {e' = e'} {a = a} p q g = subst (λ t. IsGate e' t) q (subst (λ t. IsGate t a) p g)

module _ (stub : ℕ → ℕ) where
  set_stubs_below :
      (idt : ℕ → IdtEntry) (num k n i : ℕ) → i < num → set_stubs idt stub num k n i ≡ idt i
  unfolding set_stubs
  set_stubs_below idt num k zero i lt = refl
  set_stubs_below idt num k (suc n) i lt =
      set_stubs_below (idt_set_gate idt num (stub k) seg_selector intr_flags) (num + 1) (k + 1) n i
        (omega arith)
      ∙ idt_set_gate_ne idt num (stub k) i (ne→== i num (omega arith))

  set_stubs_above :
      (idt : ℕ → IdtEntry) (num k n i : ℕ) → num + n ≤ i → set_stubs idt stub num k n i ≡ idt i
  unfolding set_stubs
  set_stubs_above idt num k zero i le = refl
  set_stubs_above idt num k (suc n) i le =
      set_stubs_above (idt_set_gate idt num (stub k) seg_selector intr_flags) (num + 1) (k + 1) n i
        (omega arith)
      ∙ idt_set_gate_ne idt num (stub k) i (ne→== i num (omega arith))

  set_stubs-IsGate :
      ((j : ℕ) → stub j < 2 ^ 32)
      → (idt : ℕ → IdtEntry) (num k n i : ℕ) → i < n
      → IsGate (set_stubs idt stub num k n (num + i)) (stub (k + i))
  unfolding set_stubs
  set_stubs-IsGate small idt num k zero i lt = absurd (omega arith)
  set_stubs-IsGate small idt num k (suc n) zero lt =
      let g : ℕ → IdtEntry = idt_set_gate idt num (stub k) seg_selector intr_flags in
      IsGate-move
        (ap g (omega arith) ∙ sym (set_stubs_below g (num + 1) (k + 1) n (num + 0) (omega arith)))
        (ap stub (omega arith)) (idt_set_gate-IsGate idt num (stub k) (small k))
  set_stubs-IsGate small idt num k (suc n) (suc i) lt =
      let g : ℕ → IdtEntry = idt_set_gate idt num (stub k) seg_selector intr_flags in
      IsGate-move (ap (set_stubs g stub (num + 1) (k + 1) n) (omega arith)) (ap stub (omega arith))
        (set_stubs-IsGate small g (num + 1) (k + 1) n i (omega arith))

module _ (stubs : Stubs) where
  abbrev tables0 : ℕ → IdtEntry
  tables0 = set_stubs zero_idt stubs.isr 0 0 32

  abbrev tables1 : ℕ → IdtEntry
  tables1 = set_stubs tables0 stubs.irq 32 0 16

  -- With stubs at 32-bit addresses, `init_idt` leaves in the gates 0 to 31 and 48 to 50 the stubs isr of
  -- that number, in the gates 32 to 47 irq0 to irq15, each present, for ring 0, a 32-bit interrupt
  -- gate in the kernel's code segment, and the other gates as `memset` left them.
  pub init_idt-IsGate :
      ((j : ℕ) → stubs.isr j < 2 ^ 32)
      → ((j : ℕ) → stubs.irq j < 2 ^ 32)
      → (i : ℕ)
      → (i < 32 → IsGate (init_idt stubs i) (stubs.isr i))
        × (i < 16 → IsGate (init_idt stubs (32 + i)) (stubs.irq i))
        × (i < 3 → IsGate (init_idt stubs (48 + i)) (stubs.isr (48 + i)))
        × (51 ≤ i → init_idt stubs i ≡ zero_idt i)
  unfolding init_idt
  init_idt-IsGate isr irq i = (
    λ lt.
        IsGate-move
          (ap tables0 (omega arith)
            ∙ sym (
                set_stubs_below stubs.isr tables1 48 48 3 i (omega arith)
                ∙ set_stubs_below stubs.irq tables0 32 0 16 i (omega arith)))
          (ap stubs.isr (omega arith)) (set_stubs-IsGate stubs.isr isr zero_idt 0 0 32 i lt),
    λ lt.
        IsGate-move (sym (set_stubs_below stubs.isr tables1 48 48 3 (32 + i) (omega arith)))
          (ap stubs.irq (omega arith)) (set_stubs-IsGate stubs.irq irq tables0 32 0 16 i lt),
    λ lt. set_stubs-IsGate stubs.isr isr tables1 48 48 3 i lt,
    λ le.
        set_stubs_above stubs.isr tables1 48 48 3 i (omega arith)
        ∙ set_stubs_above stubs.irq tables0 32 0 16 i (omega arith)
        ∙ set_stubs_above stubs.isr zero_idt 0 0 32 i (omega arith),
  )
