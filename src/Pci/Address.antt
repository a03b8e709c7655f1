-- ===== src/Pci/Address.antt =====
-- pci.c: the address that selects a register.
use rtbench.Common.{
  ℕ, ◌+◌, ◌-◌, ◌*◌, ◌/◌, ◌%◌, ◌^◌, ◌<◌, ◌≡◌, ap, ◌∙◌, arith, refl, bit_or, bit_and, bit_or-eq_add,
  bit_or_comm, every_below, every_below_lem, ◌==◌, ==→eq,
}
use rtbench.Pci.{config_address}

low_bits : (reg : ℕ) → reg < 256 → bit_and reg 0xFFFC ≡ reg - reg % 4
unfolding every_below
low_bits reg h = ==→eq _ _ (every_below_lem (λ r. bit_and r 0xFFFC == r - r % 4) 256 reg h refl)

pub config_address_sum :
    (bus device function reg : ℕ)
    → bus < 256
    → device < 32
    → function < 8
    → reg < 256
    → config_address bus device function reg
      ≡ 2 ^ 31 + bus * 2 ^ 16 + device * 2 ^ 11 + function * 2 ^ 8 + reg - reg % 4
unfolding config_address
config_address_sum bus device function reg hb hd hf hr =
    let low : ℕ = reg - reg % 4 in
    let e1 : bit_or (bus * 2 ^ 16) (device * 2 ^ 11) ≡ bus * 2 ^ 16 + device * 2 ^ 11 =
      bit_or-eq_add 16 bus (device * 2 ^ 11) (omega arith) in
    let e2 : bit_or (bus * 2 ^ 16 + device * 2 ^ 11) (function * 2 ^ 8)
        ≡ bus * 2 ^ 16 + device * 2 ^ 11 + function * 2 ^ 8 =
      ap (λ t. bit_or t (function * 2 ^ 8)) (omega arith)
      ∙ bit_or-eq_add 11 (bus * 32 + device) (function * 2 ^ 8) (omega arith)
      ∙ omega arith in
    let e3 : bit_or (bus * 2 ^ 16 + device * 2 ^ 11 + function * 2 ^ 8) low
        ≡ bus * 2 ^ 16 + device * 2 ^ 11 + function * 2 ^ 8 + low =
      ap (λ t. bit_or t low) (omega arith)
      ∙ bit_or-eq_add 8 (bus * 256 + device * 8 + function) low (omega arith)
      ∙ omega arith in
    let x : ℕ = bus * 2 ^ 16 + device * 2 ^ 11 + function * 2 ^ 8 + low in
    let e4 : bit_or x (2 ^ 31) ≡ 2 ^ 31 + x =
      bit_or_comm x (2 ^ 31) ∙ bit_or-eq_add 31 1 x (omega arith) in
    rw (low_bits reg hr, e1, e2, e3) (e4 ∙ omega arith)

-- Of a bus below 256, a device below 32, a function below 8 and a register below 256, the address has
-- the enable bit set, and each of them can be read back from its bits, the register up to the byte
-- in its word.
pub config_address_fields :
    (bus device function reg : ℕ)
    → bus < 256
    → device < 32
    → function < 8
    → reg < 256
    → let a = config_address bus device function reg in
      (a / 2 ^ 24 ≡ 128)
      × (a / 2 ^ 16 % 256 ≡ bus)
      × (a / 2 ^ 11 % 32 ≡ device)
      × (a / 2 ^ 8 % 8 ≡ function)
      × (a % 256 ≡ reg - reg % 4)
config_address_fields bus device function reg hb hd hf hr =
    let e = config_address_sum bus device function reg hb hd hf hr in
    (omega (arith, e), omega (arith, e), omega (arith, e), omega (arith, e), omega (arith, e))
