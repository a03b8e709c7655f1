-- ===== src/Pci.antt =====
-- tools/src/baremetal/smallos/src_c/pci.c and include/pci.h: the PCI configuration space through
-- mechanism 1, and the search for a device.
pub mod Address
pub mod Search
mod Tests
use rtbench.Common.{
  ℕ, zero, suc, ◌+◌, ◌*◌, ◌%◌, ◌^◌, bit_or, bit_and, Bool, true, false, ◌&&◌, ◌==◌, if◌then◌else◌,
  Option, none, some, List, [], ◌∷◌,
}

-- The hardware: what the data port gives while the address port holds an address, by the port's
-- offset from 0xCFC and the width of the read.
abbrev pub Space : Type 0
Space = ℕ → ℕ → ℕ → ℕ

abbrev pub pci_config_addr : ℕ
pci_config_addr = 0xCF8

abbrev pub pci_config_data : ℕ
pci_config_data = 0xCFC

abbrev pub pci_error_return : ℕ
pci_error_return = 0xFFFFFFFF

abbrev pub pci_max_bus : ℕ
pci_max_bus = 0xFF

abbrev pub pci_max_devices : ℕ
pci_max_devices = 0x1F

abbrev pub pci_max_functions : ℕ
pci_max_functions = 0x07

-- `(bus << 16) | (device << 11) | (function << 8) | (reg & ~0x03) | 0x80000000`.
unfoldable pub config_address : ℕ → ℕ → ℕ → ℕ → ℕ
config_address bus device function reg =
    bit_or
      (bit_or (bit_or (bit_or (bus * 2 ^ 16) (device * 2 ^ 11)) (function * 2 ^ 8))
        (bit_and reg 0xFFFC))
      0x80000000

abbrev pub is_width : ℕ → Bool
is_width bytes = if bytes == 1 then true else if bytes == 2 then true else bytes == 4

-- `pci_read_config_reg`; `none` where the function ends without a result.
unfoldable pub pci_read_config_reg : Space → ℕ → ℕ → ℕ → ℕ → ℕ → Option ℕ
pci_read_config_reg space bus device function reg bytes =
    if bytes == 3
    then some pci_error_return
    else if is_width bytes
    then some (space (config_address bus device function reg) (bit_and reg 0x03) bytes)
    else none

-- `pci_write_config_reg`, as what it writes: the port, the value and its width.
unfoldable pub pci_write_config_reg : ℕ → ℕ → ℕ → ℕ → ℕ → ℕ → List (ℕ × ℕ × ℕ)
pci_write_config_reg bus device function reg val bytes =
    if bytes == 3
    then []
    else (pci_config_addr, config_address bus device function reg, 4)
      ∷ (if is_width bytes
          then (pci_config_data + bit_and reg 0x3, val % 2 ^ (8 * bytes), bytes) ∷ []
          else [])

-- A read of a width that the data port has.
abbrev pub read_reg : Space → ℕ → ℕ → ℕ → ℕ → ℕ → ℕ
read_reg space bus device function reg bytes =
    elim (pci_read_config_reg space bus device function reg bytes) [
      | none ↦ 0
      | some v ↦ v % 2 ^ (8 * bytes)
    ]

-- `pci0_header`; `rsvd` is not set.
pub record Pci0Header : Type 0 where
  pub vendor_id : ℕ
  pub device_id : ℕ
  pub command : ℕ
  pub status : ℕ
  pub rev_id : ℕ
  pub prog_if : ℕ
  pub sub_class : ℕ
  pub class_code : ℕ
  pub cache_line_size : ℕ
  pub latency_timer : ℕ
  pub header_type : ℕ
  pub bist : ℕ
  pub bar0 : ℕ
  pub bar1 : ℕ
  pub bar2 : ℕ
  pub bar3 : ℕ
  pub bar4 : ℕ
  pub bar5 : ℕ
  pub card_bus_cis_ptr : ℕ
  pub sub_system_vendor_id : ℕ
  pub sub_system_id : ℕ
  pub exp_rom_base_addr : ℕ
  pub capabilities_ptr : ℕ
  pub int_line : ℕ
  pub int_pin : ℕ
  pub min_grant : ℕ
  pub max_latency : ℕ

-- The header of the function `f`, read register by register.
unfoldable pub read_header : Space → ℕ → ℕ → ℕ → Pci0Header
read_header space b d f = record {
  vendor_id = read_reg space b d f 0x00 2;
  device_id = read_reg space b d f 0x02 2;
  command = read_reg space b d f 0x04 2;
  status = read_reg space b d f 0x06 2;
  rev_id = read_reg space b d f 0x08 1;
  prog_if = read_reg space b d f 0x09 1;
  sub_class = read_reg space b d f 0x0A 1;
  class_code = read_reg space b d f 0x0B 1;
  cache_line_size = read_reg space b d f 0x0C 1;
  latency_timer = read_reg space b d f 0x0D 1;
  header_type = read_reg space b d f 0x0E 1;
  bist = read_reg space b d f 0x0F 1;
  bar0 = read_reg space b d f 0x10 4;
  bar1 = read_reg space b d f 0x14 4;
  bar2 = read_reg space b d f 0x18 4;
  bar3 = read_reg space b d f 0x1C 4;
  bar4 = read_reg space b d f 0x20 4;
  bar5 = read_reg space b d f 0x24 4;
  card_bus_cis_ptr = read_reg space b d f 0x28 4;
  sub_system_vendor_id = read_reg space b d f 0x2C 2;
  sub_system_id = read_reg space b d f 0x2E 2;
  exp_rom_base_addr = read_reg space b d f 0x30 4;
  capabilities_ptr = read_reg space b d f 0x34 4;
  int_line = read_reg space b d f 0x3C 1;
  int_pin = read_reg space b d f 0x3D 1;
  min_grant = read_reg space b d f 0x3E 1;
  max_latency = read_reg space b d f 0x3F 1;
}

-- `(vid == vendor_id) && (did == device_id)`.
abbrev pub matches : Space → ℕ → ℕ → ℕ → ℕ → ℕ → Bool
matches space vendor_id device_id b d f =
    read_reg space b d f 0x00 2 == vendor_id && read_reg space b d f 0x02 2 == device_id

-- `for (i = start; i < start + rounds; i++)` around a body that may return.
unfoldable pub for_first {ℓ} : {A : Type ℓ} → (ℕ → Option A) → ℕ → ℕ → Option A
for_first body i zero = none
for_first body i (suc n) = elim (body i) [ some a ↦ some a | none ↦ for_first body (i + 1) n ]

-- The three loops of `pci_get_header`; `none` is NULL.
unfoldable pub try_function : Space → ℕ → ℕ → ℕ → ℕ → ℕ → Option Pci0Header
try_function space vendor_id device_id b d f =
    if matches space vendor_id device_id b d f then some (read_header space b d f) else none

unfoldable pub pci_get_header : Space → ℕ → ℕ → Option Pci0Header
pci_get_header space vendor_id device_id =
    for_first
      (λ b.
        for_first (λ d. for_first (try_function space vendor_id device_id b d) 0 pci_max_functions)
          0 pci_max_devices)
      0 pci_max_bus

-- `pci_scan_bus`: `*vid` and `*did`.
unfoldable pub pci_scan_bus : Space → ℕ → ℕ → ℕ → ℕ × ℕ
pci_scan_bus space bus dev func =
    (read_reg space bus dev func 0x00 2, read_reg space bus dev func 0x02 2)
