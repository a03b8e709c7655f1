-- ===== src/Mp/Acpi.antt =====
-- mp.c: `ACPIScan`, which takes the processors from the ACPI tables.
pub mod Madt
pub mod Scan
use rtbench.Common.{
  ℕ, zero, suc, ◌+◌, ◌-◌, ◌*◌, ◌/◌, ◌%◌, ◌^◌, bit_and, Bool, true, false, not, ◌&&◌, ltb, leb, ◌==◌,
  if◌then◌else◌, Option, none, some,
}
use mathlib.Core.Option
use rtbench.Common.Int.{ℤ, pos, negsuc}
use rtbench.Memory.{Mem, read16, read32, memcmp}
use rtbench.Mp.{ProcInfo, Cpus, put_at, first_at, bios_ebda, mp_search_sz}

abbrev pub mp_max_procs : ℕ
mp_max_procs = 32

-- What the scan takes from outside the tables: where the linker put the three signature strings, the
-- version register of the LAPIC at an address, and the eax of `cpuid` leaf 1.
pub record Outside : Type 0 where
  pub rsdp_str : ℕ
  pub rsdt_str : ℕ
  pub madt_str : ℕ
  pub apic_ver : ℕ → ℕ
  pub cpuid : ℕ

-- Where `glblMpCfgPtr` points.
pub data CfgPtr : Type 0 where
  null : CfgPtr
  dummy : CfgPtr
  table : ℕ → CfgPtr

-- The globals of the scan, with `dummyMpCfgPtr.memAddrLAPIC`.
pub record Acpi : Type 0 where
  pub cpus : Cpus
  pub dummy_lapic : ℕ
  pub glbl_mp_cfg_ptr : CfgPtr

-- `!memcmp (a, b, n)`.
abbrev pub is_zero : ℤ → Bool
is_zero (pos n) = n == 0
is_zero (negsuc n) = false

abbrev pub same_bytes : Mem → ℕ → ℕ → ℕ → Bool
same_bytes m a b n = is_zero (memcmp m a b n)

-- `(len - offset) ` on 32 bits, and as an `int` that bounds a loop, where a negative one gives no
-- round.
abbrev pub sub32 : ℕ → ℕ → ℕ
sub32 a b = (a + 2 ^ 32 - b) % 2 ^ 32

abbrev pub loop_bound : ℕ → ℕ
loop_bound x = if ltb x (2 ^ 31) then x else 0

-- The two loops that look for the RSDP, at every 16th address.
unfoldable pub find_rsdp : Outside → Mem → Option ℕ
find_rsdp o m =
    elim (first_at (λ p. same_bytes m p o.rsdp_str 8) 16 bios_ebda (mp_search_sz / 16)) [
      | some p ↦ some p
      | none ↦
          first_at (λ p. same_bytes m p o.rsdp_str 8) 16 0xE0000 ((0xFFFFF - 0xE0000 + 15) / 16)
    ]

-- `pMADT && !memcmp (pMADT->signature, "APIC", 4)`, for the header at `p`.
abbrev pub is_madt : Outside → Mem → ℕ → Bool
is_madt o m p = not (read32 m p == 0) && same_bytes m (read32 m p) o.madt_str 4

-- `for (ii = 0; ii < numheaders; ii++)`, up to the first MADT.
unfoldable pub find_madt : Outside → Mem → ℕ → Option ℕ
find_madt o m rsdt =
    Option.map (λ p. read32 m p)
      (first_at (is_madt o m) 4 (rsdt + 36) (sub32 (read32 m (rsdt + 4)) 36 / 4))

-- `memset` of `sizeof (struct mp_proc_entry)`, 20 bytes, over entries of 12: the whole entry `k`, and
-- the next one but for its last field.
abbrev pub clear_info : (ℕ → ProcInfo) → ℕ → ℕ → ProcInfo
clear_info f k =
    put_at
      (put_at f k (record {
        cpu_id = 0;
        lapic_id = 0;
        lapic_ver = 0;
        cpu_flags = 0;
        cpu_sig = 0;
        feature_flags = 0;
      }))
      (k + 1)
      (record (f (k + 1)) { cpu_id = 0; lapic_id = 0; lapic_ver = 0; cpu_flags = 0; cpu_sig = 0 })

-- The enabled local APIC at `q`.
unfoldable pub add_lapic : ℕ → ℕ → Mem → ℕ → Cpus → Cpus
add_lapic ver sig m q c =
    let n = c.glbl_num_cpus in
    record {
      mp_cpu_info = put_at (clear_info c.mp_cpu_info n) n (record {
        cpu_id = m (q + 2);
        lapic_id = m (q + 3);
        lapic_ver = ver;
        cpu_flags = 0;
        cpu_sig = sig;
        feature_flags = 0;
      });
      cpu_apic_id_map = put_at c.cpu_apic_id_map n (m (q + 3));
      glbl_num_cpus = n + 1;
    }

-- ACPI_APIC_TYPE_LAPIC with ACPI_APIC_FLAG_ENABLED.
abbrev pub is_enabled_lapic : Mem → ℕ → Bool
is_enabled_lapic m q = m q == 0 && not (bit_and (read32 m (q + 4)) 1 == 0)

-- The loop over the structures of the MADT, from `base + offset`.
unfoldable pub madt_loop : ℕ → ℕ → ℕ → Mem → ℕ → ℕ → ℕ → Cpus → Option Cpus
madt_loop zero ver sig m base structlen offset c = none
madt_loop (suc fuel) ver sig m base structlen offset c =
    let q = base + offset in
    let c' = if is_enabled_lapic m q then add_lapic ver sig m q c else c in
    let rest = madt_loop fuel ver sig m base structlen (offset + m (q + 1)) c' in
    if ltb c.glbl_num_cpus mp_max_procs && ltb offset structlen then rest else some c

-- The walk through the MADT at `madt`.
unfoldable pub scan_madt : ℕ → Outside → Mem → ℕ → Acpi → Option Acpi
scan_madt fuel o m madt a =
    Option.map (λ c. record a { cpus = c; dummy_lapic = read32 m (madt + 36) })
      (madt_loop fuel (o.apic_ver (read32 m (madt + 36)) % 256) o.cpuid m (madt + 44)
        (loop_bound (sub32 (read32 m (madt + 4)) 44)) 0 a.cpus)

unfoldable pub scan_headers : ℕ → Outside → Mem → ℕ → Acpi → Option Acpi
scan_headers fuel o m rsdt a =
    if not (rsdt == 0) && same_bytes m rsdt o.rsdt_str 4
    then elim (find_madt o m rsdt) [ none ↦ some a | some madt ↦ scan_madt fuel o m madt a ]
    else some a

-- The end of `ACPIScan`.
unfoldable pub use_dummy : Acpi → Acpi
use_dummy a = if a.cpus.glbl_num_cpus == 0 then a else record a { glbl_mp_cfg_ptr = dummy }

-- `ACPIScan`; it returns `glblNumCpus`.
unfoldable pub acpi_scan : ℕ → Outside → Mem → Acpi → Option Acpi
acpi_scan fuel o m a =
    let a0 = record a { cpus = record a.cpus { glbl_num_cpus = 0 }; dummy_lapic = 0 } in
    Option.map use_dummy (elim (find_rsdp o m) [
      | none ↦ some a0
      | some rsdp ↦ scan_headers fuel o m (read32 m (rsdp + 16)) a0
    ])
