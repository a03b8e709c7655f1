-- ===== src/Mp/Samples.antt =====
-- ACPI tables in memory, for the tests.
use rtbench.Common.{
  ℕ, ◌+◌, ◌-◌, ◌≡◌, refl, some, arith, ◌&&◌, if◌then◌else◌, List, [], ◌∷◌, ◌++◌, length, replicate,
  get_or, leb, ltb,
}
use rtbench.Memory.{Mem, memcmp}
use rtbench.Mp.{Cpus, first_at}
use rtbench.Mp.Acpi.{Outside, Acpi, null, find_rsdp, find_madt}
use rtbench.Mp.Acpi.Madt.{IsMadt, end, lapic, skip}

abbrev pub place : ℕ → List ℕ → Mem → Mem
place base bytes m a =
    if leb base a && ltb a (base + length bytes) then get_or bytes (a - base) 0 else m a

abbrev pub blank : Mem
blank a = 0

abbrev pub no_cpus : Cpus
no_cpus = record {
  mp_cpu_info = λ k. record {
    cpu_id = 0;
    lapic_id = 0;
    lapic_ver = 0;
    cpu_flags = 0;
    cpu_sig = 0;
    feature_flags = 0;
  };
  cpu_apic_id_map = λ k. 0;
  glbl_num_cpus = 7;
}

abbrev pub bytes_rsdp : List ℕ
bytes_rsdp = b'R' ∷ b'S' ∷ b'D' ∷ b' ' ∷ b'P' ∷ b'T' ∷ b'R' ∷ b' ' ∷ []

abbrev pub bytes_rsdt : List ℕ
bytes_rsdt = b'R' ∷ b'S' ∷ b'D' ∷ b'T' ∷ []

abbrev pub bytes_apic : List ℕ
bytes_apic = b'A' ∷ b'P' ∷ b'I' ∷ b'C' ∷ []

abbrev pub outside : Outside
outside = record {
  rsdp_str = 0x100;
  rsdt_str = 0x110;
  madt_str = 0x120;
  apic_ver = λ a. 0x10015;
  cpuid = 0x306A9;
}

-- The signature strings, an RSDP at the start of its first area, an RSDT with one header, and a MADT
-- with a local APIC, an I/O APIC and a second local APIC that is off.
abbrev pub tables : Mem
tables = place 0x100 bytes_rsdp (
    place 0x110 bytes_rsdt (
      place 0x120 bytes_apic (
        place 0x9FC00 (bytes_rsdp ++ replicate 8 0 ++ (0 ∷ 2 ∷ 0 ∷ 0 ∷ [])) (
          place 0x200
            (bytes_rsdt ++ (40 ∷ 0 ∷ 0 ∷ 0 ∷ []) ++ replicate 28 0 ++ (0 ∷ 3 ∷ 0 ∷ 0 ∷ []))
            (place 0x300
              (bytes_apic
                ++ (72 ∷ 0 ∷ 0 ∷ 0 ∷ [])
                ++ replicate 28 0
                ++ (0 ∷ 0 ∷ 0xE0 ∷ 0xFE ∷ [])
                ++ replicate 4 0
                ++ (0 ∷ 8 ∷ 1 ∷ 2 ∷ 1 ∷ 0 ∷ 0 ∷ 0 ∷ [])
                ++ (1 ∷ 12 ∷ [])
                ++ replicate 10 5
                ++ (0 ∷ 8 ∷ 3 ∷ 4 ∷ 0 ∷ 0 ∷ 0 ∷ 0 ∷ []))
              blank)))))

abbrev pub before : Acpi
before = record { cpus = no_cpus; dummy_lapic = 1; glbl_mp_cfg_ptr = null }

pub find_rsdp_runs :
    (find_rsdp outside tables ≡ some 0x9FC00) × (find_madt outside tables 0x200 ≡ some 0x300)
unfolding find_rsdp find_madt first_at memcmp
find_rsdp_runs = (refl, refl)

pub tables-IsMadt : IsMadt tables 0x32C 28 0 (0x32C ∷ [])
tables-IsMadt = lapic (omega arith) refl (omega arith) (
    skip (omega arith) refl (omega arith)
      (skip (omega arith) refl (omega arith) (end (omega arith))))
