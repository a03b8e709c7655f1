-- ===== src/Mp/Tests.antt =====
-- Tables in memory, read.
use rtbench.Common.{ℕ, ◌≡◌, ◌≢◌, refl, none, some, arith, List, [], ◌∷◌, ◌++◌, length, replicate}
use rtbench.Common.Int.{pos}
use rtbench.Memory.{Mem, memcmp, read32}
use rtbench.Mp.{Cpus, first_at, mp_search_flt_sig, mp_parse_config_table}
use rtbench.Mp.Samples.{
  place, blank, no_cpus, outside, tables, before, find_rsdp_runs, tables-IsMadt,
}
use rtbench.Mp.Table.{
  Entry, processor, other, IsTable, no_entry, processor_at, other_at, enabled, Noted,
  mp_parse_config_table-Parsed,
}
use rtbench.Mp.Acpi.{Acpi, dummy, acpi_scan, madt_loop}
use rtbench.Mp.Acpi.Madt.{Listed, Walked, madt_loop-Walked, madt_loop_stuck}
use rtbench.Mp.Acpi.Scan.{acpi_scan-Listed}

-- `_MP_` at the third word of the second area.
abbrev bios : Mem
bios = place 0xF0008 (0x5F ∷ 0x4D ∷ 0x50 ∷ 0x5F ∷ []) blank

search_runs :
    (mp_search_flt_sig bios 0xF0000 0xF0010 ≡ some 0xF0008)
    × (mp_search_flt_sig bios 0xF0000 0xF0008 ≡ none)
unfolding mp_search_flt_sig first_at
search_runs = (refl, refl)

-- A header with three entries: an enabled processor, a bus, and a processor that is off.
abbrev config : Mem
config =
    place 0
      (replicate 34 0
        ++ (3 ∷ 0 ∷ [])
        ++ replicate 8 0
        ++ (0 ∷ 4 ∷ 20 ∷ 1 ∷ [])
        ++ replicate 16 9
        ++ (1 ∷ [])
        ++ replicate 7 9
        ++ (0 ∷ 6 ∷ 20 ∷ 0 ∷ [])
        ++ replicate 16 9)
      blank

abbrev config_entries : List Entry
config_entries =
    processor (record {
      lapic_id = 4;
      lapic_ver = 20;
      cpu_flags = 1;
      cpu_sig = 0x09090909;
      feature_flags = 0x09090909;
    })
    ∷ other
    ∷ processor (record {
      lapic_id = 6;
      lapic_ver = 20;
      cpu_flags = 0;
      cpu_sig = 0x09090909;
      feature_flags = 0x09090909;
    })
    ∷ []

config-IsTable : IsTable config 44 config_entries
config-IsTable =
    processor_at refl (other_at (omega arith) (omega arith) (processor_at refl no_entry))

mp_parse_config_table-Parsed_example :
    let c = mp_parse_config_table config 0 no_cpus in
    (c.glbl_num_cpus ≡ length (enabled config_entries)) × Noted c 0 (enabled config_entries)
mp_parse_config_table-Parsed_example =
    mp_parse_config_table-Parsed {m = config} 0 {es = config_entries} config-IsTable refl no_cpus

enabled_runs : length (enabled config_entries) ≡ 1
unfolding enabled
enabled_runs = refl

rsdt_signature : (read32 tables 0x9FC10 ≡ 0x200) × (memcmp tables 0x200 0x110 4 ≡ pos 0)
unfolding memcmp
rsdt_signature = (refl, refl)

acpi_scan-Listed_example :
    (a : Acpi) × (acpi_scan 100 outside tables before ≡ some a)
    × (a.cpus.glbl_num_cpus ≡ 1)
    × Listed 0x15 0x306A9 tables a.cpus 0 (0x32C ∷ [])
    × (a.dummy_lapic ≡ 0xFEE00000)
    × (◌≢◌ {A = ℕ} 1 0 → a.glbl_mp_cfg_ptr ≡ dummy)
unfolding memcmp
acpi_scan-Listed_example =
    acpi_scan-Listed 100 outside tables before {rsdp = 0x9FC00} {madt = 0x300} {qs = 0x32C ∷ []}
      find_rsdp_runs.0 (omega arith) refl find_rsdp_runs.1 tables-IsMadt (omega arith)

madt_loop-Walked_example :
    (c : Cpus) × (madt_loop 100 0x15 1 tables 0x32C 28 0 (record no_cpus { glbl_num_cpus = 31 })
      ≡ some c)
    × Walked 0x15 1 tables (record no_cpus { glbl_num_cpus = 31 }) (0x32C ∷ []) c
madt_loop-Walked_example =
    madt_loop-Walked 0x15 1 tables 0x32C 28 100 tables-IsMadt (omega arith)
      (record no_cpus { glbl_num_cpus = 31 }) (omega arith)

madt_loop_stuck_example : madt_loop 1000 0x15 1 blank 0x32C 28 0 no_cpus ≡ none
madt_loop_stuck_example =
    madt_loop_stuck 0x15 1 blank 0x32C 28 1000 0 no_cpus (omega arith) refl refl (omega arith)
