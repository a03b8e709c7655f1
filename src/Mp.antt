-- ===== src/Mp.antt =====
-- tools/src/baremetal/smallos/src_c/mp.c and include/mp.h: the processors that the tables of the MP
-- specification list. Structures are packed and pointers have four bytes, as the Makefile asks.
pub mod Search
pub mod Table
pub mod Acpi
pub mod Samples
mod Tests
use rtbench.Common.{
  ℕ, zero, suc, ◌+◌, ◌-◌, ◌*◌, ◌/◌, ◌%◌, ◌^◌, bit_and, Bool, true, false, ◌&&◌, ltb, leb, ◌==◌,
  if◌then◌else◌, Option, none, some,
}
use rtbench.Memory.{Mem, read16, read32}

-- `struct mp_proc_info_entry`.
pub record ProcInfo : Type 0 where
  pub cpu_id : ℕ
  pub lapic_id : ℕ
  pub lapic_ver : ℕ
  pub cpu_flags : ℕ
  pub cpu_sig : ℕ
  pub feature_flags : ℕ

-- `mpCpuInfo`, `cpu_apic_id_map` and `glblNumCpus`. The arrays have MP_MAX_PROCS entries; an index
-- beyond stands for the memory behind them.
pub record Cpus : Type 0 where
  pub mp_cpu_info : ℕ → ProcInfo
  pub cpu_apic_id_map : ℕ → ℕ
  pub glbl_num_cpus : ℕ

abbrev pub bios_ebda : ℕ
bios_ebda = 0x0009FC00

abbrev pub bios_base : ℕ
bios_base = 0x000F0000

abbrev pub bios_base2 : ℕ
bios_base2 = 0x000E0000

abbrev pub mp_search_sz : ℕ
mp_search_sz = 0x00010000

abbrev pub mp_flt_ptr_sig : ℕ
mp_flt_ptr_sig = 0x5F504D5F

-- `for (p = start; p < limit; p += stride) if (test (p)) return p; return NULL;`, by the rounds left.
unfoldable pub first_at : (ℕ → Bool) → ℕ → ℕ → ℕ → Option ℕ
first_at test stride p zero = none
first_at test stride p (suc n) =
    let rest = first_at test stride (p + stride) n in if test p then some p else rest

abbrev pub has_flt_sig : Mem → ℕ → Bool
has_flt_sig m p = read32 m p == mp_flt_ptr_sig

-- `mp_search_flt_sig`, which looks at each word below the limit.
unfoldable pub mp_search_flt_sig : Mem → ℕ → ℕ → Option ℕ
mp_search_flt_sig m base limit = first_at (has_flt_sig m) 4 base ((limit - base + 3) / 4)

unfoldable pub mp_scan : Mem → Option ℕ
mp_scan m = elim (mp_search_flt_sig m bios_ebda (bios_ebda + mp_search_sz)) [
  | some p ↦ some p
  | none ↦ elim (mp_search_flt_sig m bios_base (bios_base + mp_search_sz)) [
    | some p ↦ some p
    | none ↦ mp_search_flt_sig m bios_base2 (bios_base2 + mp_search_sz)
  ]
]

abbrev pub put_at {ℓ} : {A : Type ℓ} → (ℕ → A) → ℕ → A → ℕ → A
put_at f k a i = if i == k then a else f i

-- The enabled processor of the entry at `p`, noted under the number `numOfCpus`.
unfoldable pub add_cpu : Mem → ℕ → Cpus → Cpus
add_cpu m p c = record {
  mp_cpu_info = put_at c.mp_cpu_info c.glbl_num_cpus (record {
    cpu_id = c.glbl_num_cpus % 256;
    lapic_id = m (p + 1);
    lapic_ver = m (p + 2);
    cpu_flags = m (p + 3);
    cpu_sig = read32 m (p + 4);
    feature_flags = read32 m (p + 8);
  });
  cpu_apic_id_map = put_at c.cpu_apic_id_map c.glbl_num_cpus (m (p + 1));
  glbl_num_cpus = c.glbl_num_cpus + 1;
}

-- The `switch` on the entry at `p`: where the next entry is looked for, and the processors noted.
unfoldable pub parse_entry : Mem → ℕ → Cpus → ℕ × Cpus
parse_entry m p c =
    if m p == 0
    then (p + 20, if bit_and (m (p + 3)) 0x01 == 0 then c else add_cpu m p c)
    else if leb (m p) 4
    then (p + 8, c)
    else (p, c)

-- `for (numOfEntries = 0; numOfEntries < mpCfg->entryCnt; numOfEntries++)`, by the rounds left.
unfoldable pub parse_loop : Mem → ℕ → ℕ → Cpus → Cpus
parse_loop m zero p c = c
parse_loop m (suc n) p c = let (p', c') = parse_entry m p c in parse_loop m n p' c'

-- `mp_parse_config_table`: the entries follow the header of 44 bytes.
unfoldable pub mp_parse_config_table : Mem → ℕ → Cpus → Cpus
mp_parse_config_table m mp_cfg c =
    parse_loop m (read16 m (mp_cfg + 34)) (mp_cfg + 44) (record c { glbl_num_cpus = 0 })
