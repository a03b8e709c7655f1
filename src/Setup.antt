-- ===== src/Setup.antt =====
-- tools/src/baremetal/smallos/src_c/mp.c: `doMPSetup`, which starts the other processors. The history
-- of accesses holds what it does to the local APIC, to memory and to the mailbox, the newest first.
pub mod Boot
pub mod Loop
pub mod Start
mod Tests
use rtbench.Common.{
  ◌>>=◌, ℕ, zero, suc, ◌+◌, ◌-◌, ◌*◌, ◌/◌, ◌%◌, ◌^◌, bit_or, bit_and, min, ◌==◌, if◌then◌else◌,
  List, [], ◌∷◌, Option, none, some,
}
use rtbench.Commands.{mail_box}
use rtbench.Memory.{Mem, read32}
use rtbench.Timer.{pit_reg_mode, divisor_writes}
use rtbench.Mp.{ProcInfo, Cpus, mp_scan, mp_parse_config_table}
use rtbench.Mp
use rtbench.Mp.Acpi.{Acpi, CfgPtr, null, dummy, table, acpi_scan, mp_max_procs}
use rtbench.Mp.Acpi
use rtbench.Apic.{
  Event, stores, mail, outs, Outside, Machine, apic_id, apic_task_pri_reg, apic_eoi_reg,
  apic_spur_int_vect_reg, apic_lvt_err_reg, set_apic_enable, log, apic_write, apic_read,
  register_at, apic_update, u_sleep, mp_send_ipi, calibrate_time,
}

abbrev pub mp_proc_bp : ℕ
mp_proc_bp = 2

abbrev pub ap_code_store : ℕ
ap_code_store = 0x1000

-- INIT with and without assert, level triggered, and STARTUP with the page of the code.
abbrev pub ipi_init_assert : ℕ
ipi_init_assert = 0x8000 + 0x4000 + 0x500

abbrev pub ipi_init_deassert : ℕ
ipi_init_deassert = 0x8000 + 0x500

abbrev pub ipi_startup : ℕ
ipi_startup = 0x600 + ap_code_store / 2 ^ 12

-- The two searches for the processors. `none` inside stands for the early return.
abbrev pub try_mp_table : Mem → Acpi → Option Acpi
try_mp_table m a = elim (mp_scan m) [
  | none ↦ none
  | some mploc ↦
      let cfg = read32 m (mploc + 4) in
      some (record a { cpus = mp_parse_config_table m cfg a.cpus; glbl_mp_cfg_ptr = table cfg })
]

unfoldable pub find_cpus : ℕ → Mp.Acpi.Outside → Mem → Acpi → Option (Option Acpi)
find_cpus fuel o m a = do
  scanned ← acpi_scan fuel o m a
  some (
      if scanned.cpus.glbl_num_cpus == 0
      then try_mp_table m (record scanned { glbl_mp_cfg_ptr = null })
      else some scanned)

-- `glblMpCfgPtr->memAddrLAPIC`; the field stands 36 bytes into a table.
abbrev pub mem_addr_lapic : Mem → Acpi → CfgPtr → ℕ
mem_addr_lapic m a null = read32 m 36
mem_addr_lapic m a dummy = a.dummy_lapic
mem_addr_lapic m a (table cfg) = read32 m (cfg + 36)

-- The registers that are set before the processors are started.
unfoldable pub enable_lapic : Outside → Machine → Machine
enable_lapic o m =
    let spurious = apic_update o m.base apic_spur_int_vect_reg (λ v. bit_or v set_apic_enable) m in
    let priority =
      apic_update o m.base apic_task_pri_reg (λ tpr. bit_or tpr 0xffffff00)
        (apic_read o m.base apic_spur_int_vect_reg spurious) in
    let eoi =
      apic_write m.base apic_eoi_reg 0 (apic_read o m.base apic_spur_int_vect_reg priority) in
    let lvt_err = bit_and (register_at o m.base apic_lvt_err_reg eoi) 0xFFFFFFFE in
    apic_write m.base apic_lvt_err_reg lvt_err
      (apic_write m.base apic_lvt_err_reg lvt_err (apic_read o m.base apic_lvt_err_reg eoi))

unfoldable pub disable_lapic : Outside → Machine → Machine
disable_lapic o m =
    apic_read o m.base apic_spur_int_vect_reg (
      apic_update o m.base apic_spur_int_vect_reg (λ v. bit_and v (0xFFFFFFFF - set_apic_enable)) m)

abbrev pub outs_all : List (ℕ × ℕ) → Machine → Machine
outs_all [] m = m
outs_all ((port, v) ∷ rest) m = outs_all rest (log (outs port v) m)

-- `setup_pit` of timer.c: the mode, a pause, and the divisor.
unfoldable pub setup_pit : ℕ → Outside → ℕ → Machine → Option Machine
setup_pit fuel o pit_hz m = do
  slept ← u_sleep fuel o 10 (log (outs pit_reg_mode 0x34) m)
  some (outs_all (divisor_writes pit_hz) slept)

-- `apCodeStore[cIndx] = (&ap_entry)[cIndx]`, for `n` bytes from `c` on.
unfoldable pub copy_entry : (ℕ → ℕ) → ℕ → ℕ → Machine → Machine
copy_entry ap_entry zero c m = m
copy_entry ap_entry (suc n) c m =
    copy_entry ap_entry n (c + 1) (log (stores (ap_code_store + c) (ap_entry c)) m)

-- The stores between the calibration and the loop; `len` is `&ap_entry_end - &ap_entry`.
unfoldable pub store_entry : (ℕ → ℕ) → ℕ → Machine → Machine
store_entry ap_entry len m =
    let copied = copy_entry ap_entry (len + 1) 0 (log (stores mail_box 0) m) in
    log (stores 0x469 0) (log (stores 0x467 0x1000) (log (stores 0xf 0xa) copied))

-- `while (*apMailBox != 0xffffffff);`
unfoldable pub mail_loop : ℕ → Outside → Machine → Option Machine
mail_loop zero o m = none
mail_loop (suc fuel) o m =
    let next = log (mail (o.mailbox m.history)) m in
    let rest = mail_loop fuel o next in
    if o.mailbox m.history == 0xffffffff then some next else rest

-- The body of the loop for a processor that is started.
unfoldable pub boot_cpu : ℕ → Outside → ℕ → ℕ → Machine → Option Machine
boot_cpu fuel o ii lapic_id m = do
  let called = log (stores mail_box lapic_id) m
  let m0 = log (stores (mail_box + 4) (0x100000 + (ii + 1) * 2 ^ 12)) called
  m1 ← u_sleep fuel o 10000 (mp_send_ipi lapic_id ipi_init_assert m0)
  m2 ← u_sleep fuel o 300 (mp_send_ipi lapic_id ipi_init_deassert m1)
  m3 ← u_sleep fuel o 300 (mp_send_ipi lapic_id ipi_startup m2)
  m4 ← u_sleep fuel o 100000 (mp_send_ipi lapic_id ipi_startup m3)
  mail_loop fuel o m4

abbrev pub mark_bp : ProcInfo → ProcInfo
mark_bp p = record p { cpu_flags = bit_or p.cpu_flags mp_proc_bp }

abbrev pub mark : ℕ → Machine → Machine
mark ii m = record m {
  cpus = record m.cpus {
    mp_cpu_info = Mp.put_at m.cpus.mp_cpu_info ii (mark_bp (m.cpus.mp_cpu_info ii));
  };
}

unfoldable pub boot_or_mark : ℕ → Outside → ℕ → Machine → Option Machine
boot_or_mark fuel o ii m =
    let lapic_id = (m.cpus.mp_cpu_info ii).lapic_id in
    let next = apic_read o m.base apic_id m in
    if lapic_id == register_at o m.base apic_id m
    then some (mark ii next)
    else boot_cpu fuel o ii lapic_id next

-- The loop over `n` processors from `ii` on.
unfoldable pub boot_loop : ℕ → Outside → ℕ → ℕ → Machine → Option Machine
boot_loop fuel o zero ii m = some m
boot_loop fuel o (suc n) ii m = do next ← boot_or_mark fuel o ii m; boot_loop fuel o n (ii + 1) next

abbrev pub cpus_to_boot : Machine → ℕ
cpus_to_boot m = min mp_max_procs m.cpus.glbl_num_cpus

unfoldable pub start_cpus : ℕ → Outside → (ℕ → ℕ) → ℕ → Machine → Option Machine
start_cpus fuel o ap_entry len m = do
  ticking ← setup_pit fuel o 1000 (enable_lapic o m)
  ready ← calibrate_time fuel o ticking
  let stored = store_entry ap_entry len ready
  started ← boot_loop fuel o (cpus_to_boot stored) 0 stored
  some (disable_lapic o started)

-- `doMPSetup`, from a machine whose base and processors it finds itself; without processors it returns
-- and leaves the machine as it is.
unfoldable pub do_mp_setup :
    ℕ → Outside → Mp.Acpi.Outside → Mem → (ℕ → ℕ) → ℕ → Acpi → Machine → Option Machine
do_mp_setup fuel o acpi_o mem ap_entry len a m = do
  found ← find_cpus fuel acpi_o mem a
  elim found [
    | none ↦ some m
    | some b ↦
        start_cpus fuel o ap_entry len
          (record m { base = mem_addr_lapic mem b b.glbl_mp_cfg_ptr; cpus = b.cpus })
  ]
