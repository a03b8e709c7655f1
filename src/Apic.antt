-- ===== src/Apic.antt =====
-- The local APIC: include/apic.h, the timer functions and `mpSendIPI` of src_c/mp.c, and the timer of
-- src_c/lwrte.c, all under tools/src/baremetal/smallos. The program's accesses form a history, and what
-- a device answers is a function of it.
pub mod Sleep
mod Tests
use rtbench.Common.{
  ℕ, zero, suc, ◌+◌, ◌-◌, ◌*◌, ◌/◌, ◌%◌, ◌^◌, bit_or, bit_and, ltb, ◌==◌, if◌then◌else◌, List, [],
  ◌∷◌, Option, none, some, ◌>>=◌,
}
use rtbench.Mp.{Cpus}
use rtbench.Mp.Acpi.{sub32}
use rtbench.Timer.{wait_pit_wrap, pit_reg_mode}

-- An access: a write or a read of the register at an offset from the base of an APIC, a store to
-- memory, a read of the mailbox, a byte to a port.
pub data Event : Type 0 where
  writes : (base reg value : ℕ) → Event
  reads : (base reg value : ℕ) → Event
  stores : (address value : ℕ) → Event
  mail : (value : ℕ) → Event
  outs : (port value : ℕ) → Event

-- What comes from outside, by the accesses so far, the newest first: the value of a register, and of
-- the mailbox, which another core may have written. `port` gives the reads of the interval timer.
pub record Outside : Type 0 where
  pub register : List Event → ℕ → ℕ → ℕ
  pub mailbox : List Event → ℕ
  pub port : ℕ → ℕ

-- `glblMpCfgPtr->memAddrLAPIC`, the accesses so far, the reads of the interval timer so far,
-- `g_cpuBusFreq` as a 32-bit word, and the processors.
pub record Machine : Type 0 where
  pub base : ℕ
  pub history : List Event
  pub pit_reads : ℕ
  pub bus_freq : ℕ
  pub cpus : Cpus

abbrev pub apic_id : ℕ
apic_id = 0x20

abbrev pub apic_task_pri_reg : ℕ
apic_task_pri_reg = 0x80

abbrev pub apic_eoi_reg : ℕ
apic_eoi_reg = 0xB0

abbrev pub apic_spur_int_vect_reg : ℕ
apic_spur_int_vect_reg = 0xF0

abbrev pub apic_icr_reg0 : ℕ
apic_icr_reg0 = 0x300

abbrev pub apic_icr_reg32 : ℕ
apic_icr_reg32 = 0x310

abbrev pub apic_lvt_tmr_reg : ℕ
apic_lvt_tmr_reg = 0x320

abbrev pub apic_lvt_err_reg : ℕ
apic_lvt_err_reg = 0x370

abbrev pub apic_init_count_reg : ℕ
apic_init_count_reg = 0x380

abbrev pub apic_lvt_cur_count_reg : ℕ
apic_lvt_cur_count_reg = 0x390

abbrev pub apic_lvt_div_cfg_reg : ℕ
apic_lvt_div_cfg_reg = 0x3E0

abbrev pub set_apic_enable : ℕ
set_apic_enable = 0x100

abbrev pub apic_lvtt_vector : ℕ
apic_lvtt_vector = 0xFF

abbrev pub apic_lvtt_masked : ℕ
apic_lvtt_masked = 0x10000

abbrev pub apic_lvtt_tmr_periodic : ℕ
apic_lvtt_tmr_periodic = 0x20000

abbrev pub log : Event → Machine → Machine
log e m = record m { history = e ∷ m.history }

-- `apicWrite` and `apicRead` of a register of the APIC at `base`.
abbrev pub apic_write : ℕ → ℕ → ℕ → Machine → Machine
apic_write base reg v = log (writes base reg v)

abbrev pub register_at : Outside → ℕ → ℕ → Machine → ℕ
register_at o base reg m = o.register m.history base reg

abbrev pub apic_read : Outside → ℕ → ℕ → Machine → Machine
apic_read o base reg m = log (reads base reg (register_at o base reg m)) m

-- Read a register, change the value, and write it back.
abbrev pub apic_update : Outside → ℕ → ℕ → (ℕ → ℕ) → Machine → Machine
apic_update o base reg f m =
    apic_write base reg (f (register_at o base reg m)) (apic_read o base reg m)

-- `cpu_bus_clock_freq () / 1000000`, a division of an `i32`, as a 32-bit word.
abbrev pub ticks_per_us : ℕ → ℕ
ticks_per_us freq =
    if ltb freq (2 ^ 31) then freq / 1000000 else (2 ^ 32 - (2 ^ 32 - freq) / 1000000) % 2 ^ 32

-- `~(VECTOR | DLV_STAT_PEND | MASKED | TMR_PERIODIC) | MASKED | VECTOR`.
abbrev pub lvtt_mask : ℕ
lvtt_mask = bit_or (bit_or (0xFFFFFFFF - 0x310FF) apic_lvtt_masked) apic_lvtt_vector

unfoldable pub apic_set_timer : Outside → ℕ → Machine → Machine
apic_set_timer o value m =
    let configured =
      apic_update o m.base apic_lvt_tmr_reg (λ lvtt. bit_and lvtt lvtt_mask)
        (apic_write m.base apic_lvt_div_cfg_reg 0x0B m) in
    apic_write m.base apic_init_count_reg (value * ticks_per_us m.bus_freq % 2 ^ 32) configured

unfoldable pub apic_read_timer : Outside → Machine → ℕ × Machine
apic_read_timer o m =
    (register_at o m.base apic_lvt_cur_count_reg m, apic_read o m.base apic_lvt_cur_count_reg m)

-- `do { count = apicRead (CUR_COUNT); } while (count);`
unfoldable pub count_loop : ℕ → Outside → Machine → Option Machine
count_loop zero o m = none
count_loop (suc fuel) o m =
    let next = apic_read o m.base apic_lvt_cur_count_reg m in
    let rest = count_loop fuel o next in
    if register_at o m.base apic_lvt_cur_count_reg m == 0 then some next else rest

unfoldable pub u_sleep : ℕ → Outside → ℕ → Machine → Option Machine
u_sleep fuel o time_in_usecs m = count_loop fuel o (apic_set_timer o time_in_usecs m)

unfoldable pub mp_send_ipi : ℕ → ℕ → Machine → Machine
mp_send_ipi target_id ipi_num m =
    apic_write m.base apic_icr_reg0 ipi_num
      (apic_write m.base apic_icr_reg32 (target_id * 2 ^ 24 % 2 ^ 32) m)

abbrev pub pit_loops : ℕ
pit_loops = 100

abbrev pub pit_hz : ℕ
pit_hz = 1000

-- `n` calls of `wait_pit_wrap`.
-- The history after `n` calls of `get_pit_count`: each writes 0 to the mode register first.
unfoldable pub counted : ℕ → List Event → List Event
counted zero h = h
counted (suc n) h = outs pit_reg_mode 0x00 ∷ counted n h

-- A count takes two reads.
abbrev pub after_wait : ℕ → Machine → Machine
after_wait i m = record m { pit_reads = i; history = counted ((i - m.pit_reads) / 2) m.history }

unfoldable pub pit_waits : ℕ → Outside → ℕ → Machine → Option Machine
pit_waits fuel o zero m = some m
pit_waits fuel o (suc n) m = do
  i ← wait_pit_wrap fuel o.port m.pit_reads
  pit_waits fuel o n (after_wait i m)

-- The bus frequency from the counts before and after PIT_LOOPS waits.
abbrev pub bus_freq_of : ℕ → ℕ → ℕ
bus_freq_of apic1 apic2 = sub32 apic1 apic2 * 16 % 2 ^ 32 / pit_loops * pit_hz % 2 ^ 32

-- `calibrate_time`; the first waits are for a count of cycles that only a comment uses.
unfoldable pub calibrate_time : ℕ → Outside → Machine → Option Machine
calibrate_time fuel o m =
    let lvtt = bit_or apic_lvtt_vector apic_lvtt_masked in
    let set =
      apic_write m.base apic_init_count_reg 1000000000
        (apic_write m.base apic_lvt_tmr_reg lvtt (apic_write m.base apic_lvt_div_cfg_reg 0x03 m)) in
    do
      m1 ← pit_waits fuel o (1 + pit_loops + 1) set
      let apic1 = register_at o m.base apic_lvt_cur_count_reg m1
      m2 ← pit_waits fuel o pit_loops (apic_read o m.base apic_lvt_cur_count_reg m1)
      let apic2 = register_at o m.base apic_lvt_cur_count_reg m2
      some (record (apic_read o m.base apic_lvt_cur_count_reg m2) {
        bus_freq = bus_freq_of apic1 apic2;
      })

-- lwrte.c addresses the APIC by a constant.
abbrev pub apic_base : ℕ
apic_base = 0xFEE00000

-- `setup_apic_timer`; `cli` is left out.
unfoldable pub setup_apic_timer : Outside → ℕ → ℕ → ℕ → Machine → Machine
setup_apic_timer o periodic vector divider m =
    let enabled =
      apic_update o apic_base apic_spur_int_vect_reg (λ v. bit_or v set_apic_enable) m in
    apic_write apic_base apic_lvt_div_cfg_reg divider (
      apic_write apic_base apic_lvt_tmr_reg
        (if periodic == 0 then bit_or 0 vector else bit_or apic_lvtt_tmr_periodic vector) enabled)

-- `enable_apic_timer`, without `sti`.
unfoldable pub enable_apic_timer : ℕ → Machine → Machine
enable_apic_timer ticks = apic_write apic_base apic_init_count_reg ticks

unfoldable pub disable_apic_timer : Machine → Machine
disable_apic_timer = enable_apic_timer 0
