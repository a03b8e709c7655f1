-- ===== src/Setup/Tests.antt =====
-- `doMPSetup` at a concrete machine.
use rtbench.Common.{
  ℕ, suc, ◌+◌, ◌*◌, ◌/◌, ◌%◌, ◌^◌, ◌<◌, ◌≡◌, ◌≢◌, refl, ap, subst, arith, List, [], ◌∷◌, ◌==◌,
  if◌then◌else◌, none, some, dec_lt, ℕ_discrete,
}
use rtbench.Mp.Acpi.{Acpi, acpi_scan}
use rtbench.Mp.Acpi.Scan.{acpi_scan-Listed}
use rtbench.Mp.Samples.{tables, outside, before, no_cpus, find_rsdp_runs, tables-IsMadt}
use rtbench.Memory.{memcmp}
use rtbench.Timer.{get_pit_count}
use rtbench.Timer.Wait.{get_pit_count_lem}
use rtbench.Apic.{Event, writes, reads, Outside, Machine}
use rtbench.Apic.Sleep.{Wraps, polled}
use rtbench.Setup.{find_cpus, do_mp_setup, mem_addr_lapic, boot_loop}
use rtbench.Setup.Boot.{messages, CountsDown, Answers, mail_polled}
use rtbench.Setup.Start.{Started, do_mp_setup-Started, boot_loop-none}

-- The ACPI scan of the sample tables.
scanned : (a : Acpi) × (acpi_scan 100 outside tables before ≡ some a) × (a.cpus.glbl_num_cpus ≡ 1)
unfolding memcmp
scanned =
    let (a, e, n, l, d, c) =
      acpi_scan-Listed 100 outside tables before {rsdp = 0x9FC00} {madt = 0x300} {qs = 0x32C ∷ []}
        find_rsdp_runs.0 (omega arith) refl find_rsdp_runs.1 tables-IsMadt (omega arith) in
    (a, e, n)

abbrev acpi : Acpi
acpi = scanned.0

acpi_found : find_cpus 100 outside tables before ≡ some (some acpi)
unfolding find_cpus
acpi_found = rw (scanned.1, scanned.2) refl

-- The bytes of an interval timer whose count wraps at every second reading.
abbrev wave : ℕ → ℕ
wave i = i / 2 % 2

wave_count : (i : ℕ) → get_pit_count wave i ≡ i / 2 % 2 + (i + 1) / 2 % 2 * 256
wave_count i = get_pit_count_lem wave i (omega arith)

wave-Wraps : Wraps wave 100
wave-Wraps i = elim (dec_lt (get_pit_count wave i) (get_pit_count wave (i + 2))) [
  | yes up ↦ (
    0,
    omega arith,
    λ j lt. absurd (omega arith),
    omega (arith, wave_count (i + 2 * 0), wave_count (i + 2 * 1), wave_count i, wave_count (i + 2)),
  )
  | no down ↦ (
    1,
    omega arith,
    λ j lt. omega (
      arith,
      wave_count (i + 2 * suc j),
      wave_count (i + 2 * j),
      wave_count i,
      wave_count (i + 2),
    ),
    omega (arith, wave_count (i + 2 * 1), wave_count (i + 2 * 2), wave_count i, wave_count (i + 2)),
  )
]

-- A timer that has run down at the second reading, and processors that answer after a STARTUP.
abbrev count_after : List Event → ℕ
count_after (reads base reg v ∷ h) = 0
count_after h = 5

count_after_small : (h : List Event) → count_after h < 2 ^ 32
count_after_small h = ground arith

abbrev reply : List Event → ℕ
reply (writes base reg v ∷ h) = if v == 0x601 then 0xffffffff else 0
reply h = 0

abbrev board : Outside
board = record {
  register = λ h base reg. if reg == 0x390 then count_after h else 0;
  mailbox = λ h. reply (messages h);
  port = wave;
}

board-CountsDown : CountsDown board 100
unfolding polled
board-CountsDown m = elim (ℕ_discrete (count_after m.history) 0) [
  | yes e ↦ (0, omega arith, record { zero_at = e; positive = λ j lt. absurd (omega arith) })
  | no ne ↦ (
    1,
    omega arith,
    record {
      zero_at = refl;
      positive = λ j lt.
          subst (λ t. count_after (polled board t m).history ≢ 0) {x = 0} {y = j} (omega arith) ne;
    },
  )
]

board-Answers : (ii id : ℕ) → Answers board 100 ii id
unfolding mail_polled
board-Answers ii id m rest e =
    (0, omega arith, record { answer = ap reply e; before = λ j lt. absurd (omega arith) })

board-words : (h : List Event) (base : ℕ) → board.register h base 0x390 < 2 ^ 32
board-words h base = count_after_small h

abbrev off : Machine
off = record { base = 0; history = []; pit_reads = 0; bus_freq = 333000000; cpus = no_cpus }

abbrev bytes : ℕ → ℕ
bytes c = 0x90 + c

abbrev booting : Machine
booting = record off { base = mem_addr_lapic tables acpi acpi.glbl_mp_cfg_ptr; cpus = acpi.cpus }

do_mp_setup-Started_example :
    (m' : Machine) × (do_mp_setup 100 board outside tables bytes 3 before off ≡ some m')
    × Started 0 bytes 3 booting m'
do_mp_setup-Started_example =
    do_mp_setup-Started 100 board 0 bytes 3 (λ h base. refl) board-words wave-Wraps board-CountsDown
      outside tables before acpi off acpi_found
      (λ j ne. board-Answers j (acpi.cpus.mp_cpu_info j).lapic_id)

-- A board whose processors never answer, and processors that all have the number 5.
abbrev silent : Outside
silent = record board { mailbox = λ h. 7 }

abbrev two : Machine
two = record off {
  cpus = record no_cpus { mp_cpu_info = λ k. record (no_cpus.mp_cpu_info k) { lapic_id = 5 } };
}

boot_loop-none_example : boot_loop 100 silent 2 0 two ≡ none
boot_loop-none_example = boot_loop-none 100 silent 1 0 two (λ e. omega arith) (λ h e. omega arith)

abbrev lapic : Machine
lapic = record off { base = 0xFEE00000 }
