-- ===== src/Apic/Tests.antt =====
-- The timer functions at a concrete device.
use rtbench.Common.{ℕ, ◌-◌, ◌/◌, ◌%◌, ◌≡◌, ◌≢◌, ◌<◌, refl, arith, List, [], ◌∷◌, some, zero, suc}
use rtbench.Mp.Samples.{no_cpus}
use rtbench.Apic.{Event, reads, Outside, Machine, apic_set_timer, apic_set_timer, u_sleep}
use rtbench.Apic.Sleep.{count_of, IsProgrammed, IsZeroAt, polled, u_sleep-IsProgrammed}

-- A count that is lower by one at each of the last reads.
abbrev ticks : List Event → ℕ
ticks (reads base reg v ∷ h) = ticks h - 1
ticks h = 3

abbrev device : Outside
device = record { register = λ h base reg. ticks h; mailbox = λ h. 0; port = λ i. i / 2 % 2 }

abbrev machine : Machine
machine = record {
  base = 0xFEE00000;
  history = [];
  pit_reads = 0;
  bus_freq = 333000000;
  cpus = no_cpus;
}

ticking :
    (j : ℕ) → j < 3 → count_of device (polled device j (apic_set_timer device 10000 machine)) ≢ 0
unfolding polled apic_set_timer
ticking zero lt e = omega arith
ticking (suc zero) lt e = omega arith
ticking (suc (suc zero)) lt e = omega arith
ticking (suc (suc (suc j))) lt e = omega arith

machine-IsZeroAt : IsZeroAt device (apic_set_timer device 10000 machine) 3
unfolding polled apic_set_timer
machine-IsZeroAt = record { zero_at = refl; positive = ticking }

u_sleep-IsSet_example :
    (m' : Machine) × IsProgrammed device 10000 machine m'
    × (u_sleep 10 device 10000 machine ≡ some (polled device 4 m'))
u_sleep-IsSet_example =
    u_sleep-IsProgrammed 3 10 device 10000 machine (omega arith) (omega arith) (omega arith)
      machine-IsZeroAt
