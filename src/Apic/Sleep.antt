-- ===== src/Apic/Sleep.antt =====
-- mp.c: what the timer functions program, and when they return.
use native.Mathlib.Nat.{mul-le-mul_left, mul_assoc, mul-add}
use rtbench.Common.{
  ℕ, zero, suc, ◌+◌, ◌-◌, ◌*◌, ◌/◌, ◌%◌, ◌^◌, ◌≤◌, ◌<◌, ◌≡◌, ◌≢◌, refl, ap, ap₂, ◌∙◌, arith,
  bit_and, List, ◌∷◌, some, lt→ltb, ne→==, eq→==,
}
use rtbench.Mp.Acpi.{sub32}
use rtbench.Timer.{get_pit_count, pit_reg_mode}
use rtbench.Timer.Wait.{wait_pit_wrap_lem}
use rtbench.Apic.{
  counted, after_wait, outs, Event, writes, reads, Outside, Machine, apic_lvt_tmr_reg,
  apic_init_count_reg, apic_lvt_cur_count_reg, apic_lvt_div_cfg_reg, register_at, apic_read,
  ticks_per_us, lvtt_mask, apic_set_timer, count_loop, u_sleep, bus_freq_of, pit_waits,
  calibrate_time,
}

-- The machine after `n` reads of the count.
unfoldable pub polled : Outside → ℕ → Machine → Machine
polled o zero m = m
polled o (suc n) m = polled o n (apic_read o m.base apic_lvt_cur_count_reg m)

abbrev pub count_of : Outside → Machine → ℕ
count_of o m = register_at o m.base apic_lvt_cur_count_reg m

-- The count is zero at the read with the number `k`, and not before.
pub record IsZeroAt (o : Outside) (m : Machine) (k : ℕ) : Type 0 where
  pub zero_at : count_of o (polled o k m) ≡ 0
  pub positive : (j : ℕ) → j < k → count_of o (polled o j m) ≢ 0

pub count_loop_lem :
    (k fuel : ℕ) (o : Outside) (m : Machine)
    → k < fuel
    → IsZeroAt o m k
    → count_loop fuel o m ≡ some (polled o (suc k) m)
unfolding count_loop polled
count_loop_lem k zero o m f h = absurd (omega arith)
count_loop_lem zero (suc fuel) o m f h = rw (eq→== (count_of o m) 0 h.zero_at) refl
count_loop_lem (suc k) (suc fuel) o m f h =
    let next = apic_read o m.base apic_lvt_cur_count_reg m in
    rw (ne→== (count_of o m) 0 (h.positive 0 (omega arith))) (
      count_loop_lem k fuel o next (omega arith)
        (record { zero_at = h.zero_at; positive = λ j lt. h.positive (suc j) (omega arith) }))

-- What `apic_set_timer` does before the count: the divider, and the timer's entry read and written.
abbrev pub configured : Outside → Machine → List Event
configured o m =
    let h = writes m.base apic_lvt_div_cfg_reg 0x0B ∷ m.history in
    let lvtt = o.register h m.base apic_lvt_tmr_reg in
    writes m.base apic_lvt_tmr_reg (bit_and lvtt lvtt_mask) ∷ reads m.base apic_lvt_tmr_reg lvtt ∷ h

-- The timer is programmed for `us` microseconds: the count is that many times the whole ticks of one
-- microsecond.
pub record IsProgrammed (o : Outside) (us : ℕ) (m m' : Machine) : Type 0 where
  pub count : ℕ
  pub history : m'.history ≡ writes m.base apic_init_count_reg count ∷ configured o m
  pub exact : count ≡ us * (m.bus_freq / 1000000)
  pub below : count * 1000000 ≤ us * m.bus_freq
  pub above : us * m.bus_freq ≤ count * 1000000 + us * 1000000

programmed :
    (freq us : ℕ)
    → freq < 2 ^ 31
    → us * (freq / 1000000) < 2 ^ 32
    → us * ticks_per_us freq % 2 ^ 32 ≡ us * (freq / 1000000)
programmed freq us pos fits = rw (lt→ltb freq (2 ^ 31) pos) (omega arith)

ticks_below : (freq us : ℕ) → us * (freq / 1000000) * 1000000 ≤ us * freq
ticks_below freq us =
    let q = freq / 1000000 in
    let le : q * 1000000 ≤ freq = omega arith in
    omega (arith, mul-le-mul_left us le, mul_assoc us q 1000000)

ticks_above : (freq us : ℕ) → us * freq ≤ us * (freq / 1000000) * 1000000 + us * 1000000
ticks_above freq us =
    let q = freq / 1000000 in
    let le : freq ≤ q * 1000000 + 1000000 = omega arith in
    omega (arith, mul-le-mul_left us le, mul_assoc us q 1000000, mul-add us (q * 1000000) 1000000)

apic_set_timer-IsProgrammed :
    (o : Outside) (us : ℕ) (m : Machine)
    → m.bus_freq < 2 ^ 31
    → us * (m.bus_freq / 1000000) < 2 ^ 32
    → IsProgrammed o us m (apic_set_timer o us m)
unfolding apic_set_timer
apic_set_timer-IsProgrammed o us m pos fits = record {
  count = us * (m.bus_freq / 1000000);
  history =
      ap (λ t. writes m.base apic_init_count_reg t ∷ configured o m)
        (programmed m.bus_freq us pos fits);
  exact = refl;
  below = (ticks_below m.bus_freq us);
  above = (ticks_above m.bus_freq us);
}

-- `uSleep` programs the timer for the time asked for, rounded down to whole ticks for each microsecond,
-- and returns right after the first read of a zero count, when that is one of the reads that the fuel
-- allows. The frequency is not negative as an `i32`, and the count has 32 bits.
pub u_sleep-IsProgrammed :
    (k fuel : ℕ) (o : Outside) (us : ℕ) (m : Machine)
    → m.bus_freq < 2 ^ 31
    → us * (m.bus_freq / 1000000) < 2 ^ 32
    → k < fuel
    → IsZeroAt o (apic_set_timer o us m) k
    → (m' : Machine) × IsProgrammed o us m m' × (u_sleep fuel o us m ≡ some (polled o (suc k) m'))
unfolding u_sleep
u_sleep-IsProgrammed k fuel o us m pos fits lt h =
    let set = apic_set_timer o us m in
    (set, apic_set_timer-IsProgrammed o us m pos fits, count_loop_lem k fuel o set lt h)

-- From every read on, the interval timer wraps within the fuel.
abbrev pub Wraps : (ℕ → ℕ) → ℕ → Type 0
Wraps port fuel =
    (i : ℕ)
    → (k : ℕ) × (k < fuel)
      × ((j : ℕ) → j < k → get_pit_count port (i + 2 * suc j) ≤ get_pit_count port (i + 2 * j))
      × (get_pit_count port (i + 2 * k) < get_pit_count port (i + 2 * suc k))

counted-counted : (a b : ℕ) (h : List Event) → counted b (counted a h) ≡ counted (a + b) h
unfolding counted
counted-counted a zero h = ap (λ n. counted n h) (omega arith)
counted-counted a (suc b) h =
    let more : suc (a + b) ≡ a + suc b = omega arith in
    ap (◌∷◌ (outs pit_reg_mode 0x00)) (counted-counted a b h) ∙ ap (λ n. counted n h) more

-- The machine after `c` counts.
abbrev pub counted_on : ℕ → Machine → Machine
counted_on c m = record m { pit_reads = m.pit_reads + 2 * c; history = counted c m.history }

counted_on-after : (a b : ℕ) (m : Machine) → counted_on b (counted_on a m) ≡ counted_on (a + b) m
counted_on-after a b m =
    let place : m.pit_reads + 2 * a + 2 * b ≡ m.pit_reads + 2 * (a + b) = omega arith in
    ap₂ (λ i h. record m { pit_reads = i; history = h }) place (counted-counted a b m.history)

after_wait-counted : (k : ℕ) (m : Machine) → after_wait (m.pit_reads + 2 * k) m ≡ counted_on k m
after_wait-counted k m =
    ap (λ n. record m { pit_reads = m.pit_reads + 2 * k; history = counted n m.history })
      (omega arith)

pit_waits_lem :
    (fuel : ℕ) (o : Outside) (n : ℕ) (m : Machine)
    → Wraps o.port fuel
    → (c : ℕ) × (pit_waits fuel o n m ≡ some (counted_on c m))
unfolding pit_waits counted
pit_waits_lem fuel o zero m h = (0, ap (λ i. some (record m { pit_reads = i })) (omega arith))
pit_waits_lem fuel o (suc n) m h =
    let (k, lt, down, up) = h m.pit_reads in
    let (c, e) = pit_waits_lem fuel o n (counted_on (k + 2) m) h in
    (
      k + 2 + c,
      rw (wait_pit_wrap_lem k fuel o.port m.pit_reads lt down up) (
          ap (pit_waits fuel o n) (after_wait-counted (k + 2) m)
          ∙ e
          ∙ ap some (counted_on-after (k + 2) c m)),
    )

bus_freq_of_lem :
    (apic1 apic2 : ℕ)
    → apic1 < 2 ^ 32
    → apic2 ≤ apic1
    → (apic1 - apic2) * 160 < 2 ^ 32
    → (bus_freq_of apic1 apic2 ≤ (apic1 - apic2) * 160)
      × ((apic1 - apic2) * 160 < bus_freq_of apic1 apic2 + 1000)
      × (bus_freq_of apic1 apic2 ≡ (apic1 - apic2) * 160 / 1000 * 1000)
bus_freq_of_lem apic1 apic2 word le fits =
    let d : sub32 apic1 apic2 ≡ apic1 - apic2 = omega arith in
    let ticks : sub32 apic1 apic2 * 16 % 2 ^ 32 ≡ (apic1 - apic2) * 16 = omega arith in
    (omega arith, omega arith, omega arith)

-- The frequency is taken from two reads of the count, which ran down from 10 ^ 9 between them, with the
-- counts of the interval timer before each.
pub record IsCalibrated (m m' : Machine) : Type 0 where
  pub base : m'.base ≡ m.base
  pub cpus : m'.cpus ≡ m.cpus
  pub apic1 : ℕ
  pub apic2 : ℕ
  pub counts1 : ℕ
  pub counts2 : ℕ
  pub history :
      m'.history
      ≡ reads m.base apic_lvt_cur_count_reg apic2
        ∷ counted counts2 (
            reads m.base apic_lvt_cur_count_reg apic1
            ∷ counted counts1 (
                writes m.base apic_init_count_reg 1000000000
                ∷ writes m.base apic_lvt_tmr_reg 0x100FF
                ∷ writes m.base apic_lvt_div_cfg_reg 0x03
                ∷ m.history))
  pub exact :
      apic2 ≤ apic1
      → (apic1 - apic2) * 160 < 2 ^ 32
      → m'.bus_freq ≡ (apic1 - apic2) * 160 / 1000 * 1000
  pub below : apic2 ≤ apic1 → (apic1 - apic2) * 160 < 2 ^ 32 → m'.bus_freq ≤ (apic1 - apic2) * 160
  pub above :
      apic2 ≤ apic1 → (apic1 - apic2) * 160 < 2 ^ 32 → (apic1 - apic2) * 160 < m'.bus_freq + 1000

pub calibrate_time-IsCalibrated :
    (fuel : ℕ) (o : Outside) (m : Machine)
    → Wraps o.port fuel
    → ((h : List Event) → o.register h m.base apic_lvt_cur_count_reg < 2 ^ 32)
    → (m' : Machine) × IsCalibrated m m' × (calibrate_time fuel o m ≡ some m')
unfolding calibrate_time
calibrate_time-IsCalibrated fuel o m wraps words =
    let set = record m {
      history =
          writes m.base apic_init_count_reg 1000000000
          ∷ writes m.base apic_lvt_tmr_reg 0x100FF
          ∷ writes m.base apic_lvt_div_cfg_reg 0x03
          ∷ m.history;
    } in
    let (c1, e1) = pit_waits_lem fuel o 102 set wraps in
    let m1 = counted_on c1 set in
    let (c2, e2) = pit_waits_lem fuel o 100 (apic_read o m.base apic_lvt_cur_count_reg m1) wraps in
    let m2 = counted_on c2 (apic_read o m.base apic_lvt_cur_count_reg m1) in
    let apic1 = count_of o m1 in
    let apic2 = count_of o m2 in
    (
      record (apic_read o m.base apic_lvt_cur_count_reg m2) { bus_freq = bus_freq_of apic1 apic2 },
      record {
        base = refl;
        cpus = refl;
        apic1 = apic1;
        apic2 = apic2;
        counts1 = c1;
        counts2 = c2;
        history = refl;
        below = λ le fits. (bus_freq_of_lem apic1 apic2 (words m1.history) le fits).0;
        exact = λ le fits. (bus_freq_of_lem apic1 apic2 (words m1.history) le fits).2;
        above = λ le fits. (bus_freq_of_lem apic1 apic2 (words m1.history) le fits).1;
      },
      rw (e1, e2) refl,
    )
