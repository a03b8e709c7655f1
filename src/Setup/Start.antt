-- ===== src/Setup/Start.antt =====
-- mp.c: the whole of `doMPSetup`, and where it does not return.
use rtbench.Common.{
  ◌>>=◌, ap₂, append-nil, subst, ℕ, zero, suc, ◌+◌, ◌*◌, ◌<◌, ◌^◌, ◌≡◌, ◌≢◌, refl, ap, ◌∙◌, List,
  [], ◌∷◌, ◌++◌, Option, none, some, ne→==, min, arith,
}
use rtbench.Memory.{Mem}
use rtbench.Timer.{pit_reg_mode, divisor_writes}
use rtbench.Mp.Acpi.{Acpi}
use rtbench.Mp
use rtbench.Apic.{
  Event, counted, writes, apic_init_count_reg, apic_lvt_tmr_reg, apic_lvt_div_cfg_reg, stores, mail,
  outs, Outside, Machine, apic_id, apic_lvt_cur_count_reg, apic_read, register_at, log, u_sleep,
  mp_send_ipi,
}
use rtbench.Apic.Sleep.{Wraps, IsCalibrated, calibrate_time-IsCalibrated}
use rtbench.Commands.{mail_box}
use rtbench.Setup.{
  mark_bp, mail_loop, boot_cpu, boot_or_mark, boot_loop, copy_entry, store_entry, enable_lapic,
  setup_pit, disable_lapic, start_cpus, do_mp_setup, find_cpus, mem_addr_lapic, outs_all,
  ipi_init_assert, ipi_init_deassert, ipi_startup, cpus_to_boot,
}
use rtbench.Setup.Boot.{messages, Sent, Sent-trans, CountsDown, u_sleep-Sent, Answers, then_some}
use rtbench.Setup.Loop.{called, info, Booted, boot_loop-Booted}

none_then {ℓ κ} :
    {A : Type ℓ} {B : Type κ} (x : Option A) (f : A → Option B)
    → ((a : A) → f a ≡ none)
    → (x >>= f) ≡ none
none_then none f h = refl
none_then (some a) f h = h a

mail_loop-none :
    (fuel : ℕ) (o : Outside) (m : Machine)
    → ((h : List Event) → o.mailbox h ≢ 0xffffffff)
    → mail_loop fuel o m ≡ none
unfolding mail_loop
mail_loop-none zero o m silent = refl
mail_loop-none (suc fuel) o m silent =
    rw (ne→== (o.mailbox m.history) 0xffffffff (silent m.history))
      (mail_loop-none fuel o (log (mail (o.mailbox m.history)) m) silent)

boot_cpu-none :
    (fuel : ℕ) (o : Outside) (ii id : ℕ) (m : Machine)
    → ((h : List Event) → o.mailbox h ≢ 0xffffffff)
    → boot_cpu fuel o ii id m ≡ none
unfolding boot_cpu
boot_cpu-none fuel o ii id m silent =
    let called = log (stores mail_box id) m in
    let m0 = log (stores (mail_box + 4) (0x100000 + (ii + 1) * 2 ^ 12)) called in
    none_then (u_sleep fuel o 10000 (mp_send_ipi id ipi_init_assert m0)) _ (λ m1.
      none_then (u_sleep fuel o 300 (mp_send_ipi id ipi_init_deassert m1)) _ (λ m2.
        none_then (u_sleep fuel o 300 (mp_send_ipi id ipi_startup m2)) _ (λ m3.
          none_then (u_sleep fuel o 100000 (mp_send_ipi id ipi_startup m3)) _
            (λ m4. mail_loop-none fuel o m4 silent))))

-- When the next processor has another number than the APIC reads and the mailbox is never answered, the
-- loop does not return, whatever the fuel is.
pub boot_loop-none :
    (fuel : ℕ) (o : Outside) (n ii : ℕ) (m : Machine)
    → (info m ii).lapic_id ≢ register_at o m.base apic_id m
    → ((h : List Event) → o.mailbox h ≢ 0xffffffff)
    → boot_loop fuel o (suc n) ii m ≡ none
unfolding boot_loop boot_or_mark
boot_loop-none fuel o n ii m other silent =
    rw
      (
        ne→== (info m ii).lapic_id (register_at o m.base apic_id m) other,
        boot_cpu-none fuel o ii (info m ii).lapic_id (apic_read o m.base apic_id m) silent,
      )
      refl

-- The stores of `n` bytes of the code from the byte `c` on, the newest first.
unfoldable pub copied : (ℕ → ℕ) → ℕ → ℕ → List Event
copied ap_entry zero c = []
copied ap_entry (suc n) c = copied ap_entry n (c + 1) ++ stores (0x1000 + c) (ap_entry c) ∷ []

copy_entry-Sent :
    (ap_entry : ℕ → ℕ) (n c : ℕ) (m : Machine)
    → Sent (copied ap_entry n c) m (copy_entry ap_entry n c m)
unfolding copy_entry copied messages
copy_entry-Sent ap_entry zero c m = record { base = refl; cpus = refl; history = refl }
copy_entry-Sent ap_entry (suc n) c m =
    let one : Sent (stores (0x1000 + c) (ap_entry c) ∷ []) m
        (log (stores (0x1000 + c) (ap_entry c)) m) =
      record { base = refl; cpus = refl; history = refl } in
    Sent-trans _ one (copy_entry-Sent ap_entry n (c + 1) _)

-- The stores before the loop: the mailbox is cleared, the code is copied with the byte behind it, the
-- warm reset vector is set.
abbrev pub prepared : (ℕ → ℕ) → ℕ → List Event
prepared ap_entry len =
    stores 0x469 0 ∷ stores 0x467 0x1000 ∷ stores 0xf 0xa ∷ copied ap_entry (len + 1) 0
    ++ stores 0x9000 0 ∷ []

store_entry-Sent :
    (ap_entry : ℕ → ℕ) (len : ℕ) (m : Machine)
    → Sent (prepared ap_entry len) m (store_entry ap_entry len m)
unfolding store_entry messages
store_entry-Sent ap_entry len m =
    let clear : Sent (stores 0x9000 0 ∷ []) m (log (stores 0x9000 0) m) = record {
      base = refl;
      cpus = refl;
      history = refl;
    } in
    let copy = Sent-trans _ clear (copy_entry-Sent ap_entry (len + 1) 0 _) in
    Sent-trans _ {fs = stores 0x469 0 ∷ stores 0x467 0x1000 ∷ stores 0xf 0xa ∷ []} copy
      (record { base = refl; cpus = refl; history = refl })

enable_lapic-Sent : (o : Outside) (m : Machine) → Sent [] m (enable_lapic o m)
unfolding enable_lapic messages
enable_lapic-Sent o m = record { base = refl; cpus = refl; history = refl }

-- `setup_pit` returns when the timer of the pause counts down, and sends no message.
setup_pit-Sent :
    (fuel : ℕ) (o : Outside) (pit_hz : ℕ) (m : Machine)
    → CountsDown o fuel
    → (m' : Machine) × (setup_pit fuel o pit_hz m ≡ some m') × Sent [] m m'
unfolding setup_pit divisor_writes messages
setup_pit-Sent fuel o pit_hz m down =
    let set = log (outs pit_reg_mode 0x34) m in
    let mode : Sent [] m set = record { base = refl; cpus = refl; history = refl } in
    let (m1, e, paused) = u_sleep-Sent fuel o 10 set down in
    let divisor : Sent [] m1 (outs_all (divisor_writes pit_hz) m1) = record {
      base = refl;
      cpus = refl;
      history = refl;
    } in
    (
      outs_all (divisor_writes pit_hz) m1,
      then_some _ e refl,
      Sent-trans [] {fs = []} (Sent-trans [] {fs = []} mode paused) divisor,
    )

disable_lapic-Sent : (o : Outside) (m : Machine) → Sent [] m (disable_lapic o m)
unfolding disable_lapic messages
disable_lapic-Sent o m = record { base = refl; cpus = refl; history = refl }

messages-counted : (n : ℕ) (h : List Event) → messages (counted n h) ≡ messages h
unfolding messages counted
messages-counted zero h = refl
messages-counted (suc n) h = messages-counted n h

IsCalibrated-Sent : {m m' : Machine} → IsCalibrated m m' → Sent [] m m'
unfolding messages
IsCalibrated-Sent {m} h = record {
  base = h.base;
  cpus = h.cpus;
  history =
      ap messages h.history
      ∙ messages-counted h.counts2 _
      ∙ messages-counted h.counts1 (
          writes m.base apic_init_count_reg 1000000000
          ∷ writes m.base apic_lvt_tmr_reg 0x100FF
          ∷ writes m.base apic_lvt_div_cfg_reg 0x03
          ∷ m.history);
}

-- What `doMPSetup` did from `m` on, where the local APIC reads the number `own`.
pub record Started (own : ℕ) (ap_entry : ℕ → ℕ) (len : ℕ) (m m' : Machine) : Type 0 where
  pub history :
      messages m'.history
      ≡ called m.base own (λ j. (info m j).lapic_id) (min 32 m.cpus.glbl_num_cpus) 0
        ++ (prepared ap_entry len ++ messages m.history)
  pub marked :
      (j : ℕ)
      → j < min 32 m.cpus.glbl_num_cpus
      → (info m j).lapic_id ≡ own
      → info m' j ≡ mark_bp (info m j)
  pub others : (j : ℕ) → (info m j).lapic_id ≢ own → info m' j ≡ info m j

assembled :
    (own : ℕ) (ap_entry : ℕ → ℕ) (len : ℕ) {m m3 m4 m' : Machine}
    → Sent (prepared ap_entry len) m m3
    → Booted own (λ j. (info m j).lapic_id) (cpus_to_boot m3) 0 m3 m4
    → Sent [] m4 m'
    → Started own ap_entry len m m'
assembled own ap_entry len {m} {m3} {m4} {m'} s3 booted s5 =
    let ids : ℕ → ℕ = λ j. (info m j).lapic_id in
    let same : (j : ℕ) → info m3 j ≡ info m j = λ j. ap (λ c. c.mp_cpu_info j) s3.cpus in
    let last : (j : ℕ) → info m' j ≡ info m4 j = λ j. ap (λ c. c.mp_cpu_info j) s5.cpus in
    let count : cpus_to_boot m3 ≡ min 32 m.cpus.glbl_num_cpus =
      ap (λ c. min 32 c.glbl_num_cpus) s3.cpus in
    record {
      history =
          s5.history
          ∙ booted.history
          ∙ ap₂ (λ b n. called b own ids n 0 ++ messages m3.history) s3.base count
          ∙ ap (◌++◌ (called m.base own ids (min 32 m.cpus.glbl_num_cpus) 0)) s3.history;
      marked =
          λ j lt e. last j ∙ booted.marked j (omega arith) (omega arith) e ∙ ap mark_bp (same j);
      others = λ j ne. last j ∙ booted.others j ne ∙ same j;
    }

module _ (fuel : ℕ) (o : Outside) (own : ℕ) (ap_entry : ℕ → ℕ) (len : ℕ)
    (register : (h : List Event) (base : ℕ) → o.register h base apic_id ≡ own)
    (words : (h : List Event) (base : ℕ) → o.register h base apic_lvt_cur_count_reg < 2 ^ 32)
    (wraps : Wraps o.port fuel) (down : CountsDown o fuel) where
  start_cpus-Started :
      (m : Machine)
      → ((j : ℕ) → (info m j).lapic_id ≢ own → Answers o fuel j (info m j).lapic_id)
      → (m' : Machine) × (start_cpus fuel o ap_entry len m ≡ some m')
        × Started own ap_entry len m m'
  unfolding start_cpus
  start_cpus-Started m answers =
      let (m1, e1, ticking) = setup_pit-Sent fuel o 1000 (enable_lapic o m) down in
      let enabled = Sent-trans [] {fs = []} (enable_lapic-Sent o m) ticking in
      let (m2, calibrated, e2) =
        calibrate_time-IsCalibrated fuel o m1 wraps (λ h. words h m1.base) in
      let s2 = Sent-trans [] {fs = []} enabled (IsCalibrated-Sent calibrated) in
      let m3 = store_entry ap_entry len m2 in
      let s3 : Sent (prepared ap_entry len) m m3 =
        subst (λ es. Sent es m m3) (append-nil (prepared ap_entry len))
          (Sent-trans [] s2 (store_entry-Sent ap_entry len m2)) in
      let (m4, e4, booted) =
        boot_loop-Booted fuel o own (λ j. (info m j).lapic_id) register down answers
          (cpus_to_boot m3) 0 m3 (λ j. ap (λ c. (c.mp_cpu_info j).lapic_id) s3.cpus) in
      (
        disable_lapic o m4,
        then_some _ e1 (then_some _ e2 (then_some _ e4 refl)),
        assembled own ap_entry len s3 booted (disable_lapic-Sent o m4),
      )

  -- `doMPSetup` returns when the timers run, the processors that get the whole protocol answer, and a
  -- search has found processors. It has sent the protocol to each of the first 32 whose number is not
  -- the one that the APIC reads, in their order and after the code was stored, and nothing else; the
  -- others are marked as the boot processor.
  pub do_mp_setup-Started :
      (acpi_o : Mp.Acpi.Outside) (mem : Mem) (a b : Acpi) (m : Machine)
      → find_cpus fuel acpi_o mem a ≡ some (some b)
      → ((j : ℕ)
          → (b.cpus.mp_cpu_info j).lapic_id ≢ own
          → Answers o fuel j (b.cpus.mp_cpu_info j).lapic_id)
      → (m' : Machine) × (do_mp_setup fuel o acpi_o mem ap_entry len a m ≡ some m')
        × Started own ap_entry len
            (record m { base = mem_addr_lapic mem b b.glbl_mp_cfg_ptr; cpus = b.cpus })
            m'
  unfolding do_mp_setup
  do_mp_setup-Started acpi_o mem a b m found answers =
      let found_m = record m { base = mem_addr_lapic mem b b.glbl_mp_cfg_ptr; cpus = b.cpus } in
      let (m', e, h) = start_cpus-Started found_m answers in (m', then_some _ found e, h)

-- When neither search finds a processor table, `doMPSetup` returns before it touches the local APIC.
do_mp_setup-absent :
    (fuel : ℕ) (o : Outside) (acpi_o : Mp.Acpi.Outside) (mem : Mem) (ap_entry : ℕ → ℕ) (len : ℕ)
    (a : Acpi) (m : Machine)
    → find_cpus fuel acpi_o mem a ≡ some none
    → do_mp_setup fuel o acpi_o mem ap_entry len a m ≡ some m
unfolding do_mp_setup
do_mp_setup-absent fuel o acpi_o mem ap_entry len a m found = then_some _ found refl
