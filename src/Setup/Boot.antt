-- ===== src/Setup/Boot.antt =====
-- mp.c: the messages to the other processors, in the loop of `doMPSetup`.
use mathlib.Core.List.{append_assoc}
use rtbench.Common.{
  ◌>>=◌, ℕ, zero, suc, ◌+◌, ◌*◌, ◌%◌, ◌^◌, ◌<◌, ◌≡◌, ◌≢◌, refl, sym, ap, ◌∙◌, subst, arith, ◌==◌,
  ◌||◌, Bool, true, false, if◌then◌else◌, List, [], ◌∷◌, ◌++◌, Option, some, ne→==, eq→==,
}
use rtbench.Apic.{
  Event, writes, reads, stores, mail, outs, Outside, Machine, apic_icr_reg0, apic_icr_reg32,
  apic_read, log, u_sleep, apic_set_timer, mp_send_ipi, apic_lvt_cur_count_reg,
}
use rtbench.Apic.Sleep.{polled, IsZeroAt, count_loop_lem}
use rtbench.Commands.{mail_box}
use rtbench.Setup.{boot_cpu, mail_loop, ipi_init_assert, ipi_init_deassert, ipi_startup}

-- The messages in a history: the stores, and the writes to the interrupt command register.
abbrev pub is_message : Event → Bool
is_message (writes base reg v) = reg == apic_icr_reg0 || reg == apic_icr_reg32
is_message (reads base reg v) = false
is_message (stores a v) = true
is_message (mail v) = false
is_message (outs port v) = false

unfoldable pub messages : List Event → List Event
messages [] = []
messages (e ∷ h) = if is_message e then e ∷ messages h else messages h

-- The protocol that starts the processor with the APIC number `id` as the `ii`-th, the newest message
-- first: its number and its stack in the mailbox, INIT asserted and deasserted, STARTUP twice.
abbrev pub protocol : ℕ → ℕ → ℕ → List Event
protocol base ii id =
    writes base 0x300 0x601
    ∷ writes base 0x310 (id * 2 ^ 24 % 2 ^ 32)
    ∷ writes base 0x300 0x601
    ∷ writes base 0x310 (id * 2 ^ 24 % 2 ^ 32)
    ∷ writes base 0x300 0x8500
    ∷ writes base 0x310 (id * 2 ^ 24 % 2 ^ 32)
    ∷ writes base 0x300 0xC500
    ∷ writes base 0x310 (id * 2 ^ 24 % 2 ^ 32)
    ∷ stores 0x9004 (0x100000 + (ii + 1) * 0x1000)
    ∷ stores 0x9000 id
    ∷ []

-- What changed between two machines: the messages that were added.
pub record Sent (es : List Event) (m m' : Machine) : Type 0 where
  pub base : m'.base ≡ m.base
  pub cpus : m'.cpus ≡ m.cpus
  pub history : messages m'.history ≡ es ++ messages m.history

pub Sent-trans :
    (es : List Event) {fs : List Event} {m m' m'' : Machine}
    → Sent es m m'
    → Sent fs m' m''
    → Sent (fs ++ es) m m''
Sent-trans es {fs} {m} a b = record {
  base = b.base ∙ a.base;
  cpus = b.cpus ∙ a.cpus;
  history = b.history ∙ ap (◌++◌ fs) a.history ∙ sym (append_assoc fs es _);
}

polled-Sent : (o : Outside) (n : ℕ) (m : Machine) → Sent [] m (polled o n m)
unfolding polled messages
polled-Sent o zero m = record { base = refl; cpus = refl; history = refl }
polled-Sent o (suc n) m =
    Sent-trans [] {fs = []} (record { base = refl; cpus = refl; history = refl })
      (polled-Sent o n (apic_read o m.base apic_lvt_cur_count_reg m))

-- The timer's count reaches zero within the fuel, whenever it is read.
abbrev pub CountsDown : Outside → ℕ → Type 0
CountsDown o fuel = (m : Machine) → (k : ℕ) × (k < fuel) × IsZeroAt o m k

set-Sent : (o : Outside) (us : ℕ) (m : Machine) → Sent [] m (apic_set_timer o us m)
unfolding apic_set_timer messages
set-Sent o us m = record { base = refl; cpus = refl; history = refl }

pub u_sleep-Sent :
    (fuel : ℕ) (o : Outside) (us : ℕ) (m : Machine)
    → CountsDown o fuel
    → (m' : Machine) × (u_sleep fuel o us m ≡ some m') × Sent [] m m'
unfolding u_sleep
u_sleep-Sent fuel o us m down =
    let set = apic_set_timer o us m in
    let (k, lt, h) = down set in
    (
      polled o (suc k) set,
      count_loop_lem k fuel o set lt h,
      Sent-trans [] {fs = []} (set-Sent o us m) (polled-Sent o (suc k) set),
    )

-- The two writes of an IPI.
abbrev pub ipi : ℕ → ℕ → ℕ → List Event
ipi base id num = writes base 0x300 num ∷ writes base 0x310 (id * 2 ^ 24 % 2 ^ 32) ∷ []

-- An IPI and a pause.
send-Sent :
    (fuel : ℕ) (o : Outside) (us id num : ℕ) (m : Machine) {base : ℕ}
    → m.base ≡ base
    → CountsDown o fuel
    → (m' : Machine) × (u_sleep fuel o us (mp_send_ipi id num m) ≡ some m')
      × Sent (ipi base id num) m m'
unfolding mp_send_ipi messages
send-Sent fuel o us id num m b down =
    let (m', e, s) = u_sleep-Sent fuel o us (mp_send_ipi id num m) down in
    let sent : Sent (ipi m.base id num) m (mp_send_ipi id num m) = record {
      base = refl;
      cpus = refl;
      history = refl;
    } in
    (
      m',
      e,
      subst (λ t. Sent (ipi t id num) m m') b (Sent-trans (ipi m.base id num) {fs = []} sent s),
    )

unfoldable pub mail_polled : Outside → ℕ → Machine → Machine
mail_polled o zero m = m
mail_polled o (suc n) m = mail_polled o n (log (mail (o.mailbox m.history)) m)

-- The mailbox holds the answer at the read with the number `k`.
pub record IsAnswered (o : Outside) (m : Machine) (k : ℕ) : Type 0 where
  pub answer : o.mailbox (mail_polled o k m).history ≡ 0xffffffff
  pub before : (j : ℕ) → j < k → o.mailbox (mail_polled o j m).history ≢ 0xffffffff

mail_loop-Sent :
    (k fuel : ℕ) (o : Outside) (m : Machine)
    → k < fuel
    → IsAnswered o m k
    → (m' : Machine) × (mail_loop fuel o m ≡ some m') × Sent [] m m'
unfolding mail_loop mail_polled messages
mail_loop-Sent k zero o m f h = absurd (omega arith)
mail_loop-Sent zero (suc fuel) o m f h = (
  log (mail (o.mailbox m.history)) m,
  rw (eq→== (o.mailbox m.history) 0xffffffff h.answer) refl,
  record { base = refl; cpus = refl; history = refl },
)
mail_loop-Sent (suc k) (suc fuel) o m f h =
    let next = log (mail (o.mailbox m.history)) m in
    let (m', e, s) =
      mail_loop-Sent k fuel o next (omega arith)
        (record { answer = h.answer; before = λ j lt. h.before (suc j) (omega arith) }) in
    (
      m',
      rw (ne→== (o.mailbox m.history) 0xffffffff (h.before 0 (omega arith))) e,
      Sent-trans [] {fs = []} (record { base = refl; cpus = refl; history = refl }) s,
    )

-- A processor that has got the whole protocol answers within the fuel.
abbrev pub Answers : Outside → ℕ → ℕ → ℕ → Type 0
Answers o fuel ii id =
    (m : Machine) (rest : List Event)
    → messages m.history ≡ protocol m.base ii id ++ rest
    → (k : ℕ) × (k < fuel) × IsAnswered o m k

pub then_some {ℓ κ} :
    {A : Type ℓ} {B : Type κ} {x : Option A} {a : A} (f : A → Option B) {r : Option B}
    → x ≡ some a
    → f a ≡ r
    → (x >>= f) ≡ r
then_some f e h = ap (λ t. t >>= f) e ∙ h

pub boot_cpu-Sent :
    (fuel : ℕ) (o : Outside) (ii id : ℕ) (m : Machine)
    → CountsDown o fuel
    → Answers o fuel ii id
    → (m' : Machine) × (boot_cpu fuel o ii id m ≡ some m') × Sent (protocol m.base ii id) m m'
unfolding boot_cpu messages
boot_cpu-Sent fuel o ii id m down answers =
    let m0 =
      log (stores (mail_box + 4) (0x100000 + (ii + 1) * 2 ^ 12)) (log (stores mail_box id) m) in
    let s0 : Sent (stores 0x9004 (0x100000 + (ii + 1) * 0x1000) ∷ stores 0x9000 id ∷ []) m m0 =
      record { base = refl; cpus = refl; history = refl } in
    let (m1, e1, s1) = send-Sent fuel o 10000 id ipi_init_assert m0 refl down in
    let t1 = Sent-trans _ s0 s1 in
    let (m2, e2, s2) = send-Sent fuel o 300 id ipi_init_deassert m1 t1.base down in
    let t2 = Sent-trans _ t1 s2 in
    let (m3, e3, s3) = send-Sent fuel o 300 id ipi_startup m2 t2.base down in
    let t3 = Sent-trans _ t2 s3 in
    let (m4, e4, s4) = send-Sent fuel o 100000 id ipi_startup m3 t3.base down in
    let sent : Sent (protocol m.base ii id) m m4 = Sent-trans _ t3 s4 in
    let b : m4.base ≡ m.base = sent.base in
    let (k, lt, h) = answers m4 (messages m.history) (
      subst (λ t. messages m4.history ≡ protocol t ii id ++ messages m.history) (sym b)
        sent.history) in
    let (m5, e5, s5) = mail_loop-Sent k fuel o m4 lt h in
    (
      m5,
      then_some _ e1 (then_some _ e2 (then_some _ e3 (then_some _ e4 e5))),
      Sent-trans (protocol m.base ii id) {fs = []} sent s5,
    )
