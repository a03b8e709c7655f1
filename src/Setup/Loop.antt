-- ===== src/Setup/Loop.antt =====
-- mp.c: which processors the loop of `doMPSetup` starts, and what it notes.
use mathlib.Core.List.{append_assoc}
use rtbench.Common.{
  ap₂, ℕ, zero, suc, ◌+◌, ◌≤◌, ◌<◌, ◌≡◌, ◌≢◌, refl, sym, ap, ◌∙◌, subst, arith, ◌==◌, ◌⊎◌,
  ℕ_discrete, if◌then◌else◌, List, [], ◌++◌, some, ne→==, eq→==, inl, inr,
}
use rtbench.Mp.{put_at, ProcInfo}
use rtbench.Apic.{Event, Outside, Machine, apic_id, apic_read, register_at}
use rtbench.Setup.{mark_bp, mark, boot_or_mark, boot_loop, boot_cpu}
use rtbench.Setup.Boot.{messages, protocol, CountsDown, Answers, boot_cpu-Sent, then_some}

-- The messages of `n` rounds from `ii` on, the newest first: the processors with another number than
-- `own` are started.
unfoldable pub called : ℕ → ℕ → (ℕ → ℕ) → ℕ → ℕ → List Event
called base own ids zero ii = []
called base own ids (suc n) ii =
    called base own ids n (ii + 1) ++ (if ids ii == own then [] else protocol base ii (ids ii))

abbrev pub info : Machine → ℕ → ProcInfo
info m = m.cpus.mp_cpu_info

-- What `n` rounds from `ii` on did: the messages, and the mark of the processors with the number `own`.
pub record Booted (own : ℕ) (ids : ℕ → ℕ) (n ii : ℕ) (m m' : Machine) : Type 0 where
  pub history : messages m'.history ≡ called m.base own ids n ii ++ messages m.history
  pub base : m'.base ≡ m.base
  pub marked : (j : ℕ) → ii ≤ j → j < ii + n → ids j ≡ own → info m' j ≡ mark_bp (info m j)
  pub others : (j : ℕ) → ids j ≢ own → info m' j ≡ info m j
  pub outside : (j : ℕ) → ((j < ii) ⊎ (ii + n ≤ j)) → info m' j ≡ info m j

not_both : {i j : ℕ} → j ≡ i → ¬ ((j < i) ⊎ (i + 1 ≤ j))
not_both e (inl l) = omega arith
not_both e (inr l) = omega arith

apart : {i j : ℕ} → j ≢ i → (j < i) ⊎ (i + 1 ≤ j)
apart {i} {j} ne = grind arith

widen : {i j : ℕ} (n : ℕ) → ((j < i) ⊎ (i + suc n ≤ j)) → (j < i + 1) ⊎ (i + 1 + n ≤ j)
widen n (inl l) = inl (omega arith)
widen n (inr l) = inr (omega arith)

narrow : {i j : ℕ} (n : ℕ) → ((j < i) ⊎ (i + suc n ≤ j)) → (j < i) ⊎ (i + 1 ≤ j)
narrow n (inl l) = inl l
narrow n (inr l) = inr (omega arith)

put_self : (f : ℕ → ProcInfo) (i j : ℕ) (p : ProcInfo) → j ≡ i → put_at f i p j ≡ p
put_self f i j p e = rw (eq→== j i e) refl

put_other : (f : ℕ → ProcInfo) (i j : ℕ) (p : ProcInfo) → j ≢ i → put_at f i p j ≡ f j
put_other f i j p ne = rw (ne→== j i ne) refl

module _ (fuel : ℕ) (o : Outside) (own : ℕ) (ids : ℕ → ℕ)
    (register : (h : List Event) (base : ℕ) → o.register h base apic_id ≡ own)
    (down : CountsDown o fuel) (answers : (i : ℕ) → ids i ≢ own → Answers o fuel i (ids i)) where
  round-Booted :
      (ii : ℕ) (m : Machine)
      → ((info m ii).lapic_id ≡ ids ii)
      → (m' : Machine) × (boot_or_mark fuel o ii m ≡ some m') × Booted own ids 1 ii m m'
  unfolding boot_or_mark messages called
  round-Booted ii m e = elim (ℕ_discrete (ids ii) own) [
    | yes same ↦ (
      mark ii (apic_read o m.base apic_id m),
      rw (register m.history m.base, e, eq→== (ids ii) own same) refl,
      record {
        history = rw (eq→== (ids ii) own same) refl;
        base = refl;
        marked = λ j le lt s.
            put_self (info m) ii j (mark_bp (info m ii)) (omega arith)
            ∙ ap (λ t. mark_bp (info m t)) (omega arith);
        others = λ j ne. put_other (info m) ii j (mark_bp (info m ii)) (λ t. ne (ap ids t ∙ same));
        outside = λ j out. put_other (info m) ii j (mark_bp (info m ii)) (λ t. not_both t out);
      },
    )
    | no other ↦
        let next = apic_read o m.base apic_id m in
        let (m', eq, s) = boot_cpu-Sent fuel o ii (ids ii) next down (answers ii other) in
        (
          m',
          rw
              (ne→== (info m ii).lapic_id (register_at o m.base apic_id m)
                (λ t. other (sym e ∙ t ∙ register m.history m.base)))
              (subst (λ t. boot_cpu fuel o ii t next ≡ some m') (sym e) eq),
          record {
            history = rw (ne→== (ids ii) own other) s.history;
            base = s.base;
            marked = λ j le lt t. absurd (other (ap ids (omega arith) ∙ t));
            others = λ j ne. ap (λ c. c.mp_cpu_info j) s.cpus;
            outside = λ j out. ap (λ c. c.mp_cpu_info j) s.cpus;
          },
        )
  ]

  keeps_ids :
      (ii : ℕ) {m m' : Machine}
      → Booted own ids 1 ii m m'
      → ((j : ℕ) → (info m j).lapic_id ≡ ids j)
      → (j : ℕ) → (info m' j).lapic_id ≡ ids j
  keeps_ids ii h e j = elim (ℕ_discrete (ids j) own) [
    | no other ↦ ap (λ p. p.lapic_id) (h.others j other) ∙ e j
    | yes same ↦ elim (ℕ_discrete j ii) [
      | yes here ↦ ap (λ p. p.lapic_id) (h.marked j (omega arith) (omega arith) same) ∙ e j
      | no away ↦ ap (λ p. p.lapic_id) (h.outside j (apart away)) ∙ e j
    ]
  ]

  Booted-suc :
      (n ii : ℕ) {m m1 m' : Machine}
      → Booted own ids 1 ii m m1
      → Booted own ids n (ii + 1) m1 m'
      → Booted own ids (suc n) ii m m'
  unfolding called
  Booted-suc n ii {m} {m1} {m'} a b = record {
    history =
        b.history
        ∙ ap₂ (λ base h. called base own ids n (ii + 1) ++ h) a.base a.history
        ∙ sym (
            append_assoc (called m.base own ids n (ii + 1)) (called m.base own ids 1 ii)
              (messages m.history));
    base = b.base ∙ a.base;
    marked = λ j le lt s. elim (ℕ_discrete j ii) [
      | yes here ↦ b.outside j (inl (omega arith)) ∙ a.marked j le (omega arith) s
      | no away ↦ b.marked j (omega arith) (omega arith) s ∙ ap mark_bp (a.outside j (apart away))
    ];
    others = λ j ne. b.others j ne ∙ a.others j ne;
    outside = λ j out. b.outside j (widen n out) ∙ a.outside j (narrow n out);
  }

  pub boot_loop-Booted :
      (n ii : ℕ) (m : Machine)
      → ((j : ℕ) → (info m j).lapic_id ≡ ids j)
      → (m' : Machine) × (boot_loop fuel o n ii m ≡ some m') × Booted own ids n ii m m'
  unfolding boot_loop called
  boot_loop-Booted zero ii m e = (
    m,
    refl,
    record {
      history = refl;
      base = refl;
      marked = λ j le lt s. absurd (omega arith);
      others = λ j ne. refl;
      outside = λ j out. refl;
    },
  )
  boot_loop-Booted (suc n) ii m e =
      let (m1, e1, h1) = round-Booted ii m (e ii) in
      let (m', e2, h2) = boot_loop-Booted n (ii + 1) m1 (keeps_ids ii h1 e) in
      (m', then_some _ e1 e2, Booted-suc n ii h1 h2)
