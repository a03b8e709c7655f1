-- ===== src/Mp/Acpi/Madt.antt =====
-- mp.c: the loop of `ACPIScan` over the structures of the MADT.
use rtbench.Common.{
  ℕ, zero, suc, ◌+◌, ◌-◌, ◌≤◌, ◌<◌, ◌≡◌, min, refl, ap, subst, ◌∙◌, true, false, Bool-cases, inl,
  inr, none, some, arith, eq→==, ne→==, lt→ltb, ltb→lt, ltb→le, le→ltb, List, [], ◌∷◌, length, ltb,
}
use rtbench.Memory.{Mem}
use rtbench.Mp.{Cpus}
use rtbench.Mp.Acpi.{mp_max_procs, add_lapic, is_enabled_lapic, madt_loop}

module _ (m : Mem) (base structlen : ℕ) where
  -- The structures from `offset` end at `structlen` or behind it, and those of enabled local APICs
  -- stand at the addresses in the list.
  pub data IsMadt : ℕ → List ℕ → Type 0 where
    end : {offset : ℕ} → structlen ≤ offset → IsMadt offset []
    lapic :
        {offset : ℕ} {qs : List ℕ}
        → offset < structlen
        → is_enabled_lapic m (base + offset) ≡ true
        → 0 < m (base + offset + 1)
        → IsMadt (offset + m (base + offset + 1)) qs
        → IsMadt offset ((base + offset) ∷ qs)
    skip :
        {offset : ℕ} {qs : List ℕ}
        → offset < structlen
        → is_enabled_lapic m (base + offset) ≡ false
        → 0 < m (base + offset + 1)
        → IsMadt (offset + m (base + offset + 1)) qs
        → IsMadt offset qs

-- The entries from number `k` are those of the structures at `qs`, as far as MP_MAX_PROCS allows.
pub data Listed (ver sig : ℕ) (m : Mem) (c : Cpus) : ℕ → List ℕ → Type 0 where
  listed_all : {k : ℕ} → Listed ver sig m c k []
  listed_full : {k : ℕ} {qs : List ℕ} → mp_max_procs ≤ k → Listed ver sig m c k qs
  listed :
      {k q : ℕ} {qs : List ℕ}
      → c.mp_cpu_info k ≡ (record {
        cpu_id = m (q + 2);
        lapic_id = m (q + 3);
        lapic_ver = ver;
        cpu_flags = 0;
        cpu_sig = sig;
        feature_flags = 0;
      })
      → c.cpu_apic_id_map k ≡ m (q + 3)
      → Listed ver sig m c (suc k) qs
      → Listed ver sig m c k (q ∷ qs)

pub record Walked (ver sig : ℕ) (m : Mem) (c : Cpus) (qs : List ℕ) (c' : Cpus) : Type 0 where
  pub count : c'.glbl_num_cpus ≡ min mp_max_procs (c.glbl_num_cpus + length qs)
  pub entries : Listed ver sig m c' c.glbl_num_cpus qs
  pub info : (k : ℕ) → k < c.glbl_num_cpus → c'.mp_cpu_info k ≡ c.mp_cpu_info k
  pub apic_ids : (k : ℕ) → k < c.glbl_num_cpus → c'.cpu_apic_id_map k ≡ c.cpu_apic_id_map k

module _ (ver sig : ℕ) (m : Mem) where
  Walked-end : (c : Cpus) → c.glbl_num_cpus ≤ mp_max_procs → Walked ver sig m c [] c
  Walked-end c le = record {
    count = omega arith;
    entries = listed_all;
    info = λ k lt. refl;
    apic_ids = λ k lt. refl;
  }

  Walked-full : (c : Cpus) (qs : List ℕ) → c.glbl_num_cpus ≡ mp_max_procs → Walked ver sig m c qs c
  Walked-full c qs e = record {
    count = omega arith;
    entries = listed_full (omega arith);
    info = λ k lt. refl;
    apic_ids = λ k lt. refl;
  }

  info_self :
      (c : Cpus) (q : ℕ)
      → (add_lapic ver sig m q c).mp_cpu_info c.glbl_num_cpus ≡ (record {
        cpu_id = m (q + 2);
        lapic_id = m (q + 3);
        lapic_ver = ver;
        cpu_flags = 0;
        cpu_sig = sig;
        feature_flags = 0;
      })
  unfolding add_lapic
  info_self c q = rw (eq→== c.glbl_num_cpus _ refl) refl

  map_self :
      (c : Cpus) (q : ℕ) → (add_lapic ver sig m q c).cpu_apic_id_map c.glbl_num_cpus ≡ m (q + 3)
  unfolding add_lapic
  map_self c q = rw (eq→== c.glbl_num_cpus _ refl) refl

  info_below :
      (c : Cpus) (q k : ℕ)
      → k < c.glbl_num_cpus
      → (add_lapic ver sig m q c).mp_cpu_info k ≡ c.mp_cpu_info k
  unfolding add_lapic
  info_below c q k lt =
      rw (ne→== k c.glbl_num_cpus (omega arith))
        (rw (ne→== k (c.glbl_num_cpus + 1) (omega arith)) refl)

  map_below :
      (c : Cpus) (q k : ℕ)
      → k < c.glbl_num_cpus
      → (add_lapic ver sig m q c).cpu_apic_id_map k ≡ c.cpu_apic_id_map k
  unfolding add_lapic
  map_below c q k lt = rw (ne→== k c.glbl_num_cpus (omega arith)) refl

  num_add : (c : Cpus) (q : ℕ) → (add_lapic ver sig m q c).glbl_num_cpus ≡ suc c.glbl_num_cpus
  unfolding add_lapic
  num_add c q = omega arith

  Walked-add :
      (c : Cpus) (q : ℕ) {qs : List ℕ} {c' : Cpus}
      → Walked ver sig m (add_lapic ver sig m q c) qs c'
      → Walked ver sig m c (q ∷ qs) c'
  Walked-add c q {qs} {c'} w =
      let e : (add_lapic ver sig m q c).glbl_num_cpus ≡ suc c.glbl_num_cpus = num_add c q in
      record {
        count = omega (arith, w.count);
        entries =
            listed (w.info c.glbl_num_cpus (omega arith) ∙ info_self c q)
              (w.apic_ids c.glbl_num_cpus (omega arith) ∙ map_self c q)
              (subst (λ k. Listed ver sig m c' k qs) e w.entries);
        info = λ k lt. w.info k (omega arith) ∙ info_below c q k lt;
        apic_ids = λ k lt. w.apic_ids k (omega arith) ∙ map_below c q k lt;
      }

module _ (ver sig : ℕ) (m : Mem) (base structlen : ℕ) where
  -- Where every structure has a length, fuel above the bytes left is enough, and the loop lists the
  -- enabled local APICs in order, up to MP_MAX_PROCS of them.
  pub madt_loop-Walked :
      (fuel : ℕ) {offset : ℕ} {qs : List ℕ}
      → IsMadt m base structlen offset qs
      → structlen - offset < fuel
      → (c : Cpus) → c.glbl_num_cpus ≤ mp_max_procs
      → (c' : Cpus) × (madt_loop fuel ver sig m base structlen offset c ≡ some c')
        × Walked ver sig m c qs c'
  unfolding madt_loop
  madt_loop-Walked zero t enough c le = absurd (omega arith)
  madt_loop-Walked (suc fuel) {offset} (end out) enough c le =
      (c, rw (le→ltb _ _ out) (ground arith), Walked-end ver sig m c le)
  madt_loop-Walked (suc fuel) {offset} (lapic lt on len t) enough c le =
      elim (Bool-cases (ltb c.glbl_num_cpus 32)) [
        | inl more ↦
            let (c', e, w) =
              madt_loop-Walked fuel t (omega arith) (add_lapic ver sig m (base + offset) c)
                (omega (arith, num_add ver sig m c (base + offset), ltb→lt _ _ more)) in
            (c', rw more (rw (lt→ltb _ _ lt) (rw on e)), Walked-add ver sig m c (base + offset) w)
        | inr full ↦ (c, rw full refl, Walked-full ver sig m c _ (omega (arith, ltb→le _ _ full)))
      ]
  madt_loop-Walked (suc fuel) {offset} {qs} (skip lt off len t) enough c le =
      elim (Bool-cases (ltb c.glbl_num_cpus 32)) [
        | inl more ↦
            let (c', e, w) = madt_loop-Walked fuel t (omega arith) c le in
            (c', rw more (rw (lt→ltb _ _ lt) (rw off e)), w)
        | inr full ↦ (c, rw full refl, Walked-full ver sig m c qs (omega (arith, ltb→le _ _ full)))
      ]

  -- A structure of length 0 that is not an enabled local APIC, with room left in `mpCpuInfo`: the
  -- loop does not end, since no amount of fuel is enough.
  pub madt_loop_stuck :
      (fuel offset : ℕ) (c : Cpus)
      → offset < structlen
      → is_enabled_lapic m (base + offset) ≡ false
      → m (base + offset + 1) ≡ 0
      → c.glbl_num_cpus < mp_max_procs
      → madt_loop fuel ver sig m base structlen offset c ≡ none
  unfolding madt_loop
  madt_loop_stuck zero offset c lt off len room = refl
  madt_loop_stuck (suc fuel) offset c lt off len room =
      rw (lt→ltb c.glbl_num_cpus mp_max_procs room) (
        rw (lt→ltb offset structlen lt) (
          rw off (
            madt_loop_stuck fuel (offset + m (base + offset + 1)) c (omega arith)
              (ap (λ t. is_enabled_lapic m t) (omega arith) ∙ off) (ap m (omega arith) ∙ len)
              room)))
