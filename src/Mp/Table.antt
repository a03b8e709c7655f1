-- ===== src/Mp/Table.antt =====
-- mp.c: `mp_parse_config_table` against a description of the table as a list of entries.
use rtbench.Common.{
  ℕ, zero, suc, ◌+◌, ◌%◌, ◌≤◌, ◌<◌, ◌≡◌, refl, subst, ◌∙◌, Bool-cases, inl, inr, arith, ◌==◌,
  if◌then◌else◌, eq→==, ne→==, le→leb, gt→leb, List, [], ◌∷◌, length, bit_and,
}
use rtbench.Memory.{Mem, read16, read32}
use rtbench.Mp.{Cpus, put_at, add_cpu, parse_entry, parse_loop, mp_parse_config_table}

-- What `struct mp_proc_entry` says of a processor.
pub record Proc : Type 0 where
  pub lapic_id : ℕ
  pub lapic_ver : ℕ
  pub cpu_flags : ℕ
  pub cpu_sig : ℕ
  pub feature_flags : ℕ

pub data Entry : Type 0 where
  processor : Proc → Entry
  other : Entry

abbrev proc_at : Mem → ℕ → Proc
proc_at m p = record {
  lapic_id = m (p + 1);
  lapic_ver = m (p + 2);
  cpu_flags = m (p + 3);
  cpu_sig = read32 m (p + 4);
  feature_flags = read32 m (p + 8);
}

-- The entries `es` stand one behind the other from `p`: 20 bytes of type 0 for a processor, 8 of a
-- type from 1 to 4 for any other.
pub data IsTable (m : Mem) : ℕ → List Entry → Type 0 where
  no_entry : {p : ℕ} → IsTable m p []
  processor_at :
      {p : ℕ} {es : List Entry}
      → m p ≡ 0
      → IsTable m (p + 20) es
      → IsTable m p (processor (proc_at m p) ∷ es)
  other_at :
      {p : ℕ} {es : List Entry}
      → 0 < m p
      → m p ≤ 4
      → IsTable m (p + 8) es
      → IsTable m p (other ∷ es)

-- The processors of the table that have the flag MP_PROC_ENABLE, in order.
unfoldable pub enabled : List Entry → List Proc
enabled [] = []
enabled (processor c ∷ es) =
    let rest = enabled es in if bit_and c.cpu_flags 1 == 0 then rest else c ∷ rest
enabled (other ∷ es) = enabled es

-- The processors `ps` are noted under the numbers from `k`.
pub data Noted (c : Cpus) : ℕ → List Proc → Type 0 where
  none_left : {k : ℕ} → Noted c k []
  noted :
      {k : ℕ} {q : Proc} {ps : List Proc}
      → c.mp_cpu_info k ≡ (record {
        cpu_id = k % 256;
        lapic_id = q.lapic_id;
        lapic_ver = q.lapic_ver;
        cpu_flags = q.cpu_flags;
        cpu_sig = q.cpu_sig;
        feature_flags = q.feature_flags;
      })
      → c.cpu_apic_id_map k ≡ q.lapic_id
      → Noted c (suc k) ps
      → Noted c k (q ∷ ps)

-- Later entries do not touch the numbers given before.
pub record Kept (c c' : Cpus) : Type 0 where
  pub info : (k : ℕ) → k < c.glbl_num_cpus → c'.mp_cpu_info k ≡ c.mp_cpu_info k
  pub apic_ids : (k : ℕ) → k < c.glbl_num_cpus → c'.cpu_apic_id_map k ≡ c.cpu_apic_id_map k

pub record Parsed (c c' : Cpus) (ps : List Proc) : Type 0 where
  pub count : c'.glbl_num_cpus ≡ c.glbl_num_cpus + length ps
  pub entries : Noted c' c.glbl_num_cpus ps
  pub kept : Kept c c'

Parsed-none : (c : Cpus) → Parsed c c []
Parsed-none c = record {
  count = omega arith;
  entries = none_left;
  kept = record { info = λ k lt. refl; apic_ids = λ k lt. refl };
}

put_at_ne : {A : Type 0} (f : ℕ → A) {n i : ℕ} (v : A) → i < n → put_at f n v i ≡ f i
put_at_ne f {n} {i} v lt = rw (ne→== i n (omega arith)) refl

put_at_self : {A : Type 0} (f : ℕ → A) (n : ℕ) (v : A) → put_at f n v n ≡ v
put_at_self f n v = rw (eq→== n n refl) refl

Parsed-add :
    (m : Mem) (p : ℕ) (c : Cpus) {c' : Cpus} {ps : List Proc}
    → Parsed (add_cpu m p c) c' ps
    → Parsed c c' (proc_at m p ∷ ps)
unfolding add_cpu
Parsed-add m p c {c'} {ps} r =
    let n : ℕ = c.glbl_num_cpus in
    record {
      count = omega (arith, r.count);
      entries =
          noted (r.kept.info n (omega arith) ∙ put_at_self c.mp_cpu_info n _)
            (r.kept.apic_ids n (omega arith) ∙ put_at_self c.cpu_apic_id_map n _)
            (subst (λ k. Noted c' k ps) (omega arith) r.entries);
      kept = record {
        info = λ k lt. r.kept.info k (omega arith) ∙ put_at_ne c.mp_cpu_info _ lt;
        apic_ids = λ k lt. r.kept.apic_ids k (omega arith) ∙ put_at_ne c.cpu_apic_id_map _ lt;
      };
    }

parse_loop-Parsed :
    {m : Mem} {p : ℕ} {es : List Entry}
    → IsTable m p es
    → (c : Cpus) → Parsed c (parse_loop m (length es) p c) (enabled es)
unfolding parse_loop parse_entry enabled
parse_loop-Parsed no_entry c = Parsed-none c
parse_loop-Parsed {m} {p} (processor_at {es = es} e t) c =
    elim (Bool-cases (bit_and (m (p + 3)) 1 == 0)) [
      | inl off ↦ rw (parse_loop, eq→== _ _ e) (rw off (parse_loop-Parsed t c))
      | inr on ↦
          rw (parse_loop, eq→== _ _ e)
            (rw on (Parsed-add m p c (parse_loop-Parsed t (add_cpu m p c))))
    ]
parse_loop-Parsed {m} {p} (other_at {es = es} pos le t) c =
    rw (parse_loop, ne→== (m p) 0 (omega arith)) (rw (le→leb (m p) 4 le) (parse_loop-Parsed t c))

-- Where the table at `mp_cfg` has the entries `es`, as many as its header says,
-- `mp_parse_config_table` counts the enabled processors and notes each of them under its number, in
-- the order of the table. The number is not compared with MP_MAX_PROCS.
pub mp_parse_config_table-Parsed :
    {m : Mem} (mp_cfg : ℕ) {es : List Entry}
    → IsTable m (mp_cfg + 44) es
    → read16 m (mp_cfg + 34) ≡ length es
    → (c : Cpus)
    → let c' = mp_parse_config_table m mp_cfg c in
      (c'.glbl_num_cpus ≡ length (enabled es)) × Noted c' 0 (enabled es)
unfolding mp_parse_config_table
mp_parse_config_table-Parsed {m} mp_cfg {es} t e c =
    let r = parse_loop-Parsed t (record c { glbl_num_cpus = 0 }) in
    rw e (omega (arith, r.count), r.entries)

-- From an entry of an unknown type on, the loop stands still: no later entry of the table is read,
-- whatever the number of entries that the header gives.
pub parse_loop_unknown : (m : Mem) (n p : ℕ) (c : Cpus) → 4 < m p → parse_loop m n p c ≡ c
unfolding parse_loop parse_entry
parse_loop_unknown m zero p c h = refl
parse_loop_unknown m (suc n) p c h =
    rw (ne→== (m p) 0 (omega arith)) (rw (gt→leb (m p) 4 h) (parse_loop_unknown m n p c h))
