-- ===== src/Mp/Acpi/Scan.antt =====
-- mp.c: `ACPIScan` from the RSDP to the list of processors.
use rtbench.Common.{
  ℕ, ◌+◌, ◌-◌, ◌*◌, ◌/◌, ◌%◌, ◌<◌, ◌≡◌, ◌≢◌, min, refl, sym, ap, subst, ◌∙◌, true, false,
  Bool-cases, ◌⊎◌, inl, inr, Option, none, some, arith, ◌==◌, ==→eq, ne→==, List, length,
}
use rtbench.Common.Int.{ℤ}
use rtbench.Memory.{Mem, read32}
use rtbench.Memory.Laws.{Compared, same, larger, smaller, memcmp-Compared}
use rtbench.Mp.{Cpus, bios_ebda, mp_search_sz}
use rtbench.Mp.Search.{IsFirst, nowhere, found, first_at-IsFirst}
use rtbench.Mp.Acpi.{
  Outside, Acpi, dummy, mp_max_procs, is_zero, same_bytes, sub32, loop_bound, find_rsdp, find_madt,
  madt_loop, scan_madt, scan_headers, use_dummy, acpi_scan,
}
use rtbench.Mp.Acpi.Madt.{IsMadt, Listed, madt_loop-Walked}

is_zero-same :
    {m : Mem} {p q n : ℕ} {r : ℤ}
    → Compared m p q n r
    → is_zero r ≡ true
    → (i : ℕ) → i < n
    → m (p + i) ≡ m (q + i)
is_zero-same (same h) z = h
is_zero-same (larger k lt h d) z = ground arith
is_zero-same (smaller k lt h d) z = ground arith

-- The eight bytes at `p` are the signature of the RSDP.
abbrev pub HasSignature : Outside → Mem → ℕ → Type 0
HasSignature o m p = (i : ℕ) → i < 8 → m (p + i) ≡ m (o.rsdp_str + i)

-- A result of `find_rsdp`: the signature at a multiple of 16 behind the start of one of the two
-- areas, or no match in either.
abbrev pub RsdpFound : Outside → Mem → Option ℕ → Type 0
RsdpFound o m (some p) =
    HasSignature o m p
    × (((k : ℕ) × (k < 4096) × (p ≡ bios_ebda + k * 16))
        ⊎ ((k : ℕ) × (k < 8192) × (p ≡ 0xE0000 + k * 16)))
RsdpFound o m none =
    ((k : ℕ) → k < 4096 → same_bytes m (bios_ebda + k * 16) o.rsdp_str 8 ≡ false)
    × ((k : ℕ) → k < 8192 → same_bytes m (0xE0000 + k * 16) o.rsdp_str 8 ≡ false)

first-RsdpFound :
    (o : Outside) (m : Mem) {r1 r2 : Option ℕ}
    → IsFirst (λ p. same_bytes m p o.rsdp_str 8) 16 bios_ebda (mp_search_sz / 16) r1
    → IsFirst (λ p. same_bytes m p o.rsdp_str 8) 16 0xE0000 ((0xFFFFF - 0xE0000 + 15) / 16) r2
    → RsdpFound o m (elim r1 [ some q ↦ some q | none ↦ r2 ])
first-RsdpFound o m (found k lt h {q} e t) s =
    (is_zero-same (memcmp-Compared m q o.rsdp_str 8) t, inl (k, lt, e))
first-RsdpFound o m (nowhere n) (nowhere n') = (n, n')
first-RsdpFound o m (nowhere n) (found k lt h {q} e t) =
    (is_zero-same (memcmp-Compared m q o.rsdp_str 8) t, inr (k, lt, e))

-- An RSDP that the scan finds begins with the eight bytes of the signature and stands at a multiple
-- of 16 behind 0x9FC00, in 64 KB, or behind 0xE0000, in 128 KB; where it finds none, `memcmp` told
-- each of these places from the signature.
pub find_rsdp-RsdpFound : (o : Outside) (m : Mem) → RsdpFound o m (find_rsdp o m)
unfolding find_rsdp
find_rsdp-RsdpFound o m = first-RsdpFound o m (first_at-IsFirst _ _ _ _) (first_at-IsFirst _ _ _ _)

use_dummy_lem :
    (a : Acpi)
    → ((use_dummy a).cpus ≡ a.cpus)
      × ((use_dummy a).dummy_lapic ≡ a.dummy_lapic)
      × (a.cpus.glbl_num_cpus ≢ 0 → (use_dummy a).glbl_mp_cfg_ptr ≡ dummy)
unfolding use_dummy
use_dummy_lem a = elim (Bool-cases (a.cpus.glbl_num_cpus == 0)) [
  | inl e ↦ rw e (refl, refl, λ h. absurd (h (==→eq _ _ e)))
  | inr n ↦ rw n (refl, refl, λ h. refl)
]

scan_headers_lem :
    (fuel : ℕ) (o : Outside) (m : Mem) (a : Acpi) {rsdt madt : ℕ} {c : Cpus}
    → rsdt ≢ 0
    → same_bytes m rsdt o.rsdt_str 4 ≡ true
    → find_madt o m rsdt ≡ some madt
    → madt_loop fuel
        (o.apic_ver (read32 m (madt + 36)) % 256)
        o.cpuid
        m
        (madt + 44)
        (loop_bound (sub32 (read32 m (madt + 4)) 44))
        0
        a.cpus
      ≡ some c
    → scan_headers fuel o m rsdt a
      ≡ some (record a { cpus = c; dummy_lapic = read32 m (madt + 36) })
unfolding scan_headers scan_madt
scan_headers_lem fuel o m a {rsdt} {madt} ne sig h e =
    rw (ne→== rsdt 0 ne) (rw sig (rw h (rw e refl)))

-- Where the RSDP leads to an RSDT with its signature, the RSDT to a MADT, each structure of the
-- MADT has a length and the fuel exceeds the bytes of the structures, `ACPIScan` returns: it has
-- listed the enabled local APICs at `qs` in order, up to MP_MAX_PROCS, with the address of the LAPIC,
-- and `glblMpCfgPtr` points to its own table when there are any.
pub acpi_scan-Listed :
    (fuel : ℕ) (o : Outside) (m : Mem) (a : Acpi) {rsdp madt : ℕ} {qs : List ℕ}
    → find_rsdp o m ≡ some rsdp
    → read32 m (rsdp + 16) ≢ 0
    → same_bytes m (read32 m (rsdp + 16)) o.rsdt_str 4 ≡ true
    → find_madt o m (read32 m (rsdp + 16)) ≡ some madt
    → IsMadt m (madt + 44) (loop_bound (sub32 (read32 m (madt + 4)) 44)) 0 qs
    → loop_bound (sub32 (read32 m (madt + 4)) 44) < fuel
    → (a' : Acpi) × (acpi_scan fuel o m a ≡ some a')
      × (a'.cpus.glbl_num_cpus ≡ min mp_max_procs (length qs))
      × Listed (o.apic_ver (read32 m (madt + 36)) % 256) o.cpuid m a'.cpus 0 qs
      × (a'.dummy_lapic ≡ read32 m (madt + 36))
      × (length qs ≢ 0 → a'.glbl_mp_cfg_ptr ≡ dummy)
unfolding acpi_scan
acpi_scan-Listed fuel o m a {rsdp} {madt} {qs} r ne sig h t enough =
    let c : Cpus = record a.cpus { glbl_num_cpus = 0 } in
    let (c', e, w) =
      madt_loop-Walked (o.apic_ver (read32 m (madt + 36)) % 256) o.cpuid m (madt + 44)
        (loop_bound (sub32 (read32 m (madt + 4)) 44)) fuel t (omega arith) c (omega arith) in
    let a1 : Acpi = record {
      cpus = c';
      dummy_lapic = read32 m (madt + 36);
      glbl_mp_cfg_ptr = a.glbl_mp_cfg_ptr;
    } in
    let d = use_dummy_lem a1 in
    (
      use_dummy a1,
      rw r
          (rw (scan_headers_lem fuel o m (record a { cpus = c; dummy_lapic = 0 }) ne sig h e) refl),
      ap (λ c. c.glbl_num_cpus) d.0 ∙ w.count ∙ omega arith,
      subst (λ c. Listed (o.apic_ver (read32 m (madt + 36)) % 256) o.cpuid m c 0 qs) (sym d.0)
          w.entries,
      d.1,
      λ ne. d.2 (omega (arith, w.count)),
    )

-- Without an RSDP `ACPIScan` returns 0 and leaves `glblMpCfgPtr` as it was, for any fuel.
pub acpi_scan-none :
    (fuel : ℕ) (o : Outside) (m : Mem) (a : Acpi)
    → find_rsdp o m ≡ none
    → (a' : Acpi) × (acpi_scan fuel o m a ≡ some a')
      × (a'.cpus.glbl_num_cpus ≡ 0)
      × (a'.glbl_mp_cfg_ptr ≡ a.glbl_mp_cfg_ptr)
unfolding acpi_scan use_dummy
acpi_scan-none fuel o m a e = (
  use_dummy (record a { cpus = record a.cpus { glbl_num_cpus = 0 }; dummy_lapic = 0 }),
  rw e refl,
  refl,
  refl,
)
