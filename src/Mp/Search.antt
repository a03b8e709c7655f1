-- ===== src/Mp/Search.antt =====
-- mp.c: what the searches through memory find.
use rtbench.Common.{
  ℕ, zero, suc, ◌+◌, ◌-◌, ◌*◌, ◌/◌, ◌<◌, ◌≡◌, ◌≢◌, sym, ap, ◌∙◌, Bool, true, false, Bool-cases, inl,
  inr, Option, none, some, arith, ==→eq, ==→ne,
}
use rtbench.Memory.{Mem, read32}
use rtbench.Mp.{
  first_at, has_flt_sig, mp_search_flt_sig, mp_scan, mp_flt_ptr_sig, bios_ebda, bios_base,
  bios_base2, mp_search_sz,
}

-- What a search of `n` places from `p` may return: the first place that passes the test, or none.
pub data IsFirst (test : ℕ → Bool) (stride p n : ℕ) : Option ℕ → Type 0 where
  nowhere : ((k : ℕ) → k < n → test (p + k * stride) ≡ false) → IsFirst test stride p n none
  found :
      (k : ℕ)
      → k < n
      → ((j : ℕ) → j < k → test (p + j * stride) ≡ false)
      → {q : ℕ} → q ≡ p + k * stride
      → test q ≡ true
      → IsFirst test stride p n (some q)

place_suc : (p stride k : ℕ) → p + suc k * stride ≡ p + stride + k * stride
place_suc p stride k = omega arith

module _ (test : ℕ → Bool) (stride p : ℕ) (fails : test p ≡ false) where
  fails_suc :
      (n : ℕ)
      → ((k : ℕ) → k < n → test (p + stride + k * stride) ≡ false)
      → (k : ℕ) → k < suc n
      → test (p + k * stride) ≡ false
  fails_suc n h zero lt = ap test (omega arith) ∙ fails
  fails_suc n h (suc k) lt = ap test (place_suc p stride k) ∙ h k (omega arith)

  IsFirst-suc :
      (n : ℕ) {r : Option ℕ}
      → IsFirst test stride (p + stride) n r
      → IsFirst test stride p (suc n) r
  IsFirst-suc n (nowhere h) = nowhere (fails_suc n h)
  IsFirst-suc n (found k lt h e t) =
      found (suc k) (omega arith) (fails_suc k h) (e ∙ sym (place_suc p stride k)) t

pub first_at-IsFirst :
    (test : ℕ → Bool) (stride p n : ℕ) → IsFirst test stride p n (first_at test stride p n)
unfolding first_at
first_at-IsFirst test stride p zero = nowhere (λ k lt. elim lt [ ])
first_at-IsFirst test stride p (suc n) = elim (Bool-cases (test p)) [
  | inl t ↦ rw t (found 0 (omega arith) (λ j lt. elim lt [ ]) (omega arith) t)
  | inr f ↦ rw f (IsFirst-suc test stride p f n (first_at-IsFirst test stride (p + stride) n))
]

-- No word from `base` to `limit` is the signature.
abbrev pub NoSig : Mem → ℕ → ℕ → Type 0
NoSig m base limit = (k : ℕ) → base + k * 4 < limit → read32 m (base + k * 4) ≢ mp_flt_ptr_sig

-- The first word from `base` to `limit` that is the signature stands at `p`.
pub record FirstSig (m : Mem) (base limit p : ℕ) : Type 0 where
  pub words : ℕ
  pub place : p ≡ base + words * 4
  pub inside : p < limit
  pub sig : read32 m p ≡ mp_flt_ptr_sig
  pub before : NoSig m base p

pub data Searched (m : Mem) (base limit : ℕ) : Option ℕ → Type 0 where
  no_sig : NoSig m base limit → Searched m base limit none
  first_sig : {p : ℕ} → FirstSig m base limit p → Searched m base limit (some p)

IsFirst-Searched :
    (m : Mem) (base limit : ℕ) {r : Option ℕ}
    → IsFirst (has_flt_sig m) 4 base ((limit - base + 3) / 4) r
    → Searched m base limit r
IsFirst-Searched m base limit (nowhere h) = no_sig (λ k lt. ==→ne _ _ (h k (omega arith)))
IsFirst-Searched m base limit (found k lt h e t) = first_sig (record {
  words = k;
  place = e;
  inside = omega arith;
  sig = ==→eq _ _ t;
  before = λ j below. ==→ne _ _ (h j (omega arith));
})

-- `mp_search_flt_sig` returns the first word from `base` to `limit` that is the signature, and NULL
-- when none is.
pub mp_search_flt_sig-Searched :
    (m : Mem) (base limit : ℕ) → Searched m base limit (mp_search_flt_sig m base limit)
unfolding mp_search_flt_sig
mp_search_flt_sig-Searched m base limit =
    IsFirst-Searched m base limit (first_at-IsFirst (has_flt_sig m) 4 base ((limit - base + 3) / 4))

-- What `mp_scan` may return: the first signature of the first area that has one.
pub data Scanned (m : Mem) : Option ℕ → Type 0 where
  in_ebda : {p : ℕ} → FirstSig m bios_ebda (bios_ebda + mp_search_sz) p → Scanned m (some p)
  in_bios :
      {p : ℕ}
      → NoSig m bios_ebda (bios_ebda + mp_search_sz)
      → FirstSig m bios_base (bios_base + mp_search_sz) p
      → Scanned m (some p)
  in_bios2 :
      {p : ℕ}
      → NoSig m bios_ebda (bios_ebda + mp_search_sz)
      → NoSig m bios_base (bios_base + mp_search_sz)
      → FirstSig m bios_base2 (bios_base2 + mp_search_sz) p
      → Scanned m (some p)
  in_none :
      NoSig m bios_ebda (bios_ebda + mp_search_sz)
      → NoSig m bios_base (bios_base + mp_search_sz)
      → NoSig m bios_base2 (bios_base2 + mp_search_sz)
      → Scanned m none

scan_cases :
    (m : Mem) {r1 r2 r3 : Option ℕ}
    → Searched m bios_ebda (bios_ebda + mp_search_sz) r1
    → Searched m bios_base (bios_base + mp_search_sz) r2
    → Searched m bios_base2 (bios_base2 + mp_search_sz) r3
    → Scanned m (elim r1 [ some p ↦ some p | none ↦ elim r2 [ some p ↦ some p | none ↦ r3 ] ])
scan_cases m (first_sig f) s t = in_ebda f
scan_cases m (no_sig a) (first_sig f) t = in_bios a f
scan_cases m (no_sig a) (no_sig b) (first_sig f) = in_bios2 a b f
scan_cases m (no_sig a) (no_sig b) (no_sig c) = in_none a b c

-- `mp_scan` searches the extended BIOS data area, then 0xF0000 and then 0xE0000, 64 KB each: it
-- returns the first signature of the first area that has one, and NULL when no area has.
pub mp_scan-Scanned : (m : Mem) → Scanned m (mp_scan m)
unfolding mp_scan
mp_scan-Scanned m =
    scan_cases m (mp_search_flt_sig-Searched m bios_ebda (bios_ebda + mp_search_sz))
      (mp_search_flt_sig-Searched m bios_base (bios_base + mp_search_sz))
      (mp_search_flt_sig-Searched m bios_base2 (bios_base2 + mp_search_sz))
