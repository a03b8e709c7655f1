-- ===== src/LinearCode/Functions.antt =====
-- 502.linearcode: the functions that the calls reach.
use rtbench.Common.{
  ℕ, zero, suc, ◌+◌, ◌*◌, ◌%◌, ◌^◌, ◌≤◌, ◌<◌, ◌≡◌, refl, ap, subst, ◌∙◌, arith, ◌⊎◌, inl, inr,
}
use rtbench.Memory.{Mem, read32}
use native.Mathlib.Nat.{mod-lt}
use rtbench.LinearCode.{store32, copy_myproc, build_functions, main_502, functions_number}
use rtbench.LinearCode.Calls.{read32-store32, IsCall, sequence, build_calls-IsCall}

-- The eight bytes at `p` are MOV RCX, `value` and RET.
pub record IsFunction (m : Mem) (p val : ℕ) : Type 0 where
  pub mov : (m p ≡ 0x48) × (m (p + 1) ≡ 0xc7) × (m (p + 2) ≡ 0xc1)
  pub immediate : read32 m (p + 3) ≡ val
  pub ret : m (p + 7) ≡ 0xc3

abbrev one_function : Mem → ℕ → ℕ → ℕ → Mem
one_function m functions data_at i =
    store32 (copy_myproc m (functions + i * 64)) (functions + 3 + i * 64)
      ((data_at + i * 8) % 2 ^ 32)

one_function_frame :
    (m : Mem) (functions data_at i x : ℕ)
    → (x < functions + i * 64) ⊎ (functions + i * 64 + 8 ≤ x)
    → one_function m functions data_at i x ≡ m x
unfolding store32 copy_myproc
one_function_frame m functions data_at i x h = ground arith

one_function-IsFunction :
    (m : Mem) (functions data_at i : ℕ)
    → IsFunction
        (one_function m functions data_at i)
        (functions + i * 64)
        ((data_at + i * 8) % 2 ^ 32)
unfolding store32 copy_myproc
one_function-IsFunction m functions data_at i = record {
  mov = (ground arith, ground arith, ground arith);
  immediate =
      ap (λ p. read32 (one_function m functions data_at i) p) (omega arith)
      ∙ read32-store32 (copy_myproc m (functions + i * 64)) (functions + 3 + i * 64)
          ((data_at + i * 8) % 2 ^ 32) (omega arith);
  ret = ground arith;
}

IsFunction-move :
    {m m' : Mem} {p p' v : ℕ}
    → ((x : ℕ) → p ≤ x → x < p + 8 → m' x ≡ m x)
    → p ≡ p'
    → IsFunction m p v
    → IsFunction m' p' v
IsFunction-move {m} {m'} {p} {p'} {v} same e h =
    subst (λ q. IsFunction m' q v) e
      (record {
        mov = (
          same p (omega arith) (omega arith) ∙ h.mov.0,
          same (p + 1) (omega arith) (omega arith) ∙ h.mov.1,
          same (p + 2) (omega arith) (omega arith) ∙ h.mov.2,
        );
        immediate = omega (
          arith,
          h.immediate,
          same (p + 3) (omega arith) (omega arith),
          same (p + 3 + 1) (omega arith) (omega arith),
          same (p + 3 + 2) (omega arith) (omega arith),
          same (p + 3 + 2 + 1) (omega arith) (omega arith),
        );
        ret = same (p + 7) (omega arith) (omega arith) ∙ h.ret;
      })

module _ (functions data_at : ℕ) where
  build_functions_frame :
      (m : Mem) (i n x : ℕ)
      → (x < functions + i * 64) ⊎ (functions + (i + n) * 64 ≤ x)
      → build_functions m functions data_at i n x ≡ m x
  unfolding build_functions
  build_functions_frame m i zero x h = refl
  build_functions_frame m i (suc n) x h =
      build_functions_frame (one_function m functions data_at i) (i + 1) n x
        (elim h [ inl l ↦ inl (omega arith) | inr l ↦ inr (omega arith) ])
      ∙ one_function_frame m functions data_at i x
          (elim h [ inl l ↦ inl (omega arith) | inr l ↦ inr (omega arith) ])

  build_functions-from :
      (m : Mem) (i n k : ℕ)
      → k < n
      → IsFunction
          (build_functions m functions data_at i n)
          (functions + (i + k) * 64)
          ((data_at + (i + k) * 8) % 2 ^ 32)
  unfolding build_functions
  build_functions-from m i zero k lt = absurd (omega arith)
  build_functions-from m i (suc n) zero lt =
      subst
        (λ j.
          IsFunction
            (build_functions (one_function m functions data_at i) functions data_at (i + 1) n)
            (functions + j * 64) ((data_at + j * 8) % 2 ^ 32))
        {x = i} (omega arith)
        (IsFunction-move
          (λ x ge le.
            build_functions_frame (one_function m functions data_at i) (i + 1) n x
              (inl (omega arith)))
          refl (one_function-IsFunction m functions data_at i))
  build_functions-from m i (suc n) (suc k) lt =
      subst
        (λ j.
          IsFunction
            (build_functions (one_function m functions data_at i) functions data_at (i + 1) n)
            (functions + j * 64) ((data_at + j * 8) % 2 ^ 32))
        (omega arith)
        (build_functions-from (one_function m functions data_at i) (i + 1) n k (omega arith))

sequence-lt : (modulus a b c k : ℕ) → c < modulus → sequence modulus a b c k < modulus
unfolding sequence
sequence-lt modulus a b c zero h = h
sequence-lt modulus a b c (suc k) h =
    sequence-lt modulus a b ((a * c + b) % modulus) k (mod-lt (a * c + b) (omega arith))

-- Where the two areas do not overlap, the code that `main_502` runs is 2^20 times CALL of one of the 8192
-- functions and ADD, then RET, and each function called is MOV RCX of the address of its eight bytes
-- of data and RET.
pub main_502-IsCall :
    (m : Mem) (calls functions data_at : ℕ)
    → calls < 2 ^ 32
    → (functions + 8192 * 64 ≤ calls) ⊎ (calls + 10485761 ≤ functions)
    → let m' = main_502 m calls functions data_at in
      ((k : ℕ)
        → k < 1024 * 1024
        → (c : ℕ) × (c < 8192)
          × IsCall m' (calls + k * 10) (functions + c * 64)
          × IsFunction m' (functions + c * 64) ((data_at + c * 8) % 2 ^ 32))
      × (m' (calls + 10485760) ≡ 0xc3)
unfolding main_502
main_502-IsCall m calls functions data_at small apart =
    let built : Mem = build_functions m functions data_at 0 functions_number in
    let (code, ret, frame) =
      build_calls-IsCall built calls functions (1024 * 1024) 8192 509 509 small (omega arith) in
    (
      λ k lt.
          let c : ℕ = sequence 8192 509 509 509 k in
          let below : c < 8192 = sequence-lt 8192 509 509 509 k (omega arith) in
          (
            c,
            below,
            code k lt,
            IsFunction-move
                (λ x ge le.
                  frame x (elim apart [ inl l ↦ inl (omega arith) | inr l ↦ inr (omega arith) ]))
                refl
                (subst (λ j. IsFunction built (functions + j * 64) ((data_at + j * 8) % 2 ^ 32))
                  {x = 0 + c} (omega arith)
                  (build_functions-from functions data_at m 0 8192 c below)),
          ),
      ret,
    )
