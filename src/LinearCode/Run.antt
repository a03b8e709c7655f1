-- ===== src/LinearCode/Run.antt =====
-- 502.linearcode: the generated code, run.
use rtbench.Common.{
  ℕ, zero, suc, ◌+◌, ◌-◌, ◌*◌, ◌%◌, ◌^◌, ◌≤◌, ◌<◌, ◌≡◌, refl, ap, subst, ◌∙◌, arith, ◌⊎◌, List, ◌∷◌,
  Option, some,
}
use rtbench.Memory.{Mem, read32}
use rtbench.LinearCode.{main_502}
use rtbench.LinearCode.Calls.{IsCall}
use rtbench.LinearCode.Functions.{IsFunction, main_502-IsCall}
use rtbench.LinearCode.Machine.{
  Cpu, at, run, run_more, step_call, step_dec, step_mov, step_ret, step_add,
}

-- What a call and the addition behind it do to EAX.
abbrev pub after_call : ℕ → ℕ
after_call eax = ((eax + (2 ^ 32 - 1)) % 2 ^ 32 + 0x02A474B3) % 2 ^ 32

one_call :
    (m : Mem) (n p t v eax ecx : ℕ) (rs : List ℕ) {r : Option Cpu}
    → IsCall m p t
    → IsFunction m t v
    → t + 8 < 2 ^ 32
    → p + 10 < 2 ^ 32
    → run n m (at (p + 10) (after_call eax) v rs) ≡ r
    → run (suc (suc (suc (suc (suc n))))) m (at p eax ecx rs) ≡ r
one_call m n p t v eax ecx rs {r} call function small below rest =
    let dec = (eax + (2 ^ 32 - 1)) % 2 ^ 32 in
    run_more _ m _ (at t eax ecx ((p + 5) ∷ rs))
      (step_call m p t eax ecx rs call (omega arith) (omega arith))
      (run_more _ m _ (at (t + 1) dec ecx ((p + 5) ∷ rs))
        (step_dec m t eax ecx ((p + 5) ∷ rs) function.mov.0 (omega arith))
        (run_more _ m _ (at (t + 1 + 6) dec v ((p + 5) ∷ rs))
          (step_mov m (t + 1) v dec ecx ((p + 5) ∷ rs) function.mov.1
            (ap m (omega arith) ∙ function.mov.2) (ap (read32 m) (omega arith) ∙ function.immediate)
            (omega arith))
          (run_more _ m _ (at (p + 5) dec v rs)
            (step_ret m (t + 1 + 6) dec v (p + 5) rs (ap m (omega arith) ∙ function.ret))
            (run_more n m _ (at (p + 5 + 5) (after_call eax) v rs)
              (step_add m (p + 5) 0x02A474B3 dec v rs call.add.0
                (ap (read32 m) (omega arith) ∙ call.add.1) (omega arith))
              (subst (λ q. run n m (at q (after_call eax) v rs) ≡ r) (omega arith) rest)))))

-- EAX behind `n` calls.
abbrev summed : ℕ → ℕ → ℕ
summed zero eax = eax
summed (suc n) eax = summed n (after_call eax)

summed_lem : (n eax : ℕ) → eax < 2 ^ 32 → summed n eax ≡ (eax + n * 0x02A474B2) % 2 ^ 32
summed_lem zero eax lt = omega (arith, lt)
summed_lem (suc n) eax lt = summed_lem n (after_call eax) (omega arith) ∙ omega (arith, lt)

-- The bytes at the call number `k`, and those of the function that it reaches.
record IsCode (m : Mem) (p : ℕ) : Type 0 where
  function : ℕ
  value : ℕ
  small : function + 8 < 2 ^ 32
  call : IsCall m p function
  body : IsFunction m function value

calls_run :
    (m : Mem) (calls total n j eax ecx r : ℕ) (rs : List ℕ)
    → ((k : ℕ) → k < total → IsCode m (calls + k * 10))
    → m (calls + total * 10) ≡ 0xc3
    → calls + total * 10 < 2 ^ 32
    → j + n ≡ total
    → (ecx' : ℕ) × (run (5 * n + 1) m (at (calls + j * 10) eax ecx (r ∷ rs))
        ≡ some (at r (summed n eax) ecx' rs))
unfolding run
calls_run m calls total zero j eax ecx r rs code ret small all = (
  ecx,
  run_more 0 m _ (at r eax ecx rs)
      (step_ret m (calls + j * 10) eax ecx r rs (ap m (omega arith) ∙ ret)) refl,
)
calls_run m calls total (suc n) j eax ecx r rs code ret small all =
    let here = code j (omega arith) in
    let (ecx', rest) =
      calls_run m calls total n (j + 1) (after_call eax) here.value r rs code ret small
        (omega arith) in
    (
      ecx',
      subst
          (λ f.
            run f m (at (calls + j * 10) eax ecx (r ∷ rs))
            ≡ some (at r (summed (suc n) eax) ecx' rs))
          {x = suc (suc (suc (suc (suc (5 * n + 1)))))} (omega arith)
          (one_call m (5 * n + 1) (calls + j * 10) here.function here.value eax ecx (r ∷ rs)
            here.call here.body here.small (omega arith)
            (subst
              (λ q.
                run (5 * n + 1) m (at q (after_call eax) here.value (r ∷ rs))
                ≡ some (at r (summed (suc n) eax) ecx' rs))
              (omega arith) rest)),
    )

-- Where both areas lie below 2^32 and do not overlap, the code of `main_502`, called with a return address
-- on the stack, returns there after 5 * 2^20 + 1 instructions, with the stack as it was and 2^20 times
-- 0x02A474B2 added to EAX.
pub main_502-Returned :
    (m : Mem) (calls functions data_at eax ecx r : ℕ) (rs : List ℕ)
    → calls + 10485761 ≤ 2 ^ 32
    → functions + 8192 * 64 ≤ 2 ^ 32
    → (functions + 8192 * 64 ≤ calls) ⊎ (calls + 10485761 ≤ functions)
    → eax < 2 ^ 32
    → (ecx' : ℕ) × (run
          (5 * (1024 * 1024) + 1)
          (main_502 m calls functions data_at)
          (record { eip = calls; eax = eax; ecx = ecx; returns = r ∷ rs })
        ≡ some (record {
          eip = r;
          eax = (eax + 1024 * 1024 * 0x02A474B2) % 2 ^ 32;
          ecx = ecx';
          returns = rs;
        }))
main_502-Returned m calls functions data_at eax ecx r rs below below' apart lt =
    let m' = main_502 m calls functions data_at in
    let (code, ret) = main_502-IsCall m calls functions data_at (omega arith) apart in
    let is_code : (k : ℕ) → k < 1024 * 1024 → IsCode m' (calls + k * 10) = λ k le.
      let (c, few, call, body) = code k le in
      record {
        function = functions + c * 64;
        value = (data_at + c * 8) % 2 ^ 32;
        small = omega arith;
        call = call;
        body = body;
      } in
    let (ecx', done) =
      calls_run m' calls (1024 * 1024) (1024 * 1024) 0 eax ecx r rs is_code ret (omega arith)
        refl in
    (
      ecx',
      subst
          (λ q.
            run (5 * (1024 * 1024) + 1) m' (at q eax ecx (r ∷ rs))
            ≡ some (at r ((eax + 1024 * 1024 * 0x02A474B2) % 2 ^ 32) ecx' rs))
          (omega arith) (done ∙ ap (λ x. some (at r x ecx' rs)) (summed_lem (1024 * 1024) eax lt)),
    )
