-- ===== src/LinearCode/Tests.antt =====
-- Generated code, looked at.
use rtbench.Common.{[], ◌∷◌, some, ℕ, ◌+◌, ◌*◌, ◌%◌, ◌^◌, ◌≡◌, inl, refl, arith}
use rtbench.Memory.{Mem, read32}
use rtbench.LinearCode.{
  store32, store_add, build_call, build_loop, build_calls, copy_myproc, main_502,
}
use rtbench.LinearCode.Machine.{step, run}
use rtbench.LinearCode.Run.{main_502-Returned}

abbrev blank : Mem
blank a = 0

-- Three calls at 0x1000 of functions at 0x400: the numbers are 5, 2 and 1.
build_runs :
    let m = build_calls blank 0x1000 0x400 3 7 3 5 in
    (m 0x100A ≡ 0xe8)
    × ((0x100A + 5 + read32 m 0x100B) % 2 ^ 32 ≡ 0x400 + 6 * 64)
    × (m 0x101E ≡ 0xc3)
unfolding build_calls build_loop build_call store32 store_add
build_runs = (refl, refl, refl)

-- One call at 0x1000 of the function at 0x400: six instructions.
run_runs :
    run 6
      (build_calls (copy_myproc blank 0x400) 0x1000 0x400 1 1 0 0)
      (record { eip = 0x1000; eax = 5; ecx = 0; returns = 0x77 ∷ [] })
    ≡ some (record { eip = 0x77; eax = 0x02A474B7; ecx = 0x11111111; returns = [] })
unfolding run step build_calls build_loop build_call store32 store_add copy_myproc
run_runs = refl

main_502-Returned_example :
    (ecx' : ℕ) × (run
        (5 * (1024 * 1024) + 1)
        (main_502 blank 0x1000000 0x100000 0x200000)
        (record { eip = 0x1000000; eax = 5; ecx = 0; returns = 0x77 ∷ [] })
      ≡ some (record {
        eip = 0x77;
        eax = (5 + 1024 * 1024 * 0x02A474B2) % 2 ^ 32;
        ecx = ecx';
        returns = [];
      }))
main_502-Returned_example =
    main_502-Returned blank 0x1000000 0x100000 0x200000 5 0 0x77 [] (omega arith) (omega arith)
      (inl (omega arith)) (omega arith)
