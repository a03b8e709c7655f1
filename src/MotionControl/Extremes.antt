-- ===== src/MotionControl/Extremes.antt =====
-- 501.motioncontrol: the result is the longest of the measured rounds.
use rtbench.Common.{
  ℕ, zero, suc, ◌+◌, ◌-◌, ◌*◌, ◌%◌, ◌^◌, ◌≤◌, ◌<◌, ◌≡◌, ◌⊎◌, inl, inr, refl, sym, ap, ◌∙◌, arith,
  bit_or-eq_add, bit_or_comm, ltb, Bool-cases,
}
use rtbench.MotionControl.{
  ticks_long, Counter, Measured, getticks, ticks_long, delta_tsc, test_ctrl, test_rounds, main_501,
}

-- What the round number `k` from the reading `n` on takes.
abbrev pub round_ticks : Counter → ℕ → ℕ → ℕ
round_ticks o n k = delta_tsc o (n + 18 * k)

-- What `n` rounds make of the two extremes.
pub record AreExtremes (o : Counter) (n : ℕ) (m m' : Measured) : Type 0 where
  pub reads : m'.reads ≡ m.reads + 18 * n
  pub above : (k : ℕ) → k < n → round_ticks o m.reads k ≤ m'.minmax1
  pub below : (k : ℕ) → k < n → m'.minmax0 ≤ round_ticks o m.reads k
  pub raised : m.minmax1 ≤ m'.minmax1
  pub lowered : m'.minmax0 ≤ m.minmax0
  pub attained :
      (m'.minmax1 ≡ m.minmax1) ⊎ ((k : ℕ) × (k < n) × (m'.minmax1 ≡ round_ticks o m.reads k))

-- What one round does, with `d` the time it takes.
record Stepped (d : ℕ) (m m1 : Measured) : Type 0 where
  reads : m1.reads ≡ m.reads + 18
  above : d ≤ m1.minmax1
  below : m1.minmax0 ≤ d
  raised : m.minmax1 ≤ m1.minmax1
  lowered : m1.minmax0 ≤ m.minmax0
  attained : (m1.minmax1 ≡ m.minmax1) ⊎ (m1.minmax1 ≡ d)

test_ctrl-Stepped : (o : Counter) (m : Measured) → Stepped (delta_tsc o m.reads) m (test_ctrl o m)
unfolding test_ctrl
test_ctrl-Stepped o m =
    let d = delta_tsc o m.reads in
    record {
      reads = omega arith;
      above = ground arith;
      below = ground arith;
      raised = ground arith;
      lowered = ground arith;
      attained = elim (Bool-cases (ltb m.minmax1 d)) [
        | inl more ↦ inr (rw more refl)
        | inr less ↦ inl (rw less refl)
      ];
    }

-- One round before others.
Stepped-rounds :
    (o : Counter) (n : ℕ) (m m1 m' : Measured)
    → Stepped (delta_tsc o m.reads) m m1
    → AreExtremes o n m1 m'
    → AreExtremes o (suc n) m m'
Stepped-rounds o n m m1 m' one rest =
    let first : round_ticks o m.reads 0 ≡ delta_tsc o m.reads = ap (delta_tsc o) (omega arith) in
    let next : (k : ℕ) → round_ticks o m1.reads k ≡ round_ticks o m.reads (suc k) =
      λ k. ap (delta_tsc o) (omega (arith, one.reads)) in
    record {
      reads = omega (arith, one.reads, rest.reads);
      above = λ k lt.
          elim k as (λ j. j < suc n → round_ticks o m.reads j ≤ m'.minmax1) [
            | zero ↦ λ lt. omega (arith, first, one.above, rest.raised)
            | suc j ↦ λ lt. omega (arith, next j, rest.above j (omega arith))
          ]
            lt;
      below = λ k lt.
          elim k as (λ j. j < suc n → m'.minmax0 ≤ round_ticks o m.reads j) [
            | zero ↦ λ lt. omega (arith, first, one.below, rest.lowered)
            | suc j ↦ λ lt. omega (arith, next j, rest.below j (omega arith))
          ]
            lt;
      raised = omega (arith, one.raised, rest.raised);
      lowered = omega (arith, one.lowered, rest.lowered);
      attained = elim rest.attained [
        | inl same ↦ elim one.attained [
          | inl old ↦ inl (same ∙ old)
          | inr new ↦ inr (0, omega arith, same ∙ new ∙ sym first)
        ]
        | inr (k, lt, e) ↦ inr (suc k, omega arith, e ∙ next k)
      ];
    }

test_rounds-AreExtremes :
    (o : Counter) (n : ℕ) (m : Measured) → AreExtremes o n m (test_rounds o n m)
unfolding test_rounds
test_rounds-AreExtremes o zero m = record {
  reads = omega arith;
  above = λ k lt. absurd (omega arith);
  below = λ k lt. absurd (omega arith);
  raised = omega arith;
  lowered = omega arith;
  attained = inl refl;
}
test_rounds-AreExtremes o (suc n) m =
    Stepped-rounds o n m (test_ctrl o m) (test_rounds o n (test_ctrl o m)) (test_ctrl-Stepped o m)
      (test_rounds-AreExtremes o n (test_ctrl o m))

difference :
    (x y a b : ℕ)
    → (x % 2 ^ 32 ≡ a) × (x < 2 ^ 64)
    → (y % 2 ^ 32 ≡ b) × (y < 2 ^ 64)
    → (y + 2 ^ 64 - x) % 2 ^ 32 ≡ (b + 2 ^ 32 - a) % 2 ^ 32
difference x y a b hx hy = omega (arith, hx, hy)

-- What the round number `k` takes by the low halves of the counter alone.
abbrev pub low_ticks : Counter → ℕ → ℕ → ℕ
low_ticks o n k = (o.eax (n + 18 * k + 17) + 2 ^ 32 - o.eax (n + 18 * k)) % 2 ^ 32

-- Both halves are words.
abbrev pub AreWords : Counter → Type 0
AreWords o = (n : ℕ) → (o.eax n < 2 ^ 32) × (o.edx n < 2 ^ 32)

getticks-sum : (o : Counter) (n : ℕ) → AreWords o → getticks o n ≡ o.edx n * 2 ^ 32 + o.eax n
getticks-sum o n words =
    bit_or_comm (o.eax n) (o.edx n * 2 ^ 32) ∙ bit_or-eq_add 32 (o.edx n) (o.eax n) (words n).0

ticks_long-low :
    (o : Counter) (n : ℕ)
    → AreWords o
    → (ticks_long o n % 2 ^ 32 ≡ o.eax n) × (ticks_long o n < 2 ^ 64)
ticks_long-low o n words =
    let low : getticks o n % 2 ^ 32 ≡ o.eax n = omega (arith, getticks-sum o n words, words n) in
    elim (Bool-cases (ltb (o.eax n) (2 ^ 31))) [
      | inl small ↦ rw (low, small) (omega (arith, words n), omega (arith, words n))
      | inr large ↦ rw (low, large) (omega (arith, words n), omega (arith, words n))
    ]

round_ticks-low : (o : Counter) (n k : ℕ) → AreWords o → round_ticks o n k ≡ low_ticks o n k
round_ticks-low o n k words =
    let i = n + 18 * k in
    let behind : i + 1 + 16 ≡ i + 17 = omega arith in
    let early = ticks_long-low o i words in
    let late = ticks_long-low o (i + 17) words in
    ap (λ t. (ticks_long o t + 2 ^ 64 - ticks_long o i) % 2 ^ 32) behind
    ∙ difference (ticks_long o i) (ticks_long o (i + 17)) (o.eax i) (o.eax (i + 17)) early late

-- `main_501` forgets what was measured before and in its three rounds of warming up: it returns the
-- longest of the five rounds behind them, and the other extreme is at most the shortest. A round is
-- measured by the low halves of the counter, which wrap around at 2 ^ 32.
pub main_501-AreExtremes :
    (o : Counter) (m : Measured)
    → AreWords o
    → ((k : ℕ)
        → k < 5
        → (low_ticks o (m.reads + 54) k ≤ (main_501 o m).minmax1)
          × ((main_501 o m).minmax0 ≤ low_ticks o (m.reads + 54) k))
      × (((main_501 o m).minmax1 ≡ 0)
          ⊎ ((k : ℕ) × (k < 5) × ((main_501 o m).minmax1 ≡ low_ticks o (m.reads + 54) k)))
unfolding main_501
main_501-AreExtremes o m words =
    let warm = test_rounds o 3 m in
    let start = record warm { minmax0 = 1000000; minmax1 = 0 } in
    let all = test_rounds-AreExtremes o 5 start in
    let low : (k : ℕ) → round_ticks o warm.reads k ≡ low_ticks o (m.reads + 54) k = λ k.
      ap (λ t. round_ticks o t k) (omega (arith, (test_rounds-AreExtremes o 3 m).reads))
      ∙ round_ticks-low o (m.reads + 54) k words in
    (
      λ k lt. (omega (arith, low k, all.above k lt), omega (arith, low k, all.below k lt)),
      elim all.attained [ inl e ↦ inl e | inr (k, lt, e) ↦ inr (k, lt, e ∙ low k) ],
    )
