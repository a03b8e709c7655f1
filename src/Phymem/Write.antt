-- ===== src/Phymem/Write.antt =====
-- phymem.c: what a write leaves in memory, for every length.
use rtbench.Common.{
  ℕ, ◌+◌, ◌*◌, ◌/◌, ◌%◌, ◌^◌, ◌≤◌, ◌<◌, ◌≡◌, ◌≢◌, ◌⊎◌, inl, inr, refl, fun_ext, sym, ◌∙◌, subst,
  arith, ◌==◌, ◌&&◌, if◌then◌else◌, true, false, returned, out_of_bounds, eq→==, ne→==, ℕ_discrete,
}
use rtbench.Memory.{Mem, store}
use rtbench.Memory.Writes.{Written, Written-append, quad, Written-zero}
use rtbench.LinearCode.{store32}
use rtbench.Phymem.{write_memory, fill_memory_with_user_input}
use rtbench.Phymem.Fill.{
  words, store32-words, fill_memory_with_user_input-Filled, fill_memory_with_user_input-outside,
  if_mapped-inside,
}

-- The words that -w stores: the data, or its two halves for a length of 8.
abbrev pub stored_word : ℕ → ℕ → ℕ → ℕ
stored_word span data_word i =
    if span == 8 && i == 1 then data_word / 2 ^ 32 % 2 ^ 32 else data_word % 2 ^ 32

-- The lengths that -w can end for.
abbrev pub IsSpan : ℕ → Type 0
IsSpan span = (span ≡ 1) ⊎ ((span ≡ 2) ⊎ (0 < span) × (span < 2 ^ 32) × (span % 4 ≡ 0))

Written-one : (m : Mem) (p b : ℕ) (c : ℕ → ℕ) → c 0 ≡ b → Written m p 1 c (store m p b)
Written-one m p b c e = record {
  bytes = λ k lt.
      (let first : k ≡ 0 = omega arith in
        let place : (p == p + k) ≡ true = eq→== p (p + k) (omega arith) in
        rw (place, first) (sym e));
  frame = λ a out. ground arith;
}

write_memory-one :
    (fuel : ℕ) (m : Mem) (stop p d : ℕ)
    → p + 1 ≤ stop
    → (m' : Mem) × (write_memory fuel m stop p d 1 ≡ returned m')
      × Written m p 1 (words (stored_word 1 d)) m'
unfolding write_memory quad
write_memory-one fuel m stop p d inside = (
  store m p (d % 256),
  if_mapped-inside stop p 1 inside,
  Written-one m p (d % 256) (words (stored_word 1 d)) (omega arith),
)

write_memory-two :
    (fuel : ℕ) (m : Mem) (stop p d : ℕ)
    → p + 2 ≤ stop
    → (m' : Mem) × (write_memory fuel m stop p d 2 ≡ returned m')
      × Written m p 2 (words (stored_word 2 d)) m'
unfolding write_memory quad
write_memory-two fuel m stop p d inside =
    let m1 = store m p (d % 256) in
    let c = words (stored_word 2 d) in
    let high : c 1 ≡ d / 2 ^ 8 % 256 = omega arith in
    (
      store m1 (p + 1) (d / 2 ^ 8 % 256),
      if_mapped-inside stop p 2 inside,
      Written-append p 1 1 (Written-one m p (d % 256) c (omega arith))
          (Written-one m1 (p + 1) (d / 2 ^ 8 % 256) (λ j. c (1 + j)) high) (λ j lt. refl)
          (λ j lt. refl),
    )

write_memory-four :
    (fuel : ℕ) (m : Mem) (stop p d : ℕ)
    → p + 4 ≤ stop
    → (m' : Mem) × (write_memory fuel m stop p d 4 ≡ returned m')
      × Written m p 4 (words (stored_word 4 d)) m'
unfolding write_memory
write_memory-four fuel m stop p d inside = (
  store32 m p (d % 2 ^ 32),
  if_mapped-inside stop p 4 inside,
  store32-words m (store32 m p (d % 2 ^ 32)) p 0 (d % 2 ^ 32) (stored_word 4 d) (stored_word 4 d)
      (Written-zero (store32 m p (d % 2 ^ 32)) (p + 4)) refl (λ k. refl),
)

write_memory-eight :
    (fuel : ℕ) (m : Mem) (stop p d : ℕ)
    → p + 8 ≤ stop
    → (m' : Mem) × (write_memory fuel m stop p d 8 ≡ returned m')
      × Written m p 8 (words (stored_word 8 d)) m'
unfolding write_memory
write_memory-eight fuel m stop p d inside =
    let v = stored_word 8 d in
    let m1 = store32 m p (d % 2 ^ 32) in
    let m2 = store32 m1 (p + 4) (d / 2 ^ 32 % 2 ^ 32) in
    let second =
      store32-words m1 m2 (p + 4) 0 (d / 2 ^ 32 % 2 ^ 32) (λ k. v (k + 1 + 1)) (λ k. v (k + 1))
        (Written-zero m2 (p + 4 + 4)) refl (λ k. refl) in
    (
      m2,
      if_mapped-inside stop p 8 inside,
      store32-words m m2 p 1 (d % 2 ^ 32) (λ k. v (k + 1)) v second refl (λ k. refl),
    )

-- Every other length is that of the loop.
write_memory-fill :
    (fuel : ℕ) (m : Mem) (stop p d span : ℕ)
    → span < 2 ^ 32
    → span % 4 ≡ 0
    → span ≢ 4
    → span ≢ 8
    → write_memory fuel m stop p d span
      ≡ fill_memory_with_user_input fuel m stop p d (4 * (span / 4))
unfolding write_memory
write_memory-fill fuel m stop p d span small whole not4 not8 =
    let length : span % 2 ^ 32 ≡ 4 * (span / 4) = omega arith in
    let one : (span == 1) ≡ false = ne→== span 1 (λ e. omega arith) in
    let two : (span == 2) ≡ false = ne→== span 2 (λ e. omega arith) in
    let four : (span == 4) ≡ false = ne→== span 4 not4 in
    let eight : (span == 8) ≡ false = ne→== span 8 not8 in rw (one, two, four, eight, length) refl

write_memory-more :
    (fuel : ℕ) (m : Mem) (stop p d span : ℕ)
    → span < 2 ^ 32
    → span % 4 ≡ 0
    → span ≢ 4
    → span ≢ 8
    → span / 4 < fuel
    → p + span ≤ stop
    → (m' : Mem) × (write_memory fuel m stop p d span ≡ returned m')
      × Written m p span (words (stored_word span d)) m'
write_memory-more fuel m stop p d span small whole not4 not8 enough inside =
    let n = span / 4 in
    let size : 4 * n ≡ span = omega arith in
    let (m', done, w) =
      fill_memory_with_user_input-Filled n fuel m stop p d (4 * n) (omega arith) refl (omega arith)
        enough in
    let eight : (span == 8) ≡ false = ne→== span 8 not8 in
    let same : (λ (k : ℕ). d % 2 ^ 32) ≡ stored_word span d = fun_ext (λ k. rw eight refl) in
    (
      m',
      write_memory-fill fuel m stop p d span small whole not4 not8 ∙ done,
      subst (λ v. Written m p span (words v) m') same
          (subst (λ t. Written m p t (words (λ k. d % 2 ^ 32)) m') size w),
    )

unfoldable pub Stored : ℕ → Mem → ℕ → ℕ → ℕ → ℕ → Type 0
Stored fuel m stop p d span =
    (m' : Mem) × (write_memory fuel m stop p d span ≡ returned m')
    × Written m p span (words (stored_word span d)) m'

pub write_memory-Stored :
    (fuel : ℕ) (m : Mem) (stop p d span : ℕ)
    → IsSpan span
    → span / 4 < fuel
    → p + span ≤ stop
    → Stored fuel m stop p d span
unfolding Stored
write_memory-Stored fuel m stop p d span (inl e) enough inside =
    subst (Stored fuel m stop p d) (sym e)
      (write_memory-one fuel m stop p d (omega (arith, inside, e)))
write_memory-Stored fuel m stop p d span (inr (inl e)) enough inside =
    subst (Stored fuel m stop p d) (sym e)
      (write_memory-two fuel m stop p d (omega (arith, inside, e)))
write_memory-Stored fuel m stop p d span (inr (inr (positive, small, whole))) enough inside =
    elim (ℕ_discrete span 4) [
      | yes four ↦
          subst (Stored fuel m stop p d) (sym four)
            (write_memory-four fuel m stop p d (omega (arith, inside, four)))
      | no not4 ↦ elim (ℕ_discrete span 8) [
        | yes eight ↦
            subst (Stored fuel m stop p d) (sym eight)
              (write_memory-eight fuel m stop p d (omega (arith, inside, eight)))
        | no not8 ↦ write_memory-more fuel m stop p d span small whole not4 not8 enough inside
      ]
    ]

-- With any other length the loop goes on to the end of the mapping.
pub write_memory-outside :
    (fuel : ℕ) (m : Mem) (stop p d span : ℕ)
    → span ≢ 1
    → span ≢ 2
    → span % 4 ≢ 0
    → span < 2 ^ 32
    → 0 < fuel
    → stop < p + 4 * fuel
    → write_memory fuel m stop p d span ≡ out_of_bounds
unfolding write_memory
write_memory-outside fuel m stop p d span not1 not2 odd small positive enough =
    let length : span % 2 ^ 32 ≡ span = omega arith in
    let four : (span == 4) ≡ false = ne→== span 4 (λ e. odd (omega arith)) in
    let eight : (span == 8) ≡ false = ne→== span 8 (λ e. odd (omega arith)) in
    rw (ne→== span 1 not1, ne→== span 2 not2, four, eight, length)
      (fill_memory_with_user_input-outside fuel m stop p d span positive enough odd small)
