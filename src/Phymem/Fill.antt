-- ===== src/Phymem/Fill.antt =====
-- phymem.c: what the fill loops leave in memory.
use rtbench.Common.{
  ℕ, zero, suc, ◌+◌, ◌-◌, ◌*◌, ◌/◌, ◌%◌, ◌^◌, ◌≤◌, ◌<◌, ◌≡◌, ◌≢◌, refl, sym, ap, fun_ext, ◌∙◌,
  subst, arith, Run, returned, out_of_bounds, dec_le, le→leb, gt→leb, lt→ltb, le→ltb, true, ltb,
}
use rtbench.Memory.{Mem}
use rtbench.Memory.Writes.{Written, Written-append, Written-zero, word_byte, store32-Written}
use rtbench.LinearCode.{store32}
use rtbench.Phymem.{
  if_mapped, equal_loop, fill_memory_with_user_input, fill_mem_with_data_equal_address,
}

-- Words from an address on: the word number `k` is `v k`.
abbrev pub words : (ℕ → ℕ) → ℕ → ℕ
words v k = word_byte (v (k / 4)) (k % 4)

words_first : (v : ℕ → ℕ) (j : ℕ) → j < 4 → words v j ≡ word_byte (v 0) j
words_first v j lt =
    let q : j / 4 ≡ 0 = omega arith in let r : j % 4 ≡ j = omega arith in rw (q, r) refl

words_rest : (v : ℕ → ℕ) (j : ℕ) → words v (4 + j) ≡ words (λ k. v (k + 1)) j
words_rest v j =
    let q : (4 + j) / 4 ≡ j / 4 + 1 = omega arith in
    let r : (4 + j) % 4 ≡ j % 4 = omega arith in rw (q, r) refl

-- One word, and the words behind it.
pub store32-words :
    (m m' : Mem) (p n x : ℕ) (u v : ℕ → ℕ)
    → Written (store32 m p x) (p + 4) (4 * n) (words u) m'
    → x ≡ v 0
    → ((k : ℕ) → u k ≡ v (k + 1))
    → Written m p (4 * suc n) (words v) m'
store32-words m m' p n x u v rest first other =
    let size : 4 + 4 * n ≡ 4 * suc n = omega arith in
    subst (λ t. Written m p t (words v) m') size
      (Written-append p 4 (4 * n) (store32-Written m p x) rest
        (λ j lt. words_first v j lt ∙ ap (λ t. word_byte t j) (sym first))
        (λ j lt. words_rest v j ∙ ap (λ t. word_byte t (j % 4)) (sym (other (j / 4)))))

-- An access before the end of the mapping.
pub if_mapped-inside {ℓ} :
    {A : Type ℓ} {r : Run A} (stop p n : ℕ) → p + n ≤ stop → if_mapped stop p n r ≡ r
if_mapped-inside stop p n le = rw (le→leb (p + n) stop le) refl

fill_round :
    (fuel : ℕ) (m : Mem) (stop p data_word length rest : ℕ)
    → p + 4 ≤ stop
    → 0 < length
    → (length + 2 ^ 32 - 4) % 2 ^ 32 ≡ rest
    → fill_memory_with_user_input (suc fuel) m stop p data_word length
      ≡ fill_memory_with_user_input fuel
          (store32 m p (data_word % 2 ^ 32))
          stop
          (p + 4)
          data_word
          rest
unfolding fill_memory_with_user_input
fill_round fuel m stop p data_word length rest inside some_left next =
    rw (lt→ltb 0 length some_left, next, le→leb (p + 4) stop inside) refl

-- `n` rounds.
pub fill_memory_with_user_input-Filled :
    (n fuel : ℕ) (m : Mem) (stop p data_word length : ℕ)
    → p + 4 * n ≤ stop
    → length ≡ 4 * n
    → length < 2 ^ 32
    → n < fuel
    → (m' : Mem) × (fill_memory_with_user_input fuel m stop p data_word length ≡ returned m')
      × Written m p (4 * n) (words (λ k. data_word % 2 ^ 32)) m'
unfolding fill_memory_with_user_input
fill_memory_with_user_input-Filled n zero m stop p data_word length inside e small enough =
    absurd (omega arith)
fill_memory_with_user_input-Filled zero (suc fuel) m stop p data_word length inside e small enough =
    (m, rw (le→ltb 0 length (omega arith)) refl, Written-zero m p)
fill_memory_with_user_input-Filled (suc n) (suc fuel) m stop p data_word length inside e small
      enough =
    let next : (length + 2 ^ 32 - 4) % 2 ^ 32 ≡ 4 * n = omega arith in
    let (m', done, w) =
      fill_memory_with_user_input-Filled n fuel (store32 m p (data_word % 2 ^ 32)) stop (p + 4)
        data_word (4 * n) (omega arith) refl (omega arith) (omega arith) in
    (
      m',
      fill_round fuel m stop p data_word length (4 * n) (omega arith) (omega arith) next ∙ done,
      store32-words m m' p n (data_word % 2 ^ 32) (λ k. data_word % 2 ^ 32)
          (λ k. data_word % 2 ^ 32) w refl (λ k. refl),
    )

-- A length below 2 ^ 32 that four does not divide steps over zero: the loop goes on to the end of the
-- mapping.
pub fill_memory_with_user_input-outside :
    (fuel : ℕ) (m : Mem) (stop p data_word length : ℕ)
    → 0 < fuel
    → stop < p + 4 * fuel
    → length % 4 ≢ 0
    → length < 2 ^ 32
    → fill_memory_with_user_input fuel m stop p data_word length ≡ out_of_bounds
unfolding fill_memory_with_user_input
fill_memory_with_user_input-outside zero m stop p data_word length positive enough odd small =
    absurd (omega arith)
fill_memory_with_user_input-outside (suc fuel) m stop p data_word length positive enough odd small =
    let next = (length + 2 ^ 32 - 4) % 2 ^ 32 in
    let more : ltb 0 length ≡ true = lt→ltb 0 length (omega (arith, odd)) in
    elim (dec_le (p + 4) stop) [
      | yes inside ↦
          rw (more, le→leb (p + 4) stop inside)
            (fill_memory_with_user_input-outside fuel (store32 m p (data_word % 2 ^ 32)) stop
              (p + 4) data_word next (omega arith) (omega arith) (λ e. odd (omega arith))
              (omega arith))
      | no behind ↦ rw (more, gt→leb (p + 4) stop (omega (arith, behind))) refl
    ]

equal_round :
    (fuel : ℕ) (m : Mem) (stop p phy_addr i length : ℕ)
    → p + 4 ≤ stop
    → i < length
    → length < 2 ^ 31
    → equal_loop (suc fuel) m stop p phy_addr i length
      ≡ equal_loop fuel (store32 m p ((phy_addr + i) % 2 ^ 32)) stop (p + 4) phy_addr (i + 4) length
unfolding equal_loop
equal_round fuel m stop p phy_addr i length inside lt small =
    let next : (i + 4) % 2 ^ 32 ≡ i + 4 = omega arith in
    rw (lt→ltb i length lt, next, le→leb (p + 4) stop inside) refl

equal_loop-Filled :
    (n fuel : ℕ) (m : Mem) (stop p phy_addr i length : ℕ)
    → p + 4 * n ≤ stop
    → length ≤ i + 4 * n
    → i + 4 * n < length + 4
    → length < 2 ^ 31
    → n < fuel
    → (m' : Mem) × (equal_loop fuel m stop p phy_addr i length ≡ returned m')
      × Written m p (4 * n) (words (λ k. (phy_addr + (i + 4 * k)) % 2 ^ 32)) m'
unfolding equal_loop
equal_loop-Filled n zero m stop p phy_addr i length inside low high small enough =
    absurd (omega arith)
equal_loop-Filled zero (suc fuel) m stop p phy_addr i length inside low high small enough =
    (m, rw (le→ltb i length (omega arith)) refl, Written-zero m p)
equal_loop-Filled (suc n) (suc fuel) m stop p phy_addr i length inside low high small enough =
    let v = λ (k : ℕ). (phy_addr + (i + 4 * k)) % 2 ^ 32 in
    let u = λ (k : ℕ). (phy_addr + (i + 4 + 4 * k)) % 2 ^ 32 in
    let first : (phy_addr + i) % 2 ^ 32 ≡ v 0 = ap (λ t. (phy_addr + t) % 2 ^ 32) (omega arith) in
    let shift : (k : ℕ) → u k ≡ v (k + 1) = λ k. ap (λ t. (phy_addr + t) % 2 ^ 32) (omega arith) in
    let (m', done, w) =
      equal_loop-Filled n fuel (store32 m p ((phy_addr + i) % 2 ^ 32)) stop (p + 4) phy_addr (i + 4)
        length (omega arith) (omega arith) (omega arith) small (omega arith) in
    (
      m',
      equal_round fuel m stop p phy_addr i length (omega arith) (omega arith) small ∙ done,
      store32-words m m' p n ((phy_addr + i) % 2 ^ 32) u v w first shift,
    )

-- Every word gets the number that the code takes for its address, also the last one, which a length
-- that four does not divide takes whole.
pub fill_mem_with_data_equal_address-Filled :
    (n fuel : ℕ) (m : Mem) (stop p phy_addr length : ℕ)
    → p + 4 * n ≤ stop
    → length ≤ 4 * n
    → 4 * n < length + 4
    → length < 2 ^ 31
    → n < fuel
    → (m' : Mem) × (fill_mem_with_data_equal_address fuel m stop p phy_addr length ≡ returned m')
      × Written m p (4 * n) (words (λ k. (phy_addr + 4 * k) % 2 ^ 32)) m'
fill_mem_with_data_equal_address-Filled n fuel m stop p phy_addr length inside low high small
      enough =
    let (m', done, w) =
      equal_loop-Filled n fuel m stop p phy_addr 0 length inside (omega arith) (omega arith) small
        enough in
    let same : (k : ℕ) → (phy_addr + (0 + 4 * k)) % 2 ^ 32 ≡ (phy_addr + 4 * k) % 2 ^ 32 =
      λ k. ap (λ t. (phy_addr + t) % 2 ^ 32) (omega arith) in
    (m', done, subst (λ v. Written m p (4 * n) (words v) m') (fun_ext same) w)
