-- ===== src/Phymem/Read.antt =====
-- phymem.c: what `read_pattern` prints, page after page.
use native.Mathlib.Nat.{
  mul-add, mul-suc, mul_assoc, lt_of_mul-lt-mul_left, mul-mod_right, mul-add-mod_self_left,
  mod-eq_of_lt,
}
use rtbench.Common.{
  ℕ, zero, suc, ◌+◌, ◌-◌, ◌*◌, ◌%◌, ◌≤◌, ◌<◌, ◌≡◌, ◌≢◌, ◌⊎◌, inl, inr, refl, sym, ap, ◌∙◌, subst,
  arith, List, [], ◌∷◌, ◌++◌, ltb, ◌==◌, if◌then◌else◌, true, false, returned, lt→ltb, le→ltb,
  le→leb, Bool-cases, eq→==, ne→==, ℕ_discrete,
}
use rtbench.Memory.{Mem, read32}
use rtbench.Phymem.{Shown, address, word, newline, show_word, then_shown, read_loop, read_pattern}

-- The word number `k` from the address `a` on: four words stand in a line, behind the address.
abbrev pub shown_word : Mem → ℕ → ℕ → List Shown
shown_word m a k =
    (if k % 4 == 0 then address (a + 4 * k) ∷ [] else [])
    ++ word (read32 m (a + 4 * k)) ∷ (if k % 4 == 3 then newline ∷ [] else [])

-- `n` words from the word number `k` on.
unfoldable pub listing : Mem → ℕ → ℕ → ℕ → List Shown
listing m a k zero = []
listing m a k (suc n) = shown_word m a k ++ listing m a (k + 1) n

show_word-shown :
    (m : Mem) (a k : ℕ) → show_word m (a + 4 * k) (4 * k) (a + 4 * k) ≡ shown_word m a k
show_word-shown m a k =
    let first : (4 * k % 16 == 0) ≡ (k % 4 == 0) = ground arith in
    let last : ((4 * k + 4) % 16 == 0) ≡ (k % 4 == 3) = ground arith in rw (first, last) refl

-- Where a page of `w` words begins.
edge : (w k r : ℕ) → k ≡ w * r → 4 * k % (4 * w) ≡ 0
edge w k r e =
    let product : 4 * k ≡ 4 * w * r = omega (arith, e, mul_assoc 4 w r) in
    ap (λ t. t % (4 * w)) product ∙ mul-mod_right (4 * w) r

-- Where no page begins: behind the page number `r - 1` and before the page number `r`.
no_edge : (w k r : ℕ) → k < w * r → w * r < k + w → 4 * k % (4 * w) ≢ 0
no_edge w k zero below near e = omega arith
no_edge w k (suc r) below near e =
    let behind = k - w * r in
    let product : 4 * k ≡ 4 * w * r + 4 * behind = omega (arith, mul-suc w r, mul_assoc 4 w r) in
    let rest : 4 * k % (4 * w) ≡ 4 * behind =
      ap (λ t. t % (4 * w)) product
      ∙ mul-add-mod_self_left (4 * w) r (4 * behind)
      ∙ mod-eq_of_lt (omega (arith, mul-suc w r)) in
    omega (arith, rest, e, mul-suc w r)

module _ (m : Mem) (stop : ℕ) (keys : ℕ → ℕ) (w length a : ℕ) where
  -- A round at the start of a page, which asks for a key that is not q.
  round_turn :
      (fuel k c r : ℕ)
      → a + 4 * k + 4 ≤ stop
      → k ≡ w * r
      → 4 * k < length
      → keys r ≢ b'q'
      → read_loop (suc fuel) m stop keys (4 * w) length (a + 4 * k) (4 * k) (a + 4 * k) c r
        ≡ then_shown (shown_word m a k) (
            read_loop fuel m stop keys
              (4 * w)
              length
              (a + 4 * (k + 1))
              (4 * (k + 1))
              (a + 4 * (k + 1))
              (keys r)
              (r + 1))
  unfolding read_loop
  round_turn fuel k c r inside e lt other =
      let at_edge : (4 * k % (4 * w) == 0) ≡ true = eq→== (4 * k % (4 * w)) 0 (edge w k r e) in
      let next : 4 * (k + 1) ≡ 4 * k + 4 = omega arith in
      let place : a + (4 * k + 4) ≡ a + 4 * k + 4 = omega arith in
      rw
        (
          at_edge,
          lt→ltb (4 * k) length lt,
          ne→== (keys r) b'q' other,
          next,
          place,
          show_word-shown m a k,
          le→leb (a + 4 * k + 4) stop inside,
        )
        refl

  -- A round within a page.
  round_on :
      (fuel k c r : ℕ)
      → a + 4 * k + 4 ≤ stop
      → k < w * r
      → w * r < k + w
      → 4 * k < length
      → c ≢ b'q'
      → read_loop (suc fuel) m stop keys (4 * w) length (a + 4 * k) (4 * k) (a + 4 * k) c r
        ≡ then_shown (shown_word m a k) (
            read_loop fuel m stop keys
              (4 * w)
              length
              (a + 4 * (k + 1))
              (4 * (k + 1))
              (a + 4 * (k + 1))
              c
              r)
  unfolding read_loop
  round_on fuel k c r inside below near lt other =
      let off_edge : (4 * k % (4 * w) == 0) ≡ false =
        ne→== (4 * k % (4 * w)) 0 (no_edge w k r below near) in
      let next : 4 * (k + 1) ≡ 4 * k + 4 = omega arith in
      let place : a + (4 * k + 4) ≡ a + 4 * k + 4 = omega arith in
      rw
        (
          off_edge,
          lt→ltb (4 * k) length lt,
          ne→== c b'q' other,
          next,
          place,
          show_word-shown m a k,
          le→leb (a + 4 * k + 4) stop inside,
        )
        refl

  -- The end: behind the last word, or at a page for which q is pressed.
  round_end :
      (fuel k c r : ℕ)
      → (length ≤ 4 * k) ⊎ (k ≡ w * r) × (keys r ≡ b'q')
      → read_loop (suc fuel) m stop keys (4 * w) length (a + 4 * k) (4 * k) (a + 4 * k) c r
        ≡ returned []
  unfolding read_loop
  round_end fuel k c r (inl le) = rw (le→ltb (4 * k) length le) refl
  round_end fuel k c r (inr (e, pressed)) =
      let at_edge : (4 * k % (4 * w) == 0) ≡ true = eq→== (4 * k % (4 * w)) 0 (edge w k r e) in
      rw (at_edge, pressed)
        (elim (Bool-cases (ltb (4 * k) length)) [
          | inl more ↦ rw more refl
          | inr less ↦ rw less refl
        ])

-- Where the output ends: behind the last word, when it is within the first `q` pages, or at the page
-- number `q`, when the key for it is q and a word is left.
abbrev pub Ends : (ℕ → ℕ) → ℕ → ℕ → ℕ → ℕ → Type 0
Ends keys w length q n =
    (length ≤ 4 * n) × (4 * n < length + 4) × (n ≤ w * q)
    ⊎ (n ≡ w * q) × (4 * n < length) × (keys q ≡ b'q')

module _ (m : Mem) (stop : ℕ) (keys : ℕ → ℕ) (w length a q end : ℕ)
    (inside_map : a + 4 * end ≤ stop) (others : (i : ℕ) → i < q → keys i ≢ b'q')
    (ends : Ends keys w length q end) where
  within : (end ≤ w * q) × (4 * end < length + 4)
  within = elim ends [
    | inl h ↦ (omega (arith, h), omega (arith, h))
    | inr h ↦ (omega (arith, h), omega (arith, h))
  ]

  loop_end :
      (fuel k c r : ℕ)
      → k ≡ end
      → k ≤ w * r
      → w * r < k + w
      → read_loop (suc fuel) m stop keys (4 * w) length (a + 4 * k) (4 * k) (a + 4 * k) c r
        ≡ returned []
  loop_end fuel k c r e low near = elim ends [
    | inl h ↦ round_end m stop keys w length a fuel k c r (inl (omega (arith, h)))
    | inr h ↦
        let (last, more, pressed) = h in
        let r_le : r < suc q = lt_of_mul-lt-mul_left w (omega (arith, h, mul-suc w q)) in
        let q_le : q < suc r = lt_of_mul-lt-mul_left w (omega (arith, h, mul-suc w r)) in
        let same : q ≡ r = omega arith in
        round_end m stop keys w length a fuel k c r
          (inr (omega (arith, h, ap (λ t. w * t) same), ap keys (sym same) ∙ pressed))
  ]

  loop-Listed :
      (n fuel k c r : ℕ)
      → k + n ≡ end
      → n < fuel
      → k ≤ w * r
      → w * r < k + w
      → (k ≡ w * r) ⊎ (c ≢ b'q')
      → read_loop fuel m stop keys (4 * w) length (a + 4 * k) (4 * k) (a + 4 * k) c r
        ≡ returned (listing m a k n)
  unfolding listing
  loop-Listed n zero k c r e enough low near key = absurd (omega arith)
  loop-Listed zero (suc fuel) k c r e enough low near key =
      loop_end fuel k c r (omega arith) low near
  loop-Listed (suc n) (suc fuel) k c r e enough low near key =
      let (inside, more) = within in
      elim (ℕ_discrete k (w * r)) [
        | yes turn ↦
            let page : r < q = lt_of_mul-lt-mul_left w (omega arith) in
            round_turn m stop keys w length a fuel k c r (omega arith) turn (omega arith)
              (others r page)
            ∙ ap (then_shown (shown_word m a k)) (
                loop-Listed n fuel (k + 1) (keys r) (r + 1) (omega arith) (omega arith)
                  (omega (arith, mul-add w r 1)) (omega (arith, mul-add w r 1))
                  (inr (others r page)))
        | no off ↦
            let below : k < w * r = omega (arith, off) in
            let other : c ≢ b'q' = elim key [ inl on ↦ absurd (off on) | inr h ↦ h ] in
            round_on m stop keys w length a fuel k c r (omega arith) below near (omega arith) other
            ∙ ap (then_shown (shown_word m a k)) (
                loop-Listed n fuel (k + 1) c r (omega arith) (omega arith) (omega arith)
                  (omega arith) (inr other))
      ]

-- With pages of four times `w` bytes, w positive, `q` the number of keys before a q, fuel for the words,
-- and the words before the end within the mapping: exactly the words before the end are printed, in lines of four.
pub read_pattern-Listed :
    (fuel c : ℕ) (m : Mem) (stop : ℕ) (keys : ℕ → ℕ) (w length a q end : ℕ)
    → a + 4 * end ≤ stop
    → 0 < w
    → ((i : ℕ) → i < q → keys i ≢ b'q')
    → Ends keys w length q end
    → end < fuel
    → read_pattern fuel c m stop keys (4 * w) a length ≡ returned (listing m a 0 end)
read_pattern-Listed fuel c m stop keys w length a q end inside positive others ends enough =
    let at_start : a + 4 * 0 ≡ a = omega arith in
    let no_page : w * 0 ≡ 0 = omega arith in
    subst (λ t. read_loop fuel m stop keys (4 * w) length t 0 t c 0 ≡ returned (listing m a 0 end))
      at_start
      (loop-Listed m stop keys w length a q end inside others ends end fuel 0 c 0 (omega arith)
        enough (omega arith) (omega arith) (inl (sym no_page)))
