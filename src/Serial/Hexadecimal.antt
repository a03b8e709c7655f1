-- ===== src/Serial/Hexadecimal.antt =====
-- serial.c: `printHex` against numerals.
use rtbench.Common.{
  ℕ, zero, suc, ◌+◌, ◌*◌, ◌/◌, ◌%◌, ◌^◌, ◌<◌, ◌≡◌, ◌≢◌, inl, inr, sym, ap, subst, ◌∙◌, arith,
  bit_and, bit_and_mask, Bool-cases, ◌==◌, ==→eq, ==→ne, List, [], ◌∷◌, ◌++◌,
}
use mathlib.Core.List.{append_assoc}
use native.Mathlib.Nat.{pow-suc, div-div-eq-div-mul}
use rtbench.Text.Digits.{char_value, value, value-append, IsDigit, Digits-append, NoLead, IsNumeral}
use rtbench.Serial.{sent, serial_putchar, hex_char, hex_loop, print_hex}

same_power : (a b : ℕ) → a ≡ b → 2 ^ a ≡ 2 ^ b
same_power a b e = ap (λ t. 2 ^ t) e

shift_step : (n j : ℕ) → n / 2 ^ (4 * j) / 16 ≡ n / 2 ^ (4 * suc j)
shift_step n j =
    let p : 2 ^ (4 * j) * 16 ≡ 2 ^ (4 * suc j) = omega (
      arith,
      pow-suc 2 (4 * j),
      pow-suc 2 (suc (4 * j)),
      pow-suc 2 (suc (suc (4 * j))),
      pow-suc 2 (suc (suc (suc (4 * j)))),
      same_power (4 * suc j) (suc (suc (suc (suc (4 * j))))) (omega arith),
    ) in
    div-div-eq-div-mul n (2 ^ (4 * j)) 16 ∙ ap (λ t. n / t) p

hex_char-IsDigit :
    (d : ℕ)
    → d < 16
    → IsDigit 16 (hex_char d)
      × (char_value (hex_char d) ≡ d)
      × (sent (hex_char d) ≡ hex_char d ∷ [])
hex_char-IsDigit d h = (ground arith, ground arith, ground arith)

NoLead-append :
    (q : ℕ) (xs : List ℕ) (c : ℕ) → q ≢ 0 → value 16 0 xs ≡ q → NoLead xs → NoLead (xs ++ (c ∷ []))
unfolding value
NoLead-append q [] c ne e h = absurd h
NoLead-append q (x ∷ []) c ne e h = λ z. ne (ground arith)
NoLead-append q (x ∷ y ∷ ys) c ne e h = h

-- The numeral with one more digit.
IsNumeral-append :
    (q d : ℕ) (xs : List ℕ)
    → q ≢ 0
    → d < 16
    → IsNumeral 16 q xs
    → IsNumeral 16 (q * 16 + d) (xs ++ (hex_char d ∷ []))
unfolding value
IsNumeral-append q d xs ne lt h =
    let (dig, val, s) = hex_char-IsDigit d lt in
    record {
      worth = value-append 16 0 xs (hex_char d ∷ []) ∙ omega (arith, h.worth, val);
      digits = Digits-append 16 xs (hex_char d ∷ []) h.digits (dig, tt);
      lead = NoLead-append q xs (hex_char d) ne h.worth h.lead;
    }

-- What `hex_loop` has printed of the number above the digits that are left.
data Shown (out : List ℕ) (q : ℕ) : ℕ → List ℕ → Type 0 where
  blank : q ≡ 0 → Shown out q 1 out
  shown : (xs : List ℕ) → q ≢ 0 → IsNumeral 16 q xs → Shown out q 0 (out ++ xs)

IsNumeral-digit : (d : ℕ) → d < 16 → IsNumeral 16 d (hex_char d ∷ [])
unfolding value
IsNumeral-digit d lt =
    let (dig, val, s) = hex_char-IsDigit d lt in
    record { worth = omega (arith, val); digits = (dig, tt); lead = tt }

-- One more digit behind what is shown, which makes `q` into `u`.
more_digit :
    (out : List ℕ) (u q : ℕ) {nz : ℕ} {o : List ℕ}
    → u / 16 ≡ q
    → Shown out q nz o
    → (xs : List ℕ) × IsNumeral 16 u xs × (serial_putchar o (hex_char (u % 16)) ≡ out ++ xs)
unfolding serial_putchar
more_digit out u q e (blank z) =
    let (dig, val, s) = hex_char-IsDigit (u % 16) (omega arith) in
    (
      hex_char (u % 16) ∷ [],
      subst (λ d. IsNumeral 16 d (hex_char (u % 16) ∷ [])) (omega arith)
          (IsNumeral-digit (u % 16) (omega arith)),
      ap (λ t. out ++ t) s,
    )
more_digit out u q e (shown xs ne is) =
    let (dig, val, s) = hex_char-IsDigit (u % 16) (omega arith) in
    (
      xs ++ (hex_char (u % 16) ∷ []),
      subst (λ d. IsNumeral 16 d (xs ++ (hex_char (u % 16) ∷ []))) (omega arith)
          (IsNumeral-append q (u % 16) xs ne (omega arith) is),
      ap (λ t. (out ++ xs) ++ t) s ∙ append_assoc out xs _,
    )

Shown-next :
    (out : List ℕ) (u q : ℕ) {nz : ℕ} {o : List ℕ}
    → u / 16 ≡ q
    → u ≢ 0
    → Shown out q nz o
    → Shown out u 0 (serial_putchar o (hex_char (u % 16)))
Shown-next out u q e ne h =
    let (xs, is, eq) = more_digit out u q e h in subst (Shown out u 0) (sym eq) (shown xs ne is)

hex_loop-Shown :
    (out : List ℕ) (j n : ℕ) {nz : ℕ} {o : List ℕ}
    → Shown out (n / 2 ^ (4 * suc j)) nz o
    → (nz' : ℕ) × Shown out (n / 2 ^ 4) nz' (hex_loop j n nz o)
unfolding hex_loop
hex_loop-Shown out zero n {nz} h = (nz, h)
hex_loop-Shown out (suc j) n (blank z) =
    let u : ℕ = n / 2 ^ (4 * suc j) in
    let mask : bit_and u 0xF ≡ u % 16 = bit_and_mask 4 u in
    let q : u / 16 ≡ n / 2 ^ (4 * suc (suc j)) = shift_step n (suc j) in
    elim (Bool-cases (u % 16 == 0)) [
      | inl e ↦ rw mask (rw e (hex_loop-Shown out j n (blank (omega (arith, ==→eq _ _ e)))))
      | inr ne ↦ rw mask (
          rw ne
            (hex_loop-Shown out j n (Shown-next out u _ q (omega (arith, ==→ne _ _ ne)) (blank z))))
    ]
hex_loop-Shown out (suc j) n (shown xs nz is) =
    let u : ℕ = n / 2 ^ (4 * suc j) in
    let mask : bit_and u 0xF ≡ u % 16 = bit_and_mask 4 u in
    let q : u / 16 ≡ n / 2 ^ (4 * suc (suc j)) = shift_step n (suc j) in
    let rest = hex_loop-Shown out j n (Shown-next out u _ q (omega arith) (shown xs nz is)) in
    rw mask (elim (Bool-cases (u % 16 == 0)) [ inl e ↦ rw e rest | inr ne ↦ rw ne rest ])

-- `printHex` prints the hexadecimal numeral of any 32-bit number, with no leading zero.
pub print_hex-IsNumeral :
    (n : ℕ) (out : List ℕ)
    → n < 2 ^ 32
    → (xs : List ℕ) × IsNumeral 16 n xs × (print_hex n out ≡ out ++ xs)
unfolding print_hex
print_hex-IsNumeral n out lt =
    let (nz, h) = hex_loop-Shown out 7 n (blank (omega arith)) in
    rw (bit_and_mask 4 n) (more_digit out n (n / 2 ^ 4) (omega arith) h)
