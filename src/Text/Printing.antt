-- ===== src/Text/Printing.antt =====
-- utilities.c: the digit loop of `itoa`.
use rtbench.Common.{
  ℕ, zero, suc, ◌+◌, ◌*◌, ◌/◌, ◌%◌, ◌^◌, ◌≤◌, ◌<◌, ◌≡◌, ◌≢◌, ◌⊎◌, inl, inr, refl, arith, List, [],
  ◌∷◌, length, ◌∙◌, ap, Option, some, ◌==◌, Bool-cases, ==→eq, ==→ne, eq→==,
}
use native.Mathlib.Nat.{pow-zero, pow-suc, div-add-mod}
use rtbench.Memory.{Mem, store}
use rtbench.Text.{digit, itoa_loop}
use rtbench.Text.Strings.{Holds, Frame}
use rtbench.Text.Digits.{char_value, low_value, IsDigit, Digits, HighNonZero, div-lt}

-- What the digit loop leaves: the digits of `ud` from `p`, the lowest first.
pub record Printed (b ud k : ℕ) (m : Mem) (p : ℕ) (r : Option (Mem × ℕ)) : Type 0 where
  pub ys : List ℕ
  pub after : Mem
  pub returned : r ≡ some (after, p + length ys)
  pub holds : Holds after p ys
  pub worth : low_value b ys ≡ ud
  pub digits : Digits b ys
  pub high : 0 < ud → HighNonZero ys
  pub single : HighNonZero ys ⊎ (length ys ≡ 1)
  pub short : length ys ≤ suc k
  pub frame : Frame m after p (length ys)

digit-IsDigit :
    (b r : ℕ)
    → r < b
    → b ≤ 16
    → IsDigit b (digit r) × (char_value (digit r) ≡ r) × (0 < r → digit r ≢ b'0')
digit-IsDigit b r h k = ground arith

pub HighNonZero-cons : (c : ℕ) (ys : List ℕ) → HighNonZero ys → HighNonZero (c ∷ ys)
HighNonZero-cons c [] h = absurd h
HighNonZero-cons c (y ∷ ys) h = h

module _ (b : ℕ) (two : 2 ≤ b) (small : b ≤ 16) where
  last_digit :
      (ud k : ℕ) (m : Mem) (p : ℕ)
      → ud / b ≡ 0
      → Printed b ud k m p (some (store m p (digit (ud % b)), p + 1))
  unfolding low_value
  last_digit ud k m p e =
      let r : ud % b ≡ ud = omega (arith, div-add-mod ud b, ap (λ (t : ℕ). b * t) e) in
      let (d, v, z) = digit-IsDigit b (ud % b) (omega arith) small in
      record {
        ys = digit (ud % b) ∷ [];
        after = store m p (digit (ud % b));
        returned = refl;
        holds = (ground arith, tt);
        worth = omega (arith, v, r);
        digits = (d, tt);
        high = λ h. z (omega arith);
        single = inr refl;
        short = omega arith;
        frame = λ a h. ground arith;
      }

  next_digit :
      (ud k : ℕ) (m : Mem) (p : ℕ) {r : Option (Mem × ℕ)}
      → ud / b ≢ 0
      → Printed b (ud / b) k (store m p (digit (ud % b))) (p + 1) r
      → Printed b ud (suc k) m p r
  unfolding low_value
  next_digit ud k m p ne q =
      let (d, v, z) = digit-IsDigit b (ud % b) (omega arith) small in
      record {
        ys = digit (ud % b) ∷ q.ys;
        after = q.after;
        returned = q.returned ∙ ap (λ (n : ℕ). some (q.after, n)) (omega arith);
        holds = (q.frame p (inl (omega arith)) ∙ ground arith, q.holds);
        worth = omega (arith, v, div-add-mod ud b, ap (λ (t : ℕ). b * t) q.worth);
        digits = (d, q.digits);
        high = λ h. HighNonZero-cons _ q.ys (q.high (omega arith));
        single = inl (HighNonZero-cons _ q.ys (q.high (omega arith)));
        short = omega (arith, q.short);
        frame = λ a h.
            q.frame a (elim h [ inl l ↦ inl (omega arith) | inr l ↦ inr (omega arith) ])
            ∙ ground arith;
      }

  pub itoa_loop-Printed :
      (k fuel : ℕ) (m : Mem) (p ud : ℕ)
      → ud < b ^ suc k
      → k < fuel
      → Printed b ud k m p (itoa_loop fuel b m p ud)
  unfolding itoa_loop
  itoa_loop-Printed k zero m p ud h f = absurd (omega arith)
  itoa_loop-Printed zero (suc fuel) m p ud h f =
      let lt : ud < b * 1 = omega (arith, pow-suc b 0, ap (λ (t : ℕ). t * b) (pow-zero b)) in
      let e : ud / b ≡ 0 = omega (arith, div-lt ud b 1 (omega arith) lt) in
      rw (eq→== _ _ e) (last_digit ud 0 m p e)
  itoa_loop-Printed (suc k) (suc fuel) m p ud h f = elim (Bool-cases (ud / b == 0)) [
    | inl e ↦ rw e (last_digit ud (suc k) m p (==→eq _ _ e))
    | inr e ↦ rw e (
        next_digit ud k m p (==→ne _ _ e) (
          itoa_loop-Printed k fuel (store m p (digit (ud % b))) (p + 1) (ud / b)
            (div-lt ud b (b ^ suc k) (omega arith) (omega (arith, pow-suc b (suc k))))
            (omega arith)))
  ]
