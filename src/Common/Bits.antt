-- ===== src/Common/Bits.antt =====
-- C's `|` and `&` at variables: `|` of disjoint fields is a sum, `&` with a low mask a remainder.
use Prim.Native.Nat.{
  ℕ, zero, suc, ◌+◌, ◌-◌, ◌*◌, ◌/◌, ◌%◌, ◌^◌, ◌≤◌, ◌<◌, min, max, bit_and, bit_or, digits, bitwise,
  bit_and-bitwise, bit_or-bitwise,
}
use mathlib.Core.Path.{◌≡◌, refl, ap, sym, ◌∙◌}
use native.Mathlib.Nat.{mod-eq_of_lt, pow-suc, one-le-pow, div-div-eq-div-mul}
use native.Mathlib.Omega.{arith}

-- The digit recursion that the native operations stand for gives the same with any fuel that is
-- at least the first number.
module _ (tail : ℕ → ℕ) (op : ℕ → ℕ → ℕ) where
  digits-zero : (f y : ℕ) → digits tail op f zero y ≡ tail y
  digits-zero zero y = refl
  digits-zero (suc f) y = refl

  any_fuel : (f g x y : ℕ) → x ≤ f → x ≤ g → digits tail op f x y ≡ digits tail op g x y
  any_fuel f g zero y s t = digits-zero f y ∙ sym (digits-zero g y)
  any_fuel (suc f) (suc g) (suc x) y s t =
      omega (arith, any_fuel f g (suc x / 2) (y / 2) (omega arith) (omega arith))
  any_fuel zero g (suc x) y s t = absurd (omega arith)
  any_fuel (suc f) zero (suc x) y s t = absurd (omega arith)

  low_digit :
      (x y : ℕ)
      → bitwise tail op (suc x) y ≡ op (suc x % 2) (y % 2) + 2 * bitwise tail op (suc x / 2) (y / 2)
  low_digit x y =
      omega (arith, any_fuel x (suc x / 2) (suc x / 2) (y / 2) (omega arith) (omega arith))

bit_or_low : (x y : ℕ) → bit_or x y ≡ max (x % 2) (y % 2) + 2 * bit_or (x / 2) (y / 2)
bit_or_low zero y = simp bit_or-bitwise (omega arith)
bit_or_low (suc x) y = simp bit_or-bitwise (low_digit (λ z. z) max x y)

bit_and_low : (x y : ℕ) → bit_and x y ≡ min (x % 2) (y % 2) + 2 * bit_and (x / 2) (y / 2)
bit_and_low zero y = simp bit_and-bitwise (omega arith)
bit_and_low (suc x) y = simp bit_and-bitwise (low_digit (λ z. 0) min x y)

bit_or-zero_below : (n a : ℕ) → a ≤ n → bit_or a 0 ≡ a
bit_or-zero_below n zero h = refl
bit_or-zero_below zero (suc a) h = absurd (omega arith)
bit_or-zero_below (suc n) (suc a) h =
    omega (arith, bit_or_low (suc a) 0, bit_or-zero_below n (suc a / 2) (omega arith))

bit_and-zero_below : (n a : ℕ) → a ≤ n → bit_and a 0 ≡ 0
bit_and-zero_below n zero h = refl
bit_and-zero_below zero (suc a) h = absurd (omega arith)
bit_and-zero_below (suc n) (suc a) h =
    omega (arith, bit_and_low (suc a) 0, bit_and-zero_below n (suc a / 2) (omega arith))

double_shift : (q k : ℕ) → q * 2 ^ suc k ≡ 2 * (q * 2 ^ k)
double_shift q k = omega (arith, ap (λ (t : ℕ). q * t) (pow-suc 2 k))

-- `(q << k) | r` with `r` below bit `k`.
pub bit_or-eq_add : (k q r : ℕ) → r < 2 ^ k → bit_or (q * 2 ^ k) r ≡ q * 2 ^ k + r
bit_or-eq_add zero q r h =
    let e : r ≡ 0 = omega arith in
    rw e (omega (arith, bit_or-zero_below (q * 1) (q * 1) (omega arith)))
bit_or-eq_add (suc k) q r h = ground (
  arith,
  bit_or_low (q * 2 ^ suc k) r,
  double_shift q k,
  bit_or-eq_add k q (r / 2) (omega (arith, pow-suc 2 k)),
)

bit_and-low_field : (k q r : ℕ) → r < 2 ^ k → bit_and (q * 2 ^ k + r) (2 ^ k - 1) ≡ r
bit_and-low_field zero q r h =
    omega (arith, bit_and-zero_below (q * 2 ^ 0 + r) (q * 2 ^ 0 + r) (omega arith))
bit_and-low_field (suc k) q r h =
    let shift : q * 2 ^ suc k ≡ 2 * (q * 2 ^ k) = double_shift q k in
    let rest : bit_and (q * 2 ^ k + r / 2) (2 ^ k - 1) ≡ r / 2 =
      bit_and-low_field k q (r / 2) (omega (arith, pow-suc 2 k)) in
    let low : bit_and (q * 2 ^ suc k + r) (2 ^ suc k - 1)
        ≡ min ((q * 2 ^ suc k + r) % 2) ((2 ^ suc k - 1) % 2)
          + 2 * bit_and ((q * 2 ^ suc k + r) / 2) ((2 ^ suc k - 1) / 2) =
      bit_and_low (q * 2 ^ suc k + r) (2 ^ suc k - 1) in
    ground (arith, pow-suc 2 k, one-le-pow k 2)

-- `a & ((1 << k) - 1)`.
pub bit_and_mask : (k a : ℕ) → bit_and a (2 ^ k - 1) ≡ a % 2 ^ k
bit_and_mask k a = ground (arith, one-le-pow k 2, bit_and-low_field k (a / 2 ^ k) (a % 2 ^ k))

bit_or_comm_below : (n a b : ℕ) → a ≤ n → b ≤ n → bit_or a b ≡ bit_or b a
bit_or_comm_below zero a b h k = ground arith
bit_or_comm_below (suc n) a b h k = omega (
  arith,
  bit_or_low a b,
  bit_or_low b a,
  bit_or_comm_below n (a / 2) (b / 2) (omega arith) (omega arith),
)

pub bit_or_comm : (a b : ℕ) → bit_or a b ≡ bit_or b a
bit_or_comm a b = bit_or_comm_below (max a b) a b (omega arith) (omega arith)

-- `&` with a mask whose low `k` bits are 0 looks at the bits above them only.
pub bit_and-high_field : (k a n : ℕ) → bit_and a (n * 2 ^ k) ≡ bit_and (a / 2 ^ k) n * 2 ^ k
bit_and-high_field zero a n =
    let mask : n * 2 ^ 0 ≡ n = omega arith in
    let same : a / 2 ^ 0 ≡ a = omega arith in
    omega (arith, ap (bit_and a) mask, ap (λ t. bit_and t n) same)
bit_and-high_field (suc k) a n =
    let mask = n * 2 ^ suc k in
    let shift : mask ≡ 2 * (n * 2 ^ k) = double_shift n k in
    let half : mask / 2 ≡ n * 2 ^ k = omega arith in
    let power : 2 * 2 ^ k ≡ 2 ^ suc k = omega arith in
    let twice : a / 2 / 2 ^ k ≡ a / 2 ^ suc k = div-div-eq-div-mul a 2 (2 ^ k) ∙ ap (◌/◌ a) power in
    let high = bit_and (a / 2 ^ suc k) n in
    omega (
      arith,
      bit_and_low a mask,
      ap (bit_and (a / 2)) half,
      bit_and-high_field k (a / 2) n,
      ap (λ t. bit_and t n * 2 ^ k) twice,
      double_shift high k,
    )

-- The page of 4 KB of a number, and the offset in it.
pub page-add-offset :
    (w a : ℕ) → a < 2 ^ w * 2 ^ 12 → bit_and a ((2 ^ w - 1) * 2 ^ 12) + a % 2 ^ 12 ≡ a
page-add-offset w a lt =
    let q = a / 2 ^ 12 in
    let all : bit_and q (2 ^ w - 1) ≡ q = bit_and_mask w q ∙ mod-eq_of_lt (omega arith) in
    let page : bit_and a ((2 ^ w - 1) * 2 ^ 12) ≡ q * 2 ^ 12 =
      bit_and-high_field 12 a (2 ^ w - 1) ∙ ap (λ t. t * 2 ^ 12) all in
    omega (arith, page)

-- A number is its page of 4 KB and the offset in it, joined.
pub page_and_offset :
    (w a : ℕ)
    → a < 2 ^ w * 2 ^ 12
    → bit_or (bit_and a ((2 ^ w - 1) * 2 ^ 12)) (bit_and a (2 ^ 12 - 1)) ≡ a
page_and_offset w a lt =
    let q = a / 2 ^ 12 in
    let all : bit_and q (2 ^ w - 1) ≡ q = bit_and_mask w q ∙ mod-eq_of_lt (omega arith) in
    let page : bit_and a ((2 ^ w - 1) * 2 ^ 12) ≡ q * 2 ^ 12 =
      bit_and-high_field 12 a (2 ^ w - 1) ∙ ap (λ t. t * 2 ^ 12) all in
    rw (page, bit_and_mask 12 a) (bit_or-eq_add 12 q (a % 2 ^ 12) (omega arith) ∙ omega arith)
