-- ===== src/Serial/Decimal.antt =====
-- serial.c: `printDec` against numerals.
use rtbench.Common.{
  ℕ, zero, suc, ◌+◌, ◌/◌, ◌%◌, ◌^◌, ◌≤◌, ◌<◌, ◌≡◌, ◌≢◌, inl, inr, refl, sym, ap, subst, ◌∙◌, arith,
  Bool-cases, ◌==◌, ==→eq, ==→ne, eq→==, ne→==, le→leb, gt→leb, Option, some, List, [], ◌∷◌, ◌++◌,
  reverse,
}
use mathlib.Core.List.{append_assoc, append-nil}
use mathlib.Core.Option
use native.Mathlib.Nat.{pow-suc, pow-zero}
use rtbench.Text.Digits.{
  char_value, value, low_value, IsDigit, Digits, IsNumeral, value-reverse, Digits-reverse,
  NoLead-reverse, HighNonZero,
}
use rtbench.Text.Printing.{HighNonZero-cons}
use rtbench.Text.Strings.{reverse-cons}
use rtbench.Serial.{sent, serial_putchar, dec_loop, copy_back, print_chars, print_dec}

-- The digits of the loop, the lowest first.
dec-IsDigit :
    (r : ℕ)
    → r < 10
    → IsDigit 10 (b'0' + r)
      × (char_value (b'0' + r) ≡ r)
      × (sent (b'0' + r) ≡ (b'0' + r) ∷ [])
      × (b'0' + r ≢ 0)
dec-IsDigit r h = (ground arith, ground arith, ground arith, omega arith)

abbrev pub Visible : List ℕ → Type 0
Visible [] = Unit
Visible (c ∷ cs) = (c ≢ 0) × (sent c ≡ c ∷ []) × Visible cs

record DecDigits (n : ℕ) (r : Option (List ℕ)) : Type 0 where
  ys : List ℕ
  returned : r ≡ some ys
  worth : low_value 10 ys ≡ n
  digits : Digits 10 ys
  high : 0 < n → HighNonZero ys
  nil : n ≡ 0 → ys ≡ []
  visible : Visible ys

high_digit :
    (r q : ℕ) (ys : List ℕ)
    → r + q ≢ 0
    → (0 < q → HighNonZero ys)
    → (q ≡ 0 → ys ≡ [])
    → HighNonZero ((b'0' + r) ∷ ys)
high_digit r q ys ne high nil = elim (Bool-cases (q == 0)) [
  | inl z ↦
      subst (λ t. HighNonZero ((b'0' + r) ∷ t)) (sym (nil (==→eq _ _ z)))
        (omega (arith, ==→eq _ _ z))
  | inr nz ↦ HighNonZero-cons (b'0' + r) ys (high (omega (arith, ==→ne _ _ nz)))
]

dec_loop-DecDigits : (k fuel n : ℕ) → n < 10 ^ k → k < fuel → DecDigits n (dec_loop fuel n)
unfolding dec_loop low_value
dec_loop-DecDigits k zero n lt f = absurd (omega arith)
dec_loop-DecDigits zero (suc fuel) n lt f =
    let z : n ≡ 0 = omega (arith, pow-zero 10) in
    rw (eq→== _ _ z) (record {
      ys = [];
      returned = refl;
      worth = sym z;
      digits = tt;
      high = λ h. absurd (omega (arith, z, h));
      nil = λ e. refl;
      visible = tt;
    })
dec_loop-DecDigits (suc k) (suc fuel) n lt f = elim (Bool-cases (n == 0)) [
  | inl z ↦ rw z (record {
    ys = [];
    returned = refl;
    worth = sym (==→eq _ _ z);
    digits = tt;
    high = λ h. absurd (omega (arith, ==→eq _ _ z, h));
    nil = λ e. refl;
    visible = tt;
  })
  | inr ne ↦
      let (dig, val, s, nz) = dec-IsDigit (n % 10) (omega arith) in
      let d = dec_loop-DecDigits k fuel (n / 10) (omega (arith, pow-suc 10 k)) (omega arith) in
      rw ne (record {
        ys = (b'0' + n % 10) ∷ d.ys;
        returned = ap (Option.map (λ c. (b'0' + n % 10) ∷ c)) d.returned;
        worth = omega (arith, val, d.worth);
        digits = (dig, d.digits);
        high = λ h. high_digit (n % 10) (n / 10) d.ys (omega (arith, ==→ne _ _ ne)) d.high d.nil;
        nil = λ e. absurd (==→ne _ _ ne e);
        visible = (nz, s, d.visible);
      })
]

copy_back-reverse : (c c2 : List ℕ) → copy_back c c2 ≡ reverse c ++ c2
unfolding copy_back
copy_back-reverse [] c2 = refl
copy_back-reverse (x ∷ c) c2 =
    copy_back-reverse c (x ∷ c2)
    ∙ sym (append_assoc (reverse c) (x ∷ []) c2)
    ∙ ap (λ t. t ++ c2) (sym (reverse-cons x c))

Visible-append : (xs ys : List ℕ) → Visible xs → Visible ys → Visible (xs ++ ys)
Visible-append [] ys h k = k
Visible-append (x ∷ xs) ys h k = (h.0, h.1, Visible-append xs ys h.2 k)

Visible-reverse : (xs : List ℕ) → Visible xs → Visible (reverse xs)
Visible-reverse [] h = tt
Visible-reverse (x ∷ xs) h =
    subst Visible (sym (reverse-cons x xs))
      (Visible-append (reverse xs) (x ∷ []) (Visible-reverse xs h.2) (h.0, h.1, tt))

print_chars-append : (cs out : List ℕ) → Visible cs → print_chars cs out ≡ out ++ cs
unfolding print_chars serial_putchar
print_chars-append [] out h = sym (append-nil out)
print_chars-append (c ∷ cs) out h = rw (ne→== c 0 h.0) (
    print_chars-append cs (out ++ sent c) h.2
    ∙ append_assoc out (sent c) cs
    ∙ ap (λ t. out ++ (t ++ cs)) h.1)

dec-IsNumeral :
    (n : ℕ) (out : List ℕ) {r : Option (List ℕ)}
    → 0 < n
    → DecDigits n r
    → (xs : List ℕ) × IsNumeral 10 n xs
      × (Option.map (λ c. print_chars (copy_back c []) out) r ≡ some (out ++ xs))
dec-IsNumeral n out h d =
    let back : copy_back d.ys [] ≡ reverse d.ys =
      copy_back-reverse d.ys [] ∙ append-nil (reverse d.ys) in
    (
      reverse d.ys,
      record {
        worth = value-reverse 10 d.ys ∙ d.worth;
        digits = Digits-reverse 10 d.ys d.digits;
        lead = NoLead-reverse d.ys (inl (d.high h));
      },
      ap (Option.map (λ c. print_chars (copy_back c []) out)) d.returned
          ∙ ap (λ t. some (print_chars t out)) back
          ∙ ap some (print_chars-append (reverse d.ys) out (Visible-reverse d.ys d.visible)),
    )

print_dec_small :
    (fuel n : ℕ) (out : List ℕ)
    → 10 < fuel
    → n < 2 ^ 31
    → (xs : List ℕ) × IsNumeral 10 n xs × (print_dec fuel n out ≡ some (out ++ xs))
unfolding print_dec serial_putchar value
print_dec_small fuel n out f lt = elim (Bool-cases (n == 0)) [
  | inl z ↦ rw z (
    b'0' ∷ [],
    record { worth = omega (arith, ==→eq _ _ z); digits = (omega arith, tt); lead = tt },
    refl,
  )
  | inr nz ↦ rw nz (
      rw (gt→leb (2 ^ 31) n lt) (
        dec-IsNumeral n out (omega (arith, ==→ne _ _ nz))
          (dec_loop-DecDigits 10 fuel n (omega arith) f)))
]

-- Where the fuel is at least 11, `printDec` prints the decimal numeral of a number below 2^31, with
-- no leading zero, and of a number from 2^31 on, that is of a negative `int`, nothing at all.
pub print_dec-IsNumeral :
    (fuel n : ℕ) (out : List ℕ)
    → 10 < fuel
    → (n < 2 ^ 31 → (xs : List ℕ) × IsNumeral 10 n xs × (print_dec fuel n out ≡ some (out ++ xs)))
      × (2 ^ 31 ≤ n → print_dec fuel n out ≡ some out)
unfolding print_dec copy_back print_chars
print_dec-IsNumeral fuel n out f = (
  print_dec_small fuel n out f,
  λ le. rw (ne→== n 0 (omega arith)) (rw (le→leb (2 ^ 31) n le) refl),
)
