-- ===== src/Text/Digits.antt =====
-- Positional notation, independent of the code: what `itoa` has to print and `atoi` to read.
use rtbench.Common.{
  ℕ, ◌+◌, ◌-◌, ◌*◌, ◌/◌, ◌≤◌, ◌<◌, ◌≡◌, ◌≢◌, ◌⊎◌, inl, inr, refl, arith, List, [], ◌∷◌, ◌++◌,
  reverse, length, ltb, if◌then◌else◌, ◌∙◌, ap, subst, sym,
}
use rtbench.Text.Strings.{reverse-cons}

-- The number that an ASCII digit stands for, in either of 0-9 and a-f.
abbrev pub char_value : ℕ → ℕ
char_value c = if ltb c b'a' then c - b'0' else c - b'a' + 10

-- The number that digits stand for, the first digit the highest, after a prefix worth `acc`.
unfoldable pub value : ℕ → ℕ → List ℕ → ℕ
value b acc [] = acc
value b acc (c ∷ cs) = value b (acc * b + char_value c) cs

-- The same, the first digit the lowest.
unfoldable pub low_value : ℕ → List ℕ → ℕ
low_value b [] = 0
low_value b (c ∷ cs) = char_value c + b * low_value b cs

-- A digit of base `b`, for `b` up to 16.
abbrev pub IsDigit : ℕ → ℕ → Type 0
IsDigit b c = (char_value c < b) × ((b'0' ≤ c) × (c ≤ b'9') ⊎ (b'a' ≤ c) × (c ≤ b'f'))

abbrev pub Digits : ℕ → List ℕ → Type 0
Digits b [] = Unit
Digits b (c ∷ cs) = IsDigit b c × Digits b cs

-- No leading zero, but for zero itself.
abbrev pub NoLead : List ℕ → Type 0
NoLead [] = ⊥
NoLead (c ∷ []) = Unit
NoLead (c ∷ d ∷ ds) = c ≢ b'0'

-- The numeral of `n` in base `b`.
pub record IsNumeral (b n : ℕ) (xs : List ℕ) : Type 0 where
  pub worth : value b 0 xs ≡ n
  pub digits : Digits b xs
  pub lead : NoLead xs

pub value-append :
    (b acc : ℕ) (xs ys : List ℕ) → value b acc (xs ++ ys) ≡ value b (value b acc xs) ys
unfolding value
value-append b acc [] ys = refl
value-append b acc (x ∷ xs) ys = value-append b (acc * b + char_value x) xs ys

pub value-reverse : (b : ℕ) (ys : List ℕ) → value b 0 (reverse ys) ≡ low_value b ys
unfolding value low_value
value-reverse b [] = refl
value-reverse b (y ∷ ys) =
    ap (value b 0) (reverse-cons y ys)
    ∙ value-append b 0 (reverse ys) (y ∷ [])
    ∙ omega (arith, ap (λ (t : ℕ). b * t) (value-reverse b ys))

pub Digits-append : (b : ℕ) (xs ys : List ℕ) → Digits b xs → Digits b ys → Digits b (xs ++ ys)
Digits-append b [] ys h k = k
Digits-append b (x ∷ xs) ys h k = (h.0, Digits-append b xs ys h.1 k)

pub value-le : (b acc : ℕ) (xs : List ℕ) → 0 < b → acc ≤ value b acc xs
unfolding value
value-le b acc [] h = omega arith
value-le b acc (x ∷ xs) h = grind (arith, value-le b (acc * b + char_value x) xs h)

pub div-lt : (u b t : ℕ) → 0 < b → u < b * t → u / b < t
div-lt u b t h k = grind arith

-- Of digits with the lowest first: the highest is not '0'.
abbrev pub HighNonZero : List ℕ → Type 0
HighNonZero [] = ⊥
HighNonZero (c ∷ []) = c ≢ b'0'
HighNonZero (c ∷ d ∷ ds) = HighNonZero (d ∷ ds)

NoLead-snoc : (x c : ℕ) (xs : List ℕ) → x ≢ b'0' → NoLead (x ∷ (xs ++ (c ∷ [])))
NoLead-snoc x c [] h = h
NoLead-snoc x c (y ∷ xs) h = h

high-first :
    (ys : List ℕ) → HighNonZero ys → (x : ℕ) × (xs : List ℕ) × (reverse ys ≡ x ∷ xs) × (x ≢ b'0')
high-first [] h = absurd h
high-first (c ∷ []) h = (c, [], refl, h)
high-first (c ∷ d ∷ ds) h =
    let (x, xs, e, z) = high-first (d ∷ ds) h in
    (x, xs ++ (c ∷ []), reverse-cons c (d ∷ ds) ∙ ap (λ l. l ++ (c ∷ [])) e, z)

pub NoLead-reverse : (ys : List ℕ) → HighNonZero ys ⊎ (length ys ≡ 1) → NoLead (reverse ys)
NoLead-reverse [] (inl h) = absurd h
NoLead-reverse [] (inr h) = absurd (omega arith)
NoLead-reverse (c ∷ []) h = tt
NoLead-reverse (c ∷ d ∷ ds) (inr h) = absurd (omega arith)
NoLead-reverse (c ∷ d ∷ ds) (inl h) =
    let (x, xs, e, z) = high-first (d ∷ ds) h in
    subst NoLead (ap (λ l. l ++ (c ∷ [])) (sym e) ∙ sym (reverse-cons c (d ∷ ds)))
      (NoLead-snoc x c xs z)

pub Digits-reverse : (b : ℕ) (ys : List ℕ) → Digits b ys → Digits b (reverse ys)
Digits-reverse b [] h = tt
Digits-reverse b (y ∷ ys) h =
    subst (Digits b) (sym (reverse-cons y ys))
      (Digits-append b (reverse ys) (y ∷ []) (Digits-reverse b ys h.1) (h.0, tt))
