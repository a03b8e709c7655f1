-- ===== src/Memory/Writes.antt =====
-- What a write leaves in a memory of bytes, and one write behind another.
use rtbench.Common.{
  ℕ, ◌+◌, ◌-◌, ◌/◌, ◌%◌, ◌^◌, ◌≤◌, ◌<◌, ◌≡◌, ◌⊎◌, inl, inr, refl, sym, ap, ◌∙◌, subst, arith, ◌==◌,
  if◌then◌else◌, dec_lt,
}
use rtbench.Memory.{Mem}
use rtbench.LinearCode.{store32}

-- The memory `m'` has the bytes `b` from `p` on, `n` of them, and is otherwise `m`.
pub record Written (m : Mem) (p n : ℕ) (b : ℕ → ℕ) (m' : Mem) : Type 0 where
  pub bytes : (k : ℕ) → k < n → m' (p + k) ≡ b k
  pub frame : (a : ℕ) → (a < p) ⊎ (p + n ≤ a) → m' a ≡ m a

-- Four bytes by their place.
unfoldable pub quad : (a b c d k : ℕ) → ℕ
quad a b c d k = if k == 0 then a else if k == 1 then b else if k == 2 then c else d

-- The bytes of a word, the lowest first.
abbrev pub word_byte : ℕ → ℕ → ℕ
word_byte v = quad (v % 256) (v / 2 ^ 8 % 256) (v / 2 ^ 16 % 256) (v / 2 ^ 24 % 256)

pub store32-Written : (m : Mem) (p v : ℕ) → Written m p 4 (word_byte v) (store32 m p v)
unfolding store32 quad
store32-Written m p v = record { bytes = λ k lt. ground arith; frame = λ x out. ground arith }

pub Written-zero : {b : ℕ → ℕ} (m : Mem) (p : ℕ) → Written m p 0 b m
Written-zero m p = record { bytes = λ j lt. absurd (omega arith); frame = λ a out. refl }

behind : (p n k a : ℕ) → (a < p) ⊎ (p + (n + k) ≤ a) → (a < p + n) ⊎ (p + n + k ≤ a)
behind p n k a (inl l) = inl (omega arith)
behind p n k a (inr l) = inr (omega arith)

before : (p n k a : ℕ) → (a < p) ⊎ (p + (n + k) ≤ a) → (a < p) ⊎ (p + n ≤ a)
before p n k a (inl l) = inl l
before p n k a (inr l) = inr (omega arith)

-- Two writes, one behind the other.
pub Written-append :
    {m m1 m2 : Mem} (p n k : ℕ) {b b' c : ℕ → ℕ}
    → Written m p n b m1
    → Written m1 (p + n) k b' m2
    → ((j : ℕ) → j < n → c j ≡ b j)
    → ((j : ℕ) → j < k → c (n + j) ≡ b' j)
    → Written m p (n + k) c m2
Written-append {m} {m1} {m2} p n k {b} {b'} {c} x y low high = record {
  bytes = λ j lt. elim (dec_lt j n) [
    | yes below ↦ y.frame (p + j) (inl (omega arith)) ∙ x.bytes j below ∙ sym (low j below)
    | no above ↦
        let split : n + (j - n) ≡ j = omega arith in
        let place : p + n + (j - n) ≡ p + j = omega arith in
        subst (λ t. m2 t ≡ c j) place
          (y.bytes (j - n) (omega arith) ∙ sym (high (j - n) (omega arith)) ∙ ap c split)
  ];
  frame = λ a out. y.frame a (behind p n k a out) ∙ x.frame a (before p n k a out);
}
