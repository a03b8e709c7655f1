-- ===== src/Text/Strings.antt =====
-- utilities.c: `strlen`, `strncpy` and `strrev` on strings that end in a NUL.
use mathlib.Core.List.{reverse-append}
use rtbench.Common.{
  inl, inr, replicate, zero, suc, ap, ◌∙◌, ◌<◌, ℕ, zero, suc, ◌+◌, ◌^◌, ◌≤◌, ◌<◌, ◌≡◌, ◌≢◌, ◌⊎◌,
  refl, arith, Option, some, List, [], ◌∷◌, ◌++◌, reverse, length, length-append, ◌∙◌, subst,
}
use rtbench.Memory.{Mem, store}
use rtbench.Text.{strlen_loop, strlen, u32}

-- The bytes from `p` are `xs`.
abbrev pub Holds : Mem → ℕ → List ℕ → Type 0
Holds m p [] = Unit
Holds m p (x ∷ xs) = (m p ≡ x) × Holds m (p + 1) xs

abbrev pub NonZero : List ℕ → Type 0
NonZero [] = Unit
NonZero (x ∷ xs) = (x ≢ 0) × NonZero xs

-- The string at `p` is `xs`: its bytes, none of them NUL, and a NUL.
pub record IsString (m : Mem) (p : ℕ) (xs : List ℕ) : Type 0 where
  pub holds : Holds m p xs
  pub nonzero : NonZero xs
  pub ends : m (p + length xs) ≡ 0

-- A memory that differs from `m` in `n` bytes from `dst` at most.
abbrev pub Frame : Mem → Mem → ℕ → ℕ → Type 0
Frame m m' dst n = (a : ℕ) → (a < dst) ⊎ (dst + n ≤ a) → m' a ≡ m a

-- The result of a routine that writes the string `xs` at `dst` and nothing else.
pub record Wrote (m : Mem) (dst : ℕ) (xs : List ℕ) (r : Option Mem) : Type 0 where
  pub after : Mem
  pub returned : r ≡ some after
  pub string : IsString after dst xs
  pub frame : Frame m after dst (length xs + 1)

abbrev pub Apart : ℕ → ℕ → ℕ → ℕ → Type 0
Apart p n q k = (p + n ≤ q) ⊎ (q + k ≤ p)

pub Holds-store :
    (m : Mem) (p a v : ℕ) (xs : List ℕ)
    → (a < p) ⊎ (p + length xs ≤ a)
    → Holds m p xs
    → Holds (store m a v) p xs
Holds-store m p a v [] h s = tt
Holds-store m p a v (x ∷ xs) h s = (ground arith, Holds-store m (p + 1) a v xs (omega arith) s.1)

pub Holds-append :
    (m : Mem) (p : ℕ) (xs ys : List ℕ)
    → Holds m p (xs ++ ys)
    → Holds m p xs × Holds m (p + length xs) ys
Holds-append m p [] ys h = (tt, subst (λ q. Holds m q ys) (omega arith) h)
Holds-append m p (x ∷ xs) ys h =
    let (a, b) = Holds-append m (p + 1) xs ys h.1 in
    ((h.0, a), subst (λ q. Holds m q ys) (omega arith) b)

pub NonZero-append : (xs ys : List ℕ) → NonZero xs → NonZero ys → NonZero (xs ++ ys)
NonZero-append [] ys h k = k
NonZero-append (x ∷ xs) ys h k = (h.0, NonZero-append xs ys h.1 k)

pub reverse-cons : (x : ℕ) (xs : List ℕ) → reverse (x ∷ xs) ≡ reverse xs ++ (x ∷ [])
reverse-cons x xs = reverse-append (x ∷ []) xs

pub length-reverse : (xs : List ℕ) → length (reverse xs) ≡ length xs
length-reverse [] = refl
length-reverse (x ∷ xs) =
    rw (reverse-cons x xs) (omega (arith, length-append (reverse xs) (x ∷ []), length-reverse xs))

pub NonZero-reverse : (xs : List ℕ) → NonZero xs → NonZero (reverse xs)
NonZero-reverse [] h = tt
NonZero-reverse (x ∷ xs) h =
    rw (reverse-cons x xs) (NonZero-append (reverse xs) (x ∷ []) (NonZero-reverse xs h.1) (h.0, tt))

strlen_loop_lem :
    (fuel : ℕ) (m : Mem) (p i : ℕ) (xs : List ℕ)
    → Holds m p xs
    → NonZero xs
    → m (p + length xs) ≡ 0
    → length xs < fuel
    → i + length xs < 2 ^ 32
    → strlen_loop fuel m p i ≡ some (i + length xs)
unfolding strlen_loop
strlen_loop_lem zero m p i xs h z e f r = absurd (omega arith)
strlen_loop_lem (suc fuel) m p i [] h z e f r = ground arith
strlen_loop_lem (suc fuel) m p i (x ∷ xs) h z e f r =
    ground (arith, strlen_loop_lem fuel m (p + 1) (u32 (i + 1)) xs h.1 z.1)

-- `strlen` returns the number of bytes before the NUL, given fuel for each of them and a length
-- that a `u32` holds.
pub strlen_lem :
    (fuel : ℕ) (m : Mem) (p : ℕ) (xs : List ℕ)
    → IsString m p xs
    → length xs < fuel
    → length xs < 2 ^ 32
    → strlen fuel m p ≡ some (length xs)
unfolding strlen
strlen_lem fuel m p xs s f r =
    strlen_loop_lem fuel m p 0 xs s.holds s.nonzero s.ends f (omega arith) ∙ ground arith

pub Holds-join :
    (m : Mem) (p : ℕ) (xs ys : List ℕ)
    → Holds m p xs
    → Holds m (p + length xs) ys
    → Holds m p (xs ++ ys)
Holds-join m p [] ys h k = subst (λ q. Holds m q ys) (omega arith) k
Holds-join m p (x ∷ xs) ys h k =
    (h.0, Holds-join m (p + 1) xs ys h.1 (subst (λ q. Holds m q ys) (omega arith) k))

pub Holds-Frame :
    (m m' : Mem) (p q n : ℕ) (xs : List ℕ)
    → Frame m m' q n
    → Apart p (length xs) q n
    → Holds m p xs
    → Holds m' p xs
Holds-Frame m m' p q n [] f d h = tt
Holds-Frame m m' p q n (x ∷ xs) f d h = (
  f p (elim d [ inl l ↦ inl (omega arith) | inr l ↦ inr (omega arith) ]) ∙ h.0,
  Holds-Frame m m' (p + 1) q n xs f
      (elim d [ inl l ↦ inl (omega arith) | inr l ↦ inr (omega arith) ]) h.1,
)

pub Holds-replicate :
    (m : Mem) (p n c : ℕ) → ((k : ℕ) → k < n → m (p + k) ≡ c) → Holds m p (replicate n c)
Holds-replicate m p zero c h = tt
Holds-replicate m p (suc n) c h = (
  ap m (omega arith) ∙ h 0 (omega arith),
  Holds-replicate m (p + 1) n c (λ k lt. ap m (omega arith) ∙ h (suc k) (omega arith)),
)

pub NonZero-replicate : (n c : ℕ) → c ≢ 0 → NonZero (replicate n c)
NonZero-replicate zero c h = tt
NonZero-replicate (suc n) c h = (h, NonZero-replicate n c h)
