-- ===== src/Text/Copies.antt =====
-- utilities.c: what `strncpy` and `strrev` write.
use mathlib.Core.List.{reverse-reverse}
use rtbench.Common.{
  ℕ, zero, suc, ◌+◌, ◌^◌, ◌<◌, ◌≡◌, ◌≢◌, inl, inr, refl, arith, Option, some, List, [], ◌∷◌,
  reverse, length, eq→==, ne→==, ◌∙◌, subst, ap, sym,
}
use rtbench.Memory.{Mem, store}
use rtbench.Text.{strncpy_loop, strncpy, strrev_loop, strrev, dec32, u32}
use rtbench.Text.Strings.{
  Holds, NonZero, IsString, Wrote, Apart, Holds-store, Holds-append, reverse-cons, length-reverse,
  NonZero-reverse, strlen_lem,
}

-- A write just before a written string makes a longer one.
Wrote-cons :
    {m : Mem} {r : Option Mem} (dst x : ℕ) (xs : List ℕ)
    → x ≢ 0
    → Wrote (store m dst x) (dst + 1) xs r
    → Wrote m dst (x ∷ xs) r
Wrote-cons dst x xs z w = record {
  after = w.after;
  returned = w.returned;
  string = record {
    holds = (w.frame dst (inl (omega arith)) ∙ ground arith, w.string.holds);
    nonzero = (z, w.string.nonzero);
    ends = ap w.after (omega arith) ∙ w.string.ends;
  };
  frame = λ a h.
      w.frame a (elim h [ inl p ↦ inl (omega arith) | inr p ↦ inr (omega arith) ]) ∙ ground arith;
}

Wrote-nil : (m : Mem) (dst : ℕ) → Wrote m dst [] (some (store m dst 0))
Wrote-nil m dst = record {
  after = store m dst 0;
  returned = refl;
  string = record { holds = tt; nonzero = tt; ends = ground arith };
  frame = λ a h. ground arith;
}

strncpy_loop-Wrote :
    (fuel : ℕ) (m : Mem) (dst src i : ℕ) (xs : List ℕ)
    → Holds m src xs
    → NonZero xs
    → m (src + length xs) ≡ 0
    → length xs < fuel
    → i + length xs < 2 ^ 32
    → Apart src (length xs + 1) (dst + i) (length xs + 1)
    → Wrote m (dst + i) xs (strncpy_loop fuel m dst src i)
unfolding strncpy_loop
strncpy_loop-Wrote zero m dst src i xs h z e f r d = absurd (omega arith)
strncpy_loop-Wrote (suc fuel) m dst src i [] h z e f r d =
    let e' : m src ≡ 0 = ap m (omega arith) ∙ e in rw (eq→== _ _ e') (Wrote-nil m (dst + i))
strncpy_loop-Wrote (suc fuel) m dst src i (x ∷ xs) h z e f r d =
    let m' : Mem = store m (dst + i) (m src) in
    let p : m src ≢ 0 = subst (λ v. v ≢ 0) (sym h.0) z.0 in
    let rest : Wrote m' (dst + u32 (i + 1)) xs (strncpy_loop fuel m' dst (src + 1) (u32 (i + 1))) =
      strncpy_loop-Wrote fuel m' dst (src + 1) (u32 (i + 1)) xs
        (Holds-store m (src + 1) (dst + i) (m src) xs (omega arith) h.1) z.1 (ground arith)
        (omega arith) (omega arith) (omega arith) in
    rw (ne→== (m src) 0 p) (
      subst (λ v. Wrote m (dst + i) (v ∷ xs) (strncpy_loop fuel m' dst (src + 1) (u32 (i + 1)))) h.0
        (Wrote-cons (dst + i) (m src) xs p (
          subst (λ q. Wrote m' q xs (strncpy_loop fuel m' dst (src + 1) (u32 (i + 1))))
            (omega arith) rest)))

-- `strncpy` copies the string at `src` with its NUL to `dst + offset` and writes nothing else,
-- where the two ranges do not overlap.
pub strncpy-Wrote :
    (fuel : ℕ) (m : Mem) (dst src offset : ℕ) (xs : List ℕ)
    → IsString m src xs
    → length xs < fuel
    → offset + length xs < 2 ^ 32
    → Apart src (length xs + 1) (dst + offset) (length xs + 1)
    → Wrote m (dst + offset) xs (strncpy fuel m dst src offset)
unfolding strncpy
strncpy-Wrote fuel m dst src offset xs s f r d =
    strncpy_loop-Wrote fuel m dst src offset xs s.holds s.nonzero s.ends f r d

-- The loop of `strrev` reads its source from the end: `ys` is the source reversed.
strrev_loop-Wrote :
    (m : Mem) (src dst k : ℕ) (ys : List ℕ)
    → Holds m src (reverse ys)
    → NonZero ys
    → k + length ys < 2 ^ 32
    → Apart src (length ys) (dst + k) (length ys + 1)
    → Wrote m (dst + k) ys (some (strrev_loop m src dst (dec32 (length ys)) k (length ys)))
unfolding strrev_loop
strrev_loop-Wrote m src dst k [] h z r d = Wrote-nil m (dst + k)
strrev_loop-Wrote m src dst k (y ∷ ys) h z r d =
    let n : ℕ = length ys in
    let parts : Holds m src (reverse ys) × Holds m (src + length (reverse ys)) (y ∷ []) =
      Holds-append m src (reverse ys) (y ∷ []) (subst (λ l. Holds m src l) (reverse-cons y ys) h) in
    let last : m (src + n) ≡ y = subst (λ j. m (src + j) ≡ y) (length-reverse ys) parts.1.0 in
    let m' : Mem = store m (dst + k) y in
    let rest : Wrote m' (dst + u32 (k + 1)) ys
        (some (strrev_loop m' src dst (dec32 n) (u32 (k + 1)) n)) =
      strrev_loop-Wrote m' src dst (u32 (k + 1)) ys
        (Holds-store m src (dst + k) y (reverse ys) (omega (arith, length-reverse ys)) parts.0) z.1
        (omega arith) (omega arith) in
    let loop : Mem → ℕ → Option Mem = λ m₁ j. some (strrev_loop m₁ src dst j (u32 (k + 1)) n) in
    subst (λ j. Wrote m (dst + k) (y ∷ ys) (loop (store m (dst + k) (m (src + j))) (dec32 j)))
      {x = n} {y = dec32 (suc n)} (omega arith)
      (subst (λ v. Wrote m (dst + k) (y ∷ ys) (loop (store m (dst + k) v) (dec32 n))) (sym last)
        (Wrote-cons (dst + k) y ys z.0
          (subst (λ q. Wrote m' q ys (loop m' (dec32 n))) (omega arith) rest)))

-- `strrev` writes the string at `src` reversed, with a NUL, at `dst` and nothing else, where the
-- two ranges do not overlap.
pub strrev-Wrote :
    (fuel : ℕ) (m : Mem) (src dst : ℕ) (xs : List ℕ)
    → IsString m src xs
    → length xs < fuel
    → length xs < 2 ^ 32
    → Apart src (length xs) dst (length xs + 1)
    → Wrote m dst (reverse xs) (strrev fuel m src dst)
unfolding strrev
strrev-Wrote fuel m src dst xs s f r d =
    let n : ℕ = length (reverse xs) in
    let e : n ≡ length xs = length-reverse xs in
    let loop : Wrote m (dst + 0) (reverse xs) (some (strrev_loop m src dst (dec32 n) 0 n)) =
      strrev_loop-Wrote m src dst 0 (reverse xs)
        (subst (λ l. Holds m src l) (sym (reverse-reverse xs)) s.holds)
        (NonZero-reverse xs s.nonzero) (omega arith) (omega arith) in
    rw (strlen_lem fuel m src xs s f r) (
      subst
        (λ q.
          Wrote m q (reverse xs) (some (strrev_loop m src dst (dec32 (length xs)) 0 (length xs))))
        (omega arith)
        (subst (λ l. Wrote m (dst + 0) (reverse xs) (some (strrev_loop m src dst (dec32 l) 0 l))) e
          loop))
