-- ===== src/Text/Itoa.antt =====
-- utilities.c: `itoa` against the numeral of its argument.
use mathlib.Core.List.{reverse-append}
use rtbench.Common.{
  ℕ, ◌+◌, ◌-◌, ◌^◌, ◌≤◌, ◌<◌, ◌≡◌, ◌⊎◌, inl, inr, arith, List, [], ◌∷◌, ◌++◌, reverse, true, false,
  length, length-append, ◌∙◌, ap, subst, Option, none, some,
}
use rtbench.Memory.{Mem, store}
use rtbench.Text.{itoa_tail, itoa, is_negative, neg32, strrev}
use rtbench.Text.Strings.{
  Holds, NonZero, IsString, Wrote, Apart, Holds-store, Holds-join, Holds-Frame, NonZero-append,
  length-reverse,
}
use rtbench.Text.Printing.{Printed, itoa_loop-Printed}
use rtbench.Text.Copies.{strrev-Wrote}
use rtbench.Text.Digits.{value-reverse, Digits, IsNumeral, NoLead-reverse, Digits-reverse}

Digits-NonZero : (b : ℕ) (ys : List ℕ) → Digits b ys → NonZero ys
Digits-NonZero b [] h = tt
Digits-NonZero b (y ∷ ys) h = (ground arith, Digits-NonZero b ys h.1)

-- What `itoa` leaves: the numeral of `n` and then `post` at `buf`, in a memory that differs from
-- the one before in the 32 bytes of `tmp_buf` and in what it wrote at `buf` at most.
pub record Result (b n : ℕ) (post : List ℕ) (m : Mem) (tmp buf : ℕ) (r : Option Mem) : Type 0 where
  pub xs : List ℕ
  pub after : Mem
  pub returned : r ≡ some after
  pub numeral : IsNumeral b n xs
  pub short : length xs ≤ 10
  pub string : IsString after buf (xs ++ post)
  pub frame :
      (a : ℕ)
      → (a < tmp) ⊎ (tmp + 32 ≤ a)
      → (a < buf) ⊎ (buf + length (xs ++ post) + 1 ≤ a)
      → after a ≡ m a

module _ (b : ℕ) (two : 2 ≤ b) (small : b ≤ 16) where
  Printed-IsNumeral :
      {n k p : ℕ} {m : Mem} {r : Option (Mem × ℕ)} (q : Printed b n k m p r)
      → IsNumeral b n (reverse q.ys)
  Printed-IsNumeral q = record {
    worth = value-reverse b q.ys ∙ q.worth;
    digits = Digits-reverse b q.ys q.digits;
    lead = NoLead-reverse q.ys q.single;
  }

-- `pre` is what stands in `tmp_buf` before the digits: nothing, or the sign.
module _ (b : ℕ) (two : 2 ≤ b) (small : b ≤ 16) (tmp : ℕ) (m : Mem) (pre : List ℕ)
    (held : Holds m tmp pre) (sound : NonZero pre) (one : length pre ≤ 1) where
  terminated :
      {n : ℕ} {r : Option (Mem × ℕ)} (q : Printed b n 9 m (tmp + length pre) r)
      → IsString (store q.after (tmp + length pre + length q.ys) 0) tmp (pre ++ q.ys)
  terminated q = record {
    holds =
        Holds-store q.after tmp (tmp + length pre + length q.ys) 0 (pre ++ q.ys)
          (inr (omega (arith, length-append pre q.ys)))
          (Holds-join q.after tmp pre q.ys
            (Holds-Frame m q.after tmp (tmp + length pre) (length q.ys) pre q.frame
              (inl (omega arith)) held)
            q.holds);
    nonzero = NonZero-append pre q.ys sound (Digits-NonZero b q.ys q.digits);
    ends = ground (arith, length-append pre q.ys);
  }

  reversed-Result :
      {n buf : ℕ} {r : Option (Mem × ℕ)} {t : Option Mem} (q : Printed b n 9 m (tmp + length pre) r)
      → Wrote (store q.after (tmp + length pre + length q.ys) 0) buf (reverse (pre ++ q.ys)) t
      → Result b n (reverse pre) m tmp buf t
  reversed-Result q w =
      let split : reverse (pre ++ q.ys) ≡ reverse q.ys ++ reverse pre = reverse-append pre q.ys in
      record {
        xs = reverse q.ys;
        after = w.after;
        returned = w.returned;
        numeral = Printed-IsNumeral b two small q;
        short = omega (arith, length-reverse q.ys, q.short);
        string = subst (IsString w.after _) split w.string;
        frame = λ a h k.
            w.frame a
              (elim k [ inl l ↦ inl l | inr g ↦ inr (omega (arith, ap (length {A = ℕ}) split)) ])
            ∙ ground (arith, q.frame a, q.short);
      }

  itoa_tail-Result :
      (fuel buf ud : ℕ)
      → ud < b ^ 10
      → 12 ≤ fuel
      → Apart tmp 32 buf 12
      → Result b ud (reverse pre) m tmp buf (itoa_tail fuel tmp b m (tmp + length pre) buf ud)
  unfolding itoa_tail
  itoa_tail-Result fuel buf ud lt f d =
      finish (itoa_loop-Printed b two small 9 fuel m (tmp + length pre) ud lt (omega arith))
    where
      finish :
          {r : Option (Mem × ℕ)}
          → Printed b ud 9 m (tmp + length pre) r
          → Result b ud
              (reverse pre)
              m
              tmp
              buf
              (elim r [ none ↦ none | some (m', p') ↦ strrev fuel (store m' p' 0) tmp buf ])
      finish {r} q = rw q.returned (
          reversed-Result q (
            strrev-Wrote fuel _ tmp buf (pre ++ q.ys) (terminated q)
              (omega (arith, q.short, length-append pre q.ys))
              (omega (arith, q.short, length-append pre q.ys))
              (omega (arith, q.short, length-append pre q.ys))))

-- `itoa_tail` where nothing stands before the digits.
plain :
    (b : ℕ)
    → 2 ≤ b
    → b ≤ 16
    → (fuel tmp : ℕ) (m : Mem) (buf d : ℕ) → d < b ^ 10
    → 12 ≤ fuel
    → Apart tmp 32 buf 12
    → Result b d [] m tmp buf (itoa_tail fuel tmp b m tmp buf d)
plain b two small fuel tmp m buf d lt f a =
    subst (λ p. Result b d [] m tmp buf (itoa_tail fuel tmp b m p buf d)) (omega arith)
      (itoa_tail-Result b two small tmp m [] tt tt (omega arith) fuel buf d lt f a)

-- `itoa` with `%x` writes the hexadecimal numeral of the 32-bit pattern, with `%d` of an argument
-- that is not negative the decimal one. Nothing else changes but its own `tmp_buf`.
pub itoa-Result :
    (fuel tmp : ℕ) (m : Mem) (buf d : ℕ)
    → 12 ≤ fuel
    → Apart tmp 32 buf 12
    → d < 2 ^ 32
    → Result 16 d [] m tmp buf (itoa fuel tmp m buf b'x' d)
      × (d < 2 ^ 31 → Result 10 d [] m tmp buf (itoa fuel tmp m buf b'd' d))
unfolding itoa
itoa-Result fuel tmp m buf d f a h = (
  plain 16 (omega arith) (omega arith) fuel tmp m buf d (omega arith) f a,
  λ p.
      let e : is_negative d ≡ false = ground arith in
      rw e (plain 10 (omega arith) (omega arith) fuel tmp m buf d (omega arith) f a),
)

-- With `%d` of a negative argument, `itoa` leaves the first byte of the buffer unwritten and puts
-- the minus sign after the digits of the absolute value.
pub itoa_negative :
    (fuel tmp : ℕ) (m : Mem) (buf d : ℕ)
    → 12 ≤ fuel
    → Apart tmp 32 buf 13
    → 2 ^ 31 ≤ d
    → d < 2 ^ 32
    → (r : Result 10
        (2 ^ 32 - d)
        (b'-' ∷ [])
        (store m tmp b'-')
        tmp
        (buf + 1)
        (itoa fuel tmp m buf b'd' d))
      × (r.after buf ≡ m buf)
unfolding itoa
itoa_negative fuel tmp m buf d f a lo hi =
    let e : is_negative d ≡ true = ground arith in
    let n : neg32 d ≡ 2 ^ 32 - d = omega arith in
    let r : Result 10 (2 ^ 32 - d) (b'-' ∷ []) (store m tmp b'-') tmp (buf + 1)
        (itoa_tail fuel tmp 10 (store m tmp b'-') (tmp + 1) (buf + 1) (neg32 d)) =
      subst
        (λ k.
          Result 10 k (b'-' ∷ []) (store m tmp b'-') tmp (buf + 1)
            (itoa_tail fuel tmp 10 (store m tmp b'-') (tmp + 1) (buf + 1) (neg32 d)))
        n
        (itoa_tail-Result 10 (omega arith) (omega arith) tmp (store m tmp b'-') (b'-' ∷ [])
          (ground arith, tt) (omega arith, tt) (omega arith) fuel (buf + 1) (neg32 d) (omega arith)
          f (elim a [ inl l ↦ inl (omega arith) | inr l ↦ inr (omega arith) ])) in
    rw e (
      r,
      r.frame buf (elim a [ inl l ↦ inr (omega arith) | inr l ↦ inl (omega arith) ])
            (inl (omega arith))
          ∙ ground arith,
    )
