-- ===== src/Text/Atoi.antt =====
-- utilities.c: `atoi` on numerals.
use rtbench.Common.{
  ℕ, suc, ◌+◌, ◌-◌, ◌*◌, ◌^◌, ◌≤◌, ◌<◌, ◌≡◌, refl, arith, List, [], ◌∷◌, false, length, ◌∙◌, ap,
  subst, sym, Option, some, ◌==◌, eq→==, append-nil,
}
use rtbench.Memory.{Mem}
use rtbench.Text.{atoi_loop, atoi_skip, atoi, itoa, neg32, u32, digit_value}
use rtbench.Text.Strings.{Holds, IsString, Apart, strlen_lem}
use rtbench.Text.Digits.{char_value, value, value-le, IsDigit, Digits, NoLead, IsNumeral}
use rtbench.Text.Itoa.{Result, itoa-Result}

module _ (b : ℕ) (two : 2 ≤ b) (small : b ≤ 16) where
  digit_value-IsDigit : (tval c : ℕ) → IsDigit b c → digit_value tval c ≡ char_value c
  digit_value-IsDigit tval c d = ground arith

  atoi_loop_lem :
      (m : Mem) (p tval val : ℕ) (xs : List ℕ)
      → Holds m p xs
      → Digits b xs
      → value b val xs < 2 ^ 32
      → atoi_loop m b p tval val (length xs) ≡ value b val xs
  unfolding atoi_loop value
  atoi_loop_lem m p tval val [] h d lt = refl
  atoi_loop_lem m p tval val (x ∷ xs) h d lt =
      let e : digit_value tval (m p) ≡ char_value x =
        ap (digit_value tval) h.0 ∙ digit_value-IsDigit tval x d.0 in
      let s : u32 (u32 (val * b) + digit_value tval (m p)) ≡ val * b + char_value x =
        omega (arith, value-le b (val * b + char_value x) xs (omega arith), e) in
      ap (λ v. atoi_loop m b (p + 1) (digit_value tval (m p)) v (length xs)) s
      ∙ atoi_loop_lem m (p + 1) (digit_value tval (m p)) (val * b + char_value x) xs h.1 d.1 lt

  -- Nothing is skipped in front of a numeral.
  atoi_skip-numeral :
      (m : Mem) (str : ℕ) (xs : List ℕ)
      → IsString m str xs
      → Digits b xs
      → NoLead xs
      → (atoi_skip m str ≡ 0) × ((m str == b'-') ≡ false)
  unfolding atoi_skip
  atoi_skip-numeral m str [] s d l = absurd l
  atoi_skip-numeral m str (x ∷ []) s d l = (ground arith, ground arith)
  atoi_skip-numeral m str (x ∷ y ∷ xs) s d l = (ground arith, ground arith)

  -- `atoi` returns the number whose numeral in its base the string is, whatever its uninitialised
  -- variable holds.
  pub atoi-numeral :
      (fuel junk : ℕ) (m : Mem) (str n : ℕ) (xs : List ℕ)
      → IsString m str xs
      → IsNumeral b n xs
      → n < 2 ^ 32
      → length xs < fuel
      → length xs < 2 ^ 32
      → atoi fuel junk m str b ≡ some n
  unfolding atoi
  atoi-numeral fuel junk m str n xs s num lt f l =
      let (skip, plus) = atoi_skip-numeral m str xs s num.digits num.lead in
      rw (strlen_lem fuel m str xs s f l, plus, skip)
        (ap some (
          subst (λ q. atoi_loop m b q junk 0 (length xs - 0) ≡ n) (omega arith)
            (subst (λ k. atoi_loop m b str junk 0 k ≡ n) (omega arith)
              (atoi_loop_lem m str junk 0 xs s.holds num.digits (omega (arith, num.worth))
                ∙ num.worth))))

  atoi_skip_minus :
      (m : Mem) (str : ℕ) (xs : List ℕ)
      → IsString m str (b'-' ∷ xs)
      → Digits b xs
      → NoLead xs
      → atoi_skip m str ≡ 1
  unfolding atoi_skip
  atoi_skip_minus m str [] s d l = absurd l
  atoi_skip_minus m str (x ∷ xs) s d l = ground arith

  -- After a minus sign `atoi` returns the two's complement of the number.
  pub atoi_minus :
      (fuel junk : ℕ) (m : Mem) (str n : ℕ) (xs : List ℕ)
      → IsString m str (b'-' ∷ xs)
      → IsNumeral b n xs
      → n < 2 ^ 32
      → length xs + 1 < fuel
      → length xs + 1 < 2 ^ 32
      → atoi fuel junk m str b ≡ some (neg32 n)
  unfolding atoi
  atoi_minus fuel junk m str n xs s num lt f l =
      rw (strlen_lem fuel m str (b'-' ∷ xs) s (omega arith) (omega arith), eq→== _ _ s.holds.0)
        (subst
          (λ k.
            some (neg32 (atoi_loop m b (str + k) junk 0 (suc (length xs) - k))) ≡ some (neg32 n))
          (sym (atoi_skip_minus m str xs s num.digits num.lead))
          (ap (λ v. some (neg32 v))
            (ap (atoi_loop m b (str + 1) junk 0) (omega arith)
              ∙ atoi_loop_lem m (str + 1) junk 0 xs s.holds.1 num.digits (omega (arith, num.worth))
              ∙ num.worth)))

-- What `itoa` prints of a 32-bit pattern with `%x`, and of an argument that is not negative with
-- `%d`, `atoi` reads back in the same base.
pub atoi-itoa :
    (fuel junk tmp : ℕ) (m : Mem) (buf d : ℕ)
    → 12 ≤ fuel
    → Apart tmp 32 buf 12
    → d < 2 ^ 32
    → ((m' : Mem) × (itoa fuel tmp m buf b'x' d ≡ some m') × (atoi fuel junk m' buf 16 ≡ some d))
      × (d < 2 ^ 31
          → (m' : Mem) × (itoa fuel tmp m buf b'd' d ≡ some m')
            × (atoi fuel junk m' buf 10 ≡ some d))
atoi-itoa fuel junk tmp m buf d f a h =
    let (x, dec) = itoa-Result fuel tmp m buf d f a h in
    (read 16 (omega arith) (omega arith) x, λ p. read 10 (omega arith) (omega arith) (dec p))
  where
    read :
        (b : ℕ)
        → 2 ≤ b
        → b ≤ 16
        → {r : Option Mem} → Result b d [] m tmp buf r
        → (m' : Mem) × (r ≡ some m') × (atoi fuel junk m' buf b ≡ some d)
    read b two small r = (
      r.after,
      r.returned,
      atoi-numeral b two small fuel junk r.after buf d r.xs
          (subst (IsString r.after buf) (append-nil r.xs) r.string) r.numeral h
          (omega (arith, r.short)) (omega (arith, r.short)),
    )
