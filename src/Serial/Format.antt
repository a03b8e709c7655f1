-- ===== src/Serial/Format.antt =====
-- serial.c: `serial_printf` against the pieces of its format.
use rtbench.Common.{
  ℕ, zero, suc, ◌+◌, ◌^◌, ◌%◌, ◌<◌, ◌≡◌, ◌≢◌, refl, sym, ap, ◌∙◌, arith, Option, some, List, [],
  ◌∷◌, ◌++◌, length, eq→==, ne→==,
}
use mathlib.Core.List.{append_assoc, append-nil}
use mathlib.Core.Option
use rtbench.Memory.{Mem}
use rtbench.Text.Digits.{IsNumeral}
use rtbench.Text.Strings.{Holds, NonZero, IsString}
use rtbench.Serial.{sent, serial_putchar, print_str_at, print_arg, serial_printf}
use rtbench.Serial.Hexadecimal.{print_hex-IsNumeral}
use rtbench.Serial.Decimal.{print_dec-IsNumeral}

pub data Piece : Type 0 where
  plain : ℕ → Piece
  decimal : ℕ → Piece
  hexadecimal : ℕ → Piece
  character : ℕ → Piece
  string : List ℕ → Piece

-- What is skipped behind a `%`, such as a width, takes no argument.
abbrev pub IsSkipped : ℕ → Type 0
IsSkipped ch = (ch ≢ b'd') × (ch ≢ b'x') × (ch ≢ b'c') × (ch ≢ b's')

-- The format at `p` with the arguments `ap` has the pieces; `k` counts the rounds that printing takes,
-- those of the strings included.
pub data HasPieces (m : Mem) : ℕ → List ℕ → ℕ → List Piece → Type 0 where
  done : {p : ℕ} {ap : List ℕ} → m p ≡ 0 → HasPieces m p ap 0 []
  plain_at :
      {p k : ℕ} {ap : List ℕ} {ps : List Piece}
      → m p ≢ 0
      → m p ≢ b'%'
      → HasPieces m (p + 1) ap k ps
      → HasPieces m p ap (suc k) (plain (m p) ∷ ps)
  decimal_at :
      {p k n : ℕ} {ap : List ℕ} {ps : List Piece}
      → m p ≡ b'%'
      → m (p + 1) ≡ b'd'
      → n < 2 ^ 31
      → HasPieces m (p + 2) ap k ps
      → HasPieces m p (n ∷ ap) (suc k) (decimal n ∷ ps)
  hexadecimal_at :
      {p k n : ℕ} {ap : List ℕ} {ps : List Piece}
      → m p ≡ b'%'
      → m (p + 1) ≡ b'x'
      → n < 2 ^ 32
      → HasPieces m (p + 2) ap k ps
      → HasPieces m p (n ∷ ap) (suc k) (hexadecimal n ∷ ps)
  character_at :
      {p k n : ℕ} {ap : List ℕ} {ps : List Piece}
      → m p ≡ b'%'
      → m (p + 1) ≡ b'c'
      → HasPieces m (p + 2) ap k ps
      → HasPieces m p (n ∷ ap) (suc k) (character (n % 256) ∷ ps)
  string_at :
      {p k a : ℕ} {s : List ℕ} {ap : List ℕ} {ps : List Piece}
      → m p ≡ b'%'
      → m (p + 1) ≡ b's'
      → IsString m a s
      → HasPieces m (p + 2) ap k ps
      → HasPieces m p (a ∷ ap) (suc (k + length s)) (string s ∷ ps)
  skipped_at :
      {p k : ℕ} {ap : List ℕ} {ps : List Piece}
      → m p ≡ b'%'
      → IsSkipped (m (p + 1))
      → HasPieces m (p + 2) ap k ps
      → HasPieces m p ap (suc k) ps

-- A newline goes out as carriage return and newline.
abbrev pub sent_all : List ℕ → List ℕ
sent_all [] = []
sent_all (c ∷ cs) = sent c ++ sent_all cs

-- The bytes that go out for the pieces.
pub data Prints : List Piece → List ℕ → Type 0 where
  nothing : Prints [] []
  prints_plain :
      {c : ℕ} {ps : List Piece} {t : List ℕ} → Prints ps t → Prints (plain c ∷ ps) (sent c ++ t)
  prints_decimal :
      {n : ℕ} {ps : List Piece} {xs t : List ℕ}
      → IsNumeral 10 n xs
      → Prints ps t
      → Prints (decimal n ∷ ps) (xs ++ t)
  prints_hexadecimal :
      {n : ℕ} {ps : List Piece} {xs t : List ℕ}
      → IsNumeral 16 n xs
      → Prints ps t
      → Prints (hexadecimal n ∷ ps) (xs ++ t)
  prints_character :
      {c : ℕ} {ps : List Piece} {t : List ℕ} → Prints ps t → Prints (character c ∷ ps) (sent c ++ t)
  prints_string :
      {s : List ℕ} {ps : List Piece} {t : List ℕ}
      → Prints ps t
      → Prints (string s ∷ ps) (sent_all s ++ t)

print_str_at_lem :
    (fuel : ℕ) (m : Mem) (p : ℕ) (s out : List ℕ)
    → Holds m p s
    → NonZero s
    → m (p + length s) ≡ 0
    → length s < fuel
    → print_str_at fuel m p out ≡ some (out ++ sent_all s)
unfolding print_str_at serial_putchar
print_str_at_lem zero m p s out h nz e f = absurd (omega arith)
print_str_at_lem (suc fuel) m p [] out h nz e f =
    rw (eq→== (m p) 0 (ap m (omega arith) ∙ e)) (ap some (sym (append-nil out)))
print_str_at_lem (suc fuel) m p (c ∷ s) out h nz e f =
    rw (h.0, ne→== c 0 nz.0)
      (print_str_at_lem fuel m (p + 1) s (out ++ sent c) h.1 nz.1 (ap m (omega arith) ∙ e)
          (omega arith)
        ∙ ap some (append_assoc out (sent c) (sent_all s)))

-- A conversion that prints `xs`, before the rest of the format.
after_arg :
    (fuel : ℕ) (m : Mem) (p : ℕ) (ap' ap'' out xs : List ℕ)
    → m p ≡ b'%'
    → print_arg fuel m (m (p + 1)) ap' out ≡ some (ap'', out ++ xs)
    → serial_printf (suc fuel) m p ap' out ≡ serial_printf fuel m (p + 2) ap'' (out ++ xs)
unfolding serial_printf
after_arg fuel m p ap' ap'' out xs e a = rw e (rw a refl)

printf_done :
    (fuel : ℕ) (m : Mem) (p : ℕ) (args out : List ℕ)
    → m p ≡ 0
    → serial_printf (suc fuel) m p args out ≡ some (out ++ [])
unfolding serial_printf
printf_done fuel m p args out e = rw e (ap some (sym (append-nil out)))

printf_plain :
    (fuel : ℕ) (m : Mem) (p : ℕ) (args out : List ℕ)
    → m p ≢ 0
    → m p ≢ b'%'
    → serial_printf (suc fuel) m p args out ≡ serial_printf fuel m (p + 1) args (out ++ sent (m p))
unfolding serial_printf serial_putchar
printf_plain fuel m p args out nz np = rw (ne→== _ _ nz) (rw (ne→== (m p) b'%' np) refl)

print_arg_skipped :
    (fuel : ℕ) (m : Mem) (ch : ℕ) (args out : List ℕ)
    → IsSkipped ch
    → print_arg fuel m ch args out ≡ some (args, out ++ [])
unfolding print_arg
print_arg_skipped fuel m ch [] out (d, x, c, s) =
    rw (ne→== ch b'd' d, ne→== ch b'x' x, ne→== ch b'c' c, ne→== ch b's' s, append-nil out) refl
print_arg_skipped fuel m ch (a ∷ args) out (d, x, c, s) =
    rw (ne→== ch b'd' d, ne→== ch b'x' x, ne→== ch b'c' c, ne→== ch b's' s, append-nil out) refl

append_some :
    {r : Option (List ℕ)} (out xs t : List ℕ)
    → r ≡ some ((out ++ xs) ++ t)
    → r ≡ some (out ++ (xs ++ t))
append_some out xs t e = e ∙ ap some (append_assoc out xs t)

-- `serial_printf` of a format with these pieces prints them in order, a newline as carriage return
-- and newline, a number as its numeral; a width is skipped with its `%`, and the letter behind it is
-- a character like others; decimals are below 2^31, and the fuel exceeds the rounds
-- and 11.
pub serial_printf-Prints :
    (fuel : ℕ) {m : Mem} {p k : ℕ} {ap : List ℕ} {ps : List Piece}
    → HasPieces m p ap k ps
    → (out : List ℕ) → k + 11 < fuel
    → (t : List ℕ) × Prints ps t × (serial_printf fuel m p ap out ≡ some (out ++ t))
unfolding print_arg serial_putchar
serial_printf-Prints zero h out f = absurd (omega arith)
serial_printf-Prints (suc fuel) {m} {p} (done e) out f = ([], nothing, printf_done fuel m p _ out e)
serial_printf-Prints (suc fuel) {m} {p} (plain_at nz np h) out f =
    let (t, pr, e) = serial_printf-Prints fuel h (out ++ sent (m p)) (omega arith) in
    (
      sent (m p) ++ t,
      prints_plain pr,
      append_some out (sent (m p)) t (printf_plain fuel m p _ out nz np ∙ e),
    )
serial_printf-Prints (suc fuel) {m} {p} (decimal_at {n = n} {ap = args} e d lt h) out f =
    let (xs, is, r) = (print_dec-IsNumeral fuel n out (omega arith)).0 lt in
    let (t, pr, e') = serial_printf-Prints fuel h (out ++ xs) (omega arith) in
    (
      xs ++ t,
      prints_decimal is pr,
      append_some out xs t (
          after_arg fuel m p (n ∷ args) args out xs e (rw d (ap (Option.map (λ o. (args, o))) r))
          ∙ e'),
    )
serial_printf-Prints (suc fuel) {m} {p} (hexadecimal_at {n = n} {ap = args} e d lt h) out f =
    let (xs, is, r) = print_hex-IsNumeral n out lt in
    let (t, pr, e') = serial_printf-Prints fuel h (out ++ xs) (omega arith) in
    (
      xs ++ t,
      prints_hexadecimal is pr,
      append_some out xs t
          (after_arg fuel m p (n ∷ args) args out xs e (rw d (ap (λ o. some (args, o)) r)) ∙ e'),
    )
serial_printf-Prints (suc fuel) {m} {p} (character_at {n = n} {ap = args} e d h) out f =
    let (t, pr, e') = serial_printf-Prints fuel h (out ++ sent (n % 256)) (omega arith) in
    (
      sent (n % 256) ++ t,
      prints_character pr,
      append_some out (sent (n % 256)) t
          (after_arg fuel m p (n ∷ args) args out (sent (n % 256)) e (rw d refl) ∙ e'),
    )
serial_printf-Prints (suc fuel) {m} {p} (string_at {a = a} {s = s} {ap = args} e d is h) out f =
    let r = print_str_at_lem fuel m a s out is.holds is.nonzero is.ends (omega arith) in
    let (t, pr, e') = serial_printf-Prints fuel h (out ++ sent_all s) (omega arith) in
    (
      sent_all s ++ t,
      prints_string pr,
      append_some out (sent_all s) t (
          after_arg fuel m p (a ∷ args) args out (sent_all s) e
            (rw d (ap (Option.map (λ o. (args, o))) r))
          ∙ e'),
    )
serial_printf-Prints (suc fuel) {m} {p} {ap = args} (skipped_at e d h) out f =
    let (t, pr, e') = serial_printf-Prints fuel h (out ++ []) (omega arith) in
    (
      t,
      pr,
      append_some out [] t (
          after_arg fuel m p args args out [] e (print_arg_skipped fuel m (m (p + 1)) args out d)
          ∙ e'),
    )
