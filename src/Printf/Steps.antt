-- ===== src/Printf/Steps.antt =====
-- utilities.c: what the loops of `console_printf` do in one round, for every conversion.
use rtbench.Common.{
  ℕ, suc, ◌+◌, ◌%◌, ◌≡◌, ◌≢◌, inl, inr, refl, ap, arith, List, ◌∷◌, true, some, eq→==, ne→==,
}
use rtbench.Printf.{
  Buffers, Printing, putchar, print_str_from, va_arg, next_arg, print_number, integer_arg,
  character_arg, string_arg, fill_width, conversion, pick_next_char, print_format,
}
use rtbench.Printf.Pieces.{IsLetter, IsWidth}

pub va_arg-cons :
    (s : Printing) (n : ℕ) (rest : List ℕ)
    → s.args ≡ n ∷ rest
    → va_arg s ≡ some (n, record s { args = rest })
unfolding va_arg
va_arg-cons s n rest e = ap (λ l. next_arg l s) e

pub conversion_letter : (ch base n : ℕ) → IsLetter ch base n → conversion ch ≡ integer_arg
unfolding conversion
conversion_letter ch base n (inl (e, ten, small)) = rw e refl
conversion_letter ch base n (inr (e, sixteen, small)) = rw e refl

pub conversion_width : (w : ℕ) → IsWidth w → conversion (b'0' + w) ≡ fill_width w
unfolding conversion
conversion_width w (inl e) = rw e refl
conversion_width w (inr (inl e)) = rw e refl
conversion_width w (inr (inr e)) = rw e refl

pub conversion_character : (ch : ℕ) → ch ≡ b'c' → conversion ch ≡ character_arg
unfolding conversion
conversion_character ch e = rw e refl

pub conversion_text : (ch : ℕ) → ch ≡ b's' → conversion ch ≡ string_arg
unfolding conversion
conversion_text ch e = rw e refl

pub pick_number :
    (fuel : ℕ) (b : Buffers) (q n : ℕ) (rest : List ℕ) (s t : Printing)
    → conversion (s.memory q) ≡ integer_arg
    → va_arg s ≡ some (n, record s { args = rest })
    → print_number fuel b (s.memory q) n (record s { args = rest }) ≡ some t
    → pick_next_char (suc fuel) b q s ≡ some (t, q + 1)
unfolding pick_next_char
pick_number fuel b q n rest s t letter arg printed =
    rw (letter, pick_next_char) (rw (arg, printed) refl)

pub pick_fill :
    (fuel : ℕ) (b : Buffers) (q w : ℕ) (s : Printing)
    → conversion (s.memory q) ≡ fill_width w
    → pick_next_char (suc fuel) b q s
      ≡ pick_next_char fuel b (q + 1) (record s { lead_zero = true; lead_fill = w })
unfolding pick_next_char
pick_fill fuel b q w s digit = rw (digit, pick_next_char) refl

pub pick_character :
    (fuel : ℕ) (b : Buffers) (q n : ℕ) (rest : List ℕ) (s : Printing)
    → conversion (s.memory q) ≡ character_arg
    → va_arg s ≡ some (n, record s { args = rest })
    → pick_next_char (suc fuel) b q s ≡ some (putchar (n % 256) (record s { args = rest }), q + 1)
unfolding pick_next_char
pick_character fuel b q n rest s letter arg = rw (letter, pick_next_char) (rw arg refl)

pub pick_text :
    (fuel : ℕ) (b : Buffers) (q n : ℕ) (rest : List ℕ) (s t : Printing)
    → conversion (s.memory q) ≡ string_arg
    → va_arg s ≡ some (n, record s { args = rest })
    → print_str_from fuel n (record s { args = rest; str = n }) ≡ some t
    → pick_next_char (suc fuel) b q s ≡ some (t, q + 1)
unfolding pick_next_char
pick_text fuel b q n rest s t letter arg printed =
    rw (letter, pick_next_char) (rw (arg, printed) refl)

pub format_end :
    (fuel : ℕ) (b : Buffers) (p : ℕ) (s : Printing)
    → s.memory p ≡ 0
    → print_format (suc fuel) b p s ≡ some s
unfolding print_format
format_end fuel b p s e = rw (eq→== (s.memory p) 0 e) refl

pub format_plain :
    (fuel : ℕ) (b : Buffers) (p : ℕ) (s : Printing)
    → s.memory p ≢ 0
    → s.memory p ≢ b'%'
    → print_format (suc fuel) b p s ≡ print_format fuel b (p + 1) (putchar (s.memory p) s)
unfolding print_format
format_plain fuel b p s nz np = rw (ne→== (s.memory p) 0 nz, ne→== (s.memory p) b'%' np) refl

pub format_conversion :
    (fuel : ℕ) (b : Buffers) (p q : ℕ) (s t : Printing)
    → s.memory p ≡ b'%'
    → pick_next_char fuel b (p + 1) s ≡ some (t, q)
    → print_format (suc fuel) b p s ≡ print_format fuel b q t
unfolding print_format
format_conversion fuel b p q s t e picked =
    rw (ne→== (s.memory p) 0 (λ z. ground (arith, e, z)), eq→== (s.memory p) b'%' e, picked) refl
