-- ===== src/Serial/Tests.antt =====
-- Formats, printed.
use rtbench.Common.{◌≡◌, refl, some, List, [], ◌∷◌, arith, get_or}
use rtbench.Memory.{Mem}
use rtbench.Text.Strings.{IsString}
use rtbench.Serial.{
  serial_printf, print_arg, print_hex, hex_loop, print_dec, dec_loop, copy_back, print_chars,
  print_str_at, serial_putchar,
}
use rtbench.Serial.Format.{
  Piece, plain, decimal, hexadecimal, character, string, HasPieces, done, plain_at, decimal_at,
  hexadecimal_at, character_at, string_at,
}

-- "%d %x%c%s\n" at 0 and "ab" at 20.
abbrev text : Mem
text a =
    get_or
      (b'%' ∷ b'd' ∷ b' ' ∷ b'%' ∷ b'x' ∷ b'%' ∷ b'c' ∷ b'%' ∷ b's' ∷ 10 ∷ 0 ∷ 0 ∷ 0 ∷ 0 ∷ 0 ∷ 0 ∷ 0
        ∷ 0 ∷ 0 ∷ 0 ∷ b'a' ∷ b'b' ∷ 0 ∷ [])
      a 0

printf_runs :
    serial_printf 30 text 0 (507 ∷ 0xBEEF ∷ b'!' ∷ 20 ∷ []) []
    ≡ some
        (b'5' ∷ b'0' ∷ b'7' ∷ b' ' ∷ b'b' ∷ b'e' ∷ b'e' ∷ b'f' ∷ b'!' ∷ b'a' ∷ b'b' ∷ 13 ∷ 10 ∷ [])
unfolding serial_printf print_arg print_hex hex_loop print_dec dec_loop copy_back print_chars
    print_str_at serial_putchar
printf_runs = refl

ab-IsString : IsString text 20 (b'a' ∷ b'b' ∷ [])
ab-IsString = record {
  holds = (refl, (refl, tt));
  nonzero = (omega arith, (omega arith, tt));
  ends = refl;
}

abbrev pieces : List Piece
pieces =
    decimal 507
    ∷ plain b' '
    ∷ hexadecimal 0xBEEF
    ∷ character b'!'
    ∷ string (b'a' ∷ b'b' ∷ [])
    ∷ plain 10
    ∷ []

text-HasPieces : HasPieces text 0 (507 ∷ 0xBEEF ∷ b'!' ∷ 20 ∷ []) 8 pieces
text-HasPieces = decimal_at refl refl (omega arith) (
    plain_at (omega arith) (omega arith) (
      hexadecimal_at refl refl (omega arith) (
        character_at refl refl
          (string_at refl refl ab-IsString (plain_at (omega arith) (omega arith) (done refl))))))

negative_runs : print_dec 11 0xFFFFFFFF (b'=' ∷ []) ≡ some (b'=' ∷ [])
unfolding print_dec copy_back print_chars
negative_runs = refl
