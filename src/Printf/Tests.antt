-- ===== src/Printf/Tests.antt =====
-- `kprintf` with a format of two numbers.
use rtbench.Common.{
  ◌≤◌, ℕ, ◌-◌, ◌≡◌, inl, inr, refl, arith, List, [], ◌∷◌, ◌++◌, Option, some, ltb, if◌then◌else◌,
  get_or, map,
}
use rtbench.Memory.{Mem, memset}
use rtbench.Text.{
  itoa, itoa_tail, itoa_loop, strlen, strlen_loop, strncpy, strncpy_loop, strrev, strrev_loop,
}
use rtbench.Video.{Vga, print_str, vga_putchar, vga_update_pos, next_column, vga_movecursor}
use rtbench.Printf.{
  Buffers, Printing, Output, kprintf, console_printf, print_format, pick_next_char, va_arg,
  conversion, clear_fill, print_number, print_filled, print_str_from,
}
use rtbench.Printf.Pieces.{
  Piece, number, plain, AreApart, Outside, HasPieces, done, plain_at, number_at, filled_at, Prints,
}
use rtbench.Printf.Ready.{AgreeOutside}
use rtbench.Printf.Format.{console_printf-Prints}
use rtbench.Printf.Both.{kprintf-Prints}
use rtbench.Serial.Format

-- The format stands at 0x100.
abbrev image : List ℕ → Mem
image t a = if ltb a 0x100 then 0 else get_or t (a - 0x100) 0

abbrev buffers : Buffers
buffers = record { local_buf = 0; tmp_buf = 32; int_buf = 64 }

abbrev vga : Vga
vga = record { row = 0; col = 0; attr = 15; video = λ a. 0; outs = [] }

-- "%2x:%d"
abbrev wide : Mem
wide = image (b'%' ∷ b'2' ∷ b'x' ∷ b':' ∷ b'%' ∷ b'd' ∷ [])

abbrev shown_cells : Option Printing → List ℕ
shown_cells r = elim r [ Option.none ↦ [] | some s ↦ map s.vga.video (0 ∷ 1 ∷ 2 ∷ 3 ∷ 4 ∷ 5 ∷ []) ]

-- A two-digit number of width 2 leaves its width to the next number, which is printed as 05.
leaks :
    shown_cells (console_printf 30 buffers 0 wide 0x100 (0x12 ∷ 5 ∷ []) vga)
    ≡ 0x0F31 ∷ 0x0F32 ∷ 0x0F3A ∷ 0x0F30 ∷ 0x0F35 ∷ 0 ∷ []
unfolding console_printf print_format pick_next_char va_arg conversion clear_fill print_number
    print_filled print_str_from memset itoa itoa_tail itoa_loop strlen strlen_loop strncpy
    strncpy_loop strrev strrev_loop vga_putchar vga_update_pos next_column vga_movecursor
leaks = refl

abbrev wide_pieces : List Piece
wide_pieces = number 16 2 0x12 ∷ plain b':' ∷ number 10 0 5 ∷ []

buffers-AreApart : AreApart buffers
buffers-AreApart = record {
  local_tmp = inl (omega arith);
  local_int = inl (omega arith);
  tmp_int = inl (omega arith);
}

outside : (p n : ℕ) → 96 ≤ p → Outside buffers p n
outside p n le = record {
  from_local = inl (omega arith);
  from_tmp = inl (omega arith);
  from_int = inl (omega arith);
}

wide-HasPieces : HasPieces buffers wide 0x100 (0x12 ∷ 5 ∷ []) 3 wide_pieces
wide-HasPieces =
    filled_at (outside 0x100 3 (omega arith)) refl (inl refl) refl (inr (refl, refl, omega arith)) (
      plain_at (outside 0x103 1 (omega arith)) (λ e. omega arith) (λ e. omega arith)
        (number_at (outside 0x104 2 (omega arith)) refl (inl (refl, refl, omega arith))
          (done (outside 0x106 1 (omega arith)) refl)))

console_printf-Prints_example :
    (t : List ℕ) × Prints 0 wide_pieces t
    × (s : Printing) × (console_printf 30 buffers 0 wide 0x100 (0x12 ∷ 5 ∷ []) vga ≡ some s)
    × (s.vga ≡ print_str vga t)
    × AgreeOutside buffers wide s.memory
console_printf-Prints_example =
    console_printf-Prints buffers wide 30 0 0x100 vga buffers-AreApart wide-HasPieces (omega arith)

-- "n%d", which both outputs read alike.
abbrev plain_text : Mem
plain_text = image (b'n' ∷ b'%' ∷ b'd' ∷ [])

abbrev before : Output
before = record { memory = plain_text; sent = []; vga = vga }

abbrev sent_pieces : List Format.Piece
sent_pieces = Format.plain b'n' ∷ Format.decimal 7 ∷ []

plain_text-sent : Format.HasPieces plain_text 0x100 (7 ∷ []) 2 sent_pieces
plain_text-sent =
    Format.plain_at (λ e. omega arith) (λ e. omega arith)
      (Format.decimal_at refl refl (omega arith) (Format.done refl))

abbrev shown_pieces : List Piece
shown_pieces = plain b'n' ∷ number 10 0 7 ∷ []

plain_text-shown : HasPieces buffers plain_text 0x100 (7 ∷ []) 2 shown_pieces
plain_text-shown =
    plain_at (outside 0x100 1 (omega arith)) (λ e. omega arith) (λ e. omega arith)
      (number_at (outside 0x101 2 (omega arith)) refl (inl (refl, refl, omega arith))
        (done (outside 0x103 1 (omega arith)) refl))

kprintf-Prints_example :
    (t : List ℕ) × Format.Prints sent_pieces t
    × (u : List ℕ) × Prints 0 shown_pieces u
    × (o' : Output) × (kprintf 30 buffers 0 0x100 (7 ∷ []) before ≡ some o')
    × (o'.sent ≡ [] ++ t)
    × (o'.vga ≡ print_str vga u)
    × AgreeOutside buffers plain_text o'.memory
kprintf-Prints_example =
    kprintf-Prints buffers 30 0 0x100 before buffers-AreApart plain_text-sent plain_text-shown
      (omega arith) (omega arith)
