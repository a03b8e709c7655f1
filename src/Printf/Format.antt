-- ===== src/Printf/Format.antt =====
-- utilities.c: a whole format of `console_printf` against its pieces.
use rtbench.Common.{ℕ, zero, suc, ◌+◌, ◌<◌, ◌≡◌, inl, refl, ◌∙◌, arith, List, [], false, some}
use rtbench.Memory.{Mem}
use rtbench.Video.{Vga, print_str}
use rtbench.Printf.{Buffers, Printing, print_format, console_printf}
use rtbench.Printf.Pieces.{
  Piece, AreApart, HasPieces, done, plain_at, number_at, filled_at, character_at, string_at, Prints,
  nothing,
}
use rtbench.Printf.Ready.{AgreeOutside, IsReady, memory_here}
use rtbench.Printf.Steps.{format_end}
use rtbench.Printf.Places.{
  Printed, print_str-none, plain_piece, number_piece, filled_piece, character_piece, string_piece,
}

module _ (b : Buffers) (m : Mem) where
  -- `console_printf` from a place of the format on.
  print_format-Printed :
      (apart : AreApart b) (fuel : ℕ) {p k f : ℕ} {args : List ℕ} {ps : List Piece}
      → HasPieces b m p args k ps
      → (s : Printing) → IsReady b m f s
      → s.args ≡ args
      → k + 14 < fuel
      → Printed b m f ps s (print_format fuel b p s)
  print_format-Printed apart zero h s ready e enough = absurd (omega arith)
  print_format-Printed apart (suc fuel) {p} (done out end) s ready e enough = record {
    shown_text = [];
    prints = nothing;
    after = s;
    returned = format_end fuel b p s (memory_here b m s p 1 ready (omega arith) out ∙ end);
    shown = print_str-none s.vga;
    agree = ready.agree;
  }
  print_format-Printed apart (suc fuel) (plain_at out nz np h) s ready e enough =
      plain_piece b m fuel s out nz np ready e
        (λ t r a. print_format-Printed apart fuel h t r a (omega arith))
  print_format-Printed apart (suc zero) (number_at out percent letter h) s ready e enough =
      absurd (omega arith)
  print_format-Printed apart (suc (suc fuel)) (number_at out percent letter h) s ready e enough =
      number_piece b m fuel s apart out percent letter ready e (omega arith)
        (λ f' t r a. print_format-Printed apart (suc fuel) h t r a (omega arith))
  print_format-Printed apart (suc zero) (filled_at out percent width digit letter h) s ready e
        enough =
      absurd (omega arith)
  print_format-Printed apart (suc (suc zero)) (filled_at out percent width digit letter h) s ready e
        enough =
      absurd (omega arith)
  print_format-Printed apart (suc (suc (suc fuel))) (filled_at out percent width digit letter h) s
        ready e enough =
      filled_piece b m fuel s apart out percent width digit letter ready e (omega arith)
        (λ f' t r a. print_format-Printed apart (suc (suc fuel)) h t r a (omega arith))
  print_format-Printed apart (suc zero) (character_at out percent letter h) s ready e enough =
      absurd (omega arith)
  print_format-Printed apart (suc (suc fuel)) (character_at out percent letter h) s ready e enough =
      character_piece b m fuel s out percent letter ready e
        (λ t r a. print_format-Printed apart (suc fuel) h t r a (omega arith))
  print_format-Printed apart (suc zero) (string_at out percent letter off is_string h) s ready e
        enough =
      absurd (omega arith)
  print_format-Printed apart (suc (suc fuel)) (string_at out percent letter off is_string h) s ready
        e enough =
      string_piece b m fuel s out percent letter off is_string ready e (omega arith)
        (λ t r a. print_format-Printed apart (suc fuel) h t r a (omega arith))

-- The state in which `console_printf` begins.
start-IsReady :
    (b : Buffers) (m : Mem) (vga : Vga) (args : List ℕ) (str : ℕ)
    → IsReady b m 0
        (record { memory = m; vga = vga; args = args; lead_fill = 0; lead_zero = false; str = str })
start-IsReady b m vga args str = record {
  agree = λ a out. refl;
  fill = refl;
  small = omega arith;
  zeros = inl refl;
  no_flag = refl;
}

-- `console_printf` of a format with these pieces shows their text on the console, the digits of a
-- number behind the zeros that its width or one that is left over asks for, and changes no memory
-- outside its buffers. Decimals are below 2^31, format and strings are in no buffer, the buffers are
-- apart, and the fuel exceeds the rounds and 14.
pub console_printf-Prints :
    (b : Buffers) (m : Mem) (fuel junk fmt : ℕ) (vga : Vga) {k : ℕ} {args : List ℕ}
    {ps : List Piece}
    → AreApart b
    → HasPieces b m fmt args k ps
    → k + 14 < fuel
    → (t : List ℕ) × Prints 0 ps t
      × (s : Printing) × (console_printf fuel b junk m fmt args vga ≡ some s)
      × (s.vga ≡ print_str vga t)
      × AgreeOutside b m s.memory
unfolding console_printf
console_printf-Prints b m fuel junk fmt vga {args = args} apart pieces enough =
    let printed =
      print_format-Printed b m apart fuel pieces
        (record {
          memory = m;
          vga = vga;
          args = args;
          lead_fill = 0;
          lead_zero = false;
          str = junk;
        })
        (start-IsReady b m vga args junk) refl enough in
    (
      printed.shown_text, printed.prints, printed.after, printed.returned, printed.shown,
      printed.agree,
    )
