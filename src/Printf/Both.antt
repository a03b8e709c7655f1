-- ===== src/Printf/Both.antt =====
-- utilities.c: `kprintf`, on the serial line and on the console.
use rtbench.Common.{arith, ℕ, ◌+◌, ◌<◌, ◌≡◌, refl, List, ◌++◌, some}
use rtbench.Video.{print_str}
use rtbench.Serial.Format
use rtbench.Serial.Format.{serial_printf-Prints}
use rtbench.Printf.{Buffers, Output, kprintf}
use rtbench.Printf.Pieces
use rtbench.Printf.Pieces.{AreApart}
use rtbench.Printf.Ready.{AgreeOutside}
use rtbench.Printf.Format.{console_printf-Prints}

-- For a format that both outputs read as pieces, `kprintf` sends the text of the one reading on the
-- serial line and shows that of the other on the console; no memory outside the buffers changes. The
-- fuel exceeds the rounds of both and 14.
pub kprintf-Prints :
    (b : Buffers) (fuel junk fmt : ℕ) (o : Output) {j k : ℕ} {args : List ℕ}
    {ps : List Format.Piece} {qs : List Pieces.Piece}
    → AreApart b
    → Format.HasPieces o.memory fmt args j ps
    → Pieces.HasPieces b o.memory fmt args k qs
    → j + 14 < fuel
    → k + 14 < fuel
    → (t : List ℕ) × Format.Prints ps t
      × (u : List ℕ) × Pieces.Prints 0 qs u
      × (o' : Output) × (kprintf fuel b junk fmt args o ≡ some o')
      × (o'.sent ≡ o.sent ++ t)
      × (o'.vga ≡ print_str o.vga u)
      × AgreeOutside b o.memory o'.memory
unfolding kprintf
kprintf-Prints b fuel junk fmt o apart sent_pieces shown_pieces enough_sent enough_shown =
    let (t, prints_sent, sent) = serial_printf-Prints fuel sent_pieces o.sent (omega arith) in
    let (u, prints_shown, s, done, vga, agree) =
      console_printf-Prints b o.memory fuel junk fmt o.vga apart shown_pieces enough_shown in
    (
      t,
      prints_sent,
      u,
      prints_shown,
      record { memory = s.memory; sent = o.sent ++ t; vga = s.vga },
      rw (sent, done) refl,
      refl,
      vga,
      agree,
    )
