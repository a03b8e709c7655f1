-- ===== src/Identify/Reading.antt =====
-- The formats of IdentifyCPU as items, and what is to go out on the serial line.
use rtbench.Common.{ℕ, ◌/◌, ◌%◌, ◌^◌, ◌<◌, List, [], ◌∷◌, ◌++◌, map}
use rtbench.Memory.{Mem}
use rtbench.Serial.Format
use rtbench.Printf.{Buffers}
use rtbench.Printf.Items.{Item, lit, hex, chr, wide}
use rtbench.Printf.Calls.{IsFormat}
use rtbench.Identify.{Registers, Formats}

abbrev pub cpuid_text : List ℕ
cpuid_text = b'C' ∷ b'P' ∷ b'U' ∷ b'I' ∷ b'D' ∷ b':' ∷ b' ' ∷ b'0' ∷ b'x' ∷ []

abbrev pub next_text : List ℕ
next_text = b' ' ∷ b'0' ∷ b'x' ∷ []

abbrev pub stepping_text : List ℕ
stepping_text =
    b'S' ∷ b't' ∷ b'e' ∷ b'p' ∷ b'p' ∷ b'i' ∷ b'n' ∷ b'g' ∷ b' ' ∷ b'I' ∷ b'D' ∷ b':' ∷ b' ' ∷ b'0'
    ∷ b'x' ∷ []

abbrev pub model_text : List ℕ
model_text =
    b'M' ∷ b'o' ∷ b'd' ∷ b'e' ∷ b'l' ∷ b' ' ∷ b'N' ∷ b'u' ∷ b'm' ∷ b'b' ∷ b'e' ∷ b'r' ∷ b':' ∷ b' '
    ∷ b'0' ∷ b'x' ∷ []

abbrev pub family_text : List ℕ
family_text =
    b'F' ∷ b'a' ∷ b'm' ∷ b'i' ∷ b'l' ∷ b'y' ∷ b' ' ∷ b'C' ∷ b'o' ∷ b'd' ∷ b'e' ∷ b':' ∷ b' ' ∷ b'0'
    ∷ b'x' ∷ []

abbrev pub lits : List ℕ → List Item
lits xs = map lit xs

-- The five formats.
abbrev pub cpuid_items : List Item
cpuid_items =
    lits cpuid_text
    ++ (wide 8 ∷ lits next_text
        ++ (wide 8 ∷ lits next_text ++ (wide 8 ∷ lits next_text ++ (wide 8 ∷ []))))

abbrev pub vendor_items : List Item
vendor_items = chr ∷ chr ∷ chr ∷ chr ∷ chr ∷ chr ∷ chr ∷ chr ∷ chr ∷ chr ∷ chr ∷ chr ∷ []

abbrev pub field_items : List ℕ → List Item
field_items text = lits text ++ (hex ∷ lit 10 ∷ [])

pub record AreFormats (b : Buffers) (m : Mem) (f : Formats) : Type 0 where
  pub cpuid : IsFormat b m f.cpuid_format cpuid_items
  pub vendor : IsFormat b m f.vendor_format vendor_items
  pub stepping : IsFormat b m f.stepping_format (field_items stepping_text)
  pub model : IsFormat b m f.model_format (field_items model_text)
  pub family : IsFormat b m f.family_format (field_items family_text)

-- Registers of 32 bits.
pub record IsRegisters (r : Registers) : Type 0 where
  pub eax : r.eax < 2 ^ 32
  pub ebx : r.ebx < 2 ^ 32
  pub ecx : r.ecx < 2 ^ 32
  pub edx : r.edx < 2 ^ 32

-- The bytes of a register, the lowest first.
abbrev pub bytes_of : ℕ → List ℕ
bytes_of a = (a % 256) ∷ (a / 256 % 256) ∷ (a / 65536 % 256) ∷ (a / 16777216 % 256) ∷ []

-- The hexadecimal field of 4 bits from the bit `k` on, in its line.
abbrev pub field_pieces : List ℕ → ℕ → List Format.Piece
field_pieces text n = map Format.plain text ++ (Format.hexadecimal n ∷ Format.plain 10 ∷ [])

abbrev pub sent_x : List Format.Piece
sent_x = Format.plain b'x' ∷ []

-- On the serial line: four times an `x` in place of a register, the vendor's name, and three numbers.
abbrev pub identified : List ℕ → ℕ → ℕ → ℕ → List Format.Piece
identified vendor stepping model family =
    (map Format.plain cpuid_text
      ++ (sent_x
          ++ (map Format.plain next_text
              ++ (sent_x
                  ++ (map Format.plain next_text
                      ++ (sent_x ++ (map Format.plain next_text ++ sent_x)))))))
    ++ (map Format.character vendor
        ++ (field_pieces stepping_text stepping
            ++ (field_pieces model_text model ++ (field_pieces family_text family ++ []))))

-- The vendor's name: the bytes of ebx, edx and ecx.
abbrev pub vendor_name : Registers → List ℕ
vendor_name r = bytes_of r.ebx ++ (bytes_of r.edx ++ bytes_of r.ecx)
