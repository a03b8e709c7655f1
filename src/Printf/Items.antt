-- ===== src/Printf/Items.antt =====
-- Formats of `kprintf` as lists of items: the text of the format, and what either output reads in it.
use rtbench.Common.{
  ℕ, suc, ◌+◌, ◌^◌, ◌%◌, ◌==◌, ==→eq, Bool, true, false, Bool-cases, if◌then◌else◌, ◌<◌, ◌≡◌, ◌≢◌,
  inl, inr, arith, List, [], ◌∷◌,
}
use rtbench.Text.Strings.{NonZero}
use rtbench.Serial.Format
use rtbench.Printf.Pieces
use rtbench.Printf.Pieces.{Outside, IsWidth}

-- A character, `%d`, `%x`, `%c`, or `%x` with a width.
pub data Item : Type 0 where
  lit : ℕ → Item
  dec hex chr : Item
  wide : ℕ → Item

-- The characters of the format.
abbrev pub format_text : List Item → List ℕ
format_text [] = []
format_text (lit c ∷ is) = c ∷ format_text is
format_text (dec ∷ is) = b'%' ∷ b'd' ∷ format_text is
format_text (hex ∷ is) = b'%' ∷ b'x' ∷ format_text is
format_text (chr ∷ is) = b'%' ∷ b'c' ∷ format_text is
format_text (wide w ∷ is) = b'%' ∷ (b'0' + w) ∷ b'x' ∷ format_text is

-- Characters that stand for themselves, and the widths that the console knows.
abbrev pub AreItems : List Item → Type 0
AreItems [] = Unit
AreItems (lit c ∷ is) = (c ≢ 0) × (c ≢ b'%') × AreItems is
AreItems (wide w ∷ is) = IsWidth w × AreItems is
AreItems (i ∷ is) = AreItems is

lit_test :
    (c : ℕ) (rest : Bool)
    → (if c == 0 then false else if c == b'%' then false else rest) ≡ true
    → (c ≢ 0) × (c ≢ b'%') × (rest ≡ true)
lit_test c rest e = (λ z. ground arith, λ z. ground arith, ground arith)

wide_test :
    (w : ℕ) (rest : Bool)
    → (if w == 2 then rest else if w == 4 then rest else if w == 8 then rest else false) ≡ true
    → IsWidth w × (rest ≡ true)
wide_test w rest e = elim (Bool-cases (w == 2)) [
  | inl two ↦ (inl (==→eq w 2 two), ground arith)
  | inr not_two ↦ elim (Bool-cases (w == 4)) [
    | inl four ↦ (inr (inl (==→eq w 4 four)), ground arith)
    | inr not_four ↦ elim (Bool-cases (w == 8)) [
      | inl eight ↦ (inr (inr (==→eq w 8 eight)), ground arith)
      | inr not_eight ↦ absurd (ground arith)
    ]
  ]
]

-- The same as a test.
abbrev pub are_items : List Item → Bool
are_items [] = true
are_items (lit c ∷ is) = if c == 0 then false else if c == b'%' then false else are_items is
are_items (wide w ∷ is) =
    if w == 2
    then are_items is
    else if w == 4
    then are_items is
    else if w == 8
    then are_items is
    else false
are_items (i ∷ is) = are_items is

pub are_items-AreItems : (is : List Item) → are_items is ≡ true → AreItems is
are_items-AreItems [] e = tt
are_items-AreItems (lit c ∷ is) e =
    let (nz, np, rest) = lit_test c (are_items is) e in (nz, np, are_items-AreItems is rest)
are_items-AreItems (wide w ∷ is) e =
    let (width, rest) = wide_test w (are_items is) e in (width, are_items-AreItems is rest)
are_items-AreItems (dec ∷ is) e = are_items-AreItems is e
are_items-AreItems (hex ∷ is) e = are_items-AreItems is e
are_items-AreItems (chr ∷ is) e = are_items-AreItems is e

pub AreItems-NonZero : (is : List Item) → AreItems is → NonZero (format_text is)
AreItems-NonZero [] ok = tt
AreItems-NonZero (lit c ∷ is) ok = (ok.0, AreItems-NonZero is ok.2)
AreItems-NonZero (wide w ∷ is) ok = (
  λ z. omega (arith, z),
  (λ z. omega (arith, z), (λ z. omega (arith, z), AreItems-NonZero is ok.1)),
)
AreItems-NonZero (dec ∷ is) ok =
    (λ z. omega (arith, z), (λ z. omega (arith, z), AreItems-NonZero is ok))
AreItems-NonZero (hex ∷ is) ok =
    (λ z. omega (arith, z), (λ z. omega (arith, z), AreItems-NonZero is ok))
AreItems-NonZero (chr ∷ is) ok =
    (λ z. omega (arith, z), (λ z. omega (arith, z), AreItems-NonZero is ok))

-- The arguments for the serial output, which skips a width and prints the `x` behind it.
abbrev pub SentArgs : List Item → List ℕ → Type 0
SentArgs [] args = Unit
SentArgs (lit c ∷ is) args = SentArgs is args
SentArgs (wide w ∷ is) args = SentArgs is args
SentArgs (i ∷ is) [] = ⊥
SentArgs (dec ∷ is) (n ∷ args) = (n < 2 ^ 31) × SentArgs is args
SentArgs (hex ∷ is) (n ∷ args) = (n < 2 ^ 32) × SentArgs is args
SentArgs (chr ∷ is) (n ∷ args) = SentArgs is args

-- The arguments for the console.
abbrev pub ShownArgs : List Item → List ℕ → Type 0
ShownArgs [] args = Unit
ShownArgs (lit c ∷ is) args = ShownArgs is args
ShownArgs (i ∷ is) [] = ⊥
ShownArgs (dec ∷ is) (n ∷ args) = (n < 2 ^ 31) × ShownArgs is args
ShownArgs (hex ∷ is) (n ∷ args) = (n < 2 ^ 32) × ShownArgs is args
ShownArgs (wide w ∷ is) (n ∷ args) = (n < 2 ^ 32) × ShownArgs is args
ShownArgs (chr ∷ is) (n ∷ args) = ShownArgs is args

abbrev pub sent_pieces : List Item → List ℕ → List Format.Piece
sent_pieces [] args = []
sent_pieces (lit c ∷ is) args = Format.plain c ∷ sent_pieces is args
sent_pieces (wide w ∷ is) args = Format.plain b'x' ∷ sent_pieces is args
sent_pieces (i ∷ is) [] = []
sent_pieces (dec ∷ is) (n ∷ args) = Format.decimal n ∷ sent_pieces is args
sent_pieces (hex ∷ is) (n ∷ args) = Format.hexadecimal n ∷ sent_pieces is args
sent_pieces (chr ∷ is) (n ∷ args) = Format.character (n % 256) ∷ sent_pieces is args

abbrev pub shown_pieces : List Item → List ℕ → List Pieces.Piece
shown_pieces [] args = []
shown_pieces (lit c ∷ is) args = Pieces.plain c ∷ shown_pieces is args
shown_pieces (i ∷ is) [] = []
shown_pieces (dec ∷ is) (n ∷ args) = Pieces.number 10 0 n ∷ shown_pieces is args
shown_pieces (hex ∷ is) (n ∷ args) = Pieces.number 16 0 n ∷ shown_pieces is args
shown_pieces (wide w ∷ is) (n ∷ args) = Pieces.number 16 w n ∷ shown_pieces is args
shown_pieces (chr ∷ is) (n ∷ args) = Pieces.character (n % 256) ∷ shown_pieces is args

-- The rounds of the serial output: one to skip a width, one for the `x` behind it.
abbrev pub sent_rounds : List Item → ℕ
sent_rounds [] = 0
sent_rounds (wide w ∷ is) = suc (suc (sent_rounds is))
sent_rounds (i ∷ is) = suc (sent_rounds is)
