-- ===== src/Printf/Pieces.antt =====
-- utilities.c: what a format of `console_printf` has to print, independent of the buffers.
use rtbench.Common.{
  ℕ, suc, ◌+◌, ◌-◌, ◌%◌, ◌^◌, ◌<◌, ◌≡◌, ◌≢◌, ◌⊎◌, List, [], ◌∷◌, ◌++◌, length, replicate, ltb, ◌==◌,
  if◌then◌else◌,
}
use rtbench.Memory.{Mem}
use rtbench.Text.Digits.{IsNumeral}
use rtbench.Text.Strings.{IsString, Apart}
use rtbench.Printf.{Buffers}

-- A number has its base and its width, which is 0 when the format gives none.
pub data Piece : Type 0 where
  plain : ℕ → Piece
  number : (base width n : ℕ) → Piece
  character : ℕ → Piece
  string : List ℕ → Piece

-- The `n` bytes from `p` on are in no buffer.
pub record Outside (b : Buffers) (p n : ℕ) : Type 0 where
  pub from_local : Apart b.local_buf 32 p n
  pub from_tmp : Apart b.tmp_buf 32 p n
  pub from_int : Apart b.int_buf 32 p n

-- No two buffers share a byte.
pub record AreApart (b : Buffers) : Type 0 where
  pub local_tmp : Apart b.local_buf 32 b.tmp_buf 32
  pub local_int : Apart b.local_buf 32 b.int_buf 32
  pub tmp_int : Apart b.tmp_buf 32 b.int_buf 32

-- The letter of a conversion with the base of the numbers that it prints.
abbrev pub IsLetter : ℕ → ℕ → ℕ → Type 0
IsLetter ch base n =
    (ch ≡ b'd') × (base ≡ 10) × (n < 2 ^ 31) ⊎ (ch ≡ b'x') × (base ≡ 16) × (n < 2 ^ 32)

abbrev pub IsWidth : ℕ → Type 0
IsWidth w = (w ≡ 2) ⊎ ((w ≡ 4) ⊎ (w ≡ 8))

-- The format at `p` with the arguments `args` has the pieces; `k` counts the rounds that printing
-- takes. Format and strings are in no buffer.
pub data HasPieces (b : Buffers) (m : Mem) : ℕ → List ℕ → ℕ → List Piece → Type 0 where
  done : {p : ℕ} {args : List ℕ} → Outside b p 1 → m p ≡ 0 → HasPieces b m p args 0 []
  plain_at :
      {p k : ℕ} {args : List ℕ} {ps : List Piece}
      → Outside b p 1
      → m p ≢ 0
      → m p ≢ b'%'
      → HasPieces b m (p + 1) args k ps
      → HasPieces b m p args (suc k) (plain (m p) ∷ ps)
  number_at :
      {p k base n : ℕ} {args : List ℕ} {ps : List Piece}
      → Outside b p 2
      → m p ≡ b'%'
      → IsLetter (m (p + 1)) base n
      → HasPieces b m (p + 2) args k ps
      → HasPieces b m p (n ∷ args) (suc k) (number base 0 n ∷ ps)
  filled_at :
      {p k base w n : ℕ} {args : List ℕ} {ps : List Piece}
      → Outside b p 3
      → m p ≡ b'%'
      → IsWidth w
      → m (p + 1) ≡ b'0' + w
      → IsLetter (m (p + 2)) base n
      → HasPieces b m (p + 3) args k ps
      → HasPieces b m p (n ∷ args) (suc k) (number base w n ∷ ps)
  character_at :
      {p k n : ℕ} {args : List ℕ} {ps : List Piece}
      → Outside b p 2
      → m p ≡ b'%'
      → m (p + 1) ≡ b'c'
      → HasPieces b m (p + 2) args k ps
      → HasPieces b m p (n ∷ args) (suc k) (character (n % 256) ∷ ps)
  string_at :
      {p k a : ℕ} {s args : List ℕ} {ps : List Piece}
      → Outside b p 2
      → m p ≡ b'%'
      → m (p + 1) ≡ b's'
      → Outside b a (length s + 1)
      → IsString m a s
      → HasPieces b m (p + 2) args k ps
      → HasPieces b m p (a ∷ args) (suc (k + length s)) (string s ∷ ps)

-- A text with zeros before it, up to `f` characters.
abbrev pub filled : ℕ → List ℕ → List ℕ
filled f xs = replicate (f - length xs) b'0' ++ xs

-- The width that is in force: that of the number, or the one that is left from before.
abbrev pub in_force : ℕ → ℕ → ℕ
in_force f w = if w == 0 then f else w

-- The width that is left behind a number: a text shorter than the width uses it up.
abbrev pub left_over : ℕ → List ℕ → ℕ
left_over f xs = if ltb (length xs) f then 0 else f

-- The text of the pieces, where the width `f` is left from before.
pub data Prints : ℕ → List Piece → List ℕ → Type 0 where
  nothing : {f : ℕ} → Prints f [] []
  prints_plain :
      {f c : ℕ} {ps : List Piece} {t : List ℕ} → Prints f ps t → Prints f (plain c ∷ ps) (c ∷ t)
  prints_number :
      {f w n base : ℕ} {xs t : List ℕ} {ps : List Piece}
      → IsNumeral base n xs
      → Prints (left_over (in_force f w) xs) ps t
      → Prints f (number base w n ∷ ps) (filled (in_force f w) xs ++ t)
  prints_character :
      {f c : ℕ} {ps : List Piece} {t : List ℕ} → Prints f ps t → Prints f (character c ∷ ps) (c ∷ t)
  prints_string :
      {f : ℕ} {s t : List ℕ} {ps : List Piece} → Prints f ps t → Prints f (string s ∷ ps) (s ++ t)
