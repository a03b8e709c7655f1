-- ===== src/Loader/Tests.antt =====
-- bootloader.c on a file of two lines.
use native.Mathlib.Nat.{zero-add}
use rtbench.Common.{
  ℕ, zero, suc, ◌+◌, ◌*◌, ◌≡◌, inl, inr, ap, ◌∙◌, Bool-cases, refl, arith, List, [], ◌∷◌, Bool,
  true, none, some, if◌then◌else◌, ltb, false,
}
use rtbench.Text.Digits.{char_value, IsDigit}
use rtbench.Memory.Writes.{Written}
use rtbench.Loader.{
  Libc, Junk, Loader, Arguments, boot_main, booted, check_arguments, init_sipi, load_file,
  load_line, load_origin, strncpy, Outcome,
}
use rtbench.Loader.Image.{IsDataLine, ReadsPairs, image, Stops, no_line, more_lines}
use rtbench.Loader.Start.{Accepted, IsOrigin, boot_main-Accepted, boot_main-Image, signals}

-- The letter is a hexadecimal digit in lower case or a decimal one.
abbrev reads : ℕ → Bool
reads c =
    if ltb c b'0'
    then false
    else if ltb c b':'
    then true
    else if ltb c b'a'
    then false
    else ltb c b'g'

-- The number at the start of a text.
abbrev strtol : List ℕ → ℕ → ℕ
strtol [] n = n
strtol (c ∷ cs) n = if reads c then strtol cs (n * 16 + char_value c) else n

abbrev libc : Libc
libc = record { strtol = λ cs. strtol cs 0; mmap = λ page. true }

abbrev junk : Junk
junk = record { fourbyte = 0 ∷ []; addr = 0 ∷ [] }

abbrev char : List ℕ → ℕ → ℕ
char [] i = 0
char (c ∷ cs) zero = c
char (c ∷ cs) (suc i) = char cs i

-- "/origin 00002000"
abbrev origin_line : ℕ → ℕ
origin_line = char (
    b'/' ∷ b'o' ∷ b'r' ∷ b'i' ∷ b'g' ∷ b'i' ∷ b'n' ∷ b' ' ∷ b'0' ∷ b'0' ∷ b'0' ∷ b'0' ∷ b'2' ∷ b'0'
    ∷ b'0' ∷ b'0' ∷ [])

-- "1a 1a 1a ..."
abbrev data_line : ℕ → ℕ
data_line zero = b'1'
data_line (suc zero) = b'a'
data_line (suc (suc zero)) = b' '
data_line (suc (suc (suc i))) = data_line i

abbrev bytes : ℕ → ℕ
bytes k = 0x1a

abbrev arguments : Arguments
arguments = record {
  argc = 4;
  name_length = 7;
  apid_is_number = true;
  apid = 1;
  address_is_number = true;
  address = 2;
}

abbrev before : Loader
before = record { memory = λ a. 0; page = none; log_phy_addr = 0; silent = false; keys = b'y' ∷ [] }

origin_line-IsOrigin : IsOrigin libc junk origin_line 0x2000
unfolding strncpy
origin_line-IsOrigin = record { marked = refl; address = refl; word = omega arith; mapped = refl }

reads_digit : (c : ℕ) → IsDigit 16 c → reads c ≡ true
reads_digit c h = ground arith

reads_nothing : (rest : List ℕ) (n : ℕ) → Stops rest → strtol rest n ≡ n
reads_nothing [] n h = refl
reads_nothing (c ∷ cs) n h = elim (Bool-cases (reads c)) [
  | inl e ↦ absurd (h (inl (ground arith)))
  | inr e ↦ rw e refl
]

libc-ReadsPairs : ReadsPairs libc
libc-ReadsPairs c d rest hc hd stops =
    rw (reads_digit c hc, reads_digit d hd, zero-add (char_value c))
      (reads_nothing rest (char_value c * 16 + char_value d) stops)

data_line_at : (k : ℕ) → (data_line (3 * k) ≡ b'1') × (data_line (3 * k + 1) ≡ b'a')
data_line_at zero = (refl, refl)
data_line_at (suc k) =
    let (one, a) = data_line_at k in
    let first : 3 * suc k ≡ suc (suc (suc (3 * k))) = omega arith in
    let second : 3 * suc k + 1 ≡ suc (suc (suc (3 * k + 1))) = omega arith in
    (ap data_line first ∙ one, ap data_line second ∙ a)

one-IsDigit : IsDigit 16 b'1'
one-IsDigit = (omega arith, inl (omega arith, omega arith))

a-IsDigit : IsDigit 16 b'a'
a-IsDigit = (omega arith, inr (omega arith, omega arith))

data_line-IsDataLine : IsDataLine data_line bytes
data_line-IsDataLine k lt =
    let (one, a) = data_line_at k in rw (one, a) (one-IsDigit, a-IsDigit, refl)

arguments-Accepted : Accepted arguments
arguments-Accepted = record {
  argc = refl;
  name = omega arith;
  apid_is_number = refl;
  apid_from = omega arith;
  apid_to = omega arith;
  address_is_number = refl;
  address_to = omega arith;
}

boot_main-Image_example :
    (t : Loader) × (boot_main libc junk true (some (origin_line ∷ data_line ∷ [])) arguments before
      ≡ booted t (signals 1 2))
    × Written before.memory 0x2000 16 (image (bytes ∷ [])) t.memory
boot_main-Image_example =
    boot_main-Image libc junk libc-ReadsPairs (λ h. ground arith) origin_line 0x2000 arguments
      before origin_line-IsOrigin (more_lines data_line-IsDataLine no_line) (omega arith)
      arguments-Accepted refl

-- The program with a file of one line.
abbrev ended : Outcome
ended = boot_main libc junk true (some (origin_line ∷ [])) arguments before

ended-booted :
    ended
    ≡ booted
        (record before { silent = true; keys = []; page = some 0x2000; log_phy_addr = 0x2000 })
        (init_sipi 1 2)
unfolding boot_main check_arguments load_file load_line load_origin strncpy
ended-booted = refl

boot_main-Accepted_example : Accepted arguments × (init_sipi 1 2 ≡ signals 1 2)
boot_main-Accepted_example =
    boot_main-Accepted libc junk true (some (origin_line ∷ [])) arguments before ended-booted
