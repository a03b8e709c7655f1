-- ===== src/Text/Tests.antt =====
-- Runs of the string routines of utilities.c, and their theorems on them.
use mathlib.Core.Option
use rtbench.Common.{
  ℕ, zero, suc, ◌+◌, ◌-◌, ◌^◌, ◌<◌, ◌≡◌, refl, arith, List, [], ◌∷◌, some, get_or, if◌then◌else◌,
  ltb,
}
use rtbench.Memory.{Mem}
use rtbench.Text.{strlen, strrev, itoa, atoi, atoi_loop, atoi_skip}
use rtbench.Text.Strings.{IsString}
use rtbench.Text.Digits.{value, IsNumeral}
use rtbench.Text.Atoi.{atoi-itoa}

-- "-12" at address 100, NUL elsewhere.
abbrev text : Mem
text a = if ltb a 100 then 0 else get_or (b'-' ∷ b'1' ∷ b'2' ∷ []) (a - 100) 0

abbrev bytes : ℕ → Mem → ℕ → List ℕ
bytes zero m a = []
bytes (suc n) m a = m a ∷ bytes n m (a + 1)

strlen_runs : strlen 10 text 100 ≡ some 3
unfolding strlen
strlen_runs = refl

strrev_runs :
    Option.map (λ m. bytes 4 m 200) (strrev 10 text 100 200) ≡ some (b'2' ∷ b'1' ∷ b'-' ∷ 0 ∷ [])
unfolding strrev
strrev_runs = refl

itoa_runs :
    Option.map (λ m. bytes 4 m 300) (itoa 20 200 text 300 b'd' 405)
    ≡ some (b'4' ∷ b'0' ∷ b'5' ∷ 0 ∷ [])
unfolding itoa
itoa_runs = refl

-- The sign comes last, and the first byte of the buffer is not written.
itoa_negative_runs :
    Option.map (λ m. bytes 4 m 300) (itoa 20 200 text 300 b'd' (2 ^ 32 - 42))
    ≡ some (0 ∷ b'4' ∷ b'2' ∷ b'-' ∷ [])
unfolding itoa
itoa_negative_runs = refl

atoi_runs : atoi 20 0 text 100 10 ≡ some (2 ^ 32 - 12)
unfolding atoi strlen atoi_loop atoi_skip
atoi_runs = refl

-- "-12" as a string.
text-IsString : IsString text 100 (b'-' ∷ b'1' ∷ b'2' ∷ [])
text-IsString = record { holds = omega arith; nonzero = omega arith; ends = refl }

twelve-IsNumeral : IsNumeral 10 12 (b'1' ∷ b'2' ∷ [])
unfolding value
twelve-IsNumeral = record { worth = refl; digits = omega arith; lead = omega arith }

atoi-itoa_example :
    ((m' : Mem) × (itoa 20 200 text 300 b'x' 0xbeef ≡ some m')
      × (atoi 20 7 m' 300 16 ≡ some 0xbeef))
    × (0xbeef < 2 ^ 31
        → (m' : Mem) × (itoa 20 200 text 300 b'd' 0xbeef ≡ some m')
          × (atoi 20 7 m' 300 10 ≡ some 0xbeef))
atoi-itoa_example = atoi-itoa 20 7 200 text 300 0xbeef (omega arith) (omega arith) (omega arith)
