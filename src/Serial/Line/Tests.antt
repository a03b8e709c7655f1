-- ===== src/Serial/Line/Tests.antt =====
-- A device that is busy for two reads of its status behind each byte.
use rtbench.Common.{
  ℕ, sym, ap, ◌∙◌, suc, ◌+◌, ◌≡◌, refl, arith, bit_and, List, [], ◌∷◌, ◌++◌, some, if◌then◌else◌,
  ltb,
}
use rtbench.Serial.Format.{sent_all}
use rtbench.Serial.Line.{
  Access, read_from, write_to, Device, data_port, print_line, putchar_line, wait_while_zero,
}
use rtbench.Serial.Line.Sent.{data_bytes, polls, Answers, IsPolite, print_line-Sent}

-- The reads behind the last byte.
abbrev reads_since : List Access → ℕ
reads_since [] = 2
reads_since (read_from p v ∷ h) = suc (reads_since h)
reads_since (write_to p v ∷ h) = 0

abbrev slow : Device
slow h p = if ltb 1 (reads_since h) then 0x60 else 0

slow_runs :
    print_line 3 slow (b'a' ∷ 10 ∷ []) []
    ≡ some (
        write_to data_port 10
        ∷ write_to data_port 13
        ∷ read_from (data_port + 5) 0x60
        ∷ read_from (data_port + 5) 0
        ∷ read_from (data_port + 5) 0
        ∷ write_to data_port b'a'
        ∷ read_from (data_port + 5) 0x60
        ∷ [])
unfolding print_line putchar_line wait_while_zero
slow_runs = refl

third_read : (n : ℕ) → ◌≡◌ {A = ℕ} (if ltb 1 (suc (suc n)) then 0x60 else 0) 0x60
third_read n = ground arith

slow-Answers : Answers slow 0x20 2
unfolding polls
slow-Answers h = (
  2,
  omega arith,
  λ e. omega (arith, sym (ap (λ v. bit_and v 0x20) (third_read (reads_since h))) ∙ e),
)

print_line-Sent_example :
    (h' : List Access) × (print_line 3 slow (b'a' ∷ 10 ∷ []) [] ≡ some h')
    × (data_bytes h' ≡ data_bytes [] ++ sent_all (b'a' ∷ 10 ∷ []))
    × IsPolite [] h'
print_line-Sent_example = print_line-Sent slow 2 3 (b'a' ∷ 10 ∷ []) [] slow-Answers (omega arith)
