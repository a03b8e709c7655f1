-- ===== src/Identify.antt =====
-- IdentifyCPU of tools/src/baremetal/smallos/src_c/mp_main.c: what `cpuid` answers is a parameter, and
-- the format strings stand at places of the memory.
pub mod Reading
pub mod Printed
mod Tests
use rtbench.Common.{ℕ, ◌/◌, ◌%◌, ◌^◌, bit_and, List, [], ◌∷◌, ◌++◌, Option}
use rtbench.Printf.{Buffers, Output, Call, kprintf_calls}

pub record Registers : Type 0 where
  pub eax : ℕ
  pub ebx : ℕ
  pub ecx : ℕ
  pub edx : ℕ

-- Where the format strings are.
pub record Formats : Type 0 where
  pub cpuid_format : ℕ
  pub vendor_format : ℕ
  pub stepping_format : ℕ
  pub model_format : ℕ
  pub family_format : ℕ

-- `(u8)(res & 0x000000FF)` and the three other bytes of a register.
abbrev pub register_bytes : ℕ → List ℕ
register_bytes res =
    (bit_and res 0xFF % 2 ^ 8)
    ∷ (bit_and (res / 2 ^ 8) 0xFF % 2 ^ 8)
    ∷ (bit_and (res / 2 ^ 16) 0xFF % 2 ^ 8)
    ∷ (bit_and (res / 2 ^ 24) 0xFF % 2 ^ 8)
    ∷ []

-- The calls of `kprintf`: `res1` to `res4` are eax, ebx, edx and ecx, and behind the second `cpuid` edx
-- is read.
abbrev pub identify_calls : (ℕ → Registers) → Formats → List Call
identify_calls cpuid f =
    let r = cpuid 0 in
    let res1 = (cpuid 1).edx in
    record { format = f.cpuid_format; args = r.eax ∷ r.ebx ∷ r.edx ∷ r.ecx ∷ [] }
    ∷ record {
      format = f.vendor_format;
      args = register_bytes r.ebx ++ (register_bytes r.edx ++ register_bytes r.ecx);
    }
    ∷ record { format = f.stepping_format; args = bit_and res1 0x0F ∷ [] }
    ∷ record { format = f.model_format; args = (bit_and res1 0xF0 / 2 ^ 4) ∷ [] }
    ∷ record { format = f.family_format; args = (bit_and res1 0xF00 / 2 ^ 8) ∷ [] }
    ∷ []

unfoldable pub identify_cpu : ℕ → Buffers → ℕ → (ℕ → Registers) → Formats → Output → Option Output
identify_cpu fuel b junk cpuid f o = kprintf_calls fuel b junk (identify_calls cpuid f) o
