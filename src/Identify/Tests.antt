-- ===== src/Identify/Tests.antt =====
-- IdentifyCPU on a processor of Intel.
use rtbench.Common.{
  ℕ, ◌+◌, ◌-◌, ◌≤◌, ◌≡◌, inl, refl, arith, List, [], ◌∷◌, ◌++◌, some, Bool, true, false, ltb, ◌==◌,
  if◌then◌else◌, get_or, length,
}
use rtbench.Memory.{Mem}
use rtbench.Text.Strings.{Holds}
use rtbench.Video.{print_str}
use rtbench.Serial.Format
use rtbench.Printf.{Buffers, Output}
use rtbench.Printf.Ready.{AgreeOutside}
use rtbench.Printf.Items.{Item, format_text}
use rtbench.Printf.Calls.{IsFormat, Shows}
use rtbench.Identify.{Registers, Formats, identify_cpu}
use rtbench.Identify.Reading.{
  stepping_text, model_text, family_text, cpuid_items, vendor_items, field_items, identified,
  vendor_name,
}
use rtbench.Identify.Printed.{lines, identify_cpu-Prints}

abbrev slot : List Item → ℕ → ℕ
slot is k = get_or (format_text is) k 0

-- A format in each 64 bytes from 0x100 on.
abbrev image : Mem
image a =
    if ltb a 0x100
    then 0
    else if ltb a 0x140
    then slot cpuid_items (a - 0x100)
    else if ltb a 0x180
    then slot vendor_items (a - 0x140)
    else if ltb a 0x1C0
    then slot (field_items stepping_text) (a - 0x180)
    else if ltb a 0x200
    then slot (field_items model_text) (a - 0x1C0)
    else slot (field_items family_text) (a - 0x200)

abbrev formats : Formats
formats = record {
  cpuid_format = 0x100;
  vendor_format = 0x140;
  stepping_format = 0x180;
  model_format = 0x1C0;
  family_format = 0x200;
}

abbrev buffers : Buffers
buffers = record { local_buf = 0; tmp_buf = 32; int_buf = 64 }

-- "GenuineIntel", and a processor of family 6 and model 42.
abbrev intel : ℕ → Registers
intel n =
    if n == 0
    then record { eax = 0x0000000D; ebx = 0x756E6547; ecx = 0x6C65746E; edx = 0x49656E69 }
    else record { eax = 0x000206A7; ebx = 0x00100800; ecx = 0x1FBAE3FF; edx = 0xBFEBFBFF }

abbrev before : Output
before = record {
  memory = image;
  sent = [];
  vga = record { row = 0; col = 0; attr = 15; video = λ a. 0; outs = [] };
}

abbrev is_there : Mem → ℕ → List ℕ → Bool
is_there m p [] = true
is_there m p (x ∷ xs) = if m p == x then is_there m (p + 1) xs else false

is_there_head :
    (a x : ℕ) (rest : Bool) → (if a == x then rest else false) ≡ true → (a ≡ x) × (rest ≡ true)
is_there_head a x rest e = ground arith

is_there-Holds : (m : Mem) (p : ℕ) (xs : List ℕ) → is_there m p xs ≡ true → Holds m p xs
is_there-Holds m p [] e = tt
is_there-Holds m p (x ∷ xs) e =
    let (here, rest) = is_there_head (m p) x (is_there m (p + 1) xs) e in
    (here, is_there-Holds m (p + 1) xs rest)

IsFormat-at :
    (p : ℕ) (is : List Item)
    → is_there image p (format_text is) ≡ true
    → image (p + length (format_text is)) ≡ 0
    → 0x100 ≤ p
    → IsFormat buffers image p is
IsFormat-at p is there ends le = record {
  holds = is_there-Holds image p (format_text is) there;
  ends = ends;
  outside = record {
    from_local = inl (omega arith);
    from_tmp = inl (omega arith);
    from_int = inl (omega arith);
  };
}

-- The name is in ebx, edx and ecx.
vendor_name-intel :
    vendor_name (intel 0)
    ≡ b'G' ∷ b'e' ∷ b'n' ∷ b'u' ∷ b'i' ∷ b'n' ∷ b'e' ∷ b'I' ∷ b'n' ∷ b't' ∷ b'e' ∷ b'l' ∷ []
vendor_name-intel = refl

identify_cpu-Prints_example :
    (t : List ℕ) × Format.Prints (identified (vendor_name (intel 0)) 15 15 11) t
    × (u : List ℕ) × Shows (lines intel formats) u
    × (o' : Output) × (identify_cpu 61 buffers 0 intel formats before ≡ some o')
    × (o'.sent ≡ [] ++ t)
    × (o'.vga ≡ print_str before.vga u)
    × AgreeOutside buffers image o'.memory
identify_cpu-Prints_example =
    identify_cpu-Prints intel formats buffers 61 0 before
      (record {
        local_tmp = inl (omega arith);
        local_int = inl (omega arith);
        tmp_int = inl (omega arith);
      })
      (record {
        cpuid = IsFormat-at 0x100 cpuid_items refl refl (omega arith);
        vendor = IsFormat-at 0x140 vendor_items refl refl (omega arith);
        stepping = IsFormat-at 0x180 (field_items stepping_text) refl refl (omega arith);
        model = IsFormat-at 0x1C0 (field_items model_text) refl refl (omega arith);
        family = IsFormat-at 0x200 (field_items family_text) refl refl (omega arith);
      })
      (record { eax = omega arith; ebx = omega arith; ecx = omega arith; edx = omega arith })
      (omega arith)
