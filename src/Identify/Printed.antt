-- ===== src/Identify/Printed.antt =====
-- What IdentifyCPU sends on the serial line and shows on the console.
use rtbench.Common.{
  ℕ, ◌/◌, ◌%◌, ◌^◌, ◌<◌, ◌≡◌, refl, subst, ap, ◌∙◌, arith, bit_and, List, [], ◌∷◌, ◌++◌, map, some,
  bit_and_mask, bit_and-high_field,
}
use rtbench.Memory.{Mem}
use rtbench.Video.{print_str}
use rtbench.Serial.Format
use rtbench.Printf.{Buffers, Output}
use rtbench.Printf.Pieces.{AreApart}
use rtbench.Printf.Ready.{AgreeOutside}
use rtbench.Printf.Calls.{
  Line, IsFormat, IsPrepared, ArePrepared, line-IsPrepared, all_sent, Shows, kprintf_calls-Shows,
}
use rtbench.Identify.{Registers, Formats, register_bytes, identify_cpu}
use rtbench.Common.{length, true, ◌+◌}
use rtbench.Printf.Items.{sent_rounds, SentArgs, ShownArgs, are_items}
use rtbench.Identify.Reading.{
  stepping_text, model_text, family_text, cpuid_items, vendor_items, field_items, AreFormats,
  IsRegisters, bytes_of, identified, vendor_name,
}

byte_lem : (x : ℕ) → bit_and x 0xFF % 2 ^ 8 % 256 ≡ x % 256
byte_lem x = omega (arith, bit_and_mask 8 x)

stepping_lem : (x : ℕ) → bit_and x 0x0F ≡ x % 16
stepping_lem x = bit_and_mask 4 x

model_lem : (x : ℕ) → bit_and x 0xF0 / 2 ^ 4 ≡ x / 16 % 16
model_lem x = omega (arith, bit_and-high_field 4 x 15, bit_and_mask 4 (x / 2 ^ 4))

family_lem : (x : ℕ) → bit_and x 0xF00 / 2 ^ 8 ≡ x / 256 % 16
family_lem x = omega (arith, bit_and-high_field 8 x 15, bit_and_mask 4 (x / 2 ^ 8))

bytes_lem : (a : ℕ) → map (λ n. n % 256) (register_bytes a) ≡ bytes_of a
bytes_lem a =
    rw (byte_lem a, byte_lem (a / 2 ^ 8), byte_lem (a / 2 ^ 16), byte_lem (a / 2 ^ 24)) refl

vendor_lem :
    (a b c : ℕ)
    → map (λ n. n % 256) (register_bytes a ++ (register_bytes b ++ register_bytes c))
      ≡ bytes_of a ++ (bytes_of b ++ bytes_of c)
vendor_lem a b c =
    ap
      (λ xs. xs ++ (map (λ n. n % 256) (register_bytes b) ++ map (λ n. n % 256) (register_bytes c)))
      (bytes_lem a)
    ∙ ap (λ xs. bytes_of a ++ (xs ++ map (λ n. n % 256) (register_bytes c))) (bytes_lem b)
    ∙ ap (λ xs. bytes_of a ++ (bytes_of b ++ xs)) (bytes_lem c)

plain_rounds : (xs : List ℕ) → sent_rounds (field_items xs) ≡ length xs + 2
plain_rounds [] = refl
plain_rounds (x ∷ xs) = omega (arith, plain_rounds xs)

plain_length : (xs : List ℕ) → length (field_items xs) ≡ length xs + 2
plain_length [] = refl
plain_length (x ∷ xs) = omega (arith, plain_length xs)

field_sent : (xs : List ℕ) (n : ℕ) → n < 2 ^ 32 → SentArgs (field_items xs) (n ∷ [])
field_sent [] n lt = (lt, tt)
field_sent (x ∷ xs) n lt = field_sent xs n lt

field_shown : (xs : List ℕ) (n : ℕ) → n < 2 ^ 32 → ShownArgs (field_items xs) (n ∷ [])
field_shown [] n lt = (lt, tt)
field_shown (x ∷ xs) n lt = field_shown xs n lt

-- A line with one number is prepared.
field-IsPrepared :
    (b : Buffers) (fuel : ℕ) (m : Mem) (p : ℕ) (text : List ℕ) (n : ℕ)
    → IsFormat b m p (field_items text)
    → are_items (field_items text) ≡ true
    → n < 2 ^ 32
    → length text + 16 < fuel
    → IsPrepared b fuel m (record { format = p; items = field_items text; args = n ∷ [] })
field-IsPrepared b fuel m p text n h ok lt enough =
    line-IsPrepared b fuel m p (field_items text) (n ∷ []) h ok (field_sent text n lt)
      (field_shown text n lt) (omega (arith, plain_rounds text)) (omega (arith, plain_length text))

module _ (cpuid : ℕ → Registers) (f : Formats) where
  -- The calls with the items of their formats.
  abbrev pub lines : List Line
  lines =
      let r = cpuid 0 in
      let res1 = (cpuid 1).edx in
      record {
        format = f.cpuid_format;
        items = cpuid_items;
        args = r.eax ∷ r.ebx ∷ r.edx ∷ r.ecx ∷ [];
      }
      ∷ record {
        format = f.vendor_format;
        items = vendor_items;
        args = register_bytes r.ebx ++ (register_bytes r.edx ++ register_bytes r.ecx);
      }
      ∷ record {
        format = f.stepping_format;
        items = field_items stepping_text;
        args = bit_and res1 0x0F ∷ [];
      }
      ∷ record {
        format = f.model_format;
        items = field_items model_text;
        args = (bit_and res1 0xF0 / 2 ^ 4) ∷ [];
      }
      ∷ record {
        format = f.family_format;
        items = field_items family_text;
        args = (bit_and res1 0xF00 / 2 ^ 8) ∷ [];
      }
      ∷ []

  all_sent-lines :
      let r = cpuid 0 in
      let res1 = (cpuid 1).edx in
      all_sent lines ≡ identified (vendor_name r) (res1 % 16) (res1 / 16 % 16) (res1 / 256 % 16)
  all_sent-lines =
      let r = cpuid 0 in
      let res1 = (cpuid 1).edx in
      ap
        (λ v.
          identified v (bit_and res1 0x0F) (bit_and res1 0xF0 / 2 ^ 4) (bit_and res1 0xF00 / 2 ^ 8))
        (vendor_lem r.ebx r.edx r.ecx)
      ∙ ap
          (λ n.
            identified (vendor_name r) n (bit_and res1 0xF0 / 2 ^ 4) (bit_and res1 0xF00 / 2 ^ 8))
          (stepping_lem res1)
      ∙ ap (λ n. identified (vendor_name r) (res1 % 16) n (bit_and res1 0xF00 / 2 ^ 8))
          (model_lem res1)
      ∙ ap (identified (vendor_name r) (res1 % 16) (res1 / 16 % 16)) (family_lem res1)

  lines-ArePrepared :
      (b : Buffers) (fuel : ℕ) (m : Mem)
      → AreFormats b m f
      → IsRegisters (cpuid 0)
      → 60 < fuel
      → ArePrepared b fuel m lines
  lines-ArePrepared b fuel m formats registers enough =
      let r = cpuid 0 in
      let res1 = (cpuid 1).edx in
      let registers_line =
        line-IsPrepared b fuel m f.cpuid_format cpuid_items (r.eax ∷ r.ebx ∷ r.edx ∷ r.ecx ∷ [])
          formats.cpuid refl tt
          (registers.eax, (registers.ebx, (registers.edx, (registers.ecx, tt)))) (omega arith)
          (omega arith) in
      let vendor_line =
        line-IsPrepared b fuel m f.vendor_format vendor_items
          (register_bytes r.ebx ++ (register_bytes r.edx ++ register_bytes r.ecx)) formats.vendor
          refl tt tt (omega arith) (omega arith) in
      let stepping_line =
        field-IsPrepared b fuel m f.stepping_format stepping_text (bit_and res1 0x0F)
          formats.stepping refl (omega (arith, stepping_lem res1)) (omega arith) in
      let model_line =
        field-IsPrepared b fuel m f.model_format model_text (bit_and res1 0xF0 / 2 ^ 4)
          formats.model refl (omega (arith, model_lem res1)) (omega arith) in
      let family_line =
        field-IsPrepared b fuel m f.family_format family_text (bit_and res1 0xF00 / 2 ^ 8)
          formats.family refl (omega (arith, family_lem res1)) (omega arith) in
      (registers_line, (vendor_line, (stepping_line, (model_line, (family_line, tt)))))

  -- With the five formats in place, 32-bit registers and fuel above 60, IdentifyCPU returns. On the serial
  -- line it sends the vendor's name, the bytes of ebx, edx and ecx of the first answer, behind four times
  -- an `x` where the registers were meant; and as stepping, model and family the bits 0 to 3, 4 to 7 and
  -- 8 to 11 of edx of the second answer. The console shows what its reading of the formats says.
  pub identify_cpu-Prints :
      (b : Buffers) (fuel junk : ℕ) (o : Output)
      → AreApart b
      → AreFormats b o.memory f
      → IsRegisters (cpuid 0)
      → 60 < fuel
      → (t : List ℕ) × Format.Prints
          (identified
            (vendor_name (cpuid 0))
            ((cpuid 1).edx % 16)
            ((cpuid 1).edx / 16 % 16)
            ((cpuid 1).edx / 256 % 16))
          t
        × (u : List ℕ) × Shows lines u
        × (o' : Output) × (identify_cpu fuel b junk cpuid f o ≡ some o')
        × (o'.sent ≡ o.sent ++ t)
        × (o'.vga ≡ print_str o.vga u)
        × AgreeOutside b o.memory o'.memory
  unfolding identify_cpu
  identify_cpu-Prints b fuel junk o apart formats registers enough =
      let (t, prints, u, shows, o', done, sent, shown, agree) =
        kprintf_calls-Shows b fuel junk lines o apart
          (lines-ArePrepared b fuel o.memory formats registers enough) in
      (
        t,
        subst (λ ps. Format.Prints ps t) all_sent-lines prints,
        u,
        shows,
        o',
        done,
        sent,
        shown,
        agree,
      )
