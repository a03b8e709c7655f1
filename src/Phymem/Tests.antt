-- ===== src/Phymem/Tests.antt =====
-- phymem.c on a memory of zeros, with a page mapped at 0x7000.
use rtbench.Common.{
  ℕ, zero, suc, ◌+◌, ◌*◌, ◌%◌, ◌^◌, ◌≡◌, ◌≢◌, ◌<◌, inr, refl, arith, List, [], ◌∷◌, true, some,
}
use rtbench.Memory.{Mem}
use rtbench.Memory.Writes.{Written}
use rtbench.Phymem.{
  Flag, Settings, defaults, get_flags, length_flag, physical_flag, write_flag, data_flag, fill_flag,
  lines_flag, Surroundings, phymem_main, finished, left_mapping, Shown, address, word, newline,
}
use rtbench.Phymem.Fill.{words}
use rtbench.Phymem.Read.{listing}
use rtbench.Phymem.Write.{stored_word}
use rtbench.Phymem.Main.{
  Usable, freed, phymem_main-Listed, phymem_main-Stored, phymem_main-Addresses, phymem_main-outside,
}

abbrev blank : Mem
blank a = 0

-- The second key is q.
abbrev key : ℕ → ℕ
key zero = b' '
key (suc i) = b'q'

abbrev around : Surroundings
around = record {
  fuel = 100;
  junk_data = 0;
  junk_c = 0;
  keys = key;
  iopl = true;
  mmap = λ span page. some 0x7000;
}

abbrev one_line : List Shown
one_line = address 0x12340 ∷ word 0 ∷ word 0 ∷ word 0 ∷ word 0 ∷ newline ∷ []

-- phymem -p 0x12340 -l 64 -n 16
abbrev show_flags : List Flag
show_flags = physical_flag 0x12340 ∷ length_flag 64 ∷ lines_flag 16 ∷ []

abbrev shown : Settings
shown = record (defaults 0) { phy_addr = 0x12340; mem_span = 64; lines_per_pages = 16 }

shown-Usable : Usable around show_flags shown 0x7000
unfolding get_flags
shown-Usable = record {
  parsed = refl;
  given = λ e. omega arith;
  word = omega arith;
  permission = refl;
  mapping = refl;
}

first_key : (i : ℕ) → i < 1 → key i ≢ b'q'
first_key zero lt e = omega arith
first_key (suc i) lt e = omega arith

phymem_main-Listed_example :
    phymem_main around blank show_flags
    ≡ some (finished blank (listing blank 0x12340 0 4) (freed shown 0x7000) 64)
phymem_main-Listed_example =
    phymem_main-Listed around blank show_flags shown 0x7000 1 4 shown-Usable refl refl first_key
      (inr (refl, omega arith, refl)) (omega arith) (omega arith)

listing_line : listing blank 0x12340 0 4 ≡ one_line
unfolding listing
listing_line = refl

-- phymem -p 0x12340 -l 8 -w -d 0x1122334455667788
abbrev write_flags : List Flag
write_flags = physical_flag 0x12340 ∷ length_flag 8 ∷ write_flag ∷ data_flag 0x1122334455667788 ∷ []

abbrev written : Settings
written = record (defaults 0) {
  phy_addr = 0x12340;
  mem_span = 8;
  writeflag = true;
  data_word = 0x1122334455667788;
}

written-Usable : Usable around write_flags written 0x7000
unfolding get_flags
written-Usable = record {
  parsed = refl;
  given = λ e. omega arith;
  word = omega arith;
  permission = refl;
  mapping = refl;
}

phymem_main-Stored_example :
    (m' : Mem) × (phymem_main around blank write_flags
      ≡ some (finished m' [] (freed written 0x7000) 8))
    × Written blank 0x12340 8 (words (stored_word 8 0x1122334455667788)) m'
phymem_main-Stored_example =
    phymem_main-Stored around blank write_flags written 0x7000 written-Usable refl
      (inr (inr (omega arith, omega arith, refl))) (omega arith) (omega arith)

-- With fuel for a page.
abbrev longer : Surroundings
longer = record around { fuel = 1000 }

-- phymem -p 0x12340 -l 6 -w
abbrev straying_flags : List Flag
straying_flags = physical_flag 0x12340 ∷ length_flag 6 ∷ write_flag ∷ []

abbrev straying : Settings
straying = record (defaults 0) { phy_addr = 0x12340; mem_span = 6; writeflag = true }

straying-Usable : Usable longer straying_flags straying 0x7000
unfolding get_flags
straying-Usable = record {
  parsed = refl;
  given = λ e. omega arith;
  word = omega arith;
  permission = refl;
  mapping = refl;
}

phymem_main-outside_example : phymem_main longer blank straying_flags ≡ some left_mapping
phymem_main-outside_example =
    phymem_main-outside longer blank straying_flags straying 0x7000 straying-Usable refl
      (λ e. omega arith) (λ e. omega arith) (λ e. omega arith) (omega arith) (omega arith)

-- phymem -p 0x12340 -l 10 -f
abbrev fill_flags : List Flag
fill_flags = physical_flag 0x12340 ∷ length_flag 10 ∷ fill_flag ∷ []

abbrev filled : Settings
filled = record (defaults 0) { phy_addr = 0x12340; mem_span = 10; init_memory_flag = true }

filled-Usable : Usable around fill_flags filled 0x7000
unfolding get_flags
filled-Usable = record {
  parsed = refl;
  given = λ e. omega arith;
  word = omega arith;
  permission = refl;
  mapping = refl;
}

phymem_main-Addresses_example :
    (m' : Mem) × (phymem_main around blank fill_flags
      ≡ some (finished m' [] (freed filled 0x7000) 10))
    × Written blank 0x12340 12 (words (λ k. (0x12340 + 0x340 + 4 * k) % 2 ^ 32)) m'
phymem_main-Addresses_example =
    phymem_main-Addresses around blank fill_flags filled 0x7000 3 filled-Usable refl refl
      (omega arith) (omega arith) (omega arith) (omega arith) (omega arith)
