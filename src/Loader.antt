-- ===== src/Loader.antt =====
-- tools/src/baremetal/smallos/linux_boot/bootloader.c: the Linux program that writes an image of
-- SmallOS to physical memory and starts a processor on it. It is built for 32 bits. The C library and
-- the kernel are parameters. A store outside the one page that is mapped ends what is modelled.
pub mod Image
pub mod Start
mod Tests
use rtbench.Common.{
  ℕ, zero, suc, ◌+◌, ◌-◌, ◌*◌, ◌%◌, ◌^◌, bit_or, bit_and, leb, ltb, ◌==◌, ◌&&◌, ◌||◌, if◌then◌else◌,
  Bool, true, false, not, List, [], ◌∷◌, ◌++◌, replicate, Option, none, some,
}
use rtbench.Memory.{Mem}
use rtbench.LinearCode.{store32}

-- `strtol` and `strtoul` with base 16 of the bytes from an address on, and whether `mmap` succeeds for
-- a page.
pub record Libc : Type 0 where
  pub strtol : List ℕ → ℕ
  pub mmap : ℕ → Bool

-- What stands in the memory of the program behind the two characters of `fourbyte` and behind the
-- eight of `addr`, which nothing initialises.
pub record Junk : Type 0 where
  pub fourbyte : List ℕ
  pub addr : List ℕ

-- `strncpy (dst, line + i, n)`, as the bytes written.
unfoldable pub strncpy : (ℕ → ℕ) → ℕ → ℕ → List ℕ
strncpy line i zero = []
strncpy line i (suc n) =
    if line i == 0 then replicate (suc n) 0 else line i ∷ strncpy line (i + 1) n

abbrev pub same_chars : List ℕ → List ℕ → Bool
same_chars [] ys = true
same_chars (x ∷ xs) [] = false
same_chars (x ∷ xs) (y ∷ ys) = x == y && same_chars xs ys

abbrev pub origin_text : List ℕ
origin_text = b'/' ∷ b'o' ∷ b'r' ∷ b'i' ∷ b'g' ∷ b'i' ∷ b'n' ∷ []

-- `strncmp (origin, "/origin", 7) == 0`.
abbrev pub is_origin : (ℕ → ℕ) → Bool
is_origin line = same_chars (strncpy line 0 7) origin_text

-- The memory, the page that is mapped, none before the first origin, `log_phy_addr` by the physical
-- address that it stands for, `silent`, and the keys that are still to come.
pub record Loader : Type 0 where
  pub memory : Mem
  pub page : Option ℕ
  pub log_phy_addr : ℕ
  pub silent : Bool
  pub keys : List ℕ

abbrev pub next_key : List ℕ → ℕ
next_key [] = 2 ^ 32 - 1
next_key (c ∷ rest) = c

abbrev pub keys_left : List ℕ → List ℕ
keys_left [] = []
keys_left (c ∷ rest) = rest

-- `if (!silent) { c = getchar (); if (c == 'y') silent = 1; }`
abbrev pub ask_key : Loader → Loader
ask_key s =
    if s.silent then s else record s { silent = next_key s.keys == b'y'; keys = keys_left s.keys }

-- The word that the four bytes make, the first one the lowest.
abbrev pub pack : ℕ → ℕ → ℕ → ℕ → ℕ
pack a b c d = (a + b * 2 ^ 8 + c * 2 ^ 16 + d * 2 ^ 24) % 2 ^ 32

-- What a part of the file does: the page of an origin is not mapped, a word is stored outside the
-- page that is mapped, or the state is the next one.
pub data Load : Type 0 where
  unmapped : Load
  off_page : Load
  loaded : Loader → Load

-- A word at `p` is within the page; map_len is 0x1000.
unfoldable pub word_in_page : Option ℕ → ℕ → Bool
word_in_page none p = false
word_in_page (some page) p = leb page p && leb (p + 4) (page + 0x1000)

abbrev pub then_lines : Load → (Loader → Load) → Load
then_lines unmapped f = unmapped
then_lines off_page f = off_page
then_lines (loaded s) f = f s

module _ (libc : Libc) (junk : Junk) where
  -- A line with a new origin; without a mapping the program ends.
  unfoldable pub load_origin : (ℕ → ℕ) → Loader → Load
  load_origin line s =
      let physical = libc.strtol (strncpy line 8 8 ++ junk.addr) % 2 ^ 32 in
      let page = bit_and physical 0xfffff000 in
      if libc.mmap page
      then loaded (record (ask_key s) {
        page = some page;
        log_phy_addr = bit_or page (bit_and physical 0xfff);
      })
      else unmapped

  -- `parsed[j]` of the two characters at `bytes`.
  abbrev pub parsed : (ℕ → ℕ) → ℕ → ℕ
  parsed line bytes = libc.strtol (strncpy line bytes 2 ++ junk.fourbyte)

  -- `n` words of a line, from the column `bytes` on.
  unfoldable pub load_words : ℕ → (ℕ → ℕ) → ℕ → Loader → Load
  load_words zero line bytes s = loaded s
  load_words (suc n) line bytes s =
      let data_word =
        pack (parsed line bytes) (parsed line (bytes + 3)) (parsed line (bytes + 6))
          (parsed line (bytes + 9)) in
      let rest = load_words n line (bytes + 12) (record s {
        memory = store32 s.memory s.log_phy_addr data_word;
        log_phy_addr = s.log_phy_addr + 4;
      }) in
      if word_in_page s.page s.log_phy_addr then rest else off_page

  unfoldable pub load_line : (ℕ → ℕ) → Loader → Load
  load_line line s = if is_origin line then load_origin line s else load_words 4 line 0 s

  -- The loop over the lines of the file, each as the bytes of `buf` after `fgets`.
  unfoldable pub load_file : List (ℕ → ℕ) → Loader → Load
  load_file [] s = loaded s
  load_file (line ∷ rest) s = then_lines (load_line line s) (load_file rest)

-- The command line: the number of arguments, the length of the file name, and of the two numbers the
-- value and whether the library took the whole argument for a number.
pub record Arguments : Type 0 where
  pub argc : ℕ
  pub name_length : ℕ
  pub apid_is_number : Bool
  pub apid : ℕ
  pub address_is_number : Bool
  pub address : ℕ

-- The tests of the arguments; the code of the exit, as a positive number, when one fails.
unfoldable pub check_arguments : Arguments → Option ℕ
check_arguments a =
    if not (a.argc == 4)
    then some 1
    else if ltb 80 a.name_length
    then some 2
    else if not a.apid_is_number || ltb 8 a.apid || a.apid == 0
    then some 3
    else if not a.address_is_number || ltb 0xFF a.address
    then some 4
    else none

-- What the program does to the local APIC: a store at an offset, or a pause in microseconds.
pub data Signal : Type 0 where
  icr : (offset value : ℕ) → Signal
  usleep : ℕ → Signal

abbrev pub icr_high : ℕ → Signal
icr_high apid = icr 0x310 (apid * 2 ^ 24 % 2 ^ 32)

-- The INIT / SIPI / SIPI sequence.
unfoldable pub init_sipi : ℕ → ℕ → List Signal
init_sipi apid address =
    icr_high apid
    ∷ icr 0x300 0x4500
    ∷ usleep 10000
    ∷ icr_high apid
    ∷ icr 0x300 (bit_or 0x4600 address)
    ∷ usleep 500
    ∷ icr_high apid
    ∷ icr 0x300 (bit_or 0x4600 address)
    ∷ usleep 500
    ∷ []

-- How the program ends: by an exit with a code, as a positive number, at a store outside the
-- mapped page, or with the image in memory and the processor started.
pub data Outcome : Type 0 where
  refused : ℕ → Outcome
  left_page : Outcome
  booted : Loader → List Signal → Outcome

abbrev pub start_processor : Libc → Arguments → Load → Outcome
start_processor libc a unmapped = refused 3
start_processor libc a off_page = left_page
start_processor libc a (loaded s) =
    if libc.mmap 0xfee00000 then booted s (init_sipi a.apid a.address) else refused 3

abbrev pub after_check :
    Libc → Junk → Bool → Option (List (ℕ → ℕ)) → Arguments → Loader → Option ℕ → Outcome
after_check libc junk iopl file a s (some code) = refused code
after_check libc junk false file a s none = refused 1
after_check libc junk true none a s none = refused 1
after_check libc junk true (some lines) a s none =
    start_processor libc a (load_file libc junk lines s)

-- `main`: `iopl` is whether the permission was given, `file` the lines, or none when it is not found.
unfoldable pub boot_main : Libc → Junk → Bool → Option (List (ℕ → ℕ)) → Arguments → Loader → Outcome
boot_main libc junk iopl file a s = after_check libc junk iopl file a s (check_arguments a)
