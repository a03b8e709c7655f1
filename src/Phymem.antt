-- ===== src/Phymem.antt =====
-- tools/src/baremetal/phymem/phymem.c: the command line tool that shows and changes physical memory,
-- as it is built for 64 bits. The values of the flags are what strtoul makes of their texts. `m` is the
-- memory at the physical addresses that the pointers stand for, and `stop` the end of the mapping: an
-- access that reaches behind it is out of bounds, and ends what is modelled.
pub mod Fill
pub mod Read
pub mod Write
pub mod Main
mod Tests
use rtbench.Common.{
  ℕ, zero, suc, ◌+◌, ◌-◌, ◌*◌, ◌/◌, ◌%◌, ◌^◌, bit_or, bit_and, leb, ltb, ◌==◌, ◌&&◌, if◌then◌else◌,
  Bool, true, false, not, List, [], ◌∷◌, ◌++◌, Option, none, some, Run, out_of_fuel, out_of_bounds,
  returned,
}
use rtbench.Memory.{Mem, store, read32}
use rtbench.LinearCode.{store32}

-- The flags of the command line; `help` is -h and every other letter.
pub data Flag : Type 0 where
  length_flag : ℕ → Flag
  physical_flag : ℕ → Flag
  write_flag : Flag
  data_flag : ℕ → Flag
  fill_flag : Flag
  lines_flag : ℕ → Flag
  help : Flag

-- What the flags set. `data_word` is uninitialised without -d.
pub record Settings : Type 0 where
  pub mem_span : ℕ
  pub phy_addr : ℕ
  pub lines_per_pages : ℕ
  pub data_word : ℕ
  pub writeflag : Bool
  pub init_memory_flag : Bool

abbrev pub defaults : ℕ → Settings
defaults junk = record {
  mem_span = 1024;
  phy_addr = 0;
  lines_per_pages = 256;
  data_word = junk;
  writeflag = false;
  init_memory_flag = false;
}

-- The loop over the flags; none when it ends with the usage.
unfoldable pub get_flags : List Flag → Settings → Option Settings
get_flags [] s = some s
get_flags (length_flag n ∷ fs) s = get_flags fs (record s { mem_span = n })
get_flags (physical_flag a ∷ fs) s = get_flags fs (record s { phy_addr = a })
get_flags (write_flag ∷ fs) s = get_flags fs (record s { writeflag = true })
get_flags (data_flag d ∷ fs) s = get_flags fs (record s { data_word = d })
get_flags (fill_flag ∷ fs) s = get_flags fs (record s { init_memory_flag = true })
get_flags (lines_flag n ∷ fs) s = get_flags fs (record s { lines_per_pages = n % 2 ^ 32 })
get_flags (help ∷ fs) s = none

-- -w wins over -f.
abbrev pub settle_flags : Settings → Settings
settle_flags s =
    if s.writeflag && s.init_memory_flag then record s { init_memory_flag = false } else s

abbrev pub map_len : ℕ → ℕ
map_len span = if leb 0x1000 span then span else 0x1000

-- The pages that are mapped for a length, of 4 KB each and the last one whole, in bytes.
abbrev pub mapped_bytes : ℕ → ℕ
mapped_bytes span = (map_len span + 0xFFF) / 0x1000 * 0x1000

-- An access of `n` bytes at `p`, behind which `r` is the run.
abbrev pub if_mapped {ℓ} : {A : Type ℓ} → ℕ → ℕ → ℕ → Run A → Run A
if_mapped stop p n r = if leb (p + n) stop then r else out_of_bounds

-- At least 16 lines, and a multiple of 16.
unfoldable pub page_lines : ℕ → ℕ
page_lines n = bit_and (if ltb n 0x10 then 0x10 else n) (2 ^ 32 - 16)

-- `for (i=0;i<length;i+=4) *tmp_ptr++ = (int) (phy_addr+i);`, with the int as its 32-bit pattern.
unfoldable pub equal_loop : ℕ → Mem → ℕ → ℕ → ℕ → ℕ → ℕ → Run Mem
equal_loop zero m stop p phy_addr i length = out_of_fuel
equal_loop (suc fuel) m stop p phy_addr i length =
    let rest =
      equal_loop fuel (store32 m p ((phy_addr + i) % 2 ^ 32)) stop (p + 4) phy_addr
        ((i + 4) % 2 ^ 32) length in
    if ltb i length then if_mapped stop p 4 rest else returned m

abbrev pub fill_mem_with_data_equal_address : ℕ → Mem → ℕ → ℕ → ℕ → ℕ → Run Mem
fill_mem_with_data_equal_address fuel m stop start_addr phy_addr length =
    equal_loop fuel m stop start_addr phy_addr 0 length

-- `while (length > 0) { *tmp_ptr++ = (int) data; length -= sizeof (int); }`; the length is unsigned.
unfoldable pub fill_memory_with_user_input : ℕ → Mem → ℕ → ℕ → ℕ → ℕ → Run Mem
fill_memory_with_user_input zero m stop p data_word length = out_of_fuel
fill_memory_with_user_input (suc fuel) m stop p data_word length =
    let rest =
      fill_memory_with_user_input fuel (store32 m p (data_word % 2 ^ 32)) stop (p + 4) data_word
        ((length + 2 ^ 32 - 4) % 2 ^ 32) in
    if ltb 0 length then if_mapped stop p 4 rest else returned m

-- What is printed: an address with a colon, a word, the end of a line.
pub data Shown : Type 0 where
  address : ℕ → Shown
  word : ℕ → Shown
  newline : Shown

-- The output of one round of `read_pattern`.
abbrev pub show_word : Mem → ℕ → ℕ → ℕ → List Shown
show_word m p i j =
    (if i % 16 == 0 then address j ∷ [] else [])
    ++ word (read32 m p) ∷ (if (i + 4) % 16 == 0 then newline ∷ [] else [])

abbrev pub then_shown : List Shown → Run (List Shown) → Run (List Shown)
then_shown xs out_of_fuel = out_of_fuel
then_shown xs out_of_bounds = out_of_bounds
then_shown xs (returned ys) = returned (xs ++ ys)

-- The loop of `read_pattern`: `keys n` is what getchar returns when it has been called `n` times, `r`
-- how often it was called.
unfoldable pub read_loop : ℕ → Mem → ℕ → (ℕ → ℕ) → ℕ → ℕ → ℕ → ℕ → ℕ → ℕ → ℕ → Run (List Shown)
read_loop zero m stop keys lines length p i j c r = out_of_fuel
read_loop (suc fuel) m stop keys lines length p i j c r =
    let turn = i % lines == 0 in
    let c_next = if turn then keys r else c in
    let r_next = if turn then r + 1 else r in
    let rest = read_loop fuel m stop keys lines length (p + 4) (i + 4) (j + 4) c_next r_next in
    if ltb i length
    then if c_next == b'q'
      then returned []
      else if_mapped stop p 4 (then_shown (show_word m p i j) rest)
    else returned []

-- `c` is uninitialised.
abbrev pub read_pattern : ℕ → ℕ → Mem → ℕ → (ℕ → ℕ) → ℕ → ℕ → ℕ → Run (List Shown)
read_pattern fuel c m stop keys lines phy_addr length =
    read_loop fuel m stop keys lines length phy_addr 0 phy_addr c 0

-- How the program ends: with the usage or an error and a code, as a positive number, at an access
-- outside the mapping, or with a memory, an output and the arguments of munmap.
pub data Outcome : Type 0 where
  ended : ℕ → Outcome
  left_mapping : Outcome
  finished : Mem → List Shown → ℕ → ℕ → Outcome

-- The `switch` over the length of a write.
unfoldable pub write_memory : ℕ → Mem → ℕ → ℕ → ℕ → ℕ → Run Mem
write_memory fuel m stop p data_word span =
    if span == 1
    then if_mapped stop p 1 (returned (store m p (data_word % 256)))
    else if span == 2
    then if_mapped stop p 2
        (returned (store (store m p (data_word % 256)) (p + 1) (data_word / 2 ^ 8 % 256)))
    else if span == 4
    then if_mapped stop p 4 (returned (store32 m p (data_word % 2 ^ 32)))
    else if span == 8
    then if_mapped stop p 8 (
        returned (store32 (store32 m p (data_word % 2 ^ 32)) (p + 4) (data_word / 2 ^ 32 % 2 ^ 32)))
    else fill_memory_with_user_input fuel m stop p data_word (span % 2 ^ 32)

-- What the program takes from outside: the fuel of its loops, `data` and `c` before they are set, the
-- keys, whether the I/O permission is given, and what mmap makes of a length and a page.
pub record Surroundings : Type 0 where
  pub fuel : ℕ
  pub junk_data : ℕ
  pub junk_c : ℕ
  pub keys : ℕ → ℕ
  pub iopl : Bool
  pub mmap : ℕ → ℕ → Option ℕ

abbrev pub wrote : ℕ → ℕ → Run Mem → Option Outcome
wrote at_page span out_of_fuel = none
wrote at_page span out_of_bounds = some left_mapping
wrote at_page span (returned m) = some (finished m [] at_page span)

abbrev pub read_out : Mem → ℕ → ℕ → Run (List Shown) → Option Outcome
read_out m at_page span out_of_fuel = none
read_out m at_page span out_of_bounds = some left_mapping
read_out m at_page span (returned shown) = some (finished m shown at_page span)

-- What munmap is given for the address that mmap returned.
abbrev pub munmap_address : ℕ → ℕ → ℕ
munmap_address mapped page_offset = bit_and (bit_or mapped page_offset) 0xFFF

module _ (o : Surroundings) where
  -- With the page mapped at `mapped`: a write, a fill or a listing, then munmap.
  unfoldable pub use_mapping : Mem → Settings → Option ℕ → Option Outcome
  use_mapping m s none = some (ended 3)
  use_mapping m s (some mapped) =
      let page_offset = bit_and s.phy_addr 0xFFF in
      let page = bit_and s.phy_addr 0xfffffffffffff000 in
      let stop = page + mapped_bytes s.mem_span in
      let phy_addr = bit_or page page_offset in
      let at_page = munmap_address mapped page_offset in
      let length = s.mem_span % 2 ^ 32 in
      if s.writeflag
      then wrote at_page s.mem_span (write_memory o.fuel m stop phy_addr s.data_word s.mem_span)
      else if s.init_memory_flag
      then wrote at_page s.mem_span (
          fill_mem_with_data_equal_address o.fuel m stop phy_addr
            ((phy_addr + page_offset) % 2 ^ 64) length)
      else read_out m at_page s.mem_span (
          read_pattern o.fuel o.junk_c m stop o.keys (page_lines s.lines_per_pages) phy_addr length)

  unfoldable pub after_flags : Mem → Option Settings → Option Outcome
  after_flags m none = some (ended 0)
  after_flags m (some s) =
      if s.phy_addr == 0
      then some (ended 1)
      else if not o.iopl
      then some (ended 1)
      else use_mapping m (settle_flags s)
          (o.mmap (map_len s.mem_span) (bit_and s.phy_addr 0xfffffffffffff000))

  abbrev pub phymem_main : Mem → List Flag → Option Outcome
  phymem_main m flags = after_flags m (get_flags flags (defaults o.junk_data))
