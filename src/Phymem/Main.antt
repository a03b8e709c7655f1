-- ===== src/Phymem/Main.antt =====
-- phymem.c: the whole program, from its flags to the memory and the output.
use rtbench.Common.{
  ℕ, ◌+◌, ◌-◌, ◌*◌, ◌/◌, ◌%◌, ◌^◌, ◌≤◌, ◌<◌, ◌≡◌, ◌≢◌, inl, inr, refl, fun_ext, ap, ◌∙◌, subst,
  arith, List, [], ◌∷◌, bit_and, page_and_offset, page-add-offset, bit_and-high_field, bit_and_mask,
  ltb, if◌then◌else◌, true, false, some, Bool-cases, ne→==, max,
}
use rtbench.Memory.{Mem}
use rtbench.Memory.Writes.{Written}
use rtbench.Phymem.{
  wrote, write_memory, fill_mem_with_data_equal_address, Flag, Settings, defaults, get_flags,
  length_flag, physical_flag, write_flag, data_flag, fill_flag, lines_flag, help, settle_flags,
  map_len, mapped_bytes, page_lines, Surroundings, munmap_address, use_mapping, after_flags,
  phymem_main, finished, left_mapping,
}
use rtbench.Phymem.Write.{IsSpan, Stored, stored_word, write_memory-Stored, write_memory-outside}
use rtbench.Phymem.Fill.{words, fill_mem_with_data_equal_address-Filled}
use rtbench.Phymem.Read.{Ends, listing, read_pattern-Listed}

-- The words of a page of output.
abbrev pub page_words : ℕ → ℕ
page_words n = 4 * (max 16 n / 16)

page_lines-words : (n : ℕ) → n < 2 ^ 32 → page_lines n ≡ 4 * page_words n
unfolding page_lines
page_lines-words n lt =
    let k = if ltb n 0x10 then 0x10 else n in
    let clamp : k ≡ max 16 n = ground arith in
    let field : bit_and (k / 2 ^ 4) (2 ^ 28 - 1) ≡ k / 2 ^ 4 % 2 ^ 28 =
      bit_and_mask 28 (k / 2 ^ 4) in
    bit_and-high_field 4 k (2 ^ 28 - 1) ∙ ap (λ t. t * 2 ^ 4) field ∙ omega (arith, clamp)

get_flags-lines :
    (fs : List Flag) (s : Settings) {t : Settings}
    → s.lines_per_pages < 2 ^ 32
    → get_flags fs s ≡ some t
    → t.lines_per_pages < 2 ^ 32
unfolding get_flags
get_flags-lines [] s lt e = ground arith
get_flags-lines (length_flag n ∷ fs) s lt e = get_flags-lines fs (record s { mem_span = n }) lt e
get_flags-lines (physical_flag a ∷ fs) s lt e = get_flags-lines fs (record s { phy_addr = a }) lt e
get_flags-lines (write_flag ∷ fs) s lt e = get_flags-lines fs (record s { writeflag = true }) lt e
get_flags-lines (data_flag d ∷ fs) s lt e = get_flags-lines fs (record s { data_word = d }) lt e
get_flags-lines (fill_flag ∷ fs) s lt e =
    get_flags-lines fs (record s { init_memory_flag = true }) lt e
get_flags-lines (lines_flag n ∷ fs) s lt e =
    get_flags-lines fs (record s { lines_per_pages = n % 2 ^ 32 }) (omega arith) e
get_flags-lines (help ∷ fs) s lt e = absurd (ground arith)

-- The flags give the settings, with an address, and its page can be mapped.
pub record Usable (o : Surroundings) (flags : List Flag) (s : Settings) (mapped : ℕ) : Type 0 where
  pub parsed : get_flags flags (defaults o.junk_data) ≡ some s
  pub given : s.phy_addr ≢ 0
  pub word : s.phy_addr < 2 ^ 64
  pub permission : o.iopl ≡ true
  pub mapping : o.mmap (map_len s.mem_span) (bit_and s.phy_addr 0xfffffffffffff000) ≡ some mapped

phymem_main-uses :
    (o : Surroundings) (m : Mem) (flags : List Flag) (s : Settings) (mapped : ℕ)
    → Usable o flags s mapped
    → phymem_main o m flags ≡ use_mapping o m (settle_flags s) (some mapped)
unfolding after_flags
phymem_main-uses o m flags s mapped h =
    rw (h.parsed, ne→== s.phy_addr 0 h.given, h.permission, h.mapping) refl

-- The page of the address, and where the mapping ends.
abbrev pub page_of : Settings → ℕ
page_of s = bit_and s.phy_addr 0xfffffffffffff000

abbrev pub mapping_end : Settings → ℕ
mapping_end s = page_of s + mapped_bytes s.mem_span

page_of-offset : (s : Settings) → s.phy_addr < 2 ^ 64 → page_of s + s.phy_addr % 2 ^ 12 ≡ s.phy_addr
page_of-offset s word = page-add-offset 52 s.phy_addr word

map_len-page : (span : ℕ) → 0x1000 ≤ map_len span
map_len-page span = ground arith

-- `n` bytes from the address on are in the mapped pages.
abbrev pub IsMapped : Settings → ℕ → Type 0
IsMapped s n = s.phy_addr % 2 ^ 12 + n ≤ mapped_bytes s.mem_span

IsMapped-end :
    (s : Settings) (n : ℕ) → s.phy_addr < 2 ^ 64 → IsMapped s n → s.phy_addr + n ≤ mapping_end s
IsMapped-end s n word le = omega (arith, page_of-offset s word, le)

-- The address that munmap is given.
abbrev pub freed : Settings → ℕ → ℕ
freed s mapped = munmap_address mapped (bit_and s.phy_addr 0xFFF)

-- With usable flags, without -w and -f, with fuel for the words, and where the words that are read are
-- within the mapped pages, the program prints the words from the address on, 16 bytes in a line, up to
-- the length or to the page at which the first q is pressed, and leaves the memory as it is.
pub phymem_main-Listed :
    (o : Surroundings) (m : Mem) (flags : List Flag) (s : Settings) (mapped q end : ℕ)
    → Usable o flags s mapped
    → s.writeflag ≡ false
    → s.init_memory_flag ≡ false
    → ((i : ℕ) → i < q → o.keys i ≢ b'q')
    → Ends o.keys (page_words s.lines_per_pages) (s.mem_span % 2 ^ 32) q end
    → end < o.fuel
    → IsMapped s (4 * end)
    → phymem_main o m flags
      ≡ some (finished m (listing m s.phy_addr 0 end) (freed s mapped) s.mem_span)
unfolding use_mapping
phymem_main-Listed o m flags s mapped q end h no_write no_fill others ends enough inside =
    let lines =
      page_lines-words s.lines_per_pages
        (get_flags-lines flags (defaults o.junk_data) (omega arith) h.parsed) in
    let shown =
      read_pattern-Listed o.fuel o.junk_c m (mapping_end s) o.keys (page_words s.lines_per_pages)
        (s.mem_span % 2 ^ 32) s.phy_addr q end (IsMapped-end s (4 * end) h.word inside)
        (omega arith) others ends enough in
    phymem_main-uses o m flags s mapped h
    ∙ rw (no_write, no_fill, page_and_offset 52 s.phy_addr h.word, lines, shown) refl

phymem_main-writes :
    (o : Surroundings) (m : Mem) (flags : List Flag) (s : Settings) (mapped : ℕ)
    → Usable o flags s mapped
    → s.writeflag ≡ true
    → phymem_main o m flags
      ≡ wrote
          (freed s mapped)
          s.mem_span
          (write_memory o.fuel m (mapping_end s) s.phy_addr s.data_word s.mem_span)
unfolding use_mapping
phymem_main-writes o m flags s mapped h write =
    phymem_main-uses o m flags s mapped h ∙ elim (Bool-cases s.init_memory_flag) [
      | inl fill ↦ rw (write, fill, page_and_offset 52 s.phy_addr h.word) refl
      | inr none_set ↦ rw (write, none_set, page_and_offset 52 s.phy_addr h.word) refl
    ]

-- With usable flags and -w the bytes of the data stand in memory from the address on, and nothing else
-- changes: for a length of 1 or 2, or a multiple of four below 2 ^ 32 that is not zero, with the low 32
-- bits repeated or, for 8, the 64 bits. The bytes are within the mapped pages, and the fuel exceeds the
-- number of words.
pub phymem_main-Stored :
    (o : Surroundings) (m : Mem) (flags : List Flag) (s : Settings) (mapped : ℕ)
    → Usable o flags s mapped
    → s.writeflag ≡ true
    → IsSpan s.mem_span
    → s.mem_span / 4 < o.fuel
    → IsMapped s s.mem_span
    → (m' : Mem) × (phymem_main o m flags ≡ some (finished m' [] (freed s mapped) s.mem_span))
      × Written m s.phy_addr s.mem_span (words (stored_word s.mem_span s.data_word)) m'
unfolding Stored
phymem_main-Stored o m flags s mapped h write is_span enough inside =
    let (m', done, w) =
      write_memory-Stored o.fuel m (mapping_end s) s.phy_addr s.data_word s.mem_span is_span enough
        (IsMapped-end s s.mem_span h.word inside) in
    (m', phymem_main-writes o m flags s mapped h write ∙ rw done refl, w)

-- With usable flags, -w and a length below 2 ^ 32 that four does not divide, other than 1 and 2, the
-- program never comes to munmap: whatever the offset and the length are, its stores reach the end of
-- the mapping and leave it. The fuel exceeds the number of words from the address to that end.
pub phymem_main-outside :
    (o : Surroundings) (m : Mem) (flags : List Flag) (s : Settings) (mapped : ℕ)
    → Usable o flags s mapped
    → s.writeflag ≡ true
    → s.mem_span ≢ 1
    → s.mem_span ≢ 2
    → s.mem_span % 4 ≢ 0
    → s.mem_span < 2 ^ 32
    → mapped_bytes s.mem_span < s.phy_addr % 2 ^ 12 + 4 * o.fuel
    → phymem_main o m flags ≡ some left_mapping
phymem_main-outside o m flags s mapped h write not1 not2 odd small enough =
    let place = page_of-offset s h.word in
    let page = map_len-page s.mem_span in
    let left =
      write_memory-outside o.fuel m (mapping_end s) s.phy_addr s.data_word s.mem_span not1 not2 odd
        small (omega arith) (omega (arith, place, enough)) in
    phymem_main-writes o m flags s mapped h write ∙ rw left refl

phymem_main-fills :
    (o : Surroundings) (m : Mem) (flags : List Flag) (s : Settings) (mapped : ℕ)
    → Usable o flags s mapped
    → s.writeflag ≡ false
    → s.init_memory_flag ≡ true
    → phymem_main o m flags
      ≡ wrote (freed s mapped) s.mem_span (
          fill_mem_with_data_equal_address o.fuel m
            (mapping_end s)
            s.phy_addr
            ((s.phy_addr + bit_and s.phy_addr 0xFFF) % 2 ^ 64)
            (s.mem_span % 2 ^ 32))
unfolding use_mapping
phymem_main-fills o m flags s mapped h no_write fill =
    phymem_main-uses o m flags s mapped h
    ∙ rw (no_write, fill, page_and_offset 52 s.phy_addr h.word) refl

-- With usable flags, fuel for the words and -f alone, every word of the length, below 2 GB, gets its
-- address plus the offset of the first address in its page, as 32 bits, and nothing else changes; the
-- length is rounded up to `n` words, which are within the mapped pages.
pub phymem_main-Addresses :
    (o : Surroundings) (m : Mem) (flags : List Flag) (s : Settings) (mapped n : ℕ)
    → Usable o flags s mapped
    → s.writeflag ≡ false
    → s.init_memory_flag ≡ true
    → s.mem_span < 2 ^ 31
    → s.mem_span ≤ 4 * n
    → 4 * n < s.mem_span + 4
    → n < o.fuel
    → IsMapped s (4 * n)
    → (m' : Mem) × (phymem_main o m flags ≡ some (finished m' [] (freed s mapped) s.mem_span))
      × Written m s.phy_addr
          (4 * n)
          (words (λ k. (s.phy_addr + s.phy_addr % 2 ^ 12 + 4 * k) % 2 ^ 32))
          m'
phymem_main-Addresses o m flags s mapped n h no_write fill small low high enough inside =
    let a = (s.phy_addr + bit_and s.phy_addr 0xFFF) % 2 ^ 64 in
    let (m', done, w) =
      fill_mem_with_data_equal_address-Filled n o.fuel m (mapping_end s) s.phy_addr a s.mem_span
        (IsMapped-end s (4 * n) h.word inside) low high small enough in
    let length : s.mem_span % 2 ^ 32 ≡ s.mem_span = omega arith in
    let offset : bit_and s.phy_addr 0xFFF ≡ s.phy_addr % 2 ^ 12 = bit_and_mask 12 s.phy_addr in
    let same : (k : ℕ)
        → (a + 4 * k) % 2 ^ 32 ≡ (s.phy_addr + s.phy_addr % 2 ^ 12 + 4 * k) % 2 ^ 32 =
      λ k. omega (arith, offset) in
    (
      m',
      phymem_main-fills o m flags s mapped h no_write fill ∙ rw (length, done) refl,
      subst (λ v. Written m s.phy_addr (4 * n) (words v) m') (fun_ext same) w,
    )
