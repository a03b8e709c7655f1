-- ===== src/MemoryMap/Walk.antt =====
-- mp_main.c: what `scan_memory_map` leaves of a map that fits.
use rtbench.Common.{
  ℕ, zero, suc, ◌+◌, ◌%◌, ◌^◌, ◌≤◌, ◌<◌, ◌≡◌, ◌≢◌, refl, ap, subst, ◌∙◌, arith, bit_and, returned,
  List, [], ◌∷◌, length, if◌then◌else◌, ◌==◌, ◌&&◌, eq→==, ne→==, lt→ltb, le→ltb, leb, false,
}
use rtbench.Memory.{Mem, read32}
use rtbench.MemoryMap.{
  Region, MapInfo, num_of_mem_map, region_at, add_region, map_loop, scan_memory_map,
}

-- The regions at `ps` stand one behind the other from `p` to `stop`, below 2^32.
pub data IsMap (m : Mem) (stop : ℕ) : ℕ → List ℕ → Type 0 where
  map_end : {p : ℕ} → stop ≤ p → IsMap m stop p []
  region :
      {p : ℕ} {ps : List ℕ}
      → p < stop
      → p + read32 m p + 4 < 2 ^ 32
      → IsMap m stop (p + read32 m p + 4) ps
      → IsMap m stop p (p ∷ ps)

-- The low word of the length of the last region of type 1 whose low address word is that of 1 MB, or
-- `len` when there is none. The high words are not looked at.
unfoldable pub main_length : Mem → ℕ → List ℕ → ℕ
main_length m len [] = len
main_length m len (p ∷ ps) =
    let here = read32 m (p + 20) == 0x1 && read32 m (p + 4) == 0x100000 in
    main_length m (if here then read32 m (p + 12) else len) ps

-- The entry holds the six words that stand at `p`, in their order.
pub record IsCopy (m : Mem) (p : ℕ) (r : Region) : Type 0 where
  pub size : r.size ≡ read32 m p
  pub base_addr_low : r.base_addr_low ≡ read32 m (p + 4)
  pub base_addr_high : r.base_addr_high ≡ read32 m (p + 8)
  pub len_low : r.len_low ≡ read32 m (p + 12)
  pub len_high : r.len_high ≡ read32 m (p + 16)
  pub kind : r.kind ≡ read32 m (p + 20)

region_at-IsCopy : (m : Mem) (p : ℕ) {r : Region} → r ≡ region_at m p → IsCopy m p r
region_at-IsCopy m p e = record {
  size = ap (λ r. r.size) e;
  base_addr_low = ap (λ r. r.base_addr_low) e;
  base_addr_high = ap (λ r. r.base_addr_high) e;
  len_low = ap (λ r. r.len_low) e;
  len_high = ap (λ r. r.len_high) e;
  kind = ap (λ r. r.kind) e;
}

-- The entries from number `k` are copies of the regions at `ps`.
pub data Copied (m : Mem) (s : MapInfo) : ℕ → List ℕ → Type 0 where
  copied_all : {k : ℕ} → Copied m s k []
  copied :
      {k p : ℕ} {ps : List ℕ}
      → IsCopy m p (s.glbl_mem_map_info k)
      → Copied m s (suc k) ps
      → Copied m s k (p ∷ ps)

pub record Scanned (m : Mem) (s : MapInfo) (ps : List ℕ) (s' : MapInfo) : Type 0 where
  pub count : s'.glbl_num_entries ≡ s.glbl_num_entries + length ps
  pub entries : Copied m s' s.glbl_num_entries ps
  pub kept : (k : ℕ) → k < s.glbl_num_entries → s'.glbl_mem_map_info k ≡ s.glbl_mem_map_info k
  pub main : s'.phys_addr_len ≡ main_length m s.phys_addr_len ps

Scanned-add :
    (m : Mem) (p : ℕ) (s : MapInfo) {ps : List ℕ} {s' : MapInfo}
    → Scanned m (add_region m p s) ps s'
    → Scanned m s (p ∷ ps) s'
unfolding add_region main_length
Scanned-add m p s {ps} {s'} h = record {
  count = omega (arith, h.count);
  entries =
      copied
        (region_at-IsCopy m p
          (h.kept s.glbl_num_entries (omega arith) ∙ rw (eq→== s.glbl_num_entries _ refl) refl))
        (subst (λ k. Copied m s' k ps) (omega arith) h.entries);
  kept = λ k lt. h.kept k (omega arith) ∙ rw (ne→== k s.glbl_num_entries (omega arith)) refl;
  main = h.main;
}

map_loop-Scanned :
    (fuel : ℕ) {m : Mem} {stop p : ℕ} {ps : List ℕ}
    → IsMap m stop p ps
    → length ps < fuel
    → (s : MapInfo) → s.glbl_num_entries + length ps ≤ num_of_mem_map
    → (s' : MapInfo) × (map_loop fuel m stop p s ≡ returned s') × Scanned m s ps s'
unfolding map_loop main_length add_region
map_loop-Scanned zero h f s fits = absurd (omega arith)
map_loop-Scanned (suc fuel) {m} {stop} {p} (map_end le) f s fits = (
  s,
  rw (le→ltb p stop le) refl,
  record { count = omega arith; entries = copied_all; kept = λ k lt. refl; main = refl },
)
map_loop-Scanned (suc fuel) {m} {stop} {p} (region {ps = ps} lt small h) f s fits =
    let (s', e, w) = map_loop-Scanned fuel h (omega arith) (add_region m p s) (omega arith) in
    let next : (p + read32 m p + 4) % 2 ^ 32 ≡ p + read32 m p + 4 = omega arith in
    let room : leb num_of_mem_map s.glbl_num_entries ≡ false = ground arith in
    (
      s',
      rw (lt→ltb p stop lt, room) (ap (λ q. map_loop fuel m stop q (add_region m p s)) next ∙ e),
      Scanned-add m p s w,
    )

-- Where the multiboot flags announce a map, its regions are at `ps`, the fuel exceeds their number and
-- they fit in the 64 entries behind those that are there, `scan_memory_map` returns: it appends a copy
-- of each region in order, keeps the entries before, and takes for `phys_addr_len` the low word of the
-- length of the last region of type 1 whose low address word is that of 1 MB, whatever its high one.
pub scan_memory_map-Scanned :
    (fuel : ℕ) (m : Mem) (mbi : ℕ) {ps : List ℕ}
    → bit_and (read32 m mbi) (2 ^ 6) ≢ 0
    → IsMap m ((read32 m (mbi + 48) + read32 m (mbi + 44)) % 2 ^ 32) (read32 m (mbi + 48)) ps
    → length ps < fuel
    → (s : MapInfo) → s.glbl_num_entries + length ps ≤ num_of_mem_map
    → (s' : MapInfo) × (scan_memory_map fuel m mbi s ≡ returned s') × Scanned m s ps s'
unfolding scan_memory_map
scan_memory_map-Scanned fuel m mbi flag h f s fits =
    rw (ne→== (bit_and (read32 m mbi) (2 ^ 6)) 0 flag) (map_loop-Scanned fuel h f s fits)
