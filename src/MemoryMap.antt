-- ===== src/MemoryMap.antt =====
-- tools/src/baremetal/smallos/src_c/mp_main.c and include/multiboot.h: `scan_memory_map`, which copies
-- the memory map that the boot loader left.
pub mod Walk
mod Tests
use rtbench.Common.{
  ℕ, zero, suc, ◌+◌, ◌*◌, ◌%◌, ◌^◌, bit_and, Bool, ◌&&◌, ltb, ◌==◌, if◌then◌else◌, leb, Run,
  out_of_fuel, out_of_bounds, returned,
}
use rtbench.Memory.{Mem, read32}

-- `struct memory_map`.
pub record Region : Type 0 where
  pub size : ℕ
  pub base_addr_low : ℕ
  pub base_addr_high : ℕ
  pub len_low : ℕ
  pub len_high : ℕ
  pub kind : ℕ

-- The entries of `glblMemMapInfo`.
abbrev pub num_of_mem_map : ℕ
num_of_mem_map = 64

-- `glblMemMapInfo`, of which the indices below `num_of_mem_map` are the array's, `glblNumEntries` and
-- `phys_addr_len`.
pub record MapInfo : Type 0 where
  pub glbl_mem_map_info : ℕ → Region
  pub glbl_num_entries : ℕ
  pub phys_addr_len : ℕ

abbrev pub region_at : Mem → ℕ → Region
region_at m p = record {
  size = read32 m p;
  base_addr_low = read32 m (p + 4);
  base_addr_high = read32 m (p + 8);
  len_low = read32 m (p + 12);
  len_high = read32 m (p + 16);
  kind = read32 m (p + 20);
}

-- `(mmap->type == 0x1) && (mmap->base_addr_low == 0x100000)`.
abbrev pub is_main : Region → Bool
is_main r = r.kind == 0x1 && r.base_addr_low == 0x100000

-- The body of the loop.
unfoldable pub add_region : Mem → ℕ → MapInfo → MapInfo
add_region m p s = record {
  glbl_mem_map_info = λ i. if i == s.glbl_num_entries then region_at m p else s.glbl_mem_map_info i;
  glbl_num_entries = s.glbl_num_entries + 1;
  phys_addr_len = if is_main (region_at m p) then read32 m (p + 12) else s.phys_addr_len;
}

-- The loop over the regions from `p` to `stop`. The code does not compare the number of entries with
-- the size of the array: the store of a region that does not fit is out of bounds.
unfoldable pub map_loop : ℕ → Mem → ℕ → ℕ → MapInfo → Run MapInfo
map_loop zero m stop p s = out_of_fuel
map_loop (suc fuel) m stop p s =
    let rest = map_loop fuel m stop ((p + read32 m p + 4) % 2 ^ 32) (add_region m p s) in
    if ltb p stop
    then if leb num_of_mem_map s.glbl_num_entries then out_of_bounds else rest
    else returned s

unfoldable pub scan_memory_map : ℕ → Mem → ℕ → MapInfo → Run MapInfo
scan_memory_map fuel m mbi s =
    if bit_and (read32 m mbi) (2 ^ 6) == 0
    then returned s
    else map_loop fuel m ((read32 m (mbi + 48) + read32 m (mbi + 44)) % 2 ^ 32)
        (read32 m (mbi + 48)) s
