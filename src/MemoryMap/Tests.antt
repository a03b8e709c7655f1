-- ===== src/MemoryMap/Tests.antt =====
-- A map with two regions.
use rtbench.Common.{◌≡◌, refl, arith, returned, [], ◌∷◌, ◌++◌, replicate, get_or}
use rtbench.Memory.{Mem}
use rtbench.MemoryMap.{MapInfo, region_at, scan_memory_map}
use rtbench.MemoryMap.Walk.{IsMap, map_end, region, main_length, Scanned, scan_memory_map-Scanned}

-- The flags, the length 48 and the address 52 of the map, and the regions.
abbrev loaded : Mem
loaded a =
    get_or
      ((0x40 ∷ 0 ∷ 0 ∷ 0 ∷ [])
        ++ replicate 40 0
        ++ (48 ∷ 0 ∷ 0 ∷ 0 ∷ 52 ∷ 0 ∷ 0 ∷ 0 ∷ [])
        ++ (20 ∷ 0 ∷ 0 ∷ 0 ∷ [])
        ++ replicate 8 0
        ++ (0 ∷ 0xFC ∷ 9 ∷ 0 ∷ 0 ∷ 0 ∷ 0 ∷ 0 ∷ 1 ∷ 0 ∷ 0 ∷ 0 ∷ [])
        ++ (20 ∷ 0 ∷ 0 ∷ 0 ∷ 0 ∷ 0 ∷ 0x10 ∷ 0 ∷ 0 ∷ 0 ∷ 0 ∷ 0 ∷ [])
        ++ (0 ∷ 0 ∷ 0xF0 ∷ 0x3F ∷ 0 ∷ 0 ∷ 0 ∷ 0 ∷ 1 ∷ 0 ∷ 0 ∷ 0 ∷ []))
      a 0

abbrev empty : MapInfo
empty = record {
  glbl_mem_map_info = λ k. region_at (λ a. 0) 0;
  glbl_num_entries = 0;
  phys_addr_len = 0;
}

loaded-IsMap : IsMap loaded 100 52 (52 ∷ 76 ∷ [])
loaded-IsMap =
    region (omega arith) (omega arith) (region (omega arith) (omega arith) (map_end (omega arith)))

main_runs : main_length loaded 0 (52 ∷ 76 ∷ []) ≡ 0x3FF00000
unfolding main_length
main_runs = refl

scan_memory_map-Scanned_example :
    (s : MapInfo) × (scan_memory_map 3 loaded 0 empty ≡ returned s)
    × Scanned loaded empty (52 ∷ 76 ∷ []) s
scan_memory_map-Scanned_example =
    scan_memory_map-Scanned 3 loaded 0 (omega arith) loaded-IsMap (omega arith) empty (omega arith)
