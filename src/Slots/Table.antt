-- ===== src/Slots/Table.antt =====
-- bench/503.slots/src/main.c: how the cores of the bare-metal build share the rings, by a table in
-- memory. Memory is a map from addresses of aligned 32-bit words to their values.
use rtbench.Common.{ℕ, ◌+◌, ◌≡◌, refl, arith}
use rtbench.Commands.{put_word}

-- `baremetal_rings_allocated`.
abbrev pub rings_allocated : ℕ
rings_allocated = 0x19000100

-- Where `baremetal_rings_pointers` starts.
abbrev pub rings_pointers : ℕ
rings_pointers = 0x19000200

-- The global pointers to the rings, by their addresses.
pub record RingPointers : Type 0 where
  pub app1 : ℕ
  pub app2 : ℕ
  pub app3 : ℕ
  pub app4 : ℕ
  pub out1 : ℕ
  pub out2 : ℕ

-- The memory, the pointers to the rings, and where `baremetal_rings_pointers` points.
pub record Table : Type 0 where
  pub words : ℕ → ℕ
  pub rings : RingPointers
  pub next : ℕ

-- `*baremetal_rings_pointers++ = v`.
abbrev pub store_next : ℕ → Table → Table
store_next v t = record t { words = put_word t.next v t.words; next = t.next + 4 }

-- `main_503_1` before `app_func`. `create_rings` returns the pointers `created`.
unfoldable pub publish_rings : RingPointers → Table → Table
publish_rings created t = store_next created.out2 (
    store_next created.out1 (
      store_next created.app4 (
        store_next created.app3 (
          store_next created.app2 (
            store_next created.app1
              (record t { words = put_word rings_allocated 0 t.words; rings = created }))))))

-- The reads of `set_rings_addresses`.
unfoldable pub set_rings_addresses : Table → Table
set_rings_addresses t = record t {
  rings = record {
    app1 = t.words t.next;
    app2 = t.words (t.next + 4);
    app3 = t.words (t.next + 4 + 4);
    app4 = t.words (t.next + 4 + 4 + 4);
    out1 = t.words (t.next + 4 + 4 + 4 + 4);
    out2 = t.words (t.next + 4 + 4 + 4 + 4 + 4);
  };
  next = t.next + 4 + 4 + 4 + 4 + 4 + 4;
}

-- A core whose own pointer to the table stands where the publishing core's stood reads the six rings
-- that `main_503_1` created, and both pointers are then behind the table.
pub set_rings_addresses-publish_rings :
    (created : RingPointers) (t reader : Table)
    → reader.next ≡ t.next
    → reader.words ≡ (publish_rings created t).words
    → ((set_rings_addresses reader).rings ≡ created)
      × ((set_rings_addresses reader).next ≡ (publish_rings created t).next)
unfolding set_rings_addresses publish_rings
set_rings_addresses-publish_rings created t reader e words =
    (rw (words, e) (ground arith), rw e refl)
