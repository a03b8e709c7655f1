-- ===== src/LinearCode.antt =====
-- bench/502.linearcode/src/main.c: the generator of the machine code that the benchmark runs. Addresses
-- are taken modulo 2^32, as the code casts them.
pub mod Calls
pub mod Functions
pub mod Machine
pub mod Run
mod Tests
use rtbench.Common.{ℕ, zero, suc, ◌+◌, ◌-◌, ◌*◌, ◌/◌, ◌%◌, ◌^◌}
use rtbench.Memory.{Mem, store}

-- `*((int *) p) = v`.
unfoldable pub store32 : Mem → ℕ → ℕ → Mem
store32 m p v =
    store (store (store (store m p (v % 256)) (p + 1) (v / 2 ^ 8 % 256)) (p + 2) (v / 2 ^ 16 % 256))
      (p + 3) (v / 2 ^ 24 % 256)

-- ADD EAX, IMM at `p`.
unfoldable pub store_add : Mem → ℕ → Mem
store_add m p =
    store (store (store (store (store m p 0x05) (p + 1) 0xb3) (p + 2) 0x74) (p + 3) 0xa4) (p + 4)
      0x02

-- `- (unsigned int) calls + (unsigned int) functions`.
abbrev pub calls_offset : ℕ → ℕ → ℕ
calls_offset calls functions = (2 ^ 32 - calls + functions) % 2 ^ 32

-- `(int) (offset + C*64 - 5 - 10*i)`, as a 32-bit pattern.
abbrev pub relative : ℕ → ℕ → ℕ → ℕ
relative offset c i = (offset + c * 64 + 2 ^ 32 - (5 + 10 * i)) % 2 ^ 32

-- One round of the loop: the call and the addition.
unfoldable pub build_call : Mem → ℕ → ℕ → ℕ → ℕ → Mem
build_call m calls offset c i =
    store_add (store32 (store m (calls + i * 10) 0xe8) (calls + i * 10 + 1) (relative offset c i))
      (calls + i * 10 + 5)

-- `for (i = 0; i < len; i++)`, with `n` rounds left.
unfoldable pub build_loop : Mem → ℕ → ℕ → ℕ → ℕ → ℕ → ℕ → ℕ → ℕ → Mem
build_loop m calls offset modulus a b c i zero = m
build_loop m calls offset modulus a b c i (suc n) =
    build_loop (build_call m calls offset c i) calls offset modulus a b ((a * c + b) % modulus)
      (i + 1) n

unfoldable pub build_calls : Mem → ℕ → ℕ → ℕ → ℕ → ℕ → ℕ → Mem
build_calls m calls functions len modulus a b =
    store (build_loop m calls (calls_offset calls functions) modulus a b b 0 len) (calls + len * 10)
      0xc3

-- `myproc`, copied to `p`.
unfoldable pub copy_myproc : Mem → ℕ → Mem
copy_myproc m p =
    store
      (store
        (store
          (store (store (store (store (store m p 0x48) (p + 1) 0xc7) (p + 2) 0xc1) (p + 3) 0x11)
            (p + 4) 0x11)
          (p + 5) 0x11)
        (p + 6) 0x11)
      (p + 7) 0xc3

-- The loop of `main_502` over the functions, with `n` rounds left.
unfoldable pub build_functions : Mem → ℕ → ℕ → ℕ → ℕ → Mem
build_functions m functions data_at i zero = m
build_functions m functions data_at i (suc n) =
    build_functions
      (store32 (copy_myproc m (functions + i * 64)) (functions + 3 + i * 64)
        ((data_at + i * 8) % 2 ^ 32))
      functions data_at (i + 1) n

abbrev pub functions_number : ℕ
functions_number = 8192

-- What `main_502` builds before it calls the code.
unfoldable pub main_502 : Mem → ℕ → ℕ → ℕ → Mem
main_502 m calls functions data_at =
    build_calls (build_functions m functions data_at 0 functions_number) calls functions
      (1024 * 1024) 8192 509 509
