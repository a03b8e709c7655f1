-- ===== src/Memory/Laws.antt =====
-- What the byte-copying routines of utilities.c leave in memory, and what `memcmp` decides.
use rtbench.Common.{
  ℕ, zero, suc, ◌+◌, ◌-◌, ◌≤◌, ◌<◌, ◌≡◌, ◌⊎◌, refl, arith, leb, ltb, ◌&&◌, if◌then◌else◌, ◌==◌,
  Bool-cases, inl, inr, ==→eq, ◌∙◌, dec_lt,
}
use rtbench.Common.Int.{ℤ, pos, negsuc}
use rtbench.Memory.{Mem, store, memset, memcpy, memcmp}

-- `memset` writes the value to each of the `size` bytes from `dst`, and to no other byte.
pub memset_lem :
    (m : Mem) (dst val size a : ℕ)
    → memset m dst val size a ≡ (if leb dst a && ltb a (dst + size) then val else m a)
unfolding memset
memset_lem m dst val zero a = ground arith
memset_lem m dst val (suc size) a =
    ground (arith, memset_lem (store m dst val) (dst + 1) val size a)

pub memcpy_frame :
    (m : Mem) (dst src size a : ℕ) → (a < dst) ⊎ (dst + size ≤ a) → memcpy m dst src size a ≡ m a
unfolding memcpy
memcpy_frame m dst src zero a h = refl
memcpy_frame m dst src (suc size) a h =
    ground (arith, memcpy_frame (store m dst (m src)) (dst + 1) (src + 1) size a)

memcpy_copied :
    (m : Mem) (dst src size a : ℕ)
    → (dst ≤ src) ⊎ (src + size ≤ dst)
    → dst ≤ a
    → a < dst + size
    → memcpy m dst src size a ≡ m (src + (a - dst))
unfolding memcpy
memcpy_copied m dst src zero a h p q = absurd (omega arith)
memcpy_copied m dst src (suc size) a h p q = elim (dec_lt dst a) [
  | yes below ↦
      memcpy_copied (store m dst (m src)) (dst + 1) (src + 1) size a (omega arith) (omega arith)
        (omega arith)
      ∙ ground arith
  | no here ↦ ground (arith, memcpy_frame (store m dst (m src)) (dst + 1) (src + 1) size a)
]

-- Where the destination does not start inside the source, `memcpy` puts the old byte `src + i` at
-- `dst + i` for each `i < size`, and changes no byte outside the destination.
pub memcpy_lem :
    (m : Mem) (dst src size : ℕ)
    → (dst ≤ src) ⊎ (src + size ≤ dst)
    → ((i : ℕ) → i < size → memcpy m dst src size (dst + i) ≡ m (src + i))
      × ((a : ℕ) → (a < dst) ⊎ (dst + size ≤ a) → memcpy m dst src size a ≡ m a)
memcpy_lem m dst src size h =
    (λ i lt. ground (arith, memcpy_copied m dst src size (dst + i)), memcpy_frame m dst src size)

-- What a result of `memcmp` says of the two ranges: no difference, or which byte is larger at the
-- first difference.
pub data Compared (m : Mem) (src dst size : ℕ) : ℤ → Type 0 where
  same : ((i : ℕ) → i < size → m (src + i) ≡ m (dst + i)) → Compared m src dst size (pos 0)
  larger :
      (k : ℕ)
      → k < size
      → ((i : ℕ) → i < k → m (src + i) ≡ m (dst + i))
      → m (dst + k) < m (src + k)
      → Compared m src dst size (pos 1)
  smaller :
      (k : ℕ)
      → k < size
      → ((i : ℕ) → i < k → m (src + i) ≡ m (dst + i))
      → m (src + k) < m (dst + k)
      → Compared m src dst size (negsuc 0)

module _ (m : Mem) (src dst : ℕ) (eq : m src ≡ m dst) where
  agree_suc :
      (n : ℕ)
      → ((i : ℕ) → i < n → m (src + 1 + i) ≡ m (dst + 1 + i))
      → (i : ℕ) → i < suc n
      → m (src + i) ≡ m (dst + i)
  agree_suc n h zero lt = ground arith
  agree_suc n h (suc i) lt = ground (arith, h i)

  Compared-suc :
      (size : ℕ) {r : ℤ} → Compared m (src + 1) (dst + 1) size r → Compared m src dst (suc size) r
  Compared-suc size (same h) = same (agree_suc size h)
  Compared-suc size (larger k lt h d) = larger (suc k) (omega arith) (agree_suc k h) (ground arith)
  Compared-suc size (smaller k lt h d) =
      smaller (suc k) (omega arith) (agree_suc k h) (ground arith)

-- `memcmp` returns 0 exactly on equal ranges, and otherwise 1 or -1 by the first pair of bytes
-- that differ, 1 when the byte of its first argument is the larger.
pub memcmp-Compared : (m : Mem) (src dst size : ℕ) → Compared m src dst size (memcmp m src dst size)
unfolding memcmp
memcmp-Compared m src dst zero = same (λ i lt. elim lt [ ])
memcmp-Compared m src dst (suc size) = elim (Bool-cases (m src == m dst)) [
  | inl e ↦
      rw e (Compared-suc m src dst (==→eq _ _ e) size (memcmp-Compared m (src + 1) (dst + 1) size))
  | inr e ↦ rw e (elim (Bool-cases (ltb (m dst) (m src))) [
    | inl g ↦ rw g (larger 0 (omega arith) (λ i lt. elim lt [ ]) (ground arith))
    | inr l ↦ rw l (smaller 0 (omega arith) (λ i lt. elim lt [ ]) (ground arith))
  ])
]
