-- ===== src/LinearCode/Calls.antt =====
-- 502.linearcode: what `build_calls` leaves in memory, read as instructions.
use rtbench.Common.{
  ℕ, zero, suc, ◌+◌, ◌*◌, ◌/◌, ◌%◌, ◌^◌, ◌≤◌, ◌<◌, ◌≡◌, refl, subst, ◌∙◌, arith, ◌⊎◌, inl, inr,
  ne→==,
}
use rtbench.Memory.{Mem, read32}
use rtbench.LinearCode.{
  store32, store_add, calls_offset, relative, build_call, build_loop, build_calls,
}

-- The ten bytes at `p` are CALL `target`, by the distance from the next instruction, and
-- ADD EAX, 0x02A474B3.
pub record IsCall (m : Mem) (p target : ℕ) : Type 0 where
  pub call : m p ≡ 0xe8
  pub to : (p + 5 + read32 m (p + 1)) % 2 ^ 32 ≡ target % 2 ^ 32
  pub add : (m (p + 5) ≡ 0x05) × (read32 m (p + 6) ≡ 0x02A474B3)

-- The numbers of the functions called: a linear congruential sequence from `b`.
unfoldable pub sequence : ℕ → ℕ → ℕ → ℕ → ℕ → ℕ
sequence modulus a b c zero = c
sequence modulus a b c (suc k) = sequence modulus a b ((a * c + b) % modulus) k

build_call_frame :
    (m : Mem) (calls offset c i x : ℕ)
    → (x < calls + i * 10) ⊎ (calls + i * 10 + 10 ≤ x)
    → build_call m calls offset c i x ≡ m x
unfolding build_call store32 store_add
build_call_frame m calls offset c i x h = ground arith

join_bytes :
    (v : ℕ)
    → v < 2 ^ 32
    → v % 256 + v / 2 ^ 8 % 256 * 2 ^ 8 + (v / 2 ^ 16 % 256 + v / 2 ^ 24 % 256 * 2 ^ 8) * 2 ^ 16 ≡ v
join_bytes v h = omega arith

pub read32-store32 : (m : Mem) (p v : ℕ) → v < 2 ^ 32 → read32 (store32 m p v) p ≡ v
unfolding store32
read32-store32 m p v h = ground (arith, join_bytes v h)

read32-build_call :
    (m : Mem) (calls offset c i : ℕ)
    → read32 (build_call m calls offset c i) (calls + i * 10 + 1) ≡ relative offset c i
unfolding build_call store32 store_add
read32-build_call m calls offset c i =
    ground (arith, join_bytes (relative offset c i) (omega arith))

build_call-IsCall :
    (m : Mem) (calls functions c i : ℕ)
    → calls < 2 ^ 32
    → 10 * i + 5 < 2 ^ 32
    → IsCall
        (build_call m calls (calls_offset calls functions) c i)
        (calls + i * 10)
        (functions + c * 64)
unfolding build_call store32 store_add
build_call-IsCall m calls functions c i small few = record {
  call = ground arith;
  to = omega (arith, read32-build_call m calls (calls_offset calls functions) c i);
  add = (ground arith, ground arith);
}

IsCall-move :
    {m m' : Mem} {p t : ℕ}
    → ((x : ℕ) → p ≤ x → x < p + 10 → m' x ≡ m x)
    → IsCall m p t
    → IsCall m' p t
IsCall-move {m} {m'} {p} same h =
    let word : (q : ℕ) → p ≤ q → q + 4 ≤ p + 10 → read32 m' q ≡ read32 m q = λ q le lt. omega (
      arith,
      same q (omega arith) (omega arith),
      same (q + 1) (omega arith) (omega arith),
      same (q + 2) (omega arith) (omega arith),
      same (q + 2 + 1) (omega arith) (omega arith),
    ) in
    record {
      call = same p (omega arith) (omega arith) ∙ h.call;
      to = rw (word (p + 1) (omega arith) (omega arith)) h.to;
      add = (
        same (p + 5) (omega arith) (omega arith) ∙ h.add.0,
        word (p + 6) (omega arith) (omega arith) ∙ h.add.1,
      );
    }

IsCall-at : {m : Mem} {p p' t : ℕ} → p ≡ p' → IsCall m p t → IsCall m p' t
IsCall-at {m} {t = t} e h = subst (λ p. IsCall m p t) e h

module _ (calls functions modulus a b : ℕ) where
  build_loop_frame :
      (m : Mem) (c i n x : ℕ)
      → (x < calls + i * 10) ⊎ (calls + (i + n) * 10 ≤ x)
      → build_loop m calls (calls_offset calls functions) modulus a b c i n x ≡ m x
  unfolding build_loop
  build_loop_frame m c i zero x h = refl
  build_loop_frame m c i (suc n) x h =
      build_loop_frame (build_call m calls (calls_offset calls functions) c i)
        ((a * c + b) % modulus) (i + 1) n x
        (elim h [ inl l ↦ inl (omega arith) | inr l ↦ inr (omega arith) ])
      ∙ build_call_frame m calls (calls_offset calls functions) c i x
          (elim h [ inl l ↦ inl (omega arith) | inr l ↦ inr (omega arith) ])

  build_loop-IsCall :
      (m : Mem) (c i n k : ℕ)
      → calls < 2 ^ 32
      → 10 * (i + n) + 5 < 2 ^ 32
      → k < n
      → IsCall
          (build_loop m calls (calls_offset calls functions) modulus a b c i n)
          (calls + (i + k) * 10)
          (functions + sequence modulus a b c k * 64)
  unfolding build_loop sequence
  build_loop-IsCall m c i zero k small few lt = absurd (omega arith)
  build_loop-IsCall m c i (suc n) zero small few lt = IsCall-at (omega arith) (
      IsCall-move
        (λ x ge le.
          build_loop_frame (build_call m calls (calls_offset calls functions) c i)
            ((a * c + b) % modulus) (i + 1) n x (inl (omega arith)))
        (build_call-IsCall m calls functions c i small (omega arith)))
  build_loop-IsCall m c i (suc n) (suc k) small few lt = IsCall-at (omega arith) (
      build_loop-IsCall (build_call m calls (calls_offset calls functions) c i)
        ((a * c + b) % modulus) (i + 1) n k small (omega arith) (omega arith))

-- `build_calls` of `len` calls makes of each ten bytes from `calls` a CALL of a function, the numbers
-- following the sequence C = (A*C + B) % N from B, with 64 bytes for each function, and an ADD, and
-- ends them with RET. Nothing else changes. The code is shorter than 2^32 bytes.
pub build_calls-IsCall :
    (m : Mem) (calls functions len modulus a b : ℕ)
    → calls < 2 ^ 32
    → 10 * len + 5 < 2 ^ 32
    → let m' = build_calls m calls functions len modulus a b in
      ((k : ℕ) → k < len → IsCall m' (calls + k * 10) (functions + sequence modulus a b b k * 64))
      × (m' (calls + len * 10) ≡ 0xc3)
      × ((x : ℕ) → (x < calls) ⊎ (calls + len * 10 < x) → m' x ≡ m x)
unfolding build_calls
build_calls-IsCall m calls functions len modulus a b small few = (
  λ k lt.
      IsCall-move (λ x ge le. ground arith)
        (IsCall-at (omega arith)
          (build_loop-IsCall calls functions modulus a b m b 0 len k small (omega arith) lt)),
  ground arith,
  λ x h.
      rw
        (ne→== (calls + len * 10) x
          (elim h [ inl l ↦ (λ e. omega arith) | inr l ↦ (λ e. omega arith) ]))
        (build_loop_frame calls functions modulus a b m b 0 len x
          (elim h [ inl l ↦ inl (omega arith) | inr l ↦ inr (omega arith) ])),
)
