-- ===== src/Printf/Ready.antt =====
-- utilities.c: the state of `console_printf` between two pieces of a format.
use rtbench.Common.{
  ℕ, suc, ◌+◌, ◌≤◌, ◌<◌, ◌≡◌, ◌⊎◌, inl, inr, refl, ap, ◌∙◌, subst, arith, List, [], ◌∷◌, length,
  if◌then◌else◌, Bool, true, false, Bool-cases,
}
use rtbench.Memory.{Mem, memset}
use rtbench.Memory.Laws.{memset_lem}
use rtbench.Text.Strings.{Holds, IsString}
use rtbench.Video.{Vga}
use rtbench.Printf.{Buffers, Printing, clear_fill}
use rtbench.Printf.Pieces.{Outside}

-- The bytes of `int_buf` are the digit 0.
abbrev pub AreZeros : Buffers → Mem → Type 0
AreZeros b m = (k : ℕ) → k < 32 → m (b.int_buf + k) ≡ b'0'

-- Where nothing is printed the memory is as before.
abbrev pub AgreeOutside : Buffers → Mem → Mem → Type 0
AgreeOutside b m m' = (a : ℕ) → Outside b a 1 → m' a ≡ m a

-- Between two pieces: the width `f` that is left, for which `int_buf` holds zeros, and a memory that is
-- `m` outside the buffers.
pub record IsReady (b : Buffers) (m : Mem) (f : ℕ) (s : Printing) : Type 0 where
  pub agree : AgreeOutside b m s.memory
  pub fill : s.lead_fill ≡ f
  pub small : f ≤ 8
  pub zeros : (f ≡ 0) ⊎ AreZeros b s.memory
  pub no_flag : s.lead_zero ≡ false

-- The same with a flag: `int_buf` is still to be filled.
pub record IsFlagged (b : Buffers) (m : Mem) (f : ℕ) (s : Printing) : Type 0 where
  pub agree : AgreeOutside b m s.memory
  pub fill : s.lead_fill ≡ f
  pub small : f ≤ 8
  pub flag : s.lead_zero ≡ true

memset-AreZeros : (b : Buffers) (m : Mem) → AreZeros b (memset m b.int_buf b'0' 32)
memset-AreZeros b m k lt = ground (arith, memset_lem m b.int_buf b'0' 32 (b.int_buf + k))

memset-AgreeOutside :
    (b : Buffers) (m m' : Mem)
    → AgreeOutside b m m'
    → AgreeOutside b m (memset m' b.int_buf b'0' 32)
memset-AgreeOutside b m m' h a out =
    ground (arith, memset_lem m' b.int_buf b'0' 32 a, h a out, out.from_int)

pub clear_fill-IsReady :
    (b : Buffers) (m : Mem) (f : ℕ) (s : Printing)
    → IsFlagged b m f s
    → IsReady b m f (clear_fill b s)
unfolding clear_fill
clear_fill-IsReady b m f s h = rw h.flag (record {
  agree = memset-AgreeOutside b m s.memory h.agree;
  fill = h.fill;
  small = h.small;
  zeros = inr (memset-AreZeros b s.memory);
  no_flag = refl;
})

inside : (b : Buffers) (p n k : ℕ) → k < n → Outside b p n → Outside b (p + k) 1
inside b p n k lt out = record {
  from_local = elim out.from_local [ inl l ↦ inl (omega arith) | inr r ↦ inr (omega arith) ];
  from_tmp = elim out.from_tmp [ inl l ↦ inl (omega arith) | inr r ↦ inr (omega arith) ];
  from_int = elim out.from_int [ inl l ↦ inl (omega arith) | inr r ↦ inr (omega arith) ];
}

Holds-agree :
    (m m' : Mem) (p : ℕ) (xs : List ℕ)
    → ((k : ℕ) → k < length xs → m' (p + k) ≡ m (p + k))
    → Holds m p xs
    → Holds m' p xs
Holds-agree m m' p [] same h = tt
Holds-agree m m' p (x ∷ xs) same h = (
  ap m' (omega arith) ∙ same 0 (omega arith) ∙ ap m (omega arith) ∙ h.0,
  Holds-agree m m' (p + 1) xs
      (λ k lt. ap m' (omega arith) ∙ same (suc k) (omega arith) ∙ ap m (omega arith)) h.1,
)

-- A string that is in no buffer stays.
pub AgreeOutside-IsString :
    (b : Buffers) (m m' : Mem) (p : ℕ) (xs : List ℕ)
    → AgreeOutside b m m'
    → Outside b p (length xs + 1)
    → IsString m p xs
    → IsString m' p xs
AgreeOutside-IsString b m m' p xs agree out string =
    let same : (k : ℕ) → k < length xs + 1 → m' (p + k) ≡ m (p + k) =
      λ k lt. agree (p + k) (inside b p (length xs + 1) k lt out) in
    record {
      holds = Holds-agree m m' p xs (λ k lt. same k (omega arith)) string.holds;
      nonzero = string.nonzero;
      ends = same (length xs) (omega arith) ∙ string.ends;
    }

module _ (b : Buffers) (m : Mem) where
  pub moved :
      {f : ℕ} (s : Printing) (vga : Vga) (args : List ℕ) (str : ℕ)
      → IsReady b m f s
      → IsReady b m f (record s { vga = vga; args = args; str = str })
  moved s vga args str r = record {
    agree = r.agree;
    fill = r.fill;
    small = r.small;
    zeros = r.zeros;
    no_flag = r.no_flag;
  }

  pub memory_at :
      {f : ℕ} (s : Printing) (p n k : ℕ)
      → IsReady b m f s
      → k < n
      → Outside b p n
      → s.memory (p + k) ≡ m (p + k)
  memory_at s p n k r lt out = r.agree (p + k) (inside b p n k lt out)

  pub memory_here :
      {f : ℕ} (s : Printing) (p n : ℕ) → IsReady b m f s → 0 < n → Outside b p n → s.memory p ≡ m p
  memory_here s p n r lt out =
      subst (λ a. s.memory a ≡ m a) (omega arith) (memory_at s p n 0 r lt out)

  pub agree-IsString :
      {f : ℕ} (s : Printing) (p : ℕ) (xs : List ℕ)
      → IsReady b m f s
      → Outside b p (length xs + 1)
      → IsString m p xs
      → IsString s.memory p xs
  agree-IsString s p xs r out string = AgreeOutside-IsString b m s.memory p xs r.agree out string

  pub clear_fill_keeps :
      (s : Printing) → ((clear_fill b s).vga ≡ s.vga) × ((clear_fill b s).args ≡ s.args)
  unfolding clear_fill
  clear_fill_keeps s = elim (Bool-cases s.lead_zero) [
    | inl set ↦ rw set (refl, refl)
    | inr unset ↦ rw unset (refl, refl)
  ]

  pub clear_fill_none : (s : Printing) → s.lead_zero ≡ false → clear_fill b s ≡ s
  unfolding clear_fill
  clear_fill_none s unset =
      ap
        (λ (z : Bool).
          if z
          then record s { lead_zero = false; memory = memset s.memory b.int_buf b'0' 32 }
          else s)
        unset
