-- ===== src/Loader/Image.antt =====
-- bootloader.c: the bytes that the lines of the file put into memory.
use native.Mathlib.Nat.{zero-add}
use rtbench.Common.{
  fun_ext, ℕ, zero, suc, ◌+◌, ◌-◌, ◌*◌, ◌/◌, ◌%◌, ◌^◌, ◌≤◌, ◌<◌, ◌≡◌, ◌⊎◌, refl, sym, ap, ◌∙◌,
  subst, arith, ltb, ◌==◌, if◌then◌else◌, false, List, [], ◌∷◌, ◌++◌, length, some, ne→==, lt→ltb,
  le→ltb, le→leb, leb, true,
}
use rtbench.Memory.{Mem}
use rtbench.Memory.Writes.{Written, Written-append, quad, store32-Written}
use rtbench.LinearCode.{store32}
use rtbench.Text.Digits.{char_value, IsDigit}
use rtbench.Loader.{
  Libc, Junk, strncpy, is_origin, Loader, parsed, pack, load_words, load_line, load_file, loaded,
  word_in_page,
}

-- The text does not go on with a hexadecimal digit.
abbrev pub Stops : List ℕ → Type 0
Stops [] = Unit
Stops (c ∷ cs) = ¬ (IsDigit 16 c ⊎ (b'A' ≤ c) × (c ≤ b'F'))

-- What is relied on of `strtol`: it reads two hexadecimal digits that no third one follows.
abbrev pub ReadsPairs : Libc → Type 0
ReadsPairs libc =
    (c d : ℕ) (rest : List ℕ)
    → IsDigit 16 c
    → IsDigit 16 d
    → Stops rest
    → libc.strtol (c ∷ d ∷ rest) ≡ char_value c * 16 + char_value d

-- A line of 16 bytes, each as two digits and one character between them.
abbrev pub IsDataLine : (ℕ → ℕ) → (ℕ → ℕ) → Type 0
IsDataLine line bytes =
    (k : ℕ)
    → k < 16
    → IsDigit 16 (line (3 * k))
      × IsDigit 16 (line (3 * k + 1))
      × (bytes k ≡ char_value (line (3 * k)) * 16 + char_value (line (3 * k + 1)))

bytes_of :
    (a b c d : ℕ)
    → a < 256
    → b < 256
    → c < 256
    → d < 256
    → let v = pack a b c d in
      (v % 256 ≡ a) × (v / 2 ^ 8 % 256 ≡ b) × (v / 2 ^ 16 % 256 ≡ c) × (v / 2 ^ 24 % 256 ≡ d)
bytes_of a b c d ha hb hc hd = (omega arith, omega arith, omega arith, omega arith)

store32-pack :
    (m : Mem) (p a b c d : ℕ)
    → a < 256
    → b < 256
    → c < 256
    → d < 256
    → Written m p 4 (quad a b c d) (store32 m p (pack a b c d))
store32-pack m p a b c d ha hb hc hd =
    let (e0, e1, e2, e3) = bytes_of a b c d ha hb hc hd in
    subst (λ f. Written m p 4 f (store32 m p (pack a b c d))) (rw (e0, e1, e2, e3) refl)
      (store32-Written m p (pack a b c d))

-- What a part of the file does: the bytes are written from the pointer on, which is then behind them,
-- and nothing else changes.
pub record Loaded (n : ℕ) (b : ℕ → ℕ) (s t : Loader) : Type 0 where
  pub written : Written s.memory s.log_phy_addr n b t.memory
  pub next : t.log_phy_addr ≡ s.log_phy_addr + n
  pub page : t.page ≡ s.page
  pub silent : t.silent ≡ s.silent
  pub keys : t.keys ≡ s.keys

Loaded-append :
    (n k : ℕ) {b b' c : ℕ → ℕ} {s t u : Loader}
    → Loaded n b s t
    → Loaded k b' t u
    → ((j : ℕ) → j < n → c j ≡ b j)
    → ((j : ℕ) → j < k → c (n + j) ≡ b' j)
    → Loaded (n + k) c s u
Loaded-append n k {b} {b'} {c} {s} {t} {u} x y low high = record {
  written =
      Written-append s.log_phy_addr n k x.written
        (subst (λ p. Written t.memory p k b' u.memory) x.next y.written) low high;
  next = omega (arith, x.next, y.next);
  page = y.page ∙ x.page;
  silent = y.silent ∙ x.silent;
  keys = y.keys ∙ x.keys;
}

Loaded-zero : {b : ℕ → ℕ} (s : Loader) → Loaded 0 b s s
Loaded-zero s = record {
  written = record { bytes = λ j lt. absurd (omega arith); frame = λ a out. refl };
  next = omega arith;
  page = refl;
  silent = refl;
  keys = refl;
}

-- `n` bytes from the pointer on are within the mapped page.
pub record Room (n : ℕ) (s : Loader) : Type 0 where
  pub page : ℕ
  pub mapped : s.page ≡ some page
  pub from : page ≤ s.log_phy_addr
  pub to : s.log_phy_addr + n ≤ page + 0x1000

Room-rest : (n k : ℕ) {b : ℕ → ℕ} {s t : Loader} → Loaded n b s t → Room (n + k) s → Room k t
Room-rest n k x r = record {
  page = r.page;
  mapped = x.page ∙ r.mapped;
  from = omega (arith, x.next, r.from);
  to = omega (arith, x.next, r.to);
}

Room-less : (n k : ℕ) (s : Loader) → Room (n + k) s → Room n s
Room-less n k s r = record {
  page = r.page;
  mapped = r.mapped;
  from = r.from;
  to = omega (arith, r.to);
}

Room-word : (n : ℕ) (s : Loader) → Room (4 + n) s → word_in_page s.page s.log_phy_addr ≡ true
unfolding word_in_page
Room-word n s r =
    let low : leb r.page s.log_phy_addr ≡ true = le→leb r.page s.log_phy_addr r.from in
    let high : leb (s.log_phy_addr + 4) (r.page + 0x1000) ≡ true =
      le→leb (s.log_phy_addr + 4) (r.page + 0x1000) (omega (arith, r.to)) in
    rw (r.mapped, low, high) refl

strncpy_two :
    (line : ℕ → ℕ) (i : ℕ)
    → (line i == 0) ≡ false
    → (line (i + 1) == 0) ≡ false
    → strncpy line i 2 ≡ line i ∷ line (i + 1) ∷ []
unfolding strncpy
strncpy_two line i a b = rw (a, b) refl

module _ (libc : Libc) (junk : Junk) (pairs : ReadsPairs libc) (stops : Stops junk.fourbyte)
    (line bytes : ℕ → ℕ) (is_line : IsDataLine line bytes) where
  digit_nonzero : (c : ℕ) → IsDigit 16 c → (c == 0) ≡ false
  digit_nonzero c h = ne→== c 0 (λ e. ground arith)

  parsed_lem : (k : ℕ) → k < 16 → parsed libc junk line (3 * k) ≡ bytes k
  parsed_lem k lt =
      let (h, l, e) = is_line k lt in
      let two =
        strncpy_two line (3 * k) (digit_nonzero (line (3 * k)) h)
          (digit_nonzero (line (3 * k + 1)) l) in
      ap (λ cs. libc.strtol (cs ++ junk.fourbyte)) two
      ∙ pairs (line (3 * k)) (line (3 * k + 1)) junk.fourbyte h l stops
      ∙ sym e

  byte_small : (k : ℕ) → k < 16 → bytes k < 256
  byte_small k lt = let (h, l, e) = is_line k lt in ground arith

  parsed_at : (i k : ℕ) → i ≡ 3 * k → k < 16 → parsed libc junk line i ≡ bytes k
  parsed_at i k e lt = subst (λ t. parsed libc junk line t ≡ bytes k) (sym e) (parsed_lem k lt)

  -- The state after the word at the byte `k`.
  one_word : ℕ → Loader → Loader
  one_word k s = record s {
    memory = store32 s.memory s.log_phy_addr (
        pack (parsed libc junk line (3 * k)) (parsed libc junk line (3 * k + 3))
          (parsed libc junk line (3 * k + 6)) (parsed libc junk line (3 * k + 9)));
    log_phy_addr = s.log_phy_addr + 4;
  }

  one_word-Loaded :
      (k : ℕ) (s : Loader)
      → k + 4 ≤ 16
      → Loaded 4 (quad (bytes k) (bytes (k + 1)) (bytes (k + 2)) (bytes (k + 3))) s (one_word k s)
  unfolding one_word
  one_word-Loaded k s le =
      let p0 = parsed_at (3 * k) k refl (omega arith) in
      let p1 = parsed_at (3 * k + 3) (k + 1) (omega arith) (omega arith) in
      let p2 = parsed_at (3 * k + 6) (k + 2) (omega arith) (omega arith) in
      let p3 = parsed_at (3 * k + 9) (k + 3) (omega arith) (omega arith) in
      record {
        written =
            rw (p0, p1, p2, p3)
              (store32-pack s.memory s.log_phy_addr (bytes k) (bytes (k + 1)) (bytes (k + 2))
                (bytes (k + 3)) (byte_small k (omega arith)) (byte_small (k + 1) (omega arith))
                (byte_small (k + 2) (omega arith)) (byte_small (k + 3) (omega arith)));
        next = refl;
        page = refl;
        silent = refl;
        keys = refl;
      }

  quad-bytes :
      (k j : ℕ)
      → j < 4
      → bytes (k + j) ≡ quad (bytes k) (bytes (k + 1)) (bytes (k + 2)) (bytes (k + 3)) j
  unfolding quad
  quad-bytes k zero lt = ap bytes (omega arith)
  quad-bytes k (suc zero) lt = refl
  quad-bytes k (suc (suc zero)) lt = refl
  quad-bytes k (suc (suc (suc zero))) lt = refl
  quad-bytes k (suc (suc (suc (suc j)))) lt = absurd (omega arith)

  -- `n` words from the byte `k` of the line on.
  load_words-Loaded :
      (n k : ℕ) (s : Loader)
      → 4 * n + k ≤ 16
      → Room (4 * n) s
      → (t : Loader) × (load_words libc junk n line (3 * k) s ≡ loaded t)
        × Loaded (4 * n) (λ j. bytes (k + j)) s t
  unfolding load_words one_word
  load_words-Loaded zero k s le room = (s, refl, Loaded-zero s)
  load_words-Loaded (suc n) k s le room =
      let s1 = one_word k s in
      let column : 3 * (k + 4) ≡ 3 * k + 12 = omega arith in
      let size : 4 + 4 * n ≡ 4 * suc n = omega arith in
      let all = subst (λ i. Room i s) (sym size) room in
      let word = one_word-Loaded k s (omega arith) in
      let (t, e, rest) =
        load_words-Loaded n (k + 4) s1 (omega arith) (Room-rest 4 (4 * n) word all) in
      (
        t,
        rw (Room-word (4 * n) s all)
            (subst (λ i. load_words libc junk n line i s1 ≡ loaded t) column e),
        subst (λ i. Loaded i (λ j. bytes (k + j)) s t) size
            (Loaded-append 4 (4 * n) word rest (quad-bytes k) (λ j lt. ap bytes (omega arith))),
      )

  line_is_data : is_origin line ≡ false
  unfolding strncpy
  line_is_data =
      let (h, l, e) = is_line 0 (omega arith) in
      let other : (line 0 == b'/') ≡ false = ne→== (line 0) b'/' (λ e. ground arith) in
      rw (digit_nonzero (line 0) h, other) refl

  pub load_line-Loaded :
      (s : Loader)
      → Room 16 s
      → (t : Loader) × (load_line libc junk line s ≡ loaded t) × Loaded 16 bytes s t
  unfolding load_line
  load_line-Loaded s room =
      let (t, e, h) = load_words-Loaded 4 0 s (omega arith) room in
      (t, rw line_is_data e, subst (λ b. Loaded 16 b s t) (fun_ext (λ j. ap bytes (zero-add j))) h)

-- Lines of data, with the bytes of each.
pub data AreLines : List (ℕ → ℕ) → List (ℕ → ℕ) → Type 0 where
  no_line : AreLines [] []
  more_lines :
      {line bytes : ℕ → ℕ} {ls bs : List (ℕ → ℕ)}
      → IsDataLine line bytes
      → AreLines ls bs
      → AreLines (line ∷ ls) (bytes ∷ bs)

-- The bytes of all lines, one line after the other.
unfoldable pub image : List (ℕ → ℕ) → ℕ → ℕ
image [] k = 0
image (b ∷ bs) k = if ltb k 16 then b k else image bs (k - 16)

image_first : (b : ℕ → ℕ) (bs : List (ℕ → ℕ)) (k : ℕ) → k < 16 → image (b ∷ bs) k ≡ b k
unfolding image
image_first b bs k lt = rw (lt→ltb k 16 lt) refl

image_rest : (b : ℕ → ℕ) (bs : List (ℕ → ℕ)) (k : ℕ) → image (b ∷ bs) (16 + k) ≡ image bs k
unfolding image
image_rest b bs k = rw (le→ltb (16 + k) 16 (omega arith)) (ap (image bs) (omega arith))

module _ (libc : Libc) (junk : Junk) (pairs : ReadsPairs libc) (stops : Stops junk.fourbyte) where
  pub load_file-Loaded :
      {ls bs : List (ℕ → ℕ)} (s : Loader)
      → AreLines ls bs
      → Room (16 * length bs) s
      → (t : Loader) × (load_file libc junk ls s ≡ loaded t)
        × Loaded (16 * length bs) (image bs) s t
  unfolding load_file
  load_file-Loaded s no_line room = (s, refl, Loaded-zero s)
  load_file-Loaded s (more_lines {line} {bytes} {ls} {bs} d rest) room =
      let size : 16 + 16 * length bs ≡ 16 * suc (length bs) = omega arith in
      let all = subst (λ i. Room i s) (sym size) room in
      let (t, e, h) =
        load_line-Loaded libc junk pairs stops line bytes d s
          (Room-less 16 (16 * length bs) s all) in
      let (u, f, k) = load_file-Loaded t rest (Room-rest 16 (16 * length bs) h all) in
      (
        u,
        rw e f,
        subst (λ n. Loaded n (image (bytes ∷ bs)) s u) size
            (Loaded-append 16 (16 * length bs) h k (image_first bytes bs)
              (λ j lt. image_rest bytes bs j)),
      )
