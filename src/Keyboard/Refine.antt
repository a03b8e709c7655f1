-- ===== src/Keyboard/Refine.antt =====
-- The ring of keyboard.c against the queue of `Queue`, one operation at a time.
use mathlib.Core.Option
use rtbench.Common.{
  ℕ, zero, suc, ◌+◌, ◌-◌, ◌%◌, ◌^◌, ◌≤◌, ◌<◌, ◌≡◌, ◌≢◌, refl, sym, ap, ap₂, ◌∙◌, arith, true, false,
  ◌||◌, Option, some, List, [], ◌∷◌, ◌++◌, bit_and, bit_and_mask, leb, ltb, ◌==◌, if◌then◌else◌,
  every_below, every_below_lem, ==→eq, length, Bool-cases, inl, inr, subst, ==→ne, ℕ_discrete,
}
use rtbench.Memory.{Mem, store}
use rtbench.Keyboard.{
  Keyboard, keyboard_buffer_sz, inc_keyindx, put, kbc_isr, kbd_switch, kbd_getchar, take_code,
  always_stored, escape_code,
}
use rtbench.Keyboard.Queue.{Typed, classify, kept, arrive, key, read_codes, read}

-- The `n` codes from index `h` on, round the ring.
abbrev pub window : Mem → ℕ → ℕ → List ℕ
window buf h zero = []
window buf h (suc n) = buf (h % keyboard_buffer_sz) ∷ window buf (h + 1) n

pub record IsValid (k : Keyboard) : Type 0 where
  pub in_range : k.key_indx < keyboard_buffer_sz
  pub out_range : k.key_buffer_out_indx < keyboard_buffer_sz
  pub fits : k.num_chars_in_buffer ≤ keyboard_buffer_sz
  pub agree : k.key_indx ≡ (k.key_buffer_out_indx + k.num_chars_in_buffer) % keyboard_buffer_sz

abbrev pub view : Keyboard → Typed
view k = record {
  codes = window k.key_board_buffer k.key_buffer_out_indx k.num_chars_in_buffer;
  escape = k.escape_pressed;
  shift = k.shift_pressed;
  caps = k.caps_lock_pressed;
  num = k.num_lock_pressed;
}

pub inc_keyindx_lem : (i : ℕ) → inc_keyindx i ≡ (i + 1) % keyboard_buffer_sz
unfolding inc_keyindx
inc_keyindx_lem i = bit_and_mask 12 (i + 1)

window_cong :
    (buf : Mem) (h h' n : ℕ)
    → h % keyboard_buffer_sz ≡ h' % keyboard_buffer_sz
    → window buf h n ≡ window buf h' n
window_cong buf h h' zero e = refl
window_cong buf h h' (suc n) e =
    ground (arith, ap buf e, window_cong buf (h + 1) (h' + 1) n (omega arith))

window-append :
    (buf : Mem) (h n : ℕ)
    → window buf h (suc n) ≡ window buf h n ++ (buf ((h + n) % keyboard_buffer_sz) ∷ [])
window-append buf h zero = ap (λ i. buf (i % keyboard_buffer_sz) ∷ []) (omega arith)
window-append buf h (suc n) =
    ap (λ l. buf (h % keyboard_buffer_sz) ∷ l)
      (window-append buf (h + 1) n
        ∙ ap (λ i. window buf (h + 1) n ++ (buf (i % keyboard_buffer_sz) ∷ [])) (omega arith))

window-store :
    (buf : Mem) (h n i v : ℕ)
    → ((j : ℕ) → j < n → (h + j) % keyboard_buffer_sz ≢ i)
    → window (store buf i v) h n ≡ window buf h n
window-store buf h zero i v ne = refl
window-store buf h (suc n) i v ne =
    let away : h % keyboard_buffer_sz ≢ i = λ e. ne 0 (omega arith) (omega arith) in
    ground
      (arith, window-store buf (h + 1) n i v (λ j lt e. ne (suc j) (omega arith) (omega arith)))

-- No break code but those listed has its top bit clear.
break_table : every_below (λ c. if bit_and c 0x80 == 0 then ltb c 0x80 else leb 0x80 c) 256 ≡ true
unfolding every_below
break_table = refl

stored-eq-kept :
    (c : ℕ)
    → c < 256
    → c ≢ escape_code
    → (if c == 0 then false else always_stored c || (bit_and c 0x80 == 0)) ≡ kept c
unfolding kept
stored-eq-kept c h ne = ground (arith, every_below_lem _ 256 c h break_table)

module _ {k : Keyboard} (v : IsValid k) where
  put-codes :
      (c : ℕ)
      → k.num_chars_in_buffer < keyboard_buffer_sz
      → window (put k c).key_board_buffer k.key_buffer_out_indx (put k c).num_chars_in_buffer
        ≡ window k.key_board_buffer k.key_buffer_out_indx k.num_chars_in_buffer ++ (c ∷ [])
  put-codes c room =
      let buf : Mem = k.key_board_buffer in
      let buf' : Mem = store buf k.key_indx c in
      let out : ℕ = k.key_buffer_out_indx in
      let n : ℕ = k.num_chars_in_buffer in
      let count : (n + 1) % 2 ^ 32 ≡ suc n = omega (arith, v.fits) in
      let old : window buf' out n ≡ window buf out n =
        window-store buf out n k.key_indx c (λ j lt e. absurd (omega (arith, v.agree, v.fits))) in
      let new : buf' ((out + n) % keyboard_buffer_sz) ≡ c = ground (arith, v.agree) in
      ap (window buf' out) count ∙ window-append buf' out n ∙ ap₂ (λ l x. l ++ (x ∷ [])) old new

  put-IsValid : (c : ℕ) → k.num_chars_in_buffer < keyboard_buffer_sz → IsValid (put k c)
  put-IsValid c room = ground (arith, inc_keyindx_lem k.key_indx, v)

  take_code-IsValid : 0 < k.num_chars_in_buffer → IsValid (take_code k)
  take_code-IsValid pending = ground (arith, inc_keyindx_lem k.key_buffer_out_indx, v)

-- `kbcISR` keeps the ring valid while it is not full, and does to the pending codes and the
-- modifier state what `arrive` does.
pub kbc_isr-arrive :
    {k : Keyboard} (c : ℕ)
    → IsValid k
    → k.num_chars_in_buffer < keyboard_buffer_sz
    → c < 256
    → IsValid (kbc_isr k c) × (view (kbc_isr k c) ≡ arrive (view k) c)
unfolding kbc_isr arrive
kbc_isr-arrive {k} c v room byte = (
  ground (arith, stored-eq-kept c byte, inc_keyindx_lem k.key_indx),
  ground (arith, stored-eq-kept c byte, put-codes v c room),
)

abbrev pub view_result : ℕ × Keyboard → ℕ × Typed
view_result (c, k) = (c, view k)

-- The ring's codes, taken apart as the queue is.
view-take_code :
    {k : Keyboard}
    → IsValid k
    → k.num_chars_in_buffer ≢ 0
    → (view k).codes ≡ k.key_board_buffer k.key_buffer_out_indx ∷ (view (take_code k)).codes
view-take_code {k} v ne =
    let buf : Mem = k.key_board_buffer in
    let out : ℕ = k.key_buffer_out_indx in
    let n : ℕ = k.num_chars_in_buffer in
    let more : n ≡ suc (n - 1) = omega arith in
    let less : n - 1 ≡ (n + 2 ^ 32 - 1) % 2 ^ 32 = omega (arith, v.fits) in
    ap (window buf out) more
    ∙ ap₂ (λ i l. buf i ∷ l) (omega (arith, v.out_range))
        (window_cong buf (out + 1) (inc_keyindx out) (n - 1) (omega (arith, inc_keyindx_lem out))
          ∙ ap (window buf (inc_keyindx out)) less)

kbd_switch-IsValid : {k : Keyboard} (c : ℕ) → IsValid k → IsValid (kbd_switch k c).1
unfolding kbd_switch
kbd_switch-IsValid {k} c v = ground (arith, inc_keyindx_lem k.key_buffer_out_indx)

-- Every code but the prefix leaves the ring alone.
kbd_switch-key_ne :
    (k : Keyboard) (c : ℕ)
    → c ≢ escape_code
    → view_result (kbd_switch k c) ≡ key (classify c) (view k)
unfolding kbd_switch key classify
kbd_switch-key_ne k c ne = ground arith

kbd_switch-key_escape :
    {k : Keyboard}
    → IsValid k
    → view_result (kbd_switch k escape_code) ≡ key (classify escape_code) (view k)
unfolding kbd_switch key classify
kbd_switch-key_escape {k} v = elim (Bool-cases (k.num_chars_in_buffer == 0)) [
  | inl e ↦
      let none_left : (view k).codes ≡ [] =
        ap (window k.key_board_buffer k.key_buffer_out_indx) (==→eq _ _ e) in
      ground (arith, none_left)
  | inr e ↦ ground (arith, view-take_code v (==→ne _ _ e))
]

kbd_switch-key :
    {k : Keyboard} (c : ℕ) → IsValid k → view_result (kbd_switch k c) ≡ key (classify c) (view k)
kbd_switch-key {k} c v = elim (ℕ_discrete c escape_code) [
  | yes e ↦
      subst (λ x. view_result (kbd_switch k x) ≡ key (classify x) (view k)) (sym e)
        (kbd_switch-key_escape v)
  | no ne ↦ kbd_switch-key_ne k c ne
]

-- `kbd_getchar` waits exactly when no code is pending. Otherwise it returns the character and
-- leaves the pending codes and modifier state that `read` says, with the ring valid.
pub kbd_getchar-read :
    {k : Keyboard}
    → IsValid k
    → (Option.map view_result (kbd_getchar k) ≡ read (view k))
      × ((c : ℕ) (k' : Keyboard) → kbd_getchar k ≡ some (c, k') → IsValid k')
unfolding kbd_getchar read
kbd_getchar-read {k} v = elim (Bool-cases (k.num_chars_in_buffer == 0)) [
  | inl e ↦
      let none_left : (view k).codes ≡ [] =
        ap (window k.key_board_buffer k.key_buffer_out_indx) (==→eq _ _ e) in
      rw e (ap (λ cs. read_codes cs (view k)) (sym none_left), λ c k' q. cc)
  | inr e ↦
      let valid : IsValid (take_code k) = take_code-IsValid v (ground arith) in
      let c : ℕ = k.key_board_buffer k.key_buffer_out_indx in
      rw e (
        ap some (kbd_switch-key c valid)
            ∙ ap (λ cs. read_codes cs (view k)) (sym (view-take_code v (==→ne _ _ e))),
        λ d k' q.
            subst (λ (r : Option (ℕ × Keyboard)). IsValid (Option.get_or r (d, k')).1) q
              (kbd_switch-IsValid c valid),
      )
]

pub length-codes : (k : Keyboard) → length (view k).codes ≡ k.num_chars_in_buffer
length-codes k = go k.key_buffer_out_indx k.num_chars_in_buffer
  where
    go : (h n : ℕ) → length (window k.key_board_buffer h n) ≡ n
    go h zero = refl
    go h (suc n) = ap suc (go (h + 1) n)
