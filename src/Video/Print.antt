-- ===== src/Video/Print.antt =====
-- video.c: a whole text on the screen.
use rtbench.Common.{
  ℕ, ◌+◌, ◌*◌, ◌≤◌, ◌<◌, ◌≡◌, ◌≢◌, ◌⊎◌, inl, inr, refl, ◌∙◌, arith, List, [], ◌∷◌, length, subst,
}
use rtbench.Memory.{Mem}
use rtbench.Video.{
  Vga, vga_putchar, vga_update_pos, next_column, next_line, vga_movecursor, vga_scroll, print_str,
}
use rtbench.Video.Position.{IsOnScreen, offset, vga_putchar_lem}

-- Bytes that are neither newline nor carriage return.
abbrev pub Plain : List ℕ → Type 0
Plain [] = Unit
Plain (c ∷ cs) = (c ≢ 10) × (c ≢ 13) × (c < 256) × Plain cs

-- The cells from `p` show the characters in the colours `attr`.
abbrev pub Shows : Mem → ℕ → ℕ → List ℕ → Type 0
Shows video attr p [] = Unit
Shows video attr p (c ∷ cs) = (video p ≡ attr * 256 + c) × Shows video attr (p + 1) cs

attr-putchar : (vga : Vga) (ch : ℕ) → (vga_putchar vga ch).attr ≡ vga.attr
unfolding vga_putchar vga_update_pos next_column next_line vga_movecursor vga_scroll
attr-putchar vga ch = ground arith

-- Plain text that ends before the last cell is shown from the position on, in the console's colours;
-- the position moves by its length and no other cell changes.
pub print_str_lem :
    (cs : List ℕ) {vga : Vga}
    → IsOnScreen vga
    → vga.attr < 256
    → Plain cs
    → offset vga + length cs < 2000
    → let v = print_str vga cs in
      IsOnScreen v
      × (offset v ≡ offset vga + length cs)
      × Shows v.video vga.attr (offset vga) cs
      × ((a : ℕ) → (a < offset vga) ⊎ (offset vga + length cs ≤ a) → v.video a ≡ vga.video a)
unfolding print_str
print_str_lem [] on attr plain fits = (on, omega arith, tt, λ a h. refl)
print_str_lem (c ∷ cs) {vga} on attr plain fits =
    let v : Vga = vga_putchar vga c in
    let (on', moved, outs, drawn) = vga_putchar_lem c on plain.0 plain.1 plain.2 attr in
    let next : offset v ≡ offset vga + 1 = ground arith in
    let (on'', moved', shown, kept) =
      print_str_lem cs {vga = v} on' (rw (attr-putchar vga c) attr) plain.3 (omega arith) in
    let video : Mem = (print_str v cs).video in
    (
      on'',
      omega (arith, next, moved'),
      (
        kept (offset vga) (inl (omega arith)) ∙ ground (arith, drawn (offset vga)),
        subst (λ p. Shows video vga.attr p cs) next
            (subst (λ t. Shows video t (offset v) cs) (attr-putchar vga c) shown),
      ),
      λ a h.
          kept a (elim h [ inl l ↦ inl (omega arith) | inr l ↦ inr (omega arith) ])
          ∙ ground (arith, drawn a),
    )
