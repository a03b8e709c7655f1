-- ===== src/Video/Position.antt =====
-- video.c: the position, and how each character moves it.
use rtbench.Common.{
  ℕ, ◌+◌, ◌*◌, ◌/◌, ◌%◌, ◌<◌, ◌≡◌, ◌≢◌, ◌⊎◌, refl, ap, ◌∙◌, arith, List, [], ◌∷◌, ◌++◌, bit_or,
  bit_and, bit_and_mask, bit_or-eq_add, ltb, ◌==◌, if◌then◌else◌, ◌^◌,
}
use mathlib.Core.List.{append_assoc}
use rtbench.Common.Int.{ℤ, pos, negsuc}
use rtbench.Memory.{store}
use rtbench.Video.{
  Vga, vga_cols, vga_rows, valid_or_zero, cursor_outs, vga_movecursor, next_line, next_column,
  vga_update_pos, vga_putchar,
}
use rtbench.Video.Scroll.{vga_scroll_lem}

pub record IsOnScreen (vga : Vga) : Type 0 where
  pub row_in : vga.row < vga_rows
  pub col_in : vga.col < vga_cols

-- The index of the cell at the position.
abbrev pub offset : Vga → ℕ
offset vga = vga.row * vga_cols + vga.col

valid_or_zero-lt : (n : ℕ) (x : ℤ) → 0 < n → valid_or_zero n x < n
valid_or_zero-lt n (pos x) h = ground arith
valid_or_zero-lt n (negsuc x) h = h

cursor_outs_lem :
    (loc : ℕ) (outs : List (ℕ × ℕ))
    → cursor_outs loc outs
      ≡ outs
        ++ ((0x3D4, 14)
            ∷ (0x3D5, loc / 2 ^ 8 % 256)
            ∷ (0x3D4, 15)
            ∷ (0x3D5, bit_and loc 0xFF % 256)
            ∷ [])
cursor_outs_lem loc outs = simp append_assoc

-- `vga_movecursor` takes a row or column that is not on the screen as 0, and sends the two bytes
-- of the position's index, the high one first, to the cursor registers 14 and 15.
pub vga_movecursor_lem :
    (vga : Vga) (row col : ℤ)
    → let v = vga_movecursor vga row col in
      IsOnScreen v
      × (v.row ≡ valid_or_zero vga_rows row)
      × (v.col ≡ valid_or_zero vga_cols col)
      × ((hi : ℕ) × (lo : ℕ) × (v.outs
            ≡ vga.outs ++ ((0x3D4, 14) ∷ (0x3D5, hi) ∷ (0x3D4, 15) ∷ (0x3D5, lo) ∷ []))
          × (hi < 256)
          × (lo < 256)
          × (hi * 256 + lo ≡ offset v))
unfolding vga_movecursor
vga_movecursor_lem vga row col =
    let r : ℕ = valid_or_zero vga_rows row in
    let c : ℕ = valid_or_zero vga_cols col in
    let r_in : r < vga_rows = valid_or_zero-lt vga_rows row (omega arith) in
    let c_in : c < vga_cols = valid_or_zero-lt vga_cols col (omega arith) in
    let loc : ℕ = r * vga_cols + c in
    let low : bit_and loc 0xFF ≡ loc % 256 = bit_and_mask 8 loc in
    (
      record { row_in = r_in; col_in = c_in },
      refl,
      refl,
      (
        loc / 2 ^ 8 % 256,
        bit_and loc 0xFF % 256,
        cursor_outs_lem loc vga.outs,
        omega arith,
        omega arith,
        omega arith,
      ),
    )

-- What `vga_putchar` does with a character that is no newline: it writes the cell at the position,
-- with the attribute, and moves to the next cell. At column 79 the hardware cursor is not moved
-- along. In the last cell the screen scrolls up by one row and the position is the start of the
-- last row.
pub vga_putchar_lem :
    {vga : Vga} (ch : ℕ)
    → IsOnScreen vga
    → ch ≢ 10
    → ch ≢ 13
    → ch < 256
    → vga.attr < 256
    → let v = vga_putchar vga ch in
      let cell = vga.attr * 256 + ch in
      IsOnScreen v
      × (offset v ≡ (if offset vga == 1999 then 1920 else offset vga + 1))
      × (v.outs ≡ (if vga.col == 79 then vga.outs else cursor_outs (offset vga + 1) vga.outs))
      × ((a : ℕ)
          → v.video a ≡ (
              if offset vga == 1999
              then (if a == 1919
                  then cell
                  else if ltb a 1920
                  then vga.video (a + 80)
                  else if ltb a 2000
                  then 0x0F20
                  else vga.video a)
              else if a == offset vga
              then cell
              else vga.video a))
unfolding vga_putchar vga_update_pos next_column vga_movecursor
vga_putchar_lem {vga} ch on n r byte attr =
    let drawn : Vga = record vga {
      video = store vga.video (offset vga) (bit_or (vga.attr * 2 ^ 8 % 2 ^ 16) ch);
    } in
    let cell : bit_or (vga.attr * 2 ^ 8 % 2 ^ 16) ch ≡ vga.attr * 256 + ch =
      ap (λ t. bit_or t ch) (omega arith) ∙ bit_or-eq_add 8 vga.attr ch byte in
    (
      ground (arith, vga_scroll_lem drawn 25 0),
      ground (arith, vga_scroll_lem drawn 25 0),
      ground (arith, vga_scroll_lem drawn 25 0),
      λ a. ground (arith, vga_scroll_lem drawn 25 a),
    )

-- A newline or carriage return goes to the start of the next row; in the last row the screen scrolls
-- up instead and the position is its start. The hardware cursor follows.
pub vga_putchar_newline :
    {vga : Vga} (ch : ℕ)
    → IsOnScreen vga
    → (ch ≡ 10) ⊎ (ch ≡ 13)
    → let v = vga_putchar vga ch in
      IsOnScreen v
      × (v.row ≡ (if vga.row == 24 then 24 else vga.row + 1))
      × (v.col ≡ 0)
      × (v.outs ≡ cursor_outs (offset v) vga.outs)
      × ((a : ℕ)
          → v.video a ≡ (
              if vga.row == 24
              then (if ltb a 1920
                  then vga.video (a + 80)
                  else if ltb a 2000
                  then 0x0F20
                  else vga.video a)
              else vga.video a))
unfolding vga_putchar vga_update_pos next_line vga_movecursor
vga_putchar_newline {vga} ch on nl =
    let home : Vga = record vga { col = 0 } in
    (
      ground (arith, vga_scroll_lem home 25 0),
      ground (arith, vga_scroll_lem home 25 0),
      ground (arith, vga_scroll_lem home 25 0),
      ground (arith, vga_scroll_lem home 25 0),
      λ a. ground (arith, vga_scroll_lem home 25 a),
    )
