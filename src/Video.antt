-- ===== src/Video.antt =====
-- tools/src/baremetal/smallos/src_c/video.c and include/video.h: the text console of a standalone
-- boot. The screen is a memory of 16-bit cells; `outs` is what went out to the ports, oldest first.
pub mod Scroll
pub mod Position
pub mod Print
mod Tests
use rtbench.Common.{
  ℕ, zero, suc, ◌+◌, ◌-◌, ◌*◌, ◌/◌, ◌%◌, ◌^◌, Bool, ◌&&◌, ◌||◌, List, [], ◌∷◌, ◌++◌, bit_or,
  bit_and, ltb, ◌==◌, if◌then◌else◌,
}
use rtbench.Common.Int.{ℤ, pos, negsuc}
use rtbench.Memory.{Mem, store}

-- `struct vga_console`. No operation leaves `row` or `col` negative.
pub record Vga : Type 0 where
  pub row : ℕ
  pub col : ℕ
  pub attr : ℕ
  pub video : Mem
  pub outs : List (ℕ × ℕ)

abbrev pub vga_cols : ℕ
vga_cols = 80

abbrev pub vga_rows : ℕ
vga_rows = 25

abbrev pub vga_attribute : ℕ
vga_attribute = 0x0F

abbrev pub video_addr_reg : ℕ
video_addr_reg = 0x3D4

abbrev pub video_data_reg : ℕ
video_data_reg = 0x3D5

-- `outb`, whose value is a byte.
abbrev pub outb : ℕ → ℕ → List (ℕ × ℕ) → List (ℕ × ℕ)
outb port val outs = outs ++ ((port, val % 256) ∷ [])

-- VALID_ROW and VALID_COL, with the reset to 0.
abbrev pub valid_or_zero : ℕ → ℤ → ℕ
valid_or_zero n (pos x) = if ltb x n then x else 0
valid_or_zero n (negsuc x) = 0

abbrev pub cursor_outs : ℕ → List (ℕ × ℕ) → List (ℕ × ℕ)
cursor_outs cur_loc outs = outb video_data_reg (bit_and cur_loc 0x00FF) (
    outb video_addr_reg 0x0F
      (outb video_data_reg (cur_loc / 2 ^ 8) (outb video_addr_reg 0x0E outs)))

unfoldable pub vga_movecursor : Vga → ℤ → ℤ → Vga
vga_movecursor vga row col =
    let r = valid_or_zero vga_rows row in
    let c = valid_or_zero vga_cols col in
    record vga { row = r; col = c; outs = cursor_outs (r * vga_cols + c) vga.outs }

-- `for (indx = i; indx < i + n; indx++) vga->video[indx] = vga->video[indx+80];`
unfoldable pub scroll_up : Mem → ℕ → ℕ → Mem
scroll_up video indx zero = video
scroll_up video indx (suc n) = scroll_up (store video indx (video (indx + 80))) (indx + 1) n

-- `for (indx = i; indx < i + n; indx++) vga->video[indx] = blank;`
unfoldable pub fill : Mem → ℕ → ℕ → ℕ → Mem
fill video blank indx zero = video
fill video blank indx (suc n) = fill (store video indx blank) blank (indx + 1) n

-- `0x20 | attrB << 8`, with `attrB = (CLR_BLACK << 4) | (CLR_WHITE & 0x0F)`.
abbrev pub scroll_blank : ℕ
scroll_blank = bit_or 0x20 (bit_or (0 * 2 ^ 4) (bit_and 15 0x0F) * 2 ^ 8)

unfoldable pub vga_scroll : Vga → ℕ → Vga
vga_scroll vga scroll_at = if scroll_at == 0 then vga else record vga {
  video =
      fill (scroll_up vga.video 0 ((scroll_at - 1) * 80)) scroll_blank ((scroll_at - 1) * 80) 80;
}

-- `vga_update_pos`: after a newline, and after a character.
unfoldable pub next_line : Vga → Vga
next_line vga =
    if vga.row == 24
    then (let s = vga_scroll (record vga { col = 0 }) 25 in
        vga_movecursor s (pos s.row) (pos s.col))
    else vga_movecursor (record vga { col = 0; row = vga.row + 1 }) (pos (vga.row + 1)) (pos 0)

unfoldable pub next_column : Vga → Vga
next_column vga =
    if vga.row == 24 && vga.col == 79
    then record (vga_scroll vga 25) { col = 0 }
    else if vga.col == 79
    then record vga { col = 0; row = vga.row + 1 }
    else vga_movecursor (record vga { col = vga.col + 1 }) (pos vga.row) (pos (vga.col + 1))

unfoldable pub vga_update_pos : Vga → ℕ → Vga
vga_update_pos vga nl_flg = if nl_flg == 0 then next_column vga else next_line vga

unfoldable pub vga_putchar : Vga → ℕ → Vga
vga_putchar vga ch =
    if ch == 10 || ch == 13
    then vga_update_pos vga 1
    else vga_update_pos
        (record vga {
          video =
              store vga.video (vga.row * vga_cols + vga.col)
                (bit_or (vga.attr * 2 ^ 8 % 2 ^ 16) ch);
        })
        0

-- `0x20 | attrB`: here the attribute is not shifted.
abbrev pub clear_blank : ℕ
clear_blank = bit_or 0x20 (bit_or (0 * 2 ^ 4) (bit_and 15 0x0F))

unfoldable pub vga_clear : Vga → Vga
vga_clear vga =
    vga_movecursor (record vga { video = fill vga.video clear_blank 0 (80 * 25); row = 0; col = 0 })
      (pos 0) (pos 0)

-- `vga_init`; the cells at VIDEO_MEM are as the firmware left them.
unfoldable pub vga_init : Vga → Vga
vga_init vga = record vga {
  row = 0;
  col = 0;
  attr = vga_attribute;
  outs =
      outb video_data_reg 0x1F
        (outb video_addr_reg 0x0B (outb video_data_reg 0x20 (outb video_addr_reg 0x0A vga.outs)));
}

unfoldable pub vga_getxpos : Vga → ℕ
vga_getxpos vga = vga.row

unfoldable pub vga_getypos : Vga → ℕ
vga_getypos vga = vga.col

unfoldable pub vga_getnumrows : Vga → ℕ
vga_getnumrows vga = vga_rows

unfoldable pub vga_getnumcols : Vga → ℕ
vga_getnumcols vga = vga_cols

-- The operations of a console: the function pointers of `struct lwConsole`.
pub record LwConsole : Type 0 where
  pub clear : Vga → Vga
  pub putchar : Vga → ℕ → Vga
  pub scroll : Vga → ℕ → Vga
  pub move_cursor : Vga → ℤ → ℤ → Vga
  pub get_xpos : Vga → ℕ
  pub get_ypos : Vga → ℕ
  pub get_numrows : Vga → ℕ
  pub get_numcols : Vga → ℕ
  pub init : Vga → Vga

abbrev pub init_vga_cons_struct : LwConsole
init_vga_cons_struct = record {
  clear = vga_clear;
  putchar = vga_putchar;
  scroll = vga_scroll;
  move_cursor = vga_movecursor;
  get_xpos = vga_getxpos;
  get_ypos = vga_getypos;
  get_numrows = vga_getnumrows;
  get_numcols = vga_getnumcols;
  init = vga_init;
}

-- `printStr` of utilities.c on this console, for the bytes of a string.
unfoldable pub print_str : Vga → List ℕ → Vga
print_str vga [] = vga
print_str vga (c ∷ cs) = print_str (vga_putchar vga c) cs
