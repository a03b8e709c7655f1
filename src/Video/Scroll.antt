-- ===== src/Video/Scroll.antt =====
-- video.c: what the copying loops of `vga_scroll` and `vga_clear` leave on the screen.
use rtbench.Common.{ℕ, zero, suc, ◌+◌, ◌-◌, ◌*◌, ◌≡◌, ◌≢◌, arith, ltb, leb, ◌&&◌, if◌then◌else◌}
use rtbench.Memory.{Mem, store}
use rtbench.Video.{
  Vga, scroll_up, fill, vga_scroll, vga_clear, vga_movecursor, clear_blank, scroll_blank,
  cursor_outs,
}

pub scroll_up_lem :
    (video : Mem) (i n a : ℕ)
    → scroll_up video i n a ≡ (if leb i a && ltb a (i + n) then video (a + 80) else video a)
unfolding scroll_up
scroll_up_lem video i zero a = ground arith
scroll_up_lem video i (suc n) a =
    ground (arith, scroll_up_lem (store video i (video (i + 80))) (i + 1) n a)

pub fill_lem :
    (video : Mem) (blank i n a : ℕ)
    → fill video blank i n a ≡ (if leb i a && ltb a (i + n) then blank else video a)
unfolding fill
fill_lem video blank i zero a = ground arith
fill_lem video blank i (suc n) a = ground (arith, fill_lem (store video i blank) blank (i + 1) n a)

-- `vga_scroll` of the first `n` rows moves each of them up by one row, makes the last of them blank
-- (a space, white on black) and leaves the rows below, the position and the ports as they were.
pub vga_scroll_lem :
    (vga : Vga) (n a : ℕ)
    → n ≢ 0
    → ((vga_scroll vga n).video a ≡ (
        if ltb a ((n - 1) * 80)
        then vga.video (a + 80)
        else if ltb a (n * 80)
        then 0x0F20
        else vga.video a))
      × ((vga_scroll vga n).row ≡ vga.row)
      × ((vga_scroll vga n).col ≡ vga.col)
      × ((vga_scroll vga n).outs ≡ vga.outs)
unfolding vga_scroll
vga_scroll_lem vga n a ne = ground (
  arith,
  scroll_up_lem vga.video 0 ((n - 1) * 80) a,
  fill_lem (scroll_up vga.video 0 ((n - 1) * 80)) scroll_blank ((n - 1) * 80) 80 a,
)

-- `vga_clear` puts the cell 0x002F, a slash in black on black, in each of the 2000 cells, and the
-- position and the cursor at the first cell.
pub vga_clear_lem :
    (vga : Vga) (a : ℕ)
    → ((vga_clear vga).video a ≡ (if ltb a 2000 then 0x002F else vga.video a))
      × ((vga_clear vga).row ≡ 0)
      × ((vga_clear vga).col ≡ 0)
      × ((vga_clear vga).outs ≡ cursor_outs 0 vga.outs)
unfolding vga_clear vga_movecursor
vga_clear_lem vga a = ground (arith, fill_lem vga.video clear_blank 0 2000 a)
