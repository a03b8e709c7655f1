-- ===== src/Video/Tests.antt =====
-- A screen, printed on.
use rtbench.Common.{ℕ, ◌+◌, ◌≡◌, refl, arith, [], ltb, ◌==◌, if◌then◌else◌}
use rtbench.Video.{Vga, vga_scroll, vga_putchar, vga_update_pos, next_column, scroll_up, fill}
use rtbench.Video.Position.{IsOnScreen, offset, vga_putchar_lem}

-- Cell `a` shows the number `a`; the position is one before the end of the screen.
abbrev screen : Vga
screen = record { row = 24; col = 78; attr = 15; video = λ a. a; outs = [] }

-- The last cell.
abbrev corner : Vga
corner = record screen { col = 79 }

-- The last cell of row 3.
abbrev edge : Vga
edge = record { row = 3; col = 79; attr = 15; video = λ a. a; outs = [] }

putchar_runs :
    ((vga_putchar edge b'A').video 319 ≡ 0x0F41)
    × ((vga_putchar edge b'A').row ≡ 4)
    × ((vga_putchar corner b'A').video 1919 ≡ 0x0F41)
    × ((vga_putchar corner b'A').video 1920 ≡ 0x0F20)
    × ((vga_putchar corner b'A').video 0 ≡ 80)
unfolding vga_putchar vga_update_pos next_column vga_scroll scroll_up fill
putchar_runs = (refl, refl, refl, refl, refl)

vga_putchar_lem_example :
    let v = vga_putchar corner b'A' in
    IsOnScreen v
    × (offset v ≡ 1920)
    × (v.outs ≡ [])
    × ((a : ℕ)
        → v.video a ≡ (
            if a == 1919
            then 0x0F41
            else if ltb a 1920
            then a + 80
            else if ltb a 2000
            then 0x0F20
            else a))
vga_putchar_lem_example =
    vga_putchar_lem {vga = corner} b'A' (omega arith) (omega arith) (omega arith) (omega arith)
      (omega arith)
