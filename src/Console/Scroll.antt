-- ===== src/Console/Scroll.antt =====
-- The consoles scroll by a row.
use rf.Prelude.{ℕ, ◌+◌, ◌-◌, ◌*◌, ◌<◌, ◌≡◌, refl, false, arith, ◌==◌, leb, ltb, ◌&&◌, if◌then◌else◌}
use rf.Kernel.Run.{Returns}
use rf.Console.{rbo, cell, fill}
use rf.Console.Cells.{copy_cells-shift, fill-copy_cells, last_row}
use rf.Console.Text.{Console, blank_line, move_up, vb_scroll_up}
use rf.Console.Dbg.{Dbg, get_screen_loc, dbg_blank_line, dbg_scroll_up}

-- The cells after VBScrollUp: each row is the next one, the last one is blank, and no other cell changes.
abbrev pub scrolled : Console → ℕ → ℕ
scrolled s a =
    if ltb a (s.cols * (s.rows - 1))
    then s.screen (a + s.cols)
    else if ltb a (s.rows * s.cols)
    then rbo (cell s.attr 0x20)
    else s.screen a

-- The cells after DBGScrollUp: the last row of the core 0 is blank, each row of the core is the next one, the
-- last one that of the next core, and no other cell changes.
abbrev pub dbg_scrolled : Dbg → ℕ → ℕ
dbg_scrolled s a =
    if leb 1984 a && ltb a 2048
    then rbo (cell s.attr 0x20)
    else if leb (get_screen_loc s) a && ltb a (get_screen_loc s + 2048)
    then s.screen (a + 64)
    else s.screen a

-- VBScrollUp of a screen with rows: each row is the next one then, the last one is blank, and no other cell
-- and no other variable changes. DBGScrollUp: each row of the core's screen is the next one then, its last
-- row is the first one of the next core, but for the last row of the core 0, which is blank; no other cell
-- and no other variable changes.
pub scroll_up-scrolled :
    (s : Console) (d : Dbg)
    → 0 < s.rows
    → Returns
        (λ _ c. ((a : ℕ) → c.screen a ≡ scrolled s a) × (c ≡ record s { screen = c.screen }))
        (vb_scroll_up s)
      × ((a : ℕ) → (dbg_scroll_up d).screen a ≡ dbg_scrolled d a)
      × (dbg_scroll_up d ≡ record d { screen = (dbg_scroll_up d).screen })
unfolding vb_scroll_up blank_line move_up dbg_scroll_up dbg_blank_line fill
scroll_up-scrolled s d p =
    let some_rows : (s.rows == 0) ≡ false = ground arith in
    let p0 = get_screen_loc d in
    (
      rw some_rows (
        λ a.
            fill-copy_cells (s.cols * (s.rows - 1)) s.cols (s.rows * s.cols)
              (rbo (cell s.attr 0x20)) s.screen a (last_row s.rows s.cols p),
        refl,
      ),
      λ a. rw (copy_cells-shift 2048 p0 64 d.screen a) refl,
      refl,
    )
