-- ===== src/Console/Dbg.antt =====
-- software/Femtiki/source/kernel/dbg_console.c: the console of a core, of 64 by 32 cells.
pub mod Bounds
use rf.Prelude.{ℕ, ◌+◌, ◌-◌, ◌*◌, ◌/◌, ◌^◌, Bool, List, [], ◌∷◌, ◌==◌, ltb, if◌then◌else◌, update}
use rf.Console.{rbo, cell, fill, copy_cells}
use rf.Msg.Pool.{u32}

-- DBGCursorRow and DBGCursorCol (signed characters), DBGAttr, the number of the core, the cells at DBGScreen
-- and the registers of the text controller.
pub record Dbg : Type 0 where
  pub row : ℕ
  pub col : ℕ
  pub attr : ℕ
  pub core : ℕ
  pub screen : ℕ → ℕ
  pub video_reg : ℕ → ℕ

abbrev pub dbg_cols : ℕ
dbg_cols = 64

abbrev pub dbg_rows : ℕ
dbg_rows = 32

-- DBGGetScreenLoc: the index of the first cell of the core.
unfoldable pub get_screen_loc : Dbg → ℕ
get_screen_loc s = s.core * dbg_cols * dbg_rows

-- DBGClearScreen
unfoldable pub dbg_clear_screen : Dbg → Dbg
dbg_clear_screen s = record s {
  screen = fill (get_screen_loc s) (dbg_rows * dbg_cols) (rbo (cell s.attr 0x20)) s.screen;
}

-- DBGSetVideoReg and DBGGetVideoReg
unfoldable pub dbg_set_video_reg : (regno val : ℕ) → Dbg → Dbg
dbg_set_video_reg regno val s = record s { video_reg = update s.video_reg regno (rbo val) }

unfoldable pub dbg_get_video_reg : (regno : ℕ) → Dbg → ℕ
dbg_get_video_reg regno s = rbo (s.video_reg regno)

-- DBGUpdateCursorPos, through DBGSetCursorPos. The position is counted from the address of the screen.
unfoldable pub dbg_update_cursor_pos : Dbg → Dbg
dbg_update_cursor_pos s =
    dbg_set_video_reg 11 (u32 (0xfd00_0000 + 4 * get_screen_loc s + s.row * dbg_cols + s.col)) s

-- DBGHomeCursor
unfoldable pub dbg_home_cursor : Dbg → Dbg
dbg_home_cursor s = dbg_update_cursor_pos (record s { row = 0; col = 0 })

-- DBGBlankLine, on the screen of the core 0.
unfoldable pub dbg_blank_line : (row : ℕ) → Dbg → Dbg
dbg_blank_line row s = record s {
  screen = fill (row * dbg_cols) dbg_cols (rbo (cell s.attr 0x20)) s.screen;
}

-- DBGScrollUp
unfoldable pub dbg_scroll_up : Dbg → Dbg
dbg_scroll_up s =
    let p = get_screen_loc s in
    dbg_blank_line (dbg_rows - 1)
      (record s { screen = copy_cells (dbg_rows * dbg_cols) p (p + dbg_cols) s.screen })

-- DBGIncrementCursorRow
unfoldable pub dbg_increment_cursor_row : Dbg → Dbg
dbg_increment_cursor_row s =
    if ltb s.row (dbg_rows - 1)
    then dbg_update_cursor_pos (record s { row = s.row + 1 })
    else dbg_scroll_up s

-- DBGIncrementCursorPos
unfoldable pub dbg_increment_cursor_pos : Dbg → Dbg
dbg_increment_cursor_pos s =
    if ltb (s.col + 1) dbg_cols
    then dbg_update_cursor_pos (record s { col = s.col + 1 })
    else dbg_increment_cursor_row (record s { col = 0 })

-- The cells behind the cursor move one to the left, up to the end of the row.
unfoldable pub dbg_delete_cell : Dbg → Dbg
dbg_delete_cell s =
    let p = get_screen_loc s + s.row * dbg_cols + s.col in
    let n = dbg_cols - 1 - s.col in
    record s { screen = update (copy_cells n p (p + 1) s.screen) (p + n) (rbo (cell s.attr 0x20)) }

-- The default of the switch, through out32rbo.
unfoldable pub dbg_put_char : (ch : ℕ) → Dbg → Dbg
dbg_put_char ch s =
    let p = get_screen_loc s + (s.row * dbg_cols + s.col) in
    dbg_increment_cursor_pos (record s { screen = update s.screen p (rbo (cell s.attr ch)) })

-- DBGDisplayChar, for a cursor inside the screen. Its calls of itself are for spaces.
unfoldable pub dbg_display_char : (ch : ℕ) → Dbg → Dbg
dbg_display_char ch s =
    if ch == 0x0d
    then dbg_update_cursor_pos (record s { col = 0 })
    else if ch == 0x0a
    then dbg_increment_cursor_row s
    else if ch == 0x91
    then (if ltb s.col (dbg_cols - 1)
        then dbg_update_cursor_pos (record s { col = s.col + 1 })
        else s)
    else if ch == 0x90
    then (if ltb 0 s.row then dbg_update_cursor_pos (record s { row = s.row - 1 }) else s)
    else if ch == 0x93
    then (if ltb 0 s.col then dbg_update_cursor_pos (record s { col = s.col - 1 }) else s)
    else if ch == 0x92
    then (if ltb s.row (dbg_rows - 1)
        then dbg_update_cursor_pos (record s { row = s.row + 1 })
        else s)
    else if ch == 0x94
    then dbg_update_cursor_pos
        (if s.col == 0 then record s { row = 0; col = 0 } else record s { col = 0 })
    else if ch == 0x99
    then dbg_delete_cell s
    else if ch == 0x08
    then (if ltb 0 s.col then dbg_delete_cell (record s { col = s.col - 1 }) else s)
    else if ch == 0x0c
    then dbg_home_cursor (dbg_clear_screen s)
    else if ch == 0x09
    then dbg_put_char 0x20 (dbg_put_char 0x20 (dbg_put_char 0x20 (dbg_put_char 0x20 s)))
    else dbg_put_char ch s

-- DBGCRLF, DBGDisplayString and DBGDisplayStringCRLF, and the same for strings of unsigned characters.
unfoldable pub dbg_crlf : Dbg → Dbg
dbg_crlf s = dbg_display_char 0x0a (dbg_display_char 0x0d s)

unfoldable pub dbg_display_string : List ℕ → Dbg → Dbg
dbg_display_string [] s = s
dbg_display_string (ch ∷ chs) s = dbg_display_string chs (dbg_display_char ch s)

unfoldable pub dbg_display_string_crlf : List ℕ → Dbg → Dbg
dbg_display_string_crlf chs s = dbg_crlf (dbg_display_string chs s)

-- DBGHideCursor: the low half of the register 8.
unfoldable pub dbg_hide_cursor : (hide : Bool) → Dbg → Dbg
dbg_hide_cursor hide s =
    let high = dbg_get_video_reg 8 s / 2 ^ 16 * 2 ^ 16 in
    dbg_set_video_reg 8 (if hide then high + 0xffff else high + 0xe7) s
