-- ===== src/Console/Text.antt =====
-- software/Femtiki/source/kernel/console.c: the console of the system's app, whose ACB is there.
pub mod Bounds
use rf.Prelude.{
  ℕ, zero, suc, ◌+◌, ◌-◌, ◌*◌, ◌/◌, ◌%◌, ◌^◌, Bool, true, false, List, [], ◌∷◌, ◌==◌, ltb, leb,
  if◌then◌else◌, update,
}
use rf.Kernel.Run.{ok, fault, M, ◌>>=◌, ◌>>◌}
use rf.Console.{rbo, bit_or, cell, fill, copy_cells}

-- VideoRows, VideoCols, CursorRow, CursorCol and NormAttr of the ACB, the number of the core, the cells at
-- pVidMem, the registers of the text controller, and the numbers that SetVideoReg complained of.
pub record Console : Type 0 where
  pub rows : ℕ
  pub cols : ℕ
  pub row : ℕ
  pub col : ℕ
  pub attr : ℕ
  pub core : ℕ
  pub screen : ℕ → ℕ
  pub video_reg : ℕ → ℕ
  pub refused : List ℕ

-- SetCurrAttr
unfoldable pub set_curr_attr : (attr : ℕ) → Console → Console
set_curr_attr attr s = record s { attr = attr / 2 ^ 16 % 2 ^ 16 * 2 ^ 16 }

-- SetVideoReg
unfoldable pub set_video_reg : (regno val : ℕ) → Console → Console
set_video_reg regno val s =
    if leb 5 regno
    then record s { refused = regno ∷ s.refused }
    else record s { video_reg = update s.video_reg regno (rbo val) }

-- The index of the cell under the cursor.
abbrev pub cursor_cell : Console → ℕ
cursor_cell s = s.row * s.cols + s.col + s.core * (s.rows * s.cols)

-- UpdateCursorPos
unfoldable pub update_cursor_pos : Console → Console
update_cursor_pos s = set_video_reg 11 (cursor_cell s) s

-- SetCursorPos, SetCursorCol, HomeCursor
unfoldable pub set_cursor_pos : (row col : ℕ) → Console → Console
set_cursor_pos row col s = update_cursor_pos (record s { row = row % 256; col = col % 256 })

unfoldable pub set_cursor_col : (col : ℕ) → Console → Console
set_cursor_col col s = update_cursor_pos (record s { col = col % 256 })

unfoldable pub home_cursor : Console → Console
home_cursor s = update_cursor_pos (record s { row = 0; col = 0 })

-- GetCursorPos
unfoldable pub get_cursor_pos : Console → ℕ
get_cursor_pos s = bit_or 32 s.col (s.row * 2 ^ 8)

-- ClearScreen
unfoldable pub clear_screen : Console → Console
clear_screen s = record s { screen = fill 0 (s.rows * s.cols) (rbo (cell s.attr 0x20)) s.screen }

-- BlankLine
unfoldable pub blank_line : (row : ℕ) → Console → Console
blank_line row s = record s {
  screen = fill (s.cols * row) s.cols (rbo (cell s.attr 0x20)) s.screen;
}

-- The loop of VBScrollUp.
unfoldable pub move_up : Console → Console
move_up s = record s { screen = copy_cells (s.cols * (s.rows - 1)) 0 s.cols s.screen }

-- VBScrollUp. Without rows the line to be blanked is the one before the screen.
unfoldable pub vb_scroll_up : M Console (Unit {0})
vb_scroll_up s = if s.rows == 0 then fault else ok tt (blank_line (s.rows - 1) (move_up s))

-- `j->CursorRow++`, and the same for the column, in an unsigned character.
abbrev pub next_row : Console → Console
next_row s = record s { row = (s.row + 1) % 256 }

abbrev pub next_col : Console → Console
next_col s = record s { col = (s.col + 1) % 256 }

abbrev pub prev_row : Console → Console
prev_row s = record s { row = (s.row + 255) % 256 }

abbrev pub prev_col : Console → Console
prev_col s = record s { col = (s.col + 255) % 256 }

-- IncrementCursorRow
unfoldable pub increment_cursor_row : M Console (Unit {0})
increment_cursor_row s =
    let c = next_row s in
    if ltb c.row c.rows
    then ok tt (update_cursor_pos c)
    else vb_scroll_up (update_cursor_pos (prev_row c))

-- IncrementCursorPos
unfoldable pub increment_cursor_pos : M Console (Unit {0})
increment_cursor_pos s =
    let c = next_col s in
    if ltb c.col c.cols
    then ok tt (update_cursor_pos c)
    else increment_cursor_row (record c { col = 0 })

-- CalcScreenLocation, for its effect; the result is `cursor_cell`.
unfoldable pub calc_screen_location : Console → Console
calc_screen_location s = set_video_reg 11 (cursor_cell s) s

-- The cells behind the cursor move one to the left, up to the end of the row.
unfoldable pub delete_cell : Console → Console
delete_cell s =
    let c = calc_screen_location s in
    let p = cursor_cell s in
    let n = s.cols - 1 - s.col in
    record c { screen = update (copy_cells n p (p + 1) c.screen) (p + n) (cell s.attr 0x20) }

-- The default of the switch.
unfoldable pub put_char : (ch : ℕ) → M Console (Unit {0})
put_char ch s =
    let c = calc_screen_location s in
    increment_cursor_pos (record c { screen = update c.screen (cursor_cell s) (cell s.attr ch) })

-- DisplayChar. Its calls of itself are for spaces, which the default handles. `ch` is the character as an
-- unsigned number.
unfoldable pub display_char : (ch : ℕ) → M Console (Unit {0})
display_char ch s =
    if ch == 0x0d
    then ok tt (update_cursor_pos (record s { col = 0 }))
    else if ch == 0x0a
    then increment_cursor_row s
    else if ch == 0x91
    then ok tt (if ltb (s.col + 1) s.cols then update_cursor_pos (next_col s) else s)
    else if ch == 0x90
    then ok tt (if ltb 0 s.row then update_cursor_pos (prev_row s) else s)
    else if ch == 0x93
    then ok tt (if ltb 0 s.col then update_cursor_pos (prev_col s) else s)
    else if ch == 0x92
    then ok tt (if ltb (s.row + 1) s.rows then update_cursor_pos (next_row s) else s)
    else if ch == 0x94
    then ok tt (
        update_cursor_pos
          (if s.col == 0 then record s { row = 0; col = 0 } else record s { col = 0 }))
    else if ch == 0x99
    then ok tt (delete_cell s)
    else if ch == 0x08
    then ok tt (if ltb 0 s.col then delete_cell (prev_col s) else s)
    else if ch == 0x0c
    then ok tt (home_cursor (clear_screen s))
    else if ch == 0x09
    then (put_char 0x20 >> put_char 0x20 >> put_char 0x20 >> put_char 0x20) s
    else put_char ch s

-- CRLF, DisplayString and DisplayStringCRLF
unfoldable pub crlf : M Console (Unit {0})
crlf = display_char 0x0d >> display_char 0x0a

unfoldable pub display_string : List ℕ → M Console (Unit {0})
display_string [] s = ok tt s
display_string (ch ∷ chs) s = let rest = display_string chs in (display_char ch >> rest) s

unfoldable pub display_string_crlf : List ℕ → M Console (Unit {0})
display_string_crlf chs = display_string chs >> crlf
