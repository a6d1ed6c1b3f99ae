-- ===== src/Console/Bounds.antt =====
-- The cursor stays on the screen, on both consoles.
use rf.Prelude.{ℕ, List, ◌<◌}
use rf.Kernel.Run.{Returns}
use rf.Console.Text.{Console, display_string}
use rf.Console.Text.Bounds.{Kept, display_string-Kept}
use rf.Console.Dbg.{Dbg, dbg_display_string}
use rf.Console.Dbg.Bounds.{DbgKept, dbg_display_string-DbgKept}

-- DisplayString and DBGDisplayString, and so DisplayChar and DBGDisplayChar, of any characters return with
-- the cursor on the screen, if it was there and the screen has less than 256 rows and columns. DisplayString
-- leaves the size, the attribute, the registers of the text controller and the cells behind the end of the
-- core's screen as before; DBGDisplayString the attribute and all cells but those of the core's screen and
-- of the last row of the core 0.
pub display_string-KeptBoth :
    (chs : List ℕ) (s : Console) (d : Dbg)
    → s.rows < 256
    → s.cols < 256
    → s.row < s.rows
    → s.col < s.cols
    → d.row < 32
    → d.col < 64
    → Returns (λ _ c. Kept s c) (display_string chs s) × DbgKept d (dbg_display_string chs d)
display_string-KeptBoth chs s d r c p q u v =
    (display_string-Kept chs s r c p q, dbg_display_string-DbgKept chs d u v)
