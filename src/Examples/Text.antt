-- ===== src/Examples/Text.antt =====
-- The theorems on the consoles, at small states.
use rf.Prelude.{ℕ, ◌≡◌, [], ◌∷◌, arith}
use rf.Kernel.Run.{Returns}
use rf.Console.Text.{Console, display_string, vb_scroll_up}
use rf.Console.Text.Bounds.{Kept}
use rf.Console.Dbg.Bounds.{DbgKept}
use rf.Console.Bounds.{display_string-KeptBoth}
use rf.Console.Dbg.{Dbg, dbg_scroll_up, dbg_display_string}
use rf.Console.Scroll.{scrolled, dbg_scrolled, scroll_up-scrolled}

-- A screen of 3 rows and 4 columns on the core 0, the cursor at its last cell.
abbrev small_console : Console
small_console = record {
  rows = 3;
  cols = 4;
  row = 2;
  col = 3;
  attr = 0x87fc_0000;
  core = 0;
  screen = λ a. a;
  video_reg = λ _. 0;
  refused = [];
}

abbrev core_two : Dbg
core_two = record { row = 31; col = 63; attr = 0; core = 2; screen = λ a. a; video_reg = λ _. 0 }

display_string-KeptBoth_example :
    Returns
      (λ _ c. Kept small_console c)
      (display_string (0x41 ∷ 0x09 ∷ 0x0a ∷ 0x99 ∷ []) small_console)
    × DbgKept core_two (dbg_display_string (0x41 ∷ 0x09 ∷ 0x0a ∷ 0x99 ∷ []) core_two)
display_string-KeptBoth_example =
    display_string-KeptBoth (0x41 ∷ 0x09 ∷ 0x0a ∷ 0x99 ∷ []) small_console core_two (omega arith)
      (omega arith) (omega arith) (omega arith) (omega arith) (omega arith)

scroll_up-scrolled_example :
    Returns
      (λ _ c.
        ((a : ℕ) → c.screen a ≡ scrolled small_console a)
        × (c ≡ record small_console { screen = c.screen }))
      (vb_scroll_up small_console)
    × ((a : ℕ) → (dbg_scroll_up core_two).screen a ≡ dbg_scrolled core_two a)
    × (dbg_scroll_up core_two ≡ record core_two { screen = (dbg_scroll_up core_two).screen })
scroll_up-scrolled_example = scroll_up-scrolled small_console core_two (omega arith)
