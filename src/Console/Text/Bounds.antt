-- ===== src/Console/Text/Bounds.antt =====
-- The cursor of the console stays on the screen.
use rf.Prelude.{
  ℕ, List, [], ◌∷◌, ◌+◌, ◌-◌, ◌*◌, ◌%◌, ◌<◌, ◌≤◌, ◌≡◌, ◌∙◌, refl, Bool, true, false, arith, ◌==◌,
  leb, ltb, ◌&&◌, if◌then◌else◌, update, Bool-cases, inl, inr,
}
use rf.Kernel.Run.{◌>>◌, Returns, Returns-then, Returns-if}
use rf.Console.{rbo, cell, fill, copy_cells}
use rf.Console.Cells.{copy_cells-behind, fill-copy_cells, cell_lt, last_row}
use rf.Console.Text.{
  Console, set_video_reg, cursor_cell, update_cursor_pos, calc_screen_location, home_cursor,
  clear_screen, blank_line, move_up, vb_scroll_up, prev_col, increment_cursor_row,
  increment_cursor_pos, delete_cell, put_char, display_char, display_string,
}

-- The number of cells up to the end of the screen of the core.
abbrev pub screen_end : Console → ℕ
screen_end s = s.rows * s.cols + s.core * (s.rows * s.cols)

-- The size, the core, the attribute and the registers are as in `s`, the cursor is on the screen, and the
-- cells behind the screen are as in `s`.
abbrev pub Kept : Console → Console → Type 0
Kept s c =
    (c.rows ≡ s.rows)
    × (c.cols ≡ s.cols)
    × (c.core ≡ s.core)
    × (c.attr ≡ s.attr)
    × (c.video_reg ≡ s.video_reg)
    × (c.row < s.rows)
    × (c.col < s.cols)
    × ((a : ℕ) → screen_end s ≤ a → c.screen a ≡ s.screen a)

scroll-behind :
    (rows cols v : ℕ) (f : ℕ → ℕ) (a : ℕ)
    → 0 < rows
    → rows * cols ≤ a
    → fill (cols * (rows - 1)) cols v (copy_cells (cols * (rows - 1)) 0 cols f) a ≡ f a
scroll-behind rows cols v f a p l =
    let e = last_row rows cols p in
    let q : ltb a (cols * (rows - 1)) ≡ false = ground (arith, e, l) in
    let r : ltb a (rows * cols) ≡ false = ground (arith, l) in
    fill-copy_cells (cols * (rows - 1)) cols (rows * cols) v f a e ∙ rw (q, r) refl

module _ (s : Console) (rows_small : s.rows < 256) (cols_small : s.cols < 256) where
  moved :
      (c : Console) (row col : ℕ)
      → Kept s c
      → row < s.rows
      → col < s.cols
      → Kept s (record c { row = row; col = col })
  moved c row col k p q = (k.0, k.1, k.2, k.3, k.4, p, q, k.7)

  written :
      (c : Console) (f : ℕ → ℕ)
      → Kept s c
      → ((a : ℕ) → screen_end s ≤ a → f a ≡ c.screen a)
      → Kept s (record c { screen = f })
  written c f k g = (k.0, k.1, k.2, k.3, k.4, k.5, k.6, λ a l. g a l ∙ k.7 a l)

  update_one : (f : ℕ → ℕ) (p v a : ℕ) → p < screen_end s → screen_end s ≤ a → update f p v a ≡ f a
  update_one f p v a l m = let far : (p == a) ≡ false = ground arith in rw far refl

  update-Kept : (c : Console) → Kept s c → Kept s (update_cursor_pos c)
  unfolding update_cursor_pos set_video_reg
  update-Kept c k = k

  cursor_in : (c : Console) → Kept s c → cursor_cell c < screen_end s
  cursor_in c k = rw (k.0, k.1, k.2) (omega (arith, cell_lt c.row s.rows s.cols c.col k.5 k.6))

  scroll-Kept : (c : Console) → Kept s c → Returns (λ _ d. Kept s d) (vb_scroll_up c)
  unfolding vb_scroll_up blank_line move_up
  scroll-Kept c k =
      let some_rows : (c.rows == 0) ≡ false = rw k.0 (ground (arith, k.5)) in
      rw some_rows (
        written c _ k (λ a l.
          scroll-behind c.rows c.cols (rbo (cell c.attr 0x20)) c.screen a
            (rw k.0 (omega (arith, k.5))) (rw (k.0, k.1) (omega (arith, l)))))

  row-Kept : (c : Console) → Kept s c → Returns (λ _ d. Kept s d) (increment_cursor_row c)
  unfolding increment_cursor_row
  row-Kept c k = elim (Bool-cases (ltb ((c.row + 1) % 256) c.rows)) [
    | inl e ↦
        rw e (update-Kept _ (moved c ((c.row + 1) % 256) c.col k (ground (arith, e, k.0)) k.6))
    | inr e ↦
        let same : ((c.row + 1) % 256 + 255) % 256 < s.rows = omega (arith, k.5) in
        rw e (
          scroll-Kept _
            (update-Kept _ (moved c (((c.row + 1) % 256 + 255) % 256) c.col k same k.6)))
  ]

  col-Kept : (c : Console) → Kept s c → Returns (λ _ d. Kept s d) (increment_cursor_pos c)
  unfolding increment_cursor_pos
  col-Kept c k = elim (Bool-cases (ltb ((c.col + 1) % 256) c.cols)) [
    | inl e ↦
        rw e (update-Kept _ (moved c c.row ((c.col + 1) % 256) k k.5 (ground (arith, e, k.1))))
    | inr e ↦ rw e (row-Kept _ (moved c c.row 0 k k.5 (omega (arith, k.6))))
  ]

  put_char-Kept : (ch : ℕ) (c : Console) → Kept s c → Returns (λ _ d. Kept s d) (put_char ch c)
  unfolding put_char calc_screen_location set_video_reg
  put_char-Kept ch c k =
      let d = set_video_reg 11 (cursor_cell c) c in
      col-Kept (record d { screen = update c.screen (cursor_cell c) (cell c.attr ch) })
        (written d (update c.screen (cursor_cell c) (cell c.attr ch)) k
          (λ a l. update_one c.screen (cursor_cell c) (cell c.attr ch) a (cursor_in c k) l))

  delete-Kept : (c : Console) → Kept s c → Kept s (delete_cell c)
  unfolding delete_cell calc_screen_location set_video_reg
  delete-Kept c k =
      let n = c.cols - 1 - c.col in
      let p = cursor_cell c in
      let last : p + n < screen_end s =
        rw (k.0, k.1, k.2)
          (omega (arith, k.6, cell_lt c.row s.rows s.cols (s.cols - 1) k.5 (omega (arith, k.6)))) in
      written (set_video_reg 11 p c)
        (update (copy_cells n p (p + 1) c.screen) (p + n) (cell c.attr 0x20)) k
        (λ a l.
          update_one (copy_cells n p (p + 1) c.screen) (p + n) (cell c.attr 0x20) a last l
          ∙ copy_cells-behind n p 1 c.screen a (omega (arith, last, l)))

  clear-Kept : (c : Console) → Kept s c → Kept s (home_cursor (clear_screen c))
  unfolding home_cursor update_cursor_pos set_video_reg clear_screen fill
  clear-Kept c k =
      let d = record c { row = 0; col = 0 } in
      written d (fill 0 (c.rows * c.cols) (rbo (cell c.attr 0x20)) c.screen)
        (moved c 0 0 k (omega (arith, k.5)) (omega (arith, k.6)))
        (λ a l.
          let out : (leb 0 a && ltb a (0 + c.rows * c.cols)) ≡ false =
            rw (k.0, k.1) (ground (arith, l)) in
          rw out refl)

  Kept-if :
      (b : Bool) (c d : Console) → (b ≡ true → Kept s c) → Kept s d → Kept s (if b then c else d)
  Kept-if true c d f k = f refl
  Kept-if false c d f k = k

  -- The cursor moves to another row or column of the screen.
  goes :
      (c : Console) (row col : ℕ)
      → Kept s c
      → row < s.rows
      → col < s.cols
      → Kept s (update_cursor_pos (record c { row = row; col = col }))
  goes c row col k p q = update-Kept _ (moved c row col k p q)

  tab-Kept :
      (c : Console)
      → Kept s c
      → Returns
          (λ _ d. Kept s d)
          ((put_char 0x20 >> put_char 0x20 >> put_char 0x20 >> put_char 0x20) c)
  tab-Kept c k =
      let P : Unit {0} → Console → Type 0 = λ _ d. Kept s d in
      let one = λ (_ : Unit {0}) (d : Console) (q : Kept s d). put_char-Kept 0x20 d q in
      Returns-then P P _ _
        (Returns-then P P _ _ (Returns-then P P _ _ (put_char-Kept 0x20 c k) one) one) one

  display_char-Kept :
      (ch : ℕ) (c : Console) → Kept s c → Returns (λ _ d. Kept s d) (display_char ch c)
  unfolding display_char
  display_char-Kept ch c k =
      let P : Unit {0} → Console → Type 0 = λ _ d. Kept s d in
      let back = prev_col c in
      let left : ltb 0 c.col ≡ true → Kept s back =
        λ e. moved c c.row ((c.col + 255) % 256) k k.5 (ground (arith, e, k.6)) in
      Returns-if P (ch == 0x0d) _ _ (goes c c.row 0 k k.5 (omega (arith, k.6))) (
        Returns-if P (ch == 0x0a) _ _ (row-Kept c k) (
          Returns-if P (ch == 0x91) _ _
            (Kept-if (ltb (c.col + 1) c.cols) _ _
              (λ e. goes c c.row ((c.col + 1) % 256) k k.5 (ground (arith, e, k.1))) k)
            (Returns-if P (ch == 0x90) _ _
              (Kept-if (ltb 0 c.row) _ _
                (λ e. goes c ((c.row + 255) % 256) c.col k (ground (arith, e, k.5)) k.6) k)
              (Returns-if P (ch == 0x93) _ _
                (Kept-if (ltb 0 c.col) _ _ (λ e. update-Kept back (left e)) k)
                (Returns-if P (ch == 0x92) _ _
                  (Kept-if (ltb (c.row + 1) c.rows) _ _
                    (λ e. goes c ((c.row + 1) % 256) c.col k (ground (arith, e, k.0)) k.6) k)
                  (Returns-if P (ch == 0x94) _ _
                    (update-Kept _ (
                      Kept-if (c.col == 0) _ _
                        (λ e. moved c 0 0 k (omega (arith, k.5)) (omega (arith, k.6)))
                        (moved c c.row 0 k k.5 (omega (arith, k.6)))))
                    (Returns-if P (ch == 0x99) _ _ (delete-Kept c k) (
                      Returns-if P (ch == 0x08) _ _
                        (Kept-if (ltb 0 c.col) _ _ (λ e. delete-Kept back (left e)) k)
                        (Returns-if P (ch == 0x0c) _ _ (clear-Kept c k) (
                          Returns-if P (ch == 0x09) _ _ (tab-Kept c k)
                            (put_char-Kept ch c k)))))))))))

  string-Kept :
      (chs : List ℕ) (c : Console) → Kept s c → Returns (λ _ d. Kept s d) (display_string chs c)
  unfolding display_string
  string-Kept [] c k = k
  string-Kept (ch ∷ chs) c k =
      Returns-then (λ _ d. Kept s d) (λ _ d. Kept s d) (display_char ch c) (λ _. display_string chs)
        (display_char-Kept ch c k) (λ _ d q. string-Kept chs d q)

pub display_string-Kept :
    (chs : List ℕ) (s : Console)
    → s.rows < 256
    → s.cols < 256
    → s.row < s.rows
    → s.col < s.cols
    → Returns (λ _ c. Kept s c) (display_string chs s)
display_string-Kept chs s r c p q =
    string-Kept s r c chs s (refl, refl, refl, refl, refl, p, q, λ a l. refl)
