-- ===== src/Console/Dbg/Bounds.antt =====
-- The cursor of a core's console stays on the screen.
use rf.Prelude.{
  ℕ, List, [], ◌∷◌, ◌+◌, ◌-◌, ◌*◌, ◌<◌, ◌≤◌, ◌≡◌, ◌∙◌, refl, Bool, true, false, arith, ◌==◌, leb,
  ltb, ◌&&◌, if◌then◌else◌, update, Bool-cases, inl, inr,
}
use rf.Console.{rbo, cell, fill, copy_cells}
use rf.Console.Cells.{copy_cells-shift}
use rf.Console.Dbg.{
  Dbg, get_screen_loc, dbg_set_video_reg, dbg_update_cursor_pos, dbg_home_cursor, dbg_clear_screen,
  dbg_blank_line, dbg_scroll_up, dbg_increment_cursor_row, dbg_increment_cursor_pos,
  dbg_delete_cell, dbg_put_char, dbg_display_char, dbg_display_string,
}

-- A cell that is neither on the screen of the core nor in the last row of that of the core 0.
abbrev pub IsForeign : (core a : ℕ) → Type 0
IsForeign core a =
    ((leb (core * 2048) a && ltb a (core * 2048 + 2048)) ≡ false)
    × ((leb 1984 a && ltb a 2048) ≡ false)

-- The cursor is on the screen; the core, the attribute and the cells of others are as in `s`.
abbrev pub DbgKept : Dbg → Dbg → Type 0
DbgKept s c =
    (c.core ≡ s.core)
    × (c.attr ≡ s.attr)
    × (c.row < 32)
    × (c.col < 64)
    × ((a : ℕ) → IsForeign s.core a → c.screen a ≡ s.screen a)

module _ (s : Dbg) where
  moved :
      (c : Dbg) (row col : ℕ)
      → DbgKept s c
      → row < 32
      → col < 64
      → DbgKept s (record c { row = row; col = col })
  moved c row col k p q = (k.0, k.1, p, q, k.4)

  update-DbgKept : (c : Dbg) → DbgKept s c → DbgKept s (dbg_update_cursor_pos c)
  unfolding dbg_update_cursor_pos dbg_set_video_reg
  update-DbgKept c k = k

  goes :
      (c : Dbg) (row col : ℕ)
      → DbgKept s c
      → row < 32
      → col < 64
      → DbgKept s (dbg_update_cursor_pos (record c { row = row; col = col }))
  goes c row col k p q = update-DbgKept _ (moved c row col k p q)

  written :
      (c : Dbg) (f : ℕ → ℕ)
      → DbgKept s c
      → ((a : ℕ) → IsForeign s.core a → f a ≡ c.screen a)
      → DbgKept s (record c { screen = f })
  written c f k g = (k.0, k.1, k.2, k.3, λ a l. g a l ∙ k.4 a l)

  at_core : (c : Dbg) → DbgKept s c → get_screen_loc c ≡ s.core * 2048
  unfolding get_screen_loc
  at_core c k = rw k.0 (omega arith)

  update_own :
      (f : ℕ → ℕ) (p v a : ℕ)
      → s.core * 2048 ≤ p
      → p < s.core * 2048 + 2048
      → IsForeign s.core a
      → update f p v a ≡ f a
  update_own f p v a l m i = let far : (p == a) ≡ false = ground (arith, i.0) in rw far refl

  copied_own :
      (n p : ℕ) (f : ℕ → ℕ) (a : ℕ)
      → s.core * 2048 ≤ p
      → p + n ≤ s.core * 2048 + 2048
      → IsForeign s.core a
      → copy_cells n p (p + 1) f a ≡ f a
  copied_own n p f a l m i =
      let out : (leb p a && ltb a (p + n)) ≡ false = ground (arith, i.0) in
      copy_cells-shift n p 1 f a ∙ rw out refl

  scroll-DbgKept : (c : Dbg) → DbgKept s c → DbgKept s (dbg_scroll_up c)
  unfolding dbg_scroll_up dbg_blank_line fill
  scroll-DbgKept c k = written c _ k (λ a i.
      let out : (leb (get_screen_loc c) a && ltb a (get_screen_loc c + 2048)) ≡ false =
        rw (at_core c k) i.0 in
      rw (i.1, copy_cells-shift 2048 (get_screen_loc c) 64 c.screen a, out) refl)

  row-DbgKept : (c : Dbg) → DbgKept s c → DbgKept s (dbg_increment_cursor_row c)
  unfolding dbg_increment_cursor_row
  row-DbgKept c k = elim (Bool-cases (ltb c.row 31)) [
    | inl e ↦ rw e (goes c (c.row + 1) c.col k (ground (arith, e)) k.3)
    | inr e ↦ rw e (scroll-DbgKept c k)
  ]

  col-DbgKept : (c : Dbg) → DbgKept s c → DbgKept s (dbg_increment_cursor_pos c)
  unfolding dbg_increment_cursor_pos
  col-DbgKept c k = elim (Bool-cases (ltb (c.col + 1) 64)) [
    | inl e ↦ rw e (goes c c.row (c.col + 1) k k.2 (ground (arith, e)))
    | inr e ↦ rw e (row-DbgKept _ (moved c c.row 0 k k.2 (omega arith)))
  ]

  put-DbgKept : (ch : ℕ) (c : Dbg) → DbgKept s c → DbgKept s (dbg_put_char ch c)
  unfolding dbg_put_char
  put-DbgKept ch c k =
      let p = get_screen_loc c + (c.row * 64 + c.col) in
      let f = update c.screen p (rbo (cell c.attr ch)) in
      col-DbgKept (record c { screen = f })
        (written c f k (λ a i.
          update_own c.screen p (rbo (cell c.attr ch)) a (omega (arith, at_core c k))
            (omega (arith, at_core c k, k.2, k.3)) i))

  delete-DbgKept : (c : Dbg) → DbgKept s c → DbgKept s (dbg_delete_cell c)
  unfolding dbg_delete_cell
  delete-DbgKept c k =
      let p = get_screen_loc c + c.row * 64 + c.col in
      let n = 64 - 1 - c.col in
      let f = copy_cells n p (p + 1) c.screen in
      written c (update f (p + n) (rbo (cell c.attr 0x20))) k (λ a i.
        update_own f (p + n) (rbo (cell c.attr 0x20)) a (omega (arith, at_core c k))
          (omega (arith, at_core c k, k.2, k.3)) i
        ∙ copied_own n p c.screen a (omega (arith, at_core c k))
            (omega (arith, at_core c k, k.2, k.3)) i)

  clear-DbgKept : (c : Dbg) → DbgKept s c → DbgKept s (dbg_home_cursor (dbg_clear_screen c))
  unfolding dbg_home_cursor dbg_update_cursor_pos dbg_set_video_reg dbg_clear_screen fill
  clear-DbgKept c k =
      written (record c { row = 0; col = 0 })
        (fill (get_screen_loc c) 2048 (rbo (cell c.attr 0x20)) c.screen)
        (moved c 0 0 k (omega arith) (omega arith))
        (λ a i.
          let out : (leb (get_screen_loc c) a && ltb a (get_screen_loc c + 2048)) ≡ false =
            rw (at_core c k) i.0 in
          rw out refl)

  DbgKept-if :
      (b : Bool) (c d : Dbg)
      → (b ≡ true → DbgKept s c)
      → DbgKept s d
      → DbgKept s (if b then c else d)
  DbgKept-if true c d f k = f refl
  DbgKept-if false c d f k = k

  four_times :
      (f : Dbg → Dbg)
      → ((d : Dbg) → DbgKept s d → DbgKept s (f d))
      → (c : Dbg) → DbgKept s c
      → DbgKept s (f (f (f (f c))))
  four_times f g c k = g (f (f (f c))) (g (f (f c)) (g (f c) (g c k)))

  display_char-DbgKept : (ch : ℕ) (c : Dbg) → DbgKept s c → DbgKept s (dbg_display_char ch c)
  unfolding dbg_display_char
  display_char-DbgKept ch c k =
      let left : ltb 0 c.col ≡ true → DbgKept s (record c { col = c.col - 1 }) =
        λ e. moved c c.row (c.col - 1) k k.2 (omega (arith, k.3)) in
      elim (Bool-cases (ch == 0x0d)) [
        | inl e ↦ rw e (goes c c.row 0 k k.2 (omega arith))
        | inr e ↦ rw e (elim (Bool-cases (ch == 0x0a)) [
          | inl e ↦ rw e (row-DbgKept c k)
          | inr e ↦ rw e (elim (Bool-cases (ch == 0x91)) [
            | inl e ↦ rw e (
                DbgKept-if (ltb c.col 63) (dbg_update_cursor_pos (record c { col = c.col + 1 })) c
                  (λ e. goes c c.row (c.col + 1) k k.2 (ground (arith, e))) k)
            | inr e ↦ rw e (elim (Bool-cases (ch == 0x90)) [
              | inl e ↦ rw e (
                  DbgKept-if (ltb 0 c.row) (dbg_update_cursor_pos (record c { row = c.row - 1 })) c
                    (λ e. goes c (c.row - 1) c.col k (omega (arith, k.2)) k.3) k)
              | inr e ↦ rw e (elim (Bool-cases (ch == 0x93)) [
                | inl e ↦ rw e (
                    DbgKept-if (ltb 0 c.col) (dbg_update_cursor_pos (record c { col = c.col - 1 }))
                      c (λ e. update-DbgKept (record c { col = c.col - 1 }) (left e)) k)
                | inr e ↦ rw e (elim (Bool-cases (ch == 0x92)) [
                  | inl e ↦ rw e (
                      DbgKept-if (ltb c.row 31)
                        (dbg_update_cursor_pos (record c { row = c.row + 1 })) c
                        (λ e. goes c (c.row + 1) c.col k (ground (arith, e)) k.3) k)
                  | inr e ↦ rw e (elim (Bool-cases (ch == 0x94)) [
                    | inl e ↦ rw e (
                        update-DbgKept
                          (if c.col == 0
                            then record c { row = 0; col = 0 }
                            else record c { col = 0 })
                          (DbgKept-if (c.col == 0) (record c { row = 0; col = 0 })
                            (record c { col = 0 }) (λ _. moved c 0 0 k (omega arith) (omega arith))
                            (moved c c.row 0 k k.2 (omega arith))))
                    | inr e ↦ rw e (elim (Bool-cases (ch == 0x99)) [
                      | inl e ↦ rw e (delete-DbgKept c k)
                      | inr e ↦ rw e (elim (Bool-cases (ch == 0x08)) [
                        | inl e ↦ rw e (
                            DbgKept-if (ltb 0 c.col)
                              (dbg_delete_cell (record c { col = c.col - 1 })) c
                              (λ e. delete-DbgKept (record c { col = c.col - 1 }) (left e)) k)
                        | inr e ↦ rw e (elim (Bool-cases (ch == 0x0c)) [
                          | inl e ↦ rw e (clear-DbgKept c k)
                          | inr e ↦ rw e (elim (Bool-cases (ch == 0x09)) [
                            | inl e ↦ rw e (four_times (dbg_put_char 0x20) (put-DbgKept 0x20) c k)
                            | inr e ↦ rw e (put-DbgKept ch c k)
                          ])
                        ])
                      ])
                    ])
                  ])
                ])
              ])
            ])
          ])
        ])
      ]

  string-DbgKept : (chs : List ℕ) (c : Dbg) → DbgKept s c → DbgKept s (dbg_display_string chs c)
  unfolding dbg_display_string
  string-DbgKept [] c k = k
  string-DbgKept (ch ∷ chs) c k = string-DbgKept chs _ (display_char-DbgKept ch c k)

pub dbg_display_string-DbgKept :
    (chs : List ℕ) (s : Dbg) → s.row < 32 → s.col < 64 → DbgKept s (dbg_display_string chs s)
dbg_display_string-DbgKept chs s p q = string-DbgKept s chs s (refl, refl, p, q, λ a i. refl)
