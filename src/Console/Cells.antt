-- ===== src/Console/Cells.antt =====
-- Cells that are moved, and the bytes of a cell.
use rf.Prelude.{
  ℕ, zero, suc, ◌+◌, ◌-◌, ◌*◌, ◌^◌, ◌<◌, ◌≤◌, ◌≡◌, ◌∙◌, refl, ap, Bool, true, false, arith, ◌==◌,
  ==-eq, leb, ltb, ◌&&◌, if◌then◌else◌, update, Bool-cases, inl, inr,
}
use mathlib.Core.Path.{subst}
use native.Mathlib.Nat.{mul_comm}
use rf.Console.{rbo, fill, copy_cells}

if-then : (b : Bool) (x y z : ℕ) → (b ≡ true → x ≡ y) → (if b then x else z) ≡ (if b then y else z)
if-then true x y z f = f refl
if-then false x y z f = refl

first_cell :
    (n to d : ℕ) (s : ℕ → ℕ) (a : ℕ)
    → (if leb (to + 1) a && ltb a (to + 1 + n)
        then update s to (s (to + d)) (a + d)
        else update s to (s (to + d)) a)
      ≡ (if leb to a && ltb a (to + suc n) then s (a + d) else s a)
first_cell n to d s a = elim (Bool-cases (to == a)) [
  | inl e ↦
      let eq : to ≡ a = ==-eq to a e in
      let p : (leb (to + 1) a && ltb a (to + 1 + n)) ≡ false = ground (arith, eq) in
      let q : (leb to a && ltb a (to + suc n)) ≡ true = ground (arith, eq) in
      rw (p, q, e) (ap (λ x. s (x + d)) eq)
  | inr e ↦
      let same : (leb (to + 1) a && ltb a (to + 1 + n)) ≡ (leb to a && ltb a (to + suc n)) =
        ground (arith, e) in
      rw (same, e)
        (if-then (leb to a && ltb a (to + suc n)) _ _ _
          (λ b. let far : (to == a + d) ≡ false = ground (arith, b, e) in rw far refl))
]

-- The cell at `from` lies `d` behind that at `to`: the cells are moved as if all were read before any is
-- written.
pub copy_cells-shift :
    (n to d : ℕ) (s : ℕ → ℕ) (a : ℕ)
    → copy_cells n to (to + d) s a ≡ (if leb to a && ltb a (to + n) then s (a + d) else s a)
unfolding copy_cells
copy_cells-shift zero to d s a = ground arith
copy_cells-shift (suc n) to d s a =
    let eq : to + d + 1 ≡ to + 1 + d = omega arith in
    rw eq (copy_cells-shift n (to + 1) d (update s to (s (to + d))) a ∙ first_cell n to d s a)

-- The cells behind the last one that is written.
pub copy_cells-behind :
    (n to d : ℕ) (s : ℕ → ℕ) (a : ℕ) → to + n ≤ a → copy_cells n to (to + d) s a ≡ s a
copy_cells-behind n to d s a l =
    let out : (leb to a && ltb a (to + n)) ≡ false = ground (arith, l) in
    copy_cells-shift n to d s a ∙ rw out refl

-- `n` cells are moved by `d` to the first one, and the `d` cells behind them are filled.
pub fill-copy_cells :
    (n d m v : ℕ) (s : ℕ → ℕ) (a : ℕ)
    → n + d ≡ m
    → fill n d v (copy_cells n 0 d s) a
      ≡ (if ltb a n then s (a + d) else if ltb a m then v else s a)
unfolding fill
fill-copy_cells n d m v s a e =
    let zero_d : 0 + d ≡ d = omega arith in
    let sh : copy_cells n 0 d s a ≡ (if leb 0 a && ltb a (0 + n) then s (a + d) else s a) =
      subst (λ x. copy_cells n 0 x s a ≡ (if leb 0 a && ltb a (0 + n) then s (a + d) else s a))
        zero_d (copy_cells-shift n 0 d s a) in
    elim (Bool-cases (ltb a n)) [
      | inl p ↦
          let q : (leb n a && ltb a (n + d)) ≡ false = ground (arith, p) in
          let r : (leb 0 a && ltb a (0 + n)) ≡ true = ground (arith, p) in
          rw (q, p) (sh ∙ rw r refl)
      | inr p ↦
          let q : (leb n a && ltb a (n + d)) ≡ ltb a m = ground (arith, p, e) in
          let r : (leb 0 a && ltb a (0 + n)) ≡ false = ground (arith, p) in rw (q, p, sh, r) refl
    ]

-- A cell of the screen.
pub cell_lt : (row rows cols col : ℕ) → row < rows → col < cols → row * cols + col < rows * cols
cell_lt zero (suc n) cols col p q = omega arith
cell_lt row zero cols col p q = absurd (omega arith)
cell_lt (suc row) (suc n) cols col p q = omega (arith, cell_lt row n cols col (omega arith) q)

-- The last row ends where the screen does.
pub last_row : (rows cols : ℕ) → 0 < rows → cols * (rows - 1) + cols ≡ rows * cols
last_row zero cols p = absurd (omega arith)
last_row (suc n) cols p =
    let e : suc n - 1 ≡ n = omega arith in let c = mul_comm cols n in rw (e, c) (omega arith)

-- The bytes in reverse order twice.
pub rbo-rbo : (i : ℕ) → i < 2 ^ 32 → rbo (rbo i) ≡ i
unfolding rbo
rbo-rbo i l = omega arith
