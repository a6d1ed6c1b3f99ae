-- ===== src/Console.antt =====
-- software/Femtiki/source/kernel/console.c and dbg_console.c: what the two text consoles share. The cells of
-- the text memory, long words, are a function of their index.
pub mod Cells
pub mod Text
pub mod Dbg
pub mod Scroll
pub mod Bounds
use rf.Prelude.{
  ℕ, zero, suc, ◌+◌, ◌*◌, ◌/◌, ◌%◌, ◌^◌, Bool, ◌||◌, ◌&&◌, ◌==◌, leb, ltb, if◌then◌else◌, update,
}

-- rbo: the bytes in reverse order.
unfoldable pub rbo : (i : ℕ) → ℕ
rbo i = i / 2 ^ 24 + i / 2 ^ 16 % 2 ^ 8 * 2 ^ 8 + i / 2 ^ 8 % 2 ^ 8 * 2 ^ 16 + i % 2 ^ 8 * 2 ^ 24

-- `a | b` of `n` bits.
unfoldable pub bit_or : (n a b : ℕ) → ℕ
bit_or zero a b = 0
bit_or (suc n) a b = (if (a % 2 == 1) || (b % 2 == 1) then 1 else 0) + 2 * bit_or n (a / 2) (b / 2)

-- A cell: a character with an attribute.
abbrev pub cell : (attr ch : ℕ) → ℕ
cell attr ch = bit_or 32 attr ch

-- memsetT: `n` cells from `p` on.
unfoldable pub fill : (p n v : ℕ) → (ℕ → ℕ) → ℕ → ℕ
fill p n v s a = if leb p a && ltb a (p + n) then v else s a

-- `n` cells, one after another: the cell at `from` is written at `to`.
unfoldable pub copy_cells : (n to from : ℕ) → (ℕ → ℕ) → ℕ → ℕ
copy_cells zero to from s = s
copy_cells (suc n) to from s = copy_cells n (to + 1) (from + 1) (update s to (s from))
