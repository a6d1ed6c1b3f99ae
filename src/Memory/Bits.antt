-- ===== src/Memory/Bits.antt =====
-- Single bits of a word, by recursion on the number of the bit.
use rf.Prelude.{
  ℕ, zero, suc, ◌+◌, ◌-◌, ◌*◌, ◌/◌, ◌%◌, ◌^◌, ◌≤◌, ◌<◌, ◌≡◌, refl, Bool, true, false, ◌||◌, ◌&&◌,
  not, Option, none, some, arith, ◌==◌, if◌then◌else◌, Bool-cases, inl, inr,
}
use native.Mathlib.Nat.{pow-suc, one-le-pow}

-- `(w >> b) & 1`
unfoldable pub has_bit : (w b : ℕ) → Bool
has_bit w zero = w % 2 == 1
has_bit w (suc b) = has_bit (w / 2) b

-- `w | (1 << b)`
unfoldable pub set_bit : (w b : ℕ) → ℕ
set_bit w zero = w / 2 * 2 + 1
set_bit w (suc b) = set_bit (w / 2) b * 2 + w % 2

-- `w & ~(1 << b)`
unfoldable pub clear_bit : (w b : ℕ) → ℕ
clear_bit w zero = w / 2 * 2
clear_bit w (suc b) = clear_bit (w / 2) b * 2 + w % 2

-- The loop of FindFreePage over the bits of a word: the number of the first one that is clear,
-- counted from `bit`.
unfoldable pub first_clear : (fuel bit wd : ℕ) → Option ℕ
first_clear zero bit wd = none
first_clear (suc fuel) bit wd =
    let rest = first_clear fuel (bit + 1) (wd / 2) in if wd % 2 == 0 then some bit else rest

set_low : (w : ℕ) → (set_bit w 0 / 2 ≡ w / 2) × (set_bit w 0 % 2 ≡ 1)
unfolding set_bit
set_low w = (omega arith, omega arith)

set_high : (w b : ℕ) → (set_bit w (suc b) / 2 ≡ set_bit (w / 2) b) × (set_bit w (suc b) % 2 ≡ w % 2)
unfolding set_bit
set_high w b = (omega arith, omega arith)

clear_low : (w : ℕ) → (clear_bit w 0 / 2 ≡ w / 2) × (clear_bit w 0 % 2 ≡ 0)
unfolding clear_bit
clear_low w = (omega arith, omega arith)

clear_high :
    (w b : ℕ) → (clear_bit w (suc b) / 2 ≡ clear_bit (w / 2) b) × (clear_bit w (suc b) % 2 ≡ w % 2)
unfolding clear_bit
clear_high w b = (omega arith, omega arith)

pub has-set : (w b c : ℕ) → has_bit (set_bit w b) c ≡ ((b == c) || has_bit w c)
unfolding has_bit
has-set w zero zero = rw (set_low w).1 refl
has-set w zero (suc c) = rw (set_low w).0 (ground arith)
has-set w (suc b) zero = rw (set_high w b).1 (ground arith)
has-set w (suc b) (suc c) = rw (set_high w b).0 (ground (arith, has-set (w / 2) b c))

pub has-clear : (w b c : ℕ) → has_bit (clear_bit w b) c ≡ (not (b == c) && has_bit w c)
unfolding has_bit
has-clear w zero zero = rw (clear_low w).1 refl
has-clear w zero (suc c) = rw (clear_low w).0 (ground arith)
has-clear w (suc b) zero = rw (clear_high w b).1 (ground arith)
has-clear w (suc b) (suc c) = rw (clear_high w b).0 (ground (arith, has-clear (w / 2) b c))

-- A clear bit that is set and cleared again.
pub clear-set : (w b : ℕ) → has_bit w b ≡ false → clear_bit (set_bit w b) b ≡ w
unfolding has_bit clear_bit
clear-set w zero e = rw (set_low w).0 (ground arith)
clear-set w (suc b) e =
    rw ((set_high w b).0, (set_high w b).1) (rw (clear-set (w / 2) b e) (omega arith))

-- A 32-bit word stays one.
pub set_bit-lt : (n w b : ℕ) → w < 2 ^ n → b < n → set_bit w b < 2 ^ n
unfolding set_bit
set_bit-lt zero w b l m = absurd (omega arith)
set_bit-lt (suc n) w zero l m = omega (arith, pow-suc 2 n)
set_bit-lt (suc n) w (suc b) l m =
    omega (arith, pow-suc 2 n, set_bit-lt n (w / 2) b (omega (arith, pow-suc 2 n)) (omega arith))

-- Every bit of the 32 is set.
abbrev pub IsFull : ℕ → Type 0
IsFull w = (j : ℕ) → j < 32 → has_bit w j ≡ true

ones_full : (n : ℕ) (j : ℕ) → j < n → has_bit (2 ^ n - 1) j ≡ true
unfolding has_bit
ones_full zero j l = absurd (omega arith)
ones_full (suc n) zero l = ground (arith, pow-suc 2 n, one-le-pow n 2)
ones_full (suc n) (suc j) l =
    let half : (2 ^ suc n - 1) / 2 ≡ 2 ^ n - 1 = omega (arith, pow-suc 2 n, one-le-pow n 2) in
    rw half (ones_full n j (omega arith))

pub ones-IsFull : IsFull 0xffff_ffff
ones-IsFull j l = ones_full 32 j l

set_from :
    (wd n : ℕ)
    → (wd % 2 == 0) ≡ false
    → ((j : ℕ) → j < n → has_bit (wd / 2) j ≡ true)
    → (j : ℕ) → j < suc n
    → has_bit wd j ≡ true
unfolding has_bit
set_from wd n odd f zero l = ground arith
set_from wd n odd f (suc j) l = f j (omega arith)

-- The bit that the loop finds is clear, and those before it are set.
pub first_clear-some :
    (fuel bit wd c : ℕ)
    → first_clear fuel bit wd ≡ some c
    → (bit ≤ c)
      × (c < bit + fuel)
      × (has_bit wd (c - bit) ≡ false)
      × ((j : ℕ) → j < c - bit → has_bit wd j ≡ true)
unfolding first_clear has_bit
first_clear-some zero bit wd c e = cc
first_clear-some (suc fuel) bit wd c e = elim (Bool-cases (wd % 2 == 0)) [
  | inl t ↦
      let same : some bit ≡ some c = rw t at e in
      let eq : bit ≡ c = cc in
      let z : c - bit ≡ 0 = omega (arith, eq) in
      (omega (arith, eq), omega (arith, eq), rw z (ground arith), λ j l. absurd (omega arith))
  | inr t ↦
      let r = first_clear-some fuel (bit + 1) (wd / 2) c (rw t at e) in
      let z : c - bit ≡ suc (c - (bit + 1)) = omega (arith, r.0) in
      (
        omega (arith, r.0),
        omega (arith, r.1),
        rw z r.2,
        λ j l. set_from wd (c - (bit + 1)) t r.3 j (omega arith),
      )
]

pub first_clear-none :
    (fuel bit wd : ℕ) → first_clear fuel bit wd ≡ none → (j : ℕ) → j < fuel → has_bit wd j ≡ true
unfolding first_clear has_bit
first_clear-none zero bit wd e j l = absurd (omega arith)
first_clear-none (suc fuel) bit wd e j l = elim (Bool-cases (wd % 2 == 0)) [
  | inl t ↦ let no_bit : some bit ≡ none = rw t at e in cc
  | inr t ↦ set_from wd fuel t (first_clear-none fuel (bit + 1) (wd / 2) (rw t at e)) j l
]
