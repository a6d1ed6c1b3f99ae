-- ===== src/Memory/Map/Marks.antt =====
-- What marking and unmarking do to the set of pages in use.
use rf.Prelude.{
  ℕ, ◌+◌, ◌*◌, ◌/◌, ◌%◌, ◌^◌, ◌≤◌, ◌<◌, ◌≡◌, refl, Bool, false, ◌||◌, ◌&&◌, not, arith, ◌==◌, ==-eq,
  leb, update, Bool-cases, inl, inr,
}
use rf.Kernel.Run.{ok, Returns}
use rf.Memory.Bits.{has_bit, set_bit, clear_bit, has-set, has-clear}
use rf.Memory.State.{Memory, dram_base, pam_words, n_pages, mem_page_size}
use rf.Memory.Map.{mark_page, unmark_page, dram_offset}

-- The page with the number `i`, counted from DRAM_BASE, is in use.
abbrev pub in_use : Memory → (i : ℕ) → Bool
in_use m i = has_bit (m.pam (i / 32)) (i % 32)

-- `a` is an address in the page with the number `i`.
abbrev pub InPage : (i a : ℕ) → Type 0
InPage i a =
    (dram_base + i * mem_page_size ≤ a) × (a < dram_base + i * mem_page_size + mem_page_size)

pub same_page : (i j : ℕ) → (i == j) ≡ ((i / 32 == j / 32) && (i % 32 == j % 32))
same_page i j = ground arith

abbrev pub with_bit_set : (i : ℕ) → Memory → Memory
with_bit_set i m = record m { pam = update m.pam (i / 32) (set_bit (m.pam (i / 32)) (i % 32)) }

abbrev pub with_bit_clear : (i : ℕ) → Memory → Memory
with_bit_clear i m = record m { pam = update m.pam (i / 32) (clear_bit (m.pam (i / 32)) (i % 32)) }

module _ (m : Memory) (i a : ℕ) (hi : i < n_pages) (at : InPage i a) where
  word : dram_offset a / 2 ^ 18 ≡ i / 32
  word = omega (arith, at.0, at.1)

  bit : dram_offset a / 2 ^ 13 % 32 ≡ i % 32
  bit = omega (arith, at.0, at.1)

  inside : leb pam_words (i / 32) ≡ false
  inside = ground arith

  pub mark_eq : mark_page a m ≡ ok tt (with_bit_set i m)
  unfolding mark_page
  mark_eq = rw (word, bit, inside) refl

  pub unmark_eq : unmark_page a m ≡ ok tt (with_bit_clear i m)
  unfolding unmark_page
  unmark_eq = rw (word, bit, inside) refl

pub set_in_use : (m : Memory) (i j : ℕ) → in_use (with_bit_set i m) j ≡ ((i == j) || in_use m j)
set_in_use m i j = elim (Bool-cases (i / 32 == j / 32)) [
  | inl e ↦
      let eq : i / 32 ≡ j / 32 = ==-eq (i / 32) (j / 32) e in
      rw (same_page i j, e, eq) (has-set (m.pam (j / 32)) (i % 32) (j % 32))
  | inr e ↦ rw (same_page i j, e) refl
]

pub clear_in_use :
    (m : Memory) (i j : ℕ) → in_use (with_bit_clear i m) j ≡ (not (i == j) && in_use m j)
clear_in_use m i j = elim (Bool-cases (i / 32 == j / 32)) [
  | inl e ↦
      let eq : i / 32 ≡ j / 32 = ==-eq (i / 32) (j / 32) e in
      rw (same_page i j, e, eq) (has-clear (m.pam (j / 32)) (i % 32) (j % 32))
  | inr e ↦ rw (same_page i j, e) refl
]

-- MarkPage and UnmarkPage with an address in page `i` of DRAM return. After MarkPage the pages in use are
-- those from before and page `i`, after UnmarkPage those from before without page `i`.
pub mark_page-in_use :
    (m : Memory) (i a : ℕ)
    → i < n_pages
    → InPage i a
    → Returns (λ _ m'. (j : ℕ) → in_use m' j ≡ ((i == j) || in_use m j)) (mark_page a m)
      × Returns (λ _ m'. (j : ℕ) → in_use m' j ≡ (not (i == j) && in_use m j)) (unmark_page a m)
mark_page-in_use m i a hi at =
    (rw (mark_eq m i a hi at) (set_in_use m i), rw (unmark_eq m i a hi at) (clear_in_use m i))
