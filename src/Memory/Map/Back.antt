-- ===== src/Memory/Map/Back.antt =====
-- A page that is given back, and sizes in whole pages.
use rf.Prelude.{
  ℕ, ◌+◌, ◌*◌, ◌/◌, ◌%◌, ◌^◌, ◌≤◌, ◌<◌, ◌≡◌, refl, ◌∙◌, false, ◌||◌, ◌&&◌, not, arith, ◌==◌, ==-eq,
  Bool-cases, inl, inr,
}
use rf.Kernel.Run.{Returns, Returns-weaken}
use rf.Memory.State.{Memory, n_pages}
use rf.Memory.Map.{round8k, unmark_page, find_free_page}
use rf.Memory.Map.Marks.{in_use, mark_page-in_use}
use rf.Memory.Map.Find.{IsNextFree, Taken, find_free_page-first}

-- Neither more nor fewer pages are in use.
abbrev pub SameUse : Memory → Memory → Type 0
SameUse m m' = (j : ℕ) → in_use m' j ≡ in_use m j

back :
    (m m' c : Memory) (i : ℕ)
    → in_use m i ≡ false
    → ((j : ℕ) → in_use m' j ≡ ((i == j) || in_use m j))
    → ((j : ℕ) → in_use c j ≡ (not (i == j) && in_use m' j))
    → SameUse m c
back m m' c i free p q j = elim (Bool-cases (i == j)) [
  | inl e ↦
      let eq : i ≡ j = ==-eq i j e in
      let f : in_use m j ≡ false = rw eq at free in q j ∙ rw (e, f) refl
  | inr e ↦ q j ∙ rw (p j, e) refl
]

-- A page that FindFreePage found, given to UnmarkPage, leaves the same pages in use as before. Here there is
-- a free page from the word of the last search on, so both return.
pub unmark_page-find :
    (m : Memory) (f : ℕ)
    → f < n_pages
    → m.last_word ≤ f / 32
    → in_use m f ≡ false
    → Returns (λ p m'. Returns (λ _ c. SameUse m c) (unmark_page p m')) (find_free_page m)
unmark_page-find m f hi lo free =
    Returns-weaken (λ p m'. (i : ℕ) × (i < n_pages) × IsNextFree m i × Taken m i p m') _
      (find_free_page m) given_back (find_free_page-first m f hi lo free)
  where
    given_back :
        (p : ℕ) (m' : Memory)
        → (i : ℕ) × (i < n_pages) × IsNextFree m i × Taken m i p m'
        → Returns (λ _ c. SameUse m c) (unmark_page p m')
    given_back p m' (i, l, n, t) =
        Returns-weaken (λ _ c. (j : ℕ) → in_use c j ≡ (not (i == j) && in_use m' j))
          (λ _ c. SameUse m c) (unmark_page p m') (λ _ c q. back m m' c i n.1 t.2 q)
          ((mark_page-in_use m' i p l (omega (arith, t.0), omega (arith, t.0))).1)

-- A size that does not go round is rounded up to the next multiple of 8192: the result is a multiple, is
-- not below the size, and no other such number is smaller.
pub round8k-least :
    (amt : ℕ)
    → amt + 8191 < 2 ^ 32
    → (round8k amt % 8192 ≡ 0)
      × (amt ≤ round8k amt)
      × ((n : ℕ) → amt ≤ n * 8192 → round8k amt ≤ n * 8192)
round8k-least amt l = (omega arith, omega arith, λ n h. omega arith)
