-- ===== src/Memory/Table/Stable.antt =====
-- A second translation of an address that was translated.
use rf.Prelude.{
  ℕ, suc, ◌+◌, ◌/◌, ◌%◌, ◌^◌, ◌<◌, ◌≡◌, refl, ap, ◌⊎◌, Bool, true, false, arith, ◌==◌, leb, zero,
  ◌∙◌, eq_self, ◌||◌, ne→not_eq, if◌then◌else◌, update, Bool-cases, inl, inr, Option, none, some,
}
use rf.Kernel.Run.{ok, M, Ends, Ends-then, Ends-weaken, Ends-branch, Ends-if}
use rf.Memory.State.{Memory, page_of, unmapped, pam_words}
use rf.Memory.Map.{find_free_page, take_page, find_from, found_or, search_word, wrapped}
use rf.Memory.Map.Find.{WordResult, search_word-result}
use rf.Memory.Table.{
  is_sys, has_entry, entry, get_entry, with_entry, put_entry, clear_table, set_errno, fresh_table,
  new_table, table_of, put_ram, page_flags, new_page, entry_at, table_index, in_table,
  get_page_table_entry_address,
}

-- The linear address is mapped: by the directory of the app and by a page table, whose entry is at `p`.
abbrev pub IsMapped : (h linear p : ℕ) → Memory → Type 0
IsMapped h linear p m =
    (has_entry h (linear / 2 ^ 24) m ≡ true)
    × ((entry h (linear / 2 ^ 24) m == unmapped) ≡ false)
    × (p ≡ page_of (entry h (linear / 2 ^ 24) m) + table_index linear)
    × ((m.ram p == unmapped) ≡ false)

pub mapped_again :
    (h linear p : ℕ) (alloc : Bool) (m : Memory)
    → IsMapped h linear p m
    → get_page_table_entry_address h linear alloc m ≡ ok p m
unfolding get_page_table_entry_address get_entry table_of in_table entry_at
mapped_again h linear p alloc m (b, e, eq, r) =
    let r' : (m.ram (page_of (entry h (linear / 2 ^ 24) m) + table_index linear) == unmapped)
        ≡ false =
      rw eq at r in
    rw (b, e, r', eq) refl

-- What a search for a page changes, and the address it returns.
abbrev pub Kept : Memory → ℕ → Memory → Type 0
Kept m p m' =
    (m' ≡ record m { pam = m'.pam; last_word = m'.last_word }) × (p % 8192 ≡ 0) × (p < 2 ^ 31)

module _ (m : Memory) where
  take-Kept : (nn bit : ℕ) → nn < pam_words → bit < 32 → Ends (Kept m) (take_page nn bit m)
  unfolding take_page
  take-Kept nn bit l b = (refl, omega arith, omega (arith, l, b))

  found-Kept :
      (rest : M Memory ℕ) (nn : ℕ) (o : Option ℕ)
      → Ends (Kept m) (rest m)
      → nn < pam_words
      → WordResult (m.pam nn) o
      → Ends (Kept m) (found_or rest nn o m)
  found-Kept rest nn none ih l r = ih
  found-Kept rest nn (some bit) ih l r = take-Kept nn bit l r.0

  find_from-Kept : (count nn : ℕ) → Ends (Kept m) (find_from count nn m)
  unfolding find_from
  find_from-Kept zero nn = (refl, refl, omega arith)
  find_from-Kept (suc count) nn = elim (Bool-cases (leb pam_words (wrapped nn))) [
    | inl e ↦ rw e tt
    | inr e ↦ rw e (
        found-Kept (find_from count (wrapped nn + 1)) (wrapped nn)
          (search_word (m.pam (wrapped nn))) (find_from-Kept count (wrapped nn + 1)) (ground arith)
          (search_word-result (m.pam (wrapped nn))))
  ]

  pub find_free_page-Kept : Ends (Kept m) (find_free_page m)
  unfolding find_free_page
  find_free_page-Kept = find_from-Kept pam_words m.last_word

entry_put :
    (h i v : ℕ) (m : Memory)
    → (entry h i (with_entry h i v m) ≡ v) × (has_entry h i (with_entry h i v m) ≡ has_entry h i m)
unfolding entry with_entry has_entry
entry_put h i v m = elim (Bool-cases (is_sys h)) [
  | inl e ↦ rw e (ground arith, refl)
  | inr e ↦ rw e (ground arith, refl)
]

-- The directory of the app has the entry `i`, and its value is `t`, a page table.
abbrev HasTable : (h i t : ℕ) → Memory → Type 0
HasTable h i t m = (has_entry h i m ≡ true) × (entry h i m ≡ t) × ((t == unmapped) ≡ false)

-- None, or a page table that is in the directory.
abbrev TableResult : (h i : ℕ) → Option ℕ → Memory → Type 0
TableResult h i none m = Unit
TableResult h i (some t) m = HasTable h i t m

Kept-entry :
    (h i p : ℕ) (m m' : Memory)
    → Kept m p m'
    → (entry h i m' ≡ entry h i m) × (has_entry h i m' ≡ has_entry h i m) × (m'.ram ≡ m.ram)
unfolding entry has_entry
Kept-entry h i p m m' (e, a, b) = (ap (entry h i) e, ap (has_entry h i) e, ap (λ x. x.ram) e)

ram_frame :
    (h i : ℕ) (m : Memory) (f : ℕ → ℕ)
    → (entry h i (record m { ram = f }) ≡ entry h i m)
      × (has_entry h i (record m { ram = f }) ≡ has_entry h i m)
unfolding entry has_entry
ram_frame h i m f = (refl, refl)

frame_ne :
    (h p : ℕ) (m : Memory) → p % 8192 ≡ 0 → p < 2 ^ 31 → (p + page_flags h m == unmapped) ≡ false
unfolding page_flags
frame_ne h p m a l = elim (Bool-cases (is_sys h || m.is_system h)) [
  | inl e ↦ rw e (ne→not_eq _ _ (λ q. omega arith))
  | inr e ↦ rw e (ne→not_eq _ _ (λ q. omega arith))
]

module _ (h i : ℕ) where
  fresh_table-result :
      (pta : ℕ) (m : Memory)
      → has_entry h i m ≡ true
      → pta % 8192 ≡ 0
      → pta < 2 ^ 31
      → Ends (TableResult h i) (fresh_table h i pta m)
  unfolding fresh_table clear_table put_entry
  fresh_table-result pta m b a l =
      let f = λ (x : ℕ). if page_of x == page_of pta then unmapped else m.ram x in
      let r = ram_frame h i m f in
      let p = entry_put h i (pta + 7) (record m { ram = f }) in
      rw (r.1, b) (p.1 ∙ r.1 ∙ b, p.0, ne→not_eq _ _ (λ q. omega arith))

  new_table-result :
      (m : Memory) → has_entry h i m ≡ true → Ends (TableResult h i) (new_table h i m)
  unfolding new_table set_errno
  new_table-result m b =
      Ends-then (Kept m) (TableResult h i) (find_free_page m) _ (find_free_page-Kept m) (λ p m' k.
        let q = Kept-entry h i p m m' k in
        Ends-branch (TableResult h i) (p == unmapped) _ (fresh_table h i p) m' tt
          (fresh_table-result p m' (q.1 ∙ b) k.1 k.2))

  table_of-result :
      (m : Memory) (pta : ℕ)
      → has_entry h i m ≡ true
      → entry h i m ≡ pta
      → Ends (TableResult h i) (table_of true h i pta m)
  unfolding table_of
  table_of-result m pta b e = elim (Bool-cases (pta == unmapped)) [
    | inl u ↦ rw u (new_table-result m b)
    | inr u ↦ rw u (b, e, u)
  ]

-- The pointer is NULL, or the address is mapped.
abbrev Translated : (h linear p : ℕ) → Memory → Type 0
Translated h linear p m = (p ≡ 0) ⊎ IsMapped h linear p m

module _ (h linear t : ℕ) where
  new_page-result :
      (m : Memory)
      → HasTable h (linear / 2 ^ 24) t m
      → Ends (Translated h linear) (new_page h (page_of t + table_index linear) m)
  unfolding new_page put_ram
  new_page-result m b =
      Ends-then (Kept m) (Translated h linear) (find_free_page m) _ (find_free_page-Kept m)
        (λ p m' k.
          let q = Kept-entry h (linear / 2 ^ 24) p m m' k in
          let pte = page_of t + table_index linear in
          let f = update m'.ram pte (p + page_flags h m') in
          let r = ram_frame h (linear / 2 ^ 24) m' f in
          let e : entry h (linear / 2 ^ 24) (record m' { ram = f }) ≡ t = r.0 ∙ q.0 ∙ b.1 in
          let own : (f pte == unmapped) ≡ false = rw (eq_self pte) (frame_ne h p m' k.1 k.2) in
          Ends-if (Translated h linear) (p == 0) (ok 0 m') (ok pte (record m' { ram = f }))
            (inl refl) (inr (r.1 ∙ q.1 ∙ b.0, rw e b.2, rw e refl, own)))

  entry_at-result :
      (m : Memory)
      → HasTable h (linear / 2 ^ 24) t m
      → Ends (Translated h linear) (entry_at true h (page_of t + table_index linear) m)
  unfolding entry_at
  entry_at-result m b = elim (Bool-cases (m.ram (page_of t + table_index linear) == unmapped)) [
    | inl u ↦ rw u (new_page-result m b)
    | inr u ↦ rw u (inr (b.0, rw b.1 b.2, rw b.1 refl, u))
  ]

module _ (h linear : ℕ) where
  in_table-result :
      (o : Option ℕ) (m : Memory)
      → TableResult h (linear / 2 ^ 24) o m
      → Ends (Translated h linear) (in_table true h linear o m)
  unfolding in_table
  in_table-result none m b = inl refl
  in_table-result (some t) m b = entry_at-result h linear t m b

  get-result :
      (m : Memory) → Ends (Translated h linear) (get_page_table_entry_address h linear true m)
  unfolding get_page_table_entry_address get_entry
  get-result m = elim (Bool-cases (has_entry h (linear / 2 ^ 24) m)) [
    | inl b ↦ rw b (
        Ends-then (TableResult h (linear / 2 ^ 24)) (Translated h linear)
          (table_of true h (linear / 2 ^ 24) (entry h (linear / 2 ^ 24) m) m)
          (in_table true h linear)
          (table_of-result h (linear / 2 ^ 24) m (entry h (linear / 2 ^ 24) m) b refl)
          in_table-result)
    | inr b ↦ rw b tt
  ]

-- Where GetPageTableEntryAddress, told to allocate, returns a pointer that is not NULL, the address is
-- mapped: each later call for the same address, told to allocate or not, returns the same pointer and
-- changes nothing.
pub get_page_table_entry_address-again :
    (h linear : ℕ) (m : Memory)
    → Ends
        (λ p m'.
          (p ≡ 0) ⊎ ((alloc : Bool) → get_page_table_entry_address h linear alloc m' ≡ ok p m'))
        (get_page_table_entry_address h linear true m)
get_page_table_entry_address-again h linear m =
    Ends-weaken (Translated h linear) _ (get_page_table_entry_address h linear true m) again
      (get-result h linear m)
  where
    again :
        (p : ℕ) (m' : Memory)
        → Translated h linear p m'
        → (p ≡ 0) ⊎ ((alloc : Bool) → get_page_table_entry_address h linear alloc m' ≡ ok p m')
    again p m' (inl z) = inl z
    again p m' (inr q) = inr (λ alloc. mapped_again h linear p alloc m' q)
