-- ===== src/Memory/Table/Lookup.antt =====
-- A translation that is not told to allocate.
use rf.Prelude.{
  ℕ, ◌+◌, ◌/◌, ◌^◌, ◌<◌, ◌≡◌, refl, true, false, ◌||◌, arith, ◌==◌, if◌then◌else◌, Bool-cases, inl,
  inr,
}
use rf.Kernel.Run.{ok}
use rf.Memory.State.{Memory, page_of, unmapped}
use rf.Memory.Table.{
  is_sys, has_entry, entry, get_entry, table_of, in_table, entry_at, table_index,
  get_page_table_entry_address,
}

-- The app has a page directory.
abbrev pub HasDirectory : (h : ℕ) → Memory → Type 0
HasDirectory h m = (is_sys h || m.has_acb h) ≡ true

pub directory_entry : (h i : ℕ) (m : Memory) → HasDirectory h m → i < 256 → has_entry h i m ≡ true
unfolding has_entry
directory_entry h i m d l = elim (Bool-cases (is_sys h)) [
  | inl e ↦ rw e (ground arith)
  | inr e ↦ rw e (ground (arith, e))
]

-- What GetPageTableEntryAddress returns when it is not told to allocate.
unfoldable pub translated : (h a : ℕ) → Memory → ℕ
translated h a m =
    let e = entry h (a / 2 ^ 24) m in
    let p = page_of e + table_index a in
    if e == unmapped then 0 else if m.ram p == unmapped then 0 else p

pub translated_eq :
    (h a : ℕ) (m : Memory)
    → HasDirectory h m
    → a < 2 ^ 32
    → get_page_table_entry_address h a false m ≡ ok (translated h a m) m
unfolding get_page_table_entry_address get_entry table_of in_table entry_at translated
translated_eq h a m d l =
    let b = directory_entry h (a / 2 ^ 24) m d (omega arith) in
    elim (Bool-cases (entry h (a / 2 ^ 24) m == unmapped)) [
      | inl e ↦ rw (b, e) refl
      | inr e ↦
          elim (Bool-cases (m.ram (page_of (entry h (a / 2 ^ 24) m) + table_index a) == unmapped)) [
            | inl r ↦ rw (b, e, r) refl
            | inr r ↦ rw (b, e, r) refl
          ]
    ]
