-- ===== src/Memory/Alias/Drop/Turn.antt =====
-- One turn of the loop of FMTK_DeAliasMem.
use mathlib.Core.Path.{subst}
use rf.Prelude.{
  ℕ, suc, ◌+◌, ◌*◌, ◌/◌, ◌%◌, ◌^◌, ◌<◌, ◌≤◌, ◌≡◌, refl, sym, Bool, true, false, ◌&&◌, not, arith,
  ◌==◌, ==-eq, ltb, if◌then◌else◌, update, Bool-cases, inl, inr, ◌⊎◌, eq_self,
}
use rf.Kernel.Config.{ℤ, pos}
use rf.Kernel.Run.{ok}
use rf.Memory.Bits.{has_bit}
use rf.Memory.State.{Memory, page_of, unmapped}
use rf.Memory.Table.{entry, table_index}
use rf.Memory.Table.Lookup.{translated}
use rf.Memory.Alias.{drop_alias}

-- There is an entry at `p` with the alias bit, and one with the bit of the end of a run.
abbrev pub is_alias : (m : Memory) (p : ℕ) → Bool
is_alias m p = not (p == 0) && has_bit (m.ram p) 12

abbrev pub ends_run : (m : Memory) (p : ℕ) → Bool
ends_run m p = not (p == 0) && has_bit (m.ram p) 11

and-false : (b c : Bool) → c ≡ false → (b && c) ≡ false
and-false true c e = e
and-false false c e = refl

not-and : (b : Bool) → (not b && b) ≡ false
not-and true = refl
not-and false = refl

module _ (m : Memory) (h a : ℕ) where
  -- The address of the entry of page `i`, in the page tables at the start; 0 if it is not mapped.
  abbrev pub page_entry : (i : ℕ) → ℕ
  page_entry i = translated h ((page_of a + i * 8192) % 2 ^ 32) m

  -- The words after `n` pages: each is as before, or it was the entry of one of these pages, with the alias
  -- bit, and is now that of the page 0x3ffff, present and no alias (the bits 13 and 12), which the system may
  -- read and write. With `goes`, the entries that were replaced did not end a run.
  abbrev pub Words : (goes : Bool) (n : ℕ) → (ℕ → ℕ) → Type 0
  Words goes n f =
      (x : ℕ)
      → (f x ≡ m.ram x)
        ⊎ (((i : ℕ) × (i < n) × (page_entry i ≡ x))
            × (is_alias m x ≡ true)
            × ((goes && has_bit (m.ram x) 11) ≡ false)
            × (f x ≡ 0xffff_e00e))

  -- None of the first `n` pages is an alias, or the end of a run.
  abbrev pub NoAlias : (n : ℕ) → Memory → Type 0
  NoAlias n c = (i : ℕ) → i < n → is_alias c (page_entry i) ≡ false

  abbrev pub NoEnd : (n : ℕ) → Type 0
  NoEnd n = (i : ℕ) → i < n → ends_run m (page_entry i) ≡ false

  -- The memory with other words and share counts.
  abbrev pub with_ram : (f g : ℕ → ℕ) → Memory
  with_ram f g = record m { ram = f; share_count = g }

  -- How it ends after `n` pages: these were all of them, or the last one ends a run.
  abbrev pub Last : (len n : ℕ) → ℤ → Type 0
  Last len n r =
      ((r ≡ pos 0) × (len ≤ n * 8192) × NoEnd n)
      ⊎ ((i : ℕ) × (n ≡ suc i)
          × NoEnd i
          × (ends_run m (page_entry i) ≡ true)
          × (r ≡ pos (if ltb (n * 8192) len then 23 else 0)))

  abbrev pub Dropped : (len : ℕ) → ℤ → Memory → Type 0
  Dropped len r c =
      (n : ℕ) × (n * 8192 < len + 8192)
      × Last len n r
      × Words false n c.ram
      × NoAlias n c
      × ((x : ℕ) → 0 < x → c.share_count x ≡ m.share_count x)
      × (c ≡ with_ram c.ram c.share_count)

  -- The loop is at page `i` with these words and counts.
  abbrev pub AtTurn : (i : ℕ) (f g : ℕ → ℕ) → Type 0
  AtTurn i f g =
      Words true i f × NoAlias i (with_ram f g) × ((x : ℕ) → 0 < x → g x ≡ m.share_count x)

  -- A word that was replaced is no end of a run and is mapped, as it was before.
  pub same_end :
      (i : ℕ) (f : ℕ → ℕ) → Words true i f → (x : ℕ) → has_bit (f x) 11 ≡ has_bit (m.ram x) 11
  unfolding has_bit
  same_end i f w x = elim (w x) [ inl e ↦ rw e refl | inr r ↦ rw (r.3, r.2) refl ]

  pub same_mapped :
      (i : ℕ) (f : ℕ → ℕ) → Words true i f → (x : ℕ) → (f x == unmapped) ≡ (m.ram x == unmapped)
  unfolding has_bit
  same_mapped i f w x = elim (w x) [
    | inl e ↦ rw e refl
    | inr r ↦ elim (Bool-cases (m.ram x == unmapped)) [
      | inr n ↦ rw (r.3, n) refl
      | inl u ↦
          let eq : m.ram x ≡ unmapped = ==-eq (m.ram x) unmapped u in
          let b : has_bit (m.ram x) 11 ≡ false = r.2 in
          let c : has_bit unmapped 11 ≡ false = rw eq at b in cc
    ]
  ]

  pub same_entry :
      (i : ℕ) (f g : ℕ → ℕ)
      → Words true i f
      → (b : ℕ) → translated h b (with_ram f g) ≡ translated h b m
  unfolding translated entry
  same_entry i f g w b =
      let p = page_of (entry h (b / 2 ^ 24) m) + table_index b in rw (same_mapped i f w p) refl

  -- The words and counts after an entry.
  abbrev pub next_ram : (i : ℕ) (f : ℕ → ℕ) → ℕ → ℕ
  next_ram i f =
      if is_alias (with_ram f f) (page_entry i) then update f (page_entry i) 0xffff_e00e else f

  abbrev pub next_share : (i : ℕ) (f g : ℕ → ℕ) → ℕ → ℕ
  next_share i f g =
      if is_alias (with_ram f f) (page_entry i) then update g 0 ((g 0 + 255) % 256) else g

  pub drop_eq :
      (i : ℕ) (f g : ℕ → ℕ)
      → Words true i f
      → drop_alias (page_entry i) (with_ram f g)
        ≡ ok (ends_run m (page_entry i)) (with_ram (next_ram i f) (next_share i f g))
  unfolding drop_alias
  drop_eq i f g w = elim (Bool-cases (page_entry i == 0)) [
    | inl z ↦ rw z refl
    | inr z ↦ elim (Bool-cases (has_bit (f (page_entry i)) 12)) [
      | inl b ↦ rw (z, b, same_end i f w (page_entry i)) refl
      | inr b ↦ rw (z, b, same_end i f w (page_entry i)) refl
    ]
  ]

  pub widen :
      (i : ℕ) (f : ℕ → ℕ)
      → Words true i f
      → (b : Bool) (x : ℕ)
      → (f x ≡ m.ram x)
        ⊎ (((j : ℕ) × (j < suc i) × (page_entry j ≡ x))
            × (is_alias m x ≡ true)
            × ((b && has_bit (m.ram x) 11) ≡ false)
            × (f x ≡ 0xffff_e00e))
  widen i f w b x = elim (w x) [
    | inl e ↦ inl e
    | inr r ↦
        inr ((r.0.0, omega (arith, r.0.1), r.0.2), r.1, and-false b (has_bit (m.ram x) 11) r.2, r.3)
  ]

  -- An alias that the loop meets is as it was at the start.
  pub first_time :
      (i : ℕ) (f : ℕ → ℕ)
      → Words true i f
      → (p : ℕ) → is_alias (with_ram f f) p ≡ true
      → f p ≡ m.ram p
  unfolding has_bit
  first_time i f w p e = elim (w p) [
    | inl s ↦ s
    | inr r ↦ let b : (not (p == 0) && false) ≡ true = rw r.3 at e in ground (arith, b)
  ]

  pub was_alias :
      (i : ℕ) (f : ℕ → ℕ)
      → Words true i f
      → is_alias (with_ram f f) (page_entry i) ≡ true
      → is_alias m (page_entry i) ≡ true
  was_alias i f w e = let s = first_time i f w (page_entry i) e in rw s at e

  pub not_both :
      (i : ℕ) (f : ℕ → ℕ)
      → Words true i f
      → is_alias (with_ram f f) (page_entry i) ≡ true
      → (not (ends_run m (page_entry i)) && has_bit (m.ram (page_entry i)) 11) ≡ false
  not_both i f w e =
      let z : (page_entry i == 0) ≡ false = ground (arith, e) in
      rw z (not-and (has_bit (m.ram (page_entry i)) 11))

  -- The words after page `i`.
  pub next-Words :
      (i : ℕ) (f : ℕ → ℕ)
      → Words true i f
      → Words (not (ends_run m (page_entry i))) (suc i) (next_ram i f)
  next-Words i f w x = elim (Bool-cases (is_alias (with_ram f f) (page_entry i))) [
    | inr e ↦ rw e (widen i f w (not (ends_run m (page_entry i))) x)
    | inl e ↦ elim (Bool-cases (page_entry i == x)) [
      | inr s ↦ rw (e, s) (widen i f w (not (ends_run m (page_entry i))) x)
      | inl s ↦
          let eq : page_entry i ≡ x = ==-eq (page_entry i) x s in
          rw (e, s)
            (inr (
              (i, omega arith, eq),
              subst (λ y. is_alias m y ≡ true) eq (was_alias i f w e),
              subst (λ y. (not (ends_run m (page_entry i)) && has_bit (m.ram y) 11) ≡ false) eq
                  (not_both i f w e),
              refl,
            ))
    ]
  ]

  pub apart : (i j : ℕ) → (page_entry i == page_entry j) ≡ false → (i == j) ≡ false
  apart i j n = elim (Bool-cases (i == j)) [
    | inr s ↦ s
    | inl s ↦
        let eq : j ≡ i = sym (==-eq i j s) in
        let own : (page_entry i == page_entry i) ≡ false =
          subst (λ y. (page_entry i == page_entry y) ≡ false) eq n in
        let yes = eq_self (page_entry i) in cc
  ]

  pub next-NoAlias :
      (i : ℕ) (f g : ℕ → ℕ)
      → NoAlias i (with_ram f g)
      → NoAlias (suc i) (with_ram (next_ram i f) (next_share i f g))
  unfolding has_bit
  next-NoAlias i f g k j l = elim (Bool-cases (is_alias (with_ram f f) (page_entry i))) [
    | inl e ↦ elim (Bool-cases (page_entry i == page_entry j)) [
      | inl s ↦ rw (e, s) (and-false (not (page_entry j == 0)) false refl)
      | inr s ↦ let n = apart i j s in rw (e, s) (k j (ground (arith, n)))
    ]
    | inr e ↦ elim (Bool-cases (i == j)) [
      | inl s ↦ let eq : i ≡ j = ==-eq i j s in rw e (rw eq at e)
      | inr s ↦ rw e (k j (ground (arith, s)))
    ]
  ]

  pub next_shares :
      (i : ℕ) (f g : ℕ → ℕ)
      → ((x : ℕ) → 0 < x → g x ≡ m.share_count x)
      → (x : ℕ) → 0 < x
      → next_share i f g x ≡ m.share_count x
  next_shares i f g h x p = elim (Bool-cases (is_alias (with_ram f f) (page_entry i))) [
    | inl e ↦ let q : (0 == x) ≡ false = ground arith in rw (e, q) (h x p)
    | inr e ↦ rw e (h x p)
  ]

  pub left_off :
      (i : ℕ) (f : ℕ → ℕ)
      → Words true i f
      → (x : ℕ)
      → (f x ≡ m.ram x)
        ⊎ (((j : ℕ) × (j < i) × (page_entry j ≡ x))
            × (is_alias m x ≡ true)
            × (false ≡ false)
            × (f x ≡ 0xffff_e00e))
  left_off i f w x = elim (w x) [ inl e ↦ inl e | inr r ↦ inr (r.0, r.1, refl, r.3) ]

  pub passed : (i : ℕ) → NoEnd i → ends_run m (page_entry i) ≡ false → NoEnd (suc i)
  passed i n e j l = elim (Bool-cases (i == j)) [
    | inl s ↦ let eq : i ≡ j = ==-eq i j s in subst (λ y. ends_run m (page_entry y) ≡ false) eq e
    | inr s ↦ n j (ground (arith, s))
  ]
