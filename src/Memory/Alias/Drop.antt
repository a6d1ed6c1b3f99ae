-- ===== src/Memory/Alias/Drop.antt =====
-- What FMTK_DeAliasMem changes.
pub mod Turn
use mathlib.Core.Path.{subst}
use rf.Prelude.{
  ℕ, zero, suc, ◌+◌, ◌-◌, ◌*◌, ◌/◌, ◌%◌, ◌^◌, ◌<◌, ◌≤◌, ◌≡◌, refl, sym, Bool, true, false, ◌&&◌,
  not, arith, ◌==◌, ==-eq, ltb, leb, if◌then◌else◌, update, Bool-cases, inl, inr, ◌⊎◌, eq_self,
}
use rf.Kernel.Config.{ℤ, pos}
use rf.Kernel.Run.{Returns, Returns-case, ok}
use rf.Memory.Bits.{has_bit}
use rf.Memory.State.{Memory, page_of, unmapped, mem_page_size}
use rf.Memory.Table.{entry, table_index}
use rf.Memory.Table.Lookup.{HasDirectory, translated, translated_eq}
use rf.Memory.Alias.Drop.Turn.{
  is_alias, ends_run, NoEnd, AtTurn, Dropped, with_ram, same_entry, drop_eq, page_entry, next_ram,
  next_share, Words, next-Words, next-NoAlias, next_shares, left_off, passed,
}
use rf.Memory.Alias.{drop_alias, de_alias_loop, de_alias_mem, length_left}
use rf.Msg.Pool.{u32}

module _ (m : Memory) (h a : ℕ) where
  loop-Dropped :
      (d : HasDirectory h m) (fuel i len : ℕ) (f g : ℕ → ℕ)
      → len - i * 8192 < fuel
      → i * 8192 < len + 8192
      → NoEnd m h a i
      → AtTurn m h a i f g
      → Returns (Dropped m h a len) (
          de_alias_loop fuel h
            ((page_of a + i * 8192) % 2 ^ 32)
            (len - i * 8192)
            (with_ram m h a f g))
  unfolding de_alias_loop
  loop-Dropped d zero i len f g l b e t = absurd (omega arith)
  loop-Dropped d (suc fuel) i len f g l b e (w, q, s) = elim (Bool-cases (len - i * 8192 == 0)) [
    | inl z ↦ rw z (i, b, inl (refl, ground arith, e), (λ x. left_off m h a i f w x), q, s, refl)
    | inr z ↦
        let addr = (page_of a + i * 8192) % 2 ^ 32 in
        let k = with_ram m h a f g in
        let tr = translated_eq h addr k d (omega arith) in
        let same = same_entry m h a i f g w addr in
        let next : u32 (addr + mem_page_size) ≡ (page_of a + suc i * 8192) % 2 ^ 32 = omega arith in
        let more : ltb 0 (len - suc i * 8192) ≡ ltb (suc i * 8192) len = ground arith in
        let left : length_left (len - i * 8192) ≡ len - suc i * 8192 = omega arith in
        rw (z, tr, same, drop_eq m h a i f g w, next, left)
          (Returns-case (Dropped m h a len) (ends_run m (page_entry m h a i)) _ _
            (with_ram m h a (next_ram m h a i f) (next_share m h a i f g))
            (λ y. (
              suc i,
              ground (arith, z),
              inr (i, refl, e, y, (rw more refl)),
              subst (λ b. Words m h a (not b) (suc i) (next_ram m h a i f)) y
                  (next-Words m h a i f w),
              next-NoAlias m h a i f g q,
              next_shares m h a i f g s,
              refl,
            ))
            (λ y.
              loop-Dropped d fuel (suc i) len (next_ram m h a i f) (next_share m h a i f g)
                (ground (arith, z)) (ground (arith, z)) (passed m h a i e y)
                (
                  subst (λ b. Words m h a (not b) (suc i) (next_ram m h a i f)) y
                      (next-Words m h a i f w),
                  next-NoAlias m h a i f g q,
                  next_shares m h a i f g s,
                )))
  ]

-- FMTK_DeAliasMem for an app that has a page directory returns. It treats the pages of the range in order, up
-- to the first one whose entry ends a run, and returns E_BadAlias if more of the range is left then, else
-- E_Ok. Of these pages, each entry with the alias bit is replaced by one that is no alias, and none of them
-- is an alias then. All other words of memory and all other state are as before, but for the share count of
-- page 0. A negative length is no page.
pub de_alias_mem-Dropped :
    (h a len : ℕ) (m : Memory)
    → HasDirectory h m
    → a < 2 ^ 32
    → Returns (Dropped m h a (if leb (2 ^ 31) len then 0 else len)) (de_alias_mem h a len m)
unfolding de_alias_mem
de_alias_mem-Dropped h a len m d l =
    let n = if leb (2 ^ 31) len then 0 else len in
    let start : (page_of a + 0 * 8192) % 2 ^ 32 ≡ page_of a = omega arith in
    let all : n - 0 * 8192 ≡ n = omega arith in
    subst (λ x. Returns (Dropped m h a n) (de_alias_loop (suc n) h x n m)) start
      (subst
        (λ y.
          Returns (Dropped m h a n) (de_alias_loop (suc n) h ((page_of a + 0 * 8192) % 2 ^ 32) y m))
        all
        (loop-Dropped m h a d (suc n) 0 n m.ram m.share_count (omega arith) (omega arith)
          (λ i b. absurd (omega arith)) (λ x. inl refl, λ i b. absurd (omega arith), λ x b. refl)))
