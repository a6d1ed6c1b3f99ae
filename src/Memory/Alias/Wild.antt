-- ===== src/Memory/Alias/Wild.antt =====
-- FMTK_AliasMem for a page of another app.
use rf.Prelude.{
  ℕ, suc, ◌+◌, ◌*◌, ◌/◌, ◌%◌, ◌^◌, ◌<◌, ◌≡◌, refl, true, false, ◌||◌, ◌&&◌, arith, ◌==◌, not,
  update,
}
use rf.Kernel.Config.{ℤ, pos, e_ok}
use rf.Kernel.Run.{ok, Returns}
use rf.Memory.Bits.{has_bit, set_bit, clear_bit, has-set, has-clear}
use rf.Memory.State.{Memory, page_of, unmapped}
use rf.Memory.Table.{entry, get_entry, linear_to_physical, put_ram, put_long}
use rf.Memory.Table.Stable.{IsMapped, mapped_again}
use rf.Memory.Table.Lookup.{HasDirectory, directory_entry}
use rf.Memory.Run.{found, find_run, search_run, count_run, add_user_page_table}
use rf.Memory.Run.Found.{last_page, run_found}
use rf.Memory.Alias.{
  alias_flags, share, add_alias, alias_table, alias_run, add_alias_run, pages_needed, add_found,
  alias_mem,
}

-- `e` is the word `l` as the entry of the last page of a run: the bits x, w, r, end_of_run, alias and present
-- are set, s is clear.
abbrev pub IsAliasEntry : (l e : ℕ) → Type 0
IsAliasEntry l e =
    (j : ℕ)
    → has_bit e j ≡ (
        (11 == j)
        || ((0 == j)
            || ((1 == j)
                || ((2 == j) || (not (3 == j) && ((12 == j) || ((13 == j) || has_bit l j)))))))

alias_flags-IsAliasEntry : (l : ℕ) → IsAliasEntry l (alias_flags true l)
alias_flags-IsAliasEntry l j =
    let p = set_bit (set_bit l 13) 12 in
    let c = clear_bit p 3 in
    let w2 = set_bit c 2 in
    let w1 = set_bit w2 1 in
    let w0 = set_bit w1 0 in
    rw
      (
        has-set w0 11 j,
        has-set w1 0 j,
        has-set w2 1 j,
        has-set c 2 j,
        has-clear p 3 j,
        has-set (set_bit l 13) 12 j,
        has-set l 13 j,
      )
      refl

-- The words of memory after the page was aliased by a table at `t`: two entries, and the address that the
-- caller is given at `pp`.
abbrev pub Aliased : (wild : ℕ → ℕ) → (pMem p pp : ℕ) → Memory → ℤ → Memory → Type 0
Aliased wild pMem p pp m r c =
    let t = wild 1 / 8192 * 8192 in
    let i = p / 8192 % 2 ^ 17 in
    (r ≡ pos 0)
    × (e f : ℕ) × IsAliasEntry (p / 8192 * 8192) e
    × IsAliasEntry 0xffff_e000 f
    × (c ≡ record m {
      ram = update (update (update m.ram (t + 8188) e) (t + 9212) f) pp (0xffff_e000 + pMem);
      share_count = update m.share_count i ((m.share_count i + 1) % 256);
    })

module _ (wild : ℕ → ℕ) (junk pMem pp hApp p : ℕ) (m : Memory) (mapped : IsMapped hApp pMem p m)
    (some_p : (p == 0) ≡ false) where
  physical : linear_to_physical junk hApp pMem m ≡ ok (page_of p + junk % 2 ^ 13) m
  unfolding linear_to_physical
  physical = rw (mapped_again hApp pMem p true m mapped, some_p) refl

  -- The state after the entries were written.
  abbrev with_alias : Memory
  with_alias =
      let t = page_of (wild 1) in
      let i = p / 2 ^ 13 % 2 ^ 17 in
      record m {
        ram =
            update (update m.ram (t + 8188) (alias_flags true (page_of p))) (t + 9212)
              (alias_flags true 0xffff_e000);
        share_count = update m.share_count i ((m.share_count i + 1) % 256);
      }

  one_alias : add_alias_run wild junk 1 last_page pMem hApp m ≡ ok tt with_alias
  unfolding add_alias_run add_alias alias_table put_ram share
  one_alias =
      let q : page_of (page_of p + junk % 2 ^ 13) ≡ page_of p = omega arith in
      let i : (page_of p + junk % 2 ^ 13) / 2 ^ 13 % 2 ^ 17 ≡ p / 2 ^ 13 % 2 ^ 17 = omega arith in
      rw (physical, q, i) refl

  given_run :
      (cbMem : ℕ)
      → pMem < 8192
      → cbMem < 8192
      → (pp == 0) ≡ false
      → (pp == m.next_pt_at) ≡ false
      → Returns
          (Aliased wild pMem p pp m)
          (add_found wild junk pMem cbMem hApp pp (found last_page (pos e_ok)) m)
  unfolding add_found put_long
  given_run cbMem l k z n =
      let one : pages_needed pMem cbMem ≡ 1 = omega arith in
      let small : pMem % 8192 ≡ pMem = omega arith in
      rw (one, one_alias, z, n, small)
        (
          refl,
          alias_flags true (page_of p),
          alias_flags true 0xffff_e000,
          alias_flags-IsAliasEntry (page_of p),
          alias_flags-IsAliasEntry 0xffff_e000,
          refl,
        )

-- A run for one page is found at the first unused entry of the user's part of the directory.
search_hit :
    (n ndx i : ℕ) (m : Memory)
    → HasDirectory m.running_appid m
    → i + ndx < 256
    → entry m.running_appid (i + ndx) m ≡ unmapped
    → search_run (suc n) ndx i 1 m ≡ ok last_page m
unfolding search_run count_run get_entry
search_hit n ndx i m d l e = rw (directory_entry m.running_appid (i + ndx) m d l, e) refl

first_run :
    (m : Memory)
    → HasDirectory m.running_appid m
    → entry m.running_appid 8 m ≡ unmapped
    → find_run true 1 m ≡ ok last_page m
unfolding find_run
first_run m d e = search_hit 119 8 0 m d (omega arith) e

-- FMTK_AliasMem of memory below 8192, less than a page, of an app that is not the system's and not the running
-- one, where that page is mapped for this app, the running app has a page directory, the first entry in it that
-- FindRun looks at is unused, and the pointer for the result is neither null nor the address of pNextPT. It
-- returns E_Ok, but the caller is given an address in the last page of the address space. The entry for it is
-- written into the page that the word before the running app's directory tells, and it leads to the page that
-- holds the entry of the memory in the app's page table, not to the memory; the share count of the former page
-- is raised. A second word is written behind the page of the table. Nothing else changes.
pub alias_mem-wild :
    (wild : ℕ → ℕ) (junk pMem cbMem hApp pp p : ℕ) (m : Memory)
    → (hApp == m.running_appid) ≡ false
    → m.has_acb hApp ≡ true
    → m.is_system hApp ≡ false
    → HasDirectory m.running_appid m
    → entry m.running_appid 8 m ≡ unmapped
    → pMem < 8192
    → cbMem < 8192
    → IsMapped hApp pMem p m
    → 0 < p
    → 0 < pp
    → (pp == m.next_pt_at) ≡ false
    → Returns (Aliased wild pMem p pp m) (alias_mem wild junk pMem cbMem hApp pp m)
unfolding alias_mem alias_run
alias_mem-wild wild junk pMem cbMem hApp pp p m other acb user d e l k mapped v w n =
    let one : pages_needed pMem cbMem ≡ 1 = omega arith in
    let p0 : (p == 0) ≡ false = ground (arith, v) in
    let pp0 : (pp == 0) ≡ false = ground (arith, w) in
    let run =
      run_found (find_run true 1) (add_user_page_table junk) (pos e_ok) m (first_run m d e) in
    rw (other, acb, user, one, run) (given_run wild junk pMem pp hApp p m mapped p0 cbMem l k pp0 n)
