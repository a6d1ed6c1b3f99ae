-- ===== src/Memory/Run.antt =====
-- software/Femtiki/source/memmgnt3.c: runs of pages in the linear address space, and the page tables that
-- are added for them.
pub mod Found
use rf.Prelude.{
  ℕ, zero, suc, ◌+◌, ◌-◌, ◌*◌, ◌/◌, ◌%◌, ◌^◌, Bool, true, false, ◌||◌, ◌&&◌, not, ◌==◌, ltb, leb,
  Option, none, some, if◌then◌else◌,
}
use rf.Kernel.Config.{ℤ, pos, negsuc, neg, e_ok, e_arg}
use rf.Kernel.Run.{ok, spin, M, Run, ◌>>=◌, ◌>>◌}
use rf.Memory.Bits.{set_bit, clear_bit}
use rf.Memory.State.{Memory, signed_lt, page_of, unmapped, e_no_mem, log, waited, sent}
use rf.Memory.Table.{get_entry, put_entry, alloc_page_table, linear_to_physical, put_long}
use rf.Msg.Pool.{u32}

-- The inner loop of FindRun. It counts pages down and advances `ndx` and `pde`, but it reads no further
-- entry: `pdeu` keeps its value. `la` is the address in the entry `spde`, which it returns at the end.
unfoldable pub count_run : (fuel pc la : ℕ) → M Memory ℕ
count_run zero pc la m = spin
count_run (suc fuel) pc la m =
    let rest = count_run fuel (u32 (pc + 0xffff_ffff)) la m in
    if u32 (pc + 0xffff_ffff) == 0 then ok la m else rest

-- The number of turns of the inner loop: from 0 the count goes round.
abbrev pub run_fuel : (pc : ℕ) → ℕ
run_fuel pc = if pc == 0 then 2 ^ 32 else pc

-- The outer loop of FindRun, with `n` entries left before the end of the search. `i` is the index of
-- `pde`, which each turn advances by `ndx`. It returns in the turn that finds an unused entry, so `pc` is
-- `num_pages` in each turn.
unfoldable pub search_run : (n ndx i num_pages : ℕ) → M Memory ℕ
search_run zero ndx i num_pages m = ok 0 m
search_run (suc n) ndx i num_pages m =
    let rest = search_run n (ndx + 1) (i + ndx) num_pages in
    (get_entry m.running_appid (i + ndx) >>= λ pdeu.
    if pdeu == unmapped then count_run (run_fuel num_pages) num_pages (page_of pdeu) else rest)
      m

-- FindRun
unfoldable pub find_run : (search_area : Bool) → (num_pages : ℕ) → M Memory ℕ
find_run search_area num_pages =
    if search_area then search_run 120 8 0 num_pages else search_run 128 128 0 num_pages

-- `present`, `s`, `r`, `w` are set in an entry: the bits 13, 3, 2, 1.
abbrev pub entry_flags : (s : Bool) → ℕ → ℕ
entry_flags s l =
    let p = set_bit l 13 in set_bit (set_bit (if s then set_bit p 3 else clear_bit p 3) 2) 1

-- The index of the first unused entry of a directory, among `n` from `ndx` on.
unfoldable pub unused_entry : (h n ndx : ℕ) → M Memory (Option ℕ)
unused_entry h zero ndx m = ok none m
unused_entry h (suc n) ndx m =
    let rest = unused_entry h n (ndx + 1) in
    (get_entry h ndx >>= λ pdeu. if pdeu == unmapped then ok (some ndx) else rest) m

-- pNextPT is given a new page table.
unfoldable pub next_table : M Memory ℤ
next_table m = (alloc_page_table >>= λ p m'. ok (pos e_ok) (record m' { next_pt = p })) m

-- The body of the loop of AddUserPageTable for an unused entry. An executable entry (bit 0) is put into the
-- upper half.
unfoldable pub add_user_entry : (junk ndx : ℕ) → M Memory ℤ
add_user_entry junk ndx m =
    (linear_to_physical junk m.running_appid m.next_pt >>= λ phys.
    put_entry m.running_appid ndx (entry_flags false phys) >> λ m'.
    (put_entry m.running_appid (ndx + 256) (set_bit (entry_flags false (page_of m'.next_pt)) 0)
        >> next_table)
      m')
      m

unfoldable pub add_user_found : (junk : ℕ) → Option ℕ → M Memory ℤ
add_user_found junk none = ok (neg e_no_mem)
add_user_found junk (some ndx) = add_user_entry junk ndx

-- AddUserPageTable
unfoldable pub add_user_page_table : (junk : ℕ) → M Memory ℤ
add_user_page_table junk m =
    if m.pages_free == 0
    then ok (pos e_no_mem) m
    else (unused_entry m.running_appid 120 8 >>= add_user_found junk) m

-- The entry of a new system page table in the directory of an app or of the system.
unfoldable pub add_system_entry : (phys h ndx : ℕ) → M Memory Unit
add_system_entry phys h ndx m =
    (put_entry h ndx (entry_flags true phys) >> put_entry h (ndx + 256) (page_of m.next_pt)) m

-- The same entry in the directory of each app from `ha` on, among `n`.
unfoldable pub add_to_apps : (n phys ha ndx : ℕ) → M Memory Unit
add_to_apps zero phys ha ndx m = ok tt m
add_to_apps (suc n) phys ha ndx m =
    let rest = add_to_apps n phys (ha + 1) ndx in
    (if m.has_acb ha then (add_system_entry phys ha ndx >> rest) else rest) m

unfoldable pub add_system_found : (phys : ℕ) → Option ℕ → M Memory ℤ
add_system_found phys none = ok (neg e_no_mem)
add_system_found phys (some ndx) = do
  add_system_entry phys 1 ndx
  add_to_apps 31 phys 2 ndx
  next_table

-- AddSystemPageTable
unfoldable pub add_system_page_table : (junk : ℕ) → M Memory ℤ
add_system_page_table junk m =
    if m.pages_free == 0
    then ok (pos e_no_mem) m
    else if m.next_pt == 0
    then ok (pos e_no_mem) m
    else (linear_to_physical junk 1 m.next_pt >>= λ phys.
          if phys == 0
          then ok (pos e_no_mem)
          else (unused_entry 1 128 128 >>= add_system_found phys))
        m

abbrev pub is_ok : ℤ → Bool
is_ok (pos n) = n == 0
is_ok (negsuc n) = false

-- A run, or the error that there is no memory.
pub data RunResult : Type 0 where
  found : (page : ℕ) (re : ℤ) → RunResult
  refused : ℤ → RunResult

-- The loop of FMTK_AllocPages and of FMTK_AllocSystemPages, and that of FMTK_AliasMem: a run is looked for,
-- and a page table added where there is none. `re` is the variable of that name.
unfoldable pub run_loop :
    (fuel : ℕ) → (find : M Memory ℕ) → (add : M Memory ℤ) → (re : ℤ) → M Memory RunResult
run_loop zero find add re m = spin
run_loop (suc fuel) find add re m =
    let rest = run_loop fuel find add in
    (find >>= λ page.
    if page == 0
    then (add >>= λ e. if is_ok e then rest e else ok (refused e))
    else ok (found page re))
      m

-- The run is put where the caller wants it.
unfoldable pub give_run : (ppAddr : ℕ) → RunResult → M Memory ℤ
give_run ppAddr (refused e) = ok e
give_run ppAddr (found page re) = do put_long ppAddr page; ok re

-- The turns that the loop is given. Each turn but the last puts a page table into a directory, which has
-- no room for so many.
abbrev pub run_turns : ℕ
run_turns = 2048

-- Between the two messages. `re` is what that variable holds before it is given a value.
unfoldable pub alloc_run :
    (junk : ℕ) → (re : ℤ) → (user : Bool) → (num_pages ppAddr : ℕ) → M Memory ℤ
alloc_run junk re user num_pages ppAddr m =
    if signed_lt m.pages_free num_pages
    then ok (neg e_no_mem) m
    else (run_loop run_turns (find_run user num_pages)
            (if user then add_user_page_table junk else add_system_page_table junk) re
          >>= give_run ppAddr)
        m

unfoldable pub alloc_pages_of :
    (junk : ℕ) → (re : ℤ) → (user : Bool) → (num_pages ppAddr : ℕ) → M Memory ℤ
alloc_pages_of junk re user num_pages ppAddr =
    if num_pages == 0 || ppAddr == 0
    then ok (pos e_arg)
    else (do log waited; r ← alloc_run junk re user num_pages ppAddr; log sent; ok r)

-- FMTK_AllocSystemPages
abbrev pub alloc_system_pages : (junk : ℕ) → (re : ℤ) → (num_pages ppAddr : ℕ) → M Memory ℤ
alloc_system_pages junk re num_pages ppAddr = alloc_pages_of junk re false num_pages ppAddr

-- FMTK_AllocPages
abbrev pub alloc_pages : (junk : ℕ) → (re : ℤ) → (num_pages ppAddr : ℕ) → M Memory ℤ
alloc_pages junk re num_pages ppAddr = alloc_pages_of junk re true num_pages ppAddr
