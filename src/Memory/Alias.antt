-- ===== src/Memory/Alias.antt =====
-- software/Femtiki/source/memmgnt3.c: memory of one app in the address space of another.
pub mod Wild
pub mod Drop
use rf.Prelude.{
  ℕ, zero, suc, ◌+◌, ◌-◌, ◌*◌, ◌/◌, ◌%◌, ◌^◌, Bool, true, false, not, ◌==◌, ltb, leb, if◌then◌else◌,
  update,
}
use rf.Kernel.Config.{ℤ, pos, e_ok}
use rf.Kernel.Run.{ok, fault, spin, M, ◌>>=◌, ◌>>◌}
use rf.Memory.Bits.{has_bit, set_bit, clear_bit}
use rf.Memory.State.{Memory, page_of, mem_page_size, e_bad_alias}
use rf.Memory.Table.{get_entry, put_ram, put_long, get_page_table_entry_address, linear_to_physical}
use rf.Memory.Run.{
  RunResult, found, refused, find_run, run_loop, run_turns, add_system_page_table,
  add_user_page_table,
}
use rf.Msg.Pool.{u32}

-- `present`, `alias`, `s`, `r`, `w`, `x` of an entry, and `end_of_run` for the last page of a run.
abbrev pub alias_flags : (last : Bool) → ℕ → ℕ
alias_flags last l =
    let f = set_bit (set_bit (set_bit (clear_bit (set_bit (set_bit l 13) 12) 3) 2) 1) 0 in
    if last then set_bit f 11 else f

-- `share_count++`, an unsigned character, of the page at a physical address.
unfoldable pub share : (phys : ℕ) → M Memory Unit
share phys m =
    let i = phys / 2 ^ 13 % 2 ^ 17 in
    ok tt (record m { share_count = update m.share_count i ((m.share_count i + 1) % 256) })

-- One turn of AddAliasRun: the entry of the new page and the linear address in the upper half.
unfoldable pub add_alias : (junk : ℕ) → (last : Bool) → (la pMem h pd : ℕ) → M Memory Unit
add_alias junk last la pMem h pd = do
  phys ← linear_to_physical junk h pMem
  put_ram (page_of pd + la / 2 ^ 13 % 2 ^ 11 * 4) (alias_flags last (page_of phys))
  put_ram (page_of pd + (la / 2 ^ 13 % 2 ^ 11 + 256) * 4) (alias_flags last la)
  share phys

-- `pd[la >> 24]` for a signed `la`: from 2^31 on the index is negative, and the word that is read lies before
-- the directory. `wild` gives these words, by their distance from it. Of what is written through them, the
-- long words of memory are followed.
unfoldable pub alias_table : (wild : ℕ → ℕ) → (la : ℕ) → M Memory ℕ
alias_table wild la m =
    if leb (2 ^ 31) la
    then ok (wild (256 - la / 2 ^ 24)) m
    else get_entry m.running_appid (la / 2 ^ 24) m

-- AddAliasRun
unfoldable pub add_alias_run : (wild : ℕ → ℕ) → (junk num_pages la pMem h : ℕ) → M Memory Unit
add_alias_run wild junk zero la pMem h m = ok tt m
add_alias_run wild junk (suc n) la pMem h m =
    let rest =
      add_alias_run wild junk n (u32 (la + mem_page_size)) (u32 (pMem + mem_page_size)) h in
    (alias_table wild la >>= λ pd. add_alias junk (n == 0) la pMem h pd >> rest) m

-- The number of pages to alias.
abbrev pub pages_needed : (pMem cbMem : ℕ) → ℕ
pages_needed pMem cbMem = u32 (page_of pMem + cbMem) / 2 ^ 13 + 1

unfoldable pub add_found :
    (wild : ℕ → ℕ) → (junk pMem cbMem hApp ppAliasRet : ℕ) → RunResult → M Memory ℤ
add_found wild junk pMem cbMem hApp ppAliasRet (refused e) = ok e
add_found wild junk pMem cbMem hApp ppAliasRet (found la re) = do
  add_alias_run wild junk (pages_needed pMem cbMem) la pMem hApp
  put_long ppAliasRet (la + pMem % mem_page_size)
  ok (pos e_ok)

-- The loop of FMTK_AliasMem: a run in the user's or in the system's part of the address space.
unfoldable pub alias_run : (junk n : ℕ) → (user : Bool) → M Memory RunResult
alias_run junk n user =
    run_loop run_turns (find_run user n)
      (if user then add_user_page_table junk else add_system_page_table junk) (pos e_ok)

-- FMTK_AliasMem
unfoldable pub alias_mem : (wild : ℕ → ℕ) → (junk pMem cbMem hApp ppAliasRet : ℕ) → M Memory ℤ
alias_mem wild junk pMem cbMem hApp ppAliasRet m =
    if hApp == m.running_appid
    then ok (pos 0) m
    else if m.has_acb hApp
    then (alias_run junk (pages_needed pMem cbMem) (not (m.is_system hApp))
          >>= add_found wild junk pMem cbMem hApp ppAliasRet)
        m
    else fault

-- The value of an entry that is no alias any more: `present`, `s`, `r`, `w`, and the page 0x7ffff in the
-- 18 bits that there are for it.
abbrev pub de_aliased_entry : ℕ
de_aliased_entry = 0xffff_e00e

-- The body of the loop of FMTK_DeAliasMem for an entry. The page of which it takes the share count is that
-- of the entry after it was cleared: 0. The result is `eor`.
unfoldable pub drop_alias : (pte : ℕ) → M Memory Bool
drop_alias pte m =
    if pte == 0
    then ok false m
    else if has_bit (m.ram pte) 12
    then ok (has_bit (m.ram pte) 11) (record m {
      ram = update m.ram pte de_aliased_entry;
      share_count = update m.share_count 0 ((m.share_count 0 + 255) % 256);
    })
    else ok (has_bit (m.ram pte) 11) m

-- `len - min(MEM_PAGE_SIZE,len)`
abbrev pub length_left : (len : ℕ) → ℕ
length_left len = len - mem_page_size

-- The loop of FMTK_DeAliasMem.
unfoldable pub de_alias_loop : (fuel h pMem len : ℕ) → M Memory ℤ
de_alias_loop zero h pMem len m = spin
de_alias_loop (suc fuel) h pMem len m =
    let rest = de_alias_loop fuel h (u32 (pMem + mem_page_size)) (length_left len) in
    if len == 0
    then ok (pos e_ok) m
    else (get_page_table_entry_address h pMem false >>= λ pte. drop_alias pte >>= λ eor.
          if eor then ok (pos (if ltb 0 (length_left len) then e_bad_alias else e_ok)) else rest)
        m

-- FMTK_DeAliasMem. A negative `len` is no page.
unfoldable pub de_alias_mem : (hAcb pMem len : ℕ) → M Memory ℤ
de_alias_mem hAcb pMem len =
    let n = if leb (2 ^ 31) len then 0 else len in de_alias_loop (suc n) hAcb (page_of pMem) n
