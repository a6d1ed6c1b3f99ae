-- ===== src/Memory/Table.antt =====
-- software/Femtiki/source/memmgnt3.c: page directories and page tables. A page directory is named by the
-- handle of its app: 1 for sys_pd, which also stands for the null handle. An index outside a directory
-- is a wild pointer, and so is the directory of a handle without an ACB.
pub mod Stable
pub mod Lookup
use rf.Prelude.{
  ℕ, zero, suc, ◌+◌, ◌-◌, ◌*◌, ◌/◌, ◌%◌, ◌^◌, Option, none, some, Bool, true, false, ◌||◌, ◌&&◌,
  not, ◌==◌, ltb, leb, if◌then◌else◌, update,
}
use rf.Kernel.Run.{ok, fault, M, Run, ◌>>=◌, ◌>>◌}
use rf.Memory.State.{Memory, page_of, mem_page_size, unmapped, e_no_mem}
use rf.Memory.Map.{find_free_page}
use rf.Msg.Pool.{u32}

-- `hAcb < 2`, for a handle kept as its 16-bit pattern: the system's, or a negative one.
abbrev pub is_sys : (hAcb : ℕ) → Bool
is_sys hAcb = ltb hAcb 2 || leb 0x8000 hAcb

-- There is an entry `i`: sys_pd has 512, the directory of an app 2048.
unfoldable pub has_entry : (h i : ℕ) → Memory → Bool
has_entry h i m = if is_sys h then ltb i 512 else m.has_acb h && ltb i 2048

unfoldable pub entry : (h i : ℕ) → Memory → ℕ
entry h i m = if is_sys h then m.sys_pd i else m.app_pd h i

-- `pd[i]`
unfoldable pub get_entry : (h i : ℕ) → M Memory ℕ
get_entry h i m = if has_entry h i m then ok (entry h i m) m else fault

unfoldable pub with_entry : (h i v : ℕ) → Memory → Memory
with_entry h i v m =
    if is_sys h
    then record m { sys_pd = update m.sys_pd i v }
    else record m { app_pd = update m.app_pd h (update (m.app_pd h) i v) }

-- `pd[i] = v`
unfoldable pub put_entry : (h i v : ℕ) → M Memory Unit
put_entry h i v m = if has_entry h i m then ok tt (with_entry h i v m) else fault

-- AllocPageTable
abbrev pub alloc_page_table : M Memory ℕ
alloc_page_table = find_free_page

-- `memset((char *)pta, -1, MEM_PAGE_SIZE)`, at the address of a page.
unfoldable pub clear_table : (pta : ℕ) → M Memory Unit
clear_table pta m =
    ok tt (record m { ram = λ a. if page_of a == page_of pta then unmapped else m.ram a })

unfoldable pub set_errno : ℕ → M Memory Unit
set_errno e m = ok tt (record m { errno = e })

-- A new page table in the entry `i`, readable, writable and executable by users. The page is aligned:
-- its low bits are clear. The test for a failure is that of the source.
unfoldable pub fresh_table : (h i pta : ℕ) → M Memory (Option ℕ)
fresh_table h i pta = do clear_table pta; put_entry h i (pta + 7); ok (some (pta + 7))

unfoldable pub new_table : (h i : ℕ) → M Memory (Option ℕ)
new_table h i = do
  pta ← alloc_page_table
  (if pta == unmapped then (do set_errno e_no_mem; ok none) else fresh_table h i pta)

-- The page table of a linear address, or none.
unfoldable pub table_of : (alloc : Bool) → (h i pta : ℕ) → M Memory (Option ℕ)
table_of alloc h i pta =
    if pta == unmapped then (if alloc then new_table h i else ok none) else ok (some pta)

-- `*p = v`
unfoldable pub put_long : (p v : ℕ) → M Memory Unit
put_long p v m =
    if p == 0
    then fault
    else if p == m.next_pt_at
    then ok tt (record m { next_pt = v })
    else ok tt (record m { ram = update m.ram p v })

unfoldable pub put_ram : (p v : ℕ) → M Memory Unit
put_ram p v m = ok tt (record m { ram = update m.ram p v })

-- The flags of a new page: system or user.
unfoldable pub page_flags : (h : ℕ) → Memory → ℕ
page_flags h m = if is_sys h || m.is_system h then 0x100f else 0x1007

unfoldable pub new_page : (h pte : ℕ) → M Memory ℕ
new_page h pte = do
  page ← find_free_page
  λ m. if page == 0 then ok 0 m else (do put_ram pte (page + page_flags h m); ok pte) m

-- The entry of the page table, which is at the address `pte`.
unfoldable pub entry_at : (alloc : Bool) → (h pte : ℕ) → M Memory ℕ
entry_at alloc h pte m =
    if m.ram pte == unmapped then (if alloc then new_page h pte else ok 0) m else ok pte m

-- The index of a linear address in the page table, in bytes.
abbrev pub table_index : (linear : ℕ) → ℕ
table_index linear = linear / 2 ^ 13 % 2 ^ 11 * 4

unfoldable pub in_table : (alloc : Bool) → (h linear : ℕ) → Option ℕ → M Memory ℕ
in_table alloc h linear none = ok 0
in_table alloc h linear (some pta) = entry_at alloc h (page_of pta + table_index linear)

-- GetPageTableEntryAddress
unfoldable pub get_page_table_entry_address : (h linear : ℕ) → (alloc : Bool) → M Memory ℕ
get_page_table_entry_address h linear alloc = do
  pta ← get_entry h (linear / 2 ^ 24)
  t ← table_of alloc h (linear / 2 ^ 24) pta
  in_table alloc h linear t

-- LinearToPhysical. Its variable iLinear, of which it takes the low bits, is never given a value: that is
-- `junk`.
unfoldable pub linear_to_physical : (junk h linear : ℕ) → M Memory ℕ
linear_to_physical junk h linear = do
  pte ← get_page_table_entry_address h linear true
  (if pte == 0 then ok 0 else ok (page_of pte + junk % 2 ^ 13))
