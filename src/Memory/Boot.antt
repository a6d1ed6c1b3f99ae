-- ===== src/Memory/Boot.antt =====
-- software/Femtiki/source/memmgnt3.c: the set-up of the memory manager.
use rf.Prelude.{
  ℕ, zero, suc, ◌+◌, ◌-◌, ◌*◌, ◌/◌, ◌<◌, ◌≡◌, refl, arith, ◌&&◌, ltb, leb, if◌then◌else◌, update,
}
use rf.Kernel.Config.{ℤ}
use rf.Kernel.Run.{ok, fault, M, ◌>>◌}
use rf.Memory.State.{Memory, mem_page_size, n_pages, unmapped, log, sent}
use rf.Memory.Map.{mark_page}
use rf.Memory.Run.{alloc_system_pages}

-- `kernel_pt[i]`: 2048 entries for consecutive pages from `base` on: present, system, read-write-execute.
unfoldable pub fill_table : (i base : ℕ) → M Memory Unit
fill_table i base m =
    let first = m.kernel_pt + i * mem_page_size in
    ok tt (record m {
      ram = λ a.
          if leb first a && ltb a (first + mem_page_size)
          then base + (a - first) / 4 * mem_page_size + 0x100f
          else m.ram a;
    })

-- The entry `ndx` of sys_pd for `kernel_pt[i]`, with its flags, and the linear address in the upper half.
unfoldable pub fill_entry : (ndx i flags linear : ℕ) → M Memory Unit
fill_entry ndx i flags linear m = ok tt (record m {
  sys_pd =
      update (update m.sys_pd ndx (m.kernel_pt + i * mem_page_size + flags)) (ndx + 256) linear;
})

unfoldable pub clear_directory : M Memory Unit
clear_directory m = ok tt (record m { sys_pd = λ nn. if ltb nn 512 then unmapped else m.sys_pd nn })

-- `MarkPage(nn)` for `n` numbers from `nn` on.
unfoldable pub mark_numbers : (n nn : ℕ) → M Memory Unit
mark_numbers zero nn m = ok tt m
mark_numbers (suc n) nn m = let rest = mark_numbers n (nn + 1) in (mark_page nn >> rest) m

-- init_sys_page_tables, up to the calls of SetMMUPD.
unfoldable pub init_sys_page_tables : M Memory Unit
init_sys_page_tables = do
  clear_directory
  fill_entry 0x000 0 0x100f 0x0000_0000
  fill_table 0 0x0000_0000
  fill_entry 0x004 1 0x100e 0x0040_0000
  mark_numbers 2048 0
  fill_table 1 0x4000_0000
  fill_entry 0x0f0 2 0x100f 0xf000_0000
  fill_table 2 0xf000_0000
  fill_entry 0x0f8 3 0x100f 0xf800_0000
  fill_table 3 0xf800_0000
  fill_entry 0x0fd 4 0x100f 0xfd00_0000
  fill_table 4 0xfd00_0000
  fill_entry 0x0ff 5 0x100f 0xff00_0000
  fill_table 5 0xff00_0000

unfoldable pub clear_map : M Memory Unit
clear_map m = ok tt (record m {
  sys_pages_available = n_pages;
  last_word = 0;
  pam = λ nn. if ltb nn (n_pages / 32) then 0 else m.pam nn;
})

unfoldable pub first_table : (junk : ℕ) → (re : ℤ) → M Memory ℤ
first_table junk re m = alloc_system_pages junk re 1 m.next_pt_at m

-- init_memory_management
unfoldable pub init_memory_management : (junk : ℕ) → (re : ℤ) → M Memory ℤ
init_memory_management junk re = do clear_map; init_sys_page_tables; log sent; first_table junk re

-- A page number is not an address of DRAM: its word is outside the map.
mark_number : (nn : ℕ) (m : Memory) → nn < 2048 → mark_page nn m ≡ fault
unfolding mark_page
mark_number nn m l = ground arith

mark_from : (n : ℕ) (m : Memory) → mark_numbers (suc n) 0 m ≡ fault
unfolding mark_numbers
mark_from n m = rw (mark_number 0 m (omega arith)) refl

mark_all : (m : Memory) → mark_numbers 2048 0 m ≡ fault
mark_all m = mark_from 2047 m

tables-wild : (m : Memory) → init_sys_page_tables m ≡ fault
unfolding init_sys_page_tables clear_directory fill_entry fill_table
tables-wild m = rw (mark_all _) refl

-- Whatever the state, the set-up leaves PAM: the first of the 2048 page numbers that it gives MarkPage in
-- place of addresses is an index far outside.
pub init_memory_management-wild :
    (junk : ℕ) (re : ℤ) (m : Memory) → init_memory_management junk re m ≡ fault
unfolding init_memory_management clear_map
init_memory_management-wild junk re m = rw (tables-wild _) refl
