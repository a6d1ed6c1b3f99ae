-- ===== src/Memory/State.antt =====
-- software/Femtiki/source/memmgnt3.c: the variables of the memory manager, with the parts of the
-- application control blocks that it uses.
use rf.Prelude.{ℕ, ◌+◌, ◌*◌, ◌/◌, ◌%◌, ◌^◌, Bool, ltb, List, ◌∷◌}
use rf.Kernel.Run.{M, ok}

-- The calls on the mailbox MemExch (FMTK_WaitMsg, FMTK_SendMsg) and those of the locks of the MMU and of
-- PMT, which wait until they have the lock.
pub data Event : Type 0 where
  waited : Event
  sent : Event
  mmu_locked : Event
  mmu_unlocked : Event
  pmt_locked : Event
  pmt_unlocked : Event

-- PAM, lastSearchedPAMWord, the page directories (sys_pd and, for an app, ACB.pd), the long words of
-- memory that hold page tables (by their addresses), the share counts of PMT, nPagesFree,
-- sys_pages_available, pNextPT with its address, errno, and the address of kernel_pt. Of the ACBs:
-- whether there is one for a handle, brk, is_system. `events` are the calls, the latest first.
pub record Memory : Type 0 where
  pub pam : ℕ → ℕ
  pub last_word : ℕ
  pub sys_pd : ℕ → ℕ
  pub app_pd : ℕ → ℕ → ℕ
  pub ram : ℕ → ℕ
  pub share_count : ℕ → ℕ
  pub pages_free : ℕ
  pub sys_pages_available : ℕ
  pub next_pt : ℕ
  pub next_pt_at : ℕ
  pub errno : ℕ
  pub kernel_pt : ℕ
  pub has_acb : ℕ → Bool
  pub brk : ℕ → ℕ
  pub is_system : ℕ → Bool
  pub running_appid : ℕ
  pub events : List Event

-- The call is recorded.
unfoldable pub log : Event → M Memory Unit
log e m = ok tt (record m { events = e ∷ m.events })

-- DRAM_BASE, MEM_PAGE_SIZE, and the number of words of PAM: (NPAGES+1)/32.
abbrev pub dram_base : ℕ
dram_base = 0x4000_0000

abbrev pub mem_page_size : ℕ
mem_page_size = 8192

abbrev pub n_pages : ℕ
n_pages = 131072

abbrev pub pam_words : ℕ
pam_words = 4096

-- `a & PAGE_MASK`
abbrev pub page_of : ℕ → ℕ
page_of a = a / mem_page_size * mem_page_size

-- `a < b` for two `long`s, kept as their 32-bit patterns.
abbrev pub signed_lt : ℕ → ℕ → Bool
signed_lt a b = ltb ((a + 2 ^ 31) % 2 ^ 32) ((b + 2 ^ 31) % 2 ^ 32)

-- An entry of a page directory or page table that is not used.
abbrev pub unmapped : ℕ
unmapped = 0xffff_ffff

-- E_NoMem, E_BadAlias
abbrev pub e_no_mem : ℕ
e_no_mem = 0x46

abbrev pub e_bad_alias : ℕ
e_bad_alias = 23
