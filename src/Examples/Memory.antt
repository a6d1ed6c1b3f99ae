-- ===== src/Examples/Memory.antt =====
-- The theorems on the memory manager, at small states.
use rf.Prelude.{
  ℕ, ◌*◌, ◌%◌, ◌<◌, ◌≤◌, ◌≡◌, refl, Bool, true, false, ◌||◌, ◌&&◌, not, arith, ◌==◌, if◌then◌else◌,
  ◌⊎◌, [],
}
use rf.Kernel.Config.{pos, neg}
use rf.Kernel.Run.{ok, fault, Returns, Ends}
use rf.Memory.State.{Memory, n_pages, unmapped, signed_lt, e_no_mem}
use rf.Memory.Bits.{has_bit, ones-IsFull}
use rf.Memory.Map.{mark_page, unmark_page, find_free_page, round8k}
use rf.Memory.Map.Marks.{in_use, mark_page-in_use}
use rf.Memory.Map.Find.{IsNextFree, Taken, find_free_page-first, find_free_page-none}
use rf.Memory.Map.Back.{SameUse, unmark_page-find, round8k-least}
use rf.Memory.Table.{has_entry, entry, get_page_table_entry_address}
use rf.Memory.Table.Stable.{get_page_table_entry_address-again}
use rf.Memory.Run.{alloc_pages_of}
use rf.Memory.Run.Found.{exchanged, stored, last_page, alloc_pages-cases}
use rf.Memory.Alias.{alias_mem, de_alias_mem}
use rf.Memory.Alias.Wild.{Aliased, alias_mem-wild}
use rf.Memory.Alias.Drop.Turn.{Dropped}
use rf.Memory.Alias.Drop.{de_alias_mem-Dropped}
use rf.Memory.Break.{mem_free}
use rf.Memory.Break.Release.{Freed, mem_free-Freed}

-- The page 0 is in use, nothing is mapped; the app 2 runs.
abbrev pub small_memory : Memory
small_memory = record {
  pam = λ w. if w == 0 then 1 else 0;
  last_word = 0;
  sys_pd = λ _. unmapped;
  app_pd = λ _ _. unmapped;
  ram = λ _. unmapped;
  share_count = λ _. 0;
  pages_free = 10;
  sys_pages_available = 100;
  next_pt = 0x4000_4000;
  next_pt_at = 0x1000;
  errno = 0;
  kernel_pt = 0x2_0000;
  has_acb = λ h. h == 2;
  brk = λ _. 0x100_0000;
  is_system = λ _. false;
  running_appid = 2;
  events = [];
}

-- Every page is in use.
abbrev full_memory : Memory
full_memory = record small_memory { pam = λ _. 0xffff_ffff; last_word = 3 }

find_free_page-first_example :
    Returns
      (λ p m'. (i : ℕ) × (i < n_pages) × IsNextFree small_memory i × Taken small_memory i p m')
      (find_free_page small_memory)
unfolding has_bit
find_free_page-first_example = find_free_page-first small_memory 1 (omega arith) (omega arith) refl

unmark_page-find_example :
    Returns
      (λ p m'. Returns (λ _ c. SameUse small_memory c) (unmark_page p m'))
      (find_free_page small_memory)
unfolding has_bit
unmark_page-find_example = unmark_page-find small_memory 1 (omega arith) (omega arith) refl

mark_page-in_use_example :
    Returns
      (λ _ m'. (j : ℕ) → in_use m' j ≡ ((5 == j) || in_use small_memory j))
      (mark_page 0x4000_a123 small_memory)
    × Returns
        (λ _ m'. (j : ℕ) → in_use m' j ≡ (not (5 == j) && in_use small_memory j))
        (unmark_page 0x4000_a123 small_memory)
mark_page-in_use_example =
    mark_page-in_use small_memory 5 0x4000_a123 (omega arith) (omega arith, omega arith)

find_free_page-none_example : find_free_page full_memory ≡ fault
find_free_page-none_example =
    find_free_page-none full_memory (omega arith) (λ j lo hi. ones-IsFull (j % 32) (omega arith))

get_page_table_entry_address-again_example :
    Ends
      (λ p m'.
        (p ≡ 0) ⊎ ((alloc : Bool) → get_page_table_entry_address 2 0x100_0000 alloc m' ≡ ok p m'))
      (get_page_table_entry_address 2 0x100_0000 true small_memory)
get_page_table_entry_address-again_example =
    get_page_table_entry_address-again 2 0x100_0000 small_memory

mem_free-Freed_example :
    Returns (λ _ m'. Freed small_memory m') (mem_free 2 0x100_0000 small_memory)
mem_free-Freed_example = mem_free-Freed 2 0x100_0000 small_memory refl (omega arith)

alloc_pages-cases_example :
    ((signed_lt 10 11 ≡ true)
      × (alloc_pages_of 0 (pos 7) true 11 0x3000 small_memory
          ≡ ok (neg e_no_mem) (exchanged small_memory)))
    ⊎ ((signed_lt 10 11 ≡ false)
        × (alloc_pages_of 0 (pos 7) true 11 0x3000 small_memory
            ≡ ok (pos 7) (exchanged (stored 0x3000 last_page small_memory))))
    ⊎ ((signed_lt 10 11 ≡ false) × (alloc_pages_of 0 (pos 7) true 11 0x3000 small_memory ≡ fault))
alloc_pages-cases_example =
    alloc_pages-cases 0 (pos 7) true 11 0x3000 small_memory (omega arith) (omega arith)
      (omega arith)

-- The app 3 has a page table at 0x8000, with one page.
abbrev two_apps : Memory
two_apps = record small_memory {
  has_acb = λ h. (h == 2) || (h == 3);
  app_pd = λ h i. if (h == 3) && (i == 0) then 0x8007 else unmapped;
  ram = λ a. if a == 0x8000 then 0x4000_2007 else unmapped;
}

alias_mem-wild_example :
    Returns
      (Aliased (λ _. 0x6000) 16 0x8000 0x3000 two_apps)
      (alias_mem (λ _. 0x6000) 0 16 100 3 0x3000 two_apps)
unfolding has_entry entry
alias_mem-wild_example =
    alias_mem-wild (λ _. 0x6000) 0 16 100 3 0x3000 0x8000 two_apps refl refl refl refl refl
      (omega arith) (omega arith) (refl, refl, refl, refl) (omega arith) (omega arith) refl

de_alias_mem-Dropped_example :
    Returns (Dropped small_memory 2 0x100_0000 20000) (de_alias_mem 2 0x100_0000 20000 small_memory)
de_alias_mem-Dropped_example =
    de_alias_mem-Dropped 2 0x100_0000 20000 small_memory refl (omega arith)

round8k-least_example :
    (round8k 10000 % 8192 ≡ 0)
    × (10000 ≤ round8k 10000)
    × ((n : ℕ) → 10000 ≤ n * 8192 → round8k 10000 ≤ n * 8192)
round8k-least_example = round8k-least 10000 (omega arith)
