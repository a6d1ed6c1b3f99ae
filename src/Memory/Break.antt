-- ===== src/Memory/Break.antt =====
-- software/Femtiki/source/memmgnt3.c: the allocation of memory at the program break of an app.
pub mod Grow
pub mod Release
use rf.Prelude.{
  ℕ, zero, suc, ◌+◌, ◌-◌, ◌*◌, ◌/◌, ◌%◌, ◌^◌, Bool, true, false, not, ◌&&◌, ◌==◌, ltb, leb,
  if◌then◌else◌, update,
}
use rf.Kernel.Run.{ok, fault, spin, M, ◌>>=◌, ◌>>◌}
use rf.Memory.Bits.{has_bit, set_bit}
use rf.Memory.State.{
  Memory, page_of, mem_page_size, n_pages, signed_lt, unmapped, e_no_mem, log, mmu_locked,
  mmu_unlocked, pmt_locked, pmt_unlocked,
}
use rf.Memory.Map.{round8k}
use rf.Memory.Table.{put_ram, set_errno, get_page_table_entry_address}
use rf.Msg.Pool.{u32}

-- `amt >> LOG_PAGESIZE` for an `int`
abbrev pub page_count : (amt : ℕ) → ℕ
page_count amt = if leb (2 ^ 31) amt then amt / 2 ^ 13 + (2 ^ 32 - 2 ^ 19) else amt / 2 ^ 13

-- The entry of a page is written: the page of the entry's own address, `flags`, and the access rights.
unfoldable pub write_entry : (flags acr pte : ℕ) → M Memory Unit
write_entry flags acr pte m = if pte == 0 then fault else put_ram pte (page_of pte + flags + acr) m

unfoldable pub map_page : (flags hAcb acr adr : ℕ) → M Memory Unit
map_page flags hAcb acr adr = get_page_table_entry_address hAcb adr true >>= write_entry flags acr

-- The pages but the last one, `n` from the address `adr` on, and then the last one, which has the mark of
-- the end (0x400).
unfoldable pub map_pages : (n hAcb acr adr : ℕ) → M Memory Unit
map_pages zero hAcb acr adr = map_page 0x1400 hAcb acr adr
map_pages (suc n) hAcb acr adr =
    let rest = map_pages n hAcb acr (u32 (adr + mem_page_size)) in
    map_page 0x1000 hAcb acr adr >> rest

-- `npages - 1` turns, or none.
abbrev pub turns : (npages : ℕ) → ℕ
turns npages = if leb (2 ^ 31) npages then 0 else npages - 1

-- The pages that are available and the break, after the allocation of `amt` bytes.
abbrev pub advanced : (hAcb amt npages : ℕ) → Memory → Memory
advanced hAcb amt npages m = record m {
  sys_pages_available = u32 (m.sys_pages_available + (2 ^ 32 - npages));
  brk = update m.brk hAcb (u32 (m.brk hAcb + amt));
}

unfoldable pub alloc_at_break : (hAcb amt npages acr : ℕ) → M Memory ℕ
alloc_at_break hAcb amt npages acr m =
    if m.has_acb hAcb
    then (map_pages (turns npages) hAcb acr (m.brk hAcb) >> ok (m.brk hAcb))
        (advanced hAcb amt npages m)
    else fault

-- mem_alloc
unfoldable pub mem_alloc : (hAcb amt acr : ℕ) → M Memory ℕ
mem_alloc hAcb amt acr m =
    let a = round8k amt in
    if page_count a == 0
    then ok 0 m
    else if signed_lt (page_count a) m.sys_pages_available
    then alloc_at_break hAcb a (page_count a) (acr % 8) m
    else ok 0 m

-- One user less of the page `vpageno`; with the last one its entry, at `pe`, is given up.
unfoldable pub unshare : (vpageno pe : ℕ) → M Memory Unit
unshare vpageno pe m =
    let n = m.share_count vpageno in
    if n == 0
    then ok tt m
    else if n == 1
    then ok tt
        (record m { share_count = update m.share_count vpageno 0; ram = update m.ram pe unmapped })
    else ok tt (record m { share_count = update m.share_count vpageno (n - 1) })

-- What is done under the lock of the MMU. The result is `last_page`.
unfoldable pub release_page : (vpageno pe : ℕ) → M Memory Bool
release_page vpageno pe m =
    if pe == 0
    then ok false m
    else (do log pmt_locked; unshare vpageno pe; log pmt_unlocked; ok (has_bit (m.ram pe) 10)) m

-- The loop of mem_free, with `n` turns left.
unfoldable pub free_loop : (n h vadr : ℕ) → M Memory ℕ
free_loop zero h vadr m = ok vadr m
free_loop (suc n) h vadr m =
    let rest = free_loop n h (u32 (vadr + mem_page_size)) in
    (log mmu_locked
        >> (get_page_table_entry_address h vadr false >>= λ pe.
            release_page (vadr / 2 ^ 13 % 2 ^ 17) pe >>= λ last_page.
            log mmu_unlocked >> (if last_page then ok vadr else rest)))
      m

-- mem_free
unfoldable pub mem_free : (h vadr : ℕ) → M Memory ℕ
mem_free h vadr = free_loop n_pages h vadr

-- The loop of sbrk that gives memory back, from `q` on.
unfoldable pub free_up : (fuel h q : ℕ) → M Memory Unit
free_up zero h q m = spin
free_up (suc fuel) h q m =
    let rest = free_up fuel h in if ltb q (m.brk h) then (mem_free h q >>= rest) m else ok tt m

-- `~0x400 & 0xffffffff`, and then the mark of the end.
unfoldable pub mark_end : (pe : ℕ) → M Memory Unit
mark_end pe m = if pe == 0 then fault else put_ram pe (set_bit (m.ram pe) 10) m

-- The last page of the memory that is left gets the mark of the end.
unfoldable pub mark_last : (h r : ℕ) → M Memory Unit
mark_last h r = if r == 0 then ok tt else (do
  log mmu_locked
  pe ← get_page_table_entry_address h r false
  mark_end pe
  log mmu_unlocked)

unfoldable pub set_brk : (h r : ℕ) → M Memory Unit
set_brk h r m = ok tt (record m { brk = update m.brk h r })

-- The part of sbrk for a negative size.
unfoldable pub shrink : (h size : ℕ) → M Memory ℕ
shrink h size m =
    if ltb (m.brk h) size
    then (do set_errno e_no_mem; ok 0xffff_ffff) m
    else (do
      free_up n_pages h (m.brk h - size)
      set_brk h (m.brk h - size)
      mark_last h (m.brk h - size)
      ok (m.brk h - size))
        m

unfoldable pub grow : (h size : ℕ) → M Memory ℕ
grow h size = do p ← mem_alloc h size 7; (if p == 0 then (do set_errno e_no_mem; ok 0) else ok p)

-- sbrk
unfoldable pub sbrk : (size : ℕ) → M Memory ℕ
sbrk size m =
    let s = round8k size in
    let h = m.running_appid in
    if not (s == 0) && ltb s (2 ^ 31)
    then grow h s m
    else if not (m.has_acb h)
    then fault
    else if s == 0
    then ok (m.brk h) m
    else shrink h (2 ^ 32 - s) m
