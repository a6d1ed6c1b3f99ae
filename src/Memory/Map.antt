-- ===== src/Memory/Map.antt =====
-- software/Femtiki/source/memmgnt3.c: the page allocation map. An index outside PAM is a wild pointer.
pub mod Marks
pub mod Find
pub mod Back
use rf.Prelude.{
  ℕ, zero, suc, ◌+◌, ◌-◌, ◌*◌, ◌/◌, ◌%◌, ◌^◌, Bool, true, false, Option, none, some, ◌==◌, ltb, leb,
  if◌then◌else◌, update,
}
use rf.Kernel.Run.{ok, fault, M}
use rf.Memory.Bits.{has_bit, set_bit, clear_bit, first_clear}
use rf.Memory.State.{Memory, dram_base, pam_words, page_of}
use rf.Msg.Pool.{u32}

-- round8k
abbrev pub round8k : (amt : ℕ) → ℕ
round8k amt = page_of (u32 (amt + 8191))

-- `page - DRAM_BASE`
abbrev pub dram_offset : (page : ℕ) → ℕ
dram_offset page = u32 (page + (2 ^ 32 - dram_base))

-- PAM[wd] is changed by `f`.
abbrev pub at_word : (wd : ℕ) → (ℕ → ℕ) → M Memory Unit
at_word wd f m =
    if leb pam_words wd then fault else ok tt (record m { pam = update m.pam wd (f (m.pam wd)) })

-- MarkPage
unfoldable pub mark_page : (page : ℕ) → M Memory Unit
mark_page page = let a = dram_offset page in at_word (a / 2 ^ 18) (λ w. set_bit w (a / 2 ^ 13 % 32))

-- UnmarkPage
unfoldable pub unmark_page : (page : ℕ) → M Memory Unit
unmark_page page =
    let a = dram_offset page in at_word (a / 2 ^ 18) (λ w. clear_bit w (a / 2 ^ 13 % 32))

-- The address of a page in DRAM: its fields do not overlap as long as `nn` is an index of PAM.
abbrev pub page_address : (nn bit : ℕ) → ℕ
page_address nn bit = 0x4000_0000 + nn * 2 ^ 18 + bit * 2 ^ 13

-- The body of the loop for a word that is not full, when its bit `bit` is clear.
unfoldable pub take_page : (nn bit : ℕ) → M Memory ℕ
take_page nn bit m =
    ok (page_address nn bit)
      (record m { pam = update m.pam nn (set_bit (m.pam nn) bit); last_word = nn })

-- A free page of one word.
unfoldable pub search_word : (wd : ℕ) → Option ℕ
search_word wd = if wd == 0xffff_ffff then none else first_clear 32 0 wd

-- `if (nn > 32767) nn = 0`
abbrev pub wrapped : ℕ → ℕ
wrapped nn = if ltb 32767 nn then 0 else nn

abbrev pub found_or : (rest : M Memory ℕ) → (nn : ℕ) → Option ℕ → M Memory ℕ
found_or rest nn none = rest
found_or rest nn (some bit) = take_page nn bit

-- The loop of FindFreePage. `count` is the variable of that name.
unfoldable pub find_from : (count nn : ℕ) → M Memory ℕ
find_from zero nn m = ok 0 m
find_from (suc count) nn m =
    let rest = find_from count (wrapped nn + 1) in
    if leb pam_words (wrapped nn)
    then fault
    else found_or rest (wrapped nn) (search_word (m.pam (wrapped nn))) m

-- FindFreePage
unfoldable pub find_free_page : M Memory ℕ
find_free_page m = find_from pam_words m.last_word m
