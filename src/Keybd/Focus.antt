-- ===== src/Keybd/Focus.antt =====
-- software/Femtiki/source/drivers/KeybdTranslateThread.c: the app that has the keyboard.
use rf.Prelude.{
  ℕ, zero, suc, ◌+◌, ◌-◌, ◌^◌, ◌≤◌, ◌<◌, ◌≡◌, Bool, true, false, Option, none, some, ◌==◌, leb,
  if◌then◌else◌,
}
use rf.Kernel.Config.{nr_acb}
use rf.Kernel.Run.{ok, fault, spin, M}
use rf.Memory.Bits.{has_bit}

-- IOFocusList, IOFocusNdx and hKeybdMbx, and the mailboxes of the ACBs by the index in ACBPtrs.
pub record Focus : Type 0 where
  pub list : ℕ
  pub ndx : ℕ
  pub keybd_mbx : ℕ
  pub mailbox : ℕ → Option ℕ

-- The next index for `dir` = -1 (`back`) or 1.
unfoldable pub next_ndx : (back : Bool) → (ndx : ℕ) → ℕ
next_ndx true ndx = if ndx == 0 then nr_acb - 1 else if leb nr_acb (ndx - 1) then 0 else ndx - 1
next_ndx false ndx = if leb nr_acb (ndx + 1) then 0 else ndx + 1

-- The loop: the first index after `ndx` whose bit is set.
unfoldable pub rotate_loop : (fuel : ℕ) → (back : Bool) → (list ndx : ℕ) → Option ℕ
rotate_loop zero back list ndx = none
rotate_loop (suc fuel) back list ndx =
    let n = next_ndx back ndx in
    let rest = rotate_loop fuel back list n in if has_bit list n then some n else rest

unfoldable pub give_focus : (list n : ℕ) → Option ℕ → M Focus (Unit {0})
give_focus list n none s = fault
give_focus list n (some m) s = ok tt (record s { list = list; ndx = n; keybd_mbx = m })

unfoldable pub take_focus : (list : ℕ) → Option ℕ → M Focus (Unit {0})
take_focus list none s = spin
take_focus list (some n) s = give_focus list n (s.mailbox n) s

-- `if (IOFocusList==0) IOFocusList = 1`
abbrev pub some_focus : (list : ℕ) → ℕ
some_focus list = if list == 0 then 1 else list

-- rotate_io_focus. The fuel is the number of bits.
unfoldable pub rotate_io_focus : (back : Bool) → M Focus (Unit {0})
rotate_io_focus back s =
    let list = some_focus s.list in take_focus list (rotate_loop 32 back list s.ndx) s

-- `d` steps from `ndx`.
unfoldable pub steps : (back : Bool) → (d ndx : ℕ) → ℕ
steps back zero ndx = ndx
steps back (suc d) ndx = steps back d (next_ndx back ndx)

-- The first index with its bit set is `d` steps away.
abbrev pub FirstAfter : (back : Bool) → (list ndx d : ℕ) → Type 0
FirstAfter back list ndx d =
    (0 < d)
    × (has_bit list (steps back d ndx) ≡ true)
    × ((e : ℕ) → 0 < e → e < d → has_bit list (steps back e ndx) ≡ false)

-- The list of those that may have the keyboard, with the app 0 alone if it is empty.
abbrev pub candidates : (list : ℕ) → ℕ
candidates list = if list == 0 then 2 ^ 0 else list

-- The app that gets the keyboard: the first one in the direction that is in the list. Nothing else changes.
abbrev pub Focused : (back : Bool) → Focus → Focus → Type 0
Focused back s c =
    (d : ℕ) × (d ≤ 32)
    × FirstAfter back (candidates s.list) s.ndx d
    × (c.ndx ≡ steps back d s.ndx)
    × (c.ndx < 32)
    × (s.mailbox c.ndx ≡ some c.keybd_mbx)
    × (c.list ≡ candidates s.list)
    × (c.mailbox ≡ s.mailbox)
