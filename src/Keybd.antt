-- ===== src/Keybd.antt =====
-- software/Femtiki/source/drivers/KeybdTranslateThread.c: the translation of scan codes.
pub mod Translate
pub mod Release
pub mod Focus
use rf.Prelude.{
  ℕ, zero, suc, ◌+◌, ◌-◌, ◌*◌, ◌/◌, ◌%◌, ◌^◌, Bool, true, false, not, ◌||◌, ◌&&◌, Option, none,
  some, List, [], ◌∷◌, ◌==◌, ltb, leb, if◌then◌else◌, update,
}
use rf.Kernel.Run.{ok, fault, M, ◌>>=◌, ◌>>◌}
use rf.Memory.Bits.{has_bit, set_bit, clear_bit}

-- Scan codes, and the numbers of messages: FM_KEYDOWN, FM_KEYUP, FM_QUERY_KEYBD, FM_ABORT, FM_IRQ.
abbrev pub sc_keyup : ℕ
sc_keyup = 0xf0

abbrev pub sc_extend : ℕ
sc_extend = 0xe0

abbrev pub sc_ctrl : ℕ
sc_ctrl = 0x14

abbrev pub sc_lshift : ℕ
sc_lshift = 0x12

abbrev pub sc_rshift : ℕ
sc_rshift = 0x59

abbrev pub sc_numlock : ℕ
sc_numlock = 0x77

abbrev pub sc_capslock : ℕ
sc_capslock = 0x58

abbrev pub sc_scrolllock : ℕ
sc_scrolllock = 0x7e

abbrev pub sc_alt : ℕ
sc_alt = 0x11

abbrev pub sc_tab : ℕ
sc_tab = 0x0d

abbrev pub sc_c : ℕ
sc_c = 0x21

abbrev pub fm_keydown : ℕ
fm_keydown = 0x100

abbrev pub fm_keyup : ℕ
fm_keyup = 0x101

abbrev pub fm_query_keybd : ℕ
fm_query_keybd = 0x102

abbrev pub fm_abort : ℕ
fm_abort = 0xfff0

abbrev pub fm_irq : ℕ
fm_irq = 0xffff

-- keybdExtendedCodes, keybdControlCodes, shiftedScanCodes, unshiftedScanCodes: tables of bytes in
-- assembly.
pub record Codes : Type 0 where
  pub extended : ℕ → ℕ
  pub control : ℕ → ℕ
  pub shifted : ℕ → ℕ
  pub unshifted : ℕ → ℕ

-- What the driver does outside its own state: it sends a message (the mailbox, d1, d2, d3), moves the focus
-- (backwards or not), or empties the mailbox of the interrupt.
pub data Effect : Type 0 where
  sends : (mbx d1 d2 d3 : ℕ) → Effect
  rotates : (back : Bool) → Effect
  empties : Effect

-- KeyState1 (a signed character), KeyState2 and VirtKey; KeyState, hKeybdMbx, the static variable `first`
-- of KeybdTranslate, and the effects, the latest first.
pub record Keys : Type 0 where
  pub key_state1 : ℕ
  pub key_state2 : ℕ
  pub virt_key : ℕ
  pub key_state : ℕ → ℕ
  pub keybd_mbx : ℕ
  pub first : Bool
  pub effects : List Effect

-- `KeyState2 ^= 1 << b`
abbrev pub flip_bit : (w b : ℕ) → ℕ
flip_bit w b = if has_bit w b then clear_bit w b else set_bit w b

-- A key that is held: its bit is cleared after a key-up code and set otherwise.
abbrev pub held_key : (b : ℕ) → Keys → Keys
held_key b s = record s {
  key_state2 = if leb 128 s.key_state1 then clear_bit s.key_state2 b else set_bit s.key_state2 b;
  key_state1 = 0;
}

abbrev pub lock_key : (b : ℕ) → Keys → Keys
lock_key b s = record s { key_state2 = flip_bit s.key_state2 b }

-- The cases of the switch, and none for its default.
unfoldable pub modifier : (code : ℕ) → Keys → Option Keys
modifier code s =
    if code == sc_keyup
    then some (record s { key_state1 = 255 })
    else if code == sc_extend
    then some (record s { key_state2 = set_bit s.key_state2 7 })
    else if code == sc_ctrl
    then some (held_key 2 s)
    else if code == sc_lshift
    then some (held_key 0 s)
    else if code == sc_rshift
    then some (held_key 6 s)
    else if code == sc_numlock
    then some (lock_key 3 s)
    else if code == sc_capslock
    then some (lock_key 4 s)
    else if code == sc_scrolllock
    then some (lock_key 5 s)
    else if code == sc_alt
    then some (held_key 1 s)
    else none

-- The state of the shift keys, the scan code and the virtual key in one word.
abbrev pub key_value : (code : ℕ) → Keys → ℕ
key_value code s = s.key_state2 * 2 ^ 24 + code * 2 ^ 16 + s.virt_key

abbrev pub effect : Effect → Keys → Keys
effect e s = record s { effects = e ∷ s.effects }

-- FMTK_SendMsg(hKeybdMbx) of a message for a key.
abbrev pub send_key : (fm code : ℕ) → Keys → Keys
send_key fm code s = effect (sends s.keybd_mbx fm (key_value code s) 0) s

-- `KeyState[VirtKey] = v`. The array has 256 elements.
unfoldable pub set_key : (v : ℕ) → M Keys (Unit {0})
set_key v s =
    if leb 256 s.virt_key
    then fault
    else ok tt (record s { key_state = update s.key_state s.virt_key v })

-- A key that is pressed: its virtual key is looked up.
abbrev pub press : (vk : ℕ) → Keys → Keys
press vk s = record s { key_state1 = 0; virt_key = vk }

-- `KeyState2 & 0x41`, `(KeyState2 & 2) && ScanCode==SC_TAB`
abbrev pub is_shift : Keys → Bool
is_shift s = has_bit s.key_state2 0 || has_bit s.key_state2 6

abbrev pub is_alt_tab : (code : ℕ) → Keys → Bool
is_alt_tab code s = has_bit s.key_state2 1 && (code == sc_tab)

abbrev pub clear_extend : Keys → Keys
clear_extend s = record s { key_state2 = clear_bit s.key_state2 7 }

abbrev pub clear_ctrl : Keys → Keys
clear_ctrl s = record s { key_state2 = clear_bit s.key_state2 2 }

abbrev pub clear_shift : Keys → Keys
clear_shift s = record s { key_state2 = clear_bit (clear_bit s.key_state2 0) 6 }

-- A key of the thread, while no key-up code came before it.
unfoldable pub key_down : Codes → (code : ℕ) → M Keys (Unit {0})
key_down t code s =
    if has_bit s.key_state2 7
    then set_key 0 (clear_extend (send_key fm_keydown code (press (t.extended (code % 128)) s)))
    else if has_bit s.key_state2 2
    then set_key 0 (
        clear_ctrl (
          send_key (if code == sc_c then fm_abort else fm_keydown) code
            (press (t.control (code % 128)) s)))
    else if is_shift s
    then set_key 0 (
        clear_shift (
          if is_alt_tab code s
          then effect (rotates true) (press (t.shifted code) s)
          else send_key fm_keydown code (press (t.shifted code) s)))
    else set_key 0 (
        if is_alt_tab code s
        then effect (rotates false) (press (t.unshifted code) s)
        else send_key fm_keydown code (press (t.unshifted code) s))

-- A key of the thread after a key-up code.
unfoldable pub key_up : (code : ℕ) → M Keys (Unit {0})
key_up code s = set_key 0xff (send_key fm_keyup code s)

-- What the thread does with a scan code, after the cases of the switch.
unfoldable pub scan_as : Codes → (code : ℕ) → Option Keys → M Keys (Unit {0})
scan_as t code (some c) s = ok tt c
scan_as t code none s = if s.key_state1 == 0 then key_down t code s else key_up code s

unfoldable pub scan : Codes → (code : ℕ) → M Keys (Unit {0})
scan t code s = scan_as t code (modifier code s) s

-- The answer to a query: the states of four keys.
abbrev pub four_keys : (d2 : ℕ) → Keys → ℕ
four_keys d2 s =
    s.key_state (d2 % 2 ^ 8)
    + s.key_state (d2 / 2 ^ 8 % 2 ^ 8) * 2 ^ 8
    + s.key_state (d2 / 2 ^ 16 % 2 ^ 8) * 2 ^ 16
    + s.key_state (d2 / 2 ^ 24 % 2 ^ 8) * 2 ^ 24

-- The loop of KeybdTranslateThread for one message; `failed` is a negative result of WaitMsg.
unfoldable pub handle_message : Codes → (failed : Bool) → (d1 d2 d3 : ℕ) → M Keys (Unit {0})
handle_message t failed d1 d2 d3 s =
    if failed
    then ok tt s
    else if d1 % 2 ^ 16 == fm_query_keybd
    then ok tt (effect (sends (d3 % 2 ^ 16) d1 d2 (four_keys d2 s)) s)
    else if d1 % 2 ^ 16 == fm_irq
    then scan t (d3 % 2 ^ 8) s
    else ok tt s

-- The state in which the thread starts. `mbx` is the mailbox of the system's ACB; VirtKey is not set.
unfoldable pub start_keys : (mbx : ℕ) → Keys → Keys
start_keys mbx s = record s {
  key_state1 = 0;
  key_state2 = 0;
  keybd_mbx = mbx;
  key_state = λ k. if ltb k 256 then 0xff else s.key_state k;
}
