-- ===== src/Examples/Keys.antt =====
-- The theorems on the keyboard driver, at small states.
use rf.Prelude.{◌+◌, if◌then◌else◌, refl, none, false, none, some, [], ◌∷◌, arith}
use rf.Kernel.Run.{Returns}
use rf.Memory.Bits.{has_bit}
use rf.Keybd.{Codes, Keys, sc_keyup, sc_lshift, sc_c}
use rf.Keybd.Release.{scan_all, LetGo, OnlyUps, lshift, scan_all-LetGo, scan_all-OnlyUps}
use rf.Keybd.Focus.{Focus}

abbrev plain_codes : Codes
plain_codes = record {
  extended = λ c. c;
  control = λ c. c;
  shifted = λ c. c + 128;
  unshifted = λ c. c;
}

-- The key `c` was pressed.
abbrev c_pressed : Keys
c_pressed = record {
  key_state1 = 0;
  key_state2 = 0;
  virt_key = sc_c;
  key_state = λ _. 0xff;
  keybd_mbx = 1;
  first = false;
  effects = [];
}

-- A key-up code came.
abbrev key_up_pending : Keys
key_up_pending = record c_pressed { key_state1 = 255 }

scan_all-LetGo_example :
    Returns
      (λ _ c. LetGo 0 c_pressed c)
      (scan_all plain_codes (sc_lshift ∷ sc_keyup ∷ sc_lshift ∷ []) c_pressed)
scan_all-LetGo_example = scan_all-LetGo plain_codes lshift c_pressed refl

scan_all-OnlyUps_example :
    Returns
      (λ _ c. OnlyUps (sc_c ∷ 0x77 ∷ 0xf0 ∷ 0x32 ∷ []) key_up_pending c)
      (scan_all plain_codes (sc_c ∷ 0x77 ∷ 0xf0 ∷ 0x32 ∷ []) key_up_pending)
scan_all-OnlyUps_example =
    scan_all-OnlyUps plain_codes (sc_c ∷ 0x77 ∷ 0xf0 ∷ 0x32 ∷ []) key_up_pending
      (refl, (refl, (refl, (refl, tt)))) refl (omega arith)

-- The apps 0, 3 and 5 are in the list, 3 has the keyboard.
abbrev three_apps : Focus
three_apps = record {
  list = 41;
  ndx = 3;
  keybd_mbx = 4;
  mailbox = λ n. if has_bit 41 n then some (n + 1) else none;
}
