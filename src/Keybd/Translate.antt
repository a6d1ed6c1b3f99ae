-- ===== src/Keybd/Translate.antt =====
-- software/Femtiki/source/drivers/KeybdTranslateThread.c: KeybdTranslate.
use rf.Prelude.{ℕ, ◌%◌, ◌^◌, Bool, true, false, Option, none, some, ◌==◌, ltb, if◌then◌else◌}
use rf.Kernel.Run.{ok, M, ◌>>◌}
use rf.Memory.Bits.{has_bit}
use rf.Keybd.{
  Codes, Keys, modifier, key_value, effect, set_key, press, is_shift, is_alt_tab, clear_extend,
  clear_ctrl, clear_shift, rotates, empties,
}

-- A key of KeybdTranslate: what is left of the state, then the value of the key.
abbrev pub key_result : (code : ℕ) → Keys → M Keys ℕ
key_result code c s = (set_key 0 >> λ d. ok (key_value code d) d) c

-- The focus is moved by KeybdTranslate; there is no key then.
abbrev pub rotate_focus : (back : Bool) → Keys → Keys
rotate_focus back s = effect (rotates back) (effect empties s)

unfoldable pub translate_down : Codes → (code : ℕ) → M Keys ℕ
translate_down t code s =
    if has_bit s.key_state2 7
    then key_result code (clear_extend (press (t.extended (code % 128)) s)) s
    else if has_bit s.key_state2 2
    then key_result code (clear_ctrl (press (t.control (code % 128)) s)) s
    else if is_shift s
    then (if is_alt_tab code s
        then ok 0 (rotate_focus true (press (t.shifted code) s))
        else key_result code (clear_shift (press (t.shifted code) s)) s)
    else if is_alt_tab code s
    then ok 0 (rotate_focus false (press (t.unshifted code) s))
    else key_result code (press (t.unshifted code) s) s

unfoldable pub translate_up : (code : ℕ) → M Keys ℕ
translate_up code s = (set_key 0xff >> λ d. ok (key_value code d) d) s

-- All keys are up at the first call.
abbrev pub first_call : Keys → Keys
first_call s = record s {
  first = false;
  key_state1 = 0;
  key_state2 = 0;
  key_state = λ k. if ltb k 256 then 0xff else s.key_state k;
}

unfoldable pub translate_as : Codes → (code : ℕ) → Option Keys → M Keys ℕ
translate_as t code (some c) s = ok 0 c
translate_as t code none s =
    if s.key_state1 == 0 then translate_down t code s else translate_up code s

-- KeybdTranslate. Its variables KeyState1, KeyState2 and VirtKey are not kept from call to call: `s1`, `s2`
-- and `vk` are what they hold.
unfoldable pub keybd_translate : Codes → (s1 s2 vk scancode : ℕ) → M Keys ℕ
keybd_translate t s1 s2 vk scancode s =
    let c = record s { key_state1 = s1; key_state2 = s2; virt_key = vk } in
    let d = if s.first then first_call c else c in
    translate_as t (scancode % 2 ^ 8) (modifier (scancode % 2 ^ 8) d) d
