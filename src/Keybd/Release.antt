-- ===== src/Keybd/Release.antt =====
-- Keys that are released: the shift keys, and all others.
use rf.Prelude.{
  ℕ, ◌+◌, ◌*◌, ◌^◌, ◌<◌, ◌≡◌, ◌∙◌, refl, Bool, true, false, not, ◌&&◌, ◌||◌, List, [], ◌∷◌, arith,
  ◌==◌, ==-eq, eq_self, leb, if◌then◌else◌, update, Bool-cases, inl, inr, ◌⊎◌,
}
use rf.Kernel.Run.{ok, M, ◌>>◌, Returns, Returns-weaken}
use rf.Memory.Bits.{has_bit, set_bit, clear_bit, has-set, has-clear}
use rf.Keybd.{
  Codes, Keys, Effect, sends, modifier, scan_as, scan, set_key, key_up, sc_keyup, sc_ctrl,
  sc_lshift, sc_rshift, sc_alt,
}

-- The thread gets these scan codes one after another.
unfoldable pub scan_all : Codes → List ℕ → M Keys (Unit {0})
scan_all t [] s = ok tt s
scan_all t (code ∷ codes) s = let rest = scan_all t codes in (scan t code >> rest) s

-- The keys whose state the driver keeps while they are held.
pub data HeldKey : Type 0 where
  ctrl : HeldKey
  lshift : HeldKey
  rshift : HeldKey
  alt : HeldKey

abbrev pub code_of : HeldKey → ℕ
code_of ctrl = sc_ctrl
code_of lshift = sc_lshift
code_of rshift = sc_rshift
code_of alt = sc_alt

abbrev pub bit_of : HeldKey → ℕ
bit_of ctrl = 2
bit_of lshift = 0
bit_of rshift = 6
bit_of alt = 1

-- The shift state without the bit `b`, no key-up code pending, and nothing sent.
abbrev pub LetGo : (b : ℕ) → Keys → Keys → Type 0
LetGo b s c =
    (c.key_state1 ≡ 0)
    × ((j : ℕ) → has_bit c.key_state2 j ≡ (not (b == j) && has_bit s.key_state2 j))
    × (c.virt_key ≡ s.virt_key)
    × (c.key_state ≡ s.key_state)
    × (c.effects ≡ s.effects)

set_clear : (w b j : ℕ) → has_bit (clear_bit (set_bit w b) b) j ≡ (not (b == j) && has_bit w j)
set_clear w b j = has-clear (set_bit w b) b j ∙ ground (arith, has-set w b j)

-- A shift key that is pressed and released, while no key-up code is pending: its bit is clear then, the other
-- bits, the states of the keys and the messages are as before, and no key-up code is pending.
pub scan_all-LetGo :
    (t : Codes) (k : HeldKey) (s : Keys)
    → s.key_state1 ≡ 0
    → Returns (λ _ c. LetGo (bit_of k) s c) (scan_all t (code_of k ∷ sc_keyup ∷ code_of k ∷ []) s)
unfolding scan_all scan scan_as modifier
scan_all-LetGo t ctrl s e = rw e (refl, set_clear s.key_state2 2, refl, refl, refl)
scan_all-LetGo t lshift s e = rw e (refl, set_clear s.key_state2 0, refl, refl, refl)
scan_all-LetGo t rshift s e = rw e (refl, set_clear s.key_state2 6, refl, refl, refl)
scan_all-LetGo t alt s e = rw e (refl, set_clear s.key_state2 1, refl, refl, refl)

-- Control, a shift key or alt: a key whose state is kept while it is held.
abbrev pub is_held : (code : ℕ) → Bool
is_held code = (code == 0x14) || (code == 0x12) || (code == 0x59) || (code == 0x11)

-- None of the codes is that of a held key.
abbrev pub NoHeld : List ℕ → Type 0
NoHeld [] = Unit
NoHeld (code ∷ codes) = (is_held code ≡ false) × NoHeld codes

-- Key-up and extend, which come before the code of a key, and the three lock keys.
abbrev pub is_silent : (code : ℕ) → Bool
is_silent code =
    (code == 0xf0) || (code == 0xe0) || (code == 0x77) || (code == 0x58) || (code == 0x7e)

abbrev pub toggled : (w b : ℕ) → ℕ
toggled w b = if has_bit w b then clear_bit w b else set_bit w b

-- The extend bit and those of the lock keys after a code.
abbrev pub flags : (code w : ℕ) → ℕ
flags code w =
    if code == 0xe0
    then set_bit w 7
    else if code == 0x77
    then toggled w 3
    else if code == 0x58
    then toggled w 4
    else if code == 0x7e
    then toggled w 5
    else w

abbrev pub flags_of : List ℕ → ℕ → ℕ
flags_of [] w = w
flags_of (code ∷ codes) w = flags_of codes (flags code w)

-- One of the codes is that of an ordinary key.
abbrev pub some_key : List ℕ → Bool
some_key [] = false
some_key (code ∷ codes) = not (is_silent code) || some_key codes

-- The messages that `mbx` gets for these codes: one for each ordinary key, that the key `vk` was released.
abbrev pub ups_onto : (mbx w vk : ℕ) → List ℕ → List Effect → List Effect
ups_onto mbx w vk [] es = es
ups_onto mbx w vk (code ∷ codes) es =
    ups_onto mbx (flags code w) vk codes
      (if is_silent code then es else sends mbx 0x101 (w * 2 ^ 24 + code * 2 ^ 16 + vk) 0 ∷ es)

-- Only releases of the key of `s`.
abbrev pub OnlyUps : List ℕ → Keys → Keys → Type 0
OnlyUps codes s c =
    ((c.key_state1 ≡ s.key_state1) ⊎ (c.key_state1 ≡ 255))
    × (c.key_state2 ≡ flags_of codes s.key_state2)
    × (c.virt_key ≡ s.virt_key)
    × (c.keybd_mbx ≡ s.keybd_mbx)
    × ((k : ℕ) → (s.virt_key == k) ≡ false → c.key_state k ≡ s.key_state k)
    × (c.key_state s.virt_key ≡ (if some_key codes then 0xff else s.key_state s.virt_key))
    × (c.effects ≡ ups_onto s.keybd_mbx s.key_state2 s.virt_key codes s.effects)

-- One code.
abbrev upped : (code : ℕ) → Keys → Keys
upped code s = record s {
  key_state1 = if code == 0xf0 then 255 else s.key_state1;
  key_state2 = flags code s.key_state2;
  key_state = if is_silent code then s.key_state else update s.key_state s.virt_key 0xff;
  effects =
      if is_silent code
      then s.effects
      else sends s.keybd_mbx 0x101 (s.key_state2 * 2 ^ 24 + code * 2 ^ 16 + s.virt_key) 0
        ∷ s.effects;
}

-- A code with a case of its own.
own_case :
    (t : Codes) (code n : ℕ) (s : Keys)
    → (code == n) ≡ true
    → scan t n s ≡ ok tt (upped n s)
    → scan t code s ≡ ok tt (upped code s)
own_case t code n s e h = let eq : code ≡ n = ==-eq code n e in rw eq h

ordinary_up :
    (t : Codes) (code : ℕ) (s : Keys)
    → is_held code ≡ false
    → is_silent code ≡ false
    → (s.key_state1 == 0) ≡ false
    → s.virt_key < 256
    → scan t code s ≡ ok tt (upped code s)
unfolding scan scan_as modifier key_up set_key
ordinary_up t code s h q u l =
    let b : leb 256 s.virt_key ≡ false = ground arith in
    let h1 : (code == 0x14) ≡ false = ground (arith, h) in
    let h2 : (code == 0x12) ≡ false = ground (arith, h) in
    let h3 : (code == 0x59) ≡ false = ground (arith, h) in
    let h4 : (code == 0x11) ≡ false = ground (arith, h) in
    let q1 : (code == 0xf0) ≡ false = ground (arith, q) in
    let q2 : (code == 0xe0) ≡ false = ground (arith, q) in
    let q3 : (code == 0x77) ≡ false = ground (arith, q) in
    let q4 : (code == 0x58) ≡ false = ground (arith, q) in
    let q5 : (code == 0x7e) ≡ false = ground (arith, q) in
    rw (h1, h2, h3, h4, q1, q2, q3, q4, q5, u, b) refl

scan_up :
    (t : Codes) (code : ℕ) (s : Keys)
    → is_held code ≡ false
    → (s.key_state1 == 0) ≡ false
    → s.virt_key < 256
    → scan t code s ≡ ok tt (upped code s)
unfolding scan scan_as modifier
scan_up t code s h u l = elim (Bool-cases (is_silent code)) [
  | inr q ↦ ordinary_up t code s h q u l
  | inl q ↦ elim (Bool-cases (code == 0xf0)) [
    | inl e ↦ own_case t code 0xf0 s e refl
    | inr e1 ↦ elim (Bool-cases (code == 0xe0)) [
      | inl e ↦ own_case t code 0xe0 s e refl
      | inr e2 ↦ elim (Bool-cases (code == 0x77)) [
        | inl e ↦ own_case t code 0x77 s e refl
        | inr e3 ↦ elim (Bool-cases (code == 0x58)) [
          | inl e ↦ own_case t code 0x58 s e refl
          | inr e4 ↦
              let e : (code == 0x7e) ≡ true = ground (arith, q, e1, e2, e3, e4) in
              own_case t code 0x7e s e refl
        ]
      ]
    ]
  ]
]

still_pending :
    (code : ℕ) (s : Keys) → (s.key_state1 == 0) ≡ false → ((upped code s).key_state1 == 0) ≡ false
still_pending code s u = elim (Bool-cases (code == 0xf0)) [ inl e ↦ rw e refl | inr e ↦ rw e u ]

pending_from :
    (code x : ℕ) (s : Keys)
    → (x ≡ (upped code s).key_state1) ⊎ (x ≡ 255)
    → (x ≡ s.key_state1) ⊎ (x ≡ 255)
pending_from code x s (inr e) = inr e
pending_from code x s (inl e) = elim (Bool-cases (code == 0xf0)) [
  | inl z ↦ inr (rw z at e)
  | inr z ↦ inl (rw z at e)
]

other_key :
    (code k : ℕ) (s : Keys) → (s.virt_key == k) ≡ false → (upped code s).key_state k ≡ s.key_state k
other_key code k s n = elim (Bool-cases (is_silent code)) [
  | inl e ↦ rw e refl
  | inr e ↦ rw (e, n) refl
]

own_key :
    (code x : ℕ) (b : Bool) (s : Keys)
    → x ≡ (if b then 0xff else (upped code s).key_state s.virt_key)
    → x ≡ (if not (is_silent code) || b then 0xff else s.key_state s.virt_key)
own_key code x b s h = elim (Bool-cases (is_silent code)) [
  | inl e ↦ rw e (rw e at h)
  | inr e ↦ rw e (last b (rw (e, eq_self s.virt_key) at h))
]
  where
    last : (c : Bool) → x ≡ (if c then 0xff else 0xff) → x ≡ 0xff
    last true g = g
    last false g = g

-- A key-up code that is pending stays so until control, a shift key or alt is pressed or released: for any
-- codes but those, whatever lock keys, key-up and extend codes are among them, only releases are sent, one for
-- each ordinary key, all of them of the key that was pressed last. That key is up then if there was one; no
-- other key changes its state.
pub scan_all-OnlyUps :
    (t : Codes) (codes : List ℕ) (s : Keys)
    → NoHeld codes
    → (s.key_state1 == 0) ≡ false
    → s.virt_key < 256
    → Returns (λ _ c. OnlyUps codes s c) (scan_all t codes s)
unfolding scan_all
scan_all-OnlyUps t [] s o u l = (inl refl, refl, refl, refl, λ k n. refl, refl, refl)
scan_all-OnlyUps t (code ∷ codes) s o u l = rw (scan_up t code s o.0 u l) (
    Returns-weaken (λ _ c. OnlyUps codes (upped code s) c) (λ _ c. OnlyUps (code ∷ codes) s c)
      (scan_all t codes (upped code s))
      (λ _ c q. (
        pending_from code c.key_state1 s q.0,
        q.1,
        q.2,
        q.3,
        λ k n. q.4 k n ∙ other_key code k s n,
        own_key code (c.key_state s.virt_key) (some_key codes) s q.5,
        q.6,
      ))
      (scan_all-OnlyUps t codes (upped code s) o.1 (still_pending code s u) l))
