-- ===== src/Memory/Map/Find.antt =====
-- What the search for a free page finds.
use rf.Prelude.{
  ℕ, zero, suc, ◌+◌, ◌-◌, ◌*◌, ◌/◌, ◌%◌, ◌≤◌, ◌<◌, ◌≡◌, refl, sym, ◌⊎◌, true, false, ◌||◌, arith,
  ◌==◌, ==-eq, leb, if◌then◌else◌, update, Bool-cases, inl, inr, Option, none, some,
}
use rf.Kernel.Run.{ok, fault, Run, Returns}
use rf.Memory.Bits.{
  has_bit, set_bit, IsFull, ones-IsFull, first_clear, first_clear-some, first_clear-none,
}
use rf.Memory.State.{Memory, dram_base, pam_words, n_pages, mem_page_size}
use rf.Memory.Map.{find_free_page, find_from, take_page, search_word, page_address, wrapped}
use rf.Memory.Map.Marks.{in_use, set_in_use}

-- The first clear bit of a word, or none and the word is full.
abbrev pub WordResult : (wd : ℕ) → Option ℕ → Type 0
WordResult wd none = IsFull wd
WordResult wd (some c) = (c < 32) × (has_bit wd c ≡ false) × ((j : ℕ) → j < c → has_bit wd j ≡ true)

pub search_word-result : (wd : ℕ) → WordResult wd (search_word wd)
unfolding search_word
search_word-result wd = elim (Bool-cases (wd == 0xffff_ffff)) [
  | inl e ↦ let eq : wd ≡ 0xffff_ffff = ==-eq wd 0xffff_ffff e in rw e (rw eq ones-IsFull)
  | inr e ↦ rw e (go (first_clear 32 0 wd) refl)
]
  where
    go : (o : Option ℕ) → first_clear 32 0 wd ≡ o → WordResult wd o
    go none e = λ j l. first_clear-none 32 0 wd e j l
    go (some c) e =
        let r = first_clear-some 32 0 wd c e in
        let z : c - 0 ≡ c = omega arith in (omega (arith, r.1), rw z at r.2, rw z at r.3)

module _ (m : Memory) where
  -- Every page of the words from `nn` up to `w` is in use.
  abbrev pub FullWords : (nn w : ℕ) → Type 0
  FullWords nn w = (a : ℕ) → nn ≤ a → a < w → IsFull (m.pam a)

  -- The word `w` is the first one from `nn` on that has a free page, and bit `c` is its first one.
  abbrev pub FirstFree : (nn w c : ℕ) → Type 0
  FirstFree nn w c =
      (nn ≤ w)
      × (w < pam_words)
      × (c < 32)
      × (has_bit (m.pam w) c ≡ false)
      × ((j : ℕ) → j < c → has_bit (m.pam w) j ≡ true)
      × FullWords nn w

  -- One turn of the loop, at a word that is full.
  from_full :
      (count nn : ℕ)
      → nn < pam_words
      → search_word (m.pam nn) ≡ none
      → find_from (suc count) nn m ≡ find_from count (nn + 1) m
  unfolding find_from
  from_full count nn l e =
      let w : wrapped nn ≡ nn = ground arith in
      let i : leb pam_words nn ≡ false = ground arith in rw (w, i, e) refl

  from_free :
      (count nn c : ℕ)
      → nn < pam_words
      → search_word (m.pam nn) ≡ some c
      → find_from (suc count) nn m ≡ take_page nn c m
  unfolding find_from
  from_free count nn c l e =
      let w : wrapped nn ≡ nn = ground arith in
      let i : leb pam_words nn ≡ false = ground arith in rw (w, i, e) refl

  -- The outcome of the loop: it takes the first free page up to the end of PAM; if there is none, it
  -- goes past the end, or stops there when the count is used up.
  abbrev pub Search : (count nn : ℕ) → Run Memory ℕ → Type 0
  Search count nn r =
      ((w : ℕ) × (c : ℕ) × (r ≡ take_page w c m) × (w < nn + count) × FirstFree nn w c)
      ⊎ ((r ≡ ok 0 m) × (nn + count ≤ pam_words) × FullWords nn (nn + count))
      ⊎ ((r ≡ fault) × (pam_words < nn + count) × FullWords nn pam_words)

  -- One more full word before.
  more_full : (nn w : ℕ) → IsFull (m.pam nn) → FullWords (nn + 1) w → FullWords nn w
  more_full nn w f g a lo hi = elim (Bool-cases (nn == a)) [
    | inl e ↦ let eq : nn ≡ a = ==-eq nn a e in rw (sym eq) f
    | inr e ↦ g a (ground arith) hi
  ]

  past_full :
      (count nn : ℕ)
      → nn < pam_words
      → IsFull (m.pam nn)
      → (r : Run Memory ℕ) → Search count (nn + 1) r
      → Search (suc count) nn r
  past_full count nn l f r (inl (w, c, e, b, s)) =
      inl (w, c, e, omega arith, (omega (arith, s.0), s.1, s.2, s.3, s.4, more_full nn w f s.5))
  past_full count nn l f r (inr (inl (e, b, g))) =
      inr (inl (e, omega arith, more_full nn (nn + suc count) f (λ a lo hi. g a lo (omega arith))))
  past_full count nn l f r (inr (inr (e, b, g))) =
      inr (inr (e, omega arith, more_full nn pam_words f g))

  at_word-Search :
      (count nn : ℕ)
      → nn < pam_words
      → Search count (nn + 1) (find_from count (nn + 1) m)
      → (o : Option ℕ) → search_word (m.pam nn) ≡ o
      → WordResult (m.pam nn) o
      → Search (suc count) nn (find_from (suc count) nn m)
  at_word-Search count nn l ih none e f =
      rw (from_full count nn l e) (past_full count nn l f (find_from count (nn + 1) m) ih)
  at_word-Search count nn l ih (some c) e f = inl (
    nn,
    c,
    from_free count nn c l e,
    omega arith,
    (omega arith, l, f.0, f.1, f.2, λ a lo hi. absurd (omega arith)),
  )

  past_end : (count : ℕ) → find_from (suc count) pam_words m ≡ fault
  unfolding find_from
  past_end count = refl

  none_left : (nn : ℕ) → find_from 0 nn m ≡ ok 0 m
  unfolding find_from
  none_left nn = refl

  pub find_from-Search : (count nn : ℕ) → nn ≤ pam_words → Search count nn (find_from count nn m)
  find_from-Search zero nn l =
      inr (inl (none_left nn, omega arith, λ a lo hi. absurd (omega arith)))
  find_from-Search (suc count) nn l = elim (Bool-cases (nn == pam_words)) [
    | inl e ↦
        let eq : nn ≡ pam_words = ==-eq nn pam_words e in
        rw eq (inr (inr (past_end count, omega arith, λ a lo hi. absurd (omega arith))))
    | inr e ↦
        at_word-Search count nn (ground arith) (find_from-Search count (nn + 1) (ground arith))
          (search_word (m.pam nn)) refl (search_word-result (m.pam nn))
  ]

-- The page with the number `i` is free, and those before it are in use, from the word of the last
-- search on.
abbrev pub IsNextFree : Memory → (i : ℕ) → Type 0
IsNextFree m i =
    (m.last_word ≤ i / 32)
    × (in_use m i ≡ false)
    × ((j : ℕ) → m.last_word ≤ j / 32 → j < i → in_use m j ≡ true)

-- What a successful search leaves: page `i` is in use as well.
abbrev pub Taken : Memory → (i p : ℕ) → Memory → Type 0
Taken m i p m' =
    (p ≡ dram_base + i * mem_page_size)
    × (m'.last_word ≡ i / 32)
    × ((j : ℕ) → in_use m' j ≡ ((i == j) || in_use m j))

abbrev after_take : Memory → (w c : ℕ) → Memory
after_take m w c = record m { pam = update m.pam w (set_bit (m.pam w) c); last_word = w }

take_eq : (m : Memory) (w c : ℕ) → take_page w c m ≡ ok (page_address w c) (after_take m w c)
unfolding take_page
take_eq m w c = refl

-- The number of the page that the loop takes.
module _ (m : Memory) (w c : ℕ) (s : FirstFree m m.last_word w c) where
  the_word : (w * 32 + c) / 32 ≡ w
  the_word = omega (arith, s.2)

  the_bit : (w * 32 + c) % 32 ≡ c
  the_bit = omega (arith, s.2)

  taken_bits : (j : ℕ) → in_use (after_take m w c) j ≡ ((w * 32 + c == j) || in_use m j)
  taken_bits j = let p = set_in_use m (w * 32 + c) j in rw (the_word, the_bit) at p

  page_bits : (j : ℕ) → m.last_word ≤ j / 32 → j < w * 32 + c → in_use m j ≡ true
  page_bits j lo hi = elim (Bool-cases (j / 32 == w)) [
    | inl e ↦ let eq : j / 32 ≡ w = ==-eq (j / 32) w e in rw eq (s.4 (j % 32) (omega (arith, eq)))
    | inr e ↦ s.5 (j / 32) lo (ground (arith, s.2)) (j % 32) (omega arith)
  ]

  found_page :
      (i : ℕ) × (i < n_pages) × IsNextFree m i × Taken m i (page_address w c) (after_take m w c)
  found_page = (
    w * 32 + c,
    omega (arith, s.1, s.2),
    (rw the_word s.0, rw (the_word, the_bit) s.3, page_bits),
    (omega arith, sym the_word, taken_bits),
  )

-- FindFreePage from a word of the map where there is a free page from that word on: it returns the
-- address of the first such page, which lies in DRAM, and that page is in use then.
pub find_free_page-first :
    (m : Memory) (f : ℕ)
    → f < n_pages
    → m.last_word ≤ f / 32
    → in_use m f ≡ false
    → Returns (λ p m'. (i : ℕ) × (i < n_pages) × IsNextFree m i × Taken m i p m') (find_free_page m)
unfolding find_free_page
find_free_page-first m f hi lo free =
    go (find_from pam_words m.last_word m)
      (find_from-Search m pam_words m.last_word (omega (arith, lo, hi)))
  where
    Found : ℕ → Memory → Type 0
    Found p m' = (i : ℕ) × (i < n_pages) × IsNextFree m i × Taken m i p m'

    go : (r : Run Memory ℕ) → Search m pam_words m.last_word r → Returns Found r
    go r (inl (w, c, e, b, s)) = rw (e, take_eq m w c) (found_page m w c s)
    go r (inr (inl (e, b, g))) =
        let used : in_use m f ≡ true = g (f / 32) lo (omega arith) (f % 32) (omega arith) in cc
    go r (inr (inr (e, b, g))) =
        let used : in_use m f ≡ true = g (f / 32) lo (omega arith) (f % 32) (omega arith) in cc

-- FindFreePage where no page from the word of the last search on is free. From the first word it
-- returns NULL and changes nothing. From any other word of the map it reads past the end of the map.
pub find_free_page-none :
    (m : Memory)
    → m.last_word < pam_words
    → ((j : ℕ) → m.last_word ≤ j / 32 → j < n_pages → in_use m j ≡ true)
    → find_free_page m ≡ (if m.last_word == 0 then ok 0 m else fault)
unfolding find_free_page
find_free_page-none m l full =
    go (find_from pam_words m.last_word m)
      (find_from-Search m pam_words m.last_word (omega (arith, l)))
  where
    go :
        (r : Run Memory ℕ)
        → Search m pam_words m.last_word r
        → r ≡ (if m.last_word == 0 then ok 0 m else fault)
    go r (inl (w, c, e, b, s)) =
        let used : in_use m (w * 32 + c) ≡ true =
          full (w * 32 + c) (omega (arith, s.0, s.2)) (omega (arith, s.1, s.2)) in
        let bit : has_bit (m.pam w) c ≡ true = rw (the_word m w c s, the_bit m w c s) at used in
        absurd (ground (arith, bit, s.3))
    go r (inr (inl (e, b, g))) = let z : (m.last_word == 0) ≡ true = ground (arith, b) in rw z e
    go r (inr (inr (e, b, g))) = let z : (m.last_word == 0) ≡ false = ground (arith, b) in rw z e
