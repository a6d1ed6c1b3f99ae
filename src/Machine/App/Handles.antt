-- ===== src/Machine/App/Handles.antt =====
-- The handles of apps.
use rf.Prelude.{
  ℕ, zero, suc, ◌+◌, ◌≤◌, ◌<◌, ◌≡◌, refl, sym, Bool, true, false, Option, none, some, arith, ◌==◌,
  ==-eq, if◌then◌else◌, update, Bool-cases, inl, inr, ◌⊎◌,
}
use rf.Kernel.Run.{Returns}
use rf.Kernel.State.{Kernel}
use rf.Thread.{free_acb}
use rf.Machine.App.{find_acb, list_acb, find_free_acb}

-- The outcome of the search from `nn` on, among `n`.
abbrev pub FindAcb : (n nn : ℕ) → (ℕ → Bool) → Option ℕ → Type 0
FindAcb n nn listed none = (a : ℕ) → nn ≤ a → a < nn + n → listed a ≡ true
FindAcb n nn listed (some h) =
    (nn ≤ h) × (h < nn + n) × (listed h ≡ false) × ((a : ℕ) → nn ≤ a → a < h → listed a ≡ true)

module _ (listed : ℕ → Bool) where
  more :
      (n nn : ℕ) (o : Option ℕ)
      → listed nn ≡ true
      → FindAcb n (nn + 1) listed o
      → FindAcb (suc n) nn listed o
  more n nn none e f = λ a lo hi. elim (Bool-cases (nn == a)) [
    | inl s ↦ let eq : nn ≡ a = ==-eq nn a s in rw eq at e
    | inr s ↦ f a (ground arith) (omega arith)
  ]
  more n nn (some h) e f = (
    omega (arith, f.0),
    omega (arith, f.1),
    f.2,
    λ a lo hi. elim (Bool-cases (nn == a)) [
      | inl s ↦ let eq : nn ≡ a = ==-eq nn a s in rw eq at e
      | inr s ↦ f.3 a (ground arith) hi
    ],
  )

  find_acb-FindAcb : (n nn : ℕ) → FindAcb n nn listed (find_acb n nn listed)
  unfolding find_acb
  find_acb-FindAcb zero nn = λ a lo hi. absurd (omega arith)
  find_acb-FindAcb (suc n) nn = elim (Bool-cases (listed nn)) [
    | inl e ↦ rw e (more n nn (find_acb n (nn + 1) listed) e (find_acb-FindAcb n (nn + 1)))
    | inr e ↦ rw e (omega arith, omega arith, e, λ a lo hi. absurd (omega arith))
  ]

-- A handle was listed that was not, and nothing else; or all are listed, and nothing changed. FreeACB takes
-- the handle off again.
abbrev pub Handed : Kernel → ℕ → Kernel → Type 0
Handed k r c =
    ((r ≡ 0) × (c ≡ k) × FindAcb 31 1 k.apps.listed none)
    ⊎ (FindAcb 31 1 k.apps.listed (some r)
        × ((a : ℕ) → c.apps.listed a ≡ (if r == a then true else k.apps.listed a))
        × ((a : ℕ) → (free_acb r c).apps.listed a ≡ k.apps.listed a))

-- FindFreeACB returns the first handle from 1 to 31 that is not listed, and lists it; FreeACB makes the list
-- what it was. If all of them are listed it returns 0 and changes nothing.
pub find_free_acb-first : (k : Kernel) → Returns (Handed k) (find_free_acb k)
unfolding find_free_acb list_acb
find_free_acb-first k = go (find_acb 31 1 k.apps.listed) (find_acb-FindAcb k.apps.listed 31 1)
  where
    back :
        (h : ℕ)
        → k.apps.listed h ≡ false
        → (a : ℕ) → update (update k.apps.listed h true) h false a ≡ k.apps.listed a
    back h e a = elim (Bool-cases (h == a)) [
      | inl s ↦ let eq : h ≡ a = ==-eq h a s in rw (s, sym (rw eq at e)) refl
      | inr s ↦ rw s refl
    ]

    go : (o : Option ℕ) → FindAcb 31 1 k.apps.listed o → Returns (Handed k) (list_acb o k)
    go none f = inl (refl, refl, f)
    go (some h) f = inr (f, λ a. refl, back h f.2)
