-- ===== src/Sched/Turn.antt =====
-- Taking turns in a list: the first element that passes a test goes to the end, and those in front
-- of it go before it.
use rf.Prelude.{
  ℕ, ◌≡◌, ap, Bool, true, false, Option, none, some, List, [], ◌∷◌, ◌++◌, arith, ◌==◌,
  if◌then◌else◌, ◌∈◌, Bool-cases, inl, inr, ==-eq,
}

module _ (f : ℕ → Bool) where
  abbrev pub first_fit : List ℕ → Option ℕ
  first_fit [] = none
  first_fit (x ∷ xs) = if f x then some x else first_fit xs

  abbrev pub before : List ℕ → List ℕ
  before [] = []
  before (x ∷ xs) = if f x then [] else x ∷ before xs

  abbrev pub behind : List ℕ → List ℕ
  behind [] = []
  behind (x ∷ xs) = if f x then xs else behind xs

  abbrev pub turn : List ℕ → List ℕ
  turn xs = elim (first_fit xs) [ none ↦ xs | some x ↦ behind xs ++ (before xs ++ x ∷ []) ]

  pub fit-split : (x : ℕ) (xs : List ℕ) → first_fit xs ≡ some x → xs ≡ before xs ++ x ∷ behind xs
  fit-split x [] e = cc
  fit-split x (y ∷ xs) e = elim (Bool-cases (f y)) [
    | inl t ↦ ground arith
    | inr n ↦ rw n (ap (λ r. y ∷ r) (fit-split x xs (rw n at e)))
  ]

  pub fit-passes : (x : ℕ) (xs : List ℕ) → first_fit xs ≡ some x → f x ≡ true
  fit-passes x [] e = cc
  fit-passes x (y ∷ xs) e = elim (Bool-cases (f y)) [
    | inl t ↦ ground arith
    | inr n ↦ fit-passes x xs (rw n at e)
  ]

  pub before-fails : (xs : List ℕ) (a : ℕ) → a ∈ before xs → f a ≡ false
  before-fails [] a i = cc
  before-fails (y ∷ xs) a i = elim (Bool-cases (f y)) [
    | inl t ↦ ground arith
    | inr n ↦ elim (Bool-cases (a == y)) [
      | inl same ↦ rw (==-eq a y same) n
      | inr other ↦ before-fails xs a (rw other at (rw n at i))
    ]
  ]

  pub none-fails : (xs : List ℕ) → first_fit xs ≡ none → (a : ℕ) → a ∈ xs → f a ≡ false
  none-fails [] e a i = cc
  none-fails (y ∷ xs) e a i = elim (Bool-cases (f y)) [
    | inl t ↦ ground arith
    | inr n ↦ elim (Bool-cases (a == y)) [
      | inl same ↦ rw (==-eq a y same) n
      | inr other ↦ none-fails xs (rw n at e) a (rw other at i)
    ]
  ]

  pub turn_found :
      (x : ℕ) (xs : List ℕ) → first_fit xs ≡ some x → turn xs ≡ behind xs ++ (before xs ++ x ∷ [])
  turn_found x xs e = rw (e, turn)
