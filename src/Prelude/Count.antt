-- ===== src/Prelude/Count.antt =====
-- There are no more distinct handles than the limit allows.
use Prim.Native.Nat.{ℕ, zero, suc, ◌≤◌}
use mathlib.Core.Path.{refl}
use mathlib.Core.Logic.{inl, inr}
use mathlib.Core.List.{List, [], ◌∷◌}
use native.Mathlib.Omega.{arith}
use package.rf.Prelude.Tests.{◌==◌, if◌then◌else◌, Bool-cases}
use package.rf.Prelude.Lists.{length, ◌∉◌, IsDistinct, Handles, not-mem-cons, head-ne, not-mem-tail}

erase_first : ℕ → List ℕ → List ℕ
erase_first k [] = []
erase_first k (x ∷ xs) = if k == x then xs else x ∷ erase_first k xs

not-mem-erase_first : (a k : ℕ) (xs : List ℕ) → a ∉ xs → a ∉ erase_first k xs
unfolding erase_first
not-mem-erase_first a k [] out = refl
not-mem-erase_first a k (x ∷ xs) out = elim (Bool-cases (k == x)) [
  | inl e ↦ rw e (not-mem-tail a x xs out)
  | inr e ↦ rw e (
      not-mem-cons a x (erase_first k xs) (head-ne x a xs out)
        (not-mem-erase_first a k xs (not-mem-tail a x xs out)))
]

IsDistinct-erase_first : (k : ℕ) (xs : List ℕ) → IsDistinct xs → IsDistinct (erase_first k xs)
unfolding erase_first
IsDistinct-erase_first k [] d = tt
IsDistinct-erase_first k (x ∷ xs) d = elim (Bool-cases (k == x)) [
  | inl e ↦ rw e d.1
  | inr e ↦ rw e (not-mem-erase_first x k xs d.0, IsDistinct-erase_first k xs d.1)
]

length-erase_first : (k : ℕ) (xs : List ℕ) → length xs ≤ suc (length (erase_first k xs))
unfolding erase_first
length-erase_first k [] = omega arith
length-erase_first k (x ∷ xs) = ground (arith, length-erase_first k xs)

Handles-lower : (n : ℕ) (xs : List ℕ) → suc n ∉ xs → Handles (suc n) xs → Handles n xs
Handles-lower n [] out v = tt
Handles-lower n (x ∷ xs) out v =
    (v.0, ground arith, Handles-lower n xs (not-mem-tail (suc n) x xs out) v.2)

Handles-erase_first :
    (n : ℕ) (xs : List ℕ) → IsDistinct xs → Handles (suc n) xs → Handles n (erase_first (suc n) xs)
unfolding erase_first
Handles-erase_first n [] d v = tt
Handles-erase_first n (x ∷ xs) d v = elim (Bool-cases (suc n == x)) [
  | inl e ↦ rw e (Handles-lower n xs (ground arith) v.2)
  | inr e ↦ rw e (v.0, ground arith, Handles-erase_first n xs d.1 v.2)
]

pub length-le-Handles : (n : ℕ) (xs : List ℕ) → Handles n xs → IsDistinct xs → length xs ≤ n
length-le-Handles zero [] v d = omega arith
length-le-Handles zero (x ∷ xs) v d = absurd (omega arith)
length-le-Handles (suc n) xs v d = omega (
  arith,
  length-erase_first (suc n) xs,
  length-le-Handles n (erase_first (suc n) xs) (Handles-erase_first n xs d v)
      (IsDistinct-erase_first (suc n) xs d),
)
