-- ===== src/Links/Rotate.antt =====
-- A circular list may be entered at any of its nodes.
use mathlib.Core.Path.{subst}
use rf.Prelude.{
  ℕ, sym, List, [], ◌∷◌, ◌++◌, last_or, ◌∈◌, ◌∉◌, has, IsDistinct, IsDistinct-left,
  IsDistinct-right, IsDistinct-apart, IsDistinct-append, last_or-append, append-nil, Handles,
  Handles-append, Handles-left, Handles-right, Bool-cases, inl, inr,
}
use rf.Links.{Seg, Ring, Seg-left, Seg-right, Seg-append}

pub Ring-rotate : (nx pv : ℕ → ℕ) (xs ys : List ℕ) → Ring nx pv (xs ++ ys) → Ring nx pv (ys ++ xs)
Ring-rotate nx pv [] ys r = subst (Ring nx pv) (sym (append-nil ys)) r
Ring-rotate nx pv (x ∷ xs) [] r = subst (Ring nx pv) (append-nil (x ∷ xs)) r
Ring-rotate nx pv (x ∷ xs) (y ∷ ys) r =
    let p : ℕ = last_or x (xs ++ y ∷ ys) in
    let left : Seg nx pv p (x ∷ xs) y = Seg-left nx pv p (x ∷ xs) (y ∷ ys) x r in
    let right : Seg nx pv (last_or x xs) (y ∷ ys) x = Seg-right nx pv p (x ∷ xs) (y ∷ ys) x r in
    subst (λ q. Seg nx pv q ((y ∷ ys) ++ x ∷ xs) y) (sym (last_or-append y x ys xs))
      (Seg-append nx pv (last_or x xs) (y ∷ ys) (x ∷ xs) y right
        (subst (λ q. Seg nx pv q (x ∷ xs) y) (last_or-append x y xs ys) left))

pub IsDistinct-rotate : (xs ys : List ℕ) → IsDistinct (xs ++ ys) → IsDistinct (ys ++ xs)
IsDistinct-rotate xs ys d =
    IsDistinct-append ys xs (IsDistinct-right xs ys d) (IsDistinct-left xs ys d) apart
  where
    apart : (a : ℕ) → a ∈ ys → a ∉ xs
    apart a i = elim (Bool-cases (has a xs)) [
      | inl j ↦ absurd (cc (IsDistinct-apart xs ys d a j))
      | inr o ↦ o
    ]

pub Handles-rotate : (n : ℕ) (xs ys : List ℕ) → Handles n (xs ++ ys) → Handles n (ys ++ xs)
Handles-rotate n xs ys v = Handles-append n ys xs (Handles-right n xs ys v) (Handles-left n xs ys v)
