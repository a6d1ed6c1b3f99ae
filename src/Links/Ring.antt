-- ===== src/Links/Ring.antt =====
-- Insertion and removal in a circular list, as facts about the two tables before and after.
use mathlib.Core.Path.{subst}
use rf.Prelude.{
  ℕ, ◌≡◌, sym, ◌∙◌, false, List, [], ◌∷◌, ◌++◌, ◌==◌, head_or, last_or, ◌∈◌, IsDistinct,
  IsDistinct-left, IsDistinct-right, IsDistinct-remove, last_or-append, last_or-mem, mem-head,
  mem-tail, not-mem-ne, ne_comm, mem-left, mem-right, parts-ne, append-nil,
}
use rf.Links.{Seg, Ring, Seg-left, Seg-right, Seg-append, Seg-set_ends, Seg-set_last, Seg-set_first}

module _ (nx pv nx' pv' : ℕ → ℕ) where
  -- `h` enters a ring that is not empty between its last node and its first.
  pub Ring-snoc :
      (h x : ℕ) (xs : List ℕ)
      → IsDistinct (x ∷ xs)
      → nx' h ≡ x
      → pv' h ≡ last_or x xs
      → nx' (last_or x xs) ≡ h
      → pv' x ≡ h
      → ((a : ℕ) → a ∈ x ∷ xs → (a == x) ≡ false → pv' a ≡ pv a)
      → ((a : ℕ) → a ∈ x ∷ xs → (a == last_or x xs) ≡ false → nx' a ≡ nx a)
      → Ring nx pv (x ∷ xs)
      → Ring nx' pv' ((x ∷ xs) ++ h ∷ [])
  Ring-snoc h x xs d out into last first back same r =
      let whole : Seg nx' pv' h (x ∷ xs ++ h ∷ []) x =
        Seg-append nx' pv' h (x ∷ xs) (h ∷ []) x
          (Seg-set_ends nx pv nx' pv' (last_or x xs) h x xs x h d first last back same r)
          (into, out, tt) in
      subst (λ q. Seg nx' pv' q ((x ∷ xs) ++ h ∷ []) x) (sym (last_or-append x h xs [])) whole

  -- `h` leaves a ring of which it is not the first node: its neighbours are joined.
  pub Ring-remove_inner :
      (h x : ℕ) (xs ys : List ℕ)
      → IsDistinct (x ∷ xs ++ h ∷ ys)
      → pv' (head_or x ys) ≡ last_or x xs
      → nx' (last_or x xs) ≡ head_or x ys
      → ((a : ℕ) → a ∈ x ∷ xs ++ ys → (a == head_or x ys) ≡ false → pv' a ≡ pv a)
      → ((a : ℕ) → a ∈ x ∷ xs ++ ys → (a == last_or x xs) ≡ false → nx' a ≡ nx a)
      → Ring nx pv ((x ∷ xs) ++ h ∷ ys)
      → Ring nx' pv' ((x ∷ xs) ++ ys)
  Ring-remove_inner h x xs [] d first last back same r =
      subst (Ring nx' pv') (sym (append-nil (x ∷ xs))) (
        Seg-set_ends nx pv nx' pv' (last_or x (xs ++ h ∷ [])) (last_or x xs) x xs h x
          (IsDistinct-left (x ∷ xs) (h ∷ []) d) first last
          (λ a i. back a (mem-left a (x ∷ xs) [] i)) (λ a i. same a (mem-left a (x ∷ xs) [] i))
          (Seg-left nx pv (last_or x (xs ++ h ∷ [])) (x ∷ xs) (h ∷ []) x r))
  Ring-remove_inner h x xs (y ∷ ys) d first last back same r =
      let d' : IsDistinct ((x ∷ xs) ++ y ∷ ys) = IsDistinct-remove h (x ∷ xs) (y ∷ ys) d in
      let p : ℕ = last_or x (xs ++ h ∷ y ∷ ys) in
      let left : Seg nx' pv' p (x ∷ xs) y =
        Seg-set_last nx pv nx' pv' p x xs h y (IsDistinct-left (x ∷ xs) (y ∷ ys) d') last
          (λ a i.
            back a (mem-left a (x ∷ xs) (y ∷ ys) i)
              (parts-ne (x ∷ xs) (y ∷ ys) d' a y i (mem-head y ys)))
          (λ a i. same a (mem-left a (x ∷ xs) (y ∷ ys) i))
          (Seg-left nx pv p (x ∷ xs) (h ∷ y ∷ ys) x r) in
      let right : Seg nx' pv' (last_or x xs) (y ∷ ys) x =
        Seg-set_first nx pv nx' pv' h (last_or x xs) y ys x first
          (λ a i. same a (mem-right a (x ∷ xs) (y ∷ ys) i) (
            ne_comm (last_or x xs) a
              (parts-ne (x ∷ xs) (y ∷ ys) d' (last_or x xs) a (last_or-mem x xs) i)))
          (λ a i.
            back a (mem-right a (x ∷ xs) (y ∷ ys) (mem-tail a y ys i))
              (ne_comm y a (not-mem-ne y a ys (IsDistinct-right (x ∷ xs) (y ∷ ys) d').0 i)))
          (Seg-right nx pv p (x ∷ xs) (h ∷ y ∷ ys) x r).2 in
      let same_end : last_or x (xs ++ y ∷ ys) ≡ p =
        last_or-append x y xs ys ∙ sym (last_or-append x h xs (y ∷ ys)) in
      subst (λ q. Seg nx' pv' q ((x ∷ xs) ++ y ∷ ys) x) (sym same_end)
        (Seg-append nx' pv' p (x ∷ xs) (y ∷ ys) x left right)

  -- `h` leaves a ring of which it is the first node, and not the only one.
  pub Ring-remove_first :
      (h y : ℕ) (ys : List ℕ)
      → IsDistinct (h ∷ y ∷ ys)
      → pv' y ≡ last_or y ys
      → nx' (last_or y ys) ≡ y
      → ((a : ℕ) → a ∈ y ∷ ys → (a == y) ≡ false → pv' a ≡ pv a)
      → ((a : ℕ) → a ∈ y ∷ ys → (a == last_or y ys) ≡ false → nx' a ≡ nx a)
      → Ring nx pv (h ∷ y ∷ ys)
      → Ring nx' pv' (y ∷ ys)
  Ring-remove_first h y ys d first last back same r =
      Seg-set_ends nx pv nx' pv' h (last_or y ys) y ys h y d.1 first last back same r.2
