-- ===== src/Links.antt =====
-- Doubly linked lists through two tables of handles, `nx` for the links forward and `pv` for those
-- back: the shape of the ready queues, the timeout list and the thread queues of the mailboxes.
pub mod Ring
pub mod Chain
pub mod Rotate
use rf.Prelude.{
  ℕ, ◌≡◌, ◌∙◌, false, List, [], ◌∷◌, ◌++◌, ◌==◌, head_or, last_or, ◌∈◌, IsDistinct, last_or-mem,
  mem-head, mem-tail, not-mem-ne, ne_comm,
}

module _ (nx pv : ℕ → ℕ) where
  -- The nodes `xs` in order, entered from `p` and left to `e`.
  abbrev pub Seg : ℕ → List ℕ → ℕ → Type 0
  Seg p [] e = Unit
  Seg p (x ∷ xs) e = (pv x ≡ p) × (nx x ≡ head_or e xs) × Seg x xs e

  -- A circular list: the last node leads back to the first.
  abbrev pub Ring : List ℕ → Type 0
  Ring [] = Unit
  Ring (x ∷ xs) = Seg (last_or x xs) (x ∷ xs) x

module _ (nx pv : ℕ → ℕ) where
  pub Seg-left :
      (p : ℕ) (xs ys : List ℕ) (e : ℕ) → Seg nx pv p (xs ++ ys) e → Seg nx pv p xs (head_or e ys)
  Seg-left p [] ys e s = tt
  Seg-left p (x ∷ []) ys e s = (s.0, s.1, tt)
  Seg-left p (x ∷ y ∷ xs) ys e s = (s.0, s.1, Seg-left x (y ∷ xs) ys e s.2)

  pub Seg-right :
      (p : ℕ) (xs ys : List ℕ) (e : ℕ) → Seg nx pv p (xs ++ ys) e → Seg nx pv (last_or p xs) ys e
  Seg-right p [] ys e s = s
  Seg-right p (x ∷ xs) ys e s = Seg-right x xs ys e s.2

  pub Seg-append :
      (p : ℕ) (xs ys : List ℕ) (e : ℕ)
      → Seg nx pv p xs (head_or e ys)
      → Seg nx pv (last_or p xs) ys e
      → Seg nx pv p (xs ++ ys) e
  Seg-append p [] ys e s t = t
  Seg-append p (x ∷ []) ys e s t = (s.0, s.1, t)
  Seg-append p (x ∷ y ∷ xs) ys e s t = (s.0, s.1, Seg-append x (y ∷ xs) ys e s.2 t)

module _ (nx pv nx' pv' : ℕ → ℕ) where
  -- A segment survives any change that spares its nodes.
  pub Seg-frame :
      (p : ℕ) (xs : List ℕ) (e : ℕ)
      → ((a : ℕ) → a ∈ xs → (nx' a ≡ nx a) × (pv' a ≡ pv a))
      → Seg nx pv p xs e
      → Seg nx' pv' p xs e
  Seg-frame p [] e same s = tt
  Seg-frame p (x ∷ xs) e same s =
      let here = same x (mem-head x xs) in
      (here.1 ∙ s.0, here.0 ∙ s.1, Seg-frame x xs e (λ a i. same a (mem-tail a x xs i)) s.2)

  -- The link out of the last node is changed.
  pub Seg-set_last :
      (p x : ℕ) (xs : List ℕ) (e e' : ℕ)
      → IsDistinct (x ∷ xs)
      → nx' (last_or x xs) ≡ e'
      → ((a : ℕ) → a ∈ x ∷ xs → pv' a ≡ pv a)
      → ((a : ℕ) → a ∈ x ∷ xs → (a == last_or x xs) ≡ false → nx' a ≡ nx a)
      → Seg nx pv p (x ∷ xs) e
      → Seg nx' pv' p (x ∷ xs) e'
  Seg-set_last p x [] e e' d out back same s = (back x (mem-head x []) ∙ s.0, out, tt)
  Seg-set_last p x (y ∷ xs) e e' d out back same s = (
    back x (mem-head x (y ∷ xs)) ∙ s.0,
    same x (mem-head x (y ∷ xs)) (not-mem-ne x (last_or y xs) (y ∷ xs) d.0 (last_or-mem y xs))
        ∙ s.1,
    Seg-set_last x y xs e e' d.1 out (λ a i. back a (mem-tail a x (y ∷ xs) i))
        (λ a i. same a (mem-tail a x (y ∷ xs) i)) s.2,
  )

  -- The link back from the first node is changed.
  pub Seg-set_first :
      (p p' x : ℕ) (xs : List ℕ) (e : ℕ)
      → pv' x ≡ p'
      → ((a : ℕ) → a ∈ x ∷ xs → nx' a ≡ nx a)
      → ((a : ℕ) → a ∈ xs → pv' a ≡ pv a)
      → Seg nx pv p (x ∷ xs) e
      → Seg nx' pv' p' (x ∷ xs) e
  Seg-set_first p p' x xs e into out same s = (
    into,
    out x (mem-head x xs) ∙ s.1,
    Seg-frame x xs e (λ a i. (out a (mem-tail a x xs i), same a i)) s.2,
  )

  -- Both outer links are changed.
  pub Seg-set_ends :
      (p p' x : ℕ) (xs : List ℕ) (e e' : ℕ)
      → IsDistinct (x ∷ xs)
      → pv' x ≡ p'
      → nx' (last_or x xs) ≡ e'
      → ((a : ℕ) → a ∈ x ∷ xs → (a == x) ≡ false → pv' a ≡ pv a)
      → ((a : ℕ) → a ∈ x ∷ xs → (a == last_or x xs) ≡ false → nx' a ≡ nx a)
      → Seg nx pv p (x ∷ xs) e
      → Seg nx' pv' p' (x ∷ xs) e'
  Seg-set_ends p p' x [] e e' d into out back same s = (into, out, tt)
  Seg-set_ends p p' x (y ∷ xs) e e' d into out back same s = (
    into,
    same x (mem-head x (y ∷ xs)) (not-mem-ne x (last_or y xs) (y ∷ xs) d.0 (last_or-mem y xs))
        ∙ s.1,
    Seg-set_last x y xs e e' d.1 out
        (λ a i. back a (mem-tail a x (y ∷ xs) i) (ne_comm x a (not-mem-ne x a (y ∷ xs) d.0 i)))
        (λ a i. same a (mem-tail a x (y ∷ xs) i)) s.2,
  )
