-- ===== src/Links/Chain.antt =====
-- Insertion and removal in a list that ends in the null handle at both sides.
use mathlib.Core.Path.{subst, ap}
use rf.Prelude.{
  ℕ, ◌≡◌, ◌∙◌, false, List, [], ◌∷◌, ◌++◌, ◌==◌, if◌then◌else◌, head_or, last_or, ◌∈◌, ◌∉◌,
  IsDistinct, IsDistinct-left, IsDistinct-right, last_or-mem, mem-head, mem-tail, not-mem-ne,
  ne_comm, mem-left, mem-right, parts-ne, eq_self,
}
use rf.Links.{Seg, Seg-left, Seg-right, Seg-append, Seg-set_last, Seg-set_first}

module _ (nx pv nx' pv' : ℕ → ℕ) where
  -- The tables change at most in the link out of the last node of `xs`, which becomes `e`, and in
  -- the link back from the first node of `ys`, which becomes `p`.
  abbrev pub Relinked : (xs ys : List ℕ) (e p : ℕ) → Type 0
  Relinked xs ys e p =
      (a : ℕ)
      → a ∈ xs ++ ys
      → (nx' a ≡ (if a == last_or 0 xs then e else nx a))
        × (pv' a ≡ (if a == head_or 0 ys then p else pv a))

  Seg-relink_last :
      (p e₀ e : ℕ) (xs : List ℕ)
      → IsDistinct xs
      → ((a : ℕ) → a ∈ xs → nx' a ≡ (if a == last_or 0 xs then e else nx a))
      → ((a : ℕ) → a ∈ xs → pv' a ≡ pv a)
      → Seg nx pv p xs e₀
      → Seg nx' pv' p xs e
  Seg-relink_last p e₀ e [] d out back s = tt
  Seg-relink_last p e₀ e (x ∷ xs) d out back s =
      Seg-set_last nx pv nx' pv' p x xs e₀ e d
        (out (last_or x xs) (last_or-mem x xs)
          ∙ ap (λ b. if b then e else nx (last_or x xs)) (eq_self (last_or x xs)))
        back (λ a i ne. out a i ∙ ap (λ b. if b then e else nx a) ne) s

  Seg-relink_first :
      (p₀ p : ℕ) (ys : List ℕ) (e : ℕ)
      → IsDistinct ys
      → ((a : ℕ) → a ∈ ys → pv' a ≡ (if a == head_or 0 ys then p else pv a))
      → ((a : ℕ) → a ∈ ys → nx' a ≡ nx a)
      → Seg nx pv p₀ ys e
      → Seg nx' pv' p ys e
  Seg-relink_first p₀ p [] e d back out s = tt
  Seg-relink_first p₀ p (y ∷ ys) e d back out s =
      Seg-set_first nx pv nx' pv' p₀ p y ys e
        (back y (mem-head y ys) ∙ ap (λ b. if b then p else pv y) (eq_self y)) out
        (λ a i.
          back a (mem-tail a y ys i)
          ∙ ap (λ b. if b then p else pv a) (ne_comm y a (not-mem-ne y a ys d.0 i)))
        s

  module _ (xs ys : List ℕ) (e p : ℕ) (d : IsDistinct (xs ++ ys)) (live : 0 ∉ xs ++ ys)
      (changed : Relinked xs ys e p) where
    head-ne : (a : ℕ) → a ∈ xs → (a == head_or 0 ys) ≡ false
    head-ne a i = go ys d live
      where
        go : (zs : List ℕ) → IsDistinct (xs ++ zs) → 0 ∉ xs ++ zs → (a == head_or 0 zs) ≡ false
        go [] d' l = ne_comm 0 a (not-mem-ne 0 a (xs ++ []) l (mem-left a xs [] i))
        go (z ∷ zs) d' l = parts-ne xs (z ∷ zs) d' a z i (mem-head z zs)

    last-ne : (a : ℕ) → a ∈ ys → (a == last_or 0 xs) ≡ false
    last-ne a i = go xs d live
      where
        go : (zs : List ℕ) → IsDistinct (zs ++ ys) → 0 ∉ zs ++ ys → (a == last_or 0 zs) ≡ false
        go [] d' l = ne_comm 0 a (not-mem-ne 0 a ys l i)
        go (z ∷ zs) d' l =
            ne_comm (last_or z zs) a (parts-ne (z ∷ zs) ys d' (last_or z zs) a (last_or-mem z zs) i)

    left-back : (a : ℕ) → a ∈ xs → pv' a ≡ pv a
    left-back a i =
        (changed a (mem-left a xs ys i)).1 ∙ ap (λ b. if b then p else pv a) (head-ne a i)

    right-out : (a : ℕ) → a ∈ ys → nx' a ≡ nx a
    right-out a i =
        (changed a (mem-right a xs ys i)).0 ∙ ap (λ b. if b then e else nx a) (last-ne a i)

    pub Chain-relink_left : (e₀ : ℕ) → Seg nx pv 0 xs e₀ → Seg nx' pv' 0 xs e
    Chain-relink_left e₀ s =
        Seg-relink_last 0 e₀ e xs (IsDistinct-left xs ys d)
          (λ a i. (changed a (mem-left a xs ys i)).0) left-back s

    pub Chain-relink_right : (p₀ : ℕ) → Seg nx pv p₀ ys 0 → Seg nx' pv' p ys 0
    Chain-relink_right p₀ s =
        Seg-relink_first p₀ p ys 0 (IsDistinct-right xs ys d)
          (λ a i. (changed a (mem-right a xs ys i)).1) right-out s

    -- The two parts are joined.
    pub Chain-join :
        (e₀ p₀ : ℕ)
        → e ≡ head_or 0 ys
        → p ≡ last_or 0 xs
        → Seg nx pv 0 xs e₀
        → Seg nx pv p₀ ys 0
        → Seg nx' pv' 0 (xs ++ ys) 0
    Chain-join e₀ p₀ ee pp s t =
        Seg-append nx' pv' 0 xs ys 0 (subst (λ q. Seg nx' pv' 0 xs q) ee (Chain-relink_left e₀ s))
          (subst (λ q. Seg nx' pv' q ys 0) pp (Chain-relink_right p₀ t))

    -- A node `h` is put between the two parts.
    pub Chain-insert :
        (h : ℕ)
        → e ≡ h
        → p ≡ h
        → nx' h ≡ head_or 0 ys
        → pv' h ≡ last_or 0 xs
        → Seg nx pv 0 (xs ++ ys) 0
        → Seg nx' pv' 0 (xs ++ h ∷ ys) 0
    Chain-insert h ee pp out into s =
        Seg-append nx' pv' 0 xs (h ∷ ys) 0
          (subst (λ q. Seg nx' pv' 0 xs q) ee
            (Chain-relink_left (head_or 0 ys) (Seg-left nx pv 0 xs ys 0 s)))
          (
            into,
            out,
            subst (λ q. Seg nx' pv' q ys 0) pp
                (Chain-relink_right (last_or 0 xs) (Seg-right nx pv 0 xs ys 0 s)),
          )
