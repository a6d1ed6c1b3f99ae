-- ===== src/Prelude/Lists.antt =====
-- Lists of handles: ends, membership, distinctness, and lists measured by native numbers.
use Prim.Native.Nat.{ℕ, suc, ◌+◌, ◌≤◌, ◌<◌}
use mathlib.Core.Path.{◌≡◌, refl}
use mathlib.Core.Bool.{Bool, true, false, ◌||◌}
use mathlib.Core.List.{List, [], ◌∷◌, ◌++◌}
use native.Mathlib.Omega.{arith}
use package.rf.Prelude.Tests.{◌==◌, ne_comm}

module _ {ℓ} {A : Type ℓ} where
  abbrev pub length : List A → ℕ
  length [] = 0
  length (x ∷ xs) = suc (length xs)

  pub length-append : (xs ys : List A) → length (xs ++ ys) ≡ length xs + length ys
  length-append [] ys = omega arith
  length-append (x ∷ xs) ys = omega (arith, length-append xs ys)

-- The first element, or `d` for an empty list.
abbrev pub head_or : ℕ → List ℕ → ℕ
head_or d [] = d
head_or d (x ∷ xs) = x

-- The last element, or `d` for an empty list.
abbrev pub last_or : ℕ → List ℕ → ℕ
last_or d [] = d
last_or d (x ∷ xs) = last_or x xs

abbrev pub has : ℕ → List ℕ → Bool
has a [] = false
has a (x ∷ xs) = (a == x) || has a xs

infix 40 ◌∈◌ ◌∉◌
abbrev pub ◌∈◌ : ℕ → List ℕ → Type 0
a ∈ xs = has a xs ≡ true

abbrev pub ◌∉◌ : ℕ → List ℕ → Type 0
a ∉ xs = has a xs ≡ false

abbrev pub IsDistinct : List ℕ → Type 0
IsDistinct [] = Unit
IsDistinct (x ∷ xs) = (x ∉ xs) × IsDistinct xs

pub mem-head : (x : ℕ) (xs : List ℕ) → x ∈ x ∷ xs
mem-head x xs = ground arith

pub mem-tail : (a x : ℕ) (xs : List ℕ) → a ∈ xs → a ∈ x ∷ xs
mem-tail a x xs h = ground arith

pub not-mem-ne : (a b : ℕ) (xs : List ℕ) → a ∉ xs → b ∈ xs → (a == b) ≡ false
not-mem-ne a b [] h m = cc
not-mem-ne a b (x ∷ xs) h m = ground (arith, not-mem-ne a b xs)

-- Every element is a handle: not null, and not above `n`.
abbrev pub Handles : ℕ → List ℕ → Type 0
Handles n [] = Unit
Handles n (x ∷ xs) = (0 < x) × (x ≤ n) × Handles n xs

pub Handles-mem : (n : ℕ) (xs : List ℕ) (a : ℕ) → Handles n xs → a ∈ xs → (0 < a) × (a ≤ n)
Handles-mem n [] a v i = cc
Handles-mem n (x ∷ xs) a v i = ground (arith, Handles-mem n xs a v.2)

pub Handles-append : (n : ℕ) (xs ys : List ℕ) → Handles n xs → Handles n ys → Handles n (xs ++ ys)
Handles-append n [] ys v w = w
Handles-append n (x ∷ xs) ys v w = (v.0, v.1, Handles-append n xs ys v.2 w)

pub Handles-left : (n : ℕ) (xs ys : List ℕ) → Handles n (xs ++ ys) → Handles n xs
Handles-left n [] ys v = tt
Handles-left n (x ∷ xs) ys v = (v.0, v.1, Handles-left n xs ys v.2)

pub Handles-right : (n : ℕ) (xs ys : List ℕ) → Handles n (xs ++ ys) → Handles n ys
Handles-right n [] ys v = v
Handles-right n (x ∷ xs) ys v = Handles-right n xs ys v.2

pub head-ne : (x a : ℕ) (xs : List ℕ) → a ∉ x ∷ xs → (a == x) ≡ false
head-ne x a xs h = ground arith

pub not-mem-tail : (a x : ℕ) (xs : List ℕ) → a ∉ x ∷ xs → a ∉ xs
not-mem-tail a x xs h = ground arith

pub not-mem-cons : (a x : ℕ) (xs : List ℕ) → (a == x) ≡ false → a ∉ xs → a ∉ x ∷ xs
not-mem-cons a x xs e h = ground arith

pub has-append : (a : ℕ) (xs ys : List ℕ) → has a (xs ++ ys) ≡ (has a xs || has a ys)
has-append a [] ys = refl
has-append a (x ∷ xs) ys = ground (arith, has-append a xs ys)

pub last_or-append : (d x : ℕ) (xs ys : List ℕ) → last_or d (xs ++ x ∷ ys) ≡ last_or x ys
last_or-append d x [] ys = refl
last_or-append d x (y ∷ xs) ys = last_or-append y x xs ys

pub head_or-append : (d : ℕ) (xs ys : List ℕ) → head_or d (xs ++ ys) ≡ head_or (head_or d ys) xs
head_or-append d [] ys = refl
head_or-append d (x ∷ xs) ys = refl

pub last_or-mem : (x : ℕ) (xs : List ℕ) → last_or x xs ∈ x ∷ xs
last_or-mem x [] = ground arith
last_or-mem x (y ∷ xs) = ground (arith, last_or-mem y xs)

pub IsDistinct-left : (xs ys : List ℕ) → IsDistinct (xs ++ ys) → IsDistinct xs
IsDistinct-left [] ys d = tt
IsDistinct-left (x ∷ xs) ys d = (ground (arith, has-append x xs ys), IsDistinct-left xs ys d.1)

pub IsDistinct-right : (xs ys : List ℕ) → IsDistinct (xs ++ ys) → IsDistinct ys
IsDistinct-right [] ys d = d
IsDistinct-right (x ∷ xs) ys d = IsDistinct-right xs ys d.1

pub IsDistinct-apart : (xs ys : List ℕ) → IsDistinct (xs ++ ys) → (a : ℕ) → a ∈ xs → a ∉ ys
IsDistinct-apart [] ys d a i = cc
IsDistinct-apart (x ∷ xs) ys d a i =
    ground (arith, IsDistinct-apart xs ys d.1 a, has-append a xs ys)

pub IsDistinct-append :
    (xs ys : List ℕ)
    → IsDistinct xs
    → IsDistinct ys
    → ((a : ℕ) → a ∈ xs → a ∉ ys)
    → IsDistinct (xs ++ ys)
IsDistinct-append [] ys d e apart = e
IsDistinct-append (x ∷ xs) ys d e apart = (
  ground (arith, has-append x xs ys, apart x),
  IsDistinct-append xs ys d.1 e (λ a i. apart a (ground arith)),
)

pub mem-left : (a : ℕ) (xs ys : List ℕ) → a ∈ xs → a ∈ xs ++ ys
mem-left a [] ys i = cc
mem-left a (x ∷ xs) ys i = ground (arith, mem-left a xs ys)

pub mem-right : (a : ℕ) (xs ys : List ℕ) → a ∈ ys → a ∈ xs ++ ys
mem-right a [] ys i = i
mem-right a (x ∷ xs) ys i = mem-tail a x (xs ++ ys) (mem-right a xs ys i)

-- Of the two parts of a list without repeats, neither holds a node of the other.
pub parts-ne :
    (xs ys : List ℕ) → IsDistinct (xs ++ ys) → (a b : ℕ) → a ∈ xs → b ∈ ys → (a == b) ≡ false
parts-ne xs ys d a b i j = not-mem-ne a b ys (IsDistinct-apart xs ys d a i) j

-- The list without its node `h` in the middle.
pub IsDistinct-remove : (h : ℕ) (xs ys : List ℕ) → IsDistinct (xs ++ h ∷ ys) → IsDistinct (xs ++ ys)
IsDistinct-remove h [] ys d = d.1
IsDistinct-remove h (x ∷ xs) ys d =
    (ground (arith, has-append x xs (h ∷ ys), has-append x xs ys), IsDistinct-remove h xs ys d.1)

pub not-mem-middle : (h : ℕ) (xs ys : List ℕ) → IsDistinct (xs ++ h ∷ ys) → h ∉ xs ++ ys
not-mem-middle h [] ys d = d.0
not-mem-middle h (x ∷ xs) ys d =
    ground (arith, has-append x xs (h ∷ ys), not-mem-middle h xs ys d.1)

pub not-mem-one : (a b : ℕ) → (a == b) ≡ false → a ∉ b ∷ []
not-mem-one a b h = rw h

pub mem-middle : (h : ℕ) (xs ys : List ℕ) → h ∈ xs ++ h ∷ ys
mem-middle h xs ys = mem-right h xs (h ∷ ys) (mem-head h ys)

pub mem-remove : (a h : ℕ) (xs ys : List ℕ) → a ∈ xs ++ ys → a ∈ xs ++ h ∷ ys
mem-remove a h [] ys i = mem-tail a h ys i
mem-remove a h (x ∷ xs) ys i = ground (arith, mem-remove a h xs ys)

-- The first node after `x ∷ xs` on the way round.
pub head_or-mem : (x : ℕ) (xs ys : List ℕ) → head_or x ys ∈ x ∷ xs ++ ys
head_or-mem x xs [] = mem-head x (xs ++ [])
head_or-mem x xs (y ∷ ys) = mem-right y (x ∷ xs) (y ∷ ys) (mem-head y ys)

pub not-mem-left : (a : ℕ) (xs ys : List ℕ) → a ∉ xs ++ ys → a ∉ xs
not-mem-left a xs ys h = ground (arith, has-append a xs ys)

pub not-mem-right : (a : ℕ) (xs ys : List ℕ) → a ∉ xs ++ ys → a ∉ ys
not-mem-right a xs ys h = ground (arith, has-append a xs ys)

-- A handle that is not in the list is neither its first nor its last element, nor null.
pub ne-head_or : (a : ℕ) (xs : List ℕ) → 0 < a → a ∉ xs → (a == head_or 0 xs) ≡ false
ne-head_or a [] pos out = ground arith
ne-head_or a (x ∷ xs) pos out = head-ne x a xs out

pub ne-last_or : (a : ℕ) (xs : List ℕ) → 0 < a → a ∉ xs → (a == last_or 0 xs) ≡ false
ne-last_or a [] pos out = ground arith
ne-last_or a (x ∷ xs) pos out = not-mem-ne a (last_or x xs) (x ∷ xs) out (last_or-mem x xs)

pub IsDistinct-insert :
    (h : ℕ) (xs ys : List ℕ) → IsDistinct (xs ++ ys) → h ∉ xs ++ ys → IsDistinct (xs ++ h ∷ ys)
IsDistinct-insert h [] ys d out = (out, d)
IsDistinct-insert h (x ∷ xs) ys d out = (
  ground (
    arith,
    has-append x xs ys,
    has-append x xs (h ∷ ys),
    ne_comm h x (head-ne x h (xs ++ ys) out),
  ),
  IsDistinct-insert h xs ys d.1 (not-mem-tail h x (xs ++ ys) out),
)

pub head_or-le : (n : ℕ) (xs : List ℕ) → Handles n xs → head_or 0 xs ≤ n
head_or-le n [] v = omega arith
head_or-le n (x ∷ xs) v = v.1

pub last_or-le : (n : ℕ) (xs : List ℕ) → Handles n xs → last_or 0 xs ≤ n
last_or-le n [] v = omega arith
last_or-le n (x ∷ xs) v = (Handles-mem n (x ∷ xs) (last_or x xs) v (last_or-mem x xs)).1
