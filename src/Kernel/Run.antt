-- ===== src/Kernel/Run.antt =====
-- Outcomes of kernel code over a state: it returns, stops in `panic`, goes through a null or wild
-- pointer, or is still in a loop when the fuel is used up.
use mathlib.Core.Path.{subst}
use rf.Prelude.{◌≡◌, refl, sym, Bool, true, false, if◌then◌else◌, Option, none, some}

pub data Run (S A : Type 0) : Type 0 where
  ok : A → S → Run S A
  panic : Run S A
  fault : Run S A
  spin : Run S A

abbrev pub M : Type 0 → Type 0 → Type 0
M S A = S → Run S A

module _ {S A B : Type 0} where
  abbrev pub and_then : Run S A → (A → M S B) → Run S B
  and_then (ok a s) k = k a s
  and_then panic k = panic
  and_then fault k = fault
  and_then spin k = spin

  infixl 5 ◌>>=◌ ◌>>◌
  abbrev pub ◌>>=◌ : M S A → (A → M S B) → M S B
  ◌>>=◌ m k s = and_then (m s) k

  abbrev pub ◌>>◌ : M S A → M S B → M S B
  m >> n = m >>= λ _. n

-- A run on one part of the state, and what follows on the whole.
abbrev pub chain : {S T A B : Type 0} → Run S A → (A → S → Run T B) → Run T B
chain (ok a s) k = k a s
chain panic k = panic
chain fault k = fault
chain spin k = spin

-- Total correctness: the code returns, and its result and final state satisfy `P`.
abbrev pub Returns : {S A : Type 0} → (A → S → Type 0) → Run S A → Type 0
Returns P (ok a s) = P a s
Returns P panic = ⊥
Returns P fault = ⊥
Returns P spin = ⊥

pub returns :
    {S A : Type 0} (P : A → S → Type 0) {r : Run S A} {a : A} {s : S}
    → r ≡ ok a s
    → P a s
    → Returns P r
returns P e p = subst (Returns P) (sym e) p

-- Code in sequence: what the first part ensures is what the second may use.
pub Returns-then :
    {S A B : Type 0} (P : A → S → Type 0) (Q : B → S → Type 0) (r : Run S A) (k : A → M S B)
    → Returns P r
    → ((a : A) (s : S) → P a s → Returns Q (k a s))
    → Returns Q (and_then r k)
Returns-then P Q (ok a s) k p f = f a s p
Returns-then P Q panic k p f = absurd p
Returns-then P Q fault k p f = absurd p
Returns-then P Q spin k p f = absurd p

-- Partial correctness: where the code returns, its result and final state satisfy `P`.
abbrev pub Ends : {S A : Type 0} → (A → S → Type 0) → Run S A → Type 0
Ends P (ok a s) = P a s
Ends P panic = Unit
Ends P fault = Unit
Ends P spin = Unit

pub Ends-then :
    {S A B : Type 0} (P : A → S → Type 0) (Q : B → S → Type 0) (r : Run S A) (k : A → M S B)
    → Ends P r
    → ((a : A) (s : S) → P a s → Ends Q (k a s))
    → Ends Q (and_then r k)
Ends-then P Q (ok a s) k p f = f a s p
Ends-then P Q panic k p f = tt
Ends-then P Q fault k p f = tt
Ends-then P Q spin k p f = tt

pub Ends-chain :
    {S T A B : Type 0} (P : A → S → Type 0) (Q : B → T → Type 0) (r : Run S A) (k : A → S → Run T B)
    → Ends P r
    → ((a : A) (s : S) → P a s → Ends Q (k a s))
    → Ends Q (chain r k)
Ends-chain P Q (ok a s) k p f = f a s p
Ends-chain P Q panic k p f = tt
Ends-chain P Q fault k p f = tt
Ends-chain P Q spin k p f = tt

-- Where nothing is known of the first part.
pub Ends-any : {S A : Type 0} (r : Run S A) → Ends (λ _ _. Unit {0}) r
Ends-any (ok a s) = tt
Ends-any panic = tt
Ends-any fault = tt
Ends-any spin = tt

pub Ends-if :
    {S A : Type 0} (P : A → S → Type 0) (b : Bool) (r t : Run S A)
    → Ends P r
    → Ends P t
    → Ends P (if b then r else t)
Ends-if P true r t p q = p
Ends-if P false r t p q = q

pub Returns-if :
    {S A : Type 0} (P : A → S → Type 0) (b : Bool) (r t : Run S A)
    → Returns P r
    → Returns P t
    → Returns P (if b then r else t)
Returns-if P true r t p q = p
Returns-if P false r t p q = q

pub Returns-case :
    {S A : Type 0} (P : A → S → Type 0) (b : Bool) (f g : M S A) (s : S)
    → (b ≡ true → Returns P (f s))
    → (b ≡ false → Returns P (g s))
    → Returns P ((if b then f else g) s)
Returns-case P true f g s p q = p refl
Returns-case P false f g s p q = q refl

-- What is known of each way to return, added to total correctness.
pub Returns-Ends :
    {S A : Type 0} (P Q : A → S → Type 0) (r : Run S A)
    → Returns P r
    → Ends Q r
    → Returns (λ a s. P a s × Q a s) r
Returns-Ends P Q (ok a s) p q = (p, q)
Returns-Ends P Q panic p q = absurd p
Returns-Ends P Q fault p q = absurd p
Returns-Ends P Q spin p q = absurd p

-- The pointer `o` is followed.
pub Ends-follow :
    {S A B : Type 0} (P : A → S → Type 0) (o : Option B) (k : B → Run S A)
    → ((t : B) → Ends P (k t))
    → Ends P (elim o [ none ↦ fault | some t ↦ k t ])
Ends-follow P none k f = tt
Ends-follow P (some t) k f = f t

pub Ends-branch :
    {S A : Type 0} (P : A → S → Type 0) (b : Bool) (f g : M S A) (s : S)
    → Ends P (f s)
    → Ends P (g s)
    → Ends P ((if b then f else g) s)
Ends-branch P true f g s p q = p
Ends-branch P false f g s p q = q

pub Ends-weaken :
    {S A : Type 0} (P Q : A → S → Type 0) (r : Run S A)
    → ((a : A) (s : S) → P a s → Q a s)
    → Ends P r
    → Ends Q r
Ends-weaken P Q (ok a s) f p = f a s p
Ends-weaken P Q panic f p = tt
Ends-weaken P Q fault f p = tt
Ends-weaken P Q spin f p = tt

pub Returns-branch :
    {S A : Type 0} (P : A → S → Type 0) (b : Bool) (f g : M S A) (s : S)
    → Returns P (f s)
    → Returns P (g s)
    → Returns P ((if b then f else g) s)
Returns-branch P true f g s p q = p
Returns-branch P false f g s p q = q

pub Returns-weaken :
    {S A : Type 0} (P Q : A → S → Type 0) (r : Run S A)
    → ((a : A) (s : S) → P a s → Q a s)
    → Returns P r
    → Returns Q r
Returns-weaken P Q (ok a s) f p = f a s p
Returns-weaken P Q panic f p = absurd p
Returns-weaken P Q fault f p = absurd p
Returns-weaken P Q spin f p = absurd p
