-- ===== src/Msg/Queue/Shape.antt =====
-- What the message queue of a mailbox stands for: the list of its messages, oldest first.
use rf.Prelude.{
  ℕ, ◌≤◌, ◌≡◌, ◌∙◌, false, List, [], ◌∷◌, ◌++◌, ◌==◌, head_or, last_or, length, ◌∈◌, IsDistinct,
  Handles, mem-head, mem-tail, last_or-mem, not-mem-ne,
}
use rf.Kernel.Config.{nr_msg}
use rf.Kernel.State.{Box}

abbrev pub links : Box → ℕ → ℕ
links b h = (b.pool.message h).link

-- The nodes `xs` in order through the links `nx`, left to `e`.
abbrev pub Line : (nx : ℕ → ℕ) → List ℕ → ℕ → Type 0
Line nx [] e = Unit
Line nx (x ∷ xs) e = (nx x ≡ head_or e xs) × Line nx xs e

-- `xs` are the messages of the queue. The count is not below their number: a repeated message is
-- counted although it takes no place.
pub record IsQueued (b : Box) (xs : List ℕ) : Type 0 where
  pub head : b.mbx.mq_head ≡ head_or 0 xs
  pub tail : b.mbx.mq_tail ≡ last_or 0 xs
  pub line : Line (links b) xs 0
  pub distinct : IsDistinct xs
  pub handles : Handles nr_msg xs
  pub counted : length xs ≤ b.mbx.mq_count

pub Line-frame :
    (nx nx' : ℕ → ℕ) (xs : List ℕ) (e : ℕ)
    → ((a : ℕ) → a ∈ xs → nx' a ≡ nx a)
    → Line nx xs e
    → Line nx' xs e
Line-frame nx nx' [] e same l = tt
Line-frame nx nx' (x ∷ xs) e same l =
    (same x (mem-head x xs) ∙ l.0, Line-frame nx nx' xs e (λ a i. same a (mem-tail a x xs i)) l.1)

-- A node is put behind the last one.
pub Line-snoc :
    (nx nx' : ℕ → ℕ) (x : ℕ) (xs : List ℕ) (h e e' : ℕ)
    → IsDistinct (x ∷ xs)
    → nx' (last_or x xs) ≡ h
    → nx' h ≡ e'
    → ((a : ℕ) → a ∈ x ∷ xs → (a == last_or x xs) ≡ false → nx' a ≡ nx a)
    → Line nx (x ∷ xs) e
    → Line nx' (x ∷ xs ++ h ∷ []) e'
Line-snoc nx nx' x [] h e e' d last out same l = (last, (out, tt))
Line-snoc nx nx' x (y ∷ xs) h e e' d last out same l = (
  same x (mem-head x (y ∷ xs)) (not-mem-ne x (last_or y xs) (y ∷ xs) d.0 (last_or-mem y xs)) ∙ l.0,
  Line-snoc nx nx' y xs h e e' d.1 last out (λ a i. same a (mem-tail a x (y ∷ xs) i)) l.1,
)
