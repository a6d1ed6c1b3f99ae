-- ===== src/Tcb/Timeout/Shape.antt =====
-- What the timeout list stands for: its threads in order.
use rf.Prelude.{
  ℕ, ◌≡◌, refl, Option, none, some, List, [], ◌∷◌, arith, head_or, ◌∉◌, IsDistinct, Handles,
}
use rf.Kernel.Config.{nr_tcb}
use rf.Kernel.State.{Tasks}
use rf.Links.{Seg}
use rf.Tcb.Ready.Shape.{nexts, prevs}

abbrev pub timeouts : Tasks → ℕ → ℕ
timeouts s h = (s.tcb h).timeout

-- `xs` are the threads of the timeout list, in order.
pub record IsTimeouts (s : Tasks) (xs : List ℕ) : Type 0 where
  pub head : s.timeout_list ≡ head_or 0 xs
  pub chain : Seg (nexts s) (prevs s) 0 xs 0
  pub distinct : IsDistinct xs
  pub handles : Handles nr_tcb xs

pub Handles-no_zero : (n : ℕ) (xs : List ℕ) → Handles n xs → 0 ∉ xs
Handles-no_zero n [] v = refl
Handles-no_zero n (x ∷ xs) v = ground (arith, Handles-no_zero n xs v.2)

-- The first and the last element of a list, as pointers.
abbrev pub head_ptr : List ℕ → Option ℕ
head_ptr [] = none
head_ptr (x ∷ xs) = some x

abbrev pub last_ptr : Option ℕ → List ℕ → Option ℕ
last_ptr q [] = q
last_ptr q (x ∷ xs) = last_ptr (some x) xs
