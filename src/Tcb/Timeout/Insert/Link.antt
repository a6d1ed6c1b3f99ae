-- ===== src/Tcb/Timeout/Insert/Link.antt =====
-- The tables after the new thread is linked in between `q` and `p`.
use rf.Prelude.{
  ℕ, ◌-◌, ◌≡◌, refl, false, Option, none, some, List, [], ◌∷◌, arith, ◌==◌, if◌then◌else◌, head_or,
  last_or,
}
use rf.Kernel.State.{Tasks}
use rf.Tcb.{tcb_pointer_to_handle}
use rf.Tcb.Ready.Shape.{nexts, prevs}
use rf.Tcb.Timeout.{linked}
use rf.Tcb.Timeout.Shape.{timeouts, head_ptr, last_ptr}

module _ (h to : ℕ) (s : Tasks) (a : ℕ) (ne : (h == a) ≡ false) (live : (0 == a) ≡ false) where
  pub linked_next_other :
      (q p : Option ℕ)
      → nexts (linked h to q p s) a ≡ (if a == tcb_pointer_to_handle q then h else nexts s a)
  unfolding linked tcb_pointer_to_handle
  linked_next_other none none = ground arith
  linked_next_other none (some p) = ground arith
  linked_next_other (some q) none = ground arith
  linked_next_other (some q) (some p) = ground arith

  pub linked_prev_other :
      (q p : Option ℕ)
      → prevs (linked h to q p s) a ≡ (if a == tcb_pointer_to_handle p then h else prevs s a)
  unfolding linked tcb_pointer_to_handle
  linked_prev_other none none = ground arith
  linked_prev_other none (some p) = ground arith
  linked_prev_other (some q) none = ground arith
  linked_prev_other (some q) (some p) = ground arith

  pub linked_timeout_other :
      (q p : Option ℕ)
      → timeouts (linked h to q p s) a
        ≡ (if a == tcb_pointer_to_handle p then timeouts s a - to else timeouts s a)
  unfolding linked tcb_pointer_to_handle
  linked_timeout_other none none = ground arith
  linked_timeout_other none (some p) = ground arith
  linked_timeout_other (some q) none = ground arith
  linked_timeout_other (some q) (some p) = ground arith

module _ (h to : ℕ) (s : Tasks) where
  pub linked_self :
      (q p : Option ℕ)
      → (h == tcb_pointer_to_handle q) ≡ false
      → (h == tcb_pointer_to_handle p) ≡ false
      → (nexts (linked h to q p s) h ≡ tcb_pointer_to_handle p)
        × (prevs (linked h to q p s) h ≡ tcb_pointer_to_handle q)
        × (timeouts (linked h to q p s) h ≡ to)
  unfolding linked tcb_pointer_to_handle
  linked_self none none e f = ground arith
  linked_self none (some p) e f = ground arith
  linked_self (some q) none e f = ground arith
  linked_self (some q) (some p) e f = ground arith

  pub linked_list_first : (p : Option ℕ) → (linked h to none p s).timeout_list ≡ h
  unfolding linked
  linked_list_first none = refl
  linked_list_first (some p) = refl

  pub linked_list_later :
      (q : ℕ) (p : Option ℕ) → (linked h to (some q) p s).timeout_list ≡ s.timeout_list
  unfolding linked
  linked_list_later q none = refl
  linked_list_later q (some p) = refl

pub last_ptr_lem : (x : ℕ) (xs : List ℕ) → last_ptr (some x) xs ≡ some (last_or x xs)
last_ptr_lem x [] = refl
last_ptr_lem x (y ∷ xs) = last_ptr_lem y xs

pub handle-last_ptr : (xs : List ℕ) → tcb_pointer_to_handle (last_ptr none xs) ≡ last_or 0 xs
unfolding tcb_pointer_to_handle
handle-last_ptr [] = refl
handle-last_ptr (x ∷ xs) = rw (last_ptr_lem x xs)

pub handle-head_ptr : (xs : List ℕ) → tcb_pointer_to_handle (head_ptr xs) ≡ head_or 0 xs
unfolding tcb_pointer_to_handle
handle-head_ptr [] = refl
handle-head_ptr (x ∷ xs) = refl
