-- ===== src/Tcb/Timeout/Insert.antt =====
-- TCBInsertIntoTimeoutList: the walk that finds the place.
pub mod Link
pub mod Result
pub mod Whole
use rf.Prelude.{
  ℕ, zero, suc, ◌-◌, ◌<◌, ◌≡◌, false, Option, none, some, List, [], ◌∷◌, arith, ◌==◌, ltb, ◌∉◌,
  Handles, not-mem-tail, ne_comm, head-ne, Bool-cases, inl, inr, length,
}
use rf.Kernel.Config.{nr_tcb}
use rf.Kernel.Run.{Run, ok}
use rf.Kernel.State.{Tasks}
use rf.Links.{Seg}
use rf.Tcb.{tcb_handle_to_pointer}
use rf.Tcb.Ready.Shape.{nexts, prevs, valid_handle, null_handle}
use rf.Tcb.Timeout.{timeout_walk}
use rf.Tcb.Timeout.Deadlines.{front, back, rest}
use rf.Tcb.Timeout.Shape.{timeouts, head_ptr, last_ptr}

-- One round of the walk that does not leave the list.
walk_step :
    (fuel ht to : ℕ) (q : Option ℕ) (p y : ℕ) (ys : List ℕ) (s : Tasks)
    → nexts s p ≡ y
    → tcb_handle_to_pointer y ≡ some y
    → (y == ht) ≡ false
    → timeout_walk fuel ht (to - timeouts s p) (some p) y s
      ≡ ok
          (
            rest (timeouts s) (to - timeouts s p) (y ∷ ys),
            last_ptr (some p) (front (timeouts s) (to - timeouts s p) (y ∷ ys)),
            head_ptr (back (timeouts s) (to - timeouts s p) (y ∷ ys)),
          )
          s
    → timeout_walk (suc fuel) ht to q p s
      ≡ ok
          (
            rest (timeouts s) to (p ∷ y ∷ ys),
            last_ptr q (front (timeouts s) to (p ∷ y ∷ ys)),
            head_ptr (back (timeouts s) to (p ∷ y ∷ ys)),
          )
          s
unfolding timeout_walk
walk_step fuel ht to q p y ys s hn hy ne go_on = elim (Bool-cases (ltb (timeouts s p) to)) [
  | inl e ↦ rw (e, hn, ne, hy) go_on
  | inr e ↦ rw e
]

-- With fuel for every thread the walk stops in front of the first thread that `to` does not outlast.
pub walk_lem :
    (fuel ht to : ℕ) (q : Option ℕ) (p : ℕ) (xs : List ℕ) (s : Tasks) (prev : ℕ)
    → 0 < ht
    → ht ∉ p ∷ xs
    → Handles nr_tcb (p ∷ xs)
    → Seg (nexts s) (prevs s) prev (p ∷ xs) 0
    → length (p ∷ xs) < fuel
    → timeout_walk fuel ht to q p s
      ≡ ok
          (
            rest (timeouts s) to (p ∷ xs),
            last_ptr q (front (timeouts s) to (p ∷ xs)),
            head_ptr (back (timeouts s) to (p ∷ xs)),
          )
          s
unfolding timeout_walk
walk_lem zero ht to q p xs s prev pos out v c f = absurd (omega arith)
walk_lem (suc fuel) ht to q p [] s prev pos out v c f =
    let stop = c.1 in let other : (0 == ht) ≡ false = ground arith in ground (arith, null_handle)
walk_lem (suc fuel) ht to q p (y ∷ ys) s prev pos out v c f =
    let go_on =
      walk_lem fuel ht (to - timeouts s p) (some p) y ys s p pos (not-mem-tail ht p (y ∷ ys) out)
        v.2 c.2 (omega arith) in
    let other = ne_comm ht y (head-ne y ht ys (not-mem-tail ht p (y ∷ ys) out)) in
    walk_step fuel ht to q p y ys s c.1 (valid_handle y v.2.0 v.2.1) other go_on
