-- ===== src/Msg/Locks/Post.antt =====
-- FMTK_PostMsg gives back every lock that it takes.
use rf.Prelude.{ℕ, ◌+◌, ◌%◌, ◌^◌, ◌≡◌, refl, Bool, true, false, List, ◌∷◌}
use rf.Kernel.Config.{neg, nr_acb, nr_mbx, nr_msg, out_of_range, e_no_more_msg_blks}
use rf.Kernel.Run.{Ends, Ends-then, Ends-if, Ends-branch, Ends-follow, Ends-weaken}
use rf.Kernel.Types.{Message}
use rf.Kernel.State.{Kernel}
use rf.Kernel.Parts.{on_desk}
use rf.Semaphore.{lock_mbx, unlock_mbx, lock_msg_list, msg_sema}
use rf.Msg.Threads.{mbx_dequeue_thread}
use rf.Msg.Queue.Lock.{mbx_dequeue_thread-lock}
use rf.Msg.Mailbox.{mbx_handle_to_pointer, with_mbx}
use rf.Msg.Send.{post_locked, post_open, post_msg}
use rf.Msg.Locks.{
  Holds, taking, on_desk-Holds, lock_msg_list-Holds, lock_mbx-Holds, unlock_mbx-Holds, leave-Ends,
}
use rf.Msg.Locks.Send.{post_to-Holds}

module _ (sem m lk : ℕ) (ls : List ℕ) where
  post_locked-Holds :
      (x : Message) (stat2 : Bool) (k : Kernel)
      → Holds sem m lk (taking (msg_sema + sem) (lk ∷ ls) stat2) stat2 k
      → Ends (Holds sem m lk ls) (post_locked m x stat2 k)
  unfolding post_locked
  post_locked-Holds x true k h =
      Ends-branch (Holds sem m lk ls) (out_of_range nr_msg k.pool.free_msg) _ _ k
        (leave-Ends sem m lk ls (Holds sem m lk ls) (neg e_no_more_msg_blks) k h (λ c f. f))
        (Ends-then (Holds sem m lk ((msg_sema + sem) ∷ lk ∷ ls)) (Holds sem m lk ls)
          (on_desk m mbx_dequeue_thread k) _
          (on_desk-Holds sem m lk ((msg_sema + sem) ∷ lk ∷ ls) k h mbx_dequeue_thread
            (mbx_dequeue_thread-lock lk))
          (λ r c e. post_to-Holds sem m lk ls x r.0 c e))
  post_locked-Holds x false k h =
      Ends-then (Holds sem m lk ls) (Holds sem m lk ls) (unlock_mbx m k) _
        (unlock_mbx-Holds sem m lk ls k h) (λ r c e. e)

  post_open-Holds :
      (x : Message) (stat : Bool) (k : Kernel)
      → Holds sem m lk (taking lk ls stat) stat k
      → Ends (Holds sem m lk ls) (post_open m x stat k)
  unfolding post_open
  post_open-Holds x true k h =
      Ends-branch (Holds sem m lk ls) (out_of_range nr_acb (k.mbx m).owner) _ _ k
        (Ends-then (Holds sem m lk ls) (Holds sem m lk ls) (unlock_mbx m k) _
          (unlock_mbx-Holds sem m lk ls k h) (λ r c e. e))
        (Ends-then (λ r. Holds sem m lk (taking (msg_sema + sem) (lk ∷ ls) r) r) (Holds sem m lk ls)
          (lock_msg_list 50 k) _ (lock_msg_list-Holds sem m lk (lk ∷ ls) 50 k h)
          (λ r c e. post_locked-Holds x r c e))
  post_open-Holds x false k h = h

-- PostMsg gives back every lock that it took, on each of its ways to return: afterwards the same
-- semaphores are held as before.
pub post_msg-balanced :
    (hMbx : ℕ) (x : Message) (k : Kernel) → Ends (λ r c. c.held ≡ k.held) (post_msg hMbx x k)
unfolding post_msg with_mbx
post_msg-balanced hMbx x k =
    Ends-if (λ r c. c.held ≡ k.held) (out_of_range nr_mbx hMbx) _ _ refl
      (Ends-follow (λ r c. c.held ≡ k.held) (mbx_handle_to_pointer (hMbx % 2 ^ 16)) _
        (λ m.
          let lk = (k.mbx m).lock in
          Ends-then (λ r. Holds k.semaphores m lk (taking lk k.held r) r) (λ r c. c.held ≡ k.held)
            (lock_mbx m 50 k) _ (lock_mbx-Holds k.semaphores m lk k.held 50 k (refl, refl, refl))
            (λ stat c e.
              Ends-weaken (Holds k.semaphores m lk k.held) (λ r d. d.held ≡ k.held)
                (post_open m x stat c) (λ _ _ f. f.0)
                (post_open-Holds k.semaphores m lk k.held x stat c e))))
