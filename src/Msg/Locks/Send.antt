-- ===== src/Msg/Locks/Send.antt =====
-- FMTK_SendMsg and FMTK_PostMsg give back every lock that they take.
use rf.Prelude.{
  ℕ, zero, suc, ◌+◌, ◌%◌, ◌^◌, ◌≡◌, refl, Bool, true, false, Option, none, some, List, ◌∷◌,
  if◌then◌else◌, length,
}
use rf.Kernel.Config.{
  ℤ, pos, neg, e_ok, nr_acb, nr_mbx, nr_msg, out_of_range, mt_data, e_no_more_msg_blks,
}
use rf.Kernel.Run.{M, ok, ◌>>◌, Ends, Ends-then, Ends-if, Ends-weaken, Ends-branch, Ends-follow}
use rf.Kernel.Types.{Message}
use rf.Kernel.State.{Kernel}
use rf.Kernel.Parts.{on_tasks, on_pool, on_box, on_desk}
use rf.Semaphore.{lock_mbx, unlock_mbx, lock_msg_list, msg_sema}
use rf.Tcb.Ready.{tcb_insert_into_ready_queue}
use rf.Tcb.Timeout.{tcb_remove_from_timeout_list}
use rf.Msg.Pool.{alloc_msg}
use rf.Msg.Queue.{mbx_queue_msg}
use rf.Msg.Queue.Lock.{mbx_queue_msg-lock, mbx_dequeue_thread-lock}
use rf.Msg.Threads.{mbx_dequeue_thread}
use rf.Msg.Mailbox.{mbx_handle_to_pointer, with_mbx, wake}
use rf.Msg.Send.{
  leave, reschedule, lock_to_send, queue_block, post_to, send_to, send_locked, enqueue_data,
  hand_over, send_msg,
}
use rf.Msg.Locks.{
  Holds, taking, on_tasks-Holds, on_pool-Holds, on_box-Holds, on_desk-Holds, lock_msg_list-Holds,
  lock_mbx-waits, unlock_mbx-Holds, leave-Ends,
}

module _ (sem m lk : ℕ) (ls : List ℕ) where
  abbrev pub both : List ℕ
  both = (msg_sema + sem) ∷ lk ∷ ls

  -- What is held after the loop that takes both locks.
  abbrev pub after : Option ℤ → List ℕ
  after none = both
  after (some e) = ls

  abbrev pub Locked : Option ℤ → Kernel → Type 0
  Locked o = Holds sem m lk (after o) o

  give_up :
      {A : Type 0} (r : A) (k : Kernel)
      → Holds sem m lk (lk ∷ ls) tt k
      → Ends (Holds sem m lk ls) ((unlock_mbx m >> ok r) k)
  give_up r k h =
      Ends-then (Holds sem m lk ls) (Holds sem m lk ls) (unlock_mbx m k) _
        (unlock_mbx-Holds sem m lk ls k h) (λ _ c e. e)

  -- After the try to lock the message list.
  retried :
      (again : M Kernel (Option ℤ))
      → ((d : Kernel) → Holds sem m lk ls tt d → Ends Locked (again d))
      → (r : Bool) (d : Kernel) → Holds sem m lk (taking (msg_sema + sem) (lk ∷ ls) r) r d
      → Ends Locked (
          (if r
              then (if out_of_range nr_msg d.pool.free_msg
                  then leave m (some (neg e_no_more_msg_blks))
                  else ok none)
              else (unlock_mbx m >> again))
            d)
  retried again more true d h =
      Ends-branch Locked (out_of_range nr_msg d.pool.free_msg)
        (leave m (some (neg e_no_more_msg_blks))) (ok none) d
        (leave-Ends sem m lk ls Locked (some (neg e_no_more_msg_blks)) d h (λ c f. f)) h
  retried again more false d h =
      Ends-then (Holds sem m lk ls) Locked (unlock_mbx m d) _ (unlock_mbx-Holds sem m lk ls d h)
        (λ _ e f. more e f)

  lock_to_send-Locked :
      (fuel : ℕ) (k : Kernel) → Holds sem m lk ls tt k → Ends Locked (lock_to_send fuel m k)
  unfolding lock_to_send
  lock_to_send-Locked zero k h = tt
  lock_to_send-Locked (suc fuel) k h =
      Ends-then (Holds sem m lk (lk ∷ ls)) Locked (lock_mbx m 0 k) _
        (lock_mbx-waits sem m lk ls k h)
        (λ _ c e.
          Ends-branch Locked (out_of_range nr_acb (c.mbx m).owner) _ _ c
            (Ends-then (Holds sem m lk ls) Locked (unlock_mbx m c) _
              (unlock_mbx-Holds sem m lk ls c e) (λ _ d f. f))
            (Ends-then (λ r. Holds sem m lk (taking (msg_sema + sem) (lk ∷ ls) r) r) Locked
              (lock_msg_list 30 c) _ (lock_msg_list-Holds sem m lk (lk ∷ ls) 30 c e)
              (retried (λ d. lock_to_send fuel m d) (lock_to_send-Locked fuel))))

  queue_block-Holds :
      (msg : Option ℕ) (k : Kernel)
      → Holds sem m lk both tt k
      → Ends (Holds sem m lk ls) (queue_block m msg k)
  unfolding queue_block
  queue_block-Holds none k h =
      leave-Ends sem m lk ls (Holds sem m lk ls) (neg e_no_more_msg_blks) k h (λ c f. f)
  queue_block-Holds (some b) k h =
      Ends-then (Holds sem m lk both) (Holds sem m lk ls) (on_box m (mbx_queue_msg (some b)) k) _
        (on_box-Holds sem m lk both k h (mbx_queue_msg (some b)) (mbx_queue_msg-lock lk (some b)))
        (λ rr c e. leave-Ends sem m lk ls (Holds sem m lk ls) (neg rr) c e (λ d f. f))

  enqueue_data-Holds :
      (x : Message) (k : Kernel)
      → Holds sem m lk both tt k
      → Ends (Holds sem m lk ls) (enqueue_data m x k)
  unfolding enqueue_data
  enqueue_data-Holds x k h =
      Ends-then (Holds sem m lk both) (Holds sem m lk ls)
        (on_pool (alloc_msg k.tick mt_data x.d1 x.d2 x.d3) k) _
        (on_pool-Holds sem m lk both k h (alloc_msg k.tick mt_data x.d1 x.d2 x.d3))
        queue_block-Holds

  wake-Holds :
      (t : ℕ) (k : Kernel) → Holds sem m lk both tt k → Ends (Holds sem m lk both) (wake t k)
  unfolding wake
  wake-Holds t k h =
      Ends-if (Holds sem m lk both) (k.tasks.tcb t).status.timeout _ _
        (Ends-then (Holds sem m lk both) (Holds sem m lk both)
          (on_tasks (tcb_remove_from_timeout_list t) k) _
          (on_tasks-Holds sem m lk both k h (tcb_remove_from_timeout_list t))
          (λ r c e. on_tasks-Holds sem m lk both c e (tcb_insert_into_ready_queue t)))
        (on_tasks-Holds sem m lk both k h (tcb_insert_into_ready_queue t))

  hand_over-Holds :
      (thread : ℕ) (x : Message) (k : Kernel)
      → Holds sem m lk both tt k
      → Ends (Holds sem m lk ls) (hand_over thread m x k)
  unfolding hand_over
  hand_over-Holds thread x k h =
      Ends-then (Holds sem m lk both) (Holds sem m lk ls) (wake thread k) _ (wake-Holds thread k h)
        (λ r c e. leave-Ends sem m lk ls (Holds sem m lk ls) (pos e_ok) _ e (λ d f. f))

  pub post_to-Holds :
      (x : Message) (thread : Option ℕ) (k : Kernel)
      → Holds sem m lk both tt k
      → Ends (Holds sem m lk ls) (post_to m x thread k)
  unfolding post_to
  post_to-Holds x none k h = enqueue_data-Holds x k h
  post_to-Holds x (some t) k h = hand_over-Holds t x k h

  send_to-Holds :
      (x : Message) (thread : Option ℕ) (k : Kernel)
      → Holds sem m lk both tt k
      → Ends (Holds sem m lk ls) (send_to m x thread k)
  unfolding send_to reschedule
  send_to-Holds x none k h = enqueue_data-Holds x k h
  send_to-Holds x (some t) k h =
      Ends-then (Holds sem m lk ls) (Holds sem m lk ls) (hand_over t m x k) _
        (hand_over-Holds t x k h) (λ r c e. e)

  send_locked-Holds :
      (x : Message) (o : Option ℤ) (k : Kernel)
      → Locked o k
      → Ends (Holds sem m lk ls) (send_locked m x o k)
  unfolding send_locked
  send_locked-Holds x (some e) k h = h
  send_locked-Holds x none k h =
      Ends-then (Holds sem m lk both) (Holds sem m lk ls) (on_desk m mbx_dequeue_thread k) _
        (on_desk-Holds sem m lk both k h mbx_dequeue_thread (mbx_dequeue_thread-lock lk))
        (λ r c e. send_to-Holds x r.0 c e)

-- SendMsg gives back every lock that it took, on each of its ways to return: afterwards the same
-- semaphores are held as before.
pub send_msg-balanced :
    (hMbx : ℕ) (x : Message) (k : Kernel) → Ends (λ r c. c.held ≡ k.held) (send_msg hMbx x k)
unfolding send_msg with_mbx
send_msg-balanced hMbx x k =
    Ends-if (λ r c. c.held ≡ k.held) (out_of_range nr_mbx hMbx) _ _ refl
      (Ends-follow (λ r c. c.held ≡ k.held) (mbx_handle_to_pointer (hMbx % 2 ^ 16)) _
        (λ m.
          let lk = (k.mbx m).lock in
          Ends-then (Locked k.semaphores m lk k.held) (λ r c. c.held ≡ k.held)
            (lock_to_send (suc (length k.answers)) m k) _
            (lock_to_send-Locked k.semaphores m lk k.held (suc (length k.answers)) k
              (refl, refl, refl))
            (λ o c e.
              Ends-weaken (Holds k.semaphores m lk k.held) (λ r d. d.held ≡ k.held)
                (send_locked m x o c) (λ _ _ f. f.0)
                (send_locked-Holds k.semaphores m lk k.held x o c e))))
