-- ===== src/Msg/Send.antt =====
-- FMTK_SendMsg and FMTK_PostMsg. The message at `pMsg` in the caller's space is the argument `m`.
use rf.Prelude.{ℕ, zero, suc, Bool, true, false, Option, none, some, if◌then◌else◌, ◌+◌, length}
use rf.Kernel.Config.{
  ℤ, pos, neg, nr_acb, nr_mbx, nr_msg, out_of_range, e_ok, e_arg, e_busy, e_not_alloc,
  e_no_more_msg_blks, mt_data,
}
use rf.Kernel.Run.{ok, spin, M, ◌>>=◌, ◌>>◌}
use rf.Kernel.Types.{Message}
use rf.Kernel.State.{Kernel}
use rf.Kernel.Parts.{on_pool, on_box, on_desk}
use rf.Semaphore.{lock_mbx, unlock_mbx, lock_msg_list, unlock_msg_list}
use rf.Msg.Pool.{alloc_msg}
use rf.Msg.Queue.{mbx_queue_msg}
use rf.Msg.Threads.{mbx_dequeue_thread}
use rf.Msg.Mailbox.{with_mbx, wake, set_msg}

-- The mailbox and the message list are given back, and the call returns.
unfoldable pub leave : {A : Type 0} → ℕ → A → M Kernel A
leave m r = do unlock_msg_list; unlock_mbx m; ok r

-- FMTK_Reschedule raises the reschedule interrupt.
unfoldable pub reschedule : M Kernel (Unit {0})
reschedule k = ok tt (record k { reschedules = k.reschedules + 1 })

-- The loop that takes both locks, with the checks that stop it; `none` when the locks are held.
unfoldable pub lock_to_send : (fuel m : ℕ) → M Kernel (Option ℤ)
lock_to_send zero m k = spin
lock_to_send (suc fuel) m k =
    (do
      stat ← lock_mbx m 0
      λ c.
          (if out_of_range nr_acb (c.mbx m).owner
              then (do unlock_mbx m; ok (some (neg e_not_alloc)))
              else (do
                stat2 ← lock_msg_list 30
                λ d.
                    (if stat2
                        then (if out_of_range nr_msg d.pool.free_msg
                            then leave m (some (neg e_no_more_msg_blks))
                            else ok none)
                        else (do unlock_mbx m; λ e. lock_to_send fuel m e))
                      d))
            c)
      k

-- The message for a thread that waits: the fields that the sender sets.
unfoldable pub fill : (tick : ℕ) → Message → Message → Message
fill tick m old = record old {
  link = 0;
  type = mt_data;
  timestamp = tick;
  x = 0;
  y = 0;
  z = 0;
  d1 = m.d1;
  d2 = m.d2;
  d3 = m.d3;
}

-- The block of a new message is queued, if there is one.
unfoldable pub queue_block : ℕ → Option ℕ → M Kernel ℤ
queue_block m none = leave m (neg e_no_more_msg_blks)
queue_block m (some h) = do rr ← on_box m (mbx_queue_msg (some h)); leave m (neg rr)

-- No thread waits: the message is copied to a block, and queued.
unfoldable pub enqueue_data : ℕ → Message → M Kernel ℤ
enqueue_data m x k =
    (do msg ← on_pool (alloc_msg k.tick mt_data x.d1 x.d2 x.d3); queue_block m msg) k

-- A thread waits: it gets the message itself.
unfoldable pub hand_over : (thread m : ℕ) → Message → M Kernel ℤ
hand_over thread m x = do wake thread; λ k. set_msg thread (fill k.tick x) k; leave m (pos e_ok)

-- What PostMsg and SendMsg do after MBXDequeueThread, which found `thread`.
unfoldable pub post_to : ℕ → Message → Option ℕ → M Kernel ℤ
post_to m x none = enqueue_data m x
post_to m x (some t) = hand_over t m x

unfoldable pub send_to : ℕ → Message → Option ℕ → M Kernel ℤ
send_to m x none = enqueue_data m x
send_to m x (some t) = do r ← hand_over t m x; reschedule; ok r

-- The locks are held, or the call stops with the error.
unfoldable pub send_locked : ℕ → Message → Option ℤ → M Kernel ℤ
send_locked m x (some e) = ok e
send_locked m x none = do (thread, r) ← on_desk m mbx_dequeue_thread; send_to m x thread

unfoldable pub send_msg : (hMbx : ℕ) → Message → M Kernel ℤ
send_msg hMbx x k =
    if out_of_range nr_mbx hMbx
    then ok (neg e_arg) k
    else with_mbx hMbx
        (λ m. do stop ← lock_to_send (suc (length k.answers)) m; send_locked m x stop) k

-- PostMsg once it was asked for the lock of the message list.
unfoldable pub post_locked : ℕ → Message → (stat2 : Bool) → M Kernel ℤ
post_locked m x true k =
    (if out_of_range nr_msg k.pool.free_msg
        then leave m (neg e_no_more_msg_blks)
        else (do (thread, r) ← on_desk m mbx_dequeue_thread; post_to m x thread))
      k
post_locked m x false k = (do unlock_mbx m; ok (neg e_busy)) k

-- PostMsg once it was asked for the lock of the mailbox.
unfoldable pub post_open : ℕ → Message → (stat : Bool) → M Kernel ℤ
post_open m x true k =
    (if out_of_range nr_acb (k.mbx m).owner
        then (do unlock_mbx m; ok (neg e_not_alloc))
        else (do stat2 ← lock_msg_list 50; post_locked m x stat2))
      k
post_open m x false k = ok (neg e_busy) k

unfoldable pub post_msg : (hMbx : ℕ) → Message → M Kernel ℤ
post_msg hMbx x k =
    if out_of_range nr_mbx hMbx
    then ok (neg e_arg) k
    else with_mbx hMbx (λ m. do stat ← lock_mbx m 50; post_open m x stat) k
