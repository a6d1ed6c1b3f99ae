-- ===== src/Msg/Wait.antt =====
-- FMTK_WaitMsg, FMTK_CheckMsg and FMTK_PeekMsg. They also return what they store at `pMsg`, `none`
-- where they store nothing. `stored` tells whether `pMsg` is not null.
use rf.Prelude.{
  ℕ, zero, suc, Bool, true, false, ◌&&◌, ◌||◌, not, Option, none, some, ◌==◌, ltb, leb,
  if◌then◌else◌, length,
}
use rf.Kernel.Config.{ℤ, pos, neg, nr_acb, nr_mbx, e_ok, e_arg, e_not_alloc, e_no_msg, mt_none}
use rf.Kernel.Run.{ok, fault, spin, M, ◌>>=◌, ◌>>◌}
use rf.Kernel.Types.{Message}
use rf.Kernel.State.{Kernel}
use rf.Kernel.Parts.{on_tasks, on_pool, on_box, on_desk}
use rf.Semaphore.{lock_mbx, unlock_mbx, lock_msg_list, unlock_msg_list}
use rf.Tcb.{tcb_handle_to_pointer}
use rf.Tcb.Ready.{tcb_remove_from_ready_queue}
use rf.Tcb.Timeout.{tcb_insert_into_timeout_list}
use rf.Msg.Pool.{copy_msg, free_msg, read_msg, msg_handle_to_pointer}
use rf.Msg.Queue.{mbx_dequeue_msg}
use rf.Msg.Threads.{mbx_queue_thread}
use rf.Msg.Mailbox.{with_mbx, set_msg}
use rf.Msg.Send.{leave, reschedule}

-- `h == 0 || h > limit` for a `short`: a negative one passes.
abbrev pub null_or_above : ℕ → ℕ → Bool
null_or_above limit h = h == 0 || not (leb 0x8000 h) && ltb limit h

-- The same for a `long`.
abbrev pub null_or_above_long : ℕ → ℕ → Bool
null_or_above_long limit h = h == 0 || not (leb 0x8000_0000 h) && ltb limit h

-- The loop of WaitMsg that takes both locks; false if the mailbox has no owner.
unfoldable pub lock_to_wait : (fuel m : ℕ) → M Kernel Bool
lock_to_wait zero m k = spin
lock_to_wait (suc fuel) m k =
    (do
      stat ← lock_mbx m 0
      λ c.
          (if null_or_above nr_acb (c.mbx m).owner then (do unlock_mbx m; ok false) else (do
            st2 ← lock_msg_list 50
            (if st2 then ok true else (do unlock_mbx m; λ d. lock_to_wait fuel m d))))
            c)
      k

-- The message of handle `h` is copied to `pMsg`, if that is not null.
unfoldable pub fetch : (stored : Bool) (h : ℕ) → M Kernel (Option Message)
fetch stored h =
    if stored then (do msg ← on_pool (read_msg h); ok (some (copy_msg msg))) else ok none

abbrev pub give_msg : ℕ → M Kernel (Unit {0})
give_msg h k = ok tt (record k { pool = free_msg (some h) k.pool })

-- The running thread waits at the mailbox, for `timelimit` ticks if that is positive.
unfoldable pub suspend : (m timelimit : ℕ) → M Kernel (Unit {0})
suspend m timelimit k =
    let thread = k.running_tcb in
    (do
      on_tasks (tcb_remove_from_ready_queue thread)
      on_desk m (mbx_queue_thread m thread)
      unlock_mbx m
      (if timelimit == 0 || leb 0x8000_0000 timelimit
          then ok tt
          else (do on_tasks (tcb_insert_into_timeout_list thread timelimit); ok tt))
      reschedule)
      k

-- WaitMsg until it returns or gives up the processor, in which case the result is `none`.
unfoldable pub wait_msg :
    (hMbx : ℕ) (stored : Bool) (timelimit : ℕ) → M Kernel (Option (ℤ × Option Message))
wait_msg hMbx stored timelimit k =
    if null_or_above_long nr_mbx hMbx
    then ok (some (neg e_arg, none)) k
    else with_mbx hMbx
        (λ m. do
          active ← lock_to_wait (suc (length k.answers)) m
          (if active
              then (do
                msg ← on_box m mbx_dequeue_msg
                elim msg [
                  | some h ↦ do copy ← fetch stored h; give_msg h; leave m (some (pos e_ok, copy))
                  | none ↦ do unlock_msg_list; suspend m timelimit; ok none
                ])
              else ok (some (neg e_not_alloc, none))))
        k

-- WaitMsg from the time that the thread runs again: the message is that in its TCB.
unfoldable pub resume : M Kernel (ℤ × Option Message)
resume k = elim (tcb_handle_to_pointer k.running_tcb) [
  | none ↦ fault
  | some rt ↦
      let msg = (k.tasks.tcb rt).msg in
      if msg.type == mt_none
      then ok (neg e_no_msg, none) k
      else (do set_msg rt (λ x. record x { type = mt_none }); ok (pos e_ok, some (copy_msg msg))) k
]

-- The loop of CheckMsg and Request that takes both locks.
unfoldable pub lock_both : (fuel m : ℕ) → M Kernel (Unit {0})
lock_both zero m k = spin
lock_both (suc fuel) m k =
    (do
      stat ← lock_mbx m 0
      st2 ← lock_msg_list 50
      (if st2 then ok tt else (do unlock_mbx m; λ d. lock_both fuel m d)))
      k

-- The message to look at: taken off the queue, or the first one, even if there is none.
unfoldable pub look : (m : ℕ) (qrmv : Bool) → M Kernel (Option ℕ)
look m qrmv k =
    if qrmv then on_box m mbx_dequeue_msg k else ok (msg_handle_to_pointer (k.mbx m).mq_head) k

unfoldable pub check_msg : (hMbx : ℕ) (stored qrmv : Bool) → M Kernel (ℤ × Option Message)
check_msg hMbx stored qrmv k =
    if null_or_above_long nr_mbx hMbx
    then ok (neg e_arg, none) k
    else with_mbx hMbx
        (λ m. do
          lock_both (suc (length k.answers)) m
          λ a.
              (if null_or_above nr_acb (a.mbx m).owner then leave m (neg e_not_alloc, none) else (do
                msg ← look m qrmv
                elim msg [
                  | none ↦ leave m (neg e_no_msg, none)
                  | some h ↦ do
                    copy ← fetch stored h
                    (if qrmv then give_msg h else ok tt)
                    leave m (pos e_ok, copy)
                ]))
                a)
        k

unfoldable pub peek_msg : (hMbx : ℕ) (stored : Bool) → M Kernel (ℤ × Option Message)
peek_msg hMbx stored = check_msg hMbx stored false
