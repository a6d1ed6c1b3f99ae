-- ===== src/Msg/Mailbox.antt =====
-- Mailboxes: FMTK_AllocMbx, FMTK_FreeMbx, FMTK_EmptyMbx and SetMbxMsgQueStrategy.
use rf.Prelude.{
  ℕ, zero, suc, ◌+◌, ◌-◌, ◌%◌, ◌^◌, Bool, true, false, ◌&&◌, not, Option, none, some, ◌==◌, ltb,
  leb, if◌then◌else◌, length, update,
}
use rf.Kernel.Config.{
  ℤ, pos, neg, nr_mbx, out_of_range, e_ok, e_arg, e_busy, e_not_owner, e_no_more_mbx, mt_none,
  mqs_newest,
}
use rf.Kernel.Run.{ok, fault, spin, M, ◌>>=◌, ◌>>◌}
use rf.Kernel.Types.{Mbx, Message}
use rf.Kernel.State.{Kernel, at}
use rf.Kernel.Parts.{on_tasks, on_box, on_desk}
use rf.Semaphore.{
  lock_mbx_list, unlock_mbx_list, lock_mbx, unlock_mbx, lock_msg_list, unlock_msg_list,
}
use rf.Tcb.Ready.{tcb_insert_into_ready_queue}
use rf.Tcb.Timeout.{tcb_remove_from_timeout_list}
use rf.Msg.Pool.{u32, free_msg}
use rf.Msg.Queue.{mbx_dequeue_msg}
use rf.Msg.Threads.{mbx_dequeue_thread}

-- MBXHandleToPointer, for a `short` handle.
unfoldable pub mbx_handle_to_pointer : ℕ → Option ℕ
mbx_handle_to_pointer h = if out_of_range nr_mbx h then none else some h

-- The mailbox of a `long` handle, of which the call keeps 16 bits; its pointer is followed.
unfoldable pub with_mbx : {A : Type 0} → ℕ → (ℕ → M Kernel A) → M Kernel A
with_mbx h f k = elim (mbx_handle_to_pointer (h % 2 ^ 16)) [ none ↦ fault | some m ↦ f m k ]

abbrev pub set_mbx : ℕ → (Mbx → Mbx) → M Kernel (Unit {0})
set_mbx m f k = ok tt (record k { mbx = update k.mbx m (f (k.mbx m)) })

-- The first free mailbox is taken off the free list.
unfoldable pub take_mbx : ℕ → M Kernel (Unit {0})
take_mbx m k =
    ok tt (record k { free_mbx = (k.mbx m).link; n_mailbox = u32 (k.n_mailbox + 2 ^ 32 - 1) })

-- The new owner is the running app, or the system where there is none.
unfoldable pub new_mbx : ℕ → Mbx → Mbx
new_mbx appid b = record b {
  owner = if appid == 0 then 1 else appid;
  tq_head = 0;
  tq_tail = 0;
  mq_head = 0;
  mq_tail = 0;
  tq_count = 0;
  mq_count = 0;
  mq_missed = 0;
  mq_size = 8;
  mq_strategy = mqs_newest;
}

unfoldable pub alloc_mbx : M Kernel ℤ
alloc_mbx = do
  stat ← lock_mbx_list 0
  λ k.
      (if out_of_range nr_mbx k.free_mbx then (do unlock_mbx_list; ok (neg e_no_more_mbx)) else (do
        take_mbx k.free_mbx
        unlock_mbx_list
        set_mbx k.free_mbx (new_mbx k.running_appid)
        ok (pos k.free_mbx)))
        k

-- `while (msg = MBXDequeueMsg(mbx)) FreeMsg(msg);`
unfoldable pub free_queued : (fuel m : ℕ) → M Kernel (Unit {0})
free_queued zero m k = spin
free_queued (suc fuel) m k =
    (do
      msg ← on_box m mbx_dequeue_msg
      λ c. elim msg [
        | none ↦ ok tt c
        | some h ↦ free_queued fuel m (record c { pool = free_msg (some h) c.pool })
      ])
      k

-- A thread that waited is made ready; if it is on the timeout list it leaves it.
unfoldable pub wake : (thread : ℕ) → M Kernel ℕ
wake thread k =
    if (k.tasks.tcb thread).status.timeout
    then (do
      on_tasks (tcb_remove_from_timeout_list thread)
      on_tasks (tcb_insert_into_ready_queue thread))
        k
    else on_tasks (tcb_insert_into_ready_queue thread) k

abbrev pub set_msg : ℕ → (Message → Message) → M Kernel (Unit {0})
set_msg thread f k =
    ok tt (record k { tasks = at thread (λ t. record t { msg = f t.msg }) k.tasks })

-- The threads that wait at a mailbox which is freed are told that there is no message.
unfoldable pub wake_queued : (fuel m : ℕ) → M Kernel (Unit {0})
wake_queued zero m k = spin
wake_queued (suc fuel) m k =
    (do
      (thread, r) ← on_desk m mbx_dequeue_thread
      λ c. elim thread [
        | none ↦ ok tt c
        | some t ↦
            (do set_msg t (λ x. record x { type = mt_none }); wake t; λ d. wake_queued fuel m d) c
      ])
      k

-- The running app may not touch the mailbox `b`: it is neither the owner nor the system.
abbrev pub not_owner : Kernel → Mbx → Bool
not_owner k b = not (b.owner == k.running_appid) && ltb 1 k.running_appid

-- The loop that takes the three locks; false if the caller is not the owner. Only a failure of a
-- lock with a limited number of retries leads back to the start.
unfoldable pub lock_to_free : (fuel m : ℕ) → M Kernel Bool
lock_to_free zero m k = spin
lock_to_free (suc fuel) m k =
    (do
      stat ← lock_mbx_list 0
      λ c.
          (if not_owner c (c.mbx m) then (do unlock_mbx_list; ok false) else (do
            st3 ← lock_mbx m 30
            (if st3
                then (do
                  st2 ← lock_msg_list 30
                  (if st2
                      then ok true
                      else (do unlock_mbx m; unlock_mbx_list; λ d. lock_to_free fuel m d)))
                else (do unlock_mbx_list; λ d. lock_to_free fuel m d))))
            c)
      k

-- `freeMBX = mbx-mailbox`: the index in the array, which is the handle less 1.
unfoldable pub give_mbx : ℕ → M Kernel (Unit {0})
give_mbx m k = ok tt (record k {
  mbx = update k.mbx m (record (k.mbx m) { link = k.free_mbx });
  free_mbx = m - 1;
  n_mailbox = u32 (k.n_mailbox + 1);
})

-- FMTK_FreeMbx. A dequeued thread is unlinked, so no queue of threads outlasts NR_TCB + 2 rounds.
unfoldable pub free_mbx : (hMbx : ℕ) → M Kernel ℤ
free_mbx hMbx k =
    if out_of_range nr_mbx hMbx
    then ok (neg e_arg) k
    else with_mbx hMbx
        (λ m. do
          mine ← lock_to_free (suc (length k.answers)) m
          (if mine
              then (do
                λ c. free_queued (suc (c.mbx m).mq_count) m c
                unlock_msg_list
                wake_queued 258 m
                give_mbx m
                unlock_mbx m
                unlock_mbx_list
                ok (pos e_ok))
              else ok (neg e_not_owner)))
        k

-- EmptyMbx once it was asked for the lock of the message list.
unfoldable pub empty_locked : (m : ℕ) (st2 : Bool) → M Kernel ℤ
empty_locked m true k =
    (do free_queued (suc (k.mbx m).mq_count) m; unlock_msg_list; ok (pos e_ok)) k
empty_locked m false k = ok (neg e_busy) k

-- FMTK_EmptyMbx
unfoldable pub empty_mbx : (hMbx : ℕ) → M Kernel ℤ
empty_mbx hMbx k =
    if out_of_range nr_mbx hMbx
    then ok (neg e_arg) k
    else with_mbx hMbx (λ m. do st2 ← lock_msg_list 30; empty_locked m st2) k

-- SetMbxMsgQueStrategy. `qStrategy` is an `int`: a negative one is not above 2. It is stored in a
-- byte, the size in 32 bits.
unfoldable pub set_mbx_msg_que_strategy : (hMbx qStrategy qSize : ℕ) → M Kernel ℤ
set_mbx_msg_que_strategy hMbx qStrategy qSize k =
    if out_of_range nr_mbx hMbx
    then ok (neg e_arg) k
    else if ltb 2 qStrategy && not (leb 0x8000_0000 qStrategy)
    then ok (neg e_arg) k
    else with_mbx hMbx
        (λ m. do
          stat ← lock_mbx m 0
          λ c.
              (if not_owner c (c.mbx m) then (do unlock_mbx m; ok (neg e_not_owner)) else (do
                set_mbx m (λ b. record b { mq_strategy = qStrategy % 256; mq_size = qSize })
                unlock_mbx m
                ok (pos e_ok)))
                c)
        k
