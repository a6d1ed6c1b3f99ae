-- ===== src/Msg/Threads.antt =====
-- The queue of threads that wait at a mailbox: MBXQueueThread and MBXDequeueThread.
use rf.Prelude.{ℕ, ◌+◌, ◌-◌, ◌^◌, Bool, true, false, ◌||◌, not, Option, none, some, if◌then◌else◌}
use rf.Kernel.Config.{ℤ, pos, neg, nr_tcb, le_zero, out_of_range, e_ok, e_no_thread}
use rf.Kernel.Run.{ok, panic, fault, M, chain}
use rf.Kernel.Types.{Status}
use rf.Kernel.State.{Tasks, Desk, at}
use rf.Tcb.{tcb_handle_to_pointer}
use rf.Tcb.Timeout.{tcb_remove_from_timeout_list}
use rf.Msg.Pool.{u32}

abbrev pub set_waitmsg : Bool → Status → Status
set_waitmsg on b = record b { waitmsg = on }

-- The links at the end of the queue.
unfoldable pub link_thread : (thread : ℕ) → M Desk (Unit {0})
link_thread thread d =
    if le_zero d.mbx.tq_head
    then ok tt (record {
      tasks = at thread (λ t. record t { mbq_prev = 0 }) d.tasks;
      mbx = record d.mbx { tq_head = thread; tq_tail = thread; tq_count = 1 };
    })
    else if out_of_range nr_tcb d.mbx.tq_tail
    then fault
    else ok tt (record {
      tasks =
          at d.mbx.tq_tail (λ t. record t { mbq_next = thread })
            (at thread (λ t. record t { mbq_prev = d.mbx.tq_tail }) d.tasks);
      mbx = record d.mbx { tq_tail = thread; tq_count = u32 (d.mbx.tq_count + 1) };
    })

-- MBXQueueThread, for a mailbox handle in range.
unfoldable pub mbx_queue_thread : (mbx thread : ℕ) → M Desk (Unit {0})
mbx_queue_thread mbx thread d = elim (tcb_handle_to_pointer thread) [
  | none ↦ panic
  | some t ↦
      if not (le_zero (d.tasks.tcb t).mbq_next) || not (le_zero (d.tasks.tcb t).mbq_prev)
      then panic
      else link_thread t (record d {
        tasks =
            at t
              (λ r. record r { status = set_waitmsg true r.status; wait_mbx = mbx; mbq_next = 0 })
              d.tasks;
      })
]

-- The thread leaves the timeout list too, if it is on it.
unfoldable pub leave_timeout : (thread : ℕ) → M Tasks (Unit {0})
leave_timeout thread s =
    if (s.tcb thread).status.timeout
    then chain (tcb_remove_from_timeout_list thread s) (λ _ t. ok tt t)
    else ok tt s

-- The links back from the new first thread.
unfoldable pub unlink_thread : (head : ℕ) → Tasks → Tasks
unlink_thread head s =
    if out_of_range nr_tcb head then s else at head (λ t. record t { mbq_prev = 0 }) s

-- The desk after its first thread `t` has left, where the threads are `s` otherwise.
unfoldable pub taken : (t : ℕ) → Desk → Tasks → Desk
taken t d s =
    let next = (d.tasks.tcb t).mbq_next in
    record {
      tasks =
          at t
            (λ r. record r {
              mbq_prev = 0;
              mbq_next = 0;
              wait_mbx = 0;
              status = set_waitmsg false r.status;
            })
            s;
      mbx = record d.mbx {
        tq_count = u32 (d.mbx.tq_count + 2 ^ 32 - 1);
        tq_head = next;
        tq_tail = if out_of_range nr_tcb next then 0 else d.mbx.tq_tail;
      };
    }

-- The first thread `t` leaves the queue.
unfoldable pub take_thread : (t : ℕ) → M Desk (Option ℕ × ℤ)
take_thread t d =
    chain (leave_timeout t (unlink_thread (d.tasks.tcb t).mbq_next d.tasks))
      (λ _ s. ok (some t, pos e_ok) (taken t d s))

-- MBXDequeueThread: the pointer to the thread, and E_Ok or -E_NoThread.
unfoldable pub mbx_dequeue_thread : M Desk (Option ℕ × ℤ)
mbx_dequeue_thread d =
    if out_of_range nr_tcb d.mbx.tq_head
    then ok (none, neg e_no_thread) d
    else elim (tcb_handle_to_pointer d.mbx.tq_head) [ none ↦ fault | some t ↦ take_thread t d ]
