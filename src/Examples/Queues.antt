-- ===== src/Examples/Queues.antt =====
-- The theorems on message queues and on locks, at small states.
use rf.Prelude.{false, ◌≡◌, refl, none, some, [], ◌∷◌, arith, if◌then◌else◌, ◌==◌, ℕ}
use rf.Kernel.Config.{e_ok, e_que_full}
use rf.Kernel.Run.{Returns, Ends}
use rf.Kernel.State.{Box}
use rf.Msg.Queue.{mbx_queue_msg, mbx_dequeue_msg, is_repeat}
use rf.Msg.Queue.Shape.{links, IsQueued}
use rf.Msg.Queue.Room.{SameData, queue-appends, queue-repeats}
use rf.Msg.Queue.Full.{queue-refuses}
use rf.Msg.Queue.Dequeue.{dequeue-oldest, dequeue-empty}
use rf.Msg.Send.{send_msg, post_msg, lock_to_send}
use rf.Msg.Locks.Loop.{lock_to_send-ends}
use rf.Msg.Locks.Send.{Locked, send_msg-balanced}
use rf.Msg.Locks.Post.{post_msg-balanced}
use rf.Kernel.Config.{pos}
use rf.Msg.Mailbox.{empty_mbx, free_queued}
use rf.Msg.Empty.{box, IsFree, Emptied, free_queued-empties}
use rf.Msg.Empty.Call.{EmptiedOrBusy, empty_mbx-empties}
use rf.Timer.{alloc_timer, free_timer}
use rf.Timer.Pool.{Allocated, granted, alloc_timer-first, free_timer-alloc}
use rf.Examples.{no_message, some_pool, full_box, roomy_box, empty_box, small_kernel}

full_box_lem : IsQueued full_box (1 ∷ 2 ∷ [])
full_box_lem = record {
  head = refl;
  tail = refl;
  line = (refl, (refl, tt));
  distinct = (refl, (refl, tt));
  handles = (omega arith, omega arith, (omega arith, omega arith, tt));
  counted = omega arith;
}

roomy_box_lem : IsQueued roomy_box (1 ∷ 2 ∷ [])
roomy_box_lem = record {
  head = refl;
  tail = refl;
  line = (refl, (refl, tt));
  distinct = (refl, (refl, tt));
  handles = (omega arith, omega arith, (omega arith, omega arith, tt));
  counted = omega arith;
}

queue-appends_example :
    Returns
      (λ r c. (r ≡ e_ok) × IsQueued c (1 ∷ 2 ∷ 4 ∷ []) × SameData roomy_box c)
      (mbx_queue_msg (some 4) roomy_box)
unfolding is_repeat
queue-appends_example =
    queue-appends 4 roomy_box (1 ∷ 2 ∷ []) (omega arith) (omega arith) roomy_box_lem refl
      (omega arith) (omega arith) refl

-- The message 4 repeats the message 2.
abbrev again_box : Box
again_box = record roomy_box {
  pool = record some_pool {
    message = λ h. record (some_pool.message h) { d1 = if h == 4 then 2 else h };
  };
}

again_box_lem : IsQueued again_box (1 ∷ 2 ∷ [])
again_box_lem = record {
  head = refl;
  tail = refl;
  line = (refl, (refl, tt));
  distinct = (refl, (refl, tt));
  handles = (omega arith, omega arith, (omega arith, omega arith, tt));
  counted = omega arith;
}

queue-repeats_example :
    Returns
      (λ r c.
        (r ≡ e_ok)
        × IsQueued c (1 ∷ 2 ∷ [])
        × ((c.pool.free_msg ≡ 4) × (links c 4 ≡ 4) × ((c.pool.message 2).d1 ≡ 0x1_0002)))
      (mbx_queue_msg (some 4) again_box)
unfolding is_repeat
queue-repeats_example =
    queue-repeats 4 again_box 1 (2 ∷ []) (omega arith) (omega arith) again_box_lem refl
      (omega arith) (omega arith) refl

queue-refuses_example :
    Returns
      (λ r c.
        (r ≡ e_que_full)
        × IsQueued c (1 ∷ 2 ∷ [])
        × ((c.pool.free_msg ≡ 4) × (links c 4 ≡ 4))
        × (c.mbx.mq_missed ≡ 1))
      (mbx_queue_msg (some 4) full_box)
queue-refuses_example =
    queue-refuses 4 full_box (1 ∷ 2 ∷ []) (omega arith) (omega arith) full_box_lem refl refl
      (omega arith) refl (omega arith)

dequeue-oldest_example :
    Returns
      (λ r c.
        (r ≡ some 1)
        × IsQueued c (2 ∷ [])
        × ((a : ℕ)
            → ((c.pool.message a).d1 ≡ (full_box.pool.message a).d1)
              × ((c.pool.message a).d2 ≡ (full_box.pool.message a).d2)
              × ((c.pool.message a).d3 ≡ (full_box.pool.message a).d3)))
      (mbx_dequeue_msg full_box)
dequeue-oldest_example = dequeue-oldest 1 (2 ∷ []) full_box full_box_lem

empty_box_lem : IsQueued empty_box []
empty_box_lem = record {
  head = refl;
  tail = refl;
  line = tt;
  distinct = tt;
  handles = tt;
  counted = omega arith;
}

dequeue-empty_example :
    Returns (λ r c. (r ≡ none) × IsQueued c [] × (c.pool ≡ some_pool)) (mbx_dequeue_msg empty_box)
dequeue-empty_example = dequeue-empty empty_box empty_box_lem

send_msg-balanced_example : Ends (λ r c. c.held ≡ []) (send_msg 1 no_message small_kernel)
send_msg-balanced_example = send_msg-balanced 1 no_message small_kernel

post_msg-balanced_example : Ends (λ r c. c.held ≡ []) (post_msg 1 no_message small_kernel)
post_msg-balanced_example = post_msg-balanced 1 no_message small_kernel

box-IsQueued : IsQueued (box 1 small_kernel) (1 ∷ 2 ∷ [])
box-IsQueued = record {
  head = refl;
  tail = refl;
  line = (refl, (refl, tt));
  distinct = (refl, (refl, tt));
  handles = (omega arith, omega arith, (omega arith, omega arith, tt));
  counted = omega arith;
}

box-IsFree : IsFree (box 1 small_kernel) (4 ∷ 5 ∷ [])
box-IsFree = record { head = refl; line = (refl, (refl, tt)) }

free_queued-empties_example :
    Returns (Emptied 1 (2 ∷ 1 ∷ 4 ∷ 5 ∷ [])) (free_queued 3 1 small_kernel)
free_queued-empties_example =
    free_queued-empties 3 1 small_kernel (1 ∷ 2 ∷ []) (4 ∷ 5 ∷ []) box-IsQueued box-IsFree
      (refl, (refl, (refl, (refl, tt)))) (omega arith)

empty_mbx-empties_example :
    Returns (EmptiedOrBusy 1 (1 ∷ 2 ∷ []) (4 ∷ 5 ∷ []) small_kernel) (empty_mbx 1 small_kernel)
empty_mbx-empties_example =
    empty_mbx-empties 1 small_kernel (1 ∷ 2 ∷ []) (4 ∷ 5 ∷ []) (omega arith) (omega arith)
      box-IsQueued box-IsFree (refl, (refl, (refl, (refl, tt))))

alloc_timer-first_example : Returns (Allocated small_kernel) (alloc_timer small_kernel)
alloc_timer-first_example = alloc_timer-first small_kernel

free_timer-alloc_example :
    Returns
      (λ r c.
        (r ≡ pos e_ok)
        × (c.held ≡ [])
        × ((a : ℕ) → c.timers.taken a ≡ small_kernel.timers.taken a)
        × (((c.timers.tmr 5).owner ≡ 0) × (c.timers.enabled 5 ≡ false)))
      (free_timer 6 (granted 5 small_kernel))
free_timer-alloc_example = free_timer-alloc small_kernel 5 (omega arith) (omega arith) refl

lock_to_send-ends_example : Returns (Locked 1000 1 7 []) (lock_to_send 2 1 small_kernel)
lock_to_send-ends_example = lock_to_send-ends 1 small_kernel
